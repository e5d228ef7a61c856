-- ===== src/Store/Execution/Drafts.antt =====
-- apps/api/src/services/platform-store.execution.ts: saved drafts.
use big_project.Common.{
  String, ◌≡◌, refl, inl, inr, Bool, true, false, not, ◌&&◌, ◌||◌, Option, none, some, List, [],
  ◌∷◌, arith, eq_iff, eq_refl, ◌=ₛ◌, Bool-cases, find, filter, all, find-passes,
}
use big_project.Shared.Submissions.{CodeDraft, CodeInput}
use big_project.Shared.Invites.{CandidateInvite}
use big_project.Store.{Source}
use big_project.Store.Execution.{has_draft_key, saved_draft, save_in_memory}

-- The key of a draft: who, which question, which language.
abbrev pub draft_key_is : String → String → String → CodeDraft → Bool
draft_key_is candidate_id question_id language draft =
    (draft.candidate_id =ₛ candidate_id && draft.question_id =ₛ question_id)
    && draft.language =ₛ language

abbrev pub IsUnique : List CodeDraft → Type 0
IsUnique [] = Unit
IsUnique (d ∷ ds) = (all (λ e. not (e.id =ₛ d.id)) ds ≡ true) × IsUnique ds

find-filter_id :
    (p : CodeDraft → Bool) (id : String) (drafts : List CodeDraft)
    → all (λ d. not (d.id =ₛ id) || not (p d)) drafts ≡ true
    → find p (filter (λ d. not (d.id =ₛ id)) drafts) ≡ find p drafts
find-filter_id p id [] h = refl
find-filter_id p id (d ∷ ds) h = ground (arith, find-filter_id p id ds, h)

not_found_in :
    (q : CodeDraft → Bool) (id : String) (drafts : List CodeDraft) (found : CodeDraft)
    → all (λ e. not (e.id =ₛ id)) drafts ≡ true
    → find q drafts ≡ some found
    → found.id =ₛ id ≡ false
not_found_in q id [] found h f = absurd (ground (arith, f))
not_found_in q id (d ∷ ds) found h f = elim (Bool-cases (q d)) [
  | inr isnt ↦ not_found_in q id ds found (ground (arith, h)) (ground (arith, f, isnt))
  | inl is ↦ let same : some d ≡ some found = ground (arith, f, is) in ground (arith, h, same)
]

weaken_ids :
    (p : CodeDraft → Bool) (id : String) (drafts : List CodeDraft)
    → all (λ e. not (e.id =ₛ id)) drafts ≡ true
    → all (λ d. not (d.id =ₛ id) || not (p d)) drafts ≡ true
weaken_ids p id [] h = refl
weaken_ids p id (d ∷ ds) h = ground (arith, weaken_ids p id ds)

only_found :
    (p q : CodeDraft → Bool) (drafts : List CodeDraft) (found : CodeDraft)
    → IsUnique drafts
    → find q drafts ≡ some found
    → p found ≡ false
    → all (λ d. not (d.id =ₛ found.id) || not (p d)) drafts ≡ true
only_found p q [] found h f pf = refl
only_found p q (d ∷ ds) found h f pf = elim (Bool-cases (q d)) [
  | inl is ↦
      let same : some d ≡ some found = ground (arith, f, is) in
      let rest = weaken_ids p d.id ds h.0 in ground (arith, same, rest, pf)
  | inr isnt ↦
      let tail : find q ds ≡ some found = ground (arith, f, isnt) in
      let apart = not_found_in q d.id ds found h.0 tail in
      let rest = only_found p q ds found h.1 tail pf in
      ground (arith, apart, rest, eq_iff d.id found.id, eq_iff found.id d.id)
]

module _ (source : Source) (invite : CandidateInvite) (input : CodeInput) where
  other_key :
      (candidate_id question_id language : String) (drafts : List CodeDraft)
      (existing : Option CodeDraft)
      → IsUnique drafts
      → all (λ d. not (d.id =ₛ source.new_id)) drafts ≡ true
      → find (has_draft_key invite input) drafts ≡ existing
      → draft_key_is candidate_id question_id language (saved_draft source invite input existing)
        ≡ false
      → all
          (λ d.
            not (d.id =ₛ (saved_draft source invite input existing).id)
            || not (draft_key_is candidate_id question_id language d))
          drafts
        ≡ true
  other_key candidate_id question_id language drafts none unique fresh h other =
      weaken_ids (draft_key_is candidate_id question_id language) source.new_id drafts fresh
  other_key candidate_id question_id language drafts (some found) unique fresh h other =
      let passes = find-passes (has_draft_key invite input) drafts found h in
      let candidate : found.candidate_id ≡ invite.candidate.id =
        ground (arith, passes, eq_iff found.candidate_id invite.candidate.id) in
      let question : found.question_id ≡ input.question_id =
        ground (arith, passes, eq_iff found.question_id input.question_id) in
      let language_of : found.language ≡ input.language =
        ground (arith, passes, eq_iff found.language input.language) in
      only_found (draft_key_is candidate_id question_id language) (has_draft_key invite input)
        drafts found unique h (rw (candidate, question, language_of) other)

  -- A saved draft is read back under its key, with its code, and every other key leads to the same
  -- draft as before, if the drafts have distinct identifiers and a new identifier is new.
  pub find-save_in_memory :
      (drafts : List CodeDraft) (candidate_id question_id language : String)
      → IsUnique drafts
      → all (λ d. not (d.id =ₛ source.new_id)) drafts ≡ true
      → draft_key_is candidate_id question_id language (save_in_memory source invite input drafts).1
        ≡ false
      → let saved = save_in_memory source invite input drafts in
        (find (has_draft_key invite input) saved.0 ≡ some saved.1)
        × ((saved.1.code ≡ input.code)
            × (find (draft_key_is candidate_id question_id language) saved.0
                ≡ find (draft_key_is candidate_id question_id language) drafts))
  unfolding save_in_memory
  find-save_in_memory drafts candidate_id question_id language unique fresh other =
      let existing = find (has_draft_key invite input) drafts in
      let draft = saved_draft source invite input existing in
      let rest =
        find-filter_id (draft_key_is candidate_id question_id language) draft.id drafts
          (other_key candidate_id question_id language drafts existing unique fresh refl other) in
      (
        ground
            (arith, eq_refl invite.candidate.id, eq_refl input.question_id, eq_refl input.language),
        (refl, rw (other) rest),
      )
