-- ===== src/Store/Workspace/Actions.antt =====
-- apps/api/src/services/platform-store.candidate-workspace.ts and platform-store.candidate-admin.ts:
-- the last word of the proctors decides whether a candidate goes on.
use big_project.Common.{
  insert_descending, String, ◌≡◌, refl, sym, ap, subst, ◌∙◌, inl, inr, Bool, true, false, ◌&&◌,
  none, some, List, [], ◌∷◌, arith, ◌=ₛ◌, leb, if◌then◌else◌, Bool-cases, filter, head?, All,
  All-filter, All-sort_descending, sort_descending,
}
use big_project.Common.Result.{Result, ok, throw, forbidden, ◌>>◌, Result-cases}
use big_project.Shared.{AuthSession}
use big_project.ExamAdmin.{can_view}
use big_project.Shared.Proctoring.{
  ProctorAction, ProctorActionType, warning_message, pause_exam, resume_exam, terminate_exam, memo,
  CreateProctorActionInput,
}
use big_project.Shared.Submissions.{ExamSession}
use big_project.Shared.Invites.{CandidateInvite}
use big_project.Store.{Memory, Source}
use big_project.Store.CandidateAdmin.{create_proctor_action, find_candidate_with_exam, new_action}
use big_project.Store.Workspace.{
  is_blocking, concerns, latest_memory_blocking_action, type_allows_exam,
  assert_proctor_action_allows_exam, open_in_memory,
}

-- Not later than the action.
abbrev pub is_earlier : ProctorAction → ProctorAction → Bool
is_earlier action other = leb other.created_at action.created_at

head-insert :
    (action : ProctorAction) (sorted : List ProctorAction)
    → All (λ a. is_earlier action a ≡ true) sorted
    → head? (insert_descending (λ a. a.created_at) action sorted) ≡ some action
head-insert action [] h = refl
head-insert action (a ∷ rest) h = ground (arith, h)

-- The latest action that concerns the candidate is the new one, unless the clock went back.
latest_new :
    (invite : CandidateInvite) (action : ProctorAction) (actions : List ProctorAction)
    → concerns invite action ≡ true
    → All (λ a. is_earlier action a ≡ true) actions
    → latest_memory_blocking_action invite (action ∷ actions) ≡ some action
unfolding latest_memory_blocking_action
latest_new invite action actions h older =
    let kept = All-filter (λ a. is_earlier action a ≡ true) (concerns invite) actions older in
    let sorted =
      All-sort_descending (λ a. is_earlier action a ≡ true) (λ a. a.created_at)
        (filter (concerns invite) actions) kept in
    rw (latest_memory_blocking_action, h)
      (head-insert action (sort_descending (λ a. a.created_at) (filter (concerns invite) actions))
        sorted)

latest_other :
    (invite : CandidateInvite) (action : ProctorAction) (actions : List ProctorAction)
    → concerns invite action ≡ false
    → latest_memory_blocking_action invite (action ∷ actions)
      ≡ latest_memory_blocking_action invite actions
unfolding latest_memory_blocking_action
latest_other invite action actions h = rw (latest_memory_blocking_action, h) refl

-- What the memory holds after an action of a proctor.
created :
    (source : Source) (memory : Memory) (session : AuthSession) (candidate_id : String)
    (input : CreateProctorActionInput) (actions : List ProctorAction) (action : ProctorAction)
    → create_proctor_action (ok none) (ok none) source memory session candidate_id input
      ≡ ok (actions, action)
    → (actions ≡ action ∷ memory.proctor_actions)
      × ((action.candidate_id ≡ candidate_id)
          × ((action.type ≡ input.type) × (action.created_at ≡ source.now)))
unfolding create_proctor_action
created source memory session candidate_id input actions action h =
    elim (Bool-cases (can_view session.user.role)) [
      | inr isnt ↦ absurd (ground (arith, h, isnt))
      | inl is ↦
          elim (Result-cases
            (find_candidate_with_exam (ok none) memory candidate_id (some session))) [
              | inl thrown ↦ absurd (ground (arith, h, is, thrown.1))
              | inr found ↦
                  let new = new_action source candidate_id found.0.1.id input in
                  let run : create_proctor_action (ok none) (ok none) source memory session
                        candidate_id input
                      ≡ ok (new ∷ memory.proctor_actions, new) =
                    rw (create_proctor_action, is, found.1) refl in
                  let same : ◌≡◌ {A = List ProctorAction × ProctorAction}
                      (new ∷ memory.proctor_actions, new) (actions, action) =
                    ground (arith, sym run ∙ h) in
                  (
                    sym (ap (λ r. r.0) same)
                        ∙ ap (λ a. a ∷ memory.proctor_actions) (ap (λ r. r.1) same),
                    (
                      sym (ap (λ r. r.1.candidate_id) same),
                      (sym (ap (λ r. r.1.type) same), sym (ap (λ r. r.1.created_at) same)),
                    ),
                  )
            ]
    ]

opened_after :
    (at : Source) (invite : CandidateInvite) (action : ProctorAction) (actions : List ProctorAction)
    (sessions : List ExamSession)
    → concerns invite action ≡ true
    → All (λ a. is_earlier action a ≡ true) actions
    → open_in_memory at invite (action ∷ actions) sessions
      ≡ (type_allows_exam action.type >> open_in_memory at invite [] sessions)
unfolding open_in_memory assert_proctor_action_allows_exam
opened_after at invite action actions sessions h older =
    rw (open_in_memory, latest_new invite action actions h older) refl

opened_other :
    (at : Source) (invite : CandidateInvite) (action : ProctorAction) (actions : List ProctorAction)
    (sessions : List ExamSession)
    → concerns invite action ≡ false
    → open_in_memory at invite (action ∷ actions) sessions
      ≡ open_in_memory at invite actions sessions
unfolding open_in_memory
opened_other at invite action actions sessions h =
    rw (open_in_memory, latest_other invite action actions h) refl

-- The same in the words of the code.
opened_by_type :
    (source at : Source) (memory : Memory) (session : AuthSession) (candidate_id : String)
    (input : CreateProctorActionInput) (actions : List ProctorAction) (action : ProctorAction)
    (invite : CandidateInvite) (sessions : List ExamSession)
    → create_proctor_action (ok none) (ok none) source memory session candidate_id input
      ≡ ok (actions, action)
    → All (λ a. leb a.created_at source.now ≡ true) memory.proctor_actions
    → open_in_memory at invite actions sessions ≡ (
        if candidate_id =ₛ invite.candidate.id && is_blocking input.type
        then type_allows_exam input.type >> open_in_memory at invite [] sessions
        else open_in_memory at invite memory.proctor_actions sessions)
opened_by_type source at memory session candidate_id input actions action invite sessions h older =
    let made = created source memory session candidate_id input actions action h in
    let earlier : All (λ a. is_earlier action a ≡ true) memory.proctor_actions =
      subst (λ now. All (λ a. leb a.created_at now ≡ true) memory.proctor_actions) (sym made.1.1.1)
        older in
    let list = ap (λ l. open_in_memory at invite l sessions) made.0 in
    let test : concerns invite action
        ≡ (candidate_id =ₛ invite.candidate.id && is_blocking input.type) =
      rw (made.1.0, made.1.1.0) refl in
    elim (Bool-cases (concerns invite action)) [
      | inl is ↦
          let passes = sym test ∙ is in
          rw (passes) (
            list
            ∙ opened_after at invite action memory.proctor_actions sessions is earlier
            ∙ ap (λ t. type_allows_exam t >> open_in_memory at invite [] sessions) made.1.1.0)
      | inr isnt ↦
          let fails = sym test ∙ isnt in
          rw (fails) (list ∙ opened_other at invite action memory.proctor_actions sessions isnt)
    ]

-- What becomes of the opening of a session: `as_new` is what it does without any action, `as_before`
-- what it did before this one.
abbrev pub after_action :
    ProctorActionType
    → Result (List ExamSession)
    → Result (List ExamSession)
    → Result (List ExamSession)
after_action pause_exam as_new as_before = throw forbidden
after_action terminate_exam as_new as_before = throw forbidden
after_action resume_exam as_new as_before = as_new
after_action warning_message as_new as_before = as_before
after_action memo as_new as_before = as_before

by_action :
    (type : ProctorActionType) (of_candidate : Bool) (as_new as_before : Result (List ExamSession))
    → (if of_candidate && is_blocking type then type_allows_exam type >> as_new else as_before)
      ≡ (if of_candidate then after_action type as_new as_before else as_before)
by_action pause_exam of_candidate as_new as_before = ground arith
by_action terminate_exam of_candidate as_new as_before = ground arith
by_action resume_exam of_candidate as_new as_before = ground arith
by_action warning_message of_candidate as_new as_before = ground arith
by_action memo of_candidate as_new as_before = ground arith

-- Unless the clock of the server went back, the last action of a proctor decides for its candidate:
-- after a PAUSE or a TERMINATE the session does not open, after a RESUME it opens as if there were
-- no action, and after a warning or a memo as before. For other candidates nothing changes.
pub create_proctor_action-open_in_memory :
    (source at : Source) (memory : Memory) (session : AuthSession) (candidate_id : String)
    (input : CreateProctorActionInput) (actions : List ProctorAction) (action : ProctorAction)
    (invite : CandidateInvite) (sessions : List ExamSession)
    → create_proctor_action (ok none) (ok none) source memory session candidate_id input
      ≡ ok (actions, action)
    → All (λ a. leb a.created_at source.now ≡ true) memory.proctor_actions
    → open_in_memory at invite actions sessions ≡ (
        if candidate_id =ₛ invite.candidate.id
        then after_action input.type
            (open_in_memory at invite [] sessions)
            (open_in_memory at invite memory.proctor_actions sessions)
        else open_in_memory at invite memory.proctor_actions sessions)
create_proctor_action-open_in_memory source at memory session candidate_id input actions action
      invite sessions h older =
    opened_by_type source at memory session candidate_id input actions action invite sessions h
      older
    ∙ by_action input.type (candidate_id =ₛ invite.candidate.id)
        (open_in_memory at invite [] sessions)
        (open_in_memory at invite memory.proctor_actions sessions)
