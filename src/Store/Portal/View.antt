-- ===== src/Store/Portal/View.antt =====
-- apps/api/src/services/platform-store.candidate-portal.ts: what an invitation shows.
use big_project.Common.{
  String, ◌≡◌, refl, sym, subst, ◌∙◌, inl, inr, true, false, none, List, [], ◌∷◌, map, arith, ◌=ₛ◌,
  Bool-cases, Option-cases, find, filter, find-passes, All, filter-All,
}
use big_project.Common.Result.{ok}
use big_project.Shared.Exams.{Question}
use big_project.Shared.Invites.{CandidateInvite}
use big_project.ExamAdmin.Table.{has_id}
use big_project.ExamAdmin.{is_deleted}
use big_project.Store.{Memory, has_invite_token}
use big_project.Store.Portal.{omit_expected_answer, invite_of, get_candidate_invite}

-- An invitation of the token's candidate to an exam that is not deleted. Its questions are of that
-- exam and without their answers, its devices the candidate's.
abbrev pub IsView : String → CandidateInvite → Type 0
IsView token invite =
    ((has_invite_token token invite.candidate ≡ true) × (is_deleted invite.exam.status ≡ false))
    × ((has_id invite.candidate.exam_id invite.exam ≡ true)
        × (All (λ q. (q.expected_answer ≡ none) × (q.exam_id =ₛ invite.exam.id ≡ true))
              invite.questions
            × All (λ d. d.candidate_id =ₛ invite.candidate.id ≡ true) invite.proctor_devices))

questions_view :
    (exam_id : String) (questions : List Question)
    → All
        (λ q. (q.expected_answer ≡ none) × (q.exam_id =ₛ exam_id ≡ true))
        (map omit_expected_answer (filter (λ q. q.exam_id =ₛ exam_id) questions))
questions_view exam_id [] = tt
questions_view exam_id (q ∷ questions) = ground (arith, questions_view exam_id questions)

-- An invitation that the memory gives is a view.
pub get_candidate_invite-IsView :
    (memory : Memory) (token : String) (invite : CandidateInvite)
    → get_candidate_invite (ok none) memory token ≡ ok invite
    → IsView token invite
unfolding get_candidate_invite
get_candidate_invite-IsView memory token invite h =
    elim (Option-cases (find (has_invite_token token) memory.candidates)) [
      | inl lost ↦ absurd (ground (arith, h, lost))
      | inr found ↦ elim (Option-cases (find (has_id found.0.exam_id) memory.exams)) [
        | inl gone ↦ absurd (ground (arith, h, found.1, gone))
        | inr exam ↦ elim (Bool-cases (is_deleted exam.0.status)) [
          | inl is ↦ absurd (ground (arith, h, found.1, exam.1, is))
          | inr isnt ↦
              let run : get_candidate_invite (ok none) memory token
                  ≡ ok (invite_of memory found.0 exam.0) =
                rw (get_candidate_invite, found.1, exam.1, isnt) refl in
              let same : invite_of memory found.0 exam.0 ≡ invite = ground (arith, sym run ∙ h) in
              subst (IsView token) same (
                (find-passes (has_invite_token token) memory.candidates found.0 found.1, isnt),
                (
                  find-passes (has_id found.0.exam_id) memory.exams exam.0 exam.1,
                  (
                    questions_view exam.0.id memory.questions,
                    filter-All (λ d. d.candidate_id =ₛ found.0.id) memory.proctor_devices,
                  ),
                ),
              )
        ]
      ]
    ]
