-- ===== src/Store/Facade/Gates.antt =====
-- apps/api/src/services/platform-store.service.ts: what has been checked before a result of a
-- candidate is stored.
use big_project.Common.{
  ◌<◌, String, ◌≡◌, refl, sym, ap, subst, ◌∙◌, ◌⊎◌, inl, inr, Bool, true, false, not, none, List,
  arith, ◌=ₛ◌, leb, any,
}
use big_project.Common.Result.{
  Result, ok, throw, Exception, forbidden, not_found, ◌>>◌, throw_if, Result-cases,
}
use big_project.Shared.Proctoring.{ProctorAction}
use big_project.Shared.Submissions.{Submission, CodeExecution, CodeDraft, CodeInput, ExamSession}
use big_project.Shared.Invites.{CandidateInvite}
use big_project.Store.{Memory, Source}
use big_project.Store.Portal.{get_candidate_invite}
use big_project.Store.Workspace.{
  ensure_memory_exam_session, latest_memory_blocking_action, assert_proctor_action_allows_exam,
  open_in_memory, assert_candidate_can_use_workspace,
}
use big_project.Store.Workspace.Resumed.{IsResumed, allows-IsResumed}
use big_project.Store.Workspace.Gate.{
  may_work, MayWork, may_work-MayWork, assert_candidate_can_use_workspace_iff,
}
use big_project.Store.Execution.{
  assert_question_belongs_to_invite, assert_language_can_run, save_in_memory,
}
use big_project.Store.Facade.{
  Service, Call, ◌>>>◌, check, get_candidate_invite_for_internal_use, get_invite_for_workspace_use,
  open_exam_session, save_candidate_draft, run_code, submit_code, store_run, store_submission,
}

-- The parts of a call that ends in a value.
then-ok {ℓ κ} :
    {T : Type ℓ} {U : Type κ} (run : Memory × Result T) (next : Memory → T → Memory × Result U)
    (u : U)
    → (run >>> next).1 ≡ ok u
    → (t : T) × ((run.1 ≡ ok t) × ((next run.0 t).1 ≡ ok u))
then-ok (memory, throw e) next u h = ground (arith, h)
then-ok (memory, ok t) next u h = (t, (refl, h))

-- Checks change nothing.
then_check-keeps {ℓ κ} :
    {T : Type ℓ} {U : Type κ} (run : Memory × Result T) (f : T → Result U)
    → (run >>> (λ m t. check m (f t))).0 ≡ run.0
then_check-keeps (memory, throw e) f = refl
then_check-keeps (memory, ok t) f = refl

check-then-ok {ℓ} :
    {U : Type ℓ} (r : Result (Unit {0})) (next : Result U) (u : U)
    → r >> next ≡ ok u
    → (r ≡ ok tt) × (next ≡ ok u)
check-then-ok (throw e) next u h = ground (arith, h)
check-then-ok (ok tt) next u h = (refl, h)

throw_if-ok : (b : Bool) (e : Exception) → throw_if b e ≡ ok tt → b ≡ false
throw_if-ok true e h = ground (arith, h)
throw_if-ok false e h = refl

-- Every pause and termination of the candidate has been overruled, and the candidate's session, if
-- there is one, has a second left at least. A session that starts now lasts a second at least.
abbrev pub MayContinue : Source → CandidateInvite → List ProctorAction → List ExamSession → Type 0
MayContinue source invite actions sessions =
    IsResumed invite.candidate.id actions
    × (0 < (ensure_memory_exam_session source invite sessions).0.remaining_seconds)

open_in_memory-MayContinue :
    (source : Source) (invite : CandidateInvite) (actions : List ProctorAction)
    (sessions opened : List ExamSession)
    → open_in_memory source invite actions sessions ≡ ok opened
    → MayContinue source invite actions sessions
unfolding open_in_memory
open_in_memory-MayContinue source invite actions sessions opened h =
    let ensured = ensure_memory_exam_session source invite sessions in
    let expired = leb ensured.0.remaining_seconds 0 in
    let rest : Result (List ExamSession) = throw_if expired forbidden >> ok ensured.1 in
    let first =
      check-then-ok
        (assert_proctor_action_allows_exam (latest_memory_blocking_action invite actions)) rest
        opened h in
    let second = check-then-ok (throw_if expired forbidden) (ok ensured.1) opened first.1 in
    let left : leb ensured.0.remaining_seconds 0 ≡ false = throw_if-ok expired forbidden second.0 in
    (allows-IsResumed invite actions first.0, ground (arith, left))

module _ (service : Service) (call : Call) where
  -- The invitation that a call of a candidate works on, after stale devices were disconnected.
  internal_use-ok :
      (memory : Memory) (token : String) (invite : CandidateInvite)
      → (get_candidate_invite_for_internal_use service call memory token).1 ≡ ok invite
      → get_candidate_invite
          (ok none)
          (get_candidate_invite_for_internal_use service call memory token).0
          token
        ≡ ok invite
  unfolding get_candidate_invite_for_internal_use
  internal_use-ok memory token invite h =
      elim (Result-cases (get_candidate_invite (ok none) memory token)) [
        | inl thrown ↦ ground (arith, h, thrown.1)
        | inr done ↦ ground (arith, h, done.1)
      ]

  workspace_use-ok :
      (memory : Memory) (token : String) (invite : CandidateInvite)
      → (get_invite_for_workspace_use service call memory token).1 ≡ ok invite
      → let after = (get_invite_for_workspace_use service call memory token).0 in
        (get_candidate_invite (ok none) after token ≡ ok invite)
        × (may_work call.opening.now invite ≡ true)
  unfolding get_invite_for_workspace_use
  workspace_use-ok memory token invite h =
      let run = get_candidate_invite_for_internal_use service call memory token in
      let next : Memory → CandidateInvite → Memory × Result CandidateInvite =
        λ m i. check m (assert_candidate_can_use_workspace call.opening.now i >> ok i) in
      let parts = then-ok run next invite h in
      let found = parts.0 in
      let gate =
        check-then-ok (assert_candidate_can_use_workspace call.opening.now found) (ok found) invite
          parts.1.1 in
      let same : found ≡ invite = ground (arith, gate.1) in
      let token_of = internal_use-ok memory token found parts.1.0 in
      let after : (get_invite_for_workspace_use service call memory token).0 ≡ run.0 =
        then_check-keeps run (λ i. assert_candidate_can_use_workspace call.opening.now i >> ok i) in
      (
        ap (λ m. get_candidate_invite (ok none) m token) after ∙ token_of ∙ ap ok same,
        subst (λ i. may_work call.opening.now i ≡ true) same
            ((assert_candidate_can_use_workspace_iff call.opening.now found).0 gate.0),
      )

  open_exam_session-ok :
      (memory : Memory) (invite : CandidateInvite)
      → (open_exam_session service call memory invite).1 ≡ ok tt
      → MayContinue call.opening invite memory.proctor_actions memory.exam_sessions
  unfolding open_exam_session
  open_exam_session-ok memory invite h =
      elim (Result-cases
        (open_in_memory call.opening invite memory.proctor_actions memory.exam_sessions)) [
          | inl thrown ↦ ground (arith, h, thrown.1)
          | inr done ↦
              open_in_memory-MayContinue call.opening invite memory.proctor_actions
                memory.exam_sessions done.0 done.1
        ]

  -- What a call has checked once it stores a draft, a run or a submission.
  abbrev pub IsAdmitted : Memory → String → CodeInput → Type 0
  IsAdmitted memory token input =
      let after = (get_invite_for_workspace_use service call memory token).0 in
      (invite : CandidateInvite) × ((get_candidate_invite (ok none) after token ≡ ok invite)
        × (MayWork call.opening.now invite
            × ((any (λ question. question.id =ₛ input.question_id) invite.questions ≡ true)
                × MayContinue call.opening invite after.proctor_actions after.exam_sessions)))

  question-ok :
      (invite : CandidateInvite) (id : String)
      → assert_question_belongs_to_invite invite id ≡ ok tt
      → any (λ question. question.id =ₛ id) invite.questions ≡ true
  unfolding assert_question_belongs_to_invite
  question-ok invite id h =
      ground (arith, throw_if-ok (not (any (λ q. q.id =ₛ id) invite.questions)) not_found h)

  -- A call that passes the gates, `assert` among them, and then does the rest.
  admitted {ℓ} :
      {T : Type ℓ} (memory : Memory) (token : String) (input : CodeInput)
      (assert : CandidateInvite → Result (Unit {0}))
      (store : Memory → CandidateInvite → Memory × Result T) (t : T)
      → (get_invite_for_workspace_use service call memory token
          >>> (λ memory invite. check memory (
              assert_question_belongs_to_invite invite input.question_id
              >> (assert invite >> ok invite)))
          >>> (λ memory invite.
              open_exam_session service call memory invite
              >>> (λ memory done. store memory invite))).1
        ≡ ok t
      → IsAdmitted memory token input
  admitted memory token input assert store t h =
      let run = get_invite_for_workspace_use service call memory token in
      let gate : Memory → CandidateInvite → Memory × Result CandidateInvite = λ m i.
        check m (assert_question_belongs_to_invite i input.question_id >> (assert i >> ok i)) in
      let enter : Memory → CandidateInvite → Memory × Result (Unit {0}) =
        open_exam_session service call in
      let outer = then-ok (run >>> gate) (λ m i. enter m i >>> (λ n done. store n i)) t h in
      let inner = then-ok run gate outer.0 outer.1.0 in
      let question =
        check-then-ok (assert_question_belongs_to_invite inner.0 input.question_id)
          (assert inner.0 >> ok inner.0) outer.0 inner.1.1 in
      let extra = check-then-ok (assert inner.0) (ok inner.0) outer.0 question.1 in
      let same : inner.0 ≡ outer.0 = ground (arith, extra.1) in
      let after : (run >>> gate).0 ≡ run.0 =
        then_check-keeps run
          (λ i. assert_question_belongs_to_invite i input.question_id >> (assert i >> ok i)) in
      let opened =
        then-ok (enter (run >>> gate).0 outer.0) (λ n done. store n outer.0) t outer.1.1 in
      let goes_on : MayContinue call.opening outer.0 (run >>> gate).0.proctor_actions
          (run >>> gate).0.exam_sessions =
        open_exam_session-ok (run >>> gate).0 outer.0 opened.1.0 in
      let used = workspace_use-ok memory token inner.0 inner.1.0 in
      (
        inner.0,
        (
          used.0,
          (
            may_work-MayWork call.opening.now inner.0 used.1,
            (
              question-ok inner.0 input.question_id question.0,
              subst (λ m. MayContinue call.opening inner.0 m.proctor_actions m.exam_sessions) after
                  (subst
                    (λ i.
                      MayContinue call.opening i (run >>> gate).0.proctor_actions
                        (run >>> gate).0.exam_sessions)
                    (sym same) goes_on),
            ),
          ),
        ),
      )

  -- An operation that gives its answer has admitted the candidate.
  pub answered-IsAdmitted :
      (memory : Memory) (token : String) (input : CodeInput)
      → ((draft : CodeDraft) × ((save_candidate_draft service call memory token input).1
            ≡ ok draft))
        ⊎ (((execution : CodeExecution) × ((run_code service call memory token input).1
                ≡ ok execution))
            ⊎ ((submission : Submission) × ((submit_code service call memory token input).1
                  ≡ ok submission)))
      → IsAdmitted memory token input
  unfolding save_candidate_draft run_code submit_code
  answered-IsAdmitted memory token input (inl h) =
      admitted memory token input
        (λ invite. assert_language_can_run service.texts invite input.language)
        (λ m invite.
          let saved = save_in_memory call.storing invite input m.code_drafts in
          (record m { code_drafts = saved.0 }, ok saved.1))
        h.0 h.1
  answered-IsAdmitted memory token input (inr (inl h)) =
      admitted memory token input
        (λ invite. assert_language_can_run service.texts invite input.language)
        (λ m invite. store_run service call m invite input) h.0 h.1
  answered-IsAdmitted memory token input (inr (inr h)) =
      admitted memory token input (λ invite. ok tt)
        (λ m invite. store_submission service call m invite input) h.0 h.1
