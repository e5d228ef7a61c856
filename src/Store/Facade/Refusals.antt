-- ===== src/Store/Facade/Refusals.antt =====
-- apps/api/src/services/platform-store.service.ts: what a call that throws leaves behind.
use big_project.Common.{String, ◌≡◌, refl, ◌∙◌, ◌⊎◌, inl, inr, true, none, List, if◌then◌else◌}
use big_project.Common.Result.{Result, ok, throw, ◌>>=◌, ◌>>◌, Result-cases}
use big_project.Shared.Exams.{Candidate}
use big_project.Shared.Submissions.{Submission, CodeExecution, CodeDraft, CodeInput}
use big_project.Shared.Invites.{CandidateInvite}
use big_project.Store.{Memory}
use big_project.Store.Portal.{get_candidate_invite}
use big_project.Store.Workspace.{open_in_memory, assert_candidate_can_use_workspace}
use big_project.Store.Execution.{
  assert_question_belongs_to_invite, assert_language_can_run, save_in_memory,
  get_question_test_cases, get_question_for_evaluation, run_candidate_code, submit_candidate_code,
  is_coding,
}
use big_project.Store.Results.{to_candidate_code_execution, to_candidate_submission}
use big_project.Store.Facade.{
  allowed_test_cases, Service, Call, ◌>>>◌, check, mark_stale_proctor_devices,
  get_candidate_invite_for_internal_use, get_invite_for_workspace_use, open_exam_session,
  save_candidate_draft, run_code, submit_code, store_run, store_submission,
}

-- The work that the memory keeps of the candidates.
pub record Work : Type 0 where
  pub submissions : List Submission
  pub code_executions : List CodeExecution
  pub code_drafts : List CodeDraft
  pub candidates : List Candidate

abbrev pub work_of : Memory → Work
work_of memory = record {
  submissions = memory.submissions;
  code_executions = memory.code_executions;
  code_drafts = memory.code_drafts;
  candidates = memory.candidates;
}

-- A result, or the same work as before.
abbrev pub AnswersOrKeeps {ℓ} : {T : Type ℓ} → Memory → Memory × Result T → Type ℓ
AnswersOrKeeps {T = T} memory run = ((t : T) × (run.1 ≡ ok t)) ⊎ (work_of run.0 ≡ work_of memory)

-- A step that keeps the work, then one that answers or keeps it.
then_keeps {ℓ κ} :
    {T : Type ℓ} {U : Type κ} (memory : Memory) (run : Memory × Result T)
    (next : Memory → T → Memory × Result U)
    → work_of run.0 ≡ work_of memory
    → ((t : T) → AnswersOrKeeps run.0 (next run.0 t))
    → AnswersOrKeeps memory (run >>> next)
then_keeps memory (after, throw e) next kept rest = inr kept
then_keeps memory (after, ok t) next kept rest = elim (rest t) [
  | inl answer ↦ inl answer
  | inr same ↦ inr (same ∙ kept)
]

keeps_then {ℓ κ} :
    {T : Type ℓ} {U : Type κ} (memory : Memory) (run : Memory × Result T)
    (next : Memory → T → Memory × Result U)
    → work_of run.0 ≡ work_of memory
    → ((t : T) → work_of (next run.0 t).0 ≡ work_of run.0)
    → work_of (run >>> next).0 ≡ work_of memory
keeps_then memory (after, throw e) next kept rest = kept
keeps_then memory (after, ok t) next kept rest = rest t ∙ kept

check_answers {ℓ κ} :
    {T : Type ℓ} {U : Type κ} (memory : Memory) (r : Result T) (store : Memory → T → Memory)
    (answer : T → U)
    → AnswersOrKeeps memory (check memory r >>> (λ m t. (store m t, ok (answer t))))
check_answers memory (throw e) store answer = inr refl
check_answers memory (ok t) store answer = inl (answer t, refl)

module _ (service : Service) (call : Call) where
  stale_keeps :
      (memory : Memory) (exam_id : String)
      → work_of (mark_stale_proctor_devices service call memory exam_id) ≡ work_of memory
  unfolding mark_stale_proctor_devices
  stale_keeps memory exam_id = refl

  internal_use_keeps :
      (memory : Memory) (token : String)
      → work_of (get_candidate_invite_for_internal_use service call memory token).0 ≡ work_of memory
  unfolding get_candidate_invite_for_internal_use
  internal_use_keeps memory token =
      keeps_then memory (check memory (get_candidate_invite (ok none) memory token))
        (λ m invite. check (mark_stale_proctor_devices service call m invite.exam.id) (
          get_candidate_invite (ok none) (mark_stale_proctor_devices service call m invite.exam.id)
            token))
        refl (λ invite. stale_keeps memory invite.exam.id)

  workspace_use_keeps :
      (memory : Memory) (token : String)
      → work_of (get_invite_for_workspace_use service call memory token).0 ≡ work_of memory
  unfolding get_invite_for_workspace_use
  workspace_use_keeps memory token =
      keeps_then memory (get_candidate_invite_for_internal_use service call memory token)
        (λ m invite.
          check m (assert_candidate_can_use_workspace call.opening.now invite >> ok invite))
        (internal_use_keeps memory token) (λ invite. refl)

  open_keeps :
      (memory : Memory) (invite : CandidateInvite)
      → work_of (open_exam_session service call memory invite).0 ≡ work_of memory
  unfolding open_exam_session
  open_keeps memory invite =
      elim (Result-cases
        (open_in_memory call.opening invite memory.proctor_actions memory.exam_sessions)) [
          | inl thrown ↦ rw (open_exam_session, thrown.1) refl
          | inr sessions ↦ rw (open_exam_session, sessions.1) refl
        ]

  -- The common shape of the three operations.
  gated {ℓ} :
      {T : Type ℓ} (memory : Memory) (token : String) (input : CodeInput)
      (assert : CandidateInvite → Result (Unit {0}))
      (store : Memory → CandidateInvite → Memory × Result T)
      → ((m : Memory) (invite : CandidateInvite) → AnswersOrKeeps m (store m invite))
      → AnswersOrKeeps memory (
          get_invite_for_workspace_use service call memory token
          >>> (λ memory invite. check memory (
              assert_question_belongs_to_invite invite input.question_id
              >> (assert invite >> ok invite)))
          >>> (λ memory invite.
              open_exam_session service call memory invite
              >>> (λ memory done. store memory invite)))
  gated memory token input assert store answers =
      let run = get_invite_for_workspace_use service call memory token in
      let gate : Memory → CandidateInvite → Memory × Result CandidateInvite = λ m i.
        check m (assert_question_belongs_to_invite i input.question_id >> (assert i >> ok i)) in
      then_keeps memory (run >>> gate)
        (λ m i. open_exam_session service call m i >>> (λ n done. store n i))
        (keeps_then memory run gate (workspace_use_keeps memory token) (λ invite. refl))
        (λ invite.
          then_keeps (run >>> gate).0 (open_exam_session service call (run >>> gate).0 invite)
            (λ n done. store n invite) (open_keeps (run >>> gate).0 invite)
            (λ done. answers (open_exam_session service call (run >>> gate).0 invite).0 invite))

  run_answers :
      (input : CodeInput) (m : Memory) (invite : CandidateInvite)
      → AnswersOrKeeps m (store_run service call m invite input)
  unfolding store_run
  run_answers input m invite =
      check_answers m
        (get_question_test_cases (ok none) m input.question_id true >>= (λ test_cases.
          run_candidate_code
            (service.judge input.language input.code test_cases invite.candidate.id) (ok none)
            call.storing call.result_id invite input m.code_executions))
        (λ m done. record m { code_executions = done.0 })
        (λ done. to_candidate_code_execution done.1)

  submission_answers :
      (input : CodeInput) (m : Memory) (invite : CandidateInvite)
      → AnswersOrKeeps m (store_submission service call m invite input)
  unfolding store_submission
  submission_answers input m invite =
      check_answers m
        (get_question_for_evaluation (ok none) m invite input.question_id >>= (λ question.
          (if is_coding question.type
            then assert_language_can_run service.texts invite input.language
            else ok tt)
          >> (allowed_test_cases m question input.question_id >>= (λ test_cases.
              submit_candidate_code service.texts service.numbers
                (service.judge input.language input.code test_cases invite.candidate.id) (ok none)
                call.storing call.result_id invite input question m))))
        (λ m done. record m { submissions = done.0.0; candidates = done.0.1 })
        (λ done. to_candidate_submission done.1)

  -- A draft, a run or a submission that is refused leaves no trace in the work of any candidate:
  -- each operation gives its answer, or the submissions, runs, drafts and candidates are as before.
  pub save_candidate_draft-run_code-submit_code-AnswersOrKeeps :
      (memory : Memory) (token : String) (input : CodeInput)
      → AnswersOrKeeps memory (save_candidate_draft service call memory token input)
        × (AnswersOrKeeps memory (run_code service call memory token input)
            × AnswersOrKeeps memory (submit_code service call memory token input))
  unfolding save_candidate_draft run_code submit_code
  save_candidate_draft-run_code-submit_code-AnswersOrKeeps memory token input = (
    gated memory token input (λ invite. assert_language_can_run service.texts invite input.language)
        (λ m invite.
          let saved = save_in_memory call.storing invite input m.code_drafts in
          (record m { code_drafts = saved.0 }, ok saved.1))
        (λ m invite. inl ((save_in_memory call.storing invite input m.code_drafts).1, refl)),
    (
      gated memory token input
          (λ invite. assert_language_can_run service.texts invite input.language)
          (λ m invite. store_run service call m invite input) (run_answers input),
      gated memory token input (λ invite. ok tt)
          (λ m invite. store_submission service call m invite input) (submission_answers input),
    ),
  )
