-- ===== src/Store/Facade.antt =====
-- apps/api/src/services/platform-store.service.ts: `PlatformStore` on its memory, the operations of
-- candidates and proctors. A call changes the memory and ends in a result; what it changed before an
-- exception stays changed. The judge, a component of its own, is an argument.
pub mod Gates
pub mod Refusals
pub mod Admission
mod Tests
use big_project.Common.{
  ℕ, zero, suc, ◌+◌, ◌-◌, ◌*◌, ◌/◌, ◌%◌, ◌≤◌, ◌<◌, min, max, String, ◌≡◌, refl, sym, ap, subst, ◌∙◌,
  ◌≢◌, ◌↔◌, ◌⊎◌, inl, inr, Bool, true, false, not, ◌&&◌, ◌||◌, Option, none, some, List, [], ◌∷◌,
  ◌++◌, map, arith, eq_iff, eq_refl, ◌=ₛ◌, ltb, leb, ◌==◌, if◌then◌else◌, optional, ltb→lt, lt→ltb,
  le→leb, Bool-cases, Option-cases, length, find, filter, any, all, head?, length-append,
  length-filter-le, find-passes, All, All-append, All-filter, filter-All, All-sort_descending,
  sort_descending, take, is_empty, before, includes_char,
}
use big_project.Common.Result.{
  Result, ok, throw, Exception, bad_request, unauthorized, forbidden, not_found, conflict,
  too_many_requests, service_unavailable, ◌>>=◌, ◌>>◌, throw_if, or_throw, Result-cases,
}
use big_project.Shared.{AuthSession}
use big_project.Shared.Exams.{
  Exam, Question, TestCase, Candidate, CreateQuestionInput, CreateTestCaseInput,
  CreateCandidateInput,
}
use big_project.Shared.Proctoring.{
  ProctorEventType, tab_hidden, tab_visible, window_blur, window_focus, copy, paste,
  fullscreen_exit, fullscreen_enter, primary_camera_connected, primary_camera_disconnected,
  primary_camera_permission_denied, mobile_camera_connected, mobile_camera_disconnected,
  mobile_camera_permission_denied, mobile_page_hidden, mobile_page_visible, mobile_page_left,
  mobile_network_offline, mobile_network_online, mobile_heartbeat_missed, ProctorDeviceRole,
  primary_pc, mobile_aux, ProctorDeviceStatus, waiting, connected, disconnected, permission_denied,
  ProctorRiskLevel, safe, warning, danger, ProctorActionType, warning_message, pause_exam,
  resume_exam, terminate_exam, memo, ProctorEvent, ProctorDevice, ProctorAction,
  CreateProctorEventInput, UpsertProctorDeviceInput, CreateProctorActionInput,
}
use big_project.Shared.Submissions.{Submission, CodeExecution, CodeDraft, CodeInput, ExamSession}
use big_project.Shared.Invites.{CandidateInvite, CandidateWorkspace}
use big_project.CodeRunner.Judge.{CodeRunnerResult}
use big_project.Store.{Memory, Source}
use big_project.Store.Content.{add_question, add_test_case, add_candidate}
use big_project.Store.CandidateAdmin.{create_proctor_action}
use big_project.Store.Portal.{get_candidate_invite, mark_candidate_ready}
use big_project.Store.Devices.{
  log_proctor_event, upsert_proctor_device, mark_stale_in_memory, ProctorMemoryState,
}
use big_project.Store.Workspace.{
  open_in_memory, workspace_in_memory, assert_candidate_can_use_workspace,
}
use big_project.Store.Execution.{
  Texts, Numbers, assert_question_belongs_to_invite, assert_language_can_run,
  get_question_test_cases, get_question_for_evaluation, is_coding, save_in_memory,
  run_candidate_code, submit_candidate_code,
}
use big_project.Store.Results.{
  to_candidate_code_execution, to_candidate_submission, to_candidate_workspace,
}

pub record Service : Type 0 where
  pub texts : Texts
  pub numbers : Numbers
  pub heartbeat_timeout_ms : ℕ
  pub judge : String → String → List TestCase → String → Result CodeRunnerResult

-- What the clock and the generators return in one call: while the session is opened, and while the
-- result is stored.
pub record Call : Type 0 where
  pub opening : Source
  pub storing : Source
  pub event_id : String → String
  pub result_id : ℕ → String

-- A call in progress: the memory, and a value or an exception.
infixl 5 ◌>>>◌
abbrev pub ◌>>>◌ {ℓ κ} :
    {T : Type ℓ} {U : Type κ}
    → Memory × Result T
    → (Memory → T → Memory × Result U)
    → Memory × Result U
run >>> next = elim run.1 [ throw e ↦ (run.0, throw e) | ok t ↦ next run.0 t ]

-- A step that changes nothing.
abbrev pub check {ℓ} : {T : Type ℓ} → Memory → Result T → Memory × Result T
check memory result = (memory, result)

abbrev pub to_public_candidate_invite : CandidateInvite → CandidateInvite
to_public_candidate_invite invite = record invite { questions = [] }

abbrev pub allowed_test_cases : Memory → Question → String → Result (List TestCase)
allowed_test_cases memory question question_id =
    if is_coding question.type
    then get_question_test_cases (ok none) memory question_id false
    else ok []

module _ (service : Service) (call : Call) where
  unfoldable pub mark_stale_proctor_devices : Memory → String → Memory
  mark_stale_proctor_devices memory exam_id =
      let marked =
        mark_stale_in_memory service.heartbeat_timeout_ms call.event_id call.opening.now exam_id
          (record {
            proctor_events = memory.proctor_events;
            proctor_devices = memory.proctor_devices;
          }) in
      record memory {
        proctor_events = marked.proctor_events;
        proctor_devices = marked.proctor_devices;
      }

  abbrev pub get_candidate_invite_snapshot : Memory → String → Memory × Result CandidateInvite
  get_candidate_invite_snapshot memory invite_token =
      check memory (get_candidate_invite (ok none) memory invite_token)

  unfoldable pub get_candidate_invite_for_internal_use :
      Memory → String → Memory × Result CandidateInvite
  unfolding mark_stale_proctor_devices
  get_candidate_invite_for_internal_use memory invite_token =
      get_candidate_invite_snapshot memory invite_token >>> (λ memory invite.
        get_candidate_invite_snapshot (mark_stale_proctor_devices memory invite.exam.id)
          invite_token)

  unfoldable pub get_public_candidate_invite : Memory → String → Memory × Result CandidateInvite
  unfolding get_candidate_invite_for_internal_use
  get_public_candidate_invite memory invite_token =
      get_candidate_invite_for_internal_use memory invite_token
      >>> (λ memory invite. (memory, ok (to_public_candidate_invite invite)))

  unfoldable pub get_invite_for_workspace_use : Memory → String → Memory × Result CandidateInvite
  unfolding get_candidate_invite_for_internal_use
  get_invite_for_workspace_use memory invite_token =
      get_candidate_invite_for_internal_use memory invite_token >>> (λ memory invite.
        check memory (assert_candidate_can_use_workspace call.opening.now invite >> ok invite))

  unfoldable pub open_exam_session : Memory → CandidateInvite → Memory × Result (Unit {0})
  open_exam_session memory invite =
      elim (open_in_memory call.opening invite memory.proctor_actions memory.exam_sessions) [
        | throw e ↦ (memory, throw e)
        | ok sessions ↦ (record memory { exam_sessions = sessions }, ok tt)
      ]

  unfoldable pub mark_ready : Memory → String → Memory × Result CandidateInvite
  mark_ready memory invite_token =
      elim (mark_candidate_ready (ok none) (ok none) memory invite_token) [
        | throw e ↦ (memory, throw e)
        | ok done ↦ (record memory { candidates = done.0 }, ok (to_public_candidate_invite done.1))
      ]

  unfoldable pub get_workspace : Memory → String → Memory × Result CandidateWorkspace
  unfolding get_invite_for_workspace_use
  get_workspace memory invite_token =
      get_invite_for_workspace_use memory invite_token >>> (λ memory invite.
        let done = workspace_in_memory call.opening invite memory in
        (record memory { exam_sessions = done.1 }, ok (to_candidate_workspace done.0)))

  unfoldable pub log_event :
      Memory → String → CreateProctorEventInput → Memory × Result ProctorEvent
  unfolding get_public_candidate_invite
  log_event memory invite_token input =
      get_public_candidate_invite memory invite_token
      >>> (λ memory invite.
          check memory
            (log_proctor_event (ok none) call.storing invite input memory.proctor_events))
      >>> (λ memory done. (record memory { proctor_events = done.0 }, ok done.1))

  unfoldable pub upsert_device :
      Memory → String → UpsertProctorDeviceInput → Memory × Result ProctorDevice
  upsert_device memory invite_token input =
      get_candidate_invite_snapshot memory invite_token
      >>> (λ memory invite.
          check memory
            (upsert_proctor_device (ok none) call.storing invite input memory.proctor_devices))
      >>> (λ memory done. (record memory { proctor_devices = done.0 }, ok done.1))

  unfoldable pub create_action :
      Memory → String → CreateProctorActionInput → AuthSession → Memory × Result ProctorAction
  create_action memory candidate_id input session =
      check memory
        (create_proctor_action (ok none) (ok none) call.storing memory session candidate_id input)
      >>> (λ memory done. (record memory { proctor_actions = done.0 }, ok done.1))

  unfoldable pub save_candidate_draft : Memory → String → CodeInput → Memory × Result CodeDraft
  unfolding get_invite_for_workspace_use open_exam_session
  save_candidate_draft memory invite_token input =
      get_invite_for_workspace_use memory invite_token
      >>> (λ memory invite. check memory (
          assert_question_belongs_to_invite invite input.question_id
          >> (assert_language_can_run service.texts invite input.language >> ok invite)))
      >>> (λ memory invite. open_exam_session memory invite >>> (λ memory done.
          let saved = save_in_memory call.storing invite input memory.code_drafts in
          (record memory { code_drafts = saved.0 }, ok saved.1)))

  -- The judge runs on the public tests, and its result is kept.
  unfoldable pub store_run : Memory → CandidateInvite → CodeInput → Memory × Result CodeExecution
  store_run memory invite input =
      check memory (
        get_question_test_cases (ok none) memory input.question_id true >>= (λ test_cases.
          run_candidate_code
            (service.judge input.language input.code test_cases invite.candidate.id) (ok none)
            call.storing call.result_id invite input memory.code_executions))
      >>> (λ memory done.
          (record memory { code_executions = done.0 }, ok (to_candidate_code_execution done.1)))

  unfoldable pub run_code : Memory → String → CodeInput → Memory × Result CodeExecution
  unfolding get_invite_for_workspace_use open_exam_session store_run
  run_code memory invite_token input =
      get_invite_for_workspace_use memory invite_token
      >>> (λ memory invite. check memory (
          assert_question_belongs_to_invite invite input.question_id
          >> (assert_language_can_run service.texts invite input.language >> ok invite)))
      >>> (λ memory invite.
          open_exam_session memory invite >>> (λ memory done. store_run memory invite input))

  -- The question is found, the language checked, the answer evaluated, and the submission kept.
  unfoldable pub store_submission :
      Memory → CandidateInvite → CodeInput → Memory × Result Submission
  store_submission memory invite input =
      check memory (
        get_question_for_evaluation (ok none) memory invite input.question_id >>= (λ question.
          (if is_coding question.type
            then assert_language_can_run service.texts invite input.language
            else ok tt)
          >> (allowed_test_cases memory question input.question_id >>= (λ test_cases.
              submit_candidate_code service.texts service.numbers
                (service.judge input.language input.code test_cases invite.candidate.id) (ok none)
                call.storing call.result_id invite input question memory))))
      >>> (λ memory done. (
        record memory { submissions = done.0.0; candidates = done.0.1 },
        ok (to_candidate_submission done.1),
      ))

  unfoldable pub submit_code : Memory → String → CodeInput → Memory × Result Submission
  unfolding get_invite_for_workspace_use open_exam_session store_submission
  submit_code memory invite_token input =
      get_invite_for_workspace_use memory invite_token
      >>> (λ memory invite.
          check memory (assert_question_belongs_to_invite invite input.question_id >> ok invite))
      >>> (λ memory invite.
          open_exam_session memory invite >>> (λ memory done. store_submission memory invite input))
