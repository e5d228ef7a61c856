-- ===== src/Store/Runs.antt =====
-- The parts of the store on the memory of Store/Tests.antt.
use big_project.Common.{
  map, ◌+◌, ◌-◌, ◌/◌, ◌≤◌, ◌≡◌, refl, false, none, some, List, [], ◌∷◌, arith, length, find, filter,
}
use big_project.Common.Result.{ok, throw, forbidden}
use big_project.Shared.Exams.{Question, coding, easy, CreateQuestionInput}
use big_project.Shared.Proctoring.{
  mobile_aux, disconnected, pause_exam, ProctorDevice, ProctorAction, UpsertProctorDeviceInput,
  CreateProctorActionInput,
}
use big_project.Shared.Submissions.{CodeDraft, JudgeTestResult, CodeExecution}
use big_project.Shared.Invites.{CandidateWorkspace}
use big_project.CodeRunner.Judge.{success}
use big_project.ExamAdmin.{require_exam}
use big_project.Store.{Memory}
use big_project.Store.Content.{add_question, new_question}
use big_project.Store.CandidateAdmin.{create_proctor_action, new_action}
use big_project.Store.Portal.{get_candidate_invite}
use big_project.Store.Portal.View.{IsView, get_candidate_invite-IsView}
use big_project.Store.Links.{stay, follow, add_a_question, IsLinked, Steps-IsLinked}
use big_project.Store.Devices.{
  upsert_proctor_device, has_key, mark_stale_in_memory, ProctorMemoryState,
}
use big_project.Store.Devices.Keys.{IsKeyed, upsert_proctor_device-IsKeyed}
use big_project.Store.Devices.Stale.{swept, is_silent, mark_stale_in_memory-settles}
use big_project.Store.Workspace.{ensure_memory_exam_session, open_in_memory, workspace_in_memory}
use big_project.Store.Workspace.Sessions.{visit_all, ensure_memory_exam_session-visit_all}
use big_project.Store.Workspace.Actions.{create_proctor_action-open_in_memory}
use big_project.CodeRunner.Judge.{CodeRunnerResult}
use big_project.Store.Execution.{save_in_memory, has_draft_key, calculate_submission_score}
use big_project.Store.Execution.Drafts.{draft_key_is, find-save_in_memory}
use big_project.Store.Execution.Score.{calculate_submission_score_bounds}
use big_project.Store.Results.Hidden.{Secret}
use big_project.Store.Tests.{
  question_a, phone_a, memory_a, source_a, source_b, invite_a, input_a, session_a, judged_a,
  numbers_a,
}

invites : get_candidate_invite (ok none) memory_a "token" ≡ ok invite_a
unfolding get_candidate_invite
invites = refl

get_candidate_invite-IsView_example : IsView "token" invite_a
get_candidate_invite-IsView_example = get_candidate_invite-IsView memory_a "token" invite_a invites

abbrev question_input : CreateQuestionInput
question_input = record {
  title = "Product";
  description = "";
  type = coding;
  points = 5;
  difficulty = easy;
  time_limit_ms = 1000;
  memory_limit_mb = 64;
  choices = [];
  expected_answer = none;
}

abbrev questions_b : List Question
questions_b = question_a ∷ new_question source_a "e1" question_input ∷ []

adds :
    add_question (ok none) source_a memory_a session_a "e1" question_input
    ≡ ok (questions_b, new_question source_a "e1" question_input)
unfolding add_question require_exam
adds = refl

abbrev memory_b : Memory
memory_b = record memory_a { questions = questions_b }

Steps-IsLinked_example : IsLinked memory_b
Steps-IsLinked_example =
    Steps-IsLinked memory_a memory_b
      (follow memory_a memory_b memory_b
        (add_a_question memory_a source_a session_a "e1" question_input questions_b
          (new_question source_a "e1" question_input) adds)
        (stay memory_b))
      (refl, (refl, refl))

abbrev device_input : UpsertProctorDeviceInput
device_input = record { role = mobile_aux; status = disconnected; detail = none }

abbrev phone_b : ProctorDevice
phone_b = record phone_a { status = disconnected; disconnected_at = some 10000; updated_at = 10000 }

upserts :
    upsert_proctor_device (ok none) source_a invite_a device_input (phone_a ∷ [])
    ≡ ok (phone_b ∷ [], phone_b)
unfolding upsert_proctor_device
upserts = refl

upsert_proctor_device-IsKeyed_example :
    IsKeyed (phone_b ∷ []) × (find (has_key "c1" "e1" mobile_aux) (phone_b ∷ []) ≡ some phone_b)
upsert_proctor_device-IsKeyed_example =
    upsert_proctor_device-IsKeyed source_a invite_a device_input (phone_a ∷ []) (phone_b ∷ [])
      phone_b (refl, tt) upserts

abbrev proctor_state : ProctorMemoryState
proctor_state = record { proctor_events = []; proctor_devices = phone_a ∷ [] }

-- The heartbeat of 9000 is stale at 70500, with a timeout of half a minute.
mark_stale_in_memory-settles_example :
    let after = mark_stale_in_memory 30000 (λ id. id) 70500 "e1" proctor_state in
    (after.proctor_devices ≡ map (swept 30000 70500 "e1" (phone_a ∷ [])) (phone_a ∷ []))
    × ((length after.proctor_events
          ≡ length (filter (is_silent 30000 70500 "e1") proctor_state.proctor_devices)
            + length proctor_state.proctor_events)
        × (mark_stale_in_memory 30000 (λ id. id) 70500 "e1" after ≡ after))
mark_stale_in_memory-settles_example =
    mark_stale_in_memory-settles 30000 70500 (λ id. id) "e1" proctor_state

ensure_memory_exam_session-visit_all_example :
    let started = ensure_memory_exam_session source_a invite_a [] in
    let again =
      ensure_memory_exam_session source_b invite_a
        (visit_all ((source_b, invite_a) ∷ []) started.1) in
    (again.0.started_at ≡ started.0.started_at)
    × ((again.0.ends_at ≡ started.0.ends_at)
        × (again.0.remaining_seconds ≡ (started.0.ends_at - source_b.now) / 1000))
ensure_memory_exam_session-visit_all_example =
    ensure_memory_exam_session-visit_all source_a source_b invite_a [] ((source_b, invite_a) ∷ [])

abbrev pause : CreateProctorActionInput
pause = record { type = pause_exam; message = "wait" }

abbrev paused : ProctorAction
paused = new_action source_a "c1" "e1" pause

pauses :
    create_proctor_action (ok none) (ok none) source_a memory_a session_a "c1" pause
    ≡ ok (paused ∷ [], paused)
unfolding create_proctor_action
pauses = refl

create_proctor_action-open_in_memory_example :
    open_in_memory source_b invite_a (paused ∷ []) [] ≡ throw forbidden
create_proctor_action-open_in_memory_example =
    create_proctor_action-open_in_memory source_a source_b memory_a session_a "c1" pause
      (paused ∷ []) paused invite_a [] pauses tt

abbrev draft_a : CodeDraft
draft_a = record {
  id = "x1";
  candidate_id = "c1";
  exam_id = "e1";
  question_id = "q1";
  language = "javascript";
  code = "1";
  saved_at = 1;
  created_at = 1;
}

differs_key :
    draft_key_is "c1" "q1" "javascript" (save_in_memory source_a invite_a input_a (draft_a ∷ [])).1
    ≡ false
unfolding save_in_memory
differs_key = refl

find-save_in_memory_example :
    let saved = save_in_memory source_a invite_a input_a (draft_a ∷ []) in
    (find (has_draft_key invite_a input_a) saved.0 ≡ some saved.1)
    × ((saved.1.code ≡ "print(42)")
        × (find (draft_key_is "c1" "q1" "javascript") saved.0
            ≡ find (draft_key_is "c1" "q1" "javascript") (draft_a ∷ [])))
find-save_in_memory_example =
    find-save_in_memory source_a invite_a input_a (draft_a ∷ []) "c1" "q1" "javascript" (refl, tt)
      refl differs_key

abbrev half_passed : CodeRunnerResult
half_passed = record judged_a { passed_tests = 1 }

half_score : calculate_submission_score numbers_a half_passed ≡ 50
unfolding calculate_submission_score
half_score = refl

calculate_submission_score_bounds_example :
    (calculate_submission_score numbers_a half_passed
      ≤ calculate_submission_score numbers_a judged_a)
    × (calculate_submission_score numbers_a judged_a ≤ 100)
    × (judged_a.passed_tests ≡ judged_a.total_tests
        → calculate_submission_score numbers_a judged_a ≡ 100)
    × (half_passed.passed_tests ≡ 0 → calculate_submission_score numbers_a half_passed ≡ 0)
calculate_submission_score_bounds_example =
    calculate_submission_score_bounds numbers_a half_passed judged_a refl (omega arith)
      (omega arith) (omega arith)

abbrev result_a : JudgeTestResult
result_a = record {
  id = "r1";
  code_execution_id = some "x";
  submission_id = none;
  test_index = 1;
  input = "1";
  expected_output = "42";
  actual_output = "41";
  passed = false;
  error = some "wrong";
  execution_time_ms = 2;
  is_public = false;
  created_at = 9;
}

abbrev execution_a : CodeExecution
execution_a = record {
  id = "x";
  candidate_id = "c1";
  question_id = "q1";
  language = "python";
  code = "print(41)";
  status = success;
  output = "";
  error = none;
  execution_time_ms = 2;
  memory_usage_mb = 0;
  passed_tests = 0;
  total_tests = 1;
  test_results = result_a ∷ [];
  created_at = 9;
}

abbrev workspace_a : CandidateWorkspace
workspace_a =
    (workspace_in_memory source_a invite_a
      (record memory_a { code_executions = execution_a ∷ [] })).0

abbrev other_secret : JudgeTestResult → Secret
other_secret result = record {
  input = "7";
  expected_output = "8";
  actual_output = "9";
  error = none;
}
