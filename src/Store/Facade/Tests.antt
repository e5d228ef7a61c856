-- ===== src/Store/Facade/Tests.antt =====
-- A candidate's calls on the memory of Store/Tests.antt.
use big_project.Common.{◌≡◌, refl}
use big_project.Common.Result.{ok}
use big_project.Shared.Submissions.{Submission}
use big_project.Store.Portal.{get_candidate_invite}
use big_project.Store.Workspace.{assert_candidate_can_use_workspace, open_in_memory}
use big_project.Store.Devices.{mark_stale_in_memory}
use big_project.Store.Execution.{
  assert_question_belongs_to_invite, get_question_for_evaluation, assert_language_can_run,
  get_question_test_cases, submit_candidate_code,
}
use big_project.Store.Tests.{memory_a, source_a, input_a, texts_a, numbers_a, judged_a}
use big_project.Store.Facade.{Service, Call, save_candidate_draft, run_code, submit_code}
use big_project.Store.Facade.Admission.{IsGated, save_candidate_draft-run_code-submit_code-IsGated}
use big_project.Store.Facade.Refusals.{
  AnswersOrKeeps, save_candidate_draft-run_code-submit_code-AnswersOrKeeps,
}

abbrev service_a : Service
service_a = record {
  texts = texts_a;
  numbers = numbers_a;
  heartbeat_timeout_ms = 30000;
  judge = λ language code test_cases id. ok judged_a;
}

abbrev call_a : Call
call_a = record {
  opening = source_a;
  storing = source_a;
  event_id = λ id. id;
  result_id = λ index. "r";
}

submits :
    (submission : Submission) × ((submit_code service_a call_a memory_a "token" input_a).1
      ≡ ok submission)
unfolding submit_code get_candidate_invite assert_candidate_can_use_workspace mark_stale_in_memory
    assert_question_belongs_to_invite open_in_memory get_question_for_evaluation
    assert_language_can_run get_question_test_cases submit_candidate_code
submits = (_, refl)

save_candidate_draft-run_code-submit_code-IsGated_example :
    IsGated service_a call_a memory_a "token" input_a
      (save_candidate_draft service_a call_a memory_a "token" input_a)
    × IsGated service_a call_a memory_a "token" input_a
        (run_code service_a call_a memory_a "token" input_a)
    × IsGated service_a call_a memory_a "token" input_a
        (submit_code service_a call_a memory_a "token" input_a)
save_candidate_draft-run_code-submit_code-IsGated_example =
    save_candidate_draft-run_code-submit_code-IsGated service_a call_a memory_a "token" input_a

save_candidate_draft-run_code-submit_code-AnswersOrKeeps_example :
    AnswersOrKeeps memory_a (save_candidate_draft service_a call_a memory_a "other" input_a)
    × (AnswersOrKeeps memory_a (run_code service_a call_a memory_a "other" input_a)
        × AnswersOrKeeps memory_a (submit_code service_a call_a memory_a "other" input_a))
save_candidate_draft-run_code-submit_code-AnswersOrKeeps_example =
    save_candidate_draft-run_code-submit_code-AnswersOrKeeps service_a call_a memory_a "other"
      input_a
