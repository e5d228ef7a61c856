-- ===== src/Store/Results.antt =====
-- apps/api/src/services/platform-store.candidate-results.ts: what a candidate sees of the results of
-- the tests.
pub mod Hidden
use big_project.Common.{
  ℕ, zero, suc, ◌+◌, ◌-◌, ◌*◌, ◌/◌, ◌%◌, ◌≤◌, ◌<◌, min, max, String, ◌≡◌, refl, sym, ap, subst, ◌∙◌,
  ◌≢◌, ◌↔◌, ◌⊎◌, inl, inr, Bool, true, false, not, ◌&&◌, ◌||◌, Option, none, some, List, [], ◌∷◌,
  ◌++◌, map, arith, eq_iff, eq_refl, ◌=ₛ◌, ltb, leb, ◌==◌, if◌then◌else◌, optional, ltb→lt, lt→ltb,
  le→leb, Bool-cases, Option-cases, length, find, filter, any, all, head?, length-append,
  length-filter-le, find-passes, All, All-append, All-filter, filter-All, All-sort_descending,
  sort_descending, take, is_empty, before, includes_char,
}
use big_project.Shared.Submissions.{JudgeTestResult, Submission, CodeExecution}
use big_project.Shared.Invites.{CandidateWorkspace}
use mathlib.Core.Option
use big_project.Auth.{truthy}

abbrev pub hidden_test_message : String
hidden_test_message = "숨김 테스트 결과는 공개되지 않습니다."

abbrev pub runner_error_message : String
runner_error_message = "실행 중 오류가 발생했습니다. 코드와 출력 형식을 확인해주세요."

abbrev pub public_error : Option String → Option String
public_error error = Option.map (λ text. runner_error_message) (truthy error)

unfoldable pub to_candidate_judge_test_result : JudgeTestResult → JudgeTestResult
to_candidate_judge_test_result result =
    if not result.is_public
    then record result {
      input = hidden_test_message;
      expected_output = hidden_test_message;
      actual_output = "";
      error = none;
    }
    else record result { error = public_error result.error }

unfoldable pub to_candidate_code_execution : CodeExecution → CodeExecution
unfolding to_candidate_judge_test_result
to_candidate_code_execution execution = record execution {
  error = public_error execution.error;
  test_results = map to_candidate_judge_test_result execution.test_results;
}

unfoldable pub to_candidate_submission : Submission → Submission
unfolding to_candidate_judge_test_result
to_candidate_submission submission = record submission {
  test_results = map to_candidate_judge_test_result submission.test_results;
}

unfoldable pub to_candidate_workspace : CandidateWorkspace → CandidateWorkspace
unfolding to_candidate_code_execution to_candidate_submission
to_candidate_workspace workspace = record workspace {
  executions = map to_candidate_code_execution workspace.executions;
  submissions = map to_candidate_submission workspace.submissions;
}
