-- ===== src/Store/Results/Hidden.antt =====
-- apps/api/src/services/platform-store.candidate-results.ts: hidden tests stay hidden.
use big_project.Common.{String, Option, map, if◌then◌else◌}
use big_project.Shared.Submissions.{JudgeTestResult, Submission, CodeExecution}
use big_project.Shared.Invites.{CandidateWorkspace}

pub record Secret : Type 0 where
  pub input : String
  pub expected_output : String
  pub actual_output : String
  pub error : Option String

-- The same result, with other contents of a hidden test.
abbrev pub exchange : (JudgeTestResult → Secret) → JudgeTestResult → JudgeTestResult
exchange secret result = if result.is_public then result else record result {
  input = (secret result).input;
  expected_output = (secret result).expected_output;
  actual_output = (secret result).actual_output;
  error = (secret result).error;
}

abbrev pub exchange_execution : (JudgeTestResult → Secret) → CodeExecution → CodeExecution
exchange_execution secret execution = record execution {
  test_results = map (exchange secret) execution.test_results;
}

abbrev pub exchange_submission : (JudgeTestResult → Secret) → Submission → Submission
exchange_submission secret submission = record submission {
  test_results = map (exchange secret) submission.test_results;
}

abbrev pub exchange_workspace : (JudgeTestResult → Secret) → CandidateWorkspace → CandidateWorkspace
exchange_workspace secret workspace = record workspace {
  executions = map (exchange_execution secret) workspace.executions;
  submissions = map (exchange_submission secret) workspace.submissions;
}
