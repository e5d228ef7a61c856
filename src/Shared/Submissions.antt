-- ===== src/Shared/Submissions.antt =====
-- packages/shared/src/index.ts: the sessions, drafts, executions and submissions of a candidate.
-- `CodeExecutionStatus` is the judge's `Status`.
use big_project.Common.{ℕ, String, Bool, Option, List}
use big_project.CodeRunner.Judge.{Status}

pub record JudgeTestResult : Type 0 where
  pub id : String
  pub code_execution_id : Option String
  pub submission_id : Option String
  pub test_index : ℕ
  pub input : String
  pub expected_output : String
  pub actual_output : String
  pub passed : Bool
  pub error : Option String
  pub execution_time_ms : ℕ
  pub is_public : Bool
  pub created_at : ℕ

pub record Submission : Type 0 where
  pub id : String
  pub exam_id : String
  pub candidate_id : String
  pub question_id : String
  pub language : String
  pub code : String
  pub score : ℕ
  pub passed_tests : ℕ
  pub total_tests : ℕ
  pub test_results : List JudgeTestResult
  pub submitted_at : ℕ

pub record CodeExecution : Type 0 where
  pub id : String
  pub candidate_id : String
  pub question_id : String
  pub language : String
  pub code : String
  pub status : Status
  pub output : String
  pub error : Option String
  pub execution_time_ms : ℕ
  pub memory_usage_mb : ℕ
  pub passed_tests : ℕ
  pub total_tests : ℕ
  pub test_results : List JudgeTestResult
  pub created_at : ℕ

pub record ExamSession : Type 0 where
  pub id : String
  pub candidate_id : String
  pub exam_id : String
  pub started_at : ℕ
  pub ends_at : ℕ
  pub completed_at : Option ℕ
  pub server_now : ℕ
  pub remaining_seconds : ℕ

pub record CodeDraft : Type 0 where
  pub id : String
  pub candidate_id : String
  pub exam_id : String
  pub question_id : String
  pub language : String
  pub code : String
  pub saved_at : ℕ
  pub created_at : ℕ

-- `CodeRunInput`, `CodeSubmitInput` and `SaveCodeDraftInput`, which have the same fields.
pub record CodeInput : Type 0 where
  pub question_id : String
  pub language : String
  pub code : String
