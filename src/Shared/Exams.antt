-- ===== src/Shared/Exams.antt =====
-- packages/shared/src/index.ts: exams, their questions and candidates, and the input they are made
-- from. The start and the end of an exam are `none` for a text that is no date.
use big_project.Common.{ℕ, String, Bool, Option, List}

pub data ExamStatus : Type 0 where
  draft scheduled active ended deleted : ExamStatus

pub data CandidateStatus : Type 0 where
  invited ready in_progress completed : CandidateStatus

pub data Difficulty : Type 0 where
  easy medium hard : Difficulty

pub data QuestionType : Type 0 where
  coding multiple_choice short_answer essay : QuestionType

pub record Exam : Type 0 where
  pub id : String
  pub organization_id : String
  pub title : String
  pub description : String
  pub start_at : Option ℕ
  pub end_at : Option ℕ
  pub duration_minutes : ℕ
  pub status : ExamStatus
  pub languages : List String
  pub proctoring_enabled : Bool
  pub identity_verification_enabled : Bool
  pub mobile_camera_required : Bool
  pub screen_share_required : Bool
  pub created_at : ℕ

pub record Question : Type 0 where
  pub id : String
  pub exam_id : String
  pub title : String
  pub description : String
  pub type : QuestionType
  pub points : ℕ
  pub difficulty : Difficulty
  pub time_limit_ms : ℕ
  pub memory_limit_mb : ℕ
  pub choices : List String
  pub expected_answer : Option String
  pub created_at : ℕ

pub record TestCase : Type 0 where
  pub id : String
  pub question_id : String
  pub input : String
  pub expected_output : String
  pub is_public : Bool
  pub created_at : ℕ

pub record Candidate : Type 0 where
  pub id : String
  pub exam_id : String
  pub name : String
  pub email : String
  pub status : CandidateStatus
  pub invite_token : String
  pub identity_privacy_consent_version : Option String
  pub identity_privacy_consent_accepted_at : Option ℕ
  pub created_at : ℕ

pub record QuestionWithTestCases : Type 0 where
  pub question : Question
  pub test_cases : List TestCase

pub record ExamDetail : Type 0 where
  pub exam : Exam
  pub questions : List QuestionWithTestCases
  pub candidates : List Candidate

pub record CreateExamInput : Type 0 where
  pub title : String
  pub description : String
  pub start_at : Option ℕ
  pub end_at : Option ℕ
  pub duration_minutes : ℕ
  pub languages : List String
  pub proctoring_enabled : Bool
  pub identity_verification_enabled : Bool
  pub mobile_camera_required : Bool
  pub screen_share_required : Bool

-- The body of a request to update an exam. Its type in the source is `UpdateExamInput`, but nothing
-- checks it: each field may be missing, and there may be fields of `Exam` that the type has not. A
-- field of the wrong type is not represented.
pub record UpdateExamInput : Type 0 where
  pub id : Option String
  pub organization_id : Option String
  pub title : Option String
  pub description : Option String
  pub start_at : Option (Option ℕ)
  pub end_at : Option (Option ℕ)
  pub duration_minutes : Option ℕ
  pub status : Option ExamStatus
  pub languages : Option (List String)
  pub proctoring_enabled : Option Bool
  pub identity_verification_enabled : Option Bool
  pub mobile_camera_required : Option Bool
  pub screen_share_required : Option Bool
  pub created_at : Option ℕ

pub record CreateQuestionInput : Type 0 where
  pub title : String
  pub description : String
  pub type : QuestionType
  pub points : ℕ
  pub difficulty : Difficulty
  pub time_limit_ms : ℕ
  pub memory_limit_mb : ℕ
  pub choices : List String
  pub expected_answer : Option String

pub record CreateTestCaseInput : Type 0 where
  pub input : String
  pub expected_output : String
  pub is_public : Bool

pub record CreateCandidateInput : Type 0 where
  pub name : String
  pub email : String
