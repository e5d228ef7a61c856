-- ===== src/Store.antt =====
-- apps/api/src/services/platform-store.state.ts: the lists that the store keeps in the memory of the
-- process. Each function of the store gets a view of them; here it gets all. What its call of
-- `runDatabase` ends in is an argument: `ok none` where the memory stands in.
pub mod Content
pub mod CandidateAdmin
pub mod Portal
pub mod Links
pub mod Risk
pub mod Devices
pub mod Workspace
pub mod Execution
pub mod Results
pub mod Facade
pub mod Tests
mod Runs
use big_project.Common.{
  ℕ, zero, suc, ◌+◌, ◌-◌, ◌*◌, ◌/◌, ◌%◌, ◌≤◌, ◌<◌, min, max, String, ◌≡◌, refl, sym, ap, subst, ◌∙◌,
  ◌≢◌, ◌↔◌, ◌⊎◌, inl, inr, Bool, true, false, not, ◌&&◌, ◌||◌, Option, none, some, List, [], ◌∷◌,
  ◌++◌, map, arith, eq_iff, eq_refl, ◌=ₛ◌, ltb, leb, ◌==◌, if◌then◌else◌, ltb→lt, lt→ltb, le→leb,
  Bool-cases, Option-cases, length, find, filter, any, all, head?, length-append, length-filter-le,
  find-passes, All, All-append, All-filter, filter-All, All-sort_descending, sort_descending, take,
  is_empty, before, includes_char,
}
use big_project.Shared.{Organization}
use big_project.Shared.Exams.{Exam, Question, TestCase, Candidate}
use big_project.Shared.Proctoring.{ProctorEvent, ProctorDevice, ProctorAction}
use big_project.Shared.Checks.{IdentityVerification, EnvironmentCheck}
use big_project.Shared.Submissions.{Submission, CodeExecution, ExamSession, CodeDraft}

pub record Memory : Type 0 where
  pub organization : Organization
  pub exams : List Exam
  pub questions : List Question
  pub candidates : List Candidate
  pub test_cases : List TestCase
  pub proctor_events : List ProctorEvent
  pub proctor_devices : List ProctorDevice
  pub proctor_actions : List ProctorAction
  pub identity_verifications : List IdentityVerification
  pub environment_checks : List EnvironmentCheck
  pub exam_sessions : List ExamSession
  pub code_drafts : List CodeDraft
  pub code_executions : List CodeExecution
  pub submissions : List Submission

-- What the clock and the generators of identifiers and secret tokens return.
pub record Source : Type 0 where
  pub now : ℕ
  pub new_id : String
  pub new_token : String

abbrev pub question_has_id : String → Question → Bool
question_has_id id question = question.id =ₛ id

abbrev pub candidate_has_id : String → Candidate → Bool
candidate_has_id id candidate = candidate.id =ₛ id

abbrev pub has_invite_token : String → Candidate → Bool
has_invite_token token candidate = candidate.invite_token =ₛ token
