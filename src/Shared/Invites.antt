-- ===== src/Shared/Invites.antt =====
-- packages/shared/src/index.ts: what a candidate sees of the exam.
use big_project.Common.{Option, List}
use big_project.Shared.{Organization}
use big_project.Shared.Exams.{Exam, Candidate, Question}
use big_project.Shared.Proctoring.{ProctorDevice, ProctorEvent, ProctorAction}
use big_project.Shared.Checks.{IdentityVerification, EnvironmentCheck}
use big_project.Shared.Submissions.{Submission, CodeExecution, ExamSession, CodeDraft}

pub record CandidateInvite : Type 0 where
  pub candidate : Candidate
  pub exam : Exam
  pub organization : Organization
  pub questions : List Question
  pub proctor_devices : List ProctorDevice
  pub identity_verification : Option IdentityVerification
  pub environment_check : Option EnvironmentCheck

pub record CandidateWorkspace : Type 0 where
  pub invite : CandidateInvite
  pub submissions : List Submission
  pub executions : List CodeExecution
  pub proctor_events : List ProctorEvent
  pub proctor_actions : List ProctorAction
  pub exam_session : ExamSession
  pub drafts : List CodeDraft
