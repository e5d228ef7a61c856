-- ===== src/Store/Content.antt =====
-- apps/api/src/services/platform-store.exam-content.ts: questions, test cases and candidates are
-- added to exams.
use big_project.Common.{String, Option, none, List, [], ◌∷◌, ◌++◌, find}
use big_project.Common.Result.{Result, ok, not_found, ◌>>=◌, ◌>>◌, or_throw}
use big_project.Shared.{AuthSession}
use big_project.Shared.Exams.{
  Exam, Question, TestCase, Candidate, CreateQuestionInput, CreateTestCaseInput,
  CreateCandidateInput, invited,
}
use big_project.Database.{or_in_memory}
use big_project.ExamAdmin.Table.{has_id}
use big_project.ExamAdmin.{assert_session_can_manage_exams, require_exam}
use big_project.Store.{Memory, Source, question_has_id}

-- Also `assertDbExamExists`, on what the database finds.
unfoldable pub assert_memory_exam_exists : Memory → String → AuthSession → Result Exam
assert_memory_exam_exists memory exam_id session =
    require_exam session (find (has_id exam_id) memory.exams)

abbrev pub new_question : Source → String → CreateQuestionInput → Question
new_question source exam_id input = record {
  id = source.new_id;
  exam_id = exam_id;
  title = input.title;
  description = input.description;
  type = input.type;
  points = input.points;
  difficulty = input.difficulty;
  time_limit_ms = input.time_limit_ms;
  memory_limit_mb = input.memory_limit_mb;
  choices = input.choices;
  expected_answer = input.expected_answer;
  created_at = source.now;
}

abbrev pub new_test_case : Source → String → CreateTestCaseInput → TestCase
new_test_case source question_id input = record {
  id = source.new_id;
  question_id = question_id;
  input = input.input;
  expected_output = input.expected_output;
  is_public = input.is_public;
  created_at = source.now;
}

abbrev pub new_candidate : Source → String → CreateCandidateInput → Candidate
new_candidate source exam_id input = record {
  id = source.new_id;
  exam_id = exam_id;
  name = input.name;
  email = input.email;
  status = invited;
  invite_token = source.new_token;
  identity_privacy_consent_version = none;
  identity_privacy_consent_accepted_at = none;
  created_at = source.now;
}

unfoldable pub add_question :
    Result (Option Question)
    → Source
    → Memory
    → AuthSession
    → String
    → CreateQuestionInput
    → Result (List Question × Question)
unfolding assert_session_can_manage_exams assert_memory_exam_exists
add_question db source memory session exam_id input =
    assert_session_can_manage_exams session
    >> or_in_memory db (λ question. (memory.questions, question))
        (assert_memory_exam_exists memory exam_id session >>= (λ exam. ok (
          memory.questions ++ (new_question source exam_id input ∷ []),
          new_question source exam_id input,
        )))

unfoldable pub add_test_case :
    Result (Option TestCase)
    → Source
    → Memory
    → AuthSession
    → String
    → CreateTestCaseInput
    → Result (List TestCase × TestCase)
unfolding assert_session_can_manage_exams assert_memory_exam_exists
add_test_case db source memory session question_id input =
    assert_session_can_manage_exams session
    >> or_in_memory db (λ test_case. (memory.test_cases, test_case))
        (or_throw (find (question_has_id question_id) memory.questions) not_found
          >>= (λ question. assert_memory_exam_exists memory question.exam_id session)
          >>= (λ exam. ok (
            memory.test_cases ++ (new_test_case source question_id input ∷ []),
            new_test_case source question_id input,
          )))

unfoldable pub add_candidate :
    Result (Option Candidate)
    → Source
    → Memory
    → AuthSession
    → String
    → CreateCandidateInput
    → Result (List Candidate × Candidate)
unfolding assert_session_can_manage_exams assert_memory_exam_exists
add_candidate db source memory session exam_id input =
    assert_session_can_manage_exams session
    >> or_in_memory db (λ candidate. (memory.candidates, candidate))
        (assert_memory_exam_exists memory exam_id session >>= (λ exam. ok (
          memory.candidates ++ (new_candidate source exam_id input ∷ []),
          new_candidate source exam_id input,
        )))
