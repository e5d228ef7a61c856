-- ===== src/Store/Execution.antt =====
-- apps/api/src/services/platform-store.execution.ts, platform-store.execution-access.ts and
-- platform-store.execution-scoring.ts: drafts, runs and submissions. `Texts` holds the methods of
-- strings, `Numbers` the arithmetic of the language's numbers, and what the judge answers is an
-- argument.
pub mod Drafts
pub mod Score
use big_project.Common.{
  ℕ, zero, suc, ◌+◌, ◌-◌, ◌*◌, ◌/◌, ◌%◌, ◌≤◌, ◌<◌, min, max, String, ◌≡◌, refl, sym, ap, subst, ◌∙◌,
  ◌≢◌, ◌↔◌, ◌⊎◌, inl, inr, Bool, true, false, not, ◌&&◌, ◌||◌, Option, none, some, List, [], ◌∷◌,
  ◌++◌, map, arith, eq_iff, eq_refl, ◌=ₛ◌, ltb, leb, ◌==◌, if◌then◌else◌, optional, ltb→lt, lt→ltb,
  le→leb, Bool-cases, Option-cases, length, find, filter, any, all, head?, length-append,
  length-filter-le, find-passes, All, All-append, All-filter, filter-All, All-sort_descending,
  sort_descending, take, is_empty, before, includes_char,
}
use big_project.Common.Result.{
  Result, ok, throw, Exception, bad_request, unauthorized, forbidden, not_found, conflict,
  too_many_requests, service_unavailable, ◌>>=◌, ◌>>◌, throw_if, or_throw, Result-cases,
}
use big_project.Shared.Exams.{
  Exam, Question, QuestionType, coding, multiple_choice, short_answer, essay, TestCase, Candidate,
  in_progress,
}
use big_project.Shared.Submissions.{
  JudgeTestResult, Submission, CodeExecution, CodeDraft, CodeInput,
}
use big_project.Shared.Invites.{CandidateInvite}
use big_project.CodeRunner.Judge.{Status, success, failed, CodeRunnerResult, CodeRunnerTestResult}
use big_project.Database.{or_in_memory}
use big_project.Store.{Memory, Source, candidate_has_id}

pub record Texts : Type 0 where
  pub trim : String → String
  pub to_lower_case : String → String
  -- `.replace(/\s+/g, " ")`
  pub collapse_spaces : String → String

-- The numbers of the language that are at least 0, as the 64 bits of their IEEE 754 form, which are
-- ordered as the numbers are. `of_nat` is the form of a natural number, `divide` and `times` are `/`
-- and `*`, and `round` is `Math.round`. The standard makes an operation exact where its result is
-- such a number, and rounds it in the same direction everywhere, so that it keeps the order.
pub record Numbers : Type 0 where
  pub of_nat : ℕ → ℕ
  pub divide : ℕ → ℕ → ℕ
  pub times : ℕ → ℕ → ℕ
  pub round : ℕ → ℕ
  pub divide_self : (t : ℕ) → 0 < t → divide (of_nat t) (of_nat t) ≡ of_nat 1
  pub divide_zero : (t : ℕ) → 0 < t → divide (of_nat 0) (of_nat t) ≡ of_nat 0
  pub divide-le :
      (p q t : ℕ) → p ≤ q → 0 < t → divide (of_nat p) (of_nat t) ≤ divide (of_nat q) (of_nat t)
  pub times-of_nat :
      (a b : ℕ) → a * b < 9007199254740992 → times (of_nat a) (of_nat b) ≡ of_nat (a * b)
  pub times-le : (x y z : ℕ) → x ≤ y → times x z ≤ times y z
  pub round-of_nat : (n : ℕ) → n < 9007199254740992 → round (of_nat n) ≡ n
  pub round-le : (x y : ℕ) → x ≤ y → round x ≤ round y

unfoldable pub assert_question_belongs_to_invite : CandidateInvite → String → Result (Unit {0})
assert_question_belongs_to_invite invite question_id =
    throw_if (not (any (λ question. question.id =ₛ question_id) invite.questions)) not_found

unfoldable pub normalize_runner_language : Texts → String → String
normalize_runner_language texts language =
    let value = texts.to_lower_case (texts.trim language) in
    if value =ₛ "javascript" || value =ₛ "js"
    then "javascript"
    else if value =ₛ "python" || value =ₛ "py"
    then "python"
    else ""

abbrev pub is_supported_runner_language : String → Bool
is_supported_runner_language language = language =ₛ "javascript" || language =ₛ "python"

unfoldable pub assert_language_can_run : Texts → CandidateInvite → String → Result (Unit {0})
unfolding normalize_runner_language
assert_language_can_run texts invite language =
    let normalized = normalize_runner_language texts language in
    let allowed =
      filter (λ item. not (is_empty item))
        (map (normalize_runner_language texts) invite.exam.languages) in
    throw_if (is_empty normalized || not (is_supported_runner_language normalized)) bad_request
    >> throw_if (not (any (λ item. item =ₛ normalized) allowed)) bad_request

unfoldable pub get_question_test_cases :
    Result (Option (List TestCase)) → Memory → String → Bool → Result (List TestCase)
get_question_test_cases db memory question_id public_only =
    or_in_memory db (λ found. found)
      (ok (
        filter
          (λ test_case.
            test_case.question_id =ₛ question_id && (not public_only || test_case.is_public))
          memory.test_cases))

unfoldable pub get_question_for_evaluation :
    Result (Option Question) → Memory → CandidateInvite → String → Result Question
get_question_for_evaluation db memory invite question_id =
    or_in_memory db (λ question. question)
      (or_throw
        (find (λ item. item.id =ₛ question_id && item.exam_id =ₛ invite.exam.id) memory.questions)
        not_found)

abbrev pub is_coding : QuestionType → Bool
is_coding coding = true
is_coding multiple_choice = false
is_coding short_answer = false
is_coding essay = false

abbrev pub is_objective : QuestionType → Bool
is_objective coding = false
is_objective multiple_choice = true
is_objective short_answer = true
is_objective essay = false

abbrev pub is_essay : QuestionType → Bool
is_essay coding = false
is_essay multiple_choice = false
is_essay short_answer = false
is_essay essay = true

unfoldable pub normalize_answer : Texts → String → String
normalize_answer texts answer = texts.to_lower_case (texts.collapse_spaces (texts.trim answer))

abbrev pub answer_passes : Texts → Question → String → Bool
answer_passes texts question answer =
    let expected = normalize_answer texts (optional "" (λ e. e) question.expected_answer) in
    is_objective question.type
    && (not (is_empty expected) && normalize_answer texts answer =ₛ expected)

unfoldable pub evaluate_text_answer : Texts → Question → String → CodeRunnerResult
unfolding normalize_answer
evaluate_text_answer texts question answer =
    let passes = answer_passes texts question answer in
    record {
      status = success;
      output = if passes then "정답 기준과 일치합니다." else "주관식 답안이 저장되었습니다.";
      error = none;
      execution_time_ms = 0;
      memory_usage_mb = 0;
      passed_tests = if passes then 1 else if is_essay question.type then 1 else 0;
      total_tests = 1;
      test_results =
          record {
            test_index = 1;
            input = answer;
            expected_output = optional "감독관/AI 검토" (λ e. e) question.expected_answer;
            actual_output = answer;
            passed = is_essay question.type || passes;
            error = none;
            execution_time_ms = 0;
            is_public = false;
          }
          ∷ [];
    }

abbrev pub is_success : Status → Bool
is_success success = true
is_success failed = false

unfoldable pub calculate_submission_score : Numbers → CodeRunnerResult → ℕ
calculate_submission_score numbers result =
    if ltb 0 result.total_tests
    then numbers.round (
        numbers.times
          (numbers.divide (numbers.of_nat result.passed_tests) (numbers.of_nat result.total_tests))
          (numbers.of_nat 100))
    else if is_success result.status
    then 100
    else 0

abbrev pub has_draft_key : CandidateInvite → CodeInput → CodeDraft → Bool
has_draft_key invite input draft =
    (draft.candidate_id =ₛ invite.candidate.id && draft.question_id =ₛ input.question_id)
    && draft.language =ₛ input.language

abbrev pub saved_draft : Source → CandidateInvite → CodeInput → Option CodeDraft → CodeDraft
saved_draft source invite input existing = record {
  id = optional source.new_id (λ d. d.id) existing;
  candidate_id = invite.candidate.id;
  exam_id = invite.exam.id;
  question_id = input.question_id;
  language = input.language;
  code = input.code;
  saved_at = source.now;
  created_at = optional source.now (λ d. d.created_at) existing;
}

unfoldable pub save_in_memory :
    Source → CandidateInvite → CodeInput → List CodeDraft → List CodeDraft × CodeDraft
save_in_memory source invite input drafts =
    let draft = saved_draft source invite input (find (has_draft_key invite input) drafts) in
    (draft ∷ filter (λ item. not (item.id =ₛ draft.id)) drafts, draft)

unfoldable pub save_candidate_code_draft :
    Result (Option CodeDraft)
    → Source
    → CandidateInvite
    → CodeInput
    → List CodeDraft
    → Result (List CodeDraft × CodeDraft)
unfolding save_in_memory
save_candidate_code_draft db source invite input drafts =
    or_in_memory db (λ draft. (drafts, draft)) (ok (save_in_memory source invite input drafts))

-- A result of the judge, kept under a new identifier, which is made anew for each.
abbrev pub stored_result :
    (ℕ → String) → ℕ → Option String → Option String → CodeRunnerTestResult → JudgeTestResult
stored_result result_id now code_execution_id submission_id result = record {
  id = result_id result.test_index;
  code_execution_id = code_execution_id;
  submission_id = submission_id;
  test_index = result.test_index;
  input = result.input;
  expected_output = result.expected_output;
  actual_output = result.actual_output;
  passed = result.passed;
  error = result.error;
  execution_time_ms = result.execution_time_ms;
  is_public = result.is_public;
  created_at = now;
}

abbrev pub new_execution :
    Source → (ℕ → String) → CandidateInvite → CodeInput → CodeRunnerResult → CodeExecution
new_execution source result_id invite input result = record {
  id = source.new_id;
  candidate_id = invite.candidate.id;
  question_id = input.question_id;
  language = input.language;
  code = input.code;
  status = result.status;
  output = result.output;
  error = result.error;
  execution_time_ms = result.execution_time_ms;
  memory_usage_mb = result.memory_usage_mb;
  passed_tests = result.passed_tests;
  total_tests = result.total_tests;
  test_results =
      map (stored_result result_id source.now (some source.new_id) none) result.test_results;
  created_at = source.now;
}

-- `judged` is what the judge answers, or throws.
unfoldable pub run_candidate_code :
    Result CodeRunnerResult
    → Result (Option CodeExecution)
    → Source
    → (ℕ → String)
    → CandidateInvite
    → CodeInput
    → List CodeExecution
    → Result (List CodeExecution × CodeExecution)
run_candidate_code judged db source result_id invite input executions = judged >>= (λ result.
    or_in_memory db (λ execution. (executions, execution))
      (ok (
        new_execution source result_id invite input result ∷ executions,
        new_execution source result_id invite input result,
      )))

abbrev pub new_submission :
    Numbers → Source → (ℕ → String) → CandidateInvite → CodeInput → CodeRunnerResult → Submission
new_submission numbers source result_id invite input result = record {
  id = source.new_id;
  exam_id = invite.exam.id;
  candidate_id = invite.candidate.id;
  question_id = input.question_id;
  language = input.language;
  code = input.code;
  score = calculate_submission_score numbers result;
  passed_tests = result.passed_tests;
  total_tests = result.total_tests;
  test_results =
      map (stored_result result_id source.now none (some source.new_id)) result.test_results;
  submitted_at = source.now;
}

abbrev pub start_progress : String → Candidate → Candidate
start_progress id candidate =
    if candidate_has_id id candidate then record candidate { status = in_progress } else candidate

-- Questions of other types than `CODING` do not reach the judge.
unfoldable pub evaluate :
    Texts → Result CodeRunnerResult → Question → CodeInput → Result CodeRunnerResult
unfolding evaluate_text_answer
evaluate texts judged question input =
    if is_coding question.type then judged else ok (evaluate_text_answer texts question input.code)

unfoldable pub submit_candidate_code :
    Texts
    → Numbers
    → Result CodeRunnerResult
    → Result (Option Submission)
    → Source
    → (ℕ → String)
    → CandidateInvite
    → CodeInput
    → Question
    → Memory
    → Result ((List Submission × List Candidate) × Submission)
unfolding evaluate calculate_submission_score
submit_candidate_code texts numbers judged db source result_id invite input question memory =
    evaluate texts judged question input >>= (λ result.
      or_in_memory db (λ submission. ((memory.submissions, memory.candidates), submission))
        (ok (
          (
            new_submission numbers source result_id invite input result ∷ memory.submissions,
            map (start_progress invite.candidate.id) memory.candidates,
          ),
          new_submission numbers source result_id invite input result,
        )))
