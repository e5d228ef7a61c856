-- ===== src/CodeRunner/Judge.antt =====
-- `judgeAdmitted` of code-runner.service.ts. A `Host` holds what it takes from elsewhere: the
-- tables and number format of the runtime, the clock as it is read before each test, and the run of
-- one test in its container, which is given the time that is left.
pub mod Verdict
use big_project.Common.{
  ℕ, zero, suc, ◌+◌, ◌-◌, ◌*◌, ◌/◌, ◌%◌, ◌≤◌, ◌<◌, min, max, String, ◌≡◌, refl, sym, ap, subst, ◌∙◌,
  ◌≢◌, ◌↔◌, ◌⊎◌, inl, inr, Bool, true, false, not, ◌&&◌, ◌||◌, Option, none, some, List, [], ◌∷◌,
  ◌++◌, map, arith, eq_iff, eq_refl, ◌=ₛ◌, ltb, leb, ◌==◌, if◌then◌else◌, ltb→lt, lt→ltb, le→leb,
  Bool-cases, Option-cases, length, find, filter, any, all, head?, length-append, length-filter-le,
  find-passes, All, All-append, All-filter, is_empty, before, includes_char,
}
use Prim.Native.String

-- The fields of `TestCase` that a run uses.
pub record TestCase : Type 0 where
  pub input : String
  pub expected_output : String
  pub is_public : Bool

pub record RunSingleResult : Type 0 where
  pub passed : Bool
  pub actual_output : String
  pub error : Option String
  pub execution_time_ms : ℕ

pub record CodeRunnerTestResult : Type 0 where
  pub test_index : ℕ
  pub input : String
  pub expected_output : String
  pub actual_output : String
  pub passed : Bool
  pub error : Option String
  pub execution_time_ms : ℕ
  pub is_public : Bool

pub data Status : Type 0 where
  success failed : Status

pub record CodeRunnerResult : Type 0 where
  pub status : Status
  pub output : String
  pub error : Option String
  pub execution_time_ms : ℕ
  pub memory_usage_mb : ℕ
  pub passed_tests : ℕ
  pub total_tests : ℕ
  pub test_results : List CodeRunnerTestResult

abbrev pub max_code_length : ℕ
max_code_length = 100000

abbrev pub max_test_cases : ℕ
max_test_cases = 50

abbrev pub max_judge_duration_ms : ℕ
max_judge_duration_ms = 30000

pub record Host : Type 0 where
  pub to_lower_case : String → String
  pub trim : String → String
  pub utf16_length : String → ℕ
  pub show : ℕ → String
  -- When the judge starts, when it reaches the test of an index, and when it is done.
  pub started_at : ℕ
  pub reached_at : ℕ → ℕ
  pub ended_at : ℕ
  -- `runJavaScript` and `runPython`: the source, the test and the milliseconds left.
  pub run_java_script : String → TestCase → ℕ → RunSingleResult
  pub run_python : String → TestCase → ℕ → RunSingleResult

-- `slice(0, n)`.
abbrev pub slice {ℓ} : {A : Type ℓ} → ℕ → List A → List A
slice n [] = []
slice zero (x ∷ xs) = []
slice (suc n) (x ∷ xs) = x ∷ slice n xs

abbrev pub out_of_time : RunSingleResult
out_of_time = record {
  passed = false;
  actual_output = "";
  error = some "Overall judge time limit exceeded.";
  execution_time_ms = 0;
}

-- The entry of one test in the result, with its index from 1.
abbrev pub test_result : ℕ → TestCase → RunSingleResult → CodeRunnerTestResult
test_result index test_case result = record {
  test_index = index + 1;
  input = test_case.input;
  expected_output = test_case.expected_output;
  actual_output = result.actual_output;
  passed = result.passed;
  error = result.error;
  execution_time_ms = result.execution_time_ms;
  is_public = test_case.is_public;
}

-- `results.map(...)`, which reads the test of each index.
unfoldable pub number_results : ℕ → List TestCase → List RunSingleResult → List CodeRunnerTestResult
number_results index (test_case ∷ test_cases) (result ∷ results) =
    test_result index test_case result ∷ number_results (index + 1) test_cases results
number_results index [] results = []
number_results index (test_case ∷ test_cases) [] = []

-- `failed`.
unfoldable pub failed_result : String → List TestCase → CodeRunnerResult
unfolding number_results
failed_result error test_cases = record {
  status = failed;
  output = "";
  error = some error;
  execution_time_ms = 0;
  memory_usage_mb = 0;
  passed_tests = 0;
  total_tests = length test_cases;
  test_results = number_results 0 test_cases (
      map
        (λ t. record {
          passed = false;
          actual_output = "";
          error = some error;
          execution_time_ms = 0;
        })
        test_cases);
}

abbrev pub is_java_script : String → Bool
is_java_script language = language =ₛ "javascript" || language =ₛ "js"

abbrev pub is_python : String → Bool
is_python language = language =ₛ "python" || language =ₛ "py"

module _ (host : Host) where
  -- One test, with a positive time left.
  abbrev pub run_test : String → String → TestCase → ℕ → RunSingleResult
  run_test language code test_case remaining =
      if is_java_script language
      then host.run_java_script code test_case remaining
      else host.run_python code test_case remaining

  -- The loop over the tests, from an index on. Once the deadline has come, the rest is skipped.
  unfoldable pub run_tests : String → String → ℕ → ℕ → List TestCase → List RunSingleResult
  run_tests language code deadline index [] = []
  run_tests language code deadline index (test_case ∷ test_cases) =
      let later = run_tests language code deadline (index + 1) test_cases in
      if leb deadline (host.reached_at index)
      then out_of_time ∷ map (λ t. out_of_time) test_cases
      else run_test language code test_case (deadline - host.reached_at index) ∷ later

  -- The lines of the output, joined by line breaks.
  unfoldable pub output_lines : ℕ → List RunSingleResult → String
  output_lines index [] = ""
  output_lines index (result ∷ results) =
      let line = String.◌++◌ (host.show (index + 1)) (
        String.◌++◌ (if result.passed then ". PASS (" else ". FAIL (")
          (String.◌++◌ (host.show result.execution_time_ms) "ms)")) in
      let rest = output_lines (index + 1) results in
      if length results == 0 then line else String.◌++◌ line (String.◌++◌ "\n" rest)

  unfoldable pub score : List TestCase → List RunSingleResult → CodeRunnerResult
  unfolding number_results output_lines
  score test_cases results =
      let passed_tests = length (filter (λ r. r.passed) results) in
      let failed_run = find (λ r. not r.passed) results in
      record {
        status = elim failed_run [ none ↦ success | some r ↦ failed ];
        output =
            if length test_cases == 0
            then "설정된 테스트케이스가 없습니다."
            else String.◌++◌ "Docker 채점 완료. " (
                String.◌++◌ (host.show passed_tests) (
                  String.◌++◌ "/" (
                    String.◌++◌ (host.show (length test_cases))
                      (String.◌++◌ " 테스트 통과.\n" (output_lines 0 results)))));
        error = elim failed_run [ none ↦ none | some r ↦ r.error ];
        execution_time_ms = host.ended_at - host.started_at;
        memory_usage_mb = 0;
        passed_tests = passed_tests;
        total_tests = length test_cases;
        test_results = number_results 0 test_cases results;
      }

  unfoldable pub judge_admitted : String → String → List TestCase → CodeRunnerResult
  unfolding failed_result run_tests score
  judge_admitted language code test_cases =
      let normalized = host.to_lower_case language in
      if is_empty (host.trim code)
      then failed_result "Code is empty." test_cases
      else if ltb max_code_length (host.utf16_length code) || ltb max_test_cases (length test_cases)
      then failed_result "Code or test case count exceeds the runner limit."
          (slice max_test_cases test_cases)
      else if not (is_java_script normalized || is_python normalized)
      then failed_result
          (String.◌++◌ "Language '"
            (String.◌++◌ language "' is not supported by the Docker runner yet."))
          test_cases
      else score test_cases
          (run_tests normalized code (host.started_at + max_judge_duration_ms) 0 test_cases)
