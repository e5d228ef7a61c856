-- ===== src/CodeRunner/Judge/Verdict.antt =====
-- The verdict of the judge.
use big_project.Common.{
  ℕ, zero, suc, ◌+◌, ◌-◌, ◌≤◌, String, ◌≡◌, refl, ap, ◌↔◌, inl, inr, Bool, true, false, not, ◌&&◌,
  ◌||◌, none, some, List, [], ◌∷◌, ◌++◌, map, arith, ltb, leb, Bool-cases, length, find, filter,
  length-filter-le, is_empty, before,
}
use Prim.Native.String
use big_project.CodeRunner.Judge.{
  TestCase, RunSingleResult, CodeRunnerResult, success, Host, slice, out_of_time, number_results,
  failed_result, is_java_script, is_python, run_test, run_tests, score, judge_admitted,
  max_code_length, max_test_cases, max_judge_duration_ms,
}

length-map_constant :
    (r : RunSingleResult) (ts : List TestCase) → length (map (λ t. r) ts) ≡ length ts
length-map_constant r [] = refl
length-map_constant r (t ∷ ts) = ground (arith, length-map_constant r ts)

map_constant-append :
    (r : RunSingleResult) (ts us : List TestCase)
    → map (λ t. r) (ts ++ us) ≡ map (λ t. r) ts ++ map (λ t. r) us
map_constant-append r [] us = refl
map_constant-append r (t ∷ ts) us = ground (arith, map_constant-append r ts us)

length-number_results :
    (index : ℕ) (ts : List TestCase) (rs : List RunSingleResult)
    → length rs ≡ length ts
    → length (number_results index ts rs) ≡ length ts
unfolding number_results
length-number_results index [] rs h = refl
length-number_results index (t ∷ ts) [] h = absurd (omega arith)
length-number_results index (t ∷ ts) (r ∷ rs) h =
    ground (arith, length-number_results (index + 1) ts rs)

length-slice-le : (n : ℕ) (ts : List TestCase) → length (slice n ts) ≤ n
length-slice-le n [] = omega arith
length-slice-le zero (t ∷ ts) = omega arith
length-slice-le (suc n) (t ∷ ts) = ground (arith, length-slice-le n ts)

passed-le : (rs : List RunSingleResult) → length (filter (λ r. r.passed) rs) ≤ length rs
passed-le = length-filter-le (λ r. r.passed)

all_passed_iff :
    (rs : List RunSingleResult)
    → (find (λ r. not r.passed) rs ≡ none) ↔ (length (filter (λ r. r.passed) rs) ≡ length rs)
all_passed_iff [] = ground arith
all_passed_iff (r ∷ rs) = ground (arith, all_passed_iff rs, passed-le rs)

module _ (host : Host) where
  length-run_tests :
      (language code : String) (deadline index : ℕ) (ts : List TestCase)
      → length (run_tests host language code deadline index ts) ≡ length ts
  unfolding run_tests
  length-run_tests language code deadline index [] = refl
  length-run_tests language code deadline index (t ∷ ts) = ground (
    arith,
    length-run_tests language code deadline (index + 1) ts,
    length-map_constant out_of_time ts,
  )

  abbrev pub IsCoherent : CodeRunnerResult → Type 0
  IsCoherent v = (length v.test_results ≡ v.total_tests) × (v.passed_tests ≤ v.total_tests)

  -- Whether the judge runs the tests of a submission.
  abbrev pub is_run : String → String → List TestCase → Bool
  is_run language code test_cases =
      not (is_empty (host.trim code))
      && not
          (ltb max_code_length (host.utf16_length code) || ltb max_test_cases (length test_cases))
      && (is_java_script (host.to_lower_case language) || is_python (host.to_lower_case language))

  -- A submission succeeds exactly if it is run and passes every test.
  pub judge_admitted_success_iff :
      (language code : String) (test_cases : List TestCase)
      → ((judge_admitted host language code test_cases).status ≡ success) ↔ (
          (is_run language code test_cases ≡ true)
          × ((judge_admitted host language code test_cases).passed_tests ≡ length test_cases))
  unfolding judge_admitted score failed_result
  judge_admitted_success_iff language code test_cases =
      let results =
        run_tests host (host.to_lower_case language) code (host.started_at + max_judge_duration_ms)
          0 test_cases in
      let long =
        length-run_tests (host.to_lower_case language) code
          (host.started_at + max_judge_duration_ms) 0 test_cases in
      let verdict = all_passed_iff results in ground arith

  -- A verdict is a failure of the whole submission, or the score of its tests.
  judge_admitted_rule :
      (P : CodeRunnerResult → Type 0) (language code : String) (test_cases : List TestCase)
      → ((error : String) (ts : List TestCase) → P (failed_result error ts))
      → ((language : String) (deadline : ℕ)
          → P (score host test_cases (run_tests host language code deadline 0 test_cases)))
      → P (judge_admitted host language code test_cases)
  unfolding judge_admitted
  judge_admitted_rule P language code test_cases whole scored =
      elim (Bool-cases (is_empty (host.trim code))) [
        | inl e ↦ rw (judge_admitted, e) (whole "Code is empty." test_cases)
        | inr e ↦
            elim (Bool-cases (
              ltb max_code_length (host.utf16_length code)
              || ltb max_test_cases (length test_cases))) [
                | inl f ↦
                    rw (judge_admitted, e, f)
                      (whole "Code or test case count exceeds the runner limit."
                        (slice max_test_cases test_cases))
                | inr f ↦
                    elim (Bool-cases (
                      is_java_script (host.to_lower_case language)
                      || is_python (host.to_lower_case language))) [
                        | inl g ↦
                            rw (judge_admitted, e, f, g)
                              (scored (host.to_lower_case language)
                                (host.started_at + max_judge_duration_ms))
                        | inr g ↦
                            rw (judge_admitted, e, f, g)
                              (whole
                                (String.◌++◌ "Language '" (
                                  String.◌++◌ language
                                    "' is not supported by the Docker runner yet."))
                                test_cases)
                      ]
              ]
      ]

  -- Every verdict has one result for each test that it counts, and passes at most all of them.
  pub judge_admitted-IsCoherent :
      (language code : String) (test_cases : List TestCase)
      → IsCoherent (judge_admitted host language code test_cases)
  unfolding score failed_result
  judge_admitted-IsCoherent language code test_cases =
      judge_admitted_rule IsCoherent language code test_cases
        (λ error ts.
          let same =
            length-map_constant
              (record {
                passed = false;
                actual_output = "";
                error = some error;
                execution_time_ms = 0;
              })
              ts in
          (
            length-number_results 0 ts
                (map
                  (λ t. record {
                    passed = false;
                    actual_output = "";
                    error = some error;
                    execution_time_ms = 0;
                  })
                  ts)
                same,
            omega arith,
          ))
        (λ normalized deadline.
          let results = run_tests host normalized code deadline 0 test_cases in
          let long = length-run_tests normalized code deadline 0 test_cases in
          let fewer = passed-le results in
          (length-number_results 0 test_cases results long, omega arith))

  -- Once the deadline has come before a test, that test and all later ones have failed for time.
  pub run_tests_overdue :
      (language code : String) (deadline index : ℕ) (done : List TestCase) (late : List TestCase)
      → deadline ≤ host.reached_at (index + length done)
      → (earlier : List RunSingleResult) × (run_tests host language code deadline index
            (done ++ late)
          ≡ earlier ++ map (λ t. out_of_time) late)
        × (length earlier ≡ length done)
  unfolding run_tests
  run_tests_overdue language code deadline index [] [] over = ([], refl, refl)
  run_tests_overdue language code deadline index [] (t ∷ late) over = ([], ground arith, refl)
  run_tests_overdue language code deadline index (t ∷ done) late over =
      elim (Bool-cases (leb deadline (host.reached_at index))) [
        | inl now ↦ (
          out_of_time ∷ map (λ t. out_of_time) done,
          ground (arith, map_constant-append out_of_time done late),
          ground (arith, length-map_constant out_of_time done),
        )
        | inr before ↦
            let same : host.reached_at (index + 1 + length done)
                ≡ host.reached_at (index + length (t ∷ done)) =
              ap host.reached_at (omega arith) in
            let (earlier, split, long) =
              run_tests_overdue language code deadline (index + 1) done late
                (omega (arith, same)) in
            (
              run_test host language code t (deadline - host.reached_at index) ∷ earlier,
              ground arith,
              ground arith,
            )
      ]
