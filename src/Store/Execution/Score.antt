-- ===== src/Store/Execution/Score.antt =====
-- apps/api/src/services/platform-store.execution-scoring.ts: the score of a submission.
use big_project.Common.{ℕ, ◌≤◌, ◌<◌, ◌≡◌, refl, ap, ◌∙◌, arith, lt→ltb}
use big_project.CodeRunner.Judge.{CodeRunnerResult}
use big_project.Store.Execution.{Numbers, calculate_submission_score}

module _ (numbers : Numbers) where
  abbrev percent : ℕ → ℕ → ℕ
  percent p t =
      numbers.round
        (numbers.times (numbers.divide (numbers.of_nat p) (numbers.of_nat t)) (numbers.of_nat 100))

  percent_all : (t : ℕ) → 0 < t → percent t t ≡ 100
  percent_all t h =
      ap (λ x. numbers.round (numbers.times x (numbers.of_nat 100))) (numbers.divide_self t h)
      ∙ ap numbers.round (numbers.times-of_nat 1 100 (omega arith))
      ∙ numbers.round-of_nat 100 (omega arith)

  percent_none : (t : ℕ) → 0 < t → percent 0 t ≡ 0
  percent_none t h =
      ap (λ x. numbers.round (numbers.times x (numbers.of_nat 100))) (numbers.divide_zero t h)
      ∙ ap numbers.round (numbers.times-of_nat 0 100 (omega arith))
      ∙ numbers.round-of_nat 0 (omega arith)

  percent_le : (p q t : ℕ) → p ≤ q → 0 < t → percent p t ≤ percent q t
  percent_le p q t h some_t =
      numbers.round-le _ _ (numbers.times-le _ _ _ (numbers.divide-le p q t h some_t))

  score_percent :
      (result : CodeRunnerResult)
      → 0 < result.total_tests
      → calculate_submission_score numbers result ≡ percent result.passed_tests result.total_tests
  unfolding calculate_submission_score
  score_percent result tests =
      let is = lt→ltb 0 result.total_tests tests in rw (calculate_submission_score, is) refl

  -- Of two results of as many tests, at least one, no more of them passed than there are, the one in
  -- which more pass has no lower score. No score is above 100, it is 100 if all tests pass, and 0 if
  -- none does.
  pub calculate_submission_score_bounds :
      (fewer more : CodeRunnerResult)
      → fewer.total_tests ≡ more.total_tests
      → fewer.passed_tests ≤ more.passed_tests
      → more.passed_tests ≤ more.total_tests
      → 0 < more.total_tests
      → (calculate_submission_score numbers fewer ≤ calculate_submission_score numbers more)
        × (calculate_submission_score numbers more ≤ 100)
        × (more.passed_tests ≡ more.total_tests → calculate_submission_score numbers more ≡ 100)
        × (fewer.passed_tests ≡ 0 → calculate_submission_score numbers fewer ≡ 0)
  calculate_submission_score_bounds fewer more total passed bound tests =
      let t = more.total_tests in
      let low : calculate_submission_score numbers fewer ≡ percent fewer.passed_tests t =
        score_percent fewer (omega (arith, total, tests)) ∙ ap (percent fewer.passed_tests) total in
      let high = score_percent more tests in
      let between = percent_le fewer.passed_tests more.passed_tests t passed tests in
      let top = percent_le more.passed_tests t t bound tests in
      let full = percent_all t tests in
      (
        omega (arith, low, high, between),
        omega (arith, high, top, full),
        λ all_pass. high ∙ ap (λ p. percent p t) all_pass ∙ full,
        λ none_passes. low ∙ ap (λ p. percent p t) none_passes ∙ percent_none t tests,
      )
