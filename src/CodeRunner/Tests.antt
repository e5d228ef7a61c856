-- ===== src/CodeRunner/Tests.antt =====
-- Runs of the code runner, and its theorems at concrete inputs.
use big_project.Common.{
  inr, ℕ, ◌+◌, ◌*◌, String, ◌≡◌, refl, ◌↔◌, true, none, List, [], ◌∷◌, map, arith, ◌=ₛ◌, ◌==◌,
  if◌then◌else◌, length,
}
use big_project.JsMap
use big_project.CodeRunner.{
  dispatch_queued_runs, dispatch_rounds, Runner, Event, arrives, ends, times_out, waiting, start,
  with_admission, assert_request_rate, take_free, dispatch_rounds, dispatch_queued_runs, finish,
  remove_run, time_out, step, run_events, init,
}
use big_project.CodeRunner.Termination.{HasStopped, dispatch_queued_runs-HasStopped}
use big_project.CodeRunner.Admission.{IsValid, run_events-IsValid}
use big_project.CodeRunner.Judge.{
  TestCase, RunSingleResult, success, Host, number_results, failed_result, run_tests, output_lines,
  score, judge_admitted,
}
use big_project.CodeRunner.Judge.Verdict.{is_run, judge_admitted_success_iff}

program : Unit {0}
unfolding JsMap.get JsMap.set start with_admission assert_request_rate take_free dispatch_rounds
    dispatch_queued_runs finish remove_run time_out step run_events number_results failed_result
    run_tests output_lines score judge_admitted
program = tt

-- Two runs of one candidate, and one each of two others.
abbrev events : List Event
events = arrives 0 1 "a" ∷ arrives 1 2 "a" ∷ arrives 2 3 "b" ∷ arrives 3 4 "c" ∷ []

abbrev crowded : Runner
crowded = run_events init events

active_keys : crowded.active_admission_keys ≡ "b" ∷ "a" ∷ []
unfolding program
active_keys = refl

-- The end of the run of "b" lets that of "c" in, since "a" is still active.
dispatched : map (λ q. q.run) (run_events crowded (ends "b" ∷ [])).queued_runs ≡ 2 ∷ []
unfolding program
dispatched = refl

third_key_waits : (with_admission crowded 4 5 "d").1 ≡ waiting
unfolding program
third_key_waits = refl

run_events-IsValid_example :
    IsValid (run_events init (arrives 0 1 "a" ∷ arrives 1 2 "a" ∷ ends "a" ∷ times_out 2 ∷ []))
run_events-IsValid_example =
    run_events-IsValid init (arrives 0 1 "a" ∷ arrives 1 2 "a" ∷ ends "a" ∷ times_out 2 ∷ [])
      ((refl, tt, omega arith, omega arith), inr refl)

-- A container that prints its input, and a clock by which the third test comes too late.
abbrev echo : String → TestCase → ℕ → RunSingleResult
echo code test_case remaining = record {
  passed = test_case.input =ₛ test_case.expected_output;
  actual_output = test_case.input;
  error = none;
  execution_time_ms = 1;
}

abbrev host : Host
host = record {
  to_lower_case = λ s. s;
  trim = λ s. s;
  utf16_length = λ s. 10;
  show = λ n. if n == 1 then "1" else "2";
  started_at = 100;
  reached_at = λ i. 100 + i * 20000;
  ended_at = 30500;
  run_java_script = echo;
  run_python = echo;
}

abbrev echoed : TestCase
echoed = record { input = "x"; expected_output = "x"; is_public = true }

abbrev two_tests : List TestCase
two_tests = echoed ∷ echoed ∷ []

passes : (judge_admitted host "js" "code" two_tests).status ≡ success
unfolding program
passes = refl

output_of_two :
    (judge_admitted host "js" "code" two_tests).output
    ≡ "Docker 채점 완료. 2/2 테스트 통과.\n1. PASS (1ms)\n2. PASS (1ms)"
unfolding program
output_of_two = refl

judge_admitted_success_iff_example :
    ((judge_admitted host "js" "code" two_tests).status ≡ success) ↔ (
      (is_run host "js" "code" two_tests ≡ true)
      × ((judge_admitted host "js" "code" two_tests).passed_tests ≡ length two_tests))
judge_admitted_success_iff_example = judge_admitted_success_iff host "js" "code" two_tests

dispatch_queued_runs-HasStopped_example :
    HasStopped (dispatch_queued_runs crowded)
    × (dispatch_rounds (length crowded.queued_runs + 5) crowded ≡ dispatch_queued_runs crowded)
dispatch_queued_runs-HasStopped_example = dispatch_queued_runs-HasStopped crowded 5
