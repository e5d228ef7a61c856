-- ===== src/CodeRunner/Rate.antt =====
-- The request rate of an admission key.
use big_project.Common.{ℕ, String, ◌≡◌, not, ◌&&◌, arith, ltb, if◌then◌else◌, length}
use big_project.JsMap
use big_project.JsMap.{get-set, IsMap}
use big_project.CodeRunner.{
  Runner, Windows, started, waiting, busy, current_window, assert_request_rate, with_admission,
  max_runs_per_candidate_per_minute, max_concurrent_runs, max_queued_runs, has,
}

-- How many requests of the key the windows count at a time.
abbrev pub requests_in : Windows → ℕ → String → ℕ
requests_in windows now key = (current_window (JsMap.get key windows) now).count

-- The reply to a request: busy if the key has used up its window, or if there is neither a free
-- slot for it nor room in the queue; otherwise it starts if it can, and waits if it cannot.
pub with_admission_reply :
    (s : Runner) (now run : ℕ) (key : String)
    → (with_admission s now run key).1 ≡ (
        if ltb (requests_in s.request_windows now key) max_runs_per_candidate_per_minute
        then if ltb s.active_runs max_concurrent_runs && not (has key s.active_admission_keys)
          then started
          else if ltb (length s.queued_runs) max_queued_runs
          then waiting
          else busy
        else busy)
unfolding with_admission assert_request_rate
with_admission_reply s now run key = ground arith
