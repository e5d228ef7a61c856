-- ===== src/CodeRunner.antt =====
-- apps/api/src/services/code-runner.service.ts: `CodeRunnerService`, the admission of runs. At most
-- two runs are active, never two under one admission key, and at most eight wait; a key may ask six
-- times a minute. The state is the service's four fields. A run is known by its number, and an
-- active one by its key. Time is an argument; the runs themselves are in CodeRunner/Judge.antt.
pub mod Admission
pub mod Rate
pub mod Judge
pub mod Termination
mod Tests
use big_project.Common.{
  ℕ, zero, suc, ◌+◌, ◌-◌, ◌*◌, ◌/◌, ◌%◌, ◌≤◌, ◌<◌, min, max, String, ◌≡◌, refl, sym, ap, subst, ◌∙◌,
  ◌≢◌, ◌↔◌, ◌⊎◌, inl, inr, Bool, true, false, not, ◌&&◌, ◌||◌, Option, none, some, List, [], ◌∷◌,
  ◌++◌, map, arith, eq_iff, eq_refl, ◌=ₛ◌, ltb, leb, ◌==◌, if◌then◌else◌, ltb→lt, lt→ltb, le→leb,
  Bool-cases, Option-cases, length, find, filter, any, all, head?, length-append, length-filter-le,
  find-passes, All, All-append, All-filter, is_empty, before, includes_char,
}
use big_project.JsMap
use big_project.Common.Result.{Result, ok, throw, service_unavailable, too_many_requests}

abbrev pub max_concurrent_runs : ℕ
max_concurrent_runs = 2

abbrev pub max_queued_runs : ℕ
max_queued_runs = 8

abbrev pub max_runs_per_candidate_per_minute : ℕ
max_runs_per_candidate_per_minute = 6

abbrev pub maximum_windows : ℕ
maximum_windows = 10000

pub record QueuedRun : Type 0 where
  pub run : ℕ
  pub admission_key : String

pub record RequestWindow : Type 0 where
  pub count : ℕ
  pub reset_at : ℕ

abbrev pub Windows : Type 0
Windows = List (String × RequestWindow)

pub record Runner : Type 0 where
  pub active_runs : ℕ
  pub active_admission_keys : List String
  pub queued_runs : List QueuedRun
  pub request_windows : Windows

abbrev pub init : Runner
init = record {
  active_runs = 0;
  active_admission_keys = [];
  queued_runs = [];
  request_windows = [];
}

-- `Set.has`, `Set.add` and `Set.delete`.
abbrev pub has : String → List String → Bool
has key = any (λ k. k =ₛ key)

abbrev pub add : String → List String → List String
add key keys = if has key keys then keys else key ∷ keys

abbrev pub drop : String → List String → List String
drop key = filter (λ k. not (k =ₛ key))

-- The request is counted in the window of its key.
abbrev pub current_window : Option RequestWindow → ℕ → RequestWindow
current_window none now = record { count = 0; reset_at = now + 60000 }
current_window (some w) now =
    if leb w.reset_at now then record { count = 0; reset_at = now + 60000 } else w

-- `assertRequestRate`: the new windows, and whether the request is within its rate.
unfoldable pub assert_request_rate : Windows → ℕ → String → Windows × Bool
assert_request_rate windows now key =
    let old = current_window (JsMap.get key windows) now in
    let window = record old { count = old.count + 1 } in
    let counted = JsMap.set key window windows in
    if ltb max_runs_per_candidate_per_minute window.count then (counted, false) else (
      if ltb maximum_windows (length counted)
          then filter (λ e. not (leb e.1.reset_at now)) counted
          else counted,
      true,
    )

-- The synchronous start of `runAdmitted`.
unfoldable pub start : Runner → String → Runner
start s key = record s {
  active_runs = s.active_runs + 1;
  active_admission_keys = add key s.active_admission_keys;
}

pub data Reply : Type 0 where
  started waiting busy : Reply

-- `withAdmission`.
unfoldable pub with_admission : Runner → ℕ → ℕ → String → Runner × Reply
unfolding assert_request_rate start
with_admission s now run key =
    let (windows, allowed) = assert_request_rate s.request_windows now key in
    let counted = record s { request_windows = windows } in
    if not allowed
    then (counted, busy)
    else if ltb s.active_runs max_concurrent_runs && not (has key s.active_admission_keys)
    then (start counted key, started)
    else if leb max_queued_runs (length s.queued_runs)
    then (counted, busy)
    else (
      record counted {
        queued_runs = s.queued_runs ++ record { run = run; admission_key = key } ∷ [];
      },
      waiting,
    )

-- The entrance of `judge`: production refuses every run.
unfoldable pub request_judge : Bool → Runner → ℕ → ℕ → String → Runner × Result Reply
unfolding with_admission
request_judge production s now run key =
    let (after, reply) = with_admission s now run key in
    if production then (s, throw service_unavailable) else (
      after,
      elim reply [ started ↦ ok started | waiting ↦ ok waiting | busy ↦ throw too_many_requests ],
    )

-- `findIndex` and `splice`: the first queued run whose key is not active, and the others.
unfoldable pub take_free : List String → List QueuedRun → Option (QueuedRun × List QueuedRun)
take_free keys [] = none
take_free keys (q ∷ queue) =
    let later = take_free keys queue in
    if not (has q.admission_key keys)
    then some (q, queue)
    else elim later [ none ↦ none | some (found, rest) ↦ some (found, q ∷ rest) ]

-- The loop of `dispatchQueuedRuns`. Each round takes a run off the queue, so that the length of the
-- queue bounds the rounds.
unfoldable pub dispatch_rounds : ℕ → Runner → Runner
unfolding take_free start
dispatch_rounds zero s = s
dispatch_rounds (suc rounds) s =
    if ltb s.active_runs max_concurrent_runs
    then elim (take_free s.active_admission_keys s.queued_runs) [
      | none ↦ s
      | some (q, rest) ↦
          dispatch_rounds rounds (start (record s { queued_runs = rest }) q.admission_key)
    ]
    else s

unfoldable pub dispatch_queued_runs : Runner → Runner
unfolding dispatch_rounds
dispatch_queued_runs s = dispatch_rounds (length s.queued_runs) s

-- The `finally` block of `runAdmitted`, when the active run of a key has ended.
unfoldable pub finish : Runner → String → Runner
unfolding dispatch_queued_runs
finish s key =
    if has key s.active_admission_keys
    then dispatch_queued_runs (record s {
      active_runs = s.active_runs - 1;
      active_admission_keys = drop key s.active_admission_keys;
    })
    else s

-- `splice` at the index of a queued run, if it is there.
unfoldable pub remove_run : ℕ → List QueuedRun → List QueuedRun
remove_run run [] = []
remove_run run (q ∷ queue) = if q.run == run then queue else q ∷ remove_run run queue

-- The timer of a queued run; of one that has left the queue it has been cleared.
unfoldable pub time_out : Runner → ℕ → Runner
unfolding remove_run
time_out s run = record s { queued_runs = remove_run run s.queued_runs }

pub data Event : Type 0 where
  arrives : ℕ → ℕ → String → Event
  ends : String → Event
  times_out : ℕ → Event

unfoldable pub step : Runner → Event → Runner
unfolding with_admission finish time_out
step s (arrives now run key) = (with_admission s now run key).0
step s (ends key) = finish s key
step s (times_out run) = time_out s run

unfoldable pub run_events : Runner → List Event → Runner
unfolding step
run_events s [] = s
run_events s (e ∷ es) = run_events (step s e) es
