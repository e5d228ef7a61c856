-- ===== src/CodeRunner/Admission.antt =====
-- The admission keeps its limits: two active runs, one for each key, eight waiting, and no free run
-- waits while there is room.
use big_project.Common.{
  ◌⊎◌, ℕ, zero, suc, ◌-◌, ◌≤◌, String, ◌≡◌, refl, inl, inr, Bool, true, false, none, some, List, [],
  ◌∷◌, ◌++◌, arith, eq_iff, ltb, Bool-cases, Option-cases, length, all, length-append,
}
use big_project.CodeRunner.{
  Runner, QueuedRun, Event, arrives, ends, times_out, max_concurrent_runs, max_queued_runs, has,
  drop, start, with_admission, take_free, dispatch_rounds, dispatch_queued_runs, finish, remove_run,
  time_out, step, run_events,
}

abbrev pub NoRepeats : List String → Type 0
NoRepeats [] = Unit {0}
NoRepeats (k ∷ ks) = (has k ks ≡ false) × NoRepeats ks

abbrev pub is_active : List String → QueuedRun → Bool
is_active keys q = has q.admission_key keys

-- Two runs at most are active, no two under one key, and the queue is within its limit.
abbrev pub IsBounded : Runner → Type 0
IsBounded s =
    (s.active_runs ≡ length s.active_admission_keys)
    × NoRepeats s.active_admission_keys
    × (s.active_runs ≤ max_concurrent_runs)
    × (length s.queued_runs ≤ max_queued_runs)

-- There is no room for a run, or every run that waits has an active key.
abbrev pub IsSettled : Runner → Type 0
IsSettled s =
    (max_concurrent_runs ≤ s.active_runs)
    ⊎ (all (is_active s.active_admission_keys) s.queued_runs ≡ true)

abbrev pub IsValid : Runner → Type 0
IsValid s = IsBounded s × IsSettled s

take_free_empty :
    (keys : List String) (queue : List QueuedRun)
    → take_free keys queue ≡ none
    → all (is_active keys) queue ≡ true
unfolding take_free
take_free_empty keys [] h = refl
take_free_empty keys (q ∷ queue) h = elim (Option-cases (take_free keys queue)) [
  | inl e ↦ ground (arith, take_free_empty keys queue e)
  | inr ((found, rest), e) ↦ absurd (ground arith)
]

pub take_free_found :
    (keys : List String) (queue rest : List QueuedRun) (q : QueuedRun)
    → take_free keys queue ≡ some (q, rest)
    → (has q.admission_key keys ≡ false) × (suc (length rest) ≡ length queue)
unfolding take_free
take_free_found keys [] rest q h = absurd (ground arith)
take_free_found keys (p ∷ queue) rest q h = elim (Option-cases (take_free keys queue)) [
  | inl e ↦ ground arith
  | inr ((found, others), e) ↦ let l = take_free_found keys queue others found e in ground arith
]

has-drop : (keys : List String) (k j : String) → has k keys ≡ false → has k (drop j keys) ≡ false
has-drop [] k j h = refl
has-drop (i ∷ keys) k j h = ground (arith, has-drop keys k j)

drop-NoRepeats : (keys : List String) (key : String) → NoRepeats keys → NoRepeats (drop key keys)
drop-NoRepeats [] key h = tt
drop-NoRepeats (k ∷ keys) key h =
    ground (arith, drop-NoRepeats keys key h.1, has-drop keys k key h.0)

drop_absent :
    (keys : List String) (key : String)
    → has key keys ≡ false
    → length (drop key keys) ≡ length keys
drop_absent [] key h = refl
drop_absent (k ∷ keys) key h = ground (arith, drop_absent keys key)

length-drop :
    (keys : List String) (key : String)
    → NoRepeats keys
    → has key keys ≡ true
    → suc (length (drop key keys)) ≡ length keys
length-drop [] key h here = absurd (ground arith)
length-drop (k ∷ keys) key h here =
    ground (arith, length-drop keys key h.1, drop_absent keys key, eq_iff k key)

all_active-add :
    (keys : List String) (key : String) (queue : List QueuedRun)
    → all (is_active keys) queue ≡ true
    → all (is_active (key ∷ keys)) queue ≡ true
all_active-add keys key [] h = refl
all_active-add keys key (q ∷ queue) h = ground (arith, all_active-add keys key queue)

all-append :
    (keys : List String) (queue more : List QueuedRun)
    → all (is_active keys) queue ≡ true
    → all (is_active keys) more ≡ true
    → all (is_active keys) (queue ++ more) ≡ true
all-append keys [] more h hm = hm
all-append keys (q ∷ queue) more h hm = ground (arith, all-append keys queue more)

all-remove_run :
    (keys : List String) (run : ℕ) (queue : List QueuedRun)
    → all (is_active keys) queue ≡ true
    → all (is_active keys) (remove_run run queue) ≡ true
unfolding remove_run
all-remove_run keys run [] h = refl
all-remove_run keys run (q ∷ queue) h = ground (arith, all-remove_run keys run queue)

length-remove_run-le :
    (run : ℕ) (queue : List QueuedRun) → length (remove_run run queue) ≤ length queue
unfolding remove_run
length-remove_run-le run [] = omega arith
length-remove_run-le run (q ∷ queue) = ground (arith, length-remove_run-le run queue)

dispatch_rounds-IsValid :
    (rounds : ℕ) (s : Runner)
    → IsBounded s
    → length s.queued_runs ≤ rounds
    → IsValid (dispatch_rounds rounds s)
unfolding dispatch_rounds start
dispatch_rounds-IsValid zero s h enough = (
  h,
  inr (
      elim s.queued_runs as (λ q. length q ≤ 0 → all (is_active s.active_admission_keys) q ≡ true) [
        | [] ↦ λ e. refl
        | q ∷ queue ↦ λ e. absurd (omega arith)
      ]
        enough),
)
dispatch_rounds-IsValid (suc rounds) s h enough =
    elim (Bool-cases (ltb s.active_runs max_concurrent_runs)) [
      | inr full ↦ rw (dispatch_rounds, full) (h, inl (ground arith))
      | inl room ↦ elim (Option-cases (take_free s.active_admission_keys s.queued_runs)) [
        | inl e ↦
            rw (dispatch_rounds, room, e)
              (h, inr (take_free_empty s.active_admission_keys s.queued_runs e))
        | inr ((q, rest), e) ↦
            let (free, shorter) = take_free_found s.active_admission_keys s.queued_runs rest q e in
            let next : Runner = start (record s { queued_runs = rest }) q.admission_key in
            let bounded : IsBounded next = ground arith in
            let fits : length next.queued_runs ≤ rounds = omega arith in
            rw (dispatch_rounds, room, e) (dispatch_rounds-IsValid rounds next bounded fits)
      ]
    ]

with_admission-IsValid :
    (s : Runner) (now run : ℕ) (key : String) → IsValid s → IsValid (with_admission s now run key).0
unfolding with_admission start
with_admission-IsValid s now run key (h, settled) =
    let q : QueuedRun = record { run = run; admission_key = key } in
    let more = all_active-add s.active_admission_keys key s.queued_runs in
    let appended = all-append s.active_admission_keys s.queued_runs (q ∷ []) in
    let long = length-append s.queued_runs (q ∷ []) in (ground arith, ground arith)

finish-IsValid : (s : Runner) (key : String) → IsValid s → IsValid (finish s key)
unfolding finish dispatch_queued_runs
finish-IsValid s key (h, settled) = elim (Bool-cases (has key s.active_admission_keys)) [
  | inr idle ↦ rw (finish, idle) (h, settled)
  | inl runs ↦
      let next : Runner = record s {
        active_runs = s.active_runs - 1;
        active_admission_keys = drop key s.active_admission_keys;
      } in
      let fewer = length-drop s.active_admission_keys key h.1 runs in
      let distinct = drop-NoRepeats s.active_admission_keys key h.1 in
      let bounded : IsBounded next = ground arith in
      rw (finish, runs) (dispatch_rounds-IsValid (length s.queued_runs) next bounded (omega arith))
]

time_out-IsValid : (s : Runner) (run : ℕ) → IsValid s → IsValid (time_out s run)
unfolding time_out
time_out-IsValid s run (h, settled) =
    let shorter = length-remove_run-le run s.queued_runs in
    (
      ground arith,
      elim settled [
        | inl full ↦ inl full
        | inr waits ↦ inr (all-remove_run s.active_admission_keys run s.queued_runs waits)
      ],
    )

-- Requests, ends and time-outs keep the limits, in any order: two runs at most are active, never
-- two under one key; eight at most wait; and where there is room for a run, each run that waits has
-- the key of an active one.
pub run_events-IsValid : (s : Runner) (es : List Event) → IsValid s → IsValid (run_events s es)
unfolding run_events step
run_events-IsValid s [] h = h
run_events-IsValid s (arrives now run key ∷ es) h =
    run_events-IsValid (step s (arrives now run key)) es (with_admission-IsValid s now run key h)
run_events-IsValid s (ends key ∷ es) h =
    run_events-IsValid (step s (ends key)) es (finish-IsValid s key h)
run_events-IsValid s (times_out run ∷ es) h =
    run_events-IsValid (step s (times_out run)) es (time_out-IsValid s run h)
