-- ===== src/CodeRunner/Termination.antt =====
-- apps/api/src/services/code-runner.service.ts: the loop that starts queued runs stops.
use big_project.Common.{
  ℕ, zero, suc, ◌+◌, ◌≤◌, String, ◌≡◌, refl, sym, ap, subst, ◌∙◌, ◌⊎◌, inl, inr, true, false, none,
  some, List, [], ◌∷◌, arith, ltb, Bool-cases, Option-cases, length,
}
use big_project.CodeRunner.Admission.{take_free_found}
use big_project.CodeRunner.{
  QueuedRun, Runner, start, take_free, dispatch_rounds, dispatch_queued_runs, max_concurrent_runs,
}

empty_queue :
    (keys : List String) (queue : List QueuedRun) → length queue ≤ 0 → take_free keys queue ≡ none
unfolding take_free
empty_queue keys [] h = refl
empty_queue keys (q ∷ queue) h = absurd (omega (arith, h))

-- Why the loop has stopped: no slot is free, or no queued run may start.
abbrev pub HasStopped : Runner → Type 0
HasStopped s =
    (ltb s.active_runs max_concurrent_runs ≡ false)
    ⊎ (take_free s.active_admission_keys s.queued_runs ≡ none)

stop : (rounds : ℕ) (s : Runner) → HasStopped s → dispatch_rounds rounds s ≡ s
unfolding dispatch_rounds
stop zero s h = refl
stop (suc rounds) s (inl full) = rw (dispatch_rounds, full) refl
stop (suc rounds) s (inr nobody) = elim (Bool-cases (ltb s.active_runs max_concurrent_runs)) [
  | inl room ↦ rw (dispatch_rounds, room, nobody) refl
  | inr full ↦ rw (dispatch_rounds, full) refl
]

stopped_alike :
    (rounds more : ℕ) (s : Runner)
    → HasStopped s
    → (dispatch_rounds (rounds + more) s ≡ dispatch_rounds rounds s)
      × HasStopped (dispatch_rounds rounds s)
stopped_alike rounds more s h =
    (stop (rounds + more) s h ∙ sym (stop rounds s h), subst HasStopped (sym (stop rounds s h)) h)

next_round :
    (rounds : ℕ) (s : Runner) (q : QueuedRun) (rest : List QueuedRun)
    → ltb s.active_runs max_concurrent_runs ≡ true
    → take_free s.active_admission_keys s.queued_runs ≡ some (q, rest)
    → dispatch_rounds (suc rounds) s
      ≡ dispatch_rounds rounds (start (record s { queued_runs = rest }) q.admission_key)
unfolding dispatch_rounds
next_round rounds s q rest room found = rw (dispatch_rounds, room, found) refl

rounds_enough :
    (rounds more : ℕ) (s : Runner)
    → length s.queued_runs ≤ rounds
    → (dispatch_rounds (rounds + more) s ≡ dispatch_rounds rounds s)
      × HasStopped (dispatch_rounds rounds s)
unfolding start
rounds_enough zero more s h =
    stopped_alike zero more s (inr (empty_queue s.active_admission_keys s.queued_runs h))
rounds_enough (suc rounds) more s h = elim (Bool-cases (ltb s.active_runs max_concurrent_runs)) [
  | inr full ↦ stopped_alike (suc rounds) more s (inl full)
  | inl room ↦ elim (Option-cases (take_free s.active_admission_keys s.queued_runs)) [
    | inl nobody ↦ stopped_alike (suc rounds) more s (inr nobody)
    | inr found ↦
        let q = found.0.0 in
        let rest = found.0.1 in
        let after = start (record s { queued_runs = rest }) q.admission_key in
        let shorter = (take_free_found s.active_admission_keys s.queued_runs rest q found.1).1 in
        let fewer : length after.queued_runs ≤ rounds = omega (arith, shorter, h) in
        let later = rounds_enough rounds more after fewer in
        let sum : suc rounds + more ≡ suc (rounds + more) = omega arith in
        (
          ap (λ n. dispatch_rounds n s) sum
              ∙ next_round (rounds + more) s q rest room found.1
              ∙ later.0
              ∙ sym (next_round rounds s q rest room found.1),
          subst HasStopped (sym (next_round rounds s q rest room found.1)) later.1,
        )
  ]
]

-- The loop that starts queued runs stops within as many rounds as there are queued runs: it stops
-- because no slot is free or no queued run may start, and more rounds change nothing.
pub dispatch_queued_runs-HasStopped :
    (s : Runner) (more : ℕ)
    → HasStopped (dispatch_queued_runs s)
      × (dispatch_rounds (length s.queued_runs + more) s ≡ dispatch_queued_runs s)
unfolding dispatch_queued_runs
dispatch_queued_runs-HasStopped s more =
    let enough = rounds_enough (length s.queued_runs) more s (omega arith) in (enough.1, enough.0)
