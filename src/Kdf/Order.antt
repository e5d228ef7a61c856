-- ===== src/Kdf/Order.antt =====
-- No job is lost or doubled, and the longest waiter is served first.
use big_project.Common.{
  ℕ, ◌+◌, ◌≡◌, refl, ap, ◌↔◌, inl, inr, true, List, [], ◌∷◌, ◌++◌, arith, ◌==◌, if◌then◌else◌,
  Bool-cases, length, length-append,
}
use big_project.Kdf.{
  Kdf, init, max_concurrent_password_kdf, max_queued_password_kdf, acquire, release, release_to,
  remove, waits, time_out, finish, Event, arrives, ends, times_out, step, run,
}
use big_project.Kdf.Invariant.{IsValid}

abbrev pub times : ℕ → List ℕ → ℕ
times job [] = 0
times job (j ∷ js) = (if j == job then 1 else 0) + times job js

-- How often a job stands in one of the four places: running, waiting, finished or turned away.
abbrev pub places : ℕ → Kdf → ℕ
places job k =
    times job k.running + times job k.queue + times job k.finished + times job k.turned_away

abbrev pub arrivals : ℕ → List Event → ℕ
arrivals job [] = 0
arrivals job (arrives j ∷ es) = (if j == job then 1 else 0) + arrivals job es
arrivals job (ends j ∷ es) = arrivals job es
arrivals job (times_out j ∷ es) = arrivals job es

times-append : (job : ℕ) (xs ys : List ℕ) → times job (xs ++ ys) ≡ times job xs + times job ys
times-append job [] ys = omega arith
times-append job (x ∷ xs) ys = omega (arith, times-append job xs ys)

times-remove :
    (job j : ℕ) (js : List ℕ)
    → waits j js ≡ true
    → times job js ≡ times job (remove j js) + (if j == job then 1 else 0)
unfolding remove
times-remove job j [] h = cc
times-remove job j (i ∷ js) h = ground (arith, times-remove job j js)

places-acquire :
    (job j : ℕ) (k : Kdf) → places job (acquire k j) ≡ places job k + (if j == job then 1 else 0)
unfolding acquire
places-acquire job j k = ground (arith, times-append job k.queue (j ∷ []))

places-release_to :
    (job : ℕ) (k : Kdf) (q : List ℕ) → q ≡ k.queue → places job (release_to k q) ≡ places job k
unfolding release_to
places-release_to job k [] e = refl
places-release_to job k (w ∷ rest) e = let l = ap (times job) e in ground arith

places-finish : (job j : ℕ) (k : Kdf) → places job (finish k j) ≡ places job k
unfolding finish release
places-finish job j k = elim (Bool-cases (waits j k.running)) [
  | inr e ↦ rw e
  | inl e ↦
      let t = times-remove job j k.running e in
      let r =
        places-release_to job (record k { running = remove j k.running; finished = j ∷ k.finished })
          k.queue refl in
      rw e (omega arith)
]

places-time_out : (job j : ℕ) (k : Kdf) → places job (time_out k j) ≡ places job k
unfolding time_out
places-time_out job j k = ground (arith, times-remove job j k.queue)

places-run_from :
    (job : ℕ) (k : Kdf) (es : List Event) → places job (run k es) ≡ places job k + arrivals job es
unfolding run step
places-run_from job k [] = omega arith
places-run_from job k (arrives j ∷ es) =
    omega (arith, places-run_from job (acquire k j) es, places-acquire job j k)
places-run_from job k (ends j ∷ es) =
    omega (arith, places-run_from job (finish k j) es, places-finish job j k)
places-run_from job k (times_out j ∷ es) =
    omega (arith, places-run_from job (time_out k j) es, places-time_out job j k)

-- After any events from the start, a job stands in the four places (running, waiting, finished,
-- turned away) together exactly as often as it has arrived: none is lost, doubled or made up.
pub places-run : (job : ℕ) (es : List Event) → places job (run init es) ≡ arrivals job es
places-run job es = omega (arith, places-run_from job init es)

-- When a running job ends while others wait, the one that has waited longest gets the slot, the
-- others keep their order, and as many slots are taken as before.
pub finish_serves_first :
    (k : Kdf) (job first : ℕ) (rest : List ℕ)
    → IsValid k
    → waits job k.running ≡ true
    → k.queue ≡ first ∷ rest
    → ((finish k job).queue ≡ rest)
      × ((finish k job).running ≡ first ∷ remove job k.running)
      × ((finish k job).active ≡ k.active)
      × ((finish k job).turned_away ≡ k.turned_away)
unfolding finish release release_to
finish_serves_first k job first rest v h e = let full = v.busy (ground arith) in ground arith

-- A job that arrives is turned away exactly if four jobs run and sixteen wait; nothing but the
-- list of those turned away changes then.
pub acquire_turns_away_iff :
    (k : Kdf) (job : ℕ)
    → IsValid k
    → (acquire k job ≡ record k { turned_away = job ∷ k.turned_away })
      ↔ ((k.active ≡ max_concurrent_password_kdf) × (length k.queue ≡ max_queued_password_kdf))
unfolding acquire
acquire_turns_away_iff k job v = (
  λ e.
      let active = ap (λ (q : Kdf). q.active) e in
      let queue = ap (λ (q : Kdf). length q.queue) e in
      ground (arith, v.slots, v.bounded, length-append k.queue (job ∷ [])),
  λ h. ground arith,
)
