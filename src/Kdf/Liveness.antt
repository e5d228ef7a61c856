-- ===== src/Kdf/Liveness.antt =====
-- apps/api/src/services/password-hash.ts: a job that waits gets its slot.
use big_project.Common.{
  ℕ, suc, ◌<◌, ◌≡◌, refl, ap, ◌∙◌, inl, inr, Bool, true, false, ◌&&◌, ◌||◌, List, [], ◌∷◌, ◌++◌,
  arith, ltb, leb, ◌==◌, Bool-cases, length, length-append,
}
use big_project.Kdf.{
  Kdf, max_concurrent_password_kdf, max_queued_password_kdf, acquire, release, release_to, remove,
  waits, time_out, finish, Event, arrives, ends, times_out, step, run,
}
use big_project.Kdf.Invariant.{IsValid, step-IsValid}
use big_project.Kdf.Order.{finish_serves_first}

abbrev pub ends_in : List Event → ℕ
ends_in [] = 0
ends_in (arrives job ∷ es) = ends_in es
ends_in (ends job ∷ es) = suc (ends_in es)
ends_in (times_out job ∷ es) = ends_in es

-- Jobs arrive, and running jobs end; no waiter times out.
abbrev pub is_serving : Kdf → List Event → Bool
is_serving k [] = true
is_serving k (arrives job ∷ es) = is_serving (step k (arrives job)) es
is_serving k (ends job ∷ es) = waits job k.running && is_serving (step k (ends job)) es
is_serving k (times_out job ∷ es) = false

abbrev pub is_served : ℕ → Kdf → Bool
is_served job k = waits job k.running || waits job k.finished

waits-remove :
    (job other : ℕ) (js : List ℕ)
    → waits job js ≡ true
    → (other == job || waits job (remove other js)) ≡ true
unfolding remove
waits-remove job other [] h = absurd (ground (arith, h))
waits-remove job other (j ∷ js) h = ground (arith, waits-remove job other js)

release_keeps :
    (k : Kdf) (job : ℕ) (queue : List ℕ)
    → is_served job k ≡ true
    → is_served job (release_to k queue) ≡ true
unfolding release_to
release_keeps k job [] h = h
release_keeps k job (w ∷ rest) h = ground (arith, h)

finish_keeps :
    (k : Kdf) (job other : ℕ) → is_served job k ≡ true → is_served job (finish k other) ≡ true
unfolding finish release
finish_keeps k job other h = elim (Bool-cases (waits other k.running)) [
  | inr isnt ↦ rw (finish, isnt) h
  | inl is ↦
      let ended : Kdf = record k {
        running = remove other k.running;
        finished = other ∷ k.finished;
      } in
      let kept : is_served job ended ≡ true = ground (arith, waits-remove job other k.running, h) in
      rw (finish, is) (release_keeps ended job k.queue kept)
]

step_keeps :
    (k : Kdf) (job : ℕ) (e : Event) → is_served job k ≡ true → is_served job (step k e) ≡ true
unfolding step acquire time_out
step_keeps k job (arrives other) h = ground (arith, h)
step_keeps k job (ends other) h = finish_keeps k job other h
step_keeps k job (times_out other) h = ground (arith, h)

run_keeps :
    (k : Kdf) (job : ℕ) (es : List Event) → is_served job k ≡ true → is_served job (run k es) ≡ true
unfolding run
run_keeps k job [] h = h
run_keeps k job (e ∷ es) h = run_keeps (step k e) job es (step_keeps k job e h)

push :
    (front back : List ℕ) (job other : ℕ)
    → (front ++ (job ∷ back)) ++ (other ∷ []) ≡ front ++ (job ∷ (back ++ (other ∷ [])))
push [] back job other = refl
push (f ∷ front) back job other = ap (λ q. f ∷ q) (push front back job other)

-- A job that arrives while others wait changes the end of the queue at most.
arrives_behind :
    (k : Kdf) (job other : ℕ) (front back : List ℕ)
    → IsValid k
    → k.queue ≡ front ++ (job ∷ back)
    → (more : List ℕ) × ((acquire k other).queue ≡ front ++ (job ∷ more))
unfolding acquire
arrives_behind k job other front back valid queue =
    let busy : 0 < length k.queue = ground (arith, queue, length-append front (job ∷ back)) in
    let full : ltb k.active max_concurrent_password_kdf ≡ false = ground (arith, valid.busy busy) in
    elim (Bool-cases (leb max_queued_password_kdf (length k.queue))) [
      | inl crowded ↦ (back, rw (acquire, full, crowded) queue)
      | inr room ↦ (
        back ++ (other ∷ []),
        rw (acquire, full, room) (ap (λ q. q ++ (other ∷ [])) queue ∙ push front back job other),
      )
    ]

served_from :
    (k : Kdf) (es : List Event) (job : ℕ) (front back : List ℕ)
    → IsValid k
    → k.queue ≡ front ++ (job ∷ back)
    → is_serving k es ≡ true
    → length front < ends_in es
    → is_served job (run k es) ≡ true
unfolding run step
served_from k [] job front back valid queue serving enough = absurd (omega (arith, enough))
served_from k (arrives other ∷ es) job front back valid queue serving enough =
    let behind = arrives_behind k job other front back valid queue in
    served_from (acquire k other) es job front behind.0 (step-IsValid k (arrives other) valid)
      behind.1 serving enough
served_from k (ends other ∷ es) job [] back valid queue serving enough =
    let next = finish_serves_first k other job back valid (ground (arith, serving)) queue in
    run_keeps (finish k other) job es (ground (arith, next.1))
served_from k (ends other ∷ es) job (first ∷ front) back valid queue serving enough =
    let next =
      finish_serves_first k other first (front ++ (job ∷ back)) valid (ground (arith, serving))
        queue in
    served_from (finish k other) es job front back (step-IsValid k (ends other) valid) next.0
      (ground (arith, serving)) (omega (arith, enough))
served_from k (times_out other ∷ es) job front back valid queue serving enough =
    ground (arith, serving)

-- A job that waits gets its slot: whatever jobs arrive meanwhile, once as many running jobs have
-- ended as stood before it in the queue, and one more, it runs or has finished, if no waiter times
-- out before. The limits on the slots and the queue hold at the start.
pub is_served-run :
    (k : Kdf) (es : List Event) (job : ℕ) (front back : List ℕ)
    → IsValid k
    → k.queue ≡ front ++ (job ∷ back)
    → is_serving k es ≡ true
    → length front < ends_in es
    → is_served job (run k es) ≡ true
is_served-run k es job front back valid queue serving enough =
    served_from k es job front back valid queue serving enough
