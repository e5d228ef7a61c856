-- ===== src/Kdf/Invariant.antt =====
-- What holds of the admission after any events.
use big_project.Common.{
  ℕ, ◌+◌, ◌≤◌, ◌<◌, ◌≡◌, refl, ap, inl, inr, true, List, [], ◌∷◌, arith, Bool-cases, length,
  length-append,
}
use big_project.Kdf.{
  Kdf, init, max_concurrent_password_kdf, max_queued_password_kdf, acquire, release, release_to,
  remove, waits, time_out, finish, Event, arrives, ends, times_out, step, run,
}

-- The slots are those of the running jobs, both limits hold, and a job waits only while every slot
-- is taken.
pub record IsValid (k : Kdf) : Type 0 where
  pub counted : k.active ≡ length k.running
  pub slots : k.active ≤ max_concurrent_password_kdf
  pub bounded : length k.queue ≤ max_queued_password_kdf
  pub busy : 0 < length k.queue → k.active ≡ max_concurrent_password_kdf

length-remove :
    (job : ℕ) (js : List ℕ) → waits job js ≡ true → length js ≡ length (remove job js) + 1
unfolding remove
length-remove job [] h = cc
length-remove job (j ∷ js) h = ground (arith, length-remove job js)

acquire-IsValid : (k : Kdf) (job : ℕ) → IsValid k → IsValid (acquire k job)
unfolding acquire
acquire-IsValid k job v = ground (arith, length-append k.queue (job ∷ []))

release_to-IsValid :
    (k : Kdf) (q : List ℕ)
    → q ≡ k.queue
    → k.active ≡ length k.running + 1
    → k.active ≤ max_concurrent_password_kdf
    → length k.queue ≤ max_queued_password_kdf
    → (0 < length k.queue → k.active ≡ max_concurrent_password_kdf)
    → IsValid (release_to k q)
unfolding release_to
release_to-IsValid k [] e counted slots bounded busy = ground arith
release_to-IsValid k (w ∷ rest) e counted slots bounded busy = let l = ap length e in ground arith

finish-IsValid : (k : Kdf) (job : ℕ) → IsValid k → IsValid (finish k job)
unfolding finish release
finish-IsValid k job v = elim (Bool-cases (waits job k.running)) [
  | inr e ↦ rw e v
  | inl e ↦
      let l = length-remove job k.running e in
      rw e (
        release_to-IsValid
          (record k { running = remove job k.running; finished = job ∷ k.finished }) k.queue refl
          (omega (arith, v.counted)) v.slots v.bounded v.busy)
]

time_out-IsValid : (k : Kdf) (job : ℕ) → IsValid k → IsValid (time_out k job)
unfolding time_out
time_out-IsValid k job v = ground (arith, length-remove job k.queue)

pub step-IsValid : (k : Kdf) (e : Event) → IsValid k → IsValid (step k e)
unfolding step
step-IsValid k (arrives job) v = acquire-IsValid k job v
step-IsValid k (ends job) v = finish-IsValid k job v
step-IsValid k (times_out job) v = time_out-IsValid k job v

run_from-IsValid : (k : Kdf) (es : List Event) → IsValid k → IsValid (run k es)
unfolding run
run_from-IsValid k [] v = v
run_from-IsValid k (e ∷ es) v = run_from-IsValid (step k e) es (step-IsValid k e v)

-- After any events from the start, the slot count is the number of running jobs and at most four,
-- at most sixteen jobs wait, and a job waits only while all four slots are taken.
pub run-IsValid : (es : List Event) → IsValid (run init es)
run-IsValid es = run_from-IsValid init es (ground arith)
