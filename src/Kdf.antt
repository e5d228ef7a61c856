-- ===== src/Kdf.antt =====
-- apps/api/src/services/password-hash.ts: the admission of password derivations. At most four run,
-- at most sixteen wait, and the module's two variables are the state. Each job is known by a
-- number: the promise of a waiter is the number in the queue. Which jobs hold a slot, and which
-- have finished or were turned away, is written down beside the source's two variables.
pub mod Invariant
pub mod Order
pub mod Liveness
mod Tests
use big_project.Common.{
  ℕ, zero, suc, ◌+◌, ◌-◌, ◌*◌, ◌/◌, ◌%◌, ◌≤◌, ◌<◌, min, max, String, ◌≡◌, refl, sym, ap, subst, ◌∙◌,
  ◌≢◌, ◌↔◌, ◌⊎◌, inl, inr, Bool, true, false, not, ◌&&◌, ◌||◌, Option, none, some, List, [], ◌∷◌,
  ◌++◌, map, arith, eq_iff, eq_refl, ◌=ₛ◌, ltb, leb, ◌==◌, if◌then◌else◌, ltb→lt, lt→ltb, le→leb,
  Bool-cases, Option-cases, length, find, filter, any, all, head?, length-append, length-filter-le,
  find-passes, All, All-append, All-filter, is_empty, before, includes_char,
}

abbrev pub max_concurrent_password_kdf : ℕ
max_concurrent_password_kdf = 4

abbrev pub max_queued_password_kdf : ℕ
max_queued_password_kdf = 16

pub record Kdf : Type 0 where
  pub active : ℕ
  pub queue : List ℕ
  pub running : List ℕ
  pub finished : List ℕ
  pub turned_away : List ℕ

abbrev pub init : Kdf
init = record { active = 0; queue = []; running = []; finished = []; turned_away = [] }

-- `acquirePasswordKdfSlot`: the slot is granted, the request is refused, or it waits.
unfoldable pub acquire : Kdf → ℕ → Kdf
acquire k job =
    if ltb k.active max_concurrent_password_kdf
    then record k { active = k.active + 1; running = job ∷ k.running }
    else if leb max_queued_password_kdf (length k.queue)
    then record k { turned_away = job ∷ k.turned_away }
    else record k { queue = k.queue ++ job ∷ [] }

-- `releasePasswordKdfSlot`, with the first waiter taken off the queue.
release_to : Kdf → List ℕ → Kdf
release_to k [] = record k { active = k.active - 1 }
release_to k (waiter ∷ rest) = record k {
  active = k.active - 1 + 1;
  queue = rest;
  running = waiter ∷ k.running;
}

unfoldable pub release : Kdf → Kdf
unfolding release_to
release k = release_to k k.queue

-- `passwordKdfQueue.splice(index, 1)` for the first entry of a job, if there is one.
unfoldable pub remove : ℕ → List ℕ → List ℕ
remove job [] = []
remove job (j ∷ js) = if j == job then js else j ∷ remove job js

abbrev pub waits : ℕ → List ℕ → Bool
waits job = any (λ j. j == job)

-- The timer of a waiter. That of a settled promise has been cleared, and has no effect.
unfoldable pub time_out : Kdf → ℕ → Kdf
unfolding remove
time_out k job =
    if waits job k.queue
    then record k { queue = remove job k.queue; turned_away = job ∷ k.turned_away }
    else k

-- `derivePasswordKeyWithAdmission`: a job that holds a slot ends, whether or not it failed, and the
-- `finally` block releases the slot.
unfoldable pub finish : Kdf → ℕ → Kdf
unfolding release remove
finish k job =
    if waits job k.running
    then release (record k { running = remove job k.running; finished = job ∷ k.finished })
    else k

pub data Event : Type 0 where
  arrives ends times_out : ℕ → Event

unfoldable pub step : Kdf → Event → Kdf
unfolding acquire finish time_out
step k (arrives job) = acquire k job
step k (ends job) = finish k job
step k (times_out job) = time_out k job

unfoldable pub run : Kdf → List Event → Kdf
unfolding step
run k [] = k
run k (e ∷ es) = run (step k e) es
