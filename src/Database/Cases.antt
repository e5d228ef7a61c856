-- ===== src/Database/Cases.antt =====
-- apps/api/src/services/platform-store.database.ts: what a caller learns from a run.
use big_project.Common.{◌≡◌, refl, ◌∙◌, ◌≢◌, ◌⊎◌, inl, inr, Option, none, some, arith, Bool-cases}
use big_project.Common.Result.{Result, ok, throw, Exception}
use big_project.Database.{
  Environment, Outcome, returns, raises, breaks, Connection, skips_database, fall_back, settle,
  try_database, or_in_memory,
}

module _ {ℓ} {Db : Type 0} {T : Type ℓ} (env : Environment) where
  settle-some :
      (c : Connection Db) (outcome : Outcome T) (t : T)
      → (settle env c outcome).1 ≡ ok (some t)
      → outcome ≡ returns t
  unfolding settle fall_back
  settle-some c (returns s) t h = ground (arith, h)
  settle-some c (raises e) t h = ground (arith, h)
  settle-some c breaks t h = ground (arith, h)

  -- A value comes from the operation.
  pub try_database-some :
      (c : Connection Db) (operation : Db → Db × Outcome T) (t : T)
      → (try_database env c operation).1 ≡ ok (some t)
      → (operation c.db).1 ≡ returns t
  unfolding try_database
  try_database-some c operation t h =
      elim (Bool-cases (skips_database env c.database_unavailable)) [
        | inl is ↦ ground (arith, h, is)
        | inr isnt ↦
            settle-some (record c { db = (operation c.db).0 }) (operation c.db).1 t
              (ground (arith, h, isnt))
      ]

  settle-db : (c : Connection Db) (outcome : Outcome T) → (settle env c outcome).0.db ≡ c.db
  unfolding settle fall_back
  settle-db c (returns s) = refl
  settle-db c (raises e) = ground (arith)
  settle-db c breaks = ground (arith)

  -- An operation that leaves the database alone leaves it alone in a run.
  pub try_database-db :
      (c : Connection Db) (operation : Db → Db × Outcome T)
      → (operation c.db).0 ≡ c.db
      → (try_database env c operation).0.db ≡ c.db
  unfolding try_database
  try_database-db c operation h = elim (Bool-cases (skips_database env c.database_unavailable)) [
    | inl is ↦ rw (is) refl
    | inr isnt ↦ rw (isnt) (settle-db (record c { db = (operation c.db).0 }) (operation c.db).1 ∙ h)
  ]

-- Where the value of an operation comes from.
pub or_in_memory-cases {ℓ κ} :
    {T : Type ℓ} {S : Type κ} (r : Result (Option T)) (f : T → S) (m : Result S) (s : S)
    → or_in_memory r f m ≡ ok s
    → ((t : T) × ((r ≡ ok (some t)) × (f t ≡ s))) ⊎ ((r ≡ ok none) × (m ≡ ok s))
or_in_memory-cases (throw e) f m s h = ground (arith, h)
or_in_memory-cases (ok none) f m s h = inr (refl, h)
or_in_memory-cases (ok (some t)) f m s h = inl (t, (refl, ground (arith, h)))

-- Without a value from the database, an exception of the code on the memory is the answer, or one
-- of the database.
pub or_in_memory_throws {ℓ κ} :
    {T : Type ℓ} {S : Type κ} (r : Result (Option T)) (f : T → S) (m : Result S) (e : Exception)
    → ((t : T) → r ≢ ok (some t))
    → m ≡ throw e
    → (x : Exception) × (or_in_memory r f m ≡ throw x)
or_in_memory_throws (throw x) f m e no_value h = (x, refl)
or_in_memory_throws (ok none) f m e no_value h = (e, h)
or_in_memory_throws (ok (some t)) f m e no_value h = absurd (no_value t refl)
