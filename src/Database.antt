-- ===== src/Database.antt =====
-- apps/api/src/services/platform-store.database.ts: `PlatformStoreDatabase`, which decides for every
-- operation of the store whether it runs on the database or on the memory of the process.
pub mod Cases
pub mod Fallback
mod Tests
use big_project.Common.{
  ℕ, zero, suc, ◌+◌, ◌-◌, ◌*◌, ◌/◌, ◌%◌, ◌≤◌, ◌<◌, min, max, String, ◌≡◌, refl, sym, ap, subst, ◌∙◌,
  ◌≢◌, ◌↔◌, ◌⊎◌, inl, inr, Bool, true, false, not, ◌&&◌, ◌||◌, Option, none, some, List, [], ◌∷◌,
  ◌++◌, map, arith, eq_iff, eq_refl, ◌=ₛ◌, ltb, leb, ◌==◌, if◌then◌else◌, ltb→lt, lt→ltb, le→leb,
  Bool-cases, Option-cases, length, find, filter, any, all, head?, length-append, length-filter-le,
  find-passes, All, All-append, All-filter, is_empty, before, includes_char,
}
use big_project.Common.Result.{
  Result, ok, throw, Exception, bad_request, unauthorized, forbidden, not_found, conflict,
  too_many_requests, service_unavailable, ◌>>=◌, ◌>>◌, throw_if, or_throw, Result-cases,
  internal_server_error,
}

-- The environment variables that the class reads.
pub record Environment : Type 0 where
  pub disable_database : Bool
  pub has_database_url : Bool
  pub production : Bool
  pub allow_demo_auth : Option String

-- How an operation on the database ends. `raises` is an exception of the framework, `breaks` any
-- other error, such as one of the client.
pub data Outcome {ℓ} (T : Type ℓ) : Type ℓ where
  returns : T → Outcome T
  raises : Exception → Outcome T
  breaks : Outcome T

-- The service's field `databaseUnavailable`, and the database.
pub record Connection (Db : Type 0) : Type 0 where
  pub database_unavailable : Bool
  pub db : Db

abbrev pub is_text : Option String → String → Bool
is_text none text = false
is_text (some value) text = value =ₛ text

unfoldable pub demo_auth_enabled : Environment → Bool
demo_auth_enabled env =
    if is_text env.allow_demo_auth "1"
    then not env.production
    else if is_text env.allow_demo_auth "0"
    then false
    else not env.production

unfoldable pub database_fallback_enabled : Environment → Bool
unfolding demo_auth_enabled
database_fallback_enabled env =
    if env.disable_database || demo_auth_enabled env then true else not env.production

-- The exceptions that an operation throws on purpose.
abbrev pub is_rethrown : Exception → Bool
is_rethrown bad_request = true
is_rethrown unauthorized = false
is_rethrown forbidden = true
is_rethrown not_found = true
is_rethrown conflict = false
is_rethrown too_many_requests = false
is_rethrown service_unavailable = false
is_rethrown internal_server_error = false

-- The tests before the operation starts.
abbrev pub skips_database : Environment → Bool → Bool
skips_database env unavailable =
    (env.disable_database || not env.has_database_url)
    || (demo_auth_enabled env || (unavailable && database_fallback_enabled env))

module _ {ℓ} {Db : Type 0} {T : Type ℓ} (env : Environment) where
  -- The `catch` block, for an error that is not rethrown.
  unfoldable pub fall_back : Connection Db → Connection Db × Result (Option T)
  unfolding database_fallback_enabled
  fall_back c =
      if database_fallback_enabled env
      then (record c { database_unavailable = true }, ok none)
      else (c, throw service_unavailable)

  -- What the call that ran ends in.
  unfoldable pub settle : Connection Db → Outcome T → Connection Db × Result (Option T)
  unfolding fall_back
  settle c (returns t) = (c, ok (some t))
  settle c (raises e) = if is_rethrown e then (c, throw e) else fall_back c
  settle c breaks = fall_back c

  -- `null` of the source is `none`. The operation may have changed the database before it fails.
  unfoldable pub try_database :
      Connection Db → (Db → Db × Outcome T) → Connection Db × Result (Option T)
  unfolding demo_auth_enabled database_fallback_enabled settle
  try_database c operation =
      if skips_database env c.database_unavailable
      then (c, ok none)
      else settle (record c { db = (operation c.db).0 }) (operation c.db).1

-- `if (db) return ...;`, and the code after it, which works on the memory.
abbrev pub or_in_memory {ℓ κ} :
    {T : Type ℓ} {S : Type κ} → Result (Option T) → (T → S) → Result S → Result S
or_in_memory (throw e) from_database in_memory = throw e
or_in_memory (ok none) from_database in_memory = in_memory
or_in_memory (ok (some t)) from_database in_memory = ok (from_database t)
