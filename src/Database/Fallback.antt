-- ===== src/Database/Fallback.antt =====
-- apps/api/src/services/platform-store.database.ts: when the memory stands in for the database.
use big_project.Common.{
  ◌≡◌, refl, ◌≢◌, inl, inr, true, false, Option, none, some, arith, Bool-cases,
}
use big_project.Common.Result.{
  Result, ok, throw, bad_request, unauthorized, forbidden, not_found, conflict, too_many_requests,
  service_unavailable, internal_server_error,
}
use big_project.Database.{
  Environment, Outcome, returns, raises, breaks, Connection, demo_auth_enabled,
  database_fallback_enabled, skips_database, fall_back, settle, try_database,
}

demo_auth_in_production :
    (env : Environment) → env.production ≡ true → demo_auth_enabled env ≡ false
unfolding demo_auth_enabled
demo_auth_in_production env live = ground (arith, live)

fallback_in_production :
    (env : Environment)
    → env.production ≡ true
    → env.disable_database ≡ false
    → database_fallback_enabled env ≡ false
unfolding database_fallback_enabled
fallback_in_production env live on = ground (arith, demo_auth_in_production env live, on, live)

fallback_outside_production :
    (env : Environment) → env.production ≡ false → database_fallback_enabled env ≡ true
unfolding database_fallback_enabled
fallback_outside_production env off = ground (arith, off)

-- What a caller sees of the operation when the memory must not stand in.
abbrev pub as_result {ℓ} : {T : Type ℓ} → Outcome T → Result (Option T)
as_result (returns t) = ok (some t)
as_result (raises bad_request) = throw bad_request
as_result (raises forbidden) = throw forbidden
as_result (raises not_found) = throw not_found
as_result (raises unauthorized) = throw service_unavailable
as_result (raises conflict) = throw service_unavailable
as_result (raises too_many_requests) = throw service_unavailable
as_result (raises service_unavailable) = throw service_unavailable
as_result (raises internal_server_error) = throw service_unavailable
as_result breaks = throw service_unavailable

module _ {ℓ} {Db : Type 0} {T : Type ℓ} (env : Environment) where
  settle_strictly :
      (c : Connection Db) (outcome : Outcome T)
      → database_fallback_enabled env ≡ false
      → settle env c outcome ≡ (c, as_result outcome)
  unfolding settle fall_back
  settle_strictly c (returns t) strict = refl
  settle_strictly c (raises bad_request) strict = refl
  settle_strictly c (raises unauthorized) strict = rw (strict) refl
  settle_strictly c (raises forbidden) strict = refl
  settle_strictly c (raises not_found) strict = refl
  settle_strictly c (raises conflict) strict = rw (strict) refl
  settle_strictly c (raises too_many_requests) strict = rw (strict) refl
  settle_strictly c (raises service_unavailable) strict = rw (strict) refl
  settle_strictly c (raises internal_server_error) strict = rw (strict) refl
  settle_strictly c breaks strict = rw (strict) refl

  settle_loosely :
      (c : Connection Db) (outcome : Outcome T)
      → database_fallback_enabled env ≡ true
      → (settle env c outcome).1 ≢ throw service_unavailable
  unfolding settle fall_back
  settle_loosely c (returns t) may = ground (arith)
  settle_loosely c (raises bad_request) may = ground (arith, may)
  settle_loosely c (raises unauthorized) may = ground (arith, may)
  settle_loosely c (raises forbidden) may = ground (arith, may)
  settle_loosely c (raises not_found) may = ground (arith, may)
  settle_loosely c (raises conflict) may = ground (arith, may)
  settle_loosely c (raises too_many_requests) may = ground (arith, may)
  settle_loosely c (raises service_unavailable) may = ground (arith, may)
  settle_loosely c (raises internal_server_error) may = ground (arith, may)
  settle_loosely c breaks may = ground (arith, may)

  -- In production, with the database configured, the operation always runs on the database. Its
  -- value is the answer, and so is its exception if that is a bad request, a forbidden or a not
  -- found one; any other exception, and an error of the client, is answered by service unavailable.
  -- The memory never stands in.
  pub try_database_in_production :
      (c : Connection Db) (operation : Db → Db × Outcome T)
      → env.production ≡ true
      → env.disable_database ≡ false
      → env.has_database_url ≡ true
      → try_database env c operation
        ≡ (record c { db = (operation c.db).0 }, as_result (operation c.db).1)
  unfolding try_database
  try_database_in_production c operation live on url =
      let demo = demo_auth_in_production env live in
      let strict = fallback_in_production env live on in
      let run = settle_strictly (record c { db = (operation c.db).0 }) (operation c.db).1 strict in
      ground (arith, on, url, demo, strict, run)

  -- Outside production nothing ends in `service_unavailable`.
  pub try_database_falls_back :
      (c : Connection Db) (operation : Db → Db × Outcome T)
      → env.production ≡ false
      → (try_database env c operation).1 ≢ throw service_unavailable
  unfolding try_database
  try_database_falls_back c operation off =
      let may = fallback_outside_production env off in
      elim (Bool-cases (skips_database env c.database_unavailable)) [
        | inl is ↦ rw (is) ground (arith)
        | inr isnt ↦
            let run =
              settle_loosely (record c { db = (operation c.db).0 }) (operation c.db).1 may in
            rw (isnt) run
      ]

  -- Once the database counts as unavailable and the memory may stand in, no operation reaches the
  -- database again.
  pub try_database_stays_off :
      (c : Connection Db) (operation : Db → Db × Outcome T)
      → c.database_unavailable ≡ true
      → database_fallback_enabled env ≡ true
      → try_database env c operation ≡ (c, ok none)
  unfolding try_database
  try_database_stays_off c operation off may = rw (try_database, off, may) ground (arith)
