-- ===== src/Auth/Login.antt =====
-- The login transaction of auth.service.ts and its retries.
use big_project.Common.{
  ℕ, zero, suc, ◌+◌, String, not, ◌&&◌, none, some, ◌=ₛ◌, ltb, leb, ◌==◌, if◌then◌else◌,
}
use big_project.Common.Result.{Result, ok, throw, Exception, service_unavailable}
use big_project.Auth.Table.{UserRow, UserTable}
use big_project.Auth.{
  Runtime, LoginInput, LoginResult, success, invalid_credentials, failed_login_limit, must_change,
  unlock, count_failure, lock, is_locked, was_locked,
}

module _ (users : UserTable) (rt : Runtime) where
  open users use {Db, find_by_id, find_by_email, update}

  -- A wrong password: the attempt is counted in the row as it stands, and the fifth locks it.
  unfoldable pub reject_password : Db → ℕ → UserRow → Db
  reject_password db now user =
      let counted = update db user.id count_failure in
      elim (find_by_id counted user.id) [
        | none ↦ counted
        | some updated ↦
            if leb failed_login_limit updated.failed_login_attempts
            then update counted user.id (lock now)
            else counted
      ]

  -- A right password: the row is written if anything in it changes. The tests read the row as it
  -- was before an expired lock was lifted.
  unfoldable pub accept_password : Db → ℕ → UserRow → String → Db × LoginResult
  accept_password db now user password =
      let required = must_change user now in
      let hash =
        if rt.hash_needs_upgrade user.password_hash
        then rt.create_hash password
        else user.password_hash in
      let unchanged =
        hash =ₛ user.password_hash
        && user.failed_login_attempts == 0
        && not (was_locked user)
        && (if required
            then user.password_change_required
            else not user.password_change_required) in
      let written = update db user.id (λ u. record u {
        password_hash = hash;
        failed_login_attempts = 0;
        locked_until = none;
        password_change_required = required;
      }) in
      (if unchanged then db else written, success user required)

  -- The transaction of `loginWithDatabase`.
  unfoldable pub login_transaction : Db → ℕ → LoginInput → Db × LoginResult
  login_transaction db now input = elim (find_by_email db input.email) [
    | none ↦ (db, invalid_credentials)
    | some user ↦
        if is_locked user now
        then (db, invalid_credentials)
        else let opened = if was_locked user then update db user.id unlock else db in
          if rt.password_matches input.password user.password_hash
          then accept_password opened now user input.password
          else (reject_password opened now user, invalid_credentials)
  ]

-- `loginWithDatabase` tries its transaction again after a serialization failure, at most twice.
pub data Attempt {ℓ} (A : Type ℓ) : Type ℓ where
  committed : A → Attempt A
  serialization_failure : Attempt A
  failed : Exception → Attempt A

unfoldable pub retry_loop {ℓ} : {A : Type ℓ} → (ℕ → Attempt A) → ℕ → ℕ → Result A
retry_loop attempt retry zero = throw service_unavailable
retry_loop attempt retry (suc left) =
    let again = retry_loop attempt (retry + 1) left in
    elim (attempt retry) [
      | committed a ↦ ok a
      | serialization_failure ↦ if ltb retry 2 then again else throw service_unavailable
      | failed e ↦ throw e
    ]

abbrev pub login_retries : ℕ
login_retries = 3
