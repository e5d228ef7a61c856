-- ===== src/Auth/Lockout.antt =====
-- What a login attempt does to the row of its account, and how an account is locked.
use big_project.Common.{
  ℕ, ◌+◌, ◌<◌, String, ◌≡◌, refl, ap, subst, ◌∙◌, ◌⊎◌, inl, inr, true, false, none, some, List, [],
  ◌∷◌, arith, eq_iff, leb, if◌then◌else◌, Bool-cases, length, All,
}
use big_project.Auth.Table.{UserRow, UserTable, Keeps}
use big_project.Auth.{
  Runtime, LoginResult, success, invalid_credentials, failed_login_limit, account_lock_duration_ms,
  must_change, unlock, count_failure, lock, is_locked, was_locked,
}
use big_project.Auth.Login.{login_transaction, reject_password, accept_password}

-- A failure in the row: an expired lock is lifted, the failure is counted and the fifth locks.
abbrev pub failed_row : ℕ → UserRow → UserRow
failed_row now user =
    let counted = count_failure (if was_locked user then unlock user else user) in
    if leb failed_login_limit counted.failed_login_attempts then lock now counted else counted

abbrev pub accepted_row : Runtime → ℕ → String → UserRow → UserRow
accepted_row rt now password user = record user {
  password_hash =
      if rt.hash_needs_upgrade user.password_hash
      then rt.create_hash password
      else user.password_hash;
  failed_login_attempts = 0;
  locked_until = none;
  password_change_required = must_change user now;
}

module _ (users : UserTable) (rt : Runtime) where
  open users use {Db, find_by_id, find_by_email, update}

  -- What the row of an account and the answer are after one attempt.
  abbrev pub Outcome : UserRow → ℕ → String → UserRow → LoginResult → Type 0
  Outcome user now password after answer =
      ((is_locked user now ≡ true) × (after ≡ user) × (answer ≡ invalid_credentials))
      ⊎ (((is_locked user now ≡ false)
            × (rt.password_matches password user.password_hash ≡ false)
            × (after ≡ failed_row now user)
            × (answer ≡ invalid_credentials))
          ⊎ ((is_locked user now ≡ false)
              × (rt.password_matches password user.password_hash ≡ true)
              × (after ≡ accepted_row rt now password user)
              × (answer ≡ success user (must_change user now))))

  email-update_at :
      (db : Db) (email id : String) (f : UserRow → UserRow) (u : UserRow)
      → Keeps f
      → find_by_email db email ≡ some u
      → u.id ≡ id
      → find_by_email (update db id f) email ≡ some (f u)
  email-update_at db email id f u keeps here same =
      subst (λ i. find_by_email (update db i f) email ≡ some (f u)) same
        (users.email-update db email f u keeps here)

  reject_password_found :
      (db : Db) (now : ℕ) (email : String) (user r : UserRow)
      → find_by_email db email ≡ some r
      → r.id ≡ user.id
      → find_by_email (reject_password users rt db now user) email
        ≡ some (
            if leb failed_login_limit (count_failure r).failed_login_attempts
            then lock now (count_failure r)
            else count_failure r)
  unfolding reject_password
  reject_password_found db now email user r here same =
      let counted : Db = update db user.id count_failure in
      let found : find_by_email counted email ≡ some (count_failure r) =
        email-update_at db email user.id count_failure r (λ v. (refl, refl)) here same in
      let by_id : find_by_id counted user.id ≡ some (count_failure r) =
        subst (λ i. find_by_id counted i ≡ some (count_failure r)) same
          (users.unique_email counted email (count_failure r) found) in
      let locked =
        email-update_at counted email user.id (lock now) (count_failure r) (λ v. (refl, refl)) found
          same in
      ground arith

  accept_open_found :
      (db : Db) (now : ℕ) (email password : String) (user : UserRow)
      → find_by_email db email ≡ some user
      → was_locked user ≡ false
      → find_by_email (accept_password users rt db now user password).0 email
        ≡ some (accepted_row rt now password user)
  unfolding accept_password
  accept_open_found db now email password user here never =
      let hash : String =
        if rt.hash_needs_upgrade user.password_hash
        then rt.create_hash password
        else user.password_hash in
      let written =
        email-update_at db email user.id
          (λ u. record u {
            password_hash = hash;
            failed_login_attempts = 0;
            locked_until = none;
            password_change_required = must_change user now;
          })
          user (λ v. (refl, refl)) here refl in
      ground (arith, eq_iff hash user.password_hash)

  accept_unlocked_found :
      (db : Db) (now : ℕ) (email password : String) (user : UserRow)
      → find_by_email db email ≡ some (unlock user)
      → was_locked user ≡ true
      → find_by_email (accept_password users rt db now user password).0 email
        ≡ some (accepted_row rt now password user)
  unfolding accept_password
  accept_unlocked_found db now email password user here locked =
      let hash : String =
        if rt.hash_needs_upgrade user.password_hash
        then rt.create_hash password
        else user.password_hash in
      let written =
        email-update_at db email user.id
          (λ u. record u {
            password_hash = hash;
            failed_login_attempts = 0;
            locked_until = none;
            password_change_required = must_change user now;
          })
          (unlock user) (λ v. (refl, refl)) here refl in
      ground arith

  accept_answer :
      (db : Db) (now : ℕ) (user : UserRow) (password : String)
      → (accept_password users rt db now user password).1 ≡ success user (must_change user now)
  unfolding accept_password
  accept_answer db now user password = refl

  module _ (db : Db) (now : ℕ) (email password : String) (user : UserRow)
      (here : find_by_email db email ≡ some user) where
    abbrev attempted : Db × LoginResult
    attempted = login_transaction users rt db now (record { email = email; password = password })

    unlocked : find_by_email (update db user.id unlock) email ≡ some (unlock user)
    unlocked = users.email-update db email unlock user (λ v. (refl, refl)) here

    wrong_found :
        is_locked user now ≡ false
        → rt.password_matches password user.password_hash ≡ false
        → find_by_email attempted.0 email ≡ some (failed_row now user)
    unfolding login_transaction
    wrong_found free wrong = elim (Bool-cases (was_locked user)) [
      | inl w ↦
          rw (here, login_transaction, free, w, wrong)
            (reject_password_found (update db user.id unlock) now email user (unlock user) unlocked
              refl)
      | inr w ↦
          rw (here, login_transaction, free, w, wrong)
            (reject_password_found db now email user user here refl)
    ]

    right_found :
        is_locked user now ≡ false
        → rt.password_matches password user.password_hash ≡ true
        → (find_by_email attempted.0 email ≡ some (accepted_row rt now password user))
          × (attempted.1 ≡ success user (must_change user now))
    unfolding login_transaction
    right_found free right = elim (Bool-cases (was_locked user)) [
      | inl w ↦
          let opened : Db = update db user.id unlock in
          (
            rw (here, login_transaction, free, w, right)
                (accept_unlocked_found opened now email password user unlocked w),
            rw (here, login_transaction, free, w, right) (accept_answer opened now user password),
          )
      | inr w ↦ (
        rw (here, login_transaction, free, w, right)
            (accept_open_found db now email password user here w),
        rw (here, login_transaction, free, w, right) (accept_answer db now user password),
      )
    ]

    -- One attempt on an account: while the account is locked, nothing changes and it is refused
    -- whatever the password; a wrong password is refused and counted, and the fifth in a row locks
    -- the account for fifteen minutes; a right password succeeds, and clears the count and the
    -- lock.
    pub login_transaction-Outcome :
        (after : UserRow) × (find_by_email attempted.0 email ≡ some after)
        × Outcome user now password after attempted.1
    unfolding login_transaction
    login_transaction-Outcome = elim (Bool-cases (is_locked user now)) [
      | inl locked ↦ (
        user,
        rw (here, login_transaction, locked) here,
        inl (locked, refl, rw (here, login_transaction, locked)),
      )
      | inr free ↦ elim (Bool-cases (rt.password_matches password user.password_hash)) [
        | inr wrong ↦ (
          failed_row now user,
          wrong_found free wrong,
          inr (inl (free, wrong, refl, rw (here, login_transaction, free, wrong))),
        )
        | inl right ↦
            let (found, answer) = right_found free right in
            (accepted_row rt now password user, found, inr (inr (free, right, refl, answer)))
      ]
    ]

  -- The attempts of a history on one account, one after another, each with its time and password.
  abbrev pub attempts : Db → String → List (ℕ × String) → Db
  attempts db email [] = db
  attempts db email ((now, password) ∷ rest) =
      attempts (login_transaction users rt db now (record { email = email; password = password })).0
        email rest

  -- No password of the list is that of the row, which keeps its hash on a failure.
  abbrev pub AllWrong : UserRow → List (ℕ × String) → Type 0
  AllWrong user tries = All (λ a. rt.password_matches a.1 user.password_hash ≡ false) tries

  abbrev pub last_time : ℕ → List (ℕ × String) → ℕ
  last_time t [] = t
  last_time t ((now, password) ∷ rest) = last_time now rest

  attempts_lock :
      (db : Db) (email : String) (user : UserRow) (t : ℕ) (p : String) (rest : List (ℕ × String))
      → find_by_email db email ≡ some user
      → user.locked_until ≡ none
      → AllWrong user ((t, p) ∷ rest)
      → user.failed_login_attempts + length ((t, p) ∷ rest) ≡ failed_login_limit
      → (after : UserRow) × (find_by_email (attempts db email ((t, p) ∷ rest)) email ≡ some after)
        × (after.locked_until ≡ some (last_time t rest + account_lock_duration_ms))
  attempts_lock db email user t p [] here free wrong fifth =
      (failed_row t user, wrong_found db t email p user here (ground arith) wrong.0, ground arith)
  attempts_lock db email user t p ((t', p') ∷ rest) here free (wrong, more) fifth =
      let after : UserRow = failed_row t user in
      let found = wrong_found db t email p user here (ground arith) wrong in
      let counted : after ≡ count_failure user = ground arith in
      attempts_lock (login_transaction users rt db t (record { email = email; password = p })).0
        email (count_failure user) t' p' rest (found ∙ ap some counted) free more (omega arith)

  -- Wrong passwords that bring the count of an account to five lock it: until fifteen minutes after
  -- the last of them every attempt is refused, with the right password too, and changes nothing.
  pub login_transaction_locked_out :
      (db : Db) (email : String) (user : UserRow) (t : ℕ) (p : String) (rest : List (ℕ × String))
      (now : ℕ) (password : String)
      → find_by_email db email ≡ some user
      → user.locked_until ≡ none
      → AllWrong user ((t, p) ∷ rest)
      → user.failed_login_attempts + length ((t, p) ∷ rest) ≡ failed_login_limit
      → now < last_time t rest + account_lock_duration_ms
      → login_transaction users rt
          (attempts db email ((t, p) ∷ rest))
          now
          (record { email = email; password = password })
        ≡ (attempts db email ((t, p) ∷ rest), invalid_credentials)
  unfolding login_transaction
  login_transaction_locked_out db email user t p rest now password here free wrong fifth soon =
      let (after, found, until) = attempts_lock db email user t p rest here free wrong fifth in
      let locked : is_locked after now ≡ true = ground arith in
      rw (found, login_transaction, locked) refl
