-- ===== src/Auth/Credentials.antt =====
-- What a login that succeeds has checked.
use big_project.Common.{
  ℕ, String, ◌≡◌, refl, sym, ap, subst, ◌∙◌, inl, inr, Bool, true, false, Option, some, arith,
  Bool-cases, Option-cases,
}
use big_project.Common.Result.{ok, Result-cases, Result-cases}
use big_project.Shared.{AuthSession}
use big_project.JsMap
use big_project.Sessions.{Registry, StoredSession}
use big_project.Sessions.Reads.{get_stored-set}
use big_project.Auth.Table.{UserRow, UserTable}
use big_project.Auth.{
  Runtime, LoginInput, LoginResult, success, invalid_credentials, must_change, is_locked, State,
  to_user, organization_of, create_session, parse_login_input,
}
use big_project.Auth.Login.{login_transaction, accept_password, retry_loop, login_retries}
use big_project.Auth.SignIn.{
  Fault, Request, attempt_login, finish_login, login_with_database, login, retry_loop_lem,
}

module _ (users : UserTable) (rt : Runtime) where
  open users use {Db, find_by_email}

  -- The attempts that the loop makes are all the same transaction.
  settled_lem :
      (db : Db) (now : ℕ) (input : LoginInput) (faults : ℕ → Option Fault) (done : Db × LoginResult)
      → retry_loop (attempt_login users rt db now input faults) 0 login_retries ≡ ok done
      → login_transaction users rt db now input ≡ done
  settled_lem db now input faults done h =
      let l = retry_loop_lem (attempt_login users rt db now input faults) in ground arith

  transaction_success :
      (db : Db) (now : ℕ) (input : LoginInput) (after : Db) (user : UserRow) (required : Bool)
      → login_transaction users rt db now input ≡ (after, success user required)
      → (find_by_email db input.email ≡ some user)
        × (is_locked user now ≡ false)
        × (rt.password_matches input.password user.password_hash ≡ true)
        × (must_change user now ≡ required)
  unfolding login_transaction accept_password
  transaction_success db now input after user required h =
      elim (Option-cases (find_by_email db input.email)) [
        | inl e ↦ absurd (ground arith)
        | inr (row, e) ↦ elim (Bool-cases (is_locked row now)) [
          | inl locked ↦ absurd (ground arith)
          | inr free ↦ elim (Bool-cases (rt.password_matches input.password row.password_hash)) [
            | inr wrong ↦ absurd (ground arith)
            | inl right ↦
                let same : row ≡ user = ground arith in
                (
                  e ∙ ap some same,
                  subst (λ u. is_locked u now ≡ false) same free,
                  subst (λ u. rt.password_matches input.password u.password_hash ≡ true) same right,
                  ground arith,
                )
          ]
        ]
      ]

  -- The row whose credentials a login had, and what the session takes from it.
  abbrev pub Authenticated : Db → ℕ → LoginInput → State users → AuthSession → Type 0
  Authenticated db now input after session =
      (user : UserRow) × (find_by_email db input.email ≡ some user)
      × (is_locked user now ≡ false)
      × (rt.password_matches input.password user.password_hash ≡ true)
      × (session.user ≡ to_user user)
      × (session.organization ≡ organization_of user)
      × (session.password_change_required ≡ must_change user now)
      × ((stored : StoredSession) × (JsMap.get session.token after.registry.sessions ≡ some stored)
          × (stored.session ≡ session))

  finish_login_sound :
      (s : State users) (now : ℕ) (input : LoginInput) (token : String) (done : Db × LoginResult)
      (session : AuthSession)
      → login_transaction users rt s.db now input ≡ done
      → (finish_login users rt s now token done).1 ≡ ok session
      → Authenticated s.db now input (finish_login users rt s now token done).0 session
  unfolding finish_login create_session
  finish_login_sound s now input token (db, invalid_credentials) session h made =
      absurd (ground arith)
  finish_login_sound s now input token (db, success user required) session h made =
      let (here, free, right, due) = transaction_success s.db now input db user required h in
      let resolved : AuthSession = record {
        token = token;
        user = to_user user;
        organization = organization_of user;
        password_change_required = required;
      } in
      let first : Registry =
        (create_session users (record s { db = db }) now token (to_user user)
          (organization_of user)).0.registry in
      let same : resolved ≡ session = cc made in
      subst
        (Authenticated s.db now input
          (finish_login users rt s now token (db, success user required)).0)
        same (user, here, free, right, refl, refl, sym due, get_stored-set first now token resolved)

  -- A login that succeeds against the database is of an account that was not locked, with its
  -- password; the session is of that account, carries its restriction, and is stored under its
  -- token.
  pub login_sound :
      (started : ℕ) (s : State users) (now : ℕ) (input : LoginInput) (request : Request)
      (session : AuthSession)
      → request.demo_auth_enabled ≡ false
      → (login users rt started s now input request).1 ≡ ok session
      → (parsed : LoginInput) × (parse_login_input rt input ≡ ok parsed)
        × Authenticated s.db now parsed (login users rt started s now input request).0 session
  unfolding login login_with_database retry_loop
  login_sound started s now input request session real made =
      elim (Result-cases (parse_login_input rt input)) [
        | inl (e, bad) ↦ absurd (ground arith)
        | inr (parsed, good) ↦ elim (Bool-cases rt.database_available) [
          | inr off ↦ absurd (ground arith)
          | inl on ↦
              elim (Result-cases (
                retry_loop (attempt_login users rt s.db now parsed request.faults) 0
                  login_retries)) [
                    | inl (e, refused) ↦ absurd (ground arith)
                    | inr (done, settled) ↦
                        let t = settled_lem s.db now parsed request.faults done settled in
                        let run : login users rt started s now input request
                            ≡ finish_login users rt s now request.token done =
                          rw (login, good, real, on, login_with_database, settled) refl in
                        let finished =
                          finish_login_sound s now parsed request.token done session t
                            (ap (λ x. x.1) (sym run) ∙ made) in
                        (
                          parsed,
                          good,
                          subst (λ x. Authenticated s.db now parsed x.0 session) (sym run) finished,
                        )
                  ]
        ]
      ]
