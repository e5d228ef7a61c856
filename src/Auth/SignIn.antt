-- ===== src/Auth/SignIn.antt =====
-- `login` of auth.service.ts, from the input to the stored session: `parseLoginInput`,
-- `tryDatabase`, `loginWithDatabase` with its retries, and the demonstration account. A fault of the
-- database rolls its transaction back, so that every attempt starts from the same rows.
use big_project.Common.{
  ℕ, String, ◌≡◌, Bool, ◌&&◌, Option, none, some, List, [], ◌∷◌, arith, ◌=ₛ◌, if◌then◌else◌,
}
use big_project.Common.Result.{Result, ok, throw, unauthorized, service_unavailable}
use big_project.Shared.{admin, User, Organization, AuthSession}
use big_project.Sessions.{Registry}
use big_project.Sessions
use big_project.Auth.Table.{UserTable}
use big_project.Auth.{
  Runtime, LoginInput, LoginResult, success, invalid_credentials, State, to_user, organization_of,
  create_session, parse_login_input,
}
use big_project.Auth.Login.{
  login_transaction, Attempt, committed, serialization_failure, failed, retry_loop, login_retries,
}

-- What the database client throws out of a transaction.
pub data Fault : Type 0 where
  serialization : Fault
  other : Fault

-- The environment of one login: whether demonstration accounts are on (`demoAuthEnabled()`), the
-- fault of each attempt, and the random token.
pub record Request : Type 0 where
  pub demo_auth_enabled : Bool
  pub faults : ℕ → Option Fault
  pub token : String

-- The demonstration account, made when the process starts.
abbrev pub demo_organization : ℕ → Organization
demo_organization started = record {
  id = "org_demo";
  name = "Acme Engineering Hiring";
  join_code = none;
  created_at = started;
}

abbrev pub demo_user : ℕ → User
demo_user started = record {
  id = "user_admin_001";
  email = "admin@acme.test";
  name = "Acme Operator";
  role = admin;
  organization_id = some "org_demo";
  created_at = started;
}

module _ (users : UserTable) (rt : Runtime) where
  open users use {Db, find_by_email}

  abbrev pub attempt_login :
      Db → ℕ → LoginInput → (ℕ → Option Fault) → ℕ → Attempt (Db × LoginResult)
  attempt_login db now input faults retry = elim (faults retry) [
    | none ↦ committed (login_transaction users rt db now input)
    | some fault ↦ elim fault [
      | serialization ↦ serialization_failure
      | other ↦ failed service_unavailable
    ]
  ]

  -- The committed rows, and the session of a right password: it is stored twice, the second time
  -- with its restriction.
  unfoldable pub finish_login :
      State users → ℕ → String → Db × LoginResult → State users × Result AuthSession
  finish_login s now token (db, invalid_credentials) = (record s { db = db }, throw unauthorized)
  finish_login s now token (db, success user required) =
      let (stored, session) =
        create_session users (record s { db = db }) now token (to_user user)
          (organization_of user) in
      let resolved : AuthSession = record session { password_change_required = required } in
      (record stored { registry = Sessions.set stored.registry now token resolved }, ok resolved)

  unfoldable pub login_with_database :
      State users → ℕ → LoginInput → Request → State users × Result AuthSession
  unfolding finish_login
  login_with_database s now input request =
      elim (retry_loop (attempt_login s.db now input request.faults) 0 login_retries) [
        | throw e ↦ (s, throw e)
        | ok done ↦ finish_login s now request.token done
      ]

  -- `login`: with demonstration accounts on, the database is not asked.
  unfoldable pub login :
      ℕ → State users → ℕ → LoginInput → Request → State users × Result AuthSession
  unfolding login_with_database
  login started s now input request = elim (parse_login_input rt input) [
    | throw e ↦ (s, throw e)
    | ok parsed ↦
        if request.demo_auth_enabled
        then (if parsed.email =ₛ "admin@acme.test" && parsed.password =ₛ "@A1234567890"
            then (let (stored, session) =
                  create_session users s now request.token (demo_user started)
                    (demo_organization started) in
                (stored, ok session))
            else (s, throw unauthorized))
        else if rt.database_available
        then login_with_database s now parsed request
        else (s, throw service_unavailable)
  ]

-- The first attempt of the list that is not a serialization failure.
abbrev pub first_settled {ℓ} : {A : Type ℓ} → List (Attempt A) → Result A
first_settled [] = throw service_unavailable
first_settled (a ∷ rest) = elim a [
  | committed x ↦ ok x
  | serialization_failure ↦ first_settled rest
  | failed e ↦ throw e
]

-- The loop of the transaction settles on its first, second or third attempt, whichever is the first
-- that the database does not refuse for serialization; it makes no fourth.
pub retry_loop_lem :
    {A : Type 0} (attempt : ℕ → Attempt A)
    → retry_loop attempt 0 login_retries ≡ first_settled (attempt 0 ∷ attempt 1 ∷ attempt 2 ∷ [])
unfolding retry_loop
retry_loop_lem attempt = ground arith
