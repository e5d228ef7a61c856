-- ===== src/Auth/Tests.antt =====
-- Runs of the authentication service on a table of two rows, and its theorems at concrete inputs.
use big_project.Common.{
  ℕ, ◌+◌, String, ◌≡◌, refl, sym, ◌≢◌, true, false, not, ◌&&◌, Option, none, some, List, [], ◌∷◌,
  arith, eq_iff, eq_refl, ◌=ₛ◌, ◌==◌, if◌then◌else◌, is_empty, includes_char,
}
use big_project.Common.Result.{Result, ok, throw, unauthorized}
use big_project.Shared.{admin, candidate, AuthSession}
use big_project.JsMap
use big_project.JsMap.{IsMap}
use big_project.Sessions.{Registry, StoredSession}
use big_project.Sessions
use mathlib.Core.Option
use big_project.Auth.Table.{UserRow, UserTable, Keeps}
use big_project.Auth.{
  Runtime, LoginInput, ChangePasswordInput, success, invalid_credentials, account_lock_duration_ms,
  must_change, State, to_user, organization_of, create_session, parse_login_input,
}
use big_project.Auth.Login.{login_transaction, reject_password, accept_password, retry_loop}
use big_project.Auth.SignIn.{serialization, Request, finish_login, login_with_database, login}
use big_project.Auth.Account.{
  me, check_user, recheck, restrict, drop_session, require_active_session, change_password,
  change_session, replace_password, parse_change_password_input,
}
use big_project.Auth.Lockout.{attempts, login_transaction_locked_out}
use big_project.Auth.Access.{IsLive, require_active_session_sound}
use big_project.Auth.PasswordChange.{OnlyFresh, HasNewPassword, change_password_revokes}
use big_project.Auth.Credentials.{Authenticated, login_sound}

-- A table of two rows. An update keeps the keys of the row.
abbrev Rows : Type 0
Rows = UserRow × UserRow

abbrev keyed : (UserRow → UserRow) → UserRow → UserRow
keyed f u = record (f u) { id = u.id; email = u.email }

abbrev by_id : Rows → String → Option UserRow
by_id (a, b) i = if a.id =ₛ i then some a else if b.id =ₛ i then some b else none

abbrev by_email : Rows → String → Option UserRow
by_email (a, b) e =
    if a.email =ₛ e then some a else if b.email =ₛ e && not (a.id =ₛ b.id) then some b else none

abbrev change : Rows → String → (UserRow → UserRow) → Rows
change (a, b) i f =
    if a.id =ₛ i then (keyed f a, b) else if b.id =ₛ i then (a, keyed f b) else (a, b)

keyed_lem : (f : UserRow → UserRow) (u : UserRow) → Keeps f → keyed f u ≡ f u
keyed_lem f u k = λ i. record (f u) { id = sym (k u).0 i; email = sym (k u).1 i }

rows_unique_email :
    (db : Rows) (e : String) (u : UserRow) → by_email db e ≡ some u → by_id db u.id ≡ some u
rows_unique_email (a, b) e u h = ground (
  arith,
  eq_iff a.email e,
  eq_iff b.email e,
  eq_iff a.id b.id,
  eq_refl a.id,
  eq_refl b.id,
  eq_refl u.id,
)

rows_find-id : (db : Rows) (i : String) (u : UserRow) → by_id db i ≡ some u → u.id ≡ i
rows_find-id (a, b) i u h = ground (arith, eq_iff a.id i, eq_iff b.id i)

rows_find-update :
    (db : Rows) (i : String) (f : UserRow → UserRow) (u : UserRow)
    → Keeps f
    → by_id db i ≡ some u
    → by_id (change db i f) i ≡ some (f u)
rows_find-update (a, b) i f u k h = let l = keyed_lem f u k in ground arith

rows_find-update_other :
    (db : Rows) (i j : String) (f : UserRow → UserRow)
    → i ≢ j
    → by_id (change db i f) j ≡ by_id db j
rows_find-update_other (a, b) i j f differs =
    ground (arith, eq_iff a.id i, eq_iff b.id i, eq_iff a.id j, eq_iff b.id j)

rows_email-update :
    (db : Rows) (e : String) (f : UserRow → UserRow) (u : UserRow)
    → Keeps f
    → by_email db e ≡ some u
    → by_email (change db u.id f) e ≡ some (f u)
rows_email-update (a, b) e f u k h =
    let l = keyed_lem f u k in ground (arith, eq_refl u.id, eq_iff a.id b.id)

abbrev table : UserTable
table = record {
  Db = Rows;
  find_by_id = by_id;
  find_by_email = by_email;
  update = change;
  find-id = rows_find-id;
  unique_email = rows_unique_email;
  find-update = rows_find-update;
  find-update_other = rows_find-update_other;
  email-update = rows_email-update;
}

-- A password is stored as it is.
abbrev rt : Runtime
rt = record {
  password_matches = λ p h. p =ₛ h;
  hash_needs_upgrade = λ h. false;
  create_hash = λ p. p;
  is_strong = λ p. not (is_empty p);
  trim = λ s. s;
  to_lower_case = λ s. s;
  utf16_length = λ s. if is_empty s then 0 else 4;
  database_available = true;
}

abbrev alice : UserRow
alice = record {
  id = "u1";
  email = "a@b";
  name = "A";
  role = admin;
  organization_id = none;
  organization = none;
  password_hash = "right";
  failed_login_attempts = 0;
  locked_until = none;
  password_changed_at = none;
  password_change_required = false;
  created_at = 0;
}

abbrev bob : UserRow
bob = record alice { id = "u2"; email = "b@b"; role = candidate }

abbrev db : Rows
db = (alice, bob)

abbrev start : State table
start = record { db = db; registry = Sessions.init none none }

abbrev right_input : LoginInput
right_input = record { email = "a@b"; password = "right" }

abbrev request : Request
request = record {
  demo_auth_enabled = false;
  faults = λ n. if n == 0 then some serialization else none;
  token = "t1";
}

program : Unit {0}
unfolding includes_char JsMap.get JsMap.set JsMap.delete Sessions.init Sessions.get Sessions.set
    Sessions.delete Sessions.store Sessions.revoke_user Sessions.revoke_entries create_session
    parse_login_input reject_password accept_password login_transaction retry_loop finish_login
    login_with_database login restrict drop_session check_user me recheck require_active_session
    parse_change_password_input replace_password change_session change_password
program = tt

abbrev logged_in : State table
logged_in = (login table rt 0 start 100 right_input request).0

abbrev session : AuthSession
session = record {
  token = "t1";
  user = to_user alice;
  organization = organization_of alice;
  password_change_required = false;
}

login_succeeds : (login table rt 0 start 100 right_input request).1 ≡ ok session
unfolding program
login_succeeds = refl

active : (require_active_session table rt logged_in 200 (some "t1")).1 ≡ ok session
unfolding program
active = refl

abbrev wrong_tries : List (ℕ × String)
wrong_tries = (20, "w") ∷ (30, "x") ∷ (40, "y") ∷ (50, "z") ∷ []

abbrev locked_out : Rows
locked_out = attempts table rt db "a@b" ((10, "v") ∷ wrong_tries)

locked_row :
    Option.map (λ u. u.locked_until) (by_email locked_out "a@b")
    ≡ some (some (50 + account_lock_duration_ms))
unfolding program
locked_row = refl

-- The expired lock is lifted, and the right password gets in.
after_the_lock :
    (login_transaction table rt locked_out (50 + account_lock_duration_ms) right_input).1
    ≡ success (record alice { failed_login_attempts = 5; locked_until = some 900050 }) false
unfolding program
after_the_lock = refl

login_transaction_locked_out_example :
    login_transaction table rt locked_out 900000 right_input ≡ (locked_out, invalid_credentials)
login_transaction_locked_out_example =
    login_transaction_locked_out table rt db "a@b" alice 10 "v" wrong_tries 900000 "right" refl refl
      (refl, (refl, (refl, (refl, (refl, tt))))) refl (omega arith)

require_active_session_sound_example :
    IsLive table rt logged_in.registry 200 "t1" session
    × (session.password_change_required ≡ false)
    × ((user : UserRow) × (by_id logged_in.db session.user.id ≡ some user)
        × (must_change user 200 ≡ false))
require_active_session_sound_example =
    require_active_session_sound table rt logged_in 200 "t1" session refl active

login_sound_example :
    (parsed : LoginInput) × (parse_login_input rt right_input ≡ ok parsed)
    × Authenticated table rt db 100 parsed logged_in session
login_sound_example =
    login_sound table rt 0 start 100 right_input request session refl login_succeeds

abbrev new_input : ChangePasswordInput
new_input = record { current_password = "right"; new_password = "new" }

abbrev changed : State table × Result AuthSession
changed = change_password table rt logged_in 300 "t2" (some "t1") new_input

abbrev new_session : AuthSession
new_session = record session { token = "t2" }

change_succeeds : changed.1 ≡ ok new_session
unfolding program
change_succeeds = refl

old_token_is_dead :
    (require_active_session table rt changed.0 400 (some "t1")).1 ≡ throw unauthorized
unfolding program
old_token_is_dead = refl

logged_in-IsMap : IsMap logged_in.registry.sessions
unfolding program
logged_in-IsMap = (refl, tt)

change_password_revokes_example :
    (old : AuthSession) × ((me table rt logged_in 300 (some "t1")).1 ≡ ok old)
    × (new_session.user.id ≡ old.user.id)
    × OnlyFresh table rt changed.0 "t2" old.user.id
    × ((stored : StoredSession) × (JsMap.get "t2" changed.0.registry.sessions ≡ some stored)
        × (stored.session ≡ new_session))
    × HasNewPassword table rt changed.0.db old.user.id "new"
change_password_revokes_example =
    change_password_revokes table rt logged_in 300 "t2" (some "t1") new_input new_session
      logged_in-IsMap change_succeeds
