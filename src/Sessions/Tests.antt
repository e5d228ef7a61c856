-- ===== src/Sessions/Tests.antt =====
-- Runs of the registry, and its theorems at concrete inputs.
use big_project.Common.{ℕ, ◌≡◌, refl, false, none, some, List, [], ◌∷◌, map}
use big_project.JsMap
use big_project.JsMap.{IsMap}
use big_project.Shared.{AuthSession, admin}
use big_project.Sessions.{
  StoredSession, Registry, Call, gets, sets, get, set, delete, store, revoke_entries, revoke_user,
  expire, fire, step, run, init,
}
use big_project.Sessions.Lifetime.{CreatedAt, run-created_at}
use big_project.Sessions.Revocation.{get-revoke_user}

program : Unit {0}
unfolding JsMap.get JsMap.set JsMap.delete init step run get set delete store revoke_user
    revoke_entries expire fire
program = tt

abbrev login : AuthSession
login = record {
  token = "t1";
  user = record {
    id = "u1";
    email = "a@b";
    name = "A";
    role = admin;
    organization_id = none;
    created_at = 0;
  };
  organization = record { id = ""; name = ""; join_code = none; created_at = 0 };
  password_change_required = false;
}

abbrev history : List (ℕ × Call)
history = (10, sets "t1" login) ∷ (20, sets "t2" login) ∷ (25, gets "t1") ∷ []

abbrev two_logins : Registry
two_logins = run (init (some 100) (some 50)) history

abbrev first_login : StoredSession
first_login = record { session = login; created_at = 10; last_seen_at = 25; expiry_timer = 2 }

read_in_time : (get two_logins 70 "t1").1 ≡ some login
unfolding program
read_in_time = refl

read_too_late : (get two_logins 75 "t1").1 ≡ none
unfolding program
read_too_late = refl

timers_of_two : map (λ t. t.id) two_logins.timers ≡ 2 ∷ 1 ∷ []
unfolding program
timers_of_two = refl

distinct : IsMap two_logins.sessions
unfolding program
distinct = (refl, (refl, tt))

run-created_at_example : CreatedAt (init (some 100) (some 50)) "t1" 10 history
unfolding program
run-created_at_example = run-created_at (some 100) (some 50) history "t1" first_login refl

get-revoke_user_example : JsMap.get "t1" (revoke_user two_logins "u1").0.sessions ≡ none
unfolding program
get-revoke_user_example = get-revoke_user two_logins "u1" "t1" distinct
