-- ===== src/RateLimiter/Tests.antt =====
-- Runs of the limiter, and its theorems at concrete inputs.

use big_project.Common.{
  ◌≤◌, String, ◌≡◌, refl, sym, subst, ◌≢◌, inl, inr, true, false, none, some, [], ◌∷◌, arith,
  eq_iff, Bool-cases, is_empty, before,
}
use big_project.JsMap.{get, set}
use big_project.RateLimiter.{
  consume_bucket, remove_expired_buckets, current_bucket, Bucket, Buckets, absent, single,
  LoginRequestContext, Host, login_options, client_key, subject_key, consume,
}
use big_project.RateLimiter.Bounds.{IsValid}
use big_project.RateLimiter.Window.{Attempt, passed}
use big_project.RateLimiter.History.{passed-le-subject_limit}

marked : String → String
marked s = String.◌∷◌ "#" s

abbrev host : Host
host = record { digest = marked; trim = λ s. s; to_lower_case = λ s. s; trust_proxy = true }

abbrev IsNil : String → Type 0
IsNil String.[] = Unit {0}
IsNil (String.◌∷◌ c s) = ⊥

marked-HasText : (s : String) → is_empty (marked s) ≡ false
unfolding marked
marked-HasText s = elim (Bool-cases (is_empty (String.◌∷◌ "#" s))) [
  | inl e ↦ absurd (subst IsNil (sym ((eq_iff (String.◌∷◌ "#" s) "").0 e)) tt)
  | inr e ↦ e
]

abbrev request : LoginRequestContext
request = record { remote_address = some "10.0.0.9"; forwarded_for = single "10.0.0.1,10.0.0.2" }

program : Unit {0}
unfolding marked consume consume_bucket remove_expired_buckets current_bucket get set client_key
    subject_key before
program = tt

forwarded : client_key host request ≡ "#client:10.0.0.1"
unfolding program
forwarded = refl

abbrev attempt : Attempt
attempt = record { request = request; email = some "a@b"; now = 5 }

-- Nine requests of the account are counted, and twenty of another client.
abbrev nine : Bucket
nine = record { count = 9; reset_at = 60000 }

abbrev twenty : Bucket
twenty = record { count = 20; reset_at = 60000 }

abbrev counted : Buckets
counted = ("#login-account:a@b", nine) ∷ ("#client:10.0.0.7", twenty) ∷ []

two_runs :
    ((consume host login_options request (some "a@b") 5 counted).1 ≡ none)
    × ((consume host login_options request
          (some "a@b")
          6
          (consume host login_options request (some "a@b") 5 counted).0).1
        ≡ some 60)
unfolding program
two_runs = (refl, refl)

counted-IsValid : IsValid 5 counted
unfolding get
counted-IsValid = record {
  distinct = (refl, (refl, tt));
  named = (refl, (refl, tt));
  within = omega arith;
}

differ : client_key host request ≢ subject_key host "login-account" (some "a@b")
unfolding program
differ = ground (arith, eq_iff "#client:10.0.0.1" "#login-account:a@b")

abbrev blocked : LoginRequestContext
blocked = record { remote_address = some "10.0.0.7"; forwarded_for = absent }

passed-le-subject_limit_example : passed host login_options (attempt ∷ attempt ∷ []) counted ≤ 1
unfolding program
passed-le-subject_limit_example =
    passed-le-subject_limit host login_options "#login-account:a@b" nine (attempt ∷ attempt ∷ [])
      counted refl ((refl, differ, omega arith), ((refl, differ, omega arith), tt)) (omega arith)

abbrev retry : Attempt
retry = record { request = blocked; email = some "a@b"; now = 5 }
