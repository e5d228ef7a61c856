-- ===== src/Common/Result.antt =====
-- Exceptions as values. The source throws the HTTP exceptions of its framework; a handler is
-- `Result` of its value, and `do` stops at the first throw.
use mathlib.Core.Bool.{Bool, true, false}
use mathlib.Core.Option.{Option, none, some}
use big_project.Common.{◌≡◌, refl, ◌⊎◌, inl, inr}

pub data Exception : Type 0 where
  bad_request unauthorized forbidden not_found conflict too_many_requests : Exception
  service_unavailable internal_server_error : Exception

pub data Result {ℓ} (T : Type ℓ) : Type ℓ where
  throw : Exception → Result T
  ok : T → Result T

-- What follows a statement that may throw.
infixl 5 ◌>>=◌
abbrev pub ◌>>=◌ {ℓ κ} : {T : Type ℓ} {U : Type κ} → Result T → (T → Result U) → Result U
m >>= next = elim m [ throw e ↦ throw e | ok t ↦ next t ]

-- `if (test) throw e;`
infixl 5 ◌>>◌
abbrev pub ◌>>◌ {ℓ} : {U : Type ℓ} → Result (Unit {0}) → Result U → Result U
check >> next = elim check [ throw e ↦ throw e | ok done ↦ next ]

abbrev pub throw_if : Bool → Exception → Result (Unit {0})
throw_if true e = throw e
throw_if false e = ok tt

-- `if (!value) throw e;`, and the value is there from then on.
abbrev pub or_throw {ℓ} : {T : Type ℓ} → Option T → Exception → Result T
or_throw none e = throw e
or_throw (some t) e = ok t

pub Result-cases {ℓ} :
    {T : Type ℓ} (r : Result T) → ((e : Exception) × (r ≡ throw e)) ⊎ ((t : T) × (r ≡ ok t))
Result-cases (throw e) = inl (e, refl)
Result-cases (ok t) = inr (t, refl)
