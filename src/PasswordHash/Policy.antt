-- ===== src/PasswordHash/Policy.antt =====
-- The password policy in terms of the characters of a password.
use big_project.Common.{ℕ, ◌≤◌, ◌≡◌, Bool, true, [], ◌∷◌, ◌++◌, arith, any}
use big_project.PasswordHash.{
  Text, Crypto, utf16_length, is_upper, is_lower, is_digit, is_strong_password,
}
use big_project.PasswordHash.Roundtrip.{utf16_length-append}

any_of_prefix : (p : ℕ → Bool) (s t : Text) → any p s ≡ true → any p (s ++ t) ≡ true
any_of_prefix p [] t h = cc
any_of_prefix p (c ∷ s) t h = ground (arith, any_of_prefix p s t)

module _ (crypto : Crypto) where
  -- Lengthening a strong password keeps it strong, as long as it has at most 256 UTF-16 units.
  pub is_strong_password-append :
      (s t : Text)
      → is_strong_password crypto s ≡ true
      → utf16_length (s ++ t) ≤ 256
      → is_strong_password crypto (s ++ t) ≡ true
  unfolding is_strong_password
  is_strong_password-append s t strong short = ground (
    arith,
    utf16_length-append s t,
    any_of_prefix is_upper s t,
    any_of_prefix is_lower s t,
    any_of_prefix is_digit s t,
    any_of_prefix crypto.is_punctuation_or_symbol s t,
  )
