-- ===== src/PasswordHash/Tests.antt =====
-- Runs of the password functions, and their theorems at concrete inputs.
use big_project.Common.{
  ℕ, zero, suc, ◌+◌, ◌-◌, ◌≡◌, refl, true, false, none, some, List, [], ◌∷◌, map, arith, ◌==◌,
  if◌then◌else◌,
}
use big_project.Common.Result.{ok, throw, service_unavailable}
use big_project.PasswordHash.{
  Text, Crypto, iterations_text, pbkdf2_iterations, text_eq, utf16_length, split, starts_with,
  stored_form, create_password_hash, is_strong_password, verify_password,
  password_hash_needs_upgrade,
}
use big_project.PasswordHash.Roundtrip.{IsPlain, IsRuntime, verify_password-create_password_hash}

program : Unit {0}
unfolding text_eq utf16_length split starts_with create_password_hash is_strong_password
    verify_password password_hash_needs_upgrade
program = tt

abbrev letters : ℕ → Text
letters zero = []
letters (suc n) = b'A' ∷ letters n

-- A key is 43 letters whatever the password, and a byte is written as the character 100 later.
abbrev crypto : Crypto
crypto = record {
  derive = λ password salt n size. letters 43;
  encode = λ bytes. map (λ b. b + 100) bytes;
  decode = λ text. map (λ c. c - 100) text;
  to_number = λ text. if text_eq text iterations_text then some pbkdf2_iterations else none;
  is_punctuation_or_symbol = λ c. c == b'!';
}

encode-IsPlain : (bytes : List ℕ) → IsPlain (crypto.encode bytes)
encode-IsPlain [] = tt
encode-IsPlain (b ∷ bytes) = (omega arith, encode-IsPlain bytes)

decode-encode : (bytes : List ℕ) → crypto.decode (crypto.encode bytes) ≡ bytes
decode-encode [] = refl
decode-encode (b ∷ bytes) = ground (arith, decode-encode bytes)

crypto-IsRuntime : IsRuntime crypto
unfolding program
crypto-IsRuntime = record {
  plain = encode-IsPlain;
  decodes = decode-encode;
  reads = refl;
  encoded = λ password salt. refl;
}

abbrev password : Text
password = b'A' ∷ b'b' ∷ b'3' ∷ letters 10

abbrev salt : Text
salt = letters 22

strong : is_strong_password crypto password ≡ true
unfolding program
strong = refl

too_short : is_strong_password crypto (b'A' ∷ b'b' ∷ b'3' ∷ []) ≡ false
unfolding program
too_short = refl

letters_only : is_strong_password crypto (letters 12) ≡ false
unfolding program
letters_only = refl

verify_password-create_password_hash_example :
    let stored = stored_form crypto salt (letters 43) in
    (create_password_hash crypto (ok tt) password salt ≡ ok stored)
    × (verify_password crypto (ok tt) password stored ≡ ok true)
    × (password_hash_needs_upgrade stored ≡ false)
    × (create_password_hash crypto (throw service_unavailable) password salt
        ≡ throw service_unavailable)
    × (verify_password crypto (throw service_unavailable) password stored
        ≡ throw service_unavailable)
unfolding program
verify_password-create_password_hash_example =
    verify_password-create_password_hash crypto password salt crypto-IsRuntime (omega arith) refl
      service_unavailable
