-- ===== src/PasswordHash.antt =====
-- apps/api/src/services/password-hash.ts: the password policy and the stored format of a hash.
-- Texts are lists of code points. A `Crypto` holds what the code takes from the runtime: the key
-- derivation, the encoding of bytes as text, the reading of a text as a number and the general
-- category of a character.
pub mod Roundtrip
pub mod Policy
mod Tests
use big_project.Common.{
  ℕ, zero, suc, ◌+◌, ◌-◌, ◌*◌, ◌/◌, ◌%◌, ◌≤◌, ◌<◌, min, max, String, ◌≡◌, refl, sym, ap, subst, ◌∙◌,
  ◌≢◌, ◌↔◌, ◌⊎◌, inl, inr, Bool, true, false, not, ◌&&◌, ◌||◌, Option, none, some, List, [], ◌∷◌,
  ◌++◌, map, arith, eq_iff, eq_refl, ◌=ₛ◌, ltb, leb, ◌==◌, if◌then◌else◌, ltb→lt, lt→ltb, le→leb,
  Bool-cases, Option-cases, length, find, filter, any, all, head?, length-append, length-filter-le,
  find-passes, All, All-append, All-filter, is_empty, before, includes_char,
}
use big_project.Common.Result.{Result, ok, throw, ◌>>=◌, ◌>>◌}

abbrev pub Text : Type 0
Text = List ℕ

abbrev pub dollar : ℕ
dollar = b'$'

abbrev pub pbkdf2_iterations : ℕ
pbkdf2_iterations = 310000

abbrev pub pbkdf2_key_length : ℕ
pbkdf2_key_length = 32

abbrev pub legacy_sha256_hex_length : ℕ
legacy_sha256_hex_length = 64

-- The code points of the two fixed parts of a stored hash, `pbkdf2-sha256` and `310000`.
abbrev pub scheme : Text
scheme = 112 ∷ 98 ∷ 107 ∷ 100 ∷ 102 ∷ 50 ∷ 45 ∷ 115 ∷ 104 ∷ 97 ∷ 50 ∷ 53 ∷ 54 ∷ []

abbrev pub iterations_text : Text
iterations_text = 51 ∷ 49 ∷ 48 ∷ 48 ∷ 48 ∷ 48 ∷ []

unfoldable pub text_eq : Text → Text → Bool
text_eq [] [] = true
text_eq (a ∷ s) (b ∷ t) = a == b && text_eq s t
text_eq _ _ = false

pub record Crypto : Type 0 where
  -- `pbkdf2` of password, salt, iterations and key length.
  pub derive : Text → Text → ℕ → ℕ → List ℕ
  -- `toString("base64url")`, and `Buffer.from(…, "base64url")`.
  pub encode : List ℕ → Text
  pub decode : Text → List ℕ
  -- `Number(text)`, where that is an integer at least 0.
  pub to_number : Text → Option ℕ
  -- The characters of the classes `\p{P}` and `\p{S}`.
  pub is_punctuation_or_symbol : ℕ → Bool

-- `password.length` counts UTF-16 units.
unfoldable pub utf16_length : Text → ℕ
utf16_length [] = 0
utf16_length (c ∷ s) = (if ltb c 65536 then 1 else 2) + utf16_length s

abbrev pub is_upper : ℕ → Bool
is_upper c = leb b'A' c && leb c b'Z'

abbrev pub is_lower : ℕ → Bool
is_lower c = leb b'a' c && leb c b'z'

abbrev pub is_digit : ℕ → Bool
is_digit c = leb b'0' c && leb c b'9'

abbrev count_true : List Bool → ℕ
count_true [] = 0
count_true (b ∷ bs) = (if b then 1 else 0) + count_true bs

-- `storedHash.split("$")`.
unfoldable pub split : Text → List Text
split [] = [] ∷ []
split (c ∷ s) =
    let parts = split s in
    if c == dollar
    then [] ∷ parts
    else elim parts [ [] ↦ (c ∷ []) ∷ [] | part ∷ rest ↦ (c ∷ part) ∷ rest ]

unfoldable pub starts_with : Text → Text → Bool
starts_with [] s = true
starts_with (a ∷ p) [] = false
starts_with (a ∷ p) (b ∷ s) = a == b && starts_with p s

module _ (crypto : Crypto) where
  unfoldable pub is_strong_password : Text → Bool
  unfolding utf16_length
  is_strong_password password =
      if ltb (utf16_length password) 12 || ltb 256 (utf16_length password)
      then false
      else leb 3 (
          count_true (
            any is_upper password
            ∷ any is_lower password
            ∷ any is_digit password
            ∷ any crypto.is_punctuation_or_symbol password
            ∷ []))

  -- The argument says what `acquirePasswordKdfSlot` ends in.
  unfoldable pub derive_password_key_with_admission :
      Result (Unit {0}) → Text → Text → ℕ → Result (List ℕ)
  derive_password_key_with_admission slot password salt iterations =
      slot >> ok (crypto.derive password salt iterations pbkdf2_key_length)

  -- The stored form of a key, given the salt as text.
  unfoldable pub stored_form : Text → List ℕ → Text
  stored_form salt key =
      scheme ++ (dollar ∷ (iterations_text ++ (dollar ∷ (salt ++ (dollar ∷ crypto.encode key)))))

  unfoldable pub create_password_hash : Result (Unit {0}) → Text → Text → Result Text
  unfolding derive_password_key_with_admission stored_form
  create_password_hash slot password salt =
      derive_password_key_with_admission slot password salt pbkdf2_iterations
      >>= (λ key. ok (stored_form salt key))

  -- The checks of `verifyPassword` on the three parts behind the scheme.
  verify_parts : Result (Unit {0}) → Text → Text → Text → Text → Result Bool
  unfolding derive_password_key_with_admission
  verify_parts slot password iterations salt expected = elim (crypto.to_number iterations) [
    | none ↦ ok false
    | some n ↦
        if ltb n 10000
          || ltb 1000000 n
          || length salt == 0
          || ltb 128 (utf16_length salt)
          || length expected == 0
          || ltb 128 (utf16_length expected)
        then ok false
        else derive_password_key_with_admission slot password salt n
          >>= (λ calculated. ok (text_eq (crypto.decode expected) calculated))
  ]

  verify_split : Result (Unit {0}) → Text → List Text → Result Bool
  unfolding verify_parts
  verify_split slot password (name ∷ iterations ∷ salt ∷ expected ∷ []) =
      if text_eq name scheme then verify_parts slot password iterations salt expected else ok false
  verify_split slot password _ = ok false

  unfoldable pub verify_password : Result (Unit {0}) → Text → Text → Result Bool
  unfolding verify_split
  verify_password slot password stored_hash = verify_split slot password (split stored_hash)

unfoldable pub password_hash_needs_upgrade : Text → Bool
unfolding starts_with
password_hash_needs_upgrade stored_hash =
    utf16_length stored_hash == legacy_sha256_hex_length
    || not (starts_with (scheme ++ (dollar ∷ (iterations_text ++ dollar ∷ []))) stored_hash)
