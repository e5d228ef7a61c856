-- ===== src/PasswordHash/Roundtrip.antt =====
-- A password verifies against the hash made from it, and what verifies has the form of a hash.
use big_project.Common.{
  ℕ, suc, ◌+◌, ◌≤◌, ◌≡◌, refl, ap, subst, ◌∙◌, ◌≢◌, inl, inr, true, false, some, List, [], ◌∷◌,
  ◌++◌, arith, ◌==◌, Bool-cases, Option-cases, length, All,
}
use big_project.Common.Result.{Result, ok, throw, Exception}
use big_project.PasswordHash.{
  Text, dollar, Crypto, scheme, iterations_text, pbkdf2_iterations, pbkdf2_key_length, text_eq,
  utf16_length, split, starts_with, stored_form, derive_password_key_with_admission,
  create_password_hash, verify_parts, verify_split, verify_password, password_hash_needs_upgrade,
}

abbrev pub IsPlain : Text → Type 0
IsPlain s = All (λ c. c ≢ dollar) s

split_plain : (s : Text) → IsPlain s → split s ≡ s ∷ []
unfolding split
split_plain [] h = refl
split_plain (c ∷ s) h = ground (arith, split_plain s h.1)

split-append : (s rest : Text) → IsPlain s → split (s ++ (dollar ∷ rest)) ≡ s ∷ split rest
unfolding split
split-append [] rest h = refl
split-append (c ∷ s) rest h = ground (arith, split-append s rest h.1)

pub text_eq_refl : (s : Text) → text_eq s s ≡ true
unfolding text_eq
text_eq_refl [] = refl
text_eq_refl (c ∷ s) = ground (arith, text_eq_refl s)

pub text_eq_sound : (s t : Text) → text_eq s t ≡ true → s ≡ t
unfolding text_eq
text_eq_sound [] [] h = refl
text_eq_sound [] (b ∷ t) h = cc
text_eq_sound (a ∷ s) [] h = cc
text_eq_sound (a ∷ s) (b ∷ t) h = ground (arith, text_eq_sound s t)

pub utf16_length-append : (s t : Text) → utf16_length (s ++ t) ≡ utf16_length s + utf16_length t
unfolding utf16_length
utf16_length-append [] t = omega arith
utf16_length-append (c ∷ s) t = omega (arith, utf16_length-append s t)

-- The texts of a list joined by the dollar sign.
abbrev join : List Text → Text
join [] = []
join (s ∷ []) = s
join (s ∷ t ∷ rest) = s ++ (dollar ∷ join (t ∷ rest))

split-cons : (s : Text) → (part : Text) × (rest : List Text) × (split s ≡ part ∷ rest)
unfolding split
split-cons [] = ([], [], refl)
split-cons (c ∷ s) =
    let (part, rest, e) = split-cons s in
    elim (Bool-cases (c == dollar)) [
      | inl q ↦ ([], split s, rw q)
      | inr q ↦ (c ∷ part, rest, rw (q, e, split))
    ]

join-cons :
    (c : ℕ) (part : Text) (rest : List Text) → join ((c ∷ part) ∷ rest) ≡ c ∷ join (part ∷ rest)
join-cons c part [] = refl
join-cons c part (t ∷ rest) = refl

join-split : (s : Text) → join (split s) ≡ s
unfolding split
join-split [] = refl
join-split (c ∷ s) =
    let (part, rest, e) = split-cons s in
    let ih = join-split s in
    elim (Bool-cases (c == dollar)) [
      | inl q ↦ ground arith
      | inr q ↦ ground (arith, join-cons c part rest)
    ]

IsPlain-scheme : IsPlain scheme
IsPlain-scheme = omega arith

IsPlain-iterations : IsPlain iterations_text
IsPlain-iterations = omega arith

-- What the runtime documents of its base64url texts and of reading the fixed iteration count: the
-- alphabet has no dollar sign, decoding undoes encoding, and 32 bytes take 43 characters.
pub record IsRuntime (crypto : Crypto) : Type 0 where
  pub plain : (bytes : List ℕ) → IsPlain (crypto.encode bytes)
  pub decodes : (bytes : List ℕ) → crypto.decode (crypto.encode bytes) ≡ bytes
  pub reads : crypto.to_number iterations_text ≡ some pbkdf2_iterations
  pub encoded :
      (password salt : Text)
      → utf16_length
          (crypto.encode (crypto.derive password salt pbkdf2_iterations pbkdf2_key_length))
        ≡ 43

nonempty : (s : Text) (n : ℕ) → utf16_length s ≡ suc n → (length s == 0) ≡ false
unfolding utf16_length
nonempty [] n h = cc
nonempty (c ∷ s) n h = ground arith

module _ (crypto : Crypto) where
  verify_parts_accepts :
      (password iterations salt expected : Text) (n : ℕ)
      → crypto.to_number iterations ≡ some n
      → 10000 ≤ n
      → n ≤ 1000000
      → (length salt == 0) ≡ false
      → utf16_length salt ≤ 128
      → (length expected == 0) ≡ false
      → utf16_length expected ≤ 128
      → crypto.decode expected ≡ crypto.derive password salt n pbkdf2_key_length
      → verify_parts crypto (ok tt) password iterations salt expected ≡ ok true
  unfolding verify_parts derive_password_key_with_admission
  verify_parts_accepts password iterations salt expected n reads low high some_salt short_salt
        some_hash short_hash same =
      rw
        (
          reads,
          verify_parts,
          derive_password_key_with_admission,
          some_salt,
          some_hash,
          same,
          text_eq_refl (crypto.derive password salt n pbkdf2_key_length),
        )
        (ground arith)

  verify_parts_sound :
      (slot : Result (Unit {0})) (password iterations salt expected : Text)
      → verify_parts crypto slot password iterations salt expected ≡ ok true
      → (n : ℕ) × (crypto.to_number iterations ≡ some n)
        × (10000 ≤ n)
        × (n ≤ 1000000)
        × (crypto.decode expected ≡ crypto.derive password salt n pbkdf2_key_length)
  unfolding verify_parts derive_password_key_with_admission
  verify_parts_sound (throw refused) password iterations salt expected h =
      elim (Option-cases (crypto.to_number iterations)) [
        | inl e ↦ absurd (ground arith)
        | inr (n, e) ↦ absurd (ground arith)
      ]
  verify_parts_sound (ok done) password iterations salt expected h =
      elim (Option-cases (crypto.to_number iterations)) [
        | inl e ↦ absurd (ground arith)
        | inr (n, e) ↦ (
          n,
          e,
          ground arith,
          ground arith,
          ground (
            arith,
            text_eq_sound (crypto.decode expected)
                (crypto.derive password salt n pbkdf2_key_length),
          ),
        )
      ]

  -- What a stored hash consists of, and that its key is that of the password.
  abbrev pub IsHashOf : Text → Text → Type 0
  IsHashOf password stored =
      (iterations : Text) × (salt : Text) × (expected : Text) × (n : ℕ) × (stored
        ≡ scheme ++ (dollar ∷ (iterations ++ (dollar ∷ (salt ++ (dollar ∷ expected))))))
      × (crypto.to_number iterations ≡ some n)
      × (10000 ≤ n)
      × (n ≤ 1000000)
      × (crypto.decode expected ≡ crypto.derive password salt n pbkdf2_key_length)

  verify_split_sound :
      (slot : Result (Unit {0})) (password : Text) (parts : List Text)
      → verify_split crypto slot password parts ≡ ok true
      → IsHashOf password (join parts)
  unfolding verify_split
  verify_split_sound slot password [] h = cc
  verify_split_sound slot password (a ∷ []) h = cc
  verify_split_sound slot password (a ∷ b ∷ []) h = cc
  verify_split_sound slot password (a ∷ b ∷ c ∷ []) h = cc
  verify_split_sound slot password (a ∷ b ∷ c ∷ d ∷ e ∷ r) h = cc
  verify_split_sound slot password (name ∷ iterations ∷ salt ∷ expected ∷ []) h =
      elim (Bool-cases (text_eq name scheme)) [
        | inr q ↦ absurd (ground arith)
        | inl q ↦
            let (n, reads, low, high, same) =
              verify_parts_sound slot password iterations salt expected (rw q at h) in
            (
              iterations,
              salt,
              expected,
              n,
              ap (λ t. t ++ (dollar ∷ (iterations ++ (dollar ∷ (salt ++ (dollar ∷ expected))))))
                  (text_eq_sound name scheme q),
              reads,
              low,
              high,
              same,
            )
      ]

  module _ (password salt : Text) (runtime : IsRuntime crypto) (plain_salt : IsPlain salt)
      (length_salt : utf16_length salt ≡ 22) where
    abbrev hash : Text
    hash = crypto.encode (crypto.derive password salt pbkdf2_iterations pbkdf2_key_length)

    -- What is stored for the password.
    abbrev pub stored : Text
    stored =
        stored_form crypto salt (crypto.derive password salt pbkdf2_iterations pbkdf2_key_length)

    split_created : split stored ≡ scheme ∷ iterations_text ∷ salt ∷ hash ∷ []
    unfolding stored_form
    split_created =
        split-append scheme (iterations_text ++ (dollar ∷ (salt ++ (dollar ∷ hash)))) IsPlain-scheme
        ∙ ap (λ r. scheme ∷ r)
            (split-append iterations_text (salt ++ (dollar ∷ hash)) IsPlain-iterations
              ∙ ap (λ r. iterations_text ∷ r)
                  (split-append salt hash plain_salt
                    ∙ ap (λ r. salt ∷ r) (split_plain hash (runtime.plain _))))

    needs_no_upgrade : password_hash_needs_upgrade stored ≡ false
    unfolding password_hash_needs_upgrade stored_form starts_with utf16_length
    needs_no_upgrade =
        ground (arith, runtime.encoded password salt, utf16_length-append salt (dollar ∷ hash))

    -- The hash of a password verifies it, and needs no upgrade, for a salt of 22 characters (16
    -- bytes of base64url) without a dollar sign, under what the runtime documents, where both
    -- derivations are admitted. The busy derivation of either passes its refusal on.
    pub verify_password-create_password_hash :
        (busy : Exception)
        → (create_password_hash crypto (ok tt) password salt ≡ ok stored)
          × (verify_password crypto (ok tt) password stored ≡ ok true)
          × (password_hash_needs_upgrade stored ≡ false)
          × (create_password_hash crypto (throw busy) password salt ≡ throw busy)
          × (verify_password crypto (throw busy) password stored ≡ throw busy)
    unfolding verify_password verify_split create_password_hash derive_password_key_with_admission
        verify_parts
    verify_password-create_password_hash busy =
        let long = runtime.encoded password salt in
        let some_salt = nonempty salt 21 length_salt in
        let some_hash = nonempty hash 42 long in
        (
          refl,
          rw (split_created, text_eq_refl scheme)
              (verify_parts_accepts password iterations_text salt hash pbkdf2_iterations
                runtime.reads (omega arith) (omega arith) some_salt (omega arith) some_hash
                (omega arith) (runtime.decodes _)),
          needs_no_upgrade,
          refl,
          rw (split_created, text_eq_refl scheme, verify_parts, runtime.reads, some_salt, some_hash)
              (ground (arith, long, length_salt)),
        )

  -- Whatever verifies has the form of a hash: the scheme, an iteration count from ten thousand to a
  -- million, a salt and the encoded key, which decodes to the key derived from the password.
  pub verify_password_sound :
      (slot : Result (Unit {0})) (password stored : Text)
      → verify_password crypto slot password stored ≡ ok true
      → IsHashOf password stored
  unfolding verify_password
  verify_password_sound slot password stored h =
      subst (IsHashOf password) (join-split stored)
        (verify_split_sound slot password (split stored) h)
