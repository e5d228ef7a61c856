-- ===== src/JsMap.antt =====
-- `Map<string, V>` of the language: entries in insertion order. `set` on a present key keeps its
-- place, and on a new one appends; `delete` removes the entry of the key.
use big_project.Common.{
  ◌+◌, ◌≤◌, String, ◌≡◌, refl, sym, subst, ◌⊎◌, inl, inr, Bool, true, false, Option, none, some,
  List, [], ◌∷◌, arith, eq_iff, eq_refl, ◌=ₛ◌, if◌then◌else◌, Bool-cases, length, filter, All,
}

module _ {ℓ} {V : Type ℓ} where
  unfoldable pub get : String → List (String × V) → Option V
  get key [] = none
  get key ((name, value) ∷ rest) = if name =ₛ key then some value else get key rest

  unfoldable pub set : String → V → List (String × V) → List (String × V)
  set key new [] = (key, new) ∷ []
  set key new ((name, value) ∷ rest) =
      if name =ₛ key then (name, new) ∷ rest else (name, value) ∷ set key new rest

  unfoldable pub delete : String → List (String × V) → List (String × V)
  delete k [] = []
  delete k ((j, w) ∷ m) = if j =ₛ k then m else (j, w) ∷ delete k m

  abbrev pub has : String → List (String × V) → Bool
  has k [] = false
  has k ((j, w) ∷ m) = if j =ₛ k then true else has k m

  -- A map has one entry for each key.
  abbrev pub IsMap : List (String × V) → Type ℓ
  IsMap [] = Unit
  IsMap ((j, w) ∷ m) = (get j m ≡ none) × IsMap m

  -- Reading a key after writing one.
  pub get-set :
      (key other : String) (value : V) (entries : List (String × V))
      → get other (set key value entries) ≡ (if key =ₛ other then some value else get other entries)
  unfolding get set
  get-set key other value [] = refl
  get-set key other value ((name, old) ∷ rest) =
      ground
        (arith, get-set key other value rest, eq_iff name key, eq_iff name other, eq_iff key other)

  pub set-IsMap : (k : String) (v : V) (m : List (String × V)) → IsMap m → IsMap (set k v m)
  unfolding set
  set-IsMap k v [] h = (unfold get in refl, tt)
  set-IsMap k v ((i, w) ∷ m) h =
      ground (arith, eq_iff i k, eq_iff k i, get-set k i v m, set-IsMap k v m h.1)

  pub get-delete :
      (k j : String) (m : List (String × V))
      → IsMap m
      → get j (delete k m) ≡ (if k =ₛ j then none else get j m)
  unfolding get delete
  get-delete k j [] h = ground arith
  get-delete k j ((i, w) ∷ m) h =
      ground (arith, eq_iff k j, eq_iff i k, eq_iff i j, get-delete k j m h.1)

  pub delete-IsMap : (k : String) (m : List (String × V)) → IsMap m → IsMap (delete k m)
  unfolding delete
  delete-IsMap k [] h = tt
  delete-IsMap k ((i, w) ∷ m) h = ground (arith, get-delete k i m h.1, delete-IsMap k m h.1)

  pub length-set-le :
      (k : String) (v : V) (m : List (String × V)) → length (set k v m) ≤ length m + 1
  unfolding set
  length-set-le k v [] = omega arith
  length-set-le k v ((i, w) ∷ m) = ground (arith, length-set-le k v m)

  -- Dropping the entries whose value fails a test.
  pub get-filter :
      (p : String × V → Bool) (k : String) (m : List (String × V))
      → IsMap m
      → (get k (filter p m) ≡ none) ⊎ (get k (filter p m) ≡ get k m)
  unfolding get
  get-filter p k [] h = ground arith
  get-filter p k ((i, w) ∷ m) h = ground (arith, eq_iff i k, get-filter p k m h.1)

  pub filter-IsMap : (p : String × V → Bool) (m : List (String × V)) → IsMap m → IsMap (filter p m)
  filter-IsMap p [] h = tt
  filter-IsMap p ((i, w) ∷ m) h = ground (arith, get-filter p i m h.1, filter-IsMap p m h.1)

module _ {ℓ κ} {V : Type ℓ} (P : String × V → Type κ) where
  pub set-All :
      (k : String) (v : V) (m : List (String × V)) → P (k, v) → All P m → All P (set k v m)
  unfolding set
  set-All k v [] p h = (p, tt)
  set-All k v ((j, w) ∷ m) p h = elim (Bool-cases (j =ₛ k)) [
    | inl e ↦ rw e (subst (λ i. P (i, v)) (sym ((eq_iff j k).0 e)) p, h.1)
    | inr e ↦ rw e (h.0, set-All k v m p h.1)
  ]

  pub get-All : (k : String) (m : List (String × V)) (v : V) → All P m → get k m ≡ some v → P (k, v)
  unfolding get
  get-All k [] v h e = cc
  get-All k ((j, w) ∷ m) v h e = elim (Bool-cases (j =ₛ k)) [
    | inl q ↦ subst P (cc ((eq_iff j k).0 q)) h.0
    | inr q ↦ get-All k m v h.1 (rw (q, get) at e)
  ]

-- Every entry of a map is what the map holds under its key.
module _ {ℓ} {V : Type ℓ} where
  abbrev pub IsFound : List (String × V) → String × V → Type ℓ
  IsFound m e = get e.0 m ≡ some e.1

  -- An entry found elsewhere is still found behind an entry of another key.
  pub IsFound-cons :
      (k : String) (v : V) (m es : List (String × V))
      → get k es ≡ none
      → All (IsFound m) es
      → All (IsFound ((k, v) ∷ m)) es
  unfolding get
  IsFound-cons k v m [] absent h = tt
  IsFound-cons k v m ((j, w) ∷ es) absent h = (
    ground (arith, eq_iff j k, eq_iff k j),
    IsFound-cons k v m es (ground (arith, eq_iff j k)) h.1,
  )

  pub IsMap-IsFound : (m : List (String × V)) → IsMap m → All (IsFound m) m
  IsMap-IsFound [] d = tt
  IsMap-IsFound ((k, v) ∷ m) d =
      (unfold get in (ground (arith, eq_refl k)), IsFound-cons k v m m d.0 (IsMap-IsFound m d.1))

  pub IsFound-delete :
      (k : String) (m es : List (String × V))
      → IsMap m
      → get k es ≡ none
      → All (IsFound m) es
      → All (IsFound (delete k m)) es
  unfolding get
  IsFound-delete k m [] d absent h = tt
  IsFound-delete k m ((j, w) ∷ es) d absent h = (
    ground (arith, get-delete k j m d, eq_iff j k, eq_iff k j),
    IsFound-delete k m es d (ground (arith, eq_iff j k)) h.1,
  )
