-- ===== src/Common/Members.antt =====
-- Membership in the lists that the array methods make.
use Prim.Native.Nat.{ℕ, ◌≤◌}
use mathlib.Core.Path.{◌≡◌, refl, sym, subst}
use mathlib.Core.Logic.{inl, inr, ◌↔◌}
use mathlib.Core.Bool.{Bool, true}
use mathlib.Core.Option.{some}
use mathlib.Core.List.{List, [], ◌∷◌}
use mathlib.Core.List.Memᴰ
use mathlib.Core.List.Memᴰ.{Memᴰ}
use native.Mathlib.Omega.{arith}
use big_project.Common.Tests.{ltb, ltb→lt, Bool-cases}
use big_project.Common.Lists.{any, filter, head?, insert_descending, sort_descending}

module _ {ℓ} {A : Type ℓ} where
  filter-Mem_to :
      (p : A → Bool) (x : A) (xs : List A) → Memᴰ x (filter p xs) → Memᴰ x xs × (p x ≡ true)
  filter-Mem_to p x [] h = absurd (Memᴰ.not-nil h)
  filter-Mem_to p x (y ∷ ys) h = elim (Bool-cases (p y)) [
    | inr isnt ↦
        let same : filter p (y ∷ ys) ≡ filter p ys = rw (isnt) refl in
        let rest = filter-Mem_to p x ys (subst (Memᴰ x) same h) in (Memᴰ.tail rest.0, rest.1)
    | inl is ↦
        let same : filter p (y ∷ ys) ≡ y ∷ filter p ys = rw (is) refl in
        elim (Memᴰ.cases_cons (subst (Memᴰ x) same h)) [
          | inl e ↦ (Memᴰ.head e, subst (λ z. p z ≡ true) (sym e) is)
          | inr later ↦ let rest = filter-Mem_to p x ys later in (Memᴰ.tail rest.0, rest.1)
        ]
  ]

  filter-Mem_from :
      (p : A → Bool) (x : A) (xs : List A) → Memᴰ x xs → p x ≡ true → Memᴰ x (filter p xs)
  filter-Mem_from p x [] h t = absurd (Memᴰ.not-nil h)
  filter-Mem_from p x (y ∷ ys) h t = elim (Memᴰ.cases_cons h) [
    | inl e ↦
        let is : p y ≡ true = subst (λ z. p z ≡ true) e t in
        let same : y ∷ filter p ys ≡ filter p (y ∷ ys) = rw (is) refl in
        subst (Memᴰ x) same (Memᴰ.head e)
    | inr later ↦
        let rest = filter-Mem_from p x ys later t in
        elim (Bool-cases (p y)) [
          | inl is ↦
              let same : y ∷ filter p ys ≡ filter p (y ∷ ys) = rw (is) refl in
              subst (Memᴰ x) same (Memᴰ.tail rest)
          | inr isnt ↦
              let same : filter p ys ≡ filter p (y ∷ ys) = rw (isnt) refl in
              subst (Memᴰ x) same rest
        ]
  ]

  -- The members of a filtered list are those that pass.
  pub filter-Mem :
      (p : A → Bool) (x : A) (xs : List A) → Memᴰ x (filter p xs) ↔ (Memᴰ x xs × (p x ≡ true))
  filter-Mem p x xs = (filter-Mem_to p x xs, λ h. filter-Mem_from p x xs h.0 h.1)

  insert-Mem :
      (key : A → ℕ) (x y : A) (ys : List A) → Memᴰ x (insert_descending key y ys) ↔ Memᴰ x (y ∷ ys)
  insert-Mem key x y [] = (λ h. h, λ h. h)
  insert-Mem key x y (z ∷ zs) =
      let rest = insert-Mem key x y zs in
      elim (Bool-cases (ltb (key y) (key z))) [
        | inr isnt ↦
            let same : insert_descending key y (z ∷ zs) ≡ y ∷ z ∷ zs = rw (isnt) refl in
            (subst (Memᴰ x) same, subst (Memᴰ x) (sym same))
        | inl is ↦
            let same : insert_descending key y (z ∷ zs) ≡ z ∷ insert_descending key y zs =
              rw (is) refl in
            (
              λ h. elim (Memᴰ.cases_cons (subst (Memᴰ x) same h)) [
                | inl e ↦ Memᴰ.tail (Memᴰ.head e)
                | inr later ↦ elim (Memᴰ.cases_cons (rest.0 later)) [
                  | inl e ↦ Memᴰ.head e
                  | inr last ↦ Memᴰ.tail (Memᴰ.tail last)
                ]
              ],
              λ h. subst (Memᴰ x) (sym same) (elim (Memᴰ.cases_cons h) [
                | inl e ↦ Memᴰ.tail (rest.1 (Memᴰ.head e))
                | inr later ↦ elim (Memᴰ.cases_cons later) [
                  | inl e ↦ Memᴰ.head e
                  | inr last ↦ Memᴰ.tail (rest.1 (Memᴰ.tail last))
                ]
              ]),
            )
      ]

  -- Sorting keeps the members.
  pub sort-Mem : (key : A → ℕ) (x : A) (xs : List A) → Memᴰ x (sort_descending key xs) ↔ Memᴰ x xs
  sort-Mem key x [] = (λ h. h, λ h. h)
  sort-Mem key x (y ∷ ys) =
      let rest = sort-Mem key x ys in
      let first = insert-Mem key x y (sort_descending key ys) in
      (
        λ h. elim (Memᴰ.cases_cons (first.0 h)) [
          | inl e ↦ Memᴰ.head e
          | inr later ↦ Memᴰ.tail (rest.0 later)
        ],
        λ h. first.1 (elim (Memᴰ.cases_cons h) [
          | inl e ↦ Memᴰ.head e
          | inr later ↦ Memᴰ.tail (rest.1 later)
        ]),
      )

  head-Mem : (x : A) (xs : List A) → head? xs ≡ some x → Memᴰ x xs
  head-Mem x [] h = absurd (ground (arith, h))
  head-Mem x (y ∷ ys) h = let same : y ≡ x = ground (arith, h) in Memᴰ.head (sym same)

  Mem-head : (x : A) (xs : List A) → Memᴰ x xs → (y : A) × (head? xs ≡ some y)
  Mem-head x [] m = absurd (Memᴰ.not-nil m)
  Mem-head x (y ∷ ys) m = (y, refl)

  head-insert_max :
      (key : A → ℕ) (x : A) (ys : List A) (top : A)
      → head? (insert_descending key x ys) ≡ some top
      → (key x ≤ key top) × ((y : A) → head? ys ≡ some y → key y ≤ key top)
  head-insert_max key x [] top h =
      let same : x ≡ top = ground (arith, h) in
      (subst (λ t. key x ≤ key t) same (omega arith), λ y e. absurd (ground (arith, e)))
  head-insert_max key x (z ∷ zs) top h = elim (Bool-cases (ltb (key x) (key z))) [
    | inl is ↦
        let same : z ≡ top = ground (arith, h, is) in
        let less = ltb→lt (key x) (key z) is in
        (
          subst (λ t. key x ≤ key t) same (omega (arith, less)),
          λ y e.
              let first : z ≡ y = ground (arith, e) in
              subst (λ t. key y ≤ key t) same (subst (λ v. key v ≤ key z) first (omega arith)),
        )
    | inr isnt ↦
        let same : x ≡ top = ground (arith, h, isnt) in
        let least : key z ≤ key x = ground (arith, isnt) in
        (
          subst (λ t. key x ≤ key t) same (omega arith),
          λ y e.
              let first : z ≡ y = ground (arith, e) in
              subst (λ t. key y ≤ key t) same (subst (λ v. key v ≤ key x) first least),
        )
  ]

  -- The first of a sorted list is a member, and has the greatest key.
  pub head-sort_max :
      (key : A → ℕ) (xs : List A) (top x : A)
      → head? (sort_descending key xs) ≡ some top
      → Memᴰ x xs
      → key x ≤ key top
  head-sort_max key [] top x h m = absurd (Memᴰ.not-nil m)
  head-sort_max key (y ∷ ys) top x h m =
      let bound = head-insert_max key y (sort_descending key ys) top h in
      elim (Memᴰ.cases_cons m) [
        | inl same ↦ subst (λ v. key v ≤ key top) (sym same) bound.0
        | inr later ↦
            let first = Mem-head x (sort_descending key ys) ((sort-Mem key x ys).1 later) in
            let below = head-sort_max key ys first.0 x first.1 later in
            let above = bound.1 first.0 first.1 in omega (arith, below, above)
      ]

  pub head-sort_Mem :
      (key : A → ℕ) (xs : List A) (top : A)
      → head? (sort_descending key xs) ≡ some top
      → Memᴰ top xs
  head-sort_Mem key xs top h = (sort-Mem key top xs).0 (head-Mem top (sort_descending key xs) h)

  -- A list with a member has a first one when it is sorted.
  pub sort-head :
      (key : A → ℕ) (xs : List A) (x : A)
      → Memᴰ x xs
      → (top : A) × (head? (sort_descending key xs) ≡ some top)
  sort-head key xs x m = Mem-head x (sort_descending key xs) ((sort-Mem key x xs).1 m)

  -- A test that some element passes.
  pub any-Mem : (p : A → Bool) (xs : List A) → any p xs ≡ true → (x : A) × Memᴰ x xs × (p x ≡ true)
  any-Mem p [] h = absurd (ground (arith, h))
  any-Mem p (x ∷ xs) h = elim (Bool-cases (p x)) [
    | inl is ↦ (x, Memᴰ.head refl, is)
    | inr isnt ↦
        let rest = any-Mem p xs (ground (arith, h, isnt)) in (rest.0, Memᴰ.tail rest.1, rest.2)
  ]
