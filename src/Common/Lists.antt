-- ===== src/Common/Lists.antt =====
-- Lists measured by native numbers, and the array methods of the source: `find`, `filter`, `some`
-- and `every` over Boolean tests, with a predicate for each element of a list.
use Prim.Native.Nat.{ℕ, zero, suc, ◌+◌, ◌≤◌}
use mathlib.Core.Path.{◌≡◌}
use mathlib.Core.Bool.{Bool, true, false, ◌&&◌, ◌||◌}
use mathlib.Core.Option.{Option, none, some}
use mathlib.Core.List.{List, [], ◌∷◌, ◌++◌}
use native.Mathlib.Omega.{arith}
use big_project.Common.Tests.{ltb, if◌then◌else◌}

module _ {ℓ} {A : Type ℓ} where
  abbrev pub length : List A → ℕ
  length [] = 0
  length (x ∷ xs) = suc (length xs)

  -- `Array.prototype.find`: the first element that passes the test.
  abbrev pub find : (A → Bool) → List A → Option A
  find p [] = none
  find p (x ∷ xs) = if p x then some x else find p xs

  abbrev pub filter : (A → Bool) → List A → List A
  filter p [] = []
  filter p (x ∷ xs) = if p x then x ∷ filter p xs else filter p xs

  abbrev pub any : (A → Bool) → List A → Bool
  any p [] = false
  any p (x ∷ xs) = p x || any p xs

  abbrev pub all : (A → Bool) → List A → Bool
  all p [] = true
  all p (x ∷ xs) = p x && all p xs

  -- `xs[0]`, with `none` for `undefined`.
  abbrev pub head? : List A → Option A
  head? [] = none
  head? (x ∷ xs) = some x

  abbrev pub insert_descending : (A → ℕ) → A → List A → List A
  insert_descending key x [] = x ∷ []
  insert_descending key x (y ∷ ys) =
      let rest = insert_descending key x ys in if ltb (key x) (key y) then y ∷ rest else x ∷ y ∷ ys

  -- `xs.sort((l, r) => key(r) - key(l))`: equal keys keep their order.
  abbrev pub sort_descending : (A → ℕ) → List A → List A
  sort_descending key [] = []
  sort_descending key (x ∷ xs) = insert_descending key x (sort_descending key xs)

  -- `xs.slice(0, n)`
  abbrev pub take : ℕ → List A → List A
  take zero xs = []
  take (suc n) [] = []
  take (suc n) (x ∷ xs) = x ∷ take n xs

  pub length-append : (xs ys : List A) → length (xs ++ ys) ≡ length xs + length ys
  length-append [] ys = omega arith
  length-append (x ∷ xs) ys = omega (arith, length-append xs ys)

  pub length-filter-le : (p : A → Bool) (xs : List A) → length (filter p xs) ≤ length xs
  length-filter-le p [] = omega arith
  length-filter-le p (x ∷ xs) = ground (arith, length-filter-le p xs)

  pub find-passes : (p : A → Bool) (xs : List A) (x : A) → find p xs ≡ some x → p x ≡ true
  find-passes p [] x h = ground arith
  find-passes p (y ∷ xs) x h = ground (arith, find-passes p xs x)

module _ {ℓ κ} {A : Type ℓ} (P : A → Type κ) where
  abbrev pub All : List A → Type κ
  All [] = Unit
  All (x ∷ xs) = P x × All xs

  pub All-append : (xs ys : List A) → All xs → All ys → All (xs ++ ys)
  All-append [] ys hx hy = hy
  All-append (x ∷ xs) ys hx hy = (hx.0, All-append xs ys hx.1 hy)

  pub All-filter : (p : A → Bool) (xs : List A) → All xs → All (filter p xs)
  All-filter p [] h = tt
  All-filter p (x ∷ xs) h = ground (arith, All-filter p xs h.1)

  All-insert_descending :
      (key : A → ℕ) (x : A) (xs : List A) → P x → All xs → All (insert_descending key x xs)
  All-insert_descending key x [] hx hs = (hx, tt)
  All-insert_descending key x (y ∷ ys) hx hs =
      ground (arith, All-insert_descending key x ys hx hs.1)

  pub All-sort_descending : (key : A → ℕ) (xs : List A) → All xs → All (sort_descending key xs)
  All-sort_descending key [] hs = tt
  All-sort_descending key (x ∷ xs) hs =
      All-insert_descending key x (sort_descending key xs) hs.0 (All-sort_descending key xs hs.1)

module _ {ℓ} {A : Type ℓ} where
  -- What passes the filter passes its test.
  pub filter-All : (p : A → Bool) (xs : List A) → All (λ x. p x ≡ true) (filter p xs)
  filter-All p [] = tt
  filter-All p (x ∷ xs) = ground (arith, filter-All p xs)
