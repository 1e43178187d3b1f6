-- ===== src/Prelude/Lists.antt =====
-- Lists of rows: what the queries of the repositories do, over Boolean tests.
use Prim.Native.Nat.{ℕ, zero, suc, ◌+◌, ◌-◌, min}
use mathlib.Core.Path.{◌≡◌, refl}
use mathlib.Core.Logic.{inl, inr}
use mathlib.Core.Bool.{Bool, true}
use mathlib.Core.Option.{Option, none, some}
use mathlib.Core.List.{List, [], ◌∷◌, ◌++◌}
use native.Mathlib.Omega.{arith}
use fastapi.Prelude.Tests.{Bool-cases, if◌then◌else◌, ltb}

module _ {ℓ} {A : Type ℓ} where
  abbrev pub length : List A → ℕ
  length [] = 0
  length (x ∷ xs) = suc (length xs)

  abbrev pub take : ℕ → List A → List A
  take zero xs = []
  take (suc n) [] = []
  take (suc n) (x ∷ xs) = x ∷ take n xs

  abbrev pub drop : ℕ → List A → List A
  drop zero xs = xs
  drop (suc n) [] = []
  drop (suc n) (x ∷ xs) = drop n xs

  -- `WHERE p`
  unfoldable pub filter : (A → Bool) → List A → List A
  filter p [] = []
  filter p (x ∷ xs) = let rest = filter p xs in if p x then x ∷ rest else rest

  -- The first row that passes the test.
  unfoldable pub find : (A → Bool) → List A → Option A
  find p [] = none
  find p (x ∷ xs) = let rest = find p xs in if p x then some x else rest

  -- `ORDER BY key DESC`, the first row.
  unfoldable pub find_max : (A → ℕ) → List A → Option A
  find_max key [] = none
  find_max key (x ∷ xs) = elim (find_max key xs) [
    | none ↦ some x
    | some y ↦ if ltb (key x) (key y) then some y else some x
  ]

  -- An assignment to the fields of the rows that pass the test.
  unfoldable pub update_where : (A → Bool) → (A → A) → List A → List A
  update_where p f [] = []
  update_where p f (x ∷ xs) = (if p x then f x else x) ∷ update_where p f xs

  -- `func.sum`
  unfoldable pub sum_by : (A → ℕ) → List A → ℕ
  sum_by f [] = 0
  sum_by f (x ∷ xs) = f x + sum_by f xs

  abbrev pub All {κ} : (A → Type κ) → List A → Type κ
  All P [] = Unit
  All P (x ∷ xs) = P x × All P xs

  pub length-append : (xs ys : List A) → length (xs ++ ys) ≡ length xs + length ys
  length-append [] ys = omega arith
  length-append (x ∷ xs) ys = omega (arith, length-append xs ys)

  pub sum_by-append : (f : A → ℕ) (xs ys : List A) → sum_by f (xs ++ ys) ≡ sum_by f xs + sum_by f ys
  unfolding sum_by
  sum_by-append f [] ys = omega arith
  sum_by-append f (x ∷ xs) ys = omega (arith, sum_by-append f xs ys)

  -- A row that is found passes the test.
  pub find-passes : (p : A → Bool) (xs : List A) {x : A} → find p xs ≡ some x → p x ≡ true
  unfolding find
  find-passes p [] h = ground arith
  find-passes p (y ∷ ys) {x} h = ground (arith, find-passes p ys {x = x})

  -- The row that a descending order puts first passes the test of the filter.
  pub find_max-filter-passes :
      (key : A → ℕ) (p : A → Bool) (xs : List A) {x : A}
      → find_max key (filter p xs) ≡ some x
      → p x ≡ true
  unfolding find_max filter
  find_max-filter-passes key p [] h = ground arith
  find_max-filter-passes key p (y ∷ ys) {x} h =
      ground (arith, find_max-filter-passes key p ys {x = x})

  unfoldable pub insert_by : (A → A → Bool) → A → List A → List A
  insert_by before x [] = x ∷ []
  insert_by before x (y ∷ ys) = if before x y then x ∷ y ∷ ys else y ∷ insert_by before x ys

  -- `ORDER BY`
  unfoldable pub sort_by : (A → A → Bool) → List A → List A
  unfolding insert_by
  sort_by before [] = []
  sort_by before (x ∷ xs) = insert_by before x (sort_by before xs)

  length-insert_by :
      (before : A → A → Bool) (x : A) (ys : List A)
      → length (insert_by before x ys) ≡ suc (length ys)
  unfolding insert_by
  length-insert_by before x [] = refl
  length-insert_by before x (y ∷ ys) = ground (arith, length-insert_by before x ys)

  pub length-sort_by :
      (before : A → A → Bool) (xs : List A) → length (sort_by before xs) ≡ length xs
  unfolding sort_by
  length-sort_by before [] = refl
  length-sort_by before (x ∷ xs) =
      omega (arith, length-insert_by before x (sort_by before xs), length-sort_by before xs)

  All-insert_by {κ} :
      (P : A → Type κ) (before : A → A → Bool) (x : A) (ys : List A)
      → P x
      → All P ys
      → All P (insert_by before x ys)
  unfolding insert_by
  All-insert_by P before x [] p h = (p, tt)
  All-insert_by P before x (y ∷ ys) p h =
      let rest = All-insert_by P before x ys p h.1 in
      elim (Bool-cases (before x y)) [
        | inl first ↦ rw first (p, h)
        | inr later ↦ rw later (h.0, rest)
      ]

  pub All-sort_by {κ} :
      (P : A → Type κ) (before : A → A → Bool) (xs : List A) → All P xs → All P (sort_by before xs)
  unfolding sort_by
  All-sort_by P before [] h = tt
  All-sort_by P before (x ∷ xs) h =
      All-insert_by P before x (sort_by before xs) h.0 (All-sort_by P before xs h.1)

  pub All-take {κ} : (P : A → Type κ) (n : ℕ) (xs : List A) → All P xs → All P (take n xs)
  All-take P zero xs h = tt
  All-take P (suc n) [] h = tt
  All-take P (suc n) (x ∷ xs) h = (h.0, All-take P n xs h.1)

  pub All-drop {κ} : (P : A → Type κ) (n : ℕ) (xs : List A) → All P xs → All P (drop n xs)
  All-drop P zero xs h = h
  All-drop P (suc n) [] h = tt
  All-drop P (suc n) (x ∷ xs) h = All-drop P n xs h.1

  pub All-filter : (p : A → Bool) (xs : List A) → All (λ x. p x ≡ true) (filter p xs)
  unfolding filter
  All-filter p [] = tt
  All-filter p (x ∷ xs) = elim (Bool-cases (p x)) [
    | inl pass ↦ rw pass (pass, All-filter p xs)
    | inr fail ↦ rw fail (All-filter p xs)
  ]

  pub length-take : (n : ℕ) (xs : List A) → length (take n xs) ≡ min n (length xs)
  length-take zero xs = omega arith
  length-take (suc n) [] = omega arith
  length-take (suc n) (x ∷ xs) = omega (arith, length-take n xs)

  pub length-drop : (n : ℕ) (xs : List A) → length (drop n xs) ≡ length xs - n
  length-drop zero xs = omega arith
  length-drop (suc n) [] = omega arith
  length-drop (suc n) (x ∷ xs) = omega (arith, length-drop n xs)
