-- ===== src/Prelude/Rows.antt =====
-- Lists over the native numbers, and tables: a table is the list of its rows, and the functions
-- are the forms of SQL statement that the program writes.
use Prim.Native.Nat.{ℕ, zero, suc, ◌+◌, ◌≤◌}
use mathlib.Core.Path.{◌≡◌, refl, ap}
use mathlib.Core.Bool.{Bool, true, false, ◌&&◌, ◌||◌}
use mathlib.Core.Option.{Option, none, some}
use mathlib.Core.List.{List, [], ◌∷◌, ◌++◌}
use native.Mathlib.Omega.{arith}
use relaydot.Prelude.Tests.{if◌then◌else◌, is_some}

module _ {ℓ} {A : Type ℓ} where
  abbrev pub length : List A → ℕ
  length [] = 0
  length (x ∷ xs) = suc (length xs)

  abbrev pub take : ℕ → List A → List A
  take zero xs = []
  take (suc n) [] = []
  take (suc n) (x ∷ xs) = x ∷ take n xs

  abbrev pub any : (A → Bool) → List A → Bool
  any p [] = false
  any p (x ∷ xs) = p x || any p xs

  abbrev pub all : (A → Bool) → List A → Bool
  all p [] = true
  all p (x ∷ xs) = p x && all p xs

  -- `SELECT … WHERE p`, all rows.
  abbrev pub select : (A → Bool) → List A → List A
  select p [] = []
  select p (x ∷ xs) = if p x then x ∷ select p xs else select p xs

  -- `SELECT … WHERE p`, the first row; `undefined` is `none`.
  abbrev pub first : (A → Bool) → List A → Option A
  first p [] = none
  first p (x ∷ xs) = if p x then some x else first p xs

  -- `UPDATE … WHERE p`.
  abbrev pub update : (A → Bool) → (A → A) → List A → List A
  update p f [] = []
  update p f (x ∷ xs) = (if p x then f x else x) ∷ update p f xs

  -- `DELETE … WHERE p`.
  abbrev pub delete : (A → Bool) → List A → List A
  delete p [] = []
  delete p (x ∷ xs) = if p x then delete p xs else x ∷ delete p xs

  -- The number of rows that a statement `… WHERE p` changes.
  abbrev pub changes : (A → Bool) → List A → ℕ
  changes p [] = 0
  changes p (x ∷ xs) = if p x then suc (changes p xs) else changes p xs

  -- That number for `INSERT … ON CONFLICT … DO UPDATE`, where `p` finds the conflict: the rows that the
  -- clause updates, or the inserted row.
  abbrev pub upsert_changes : (A → Bool) → List A → ℕ
  upsert_changes p xs = if any p xs then changes p xs else 1

  -- `ORDER BY`, for the order that `before` tests; equal rows keep their places.
  abbrev pub insert_by : (A → A → Bool) → A → List A → List A
  insert_by before x [] = x ∷ []
  insert_by before x (y ∷ ys) = if before x y then x ∷ y ∷ ys else y ∷ insert_by before x ys

  abbrev pub order_by : (A → A → Bool) → List A → List A
  order_by before [] = []
  order_by before (x ∷ xs) = insert_by before x (order_by before xs)

-- Every row satisfies `P`.
abbrev pub All {ℓ κ} : {A : Type ℓ} → (A → Type κ) → List A → Type κ
All P [] = Unit
All P (x ∷ xs) = P x × All P xs

module _ {ℓ} {A : Type ℓ} where
  pub length-append : (xs ys : List A) → length (xs ++ ys) ≡ length xs + length ys
  length-append [] ys = omega arith
  length-append (x ∷ xs) ys = omega (arith, length-append xs ys)

  pub length-update : (p : A → Bool) (f : A → A) (xs : List A) → length (update p f xs) ≡ length xs
  length-update p f [] = refl
  length-update p f (x ∷ xs) = ap suc (length-update p f xs)

  pub length-take-le : (n : ℕ) (xs : List A) → length (take n xs) ≤ n
  length-take-le zero xs = omega arith
  length-take-le (suc n) [] = omega arith
  length-take-le (suc n) (x ∷ xs) = omega (arith, length-take-le n xs)

  -- The first row that a query finds satisfies its condition.
  pub first-holds : (p : A → Bool) (xs : List A) (x : A) → first p xs ≡ some x → p x ≡ true
  first-holds p [] x e = cc
  first-holds p (y ∷ xs) x e = ground (arith, first-holds p xs x)

  pub All-first {κ} :
      (P : A → Type κ) (p : A → Bool) (xs : List A) (x : A) → All P xs → first p xs ≡ some x → P x
  All-first P p [] x h e = cc
  All-first P p (y ∷ xs) x h e = ground (arith, All-first P p xs x h.1)

  pub All-append {κ} : (P : A → Type κ) (xs ys : List A) → All P xs → All P ys → All P (xs ++ ys)
  All-append P [] ys hx hy = hy
  All-append P (x ∷ xs) ys hx hy = (hx.0, All-append P xs ys hx.1 hy)

  pub All-map {κ κ'} :
      (P : A → Type κ) (Q : A → Type κ') (xs : List A) → ((x : A) → P x → Q x) → All P xs → All Q xs
  All-map P Q [] f h = tt
  All-map P Q (x ∷ xs) f h = (f x h.0, All-map P Q xs f h.1)

  pub All-true {κ} : (P : A → Type κ) (xs : List A) → ((x : A) → P x) → All P xs
  All-true P [] f = tt
  All-true P (x ∷ xs) f = (f x, All-true P xs f)

  pub All-select {κ} :
      (P : A → Type κ) (p : A → Bool) (xs : List A) → All P xs → All P (select p xs)
  All-select P p [] h = tt
  All-select P p (x ∷ xs) h = ground (arith, All-select P p xs h.1)

  pub select-All : (p : A → Bool) (xs : List A) → All (λ x. p x ≡ true) (select p xs)
  select-All p [] = tt
  select-All p (x ∷ xs) = ground (arith, select-All p xs)

  pub All-take {κ} : (P : A → Type κ) (n : ℕ) (xs : List A) → All P xs → All P (take n xs)
  All-take P zero xs h = tt
  All-take P (suc n) [] h = tt
  All-take P (suc n) (x ∷ xs) h = (h.0, All-take P n xs h.1)

  pub All-update {κ} :
      (P : A → Type κ) (p : A → Bool) (f : A → A) (xs : List A)
      → ((x : A) → p x ≡ true → P x → P (f x))
      → All P xs
      → All P (update p f xs)
  All-update P p f [] k h = tt
  All-update P p f (x ∷ xs) k h = ground (arith, k x, All-update P p f xs k h.1)

  -- An update that does not touch what a query tests commutes with the query.
  pub first-update :
      (q p : A → Bool) (f : A → A) (xs : List A)
      → ((x : A) → q (f x) ≡ q x)
      → first q (update p f xs)
        ≡ elim (first q xs) [ none ↦ none | some x ↦ some (if p x then f x else x) ]
  first-update q p f [] k = refl
  first-update q p f (x ∷ xs) k = ground (arith, k x, first-update q p f xs k)

  pub first-append :
      (q : A → Bool) (xs ys : List A)
      → first q (xs ++ ys) ≡ elim (first q xs) [ none ↦ first q ys | some x ↦ some x ]
  first-append q [] ys = refl
  first-append q (x ∷ xs) ys = ground (arith, first-append q xs ys)

  pub any-first : (q : A → Bool) (xs : List A) → any q xs ≡ is_some (first q xs)
  any-first q [] = refl
  any-first q (x ∷ xs) = ground (arith, any-first q xs)

  pub update-none : (p : A → Bool) (f : A → A) (xs : List A) → any p xs ≡ false → update p f xs ≡ xs
  update-none p f [] h = refl
  update-none p f (x ∷ xs) h = ground (arith, update-none p f xs)

  pub length-insert_by :
      (before : A → A → Bool) (x : A) (xs : List A)
      → length (insert_by before x xs) ≡ suc (length xs)
  length-insert_by before x [] = refl
  length-insert_by before x (y ∷ ys) = ground (arith, length-insert_by before x ys)

  pub length-order_by :
      (before : A → A → Bool) (xs : List A) → length (order_by before xs) ≡ length xs
  length-order_by before [] = refl
  length-order_by before (x ∷ xs) =
      omega (arith, length-order_by before xs, length-insert_by before x (order_by before xs))

  pub All-insert_by {κ} :
      (P : A → Type κ) (before : A → A → Bool) (x : A) (xs : List A)
      → P x
      → All P xs
      → All P (insert_by before x xs)
  All-insert_by P before x [] px h = (px, tt)
  All-insert_by P before x (y ∷ ys) px h = ground (arith, All-insert_by P before x ys px h.1)

  pub All-order_by {κ} :
      (P : A → Type κ) (before : A → A → Bool) (xs : List A) → All P xs → All P (order_by before xs)
  All-order_by P before [] h = tt
  All-order_by P before (x ∷ xs) h =
      All-insert_by P before x (order_by before xs) h.0 (All-order_by P before xs h.1)

  -- `xs[i] = f(xs[i])`, with nothing to do out of range.
  abbrev pub update_at : ℕ → (A → A) → List A → List A
  update_at i f [] = []
  update_at zero f (x ∷ xs) = f x ∷ xs
  update_at (suc i) f (x ∷ xs) = x ∷ update_at i f xs

  abbrev pub sum_by : (A → ℕ) → List A → ℕ
  sum_by g [] = 0
  sum_by g (x ∷ xs) = g x + sum_by g xs

  pub length-update_at : (i : ℕ) (f : A → A) (xs : List A) → length (update_at i f xs) ≡ length xs
  length-update_at i f [] = refl
  length-update_at zero f (x ∷ xs) = refl
  length-update_at (suc i) f (x ∷ xs) = ap suc (length-update_at i f xs)

  pub sum_by-update_at :
      (g : A → ℕ) (d i : ℕ) (f : A → A) (xs : List A)
      → ((x : A) → g (f x) ≡ g x + d)
      → suc i ≤ length xs
      → sum_by g (update_at i f xs) ≡ sum_by g xs + d
  sum_by-update_at g d i f [] k h = absurd (ground arith)
  sum_by-update_at g d zero f (x ∷ xs) k h = omega (arith, k x)
  sum_by-update_at g d (suc i) f (x ∷ xs) k h =
      omega (arith, sum_by-update_at g d i f xs k (omega arith))

  pub sum_by-insert_by :
      (g : A → ℕ) (before : A → A → Bool) (x : A) (xs : List A)
      → sum_by g (insert_by before x xs) ≡ g x + sum_by g xs
  sum_by-insert_by g before x [] = refl
  sum_by-insert_by g before x (y ∷ ys) = ground (arith, sum_by-insert_by g before x ys)

  pub sum_by-order_by :
      (g : A → ℕ) (before : A → A → Bool) (xs : List A)
      → sum_by g (order_by before xs) ≡ sum_by g xs
  sum_by-order_by g before [] = refl
  sum_by-order_by g before (x ∷ xs) =
      omega (arith, sum_by-order_by g before xs, sum_by-insert_by g before x (order_by before xs))

  pub delete-append :
      (p : A → Bool) (xs ys : List A) → delete p (xs ++ ys) ≡ delete p xs ++ delete p ys
  delete-append p [] ys = refl
  delete-append p (x ∷ xs) ys = ground (arith, delete-append p xs ys)

  -- A query that finds no row finds none when rows are gone, or when it asks for more.
  pub first-delete-none :
      (q r p : A → Bool) (xs : List A)
      → ((x : A) → r x ≡ false → q x ≡ false)
      → any r xs ≡ false
      → first q (delete p xs) ≡ none
  first-delete-none q r p [] k h = refl
  first-delete-none q r p (x ∷ xs) k h = ground (arith, k x, first-delete-none q r p xs k)
