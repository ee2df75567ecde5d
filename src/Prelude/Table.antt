-- ===== src/Prelude/Table.antt =====
-- A database table as the list of its rows. A row is found and updated by its primary key, and
-- rows are counted by a predicate, as the queries of internal/repository do.
use Prim.Native.Nat.{ℕ, suc, ◌+◌}
use mathlib.Core.Path.{◌≡◌}
use mathlib.Core.Bool.{Bool, true, false}
use mathlib.Core.Option.{Option, none, some}
use mathlib.Core.List.{List, [], ◌∷◌}
use native.Mathlib.Omega.{arith}
use kelolakelas_academic_ser.Prelude.Tests.{◌==◌, if◌then◌else◌}

abbrev pub bit : Bool → ℕ
bit true = 1
bit false = 0

module _ {ℓ} {A : Type ℓ} where
  abbrev pub length : List A → ℕ
  length [] = 0
  length (x ∷ xs) = suc (length xs)

  -- SELECT count(*) ... WHERE p
  unfoldable pub count : (A → Bool) → List A → ℕ
  count p [] = 0
  count p (x ∷ xs) = bit (p x) + count p xs

  -- SELECT ... WHERE p, in the order of the table
  unfoldable pub select : (A → Bool) → List A → List A
  select p [] = []
  select p (x ∷ xs) = let rest = select p xs in if p x then x ∷ rest else rest

  -- The first row that satisfies p.
  unfoldable pub first : (A → Bool) → List A → Option A
  first p [] = none
  first p (x ∷ xs) = let rest = first p xs in if p x then some x else rest

  -- UPDATE ... WHERE p
  unfoldable pub update_where : (A → Bool) → (A → A) → List A → List A
  update_where p f [] = []
  update_where p f (x ∷ xs) = (if p x then f x else x) ∷ update_where p f xs

  unfoldable pub any : (A → Bool) → List A → Bool
  any p [] = false
  any p (x ∷ xs) = if p x then true else any p xs

  unfoldable pub all : (A → Bool) → List A → Bool
  all p [] = true
  all p (x ∷ xs) = if p x then all p xs else false

  -- The row with a primary key.
  unfoldable pub by_id : (A → ℕ) → ℕ → List A → Option A
  by_id key i [] = none
  by_id key i (x ∷ xs) = let rest = by_id key i xs in if key x == i then some x else rest

  -- The row with the key of `a` becomes `a`.
  unfoldable pub replace : (A → ℕ) → A → List A → List A
  replace key a [] = []
  replace key a (x ∷ xs) =
      let rest = replace key a xs in if key x == key a then a ∷ xs else x ∷ rest

  pub by_id-key : (key : A → ℕ) (i : ℕ) (xs : List A) (a : A) → by_id key i xs ≡ some a → key a ≡ i
  unfolding by_id
  by_id-key key i [] a h = cc
  by_id-key key i (x ∷ xs) a h = ground (arith, by_id-key key i xs a)

  -- Replacing a row moves a count by what the old and the new row count.
  pub count-replace :
      (key : A → ℕ) (p : A → Bool) (a old : A) (xs : List A)
      → by_id key (key a) xs ≡ some old
      → count p (replace key a xs) + bit (p old) ≡ count p xs + bit (p a)
  unfolding count replace by_id
  count-replace key p a old [] h = cc
  count-replace key p a old (x ∷ xs) h = ground (arith, count-replace key p a old xs)

  pub by_id-replace :
      (key : A → ℕ) (i : ℕ) (a old : A) (xs : List A)
      → by_id key (key a) xs ≡ some old
      → by_id key i (replace key a xs) ≡ (if key a == i then some a else by_id key i xs)
  unfolding replace by_id
  by_id-replace key i a old [] h = cc
  by_id-replace key i a old (x ∷ xs) h = ground (arith, by_id-replace key i a old xs)

  -- An update that takes every row out of a condition.
  pub count-update_where :
      (p q : A → Bool) (f : A → A) (rows : List A)
      → ((a : A) → q (if p a then f a else a) ≡ false)
      → count q (update_where p f rows) ≡ 0
  unfolding count update_where
  count-update_where p q f [] h = λ i. 0
  count-update_where p q f (a ∷ rows) h = rw (h a) (omega (arith, count-update_where p q f rows h))
