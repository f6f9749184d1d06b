-- ===== src/Prelude/Lists.antt =====
-- Tables as lists of rows: SELECT, the first row that fits, and UPDATE … WHERE.
use Prim.Native.Nat.{ℕ, zero, suc}
use mathlib.Core.Path.{◌≡◌, refl}
use mathlib.Core.Bool.{Bool, true, false, ◌||◌}
use mathlib.Core.Option
use mathlib.Core.Option.{Option, none, some}
use mathlib.Core.List.{List, [], ◌∷◌, ◌++◌}
use native.Mathlib.Omega.{arith}
use veyaan_core_backend.Prelude.Tests.{if◌then◌else◌}

module _ {ℓ} {A : Type ℓ} where
  -- SELECT … WHERE p, in the order of the table.
  unfoldable pub select : (A → Bool) → List A → List A
  select p [] = []
  select p (x ∷ xs) = let rest = select p xs in if p x then x ∷ rest else rest

  -- `scalar_one_or_none` of a query that a unique column decides.
  unfoldable pub find? : (A → Bool) → List A → Option A
  find? p [] = none
  find? p (x ∷ xs) = if p x then some x else find? p xs

  -- UPDATE … WHERE p.
  unfoldable pub update : (A → Bool) → (A → A) → List A → List A
  update p f [] = []
  update p f (x ∷ xs) = (if p x then f x else x) ∷ update p f xs

  unfoldable pub any : (A → Bool) → List A → Bool
  any p [] = false
  any p (x ∷ xs) = p x || any p xs

  -- LIMIT n.
  unfoldable pub take : ℕ → List A → List A
  take zero xs = []
  take (suc n) [] = []
  take (suc n) (x ∷ xs) = x ∷ take n xs

  abbrev pub length : List A → ℕ
  length [] = 0
  length (x ∷ xs) = suc (length xs)

  -- A written row is found again, as it was written, where the write keeps the test.
  pub find?-update_self :
      (p : A → Bool) (f : A → A) (xs : List A)
      → ((x : A) → p (f x) ≡ p x)
      → find? p (update p f xs) ≡ Option.map f (find? p xs)
  unfolding find? update
  find?-update_self p f [] keep = refl
  find?-update_self p f (x ∷ xs) keep = ground (arith, keep x, find?-update_self p f xs keep)

  -- A write to rows that the test does not find is not seen.
  pub find?-update_other :
      (p q : A → Bool) (f : A → A) (xs : List A)
      → ((x : A) → p (f x) ≡ p x)
      → ((x : A) → p x ≡ true → q x ≡ false)
      → find? p (update q f xs) ≡ find? p xs
  unfolding find? update
  find?-update_other p q f [] keep apart = refl
  find?-update_other p q f (x ∷ xs) keep apart =
      ground (arith, keep x, apart x, find?-update_other p q f xs keep apart)

  pub find?-append_none :
      (p : A → Bool) (xs ys : List A) → find? p xs ≡ none → find? p (xs ++ ys) ≡ find? p ys
  unfolding find?
  find?-append_none p [] ys h = refl
  find?-append_none p (x ∷ xs) ys h = ground (arith, find?-append_none p xs ys)

  pub find?-append_some :
      (p : A → Bool) (xs ys : List A) (a : A) → find? p xs ≡ some a → find? p (xs ++ ys) ≡ some a
  unfolding find?
  find?-append_some p [] ys a h = ground arith
  find?-append_some p (x ∷ xs) ys a h = ground (arith, find?-append_some p xs ys a)

  pub find?-append_miss :
      (p : A → Bool) (xs : List A) (x : A) → p x ≡ false → find? p (xs ++ x ∷ []) ≡ find? p xs
  unfolding find?
  find?-append_miss p [] x h = ground arith
  find?-append_miss p (y ∷ xs) x h = ground (arith, find?-append_miss p xs x h)

  -- What is found passes the test.
  pub find?-fits : (p : A → Bool) (xs : List A) (a : A) → find? p xs ≡ some a → p a ≡ true
  unfolding find?
  find?-fits p [] a h = ground arith
  find?-fits p (x ∷ xs) a h = ground (arith, find?-fits p xs a)

  -- A new row at the end of the table.
  pub select-append_kept :
      (p : A → Bool) (xs : List A) (x : A)
      → p x ≡ true
      → select p (xs ++ x ∷ []) ≡ select p xs ++ x ∷ []
  unfolding select
  select-append_kept p [] x h = ground arith
  select-append_kept p (y ∷ xs) x h = ground (arith, select-append_kept p xs x h)

  pub select-append_dropped :
      (p : A → Bool) (xs : List A) (x : A) → p x ≡ false → select p (xs ++ x ∷ []) ≡ select p xs
  unfolding select
  select-append_dropped p [] x h = ground arith
  select-append_dropped p (y ∷ xs) x h = ground (arith, select-append_dropped p xs x h)
