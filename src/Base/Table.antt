-- ===== src/Base/Table.antt =====
-- Rows of a table as a list: the first row that meets a test (`SELECT … fetchone()`, a `dict`'s
-- `get`), and a change of all rows that meet one (`UPDATE … WHERE`).
use mathlib.Core.Path.{◌≡◌, refl}
use mathlib.Core.Bool.{Bool, true}
use mathlib.Core.Option.{Option, none, some}
use mathlib.Core.List.{List, [], ◌∷◌, ◌++◌}
use native.Mathlib.Omega.{arith}
use candle_mind.Base.Tests.{if◌then◌else◌, or_else}

module _ {ℓ} {A : Type ℓ} where
  unfoldable pub find : (A → Bool) → List A → Option A
  find p [] = none
  find p (x ∷ xs) = if p x then some x else find p xs

  abbrev pub change : (A → Bool) → (A → A) → A → A
  change p f x = if p x then f x else x

  unfoldable pub update_where : (A → Bool) → (A → A) → List A → List A
  update_where p f [] = []
  update_where p f (x ∷ xs) = change p f x ∷ update_where p f xs

  unfoldable pub select : (A → Bool) → List A → List A
  select p [] = []
  select p (x ∷ xs) = let rest = select p xs in if p x then x ∷ rest else rest

  abbrev pub opt_change : (A → Bool) → (A → A) → Option A → Option A
  opt_change p f none = none
  opt_change p f (some x) = some (change p f x)

  pub find_sound : (p : A → Bool) (xs : List A) {x : A} → find p xs ≡ some x → p x ≡ true
  unfolding find
  find_sound p [] h = cc
  find_sound p (y ∷ xs) {x} h = ground (arith, find_sound p xs {x = x})

  -- A change that keeps the key commutes with the lookup by that key.
  pub find-update_where :
      (p q : A → Bool) (f : A → A) (xs : List A)
      → ((x : A) → p (change q f x) ≡ p x)
      → find p (update_where q f xs) ≡ opt_change q f (find p xs)
  unfolding find update_where
  find-update_where p q f [] same = refl
  find-update_where p q f (x ∷ xs) same = ground (arith, same x, find-update_where p q f xs same)

  pub find-append :
      (p : A → Bool) (xs : List A) (x : A)
      → find p (xs ++ x ∷ []) ≡ or_else (find p xs) (if p x then some x else none)
  unfolding find
  find-append p [] x = refl
  find-append p (y ∷ xs) x = ground (arith, find-append p xs x)
