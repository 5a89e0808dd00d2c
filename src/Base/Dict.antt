-- ===== src/Base/Dict.antt =====
-- A `dict` with string keys, or a directory of files: the first entry of a key counts.
use candle_mind.Base.{
  refl, inr, inl, Bool-cases, some, arith, [], if◌then◌else◌, none, Option, ◌≡◌, ◌∷◌, List,
}
use candle_mind.Base.Text.{text_eq_refl, text_eq_sound, Text, text_eq}

pub record Entry {ℓ} (A : Type ℓ) : Type ℓ where
  pub key : Text
  pub value : A

module _ {ℓ} {A : Type ℓ} where
  unfoldable pub lookup : Text → List (Entry A) → Option A
  lookup k [] = none
  lookup k (e ∷ d) = if text_eq e.key k then some e.value else lookup k d

  -- `d[k] = v`
  unfoldable pub put : Text → A → List (Entry A) → List (Entry A)
  put k v [] = record { key = k; value = v } ∷ []
  put k v (e ∷ d) =
      let rest = put k v d in if text_eq e.key k then record e { value = v } ∷ d else e ∷ rest

  -- `del d[k]`
  unfoldable pub remove : Text → List (Entry A) → List (Entry A)
  remove k [] = []
  remove k (e ∷ d) = let rest = remove k d in if text_eq e.key k then rest else e ∷ rest

  pub lookup-put :
      (k n : Text) (v : A) (d : List (Entry A))
      → lookup k (put n v d) ≡ (if text_eq n k then some v else lookup k d)
  unfolding lookup put
  lookup-put k n v [] = refl
  lookup-put k n v (e ∷ d) = elim (Bool-cases (text_eq e.key n)) [
    | inl same ↦ rw (same, text_eq_sound e.key n same) (ground arith)
    | inr other ↦ rw other (
        ground
          (arith, lookup-put k n v d, text_eq_sound e.key k, text_eq_sound n k, text_eq_refl k))
  ]

  pub lookup-remove :
      (k n : Text) (d : List (Entry A))
      → lookup k (remove n d) ≡ (if text_eq n k then none else lookup k d)
  unfolding lookup remove
  lookup-remove k n [] = ground arith
  lookup-remove k n (e ∷ d) = elim (Bool-cases (text_eq e.key n)) [
    | inl same ↦ rw same (ground (arith, lookup-remove k n d, text_eq_sound e.key n))
    | inr other ↦ rw other (
        ground
          (arith, lookup-remove k n d, text_eq_sound e.key k, text_eq_sound n k, text_eq_refl k))
  ]
