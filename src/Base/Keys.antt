-- ===== src/Base/Keys.antt =====
-- Strings that are only compared: field names, permissions, entity names. An object is the list of
-- its entries, in the order in which they were set.
use text.Mathlib.Text.{◌==◌ as str_eq}
use Prim.Native.String.{String}
use dukaano.Base.{
  Bool, List, Option, [], arith, false, if◌then◌else◌, none, refl, some, ◌||◌, ◌∷◌, ◌≡◌,
}
use text.Mathlib.TextEquality.{eq_iff}

abbrev pub eq_str : String → String → Bool
eq_str s t = str_eq s t

-- `xs.includes(x)`
unfoldable pub includes : List String → String → Bool
includes [] x = false
includes (y ∷ ys) x = eq_str y x || includes ys x

module _ {ℓ} {V : Type ℓ} where
  unfoldable pub lookup : String → List (String × V) → Option V
  lookup k [] = none
  lookup k ((j, v) ∷ m) = if eq_str j k then some v else lookup k m

  -- `object[k] = v`
  unfoldable pub put : String → V → List (String × V) → List (String × V)
  put k v [] = (k, v) ∷ []
  put k v ((j, w) ∷ m) = if eq_str j k then (k, v) ∷ m else (j, w) ∷ put k v m

  pub lookup-put :
      (k f : String) (v : V) (m : List (String × V))
      → lookup f (put k v m) ≡ (if eq_str k f then some v else lookup f m)
  unfolding lookup put
  lookup-put k f v [] = refl
  lookup-put k f v ((i, w) ∷ m) =
      ground (arith, eq_iff k f, eq_iff i k, eq_iff i f, lookup-put k f v m)

  -- No two entries have the same key.
  abbrev pub KeysDistinct : List (String × V) → Type ℓ
  KeysDistinct [] = Unit
  KeysDistinct ((k, v) ∷ m) = (lookup k m ≡ none) × KeysDistinct m
