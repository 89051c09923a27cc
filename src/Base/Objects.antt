-- ===== src/Base/Objects.antt =====
-- JavaScript objects and Maps with string keys, as association lists in insertion order.
use mathlib.Core.Path.{◌≡◌, refl}
use mathlib.Core.Option.{Option, none, some}
use mathlib.Core.List.{List, [], ◌∷◌}
use native.Mathlib.Omega.{arith}
use tidybridge.Base.Tests.{if◌then◌else◌}
use tidybridge.Base.Strings.{Str, str_eq, str_eq_iff}

-- a ?? b
abbrev pub or_else {ℓ} : {A : Type ℓ} → Option A → A → A
or_else none d = d
or_else (some a) d = a

module _ {ℓ} {V : Type ℓ} where
  -- object[key], map.get(key)
  unfoldable pub lookup : Str → List (Str × V) → Option V
  lookup key [] = none
  lookup key ((k, v) ∷ rest) = if str_eq k key then some v else lookup key rest

  -- object[key] = value, map.set(key, value): a key that is there keeps its place.
  unfoldable pub insert : Str → V → List (Str × V) → List (Str × V)
  insert key v [] = (key, v) ∷ []
  insert key v ((k, w) ∷ rest) = if str_eq k key then (k, v) ∷ rest else (k, w) ∷ insert key v rest

  -- delete object[key]
  unfoldable pub remove : Str → List (Str × V) → List (Str × V)
  remove key [] = []
  remove key ((k, v) ∷ rest) = if str_eq k key then remove key rest else (k, v) ∷ remove key rest

  pub lookup-insert :
      (k j : Str) (v : V) (m : List (Str × V))
      → lookup j (insert k v m) ≡ (if str_eq k j then some v else lookup j m)
  unfolding lookup insert
  lookup-insert k j v [] = refl
  lookup-insert k j v ((i, w) ∷ m) =
      ground (arith, str_eq_iff k j, str_eq_iff i k, str_eq_iff i j, lookup-insert k j v m)

  pub lookup-remove :
      (k j : Str) (m : List (Str × V))
      → lookup j (remove k m) ≡ (if str_eq k j then none else lookup j m)
  unfolding lookup remove
  lookup-remove k j [] = ground arith
  lookup-remove k j ((i, w) ∷ m) =
      ground (arith, str_eq_iff k j, str_eq_iff i k, str_eq_iff i j, lookup-remove k j m)
