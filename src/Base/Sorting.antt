-- ===== src/Base/Sorting.antt =====
-- Array.prototype.sort: stable, by a comparator. `le a b` is `compare(a, b) <= 0`.
use mathlib.Core.Path.{◌≡◌, refl, ◌∙◌, ap}
use mathlib.Core.Bool.{Bool, true, false}
use mathlib.Core.Logic.{inl, inr}
use mathlib.Core.List.{List, [], ◌∷◌, Perm}
use mathlib.Core.List.Perm
use native.Mathlib.Omega.{arith}
use tidybridge.Base.Tests.{if◌then◌else◌, Bool-cases}
use tidybridge.Base.Lists.{All, keep, length}

module _ {ℓ} {A : Type ℓ} (le : A → A → Bool) where
  unfoldable pub insert_by : A → List A → List A
  insert_by x [] = x ∷ []
  insert_by x (y ∷ ys) = if le x y then x ∷ y ∷ ys else y ∷ insert_by x ys

  unfoldable pub sort_by : List A → List A
  unfolding insert_by
  sort_by [] = []
  sort_by (x ∷ xs) = insert_by x (sort_by xs)

  abbrev pub IsSorted : List A → Type 0
  IsSorted [] = Unit
  IsSorted (x ∷ xs) = All (λ y. le x y ≡ true) xs × IsSorted xs

  insert_by-perm : (x : A) (ys : List A) → Perm (insert_by x ys) (x ∷ ys)
  unfolding insert_by
  insert_by-perm x [] = Perm.refl (x ∷ [])
  insert_by-perm x (y ∷ ys) = elim (Bool-cases (le x y)) [
    | inl e ↦ rw e (Perm.refl (x ∷ y ∷ ys))
    | inr e ↦ rw e (Perm.trans (Perm.cons y (insert_by-perm x ys)) (Perm.swap x y ys))
  ]

  pub sort_by-perm : (xs : List A) → Perm (sort_by xs) xs
  unfolding sort_by
  sort_by-perm [] = Perm.refl []
  sort_by-perm (x ∷ xs) = Perm.trans (insert_by-perm x (sort_by xs)) (Perm.cons x (sort_by-perm xs))

  length-insert_by : (x : A) (ys : List A) → length (insert_by x ys) ≡ length (x ∷ ys)
  unfolding insert_by
  length-insert_by x [] = refl
  length-insert_by x (y ∷ ys) = elim (Bool-cases (le x y)) [
    | inl e ↦ rw e refl
    | inr e ↦ rw e (omega (arith, length-insert_by x ys))
  ]

  pub length-sort_by : (xs : List A) → length (sort_by xs) ≡ length xs
  unfolding sort_by
  length-sort_by [] = refl
  length-sort_by (x ∷ xs) = omega (arith, length-insert_by x (sort_by xs), length-sort_by xs)

  insert_by-All {κ} :
      (P : A → Type κ) (x : A) (ys : List A) → P x → All P ys → All P (insert_by x ys)
  unfolding insert_by
  insert_by-All P x [] p h = (p, tt)
  insert_by-All P x (y ∷ ys) p h = elim (Bool-cases (le x y)) [
    | inl e ↦ rw e (p, h)
    | inr e ↦ rw e (h.0, insert_by-All P x ys p h.1)
  ]

  pub sort_by-All {κ} : (P : A → Type κ) (xs : List A) → All P xs → All P (sort_by xs)
  unfolding sort_by
  sort_by-All P [] h = tt
  sort_by-All P (x ∷ xs) (p, h) = insert_by-All P x (sort_by xs) p (sort_by-All P xs h)

  -- Elements that compare as equal keep their order.
  insert_by-stable :
      (test : A → Bool) (x : A) (ys : List A)
      → ((y : A) → test x ≡ true → test y ≡ true → le x y ≡ true)
      → keep test (insert_by x ys) ≡ keep test (x ∷ ys)
  unfolding insert_by
  insert_by-stable test x [] h = refl
  insert_by-stable test x (y ∷ ys) h = ground (arith, insert_by-stable test x ys h, h y)

  pub sort_by-stable :
      (test : A → Bool) (xs : List A)
      → ((x y : A) → test x ≡ true → test y ≡ true → le x y ≡ true)
      → keep test (sort_by xs) ≡ keep test xs
  unfolding sort_by
  sort_by-stable test [] h = refl
  sort_by-stable test (x ∷ xs) h =
      insert_by-stable test x (sort_by xs) (h x)
      ∙ ap (λ ys. if test x then x ∷ ys else ys) (sort_by-stable test xs h)

module _ {ℓ κ} {A : Type ℓ} (le : A → A → Bool) (P : A → Type κ)
    (total : (x y : A) → P x → P y → le x y ≡ false → le y x ≡ true)
    (transitive : (x y z : A)
      → P x
      → P y
      → P z
      → le x y ≡ true
      → le y z ≡ true
      → le x z ≡ true) where
  All-le :
      (x y : A) (zs : List A)
      → P x
      → P y
      → All P zs
      → le x y ≡ true
      → All (λ z. le y z ≡ true) zs
      → All (λ z. le x z ≡ true) zs
  All-le x y [] px py ps e h = tt
  All-le x y (z ∷ zs) px py (pz, ps) e (f, h) =
      (transitive x y z px py pz e f, All-le x y zs px py ps e h)

  insert_by-IsSorted :
      (x : A) (ys : List A) → P x → All P ys → IsSorted le ys → IsSorted le (insert_by le x ys)
  unfolding insert_by
  insert_by-IsSorted x [] px ps s = (tt, tt)
  insert_by-IsSorted x (y ∷ ys) px (py, ps) (h, s) = elim (Bool-cases (le x y)) [
    | inl e ↦ rw e ((e, All-le x y ys px py ps e h), (h, s))
    | inr e ↦ rw e (
      insert_by-All le (λ z. le y z ≡ true) x ys (total x y px py e) h,
      insert_by-IsSorted x ys px ps s,
    )
  ]

  -- Where the comparator is a total preorder on the elements, the result is in order.
  pub sort_by-IsSorted : (xs : List A) → All P xs → IsSorted le (sort_by le xs)
  unfolding sort_by
  sort_by-IsSorted [] h = tt
  sort_by-IsSorted (x ∷ xs) (p, h) =
      insert_by-IsSorted x (sort_by le xs) p (sort_by-All le P xs h) (sort_by-IsSorted xs h)
