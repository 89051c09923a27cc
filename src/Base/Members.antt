-- ===== src/Base/Members.antt =====
-- Membership in lists: what holds of all members, and what `filter` and `some` do to it.
use mathlib.Core.Path.{◌≡◌, sym, subst}
use mathlib.Core.Bool.{Bool, true, false}
use mathlib.Core.Logic.{◌↔◌, inl, inr}
use mathlib.Core.Logic.Or
use mathlib.Core.List.{List, [], ◌∷◌, Mem, mem-cons, not-mem-nil, mem-cons_self, mem-cons_of_mem}
use native.Mathlib.Omega.{arith}
use tidybridge.Base.Tests.{Bool-cases}
use tidybridge.Base.Lists.{All, All-map_imp, All-keep, keep, keep-All, any}

pub All-Mem {ℓ} : {A : Type ℓ} (xs : List A) → All (λ (x : A). Mem x xs) xs
All-Mem [] = tt
All-Mem (x ∷ xs) = (
  mem-cons_self,
  All-map_imp (λ y. Mem y xs) (λ y. Mem y (x ∷ xs)) xs (λ y h. mem-cons_of_mem x h) (All-Mem xs),
)

-- What holds of all members holds of each.
pub All-at {ℓ κ} :
    {A : Type ℓ} (P : A → Type κ) (x : A) (xs : List A) → IsProp (P x) → All P xs → Mem x xs → P x
All-at P x [] prop h m = absurd (not-mem-nil m)
All-at P x (y ∷ ys) prop (p, h) m =
    Or.elim prop (mem-cons.0 m) (λ e. subst P (sym e) p) (λ k. All-at P x ys prop h k)

module _ {ℓ} {A : Type ℓ} (test : A → Bool) where
  keep-step : (x y : A) (xs : List A) → Mem y (keep test xs) → Mem y (keep test (x ∷ xs))
  keep-step x y xs m = elim (Bool-cases (test x)) [
    | inl passes ↦ rw passes (mem-cons_of_mem x m)
    | inr fails ↦ rw fails m
  ]

  keep-of_test : (xs : List A) → All (λ (x : A). (test x ≡ true) → Mem x (keep test xs)) xs
  keep-of_test [] = tt
  keep-of_test (x ∷ xs) = (
    λ passes. rw passes mem-cons_self,
    All-map_imp (λ y. (test y ≡ true) → Mem y (keep test xs))
        (λ y. (test y ≡ true) → Mem y (keep test (x ∷ xs))) xs (λ y h k. keep-step x y xs (h k))
        (keep-of_test xs),
  )

  -- What is kept are the members that pass the test.
  pub Mem-keep_iff : (x : A) (xs : List A) → Mem x (keep test xs) ↔ (Mem x xs × (test x ≡ true))
  Mem-keep_iff x xs = (
    λ m. (
      All-at (λ y. Mem y xs) x (keep test xs) (hlevel)
          (All-keep (λ y. Mem y xs) test xs (All-Mem xs)) m,
      All-at (λ y. test y ≡ true) x (keep test xs) (hlevel) (keep-All test xs) m,
    ),
    λ h.
        All-at (λ y. (test y ≡ true) → Mem y (keep test xs)) x xs (hlevel) (keep-of_test xs) h.0
          h.1,
  )

  none_of : (xs : List A) → any test xs ≡ false → All (λ (x : A). test x ≡ false) xs
  none_of [] h = tt
  none_of (x ∷ xs) h = (ground arith, none_of xs (ground arith))

  pub any-of_Mem : (x : A) (xs : List A) → Mem x xs → test x ≡ true → any test xs ≡ true
  any-of_Mem x xs m passes = elim (Bool-cases (any test xs)) [
    | inl found ↦ found
    | inr missing ↦
        let failed : test x ≡ false =
          All-at (λ y. test y ≡ false) x xs (hlevel) (none_of xs missing) m in
        cc
  ]

  pub Mem-of_any : (xs : List A) → any test xs ≡ true → (x : A) × Mem x xs × (test x ≡ true)
  Mem-of_any [] h = cc
  Mem-of_any (x ∷ xs) h = elim (Bool-cases (test x)) [
    | inl passes ↦ (x, mem-cons_self, passes)
    | inr fails ↦
        let (y, there, passes) = Mem-of_any xs (ground arith) in
        (y, mem-cons_of_mem x there, passes)
  ]
