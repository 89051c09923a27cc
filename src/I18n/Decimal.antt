-- ===== src/I18n/Decimal.antt =====
-- lib/i18n.ts: the decimal text of a number, as String(n) writes it.
use tidybridge.Base.{
  ap, ℕ, zero, suc, ◌+◌, ◌-◌, ◌*◌, ◌/◌, ◌%◌, ◌<◌, ◌≡◌, Str, [], ◌∷◌, arith, ◌==◌, Bool-cases, inl,
  inr,
}
use tidybridge.I18n.{decimal, decimal_from}

-- The number that digits stand for, read on from `acc`.
unfoldable pub value : Str → ℕ → ℕ
value [] acc = acc
value (c ∷ s) acc = value s (acc * 10 + (c - 48))

value-decimal_from :
    (fuel n : ℕ) (out : Str) → n < fuel → value (decimal_from fuel n out) 0 ≡ value out n
unfolding decimal_from value
value-decimal_from zero n out h = absurd (omega arith)
value-decimal_from (suc fuel) n out h = elim (Bool-cases (n / 10 == 0)) [
  | inl last ↦ let e : 0 + (48 + n % 10 - 48) ≡ n = ground arith in rw last (ap (value out) e)
  | inr more ↦
      let e : n / 10 * 10 + (48 + n % 10 - 48) ≡ n = omega arith in
      rw (more, value-decimal_from fuel (n / 10) ((48 + n % 10) ∷ out) (ground arith), e)
]

-- The text of a number stands for it.
pub value-decimal : (n : ℕ) → value (decimal n) 0 ≡ n
unfolding decimal value
value-decimal n = value-decimal_from (suc n) n [] (omega arith)
