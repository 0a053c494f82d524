-- ===== src/Stream/Decimal.antt =====
-- The digits that `<<` writes for an unsigned number.
use queryperfpp.Base.{
  ℕ, zero, suc, ◌+◌, ◌*◌, ◌-◌, ◌/◌, ◌%◌, ◌<◌, ◌≡◌, ap, ◌∙◌, [], ◌∷◌, Text, arith, ltb,
  if◌then◌else◌, if_both,
}

-- The digits of `n` before the ones that are written. Every round takes a digit off.
unfoldable pub decimal_on : ℕ → ℕ → Text → Text
decimal_on zero n text = text
decimal_on (suc fuel) n text =
    let rest = decimal_on fuel (n / 10) ((48 + n % 10) ∷ text) in
    if ltb n 10 then (48 + n) ∷ text else rest

unfoldable pub decimal : ℕ → Text
unfolding decimal_on
decimal n = decimal_on (suc n) n []

-- The number that digits say, behind a number already read.
abbrev pub value_on : ℕ → Text → ℕ
value_on v [] = v
value_on v (c ∷ text) = value_on (v * 10 + (c - 48)) text

decimal_on-value :
    (fuel n : ℕ) (text : Text) → n < fuel → value_on 0 (decimal_on fuel n text) ≡ value_on n text
unfolding decimal_on
decimal_on-value zero n text h = elim h [ ]
decimal_on-value (suc fuel) n text h =
    if_both (λ (t : Text). value_on 0 t ≡ value_on n text) (ltb n 10)
      (λ _. ap (λ (v : ℕ). value_on v text) (omega arith))
      λ large.
        decimal_on-value fuel (n / 10) ((48 + n % 10) ∷ text) (ground arith)
        ∙ ap (λ (v : ℕ). value_on v text) (omega arith)

-- The digits of a number say it.
pub value_on-decimal : (n : ℕ) → value_on 0 (decimal n) ≡ n
unfolding decimal
value_on-decimal n = decimal_on-value (suc n) n [] (omega arith)
