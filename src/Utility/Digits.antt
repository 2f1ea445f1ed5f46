-- ===== src/Utility/Digits.antt =====
-- Decimal output, read back.
use grind.Prelude.{ℕ, zero, suc, ◌+◌, ◌/◌, ◌%◌, ◌≤◌, ◌<◌, ◌≡◌, ◌∙◌, [], ◌∷◌, Bytes, arith}
use grind.Utility.{decimal_loop, to_decimal}

-- Below ten there is one digit.
pub to_decimal-digit : (n : ℕ) → n < 10 → to_decimal n ≡ (48 + n) ∷ []
unfolding to_decimal
to_decimal-digit n h = ground arith

-- Between ten and ninety-nine there are two.
pub to_decimal-two : (n : ℕ) → 10 ≤ n → n < 100 → to_decimal n ≡ (48 + n / 10) ∷ (48 + n % 10) ∷ []
unfolding to_decimal
to_decimal-two zero h k = elim h [ ]
to_decimal-two (suc n) h k = ground arith

decimal_loop-step :
    (f n : ℕ) (acc : Bytes)
    → 10 ≤ n
    → decimal_loop (suc f) n acc ≡ decimal_loop f (n / 10) ((48 + n % 10) ∷ acc)
unfolding decimal_loop
decimal_loop-step f n acc h = ground arith

decimal_loop-digit : (f n : ℕ) (acc : Bytes) → n < 10 → decimal_loop (suc f) n acc ≡ (48 + n) ∷ acc
unfolding decimal_loop
decimal_loop-digit f n acc h = ground arith

-- Between a thousand and 9999 there are four.
pub to_decimal-four :
    (n : ℕ)
    → 1000 ≤ n
    → n < 10000
    → to_decimal n ≡ (48 + n / 1000) ∷ (48 + n / 100 % 10) ∷ (48 + n / 10 % 10) ∷ (48 + n % 10) ∷ []
unfolding to_decimal
to_decimal-four zero h k = elim h [ ]
to_decimal-four (suc zero) h k = absurd (omega arith)
to_decimal-four (suc (suc zero)) h k = absurd (omega arith)
to_decimal-four (suc (suc (suc m))) h k =
    let n = suc (suc (suc m)) in
    decimal_loop-step n n [] (omega arith)
    ∙ decimal_loop-step (suc (suc m)) (n / 10) _ (omega arith)
    ∙ decimal_loop-step (suc m) (n / 10 / 10) _ (omega arith)
    ∙ decimal_loop-digit m (n / 10 / 10 / 10) _ (omega arith)
    ∙ ground arith
