-- ===== src/Utility.antt =====
-- include/utility.hpp: conversions to and from text, and paddings, with the decimal output of a
-- stream for an integer.
pub mod Padding
pub mod Digits
use grind.Prelude.{
  ℕ, zero, suc, ℤ, pos, negsuc, ◌+◌, ◌-◌, ◌*◌, ◌/◌, ◌%◌, ◌<◌, ◌≤◌, ◌≡◌, refl, ap, ◌∙◌, Bool, true,
  false, inl, inr, List, [], ◌∷◌, ◌++◌, Bytes, lit, length, replicate, length-append,
  length-replicate, ltb, leb, Option, none, some, ◌&&◌, if◌then◌else◌, Bool-cases, arith,
}
use mathlib.Core.List.{append-nil, append_assoc}

-- The digits of `n` before those of `acc`; each round divides by ten, so `n + 1` rounds are enough.
decimal_loop : ℕ → ℕ → Bytes → Bytes
decimal_loop zero n acc = acc
decimal_loop (suc f) n acc =
    let rest = decimal_loop f (n / 10) ((48 + n % 10) ∷ acc) in
    if ltb n 10 then (48 + n) ∷ acc else rest

-- `std::ostringstream << n`.
unfoldable pub to_decimal : ℕ → Bytes
unfolding decimal_loop
to_decimal n = decimal_loop (suc n) n []

-- The same for an `int`.
unfoldable pub int_to_decimal : ℤ → Bytes
unfolding to_decimal
int_to_decimal (pos n) = to_decimal n
int_to_decimal (negsuc n) = b'-' ∷ to_decimal (suc n)

-- `stringify(bool)`.
unfoldable pub stringify_bool : Bool → Bytes
stringify_bool true = lit "true"
stringify_bool false = lit "false"

-- A converted value, or the exception `bad_conversion` with its text.
pub data Conversion {ℓ} (T : Type ℓ) : Type ℓ where
  converted : T → Conversion T
  bad_conversion : Bytes → Conversion T

-- `_buffer.get(c)`, as a test.
abbrev pub leftover : Bytes → Bool
leftover [] = false
leftover (c ∷ s) = true

-- `convert`. The stream's `>>` for the type is a parameter: it gives the value and the characters
-- that it leaves, or fails.
unfoldable pub convert {ℓ} :
    {T : Type ℓ}
    → (extract : Bytes → Option (T × Bytes)) (in_string : Bytes) (fail_if_leftover_chars : Bool)
    → Conversion T
convert extract in_string fail_if_leftover_chars = elim (extract in_string) [
  | none ↦ bad_conversion in_string
  | some (value, left) ↦
      if fail_if_leftover_chars && leftover left then bad_conversion in_string else converted value
]

-- `convertTo`.
unfoldable pub convert_to {ℓ} :
    {T : Type ℓ}
    → (extract : Bytes → Option (T × Bytes)) (in_string : Bytes) (fail_if_leftover_chars : Bool)
    → Conversion T
unfolding convert
convert_to extract in_string fail_if_leftover_chars =
    convert extract in_string fail_if_leftover_chars

-- `while (out.size() < size) out.push_back(fill);`, with fuel.
expand_loop : ℕ → Bytes → ℕ → ℕ → Bytes
expand_loop zero out size fill = out
expand_loop (suc f) out size fill =
    let rest = expand_loop f (out ++ fill ∷ []) size fill in
    if ltb (length out) size then rest else out

-- `size` rounds are enough: each one adds a character.
unfoldable pub expand : Bytes → ℕ → ℕ → Bytes
unfolding expand_loop
expand s size fill = if leb size (length s) then s else expand_loop size s size fill
