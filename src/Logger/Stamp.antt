-- ===== src/Logger/Stamp.antt =====
-- The time stamp of src/logger.cpp.
use grind.Prelude.{
  ℕ, ◌+◌, ◌/◌, ◌%◌, ◌≤◌, ◌<◌, ◌≡◌, inl, inr, Bool-cases, [], ◌∷◌, ◌++◌, Bytes, ltb, arith,
}
use grind.Utility.Digits.{to_decimal-digit, to_decimal-two, to_decimal-four}
use grind.Logger.{Tm, padded, timestamp}

-- Two digits.
abbrev pub two : ℕ → Bytes
two n = (48 + n / 10) ∷ (48 + n % 10) ∷ []

padded-two : (n : ℕ) → n < 100 → padded 2 n ≡ two n
unfolding padded
padded-two n h = elim (Bool-cases (ltb n 10)) [
  | inl small ↦ rw (to_decimal-digit n (ground arith)) (ground arith)
  | inr large ↦ rw (to_decimal-two n (ground arith) h)
]

-- Four digits.
abbrev pub four : ℕ → Bytes
four n = (48 + n / 1000) ∷ (48 + n / 100 % 10) ∷ (48 + n / 10 % 10) ∷ (48 + n % 10) ∷ []

padded-four : (n : ℕ) → 1000 ≤ n → n < 10000 → padded 4 n ≡ four n
unfolding padded
padded-four n h k = rw (to_decimal-four n h k)

-- The fields lie in the ranges that `localtime` gives, in a year of four digits.
pub record InRange (t : Tm) : Type 0 where
  pub sec : t.tm_sec ≤ 60
  pub min : t.tm_min < 60
  pub hour : t.tm_hour < 24
  pub mday : t.tm_mday ≤ 31
  pub mon : t.tm_mon < 12
  pub year : t.tm_year + 1900 < 10000

-- A stamp has twenty characters: the month counted from 0 (so January is `00`), the day, the year
-- and the time, in fields of fixed width.
pub timestamp-fields :
    (t : Tm)
    → InRange t
    → timestamp t
      ≡ two t.tm_mon
        ++ b'-' ∷ two t.tm_mday
        ++ b'-' ∷ four (t.tm_year + 1900)
        ++ b' ' ∷ two t.tm_hour
        ++ b':' ∷ two t.tm_min
        ++ b':' ∷ two t.tm_sec
        ++ b' ' ∷ []
unfolding timestamp
timestamp-fields t r = rw (
  padded-two t.tm_mon (omega arith),
  padded-two t.tm_mday (omega arith),
  padded-four (t.tm_year + 1900) (omega arith) r.year,
  padded-two t.tm_hour (omega arith),
  padded-two t.tm_min (omega arith),
  padded-two t.tm_sec (omega arith),
)
