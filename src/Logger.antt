-- ===== src/Logger.antt =====
-- src/logger.cpp and include/logger.hpp: the threshold, the level letters, and where a message
-- goes. A stream is the list of bytes written to it; `localtime` gives the broken-down time.
pub mod Threshold
pub mod Stamp
pub mod Routing
use grind.Prelude.{
  ℕ, zero, suc, ◌+◌, ◌-◌, ◌≡◌, Bool, true, false, List, [], ◌∷◌, ◌++◌, Bytes, lit, length,
  replicate, ltb, ◌==◌, if◌then◌else◌,
}
use grind.Utility.{to_decimal}

-- `static char levels[]`.
abbrev pub levels : Bytes
levels = lit "DINWEAC"

-- The loop of `log`: it stops at the threshold, or at the message's level.
unfoldable pub scan_levels : Bytes → ℕ → ℕ → Bool
scan_levels [] threshold lvl = false
scan_levels (x ∷ xs) threshold lvl =
    let rest = scan_levels xs threshold lvl in
    if x == threshold then true else if x == lvl then false else rest

unfoldable pub is_enabled : (threshold lvl : ℕ) → Bool
unfolding scan_levels
is_enabled threshold lvl = scan_levels levels threshold lvl

-- `struct tm`, in the fields that are printed; `tm_mon` counts from 0 and `tm_year` from 1900.
pub record Tm : Type 0 where
  pub tm_sec : ℕ
  pub tm_min : ℕ
  pub tm_hour : ℕ
  pub tm_mday : ℕ
  pub tm_mon : ℕ
  pub tm_year : ℕ

-- `<< std::setw(w) << std::setfill('0') << n`.
padded : ℕ → ℕ → Bytes
padded w n = let s = to_decimal n in replicate (w - length s) b'0' ++ s

unfoldable pub timestamp : Tm → Bytes
unfolding padded to_decimal
timestamp t =
    padded 2 t.tm_mon
    ++ b'-' ∷ padded 2 t.tm_mday
    ++ b'-' ∷ padded 4 (t.tm_year + 1900)
    ++ b' ' ∷ padded 2 t.tm_hour
    ++ b':' ∷ padded 2 t.tm_min
    ++ b':' ∷ padded 2 t.tm_sec
    ++ b' ' ∷ []

-- `std::cout` and the static `sink`.
pub record Streams : Type 0 where
  pub cout : Bytes
  pub sink : Bytes

header : Tm → ℕ → Bytes → Bytes
header t lvl context = timestamp t ++ b'[' ∷ lvl ∷ b']' ∷ b' ' ∷ (context ++ lit ": ")

-- `log(lvl) << message`.
unfoldable pub log :
    (threshold : ℕ) → Tm → (lvl : ℕ) → (context message : Bytes) → Streams → Streams
unfolding header
log threshold t lvl context message s =
    if is_enabled threshold lvl
    then record s { cout = s.cout ++ (header t lvl context ++ message) }
    else record s { sink = s.sink ++ message }

-- The public methods, one for each letter.
pub data Level : Type 0 where
  debug info notice warn error alert crit : Level

abbrev pub letter : Level → ℕ
letter debug = b'D'
letter info = b'I'
letter notice = b'N'
letter warn = b'W'
letter error = b'E'
letter alert = b'A'
letter crit = b'C'
