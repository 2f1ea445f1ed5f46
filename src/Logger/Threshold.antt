-- ===== src/Logger/Threshold.antt =====
-- Which messages of src/logger.cpp pass the threshold.
use grind.Prelude.{ℕ, ◌≤◌, ◌≡◌, ◌↔◌, true, arith, ◌==◌, if◌then◌else◌}
use grind.Logger.{Level, debug, info, notice, warn, error, alert, crit, letter, is_enabled}

-- How severe a level is.
abbrev pub severity : Level → ℕ
severity debug = 0
severity info = 1
severity notice = 2
severity warn = 3
severity error = 4
severity alert = 5
severity crit = 6

-- Some level has the threshold's letter and is at most as severe.
abbrev pub Reaches : ℕ → Level → Type 0
Reaches threshold l = (a : Level) × (threshold ≡ letter a) × (severity a ≤ severity l)

-- The level that a letter names; the last branch also stands for the letters of no level.
level_of : ℕ → Level
level_of t =
    if t == b'D'
    then debug
    else if t == b'I'
    then info
    else if t == b'N'
    then notice
    else if t == b'W'
    then warn
    else if t == b'E'
    then error
    else if t == b'A'
    then alert
    else crit

Reaches-is_enabled : (t : ℕ) (l : Level) → is_enabled t (letter l) ≡ true → Reaches t l
unfolding is_enabled level_of
Reaches-is_enabled t l h = (level_of t, ground arith, ground arith)

enabled_of_reaches :
    (t : ℕ) (l a : Level) → t ≡ letter a → severity a ≤ severity l → is_enabled t (letter l) ≡ true
unfolding is_enabled
enabled_of_reaches t l a e h = ground arith

-- A message is let through exactly when the threshold is the letter of a level that is at most as
-- severe as the message's; a threshold that is no level's letter lets nothing through.
pub is_enabled-Reaches :
    (threshold : ℕ) (l : Level) → (is_enabled threshold (letter l) ≡ true) ↔ Reaches threshold l
is_enabled-Reaches t l = (Reaches-is_enabled t l, λ (a, e, h). enabled_of_reaches t l a e h)
