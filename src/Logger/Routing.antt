-- ===== src/Logger/Routing.antt =====
-- Where the messages of src/logger.cpp go over a run of the program.
use mathlib.Core.List.{append-nil, append_assoc}
use grind.Prelude.{
  ℕ, ◌≡◌, sym, inl, inr, Bool-cases, List, [], ◌∷◌, ◌++◌, Bytes, if◌then◌else◌, arith,
}
use grind.Logger.{Tm, Streams, is_enabled, header, log}

-- One call of a logging method.
pub record Call : Type 0 where
  pub now : Tm
  pub lvl : ℕ
  pub context : Bytes
  pub message : Bytes

unfoldable pub log_all : ℕ → List Call → Streams → Streams
log_all threshold [] s = s
log_all threshold (c ∷ cs) s =
    log_all threshold cs (log threshold c.now c.lvl c.context c.message s)

-- The text of the calls below the threshold.
pub suppressed : ℕ → List Call → Bytes
suppressed threshold [] = []
suppressed threshold (c ∷ cs) =
    if is_enabled threshold c.lvl
    then suppressed threshold cs
    else c.message ++ suppressed threshold cs

-- The lines of the calls that pass the threshold.
pub printed : ℕ → List Call → Bytes
unfolding header
printed threshold [] = []
printed threshold (c ∷ cs) =
    if is_enabled threshold c.lvl
    then (header c.now c.lvl c.context ++ c.message) ++ printed threshold cs
    else printed threshold cs

-- Everything below the threshold is kept in the static sink for ever, and everything else is on
-- the standard output behind its header, each in the order of the calls.
pub log_all-streams :
    (threshold : ℕ) (cs : List Call) (s : Streams)
    → ((log_all threshold cs s).sink ≡ s.sink ++ suppressed threshold cs)
      × ((log_all threshold cs s).cout ≡ s.cout ++ printed threshold cs)
unfolding log_all suppressed printed log
log_all-streams t [] s = (sym (append-nil _), sym (append-nil _))
log_all-streams t (c ∷ cs) s =
    let ih = log_all-streams t cs (log t c.now c.lvl c.context c.message s) in
    elim (Bool-cases (is_enabled t c.lvl)) [
      | inl e ↦ ground (
        arith,
        ih.0,
        ih.1,
        append_assoc s.cout (header c.now c.lvl c.context ++ c.message) (printed t cs),
      )
      | inr e ↦ ground (arith, ih.0, ih.1, append_assoc s.sink c.message (suppressed t cs))
    ]
