-- ===== src/CommandLine/Reference.antt =====
-- The argument loop of src/main.cpp against a reading of the argument list.
use grind.Prelude.{
  ℕ, zero, suc, ◌+◌, ◌≤◌, ◌<◌, ◌≡◌, inl, inr, ◌||◌, List, [], ◌∷◌, Bytes, lit, str_eq, length, drop,
  drop-cases, if◌then◌else◌, arith,
}
use grind.CommandLine.{
  Options, Outcome, proceed, usage, null_deref, first_char, parse_loop, parse_args,
}

-- What one argument asks for.
pub data Kind : Type 0 where
  config help level other : Kind

unfoldable pub kind : Bytes → Kind
kind arg =
    if str_eq arg (lit "-c")
    then config
    else if str_eq arg (lit "-h") || str_eq arg (lit "--help")
    then help
    else if str_eq arg (lit "-l")
    then level
    else other

-- The options read off the list of arguments, first to last: a later value replaces an earlier
-- one, an option takes the next argument whatever it is, and help ends the reading.
unfoldable pub reading : List Bytes → Options → Outcome
reading [] o = proceed o
reading (a ∷ []) o = elim (kind a) [
  | config ↦ null_deref
  | help ↦ usage
  | level ↦ null_deref
  | other ↦ proceed o
]
reading (a ∷ b ∷ rest) o = elim (kind a) [
  | config ↦ reading rest (record o { config_file = b })
  | help ↦ usage
  | level ↦ reading rest (record o { log_level = first_char b })
  | other ↦ reading (b ∷ rest) o
]

parse_loop-reading :
    (f : ℕ) (argv : List Bytes) (i : ℕ) (o : Options)
    → i ≤ length argv
    → length argv < f + i
    → parse_loop f argv i o ≡ reading (drop i argv) o
unfolding parse_loop reading kind
parse_loop-reading zero argv i o b h = absurd (omega arith)
parse_loop-reading (suc f) argv i o b h = elim (drop-cases i argv) [
  | inl (e, g, m) ↦ rw e (ground arith)
  | inr (a, e, g, m) ↦ elim (drop-cases (suc i) argv) [
    | inl (e₂, g₂, m₂) ↦
        rw (e, e₂)
          (ground
            (arith, e₂, g, m₂, parse_loop-reading f argv (suc i) o (omega arith) (omega arith)))
    | inr (b, e₂, g₂, m₂) ↦
        rw (e, e₂)
          (ground (
            arith,
            e₂,
            g,
            g₂,
            parse_loop-reading f argv (suc i) o (omega arith) (omega arith),
            parse_loop-reading f argv (suc (suc i)) (record o { config_file = b }) (omega arith)
                (omega arith),
            parse_loop-reading f argv (suc (suc i)) (record o { log_level = first_char b })
                (omega arith) (omega arith),
          ))
  ]
]

-- The loop reads the arguments behind the program's name, and never runs out of fuel.
pub parse_args-reading :
    (name : Bytes) (args : List Bytes) (o : Options) → parse_args (name ∷ args) o ≡ reading args o
unfolding parse_args
parse_args-reading name args o =
    parse_loop-reading (length (name ∷ args) + 1) (name ∷ args) 1 o (omega arith) (omega arith)
