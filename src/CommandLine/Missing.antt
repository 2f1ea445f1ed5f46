-- ===== src/CommandLine/Missing.antt =====
-- The checks of src/main.cpp for a missing option value.
use grind.Prelude.{
  sym, Bool, true, false, ◌≡◌, ◌≢◌, refl, ◌⊎◌, ◌∙◌, List, [], ◌∷◌, ◌++◌, Bytes, arith,
}
use grind.CommandLine.{
  Options, Outcome, proceed, missing_config, missing_level, null_deref, out_of_fuel, parse_args,
  first_char,
}
use grind.CommandLine.Reference.{config, level, kind, reading, parse_args-reading}

-- Not an exit by one of the two checks, and not a loop without end.
abbrev is_possible : Outcome → Bool
is_possible missing_config = false
is_possible missing_level = false
is_possible out_of_fuel = false
is_possible _ = true

reading-possible : (args : List Bytes) (o : Options) → is_possible (reading args o) ≡ true
unfolding reading
reading-possible [] o = refl
reading-possible (a ∷ []) o = ground arith
reading-possible (a ∷ b ∷ rest) o = ground (
  arith,
  reading-possible rest (record o { config_file = b }),
  reading-possible rest (record o { log_level = first_char b }),
  reading-possible (b ∷ rest) o,
)

-- The checks `argc < i + 1` never fire: whatever the arguments are, the loop ends, and neither
-- message about a missing value is ever printed.
pub parse_args_unchecked :
    (name : Bytes) (args : List Bytes) (o : Options)
    → (parse_args (name ∷ args) o ≢ missing_config)
      × (parse_args (name ∷ args) o ≢ missing_level)
      × (parse_args (name ∷ args) o ≢ out_of_fuel)
parse_args_unchecked name args o = rw (parse_args-reading name args o) (
  ground (arith, reading-possible args o),
  ground (arith, reading-possible args o),
  ground (arith, reading-possible args o),
)

-- An option takes a value.
abbrev pub TakesValue : Bytes → Type 0
TakesValue a = (kind a ≡ config) ⊎ (kind a ≡ level)

reading-append_option :
    (args : List Bytes) (last : Bytes) (o o' : Options)
    → TakesValue last
    → reading args o ≡ proceed o'
    → reading (args ++ last ∷ []) o ≡ null_deref
unfolding reading
reading-append_option [] last o o' t h = ground arith
reading-append_option (a ∷ []) last o o' t h = ground arith
reading-append_option (a ∷ b ∷ rest) last o o' t h = ground (
  arith,
  reading-append_option rest last (record o { config_file = b }) o' t,
  reading-append_option rest last (record o { log_level = first_char b }) o' t,
  reading-append_option (b ∷ rest) last o o' t,
)

-- An option that stands last, behind arguments that are read without a fault, makes the loop read
-- through the null pointer at the end of `argv`.
pub parse_args-last_option :
    (name : Bytes) (args : List Bytes) (last : Bytes) (o : Options) {o' : Options}
    → TakesValue last
    → parse_args (name ∷ args) o ≡ proceed o'
    → parse_args (name ∷ args ++ last ∷ []) o ≡ null_deref
parse_args-last_option name args last o {o'} t h =
    parse_args-reading name (args ++ last ∷ []) o
    ∙ reading-append_option args last o o' t (sym (parse_args-reading name args o) ∙ h)
