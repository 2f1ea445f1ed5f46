-- ===== src/CommandLine.antt =====
-- The argument loop of `main` in src/main.cpp, and `print_usage`. `argv` is the list of the
-- arguments; `argv[argc]` is the null pointer that ends it.
pub mod Reference
pub mod Missing
use grind.Prelude.{
  ℕ, zero, suc, ◌+◌, ◌≡◌, Bool, true, false, ◌||◌, Option, none, some, List, [], ◌∷◌, ◌++◌, Bytes,
  lit, str_eq, length, get_elem?, ltb, if◌then◌else◌,
}
use grind.Utility.{expand}

-- `config_file` and `kernel.cfg.log_level`, the locals and fields that the loop sets.
pub record Options : Type 0 where
  pub config_file : Bytes
  pub log_level : ℕ

-- How the loop is left. `null_deref` is a read through `argv[argc]`.
pub data Outcome : Type 0 where
  proceed : Options → Outcome
  usage : Outcome
  missing_config : Outcome
  missing_level : Outcome
  null_deref : Outcome
  out_of_fuel : Outcome

-- `*s` of a C string: its first byte, or the NUL that ends it.
abbrev pub first_char : Bytes → ℕ
first_char [] = 0
first_char (c ∷ s) = c

-- `config_file = argv[++i]`.
set_config : Option Bytes → Options → (Options → Outcome) → Outcome
set_config none o next = null_deref
set_config (some path) o next = next (record o { config_file = path })

-- `kernel.cfg.log_level = *argv[++i]`.
set_level : Option Bytes → Options → (Options → Outcome) → Outcome
set_level none o next = null_deref
set_level (some word) o next = next (record o { log_level = first_char word })

-- The `for` loop from index `i`, with `argc` as the length of `argv`.
unfoldable pub parse_loop : ℕ → List Bytes → ℕ → Options → Outcome
unfolding set_config set_level
parse_loop zero argv i o = out_of_fuel
parse_loop (suc f) argv i o =
    let skip = parse_loop f argv (suc i) o in
    let config = set_config (get_elem? argv (suc i)) o (parse_loop f argv (suc (suc i))) in
    let level = set_level (get_elem? argv (suc i)) o (parse_loop f argv (suc (suc i))) in
    if ltb i (length argv)
    then (elim (get_elem? argv i) [
      | none ↦ null_deref
      | some arg ↦
          if str_eq arg (lit "-c")
          then (if ltb (length argv) (suc i) then missing_config else config)
          else if str_eq arg (lit "-h") || str_eq arg (lit "--help")
          then usage
          else if str_eq arg (lit "-l")
          then (if ltb (length argv) (suc i) then missing_level else level)
          else skip
    ])
    else proceed o

-- Each round moves on by one argument or two, so `argc + 1` rounds are enough.
unfoldable pub parse_args : List Bytes → Options → Outcome
unfolding parse_loop
parse_args argv o = parse_loop (length argv + 1) argv 1 o

-- What `print_usage` writes to the standard output.
unfoldable pub usage_text : Bytes
unfolding expand
usage_text =
    lit "grind: a log analyzing and aggregation tool\n"
    ++ (lit "USAGE: grind [OPTIONS]\n\n"
        ++ (lit "Options:\n"
            ++ (expand (lit "-c PATH") 20 b' '
                ++ (lit "path to grind configuration script (config.lua)\n"
                    ++ (expand (lit "-h, --help") 20 b' ' ++ lit "display this help listing\n")))))
