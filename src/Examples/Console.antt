-- ===== src/Examples/Console.antt =====
-- Arguments, log lines and paddings.
use grind.Prelude.{
  ◌≡◌, ◌≢◌, ◌↔◌, refl, inr, true, false, List, [], ◌∷◌, ◌++◌, Bytes, lit, length, replicate, str_eq,
  arith,
}
use grind.Utility.{expand}
use grind.Utility.Padding.{expand-replicate}
use grind.Logger.{Tm, Streams, levels, info, letter, is_enabled}
use grind.Logger
use grind.Logger.Threshold.{Reaches, is_enabled-Reaches}
use grind.Logger.Routing.{Call, log_all, suppressed, printed, log_all-streams}
use grind.Logger.Stamp.{two, four, timestamp-fields}
use grind.CommandLine.{
  Options, proceed, usage, missing_config, missing_level, null_deref, out_of_fuel, parse_args,
  usage_text,
}
use grind.CommandLine.Reference.{kind, reading, parse_args-reading}
use grind.CommandLine.Missing.{parse_args_unchecked, parse_args-last_option}

abbrev unset : Options
unset = record { config_file = []; log_level = b'D' }

abbrev given : List Bytes
given = lit "-c" ∷ lit "a.lua" ∷ lit "x" ∷ lit "-l" ∷ lit "Warn" ∷ lit "-c" ∷ lit "b.lua" ∷ []

-- The last path wins, and a level is the first letter of its word.
parse_given :
    parse_args (lit "grind" ∷ given) unset
    ≡ proceed (record { config_file = lit "b.lua"; log_level = b'W' })
unfolding parse_args str_eq
parse_given = refl

parse_help : parse_args (lit "grind" ∷ lit "-c" ∷ lit "-h" ∷ lit "--help" ∷ []) unset ≡ usage
unfolding parse_args str_eq
parse_help = refl

parse_args-reading_example : parse_args (lit "grind" ∷ given) unset ≡ reading given unset
parse_args-reading_example = parse_args-reading (lit "grind") given unset

parse_args_unchecked_example :
    (parse_args (lit "grind" ∷ lit "-c" ∷ []) unset ≢ missing_config)
    × (parse_args (lit "grind" ∷ lit "-c" ∷ []) unset ≢ missing_level)
    × (parse_args (lit "grind" ∷ lit "-c" ∷ []) unset ≢ out_of_fuel)
parse_args_unchecked_example = parse_args_unchecked (lit "grind") (lit "-c" ∷ []) unset

parse_args-last_option_example :
    parse_args (lit "grind" ∷ given ++ lit "-l" ∷ []) unset ≡ null_deref
unfolding kind str_eq parse_args
parse_args-last_option_example =
    parse_args-last_option (lit "grind") given (lit "-l") unset (inr refl) refl

is_enabled-Reaches_example : (is_enabled b'W' (letter info) ≡ true) ↔ Reaches b'W' info
is_enabled-Reaches_example = is_enabled-Reaches b'W' info

-- An information does not pass the threshold of a warning.
info_below_warn : is_enabled b'W' b'I' ≡ false
unfolding is_enabled
info_below_warn = refl

abbrev noon : Tm
noon = record { tm_sec = 5; tm_min = 0; tm_hour = 12; tm_mday = 1; tm_mon = 0; tm_year = 112 }

abbrev calls : List Call
calls =
    record { now = noon; lvl = b'D'; context = lit "kernel"; message = lit "hidden\n" }
    ∷ record { now = noon; lvl = b'E'; context = lit "kernel"; message = lit "shown\n" }
    ∷ []

abbrev quiet : Streams
quiet = record { cout = []; sink = [] }

log_all-streams_example :
    ((log_all b'W' calls quiet).sink ≡ quiet.sink ++ suppressed b'W' calls)
    × ((log_all b'W' calls quiet).cout ≡ quiet.cout ++ printed b'W' calls)
log_all-streams_example = log_all-streams b'W' calls quiet

log_all_kernel : (log_all b'W' calls quiet).cout ≡ lit "00-01-2012 12:00:05 [E] kernel: shown\n"
unfolding log_all Logger.log is_enabled Logger.timestamp
log_all_kernel = refl

timestamp-fields_example :
    Logger.timestamp noon
    ≡ two 0
      ++ b'-' ∷ two 1
      ++ b'-' ∷ four 2012
      ++ b' ' ∷ two 12
      ++ b':' ∷ two 0
      ++ b':' ∷ two 5
      ++ b' ' ∷ []
timestamp-fields_example = timestamp-fields noon (omega arith)

expand-replicate_example : expand (lit "-c PATH") 20 b' ' ≡ lit "-c PATH" ++ replicate 13 b' '
expand-replicate_example = expand-replicate (lit "-c PATH") 20 b' '

usage_length : length usage_text ≡ 191
unfolding usage_text
usage_length = refl
