-- ===== src/Args/Parse.antt =====
-- `parse_args` of src/fuseadf.c. `getopt`, `strtoul` and `realpath` are the C library's: parameters.
pub mod Edits
pub mod Laws
pub mod Returns
use fuseadf.Prelude.{
  ℕ, zero, suc, ◌-◌, ◌%◌, ◌^◌, Bool, true, false, ◌||◌, Option, none, some, Bytes, codes, get_or,
  strcmp_eq, ltb, ◌==◌, if◌then◌else◌,
}
use fuseadf.Pathstr.{bind}
use fuseadf.Args.{Cells, drop_arg, drop_args}

-- What a call of `getopt` leaves: its result (`none` for -1), `optarg`, `optind`, `argv`, which it
-- may permute, and its own state.
pub record Found (Scan : Type 0) : Type 0 where
  pub result : Option ℕ
  pub optarg : Option Bytes
  pub optind : ℕ
  pub argv : Cells
  pub scan : Scan

pub record Shell : Type 1 where
  pub Scan : Type 0
  pub first_scan : Scan
  -- with the options "p:l::o:fdshiwV"
  pub getopt : Scan → ℕ → ℕ × Cells → Found Scan
  -- The value to the base 10, and the number of bytes that were read.
  pub strtoul : Bytes → ℕ × ℕ
  pub realpath : Option Bytes → Option Bytes

-- `cmdline_options_t`
pub record Options : Type 0 where
  pub adf_filename : Option Bytes
  pub mount_point : Option Bytes
  pub adf_volume : ℕ
  pub write_mode : Bool
  pub single_threaded : Bool
  pub logging_file : Option Bytes
  pub ignore_checksum_errors : Bool
  pub help : Bool
  pub version : Bool

abbrev pub default_options : Options
default_options = record {
  adf_filename = none;
  mount_point = none;
  adf_volume = 0;
  write_mode = true;
  single_threaded = false;
  logging_file = none;
  ignore_checksum_errors = false;
  help = false;
  version = false;
}

-- What the loop works on: `argc` and `argv`, `optind`, and the options.
pub record Line : Type 0 where
  pub args : ℕ × Cells
  pub optind : ℕ
  pub options : Options

-- The end of a round. `broken` is a read through an `optarg` that is NULL.
pub data Round : Type 0 where
  again : Line → Round
  stop : Bool → Line → Round
  broken : Round

-- `optind--` with `drop_arg`, and `optind -= 2` with `drop_args`.
unfoldable pub drop_one : Line → Line
drop_one line =
    let at = line.optind - 1 in record line { optind = at; args = drop_arg line.args at }

unfoldable pub drop_two : Line → Line
drop_two line =
    let at = line.optind - 2 in record line { optind = at; args = drop_args line.args at 2 }

abbrev pub with_options : Line → Options → Line
with_options line options = record line { options = options }

module _ (S : Shell) where
  unfoldable pub parse_volume : Option Bytes → Line → Round
  parse_volume none line = broken
  parse_volume (some optarg) line =
      let (value, bytes_read) = S.strtoul optarg in
      let volume = value % 2 ^ 32 in
      let line' = with_options line (record (line.options) { adf_volume = volume }) in
      if bytes_read == 0
      then stop false line'
      else if ltb 10 volume
      then stop false line'
      else again (drop_two line')

abbrev pub default_log : Bytes
default_log = codes "fuseadf.log"

unfoldable pub parse_log : Option Bytes → Line → Round
parse_log none line =
    again (drop_one (with_options line (record (line.options) { logging_file = some default_log })))
parse_log (some optarg) line =
    again (drop_two (with_options line (record (line.options) { logging_file = some optarg })))

unfoldable pub parse_mount_option : Option Bytes → Line → Round
parse_mount_option none line = broken
parse_mount_option (some optarg) line =
    if strcmp_eq optarg (codes "ro")
    then again (with_options line (record (line.options) { write_mode = false }))
    else again line

module _ (S : Shell) where
  -- The `switch`.
  unfoldable pub parse_option : ℕ → Option Bytes → Line → Round
  parse_option opt optarg line =
      if opt == b'p'
      then parse_volume S optarg line
      else if opt == b'l'
      then parse_log optarg line
      else if opt == b'i'
      then again
          (drop_one (with_options line (record (line.options) { ignore_checksum_errors = true })))
      else if opt == b's'
      then again (with_options line (record (line.options) { single_threaded = true }))
      else if (opt == b'd') || (opt == b'f')
      then again line
      else if opt == b'o'
      then parse_mount_option optarg line
      else if opt == b'h'
      then stop true (drop_one (with_options line (record (line.options) { help = true })))
      else if opt == b'V'
      then stop true (drop_one (with_options line (record (line.options) { version = true })))
      else stop false line

  -- Behind the loop: the last two arguments. The test is `optind != argc - 2`.
  unfoldable pub parse_rest : Line → Bool × Line
  parse_rest line =
      let (argc, argv) = line.args in
      let options : Options = record (line.options) {
        adf_filename = get_or argv (argc - 2) none;
        mount_point = S.realpath (get_or argv (argc - 1) none);
      } in
      if suc (suc line.optind) == argc
      then (true, record line { options = options; args = drop_arg line.args (argc - 2) })
      else (false, line)

  abbrev pub after_getopt : Line → Found S.Scan → Line
  after_getopt line found = record line { args = (line.args.0, found.argv); optind = found.optind }

  -- What follows a round, and a call of `getopt`; `none` is a round that broke.
  abbrev pub after_round : (Line → Option (Bool × Line)) → Round → Option (Bool × Line)
  after_round rest (again next) = rest next
  after_round rest (stop ok last) = some (ok, last)
  after_round rest broken = none

  abbrev pub next_round :
      (Line → Option (Bool × Line)) → Option ℕ → Option Bytes → Line → Option (Bool × Line)
  next_round rest none optarg line = some (parse_rest line)
  next_round rest (some opt) optarg line = after_round rest (parse_option opt optarg line)

  -- The `while` loop. `none`: the fuel ran out, or a round broke.
  unfoldable pub parse_loop : ℕ → S.Scan → Line → Option (Bool × Line)
  parse_loop zero scan line = none
  parse_loop (suc fuel) scan line =
      let found = S.getopt scan line.optind line.args in
      next_round (parse_loop fuel found.scan) found.result found.optarg (after_getopt line found)

  -- The global `optind` starts at 1.
  unfoldable pub parse_args : ℕ → ℕ × Cells → Option (Bool × Line)
  parse_args fuel args =
      parse_loop fuel S.first_scan (record { args = args; optind = 1; options = default_options })
