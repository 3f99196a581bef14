-- ===== src/Tests/CommandLine.antt =====
-- The theorems about the command line and `main` at concrete inputs.
use fuseadf.Prelude.{
  ℕ, ◌≤◌, ◌<◌, ◌≡◌, refl, Bool, true, false, Option, none, some, List, [], ◌∷◌, ◌++◌, arith, codes,
  length, pos, if◌then◌else◌,
}
use fuseadf.Args.{Cells}
use fuseadf.Args.Parse.{Line, Options, again, parse_log, parse_args, default_options}
use fuseadf.Args.Parse.Laws.{parse_args-Usable}
use fuseadf.Args.Parse.Edits.{line_at, parse_log_attached}
use fuseadf.Args.Parse.Returns.{parse_args_returns}
use fuseadf.Log.{no_log}
use fuseadf.Mount.{Answers}
use fuseadf.Main.{Act, Exit, World, start}
use fuseadf.Main.Ledger.{perform_all, whole, AllReleased, start-AllReleased}
use fuseadf.Mount.Ledger.{nothing}
use fuseadf.Tests.Options.{shell, shell_IsGetopt, remaining_lem, cells, command_line, parsed_line}

parsed : parse_args shell 4 command_line ≡ some (true, parsed_line)
unfolding parse_args fuseadf.Args.Parse.parse_loop fuseadf.Args.Parse.parse_option
    fuseadf.Args.Parse.parse_volume fuseadf.Args.Parse.drop_one fuseadf.Args.Parse.drop_two
    fuseadf.Args.Parse.parse_rest fuseadf.Args.drop_arg fuseadf.Args.drop_args
    fuseadf.Args.shift_args fuseadf.Args.clear_args fuseadf.Prelude.strcmp_eq
parsed = refl

parse_args-Usable_example : (2 < 6) × (length parsed_line.args.1 ≡ length command_line.1) × (1 ≤ 10)
parse_args-Usable_example =
    parse_args-Usable shell (λ scan optind args. refl) 4 command_line parsed_line parsed refl

parse_args_returns_example : (r : Bool × Line) × (parse_args shell 6 command_line ≡ some r)
parse_args_returns_example =
    parse_args_returns shell shell_IsGetopt 6 (some (codes "fuseadf")) cells (none ∷ [])
      (omega (arith, remaining_lem cells))

parse_log_attached_example :
    parse_log (some (codes "log")) (
      line_at
        (some (codes "fuseadf") ∷ some (codes "-s") ∷ some (codes "-llog") ∷ [])
        []
        []
        default_options)
    ≡ again (
        line_at
          (some (codes "fuseadf") ∷ [])
          []
          (none ∷ none ∷ [])
          (record default_options { logging_file = some (codes "log") }))
parse_log_attached_example =
    parse_log_attached (some (codes "fuseadf") ∷ []) [] [] (some (codes "-s"))
      (some (codes "-llog")) (codes "log") default_options

-- All calls succeed.
abbrev world : World
world = record {
  forbidden = false;
  fopen = true;
  answers = record {
    init_rc = pos 0;
    device = true;
    mount_rc = pos 0;
    volume = true;
    root_rc = pos 0;
    bitmap_valid = true;
    image = true;
  };
}

abbrev logged_line : Line
logged_line = record parsed_line {
  options = record (parsed_line.options) { logging_file = some (codes "log") };
}

start-AllReleased_example :
    AllReleased (perform_all world (whole (start world (true, logged_line))) (nothing, no_log))
start-AllReleased_example = start-AllReleased world (true, logged_line)

abbrev passed : ℕ × Cells
passed = (
  3,
  some (codes "fuseadf") ∷ some (codes "mnt") ∷ some (codes "-s") ∷ none ∷ none ∷ none ∷ none ∷ [],
)
