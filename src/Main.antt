-- ===== src/Main.antt =====
-- `main` of src/fuseadf.c with `adffs_destroy` of src/adffs.c: what the program acquires and releases,
-- in order. What the host answers is given in advance, as in Mount.
pub mod Ledger
pub mod Threads
use fuseadf.Prelude.{
  ℕ, Bool, true, false, not, Option, none, some, List, [], ◌∷◌, ◌++◌, map, Bytes, codes,
  if◌then◌else◌,
}
use fuseadf.Pathstr.{bind}
use fuseadf.Args.{Cells, add_arg}
use fuseadf.Args.Parse.{Shell, Options, Line, parse_args}
use fuseadf.Mount.{Call, Answers, adfimage_open, adfimage_close}

-- `run_fuse` is the call of `fuse_main` with its `argc` and `argv`.
pub data Act : Type 0 where
  open_log close_log : Act
  image : Call → Act
  run_fuse : ℕ × Cells → Act

pub data Exit : Type 0 where
  exit_failure exit_success fuse_status : Exit

-- Whether the program may not run as this user, whether `fopen` opens the log, and the answers of
-- ADFlib and of the allocator.
pub record World : Type 0 where
  pub forbidden : Bool
  pub fopen : Bool
  pub answers : Answers

abbrev pub image_acts : List Call → List Act
image_acts calls = map image calls

-- From "open adf image" on.
unfoldable pub start_image : World → Options → ℕ × Cells → List Act × Exit
start_image w options args =
    let (opened, calls) = adfimage_open (not options.write_mode) w.answers in
    if not opened
    then (image_acts calls ++ close_log ∷ [], exit_failure)
    else (image_acts calls ++ run_fuse args ∷ [], fuse_status)

abbrev pub after_act : Act → List Act × Exit → List Act × Exit
after_act act (acts, exit) = (act ∷ acts, exit)

-- From "open logfile" on, with what comes after it.
abbrev pub open_logging : World → Option Bytes → List Act × Exit → List Act × Exit
open_logging w none run = run
open_logging w (some path) run =
    if not w.fopen then (open_log ∷ [], exit_failure) else after_act open_log run

unfoldable pub start_log : World → Options → ℕ × Cells → List Act × Exit
start_log w options args = open_logging w options.logging_file (start_image w options args)

-- FUSE is to run in a single thread.
abbrev pub fuse_args : Options → ℕ × Cells → ℕ × Cells
fuse_args options args = if not options.single_threaded then add_arg args (codes "-s") else args

-- With the options parsed.
unfoldable pub start : World → Bool × Line → List Act × Exit
start w (ok, line) =
    if not ok
    then ([], exit_failure)
    else if line.options.help
    then ([], exit_success)
    else if line.options.version
    then ([], exit_success)
    else start_log w (line.options) (fuse_args (line.options) line.args)

-- `none` is a `parse_args` that has not returned within the fuel.
unfoldable pub main : Shell → ℕ → World → ℕ × Cells → Option (List Act × Exit)
main S fuel w args =
    if w.forbidden
    then some ([], exit_failure)
    else bind (parse_args S fuel args) λ parsed. some (start w parsed)

-- What FUSE calls when the file system is unmounted; whether `adfimage` is not NULL.
unfoldable pub adffs_destroy : Bool → List Act
adffs_destroy adfimage =
    (if adfimage then image_acts (adfimage_close true true true) else []) ++ close_log ∷ []
