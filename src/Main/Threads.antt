-- ===== src/Main/Threads.antt =====
-- The arguments that `main` of src/fuseadf.c gives FUSE, `-s` for a single thread among them: the
-- handlers of src/adffs.c share one image.
use fuseadf.Prelude.{
  ℕ, ◌-◌, ◌≤◌, ◌≡◌, Option, none, some, ◌⊎◌, List, [], ◌∷◌, codes, length, get_or,
}
use fuseadf.Args.{Cells}
use fuseadf.Main.{Act, open_log, close_log, image, run_fuse, Exit}

-- The arguments that FUSE gets, if it runs.
unfoldable pub given : List Act → Option (ℕ × Cells)
given [] = none
given (run_fuse args ∷ acts) = some args
given (open_log ∷ acts) = given acts
given (close_log ∷ acts) = given acts
given (image call ∷ acts) = given acts

abbrev pub given_by : List Act × Exit → Option (ℕ × Cells)
given_by (acts, exit) = given acts

-- A list of acts that runs FUSE with some arguments, if it runs it at all.
abbrev Gives : List Act × Exit → ℕ × Cells → Type 0
Gives (acts, exit) args = (given acts ≡ none) ⊎ (given acts ≡ some args)

-- The last argument is `-s`, and stands in a cell of `argv`.
abbrev pub Last : ℕ × Cells → Type 0
Last (argc, argv) = (get_or argv (argc - 1) none ≡ some (codes "-s")) × (argc ≤ length argv)
