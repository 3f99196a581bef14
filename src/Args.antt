-- ===== src/Args.antt =====
-- The functions of src/fuseadf.c that edit the list of arguments. `argv` is the list of its cells,
-- of which `argc` are arguments; a cell that is NULL is `none`.
pub mod Bounds
pub mod Laws
pub mod Parse
use fuseadf.Prelude.{ℕ, zero, suc, ◌+◌, ◌-◌, Option, none, some, List, Bytes, get_or, set}

abbrev pub Cells : Type 0
Cells = List (Option Bytes)

-- `for ( int i = index ; ... ) argv [ i ] = argv [ i + num ];`, for a number of rounds.
unfoldable pub shift_args : ℕ → ℕ → ℕ → Cells → Cells
shift_args zero index num argv = argv
shift_args (suc rounds) index num argv =
    shift_args rounds (suc index) num (set argv index (get_or argv (index + num) none))

-- `for ( int i = first ; ... ) argv [ i ] = NULL;`, for a number of rounds.
unfoldable pub clear_args : ℕ → ℕ → Cells → Cells
clear_args zero first argv = argv
clear_args (suc rounds) first argv = clear_args rounds (suc first) (set argv first none)

unfoldable pub drop_arg : ℕ × Cells → ℕ → ℕ × Cells
drop_arg (argc, argv) index =
    (argc - 1, set (shift_args (argc - 1 - index) index 1 argv) (argc - 1) none)

unfoldable pub drop_args : ℕ × Cells → ℕ → ℕ → ℕ × Cells
drop_args (argc, argv) index num =
    (argc - num, clear_args num (argc - num) (shift_args (argc - num - index) index num argv))

unfoldable pub add_arg : ℕ × Cells → Bytes → ℕ × Cells
add_arg (argc, argv) arg = (suc argc, set argv argc (some arg))
