-- ===== src/Args/Bounds.antt =====
-- The functions of src/fuseadf.c that edit the list of arguments and the size of its array.
use fuseadf.Prelude.{
  ℕ, zero, suc, ◌-◌, ◌≡◌, refl, ap, ◌∙◌, Option, none, [], ◌∷◌, Bytes, length, set,
}
use fuseadf.Args.{Cells, shift_args, clear_args, drop_arg, drop_args}

pub length-set : (argv : Cells) (i : ℕ) (v : Option Bytes) → length (set argv i v) ≡ length argv
length-set [] i v = refl
length-set (x ∷ argv) zero v = refl
length-set (x ∷ argv) (suc i) v = ap suc (length-set argv i v)

length-shift_args :
    (rounds index num : ℕ) (argv : Cells) → length (shift_args rounds index num argv) ≡ length argv
unfolding shift_args
length-shift_args zero index num argv = refl
length-shift_args (suc rounds) index num argv =
    length-shift_args rounds (suc index) num _ ∙ length-set argv index _

length-clear_args :
    (rounds first : ℕ) (argv : Cells) → length (clear_args rounds first argv) ≡ length argv
unfolding clear_args
length-clear_args zero first argv = refl
length-clear_args (suc rounds) first argv =
    length-clear_args rounds (suc first) _ ∙ length-set argv first none

pub length-drop_arg :
    (args : ℕ × Cells) (index : ℕ) → length (drop_arg args index).1 ≡ length args.1
unfolding drop_arg
length-drop_arg (argc, argv) index =
    length-set (shift_args (argc - 1 - index) index 1 argv) (argc - 1) none
    ∙ length-shift_args (argc - 1 - index) index 1 argv

pub length-drop_args :
    (args : ℕ × Cells) (index num : ℕ) → length (drop_args args index num).1 ≡ length args.1
unfolding drop_args
length-drop_args (argc, argv) index num =
    length-clear_args num (argc - num) (shift_args (argc - num - index) index num argv)
    ∙ length-shift_args (argc - num - index) index num argv
