-- ===== src/Args/Parse/Edits.antt =====
-- The cells that the rounds of `parse_args` of src/fuseadf.c drop.
use fuseadf.Prelude.{
  ◌-◌, ◌≡◌, ap, ◌∙◌, Option, none, some, [], ◌∷◌, ◌++◌, arith, Bytes, length, append_assoc,
  length-append,
}
use fuseadf.Args.{Cells}
use fuseadf.Args.Laws.{drop_args_lem, drop_arg-drop_args}
use fuseadf.Args.Parse.{Options, Line, again, drop_one, drop_two, parse_log}

-- The line with `optind` behind `front`.
abbrev pub line_at : Cells → Cells → Cells → Options → Line
line_at front rest behind options = record {
  args = (length (front ++ rest), front ++ (rest ++ behind));
  optind = length front;
  options = options;
}

pub drop_one-line_at :
    (front rest behind : Cells) (x : Option Bytes) (options : Options)
    → drop_one (line_at (front ++ x ∷ []) rest behind options)
      ≡ line_at front rest (none ∷ behind) options
unfolding drop_one
drop_one-line_at front rest behind x options =
    let at : length (front ++ x ∷ []) - 1 ≡ length front =
      omega (arith, length-append {0} front (x ∷ [])) in
    let dropped =
      drop_arg-drop_args (length (front ++ (x ∷ rest))) (front ++ (x ∷ (rest ++ behind)))
        (length front)
      ∙ drop_args_lem front rest behind x [] in
    rw (at, append_assoc front (x ∷ []) rest, append_assoc front (x ∷ []) (rest ++ behind))
      (λ i. record { args = dropped i; optind = length front; options = options })

-- `-2` drops the option's cell and the cell before it.
pub drop_two-line_at :
    (front rest behind : Cells) (x y : Option Bytes) (options : Options)
    → drop_two (line_at (front ++ (x ∷ y ∷ [])) rest behind options)
      ≡ line_at front rest (none ∷ none ∷ behind) options
unfolding drop_two
drop_two-line_at front rest behind x y options =
    let at : length (front ++ (x ∷ y ∷ [])) - 2 ≡ length front =
      omega (arith, length-append {0} front (x ∷ y ∷ [])) in
    rw (at, append_assoc front (x ∷ y ∷ []) rest, append_assoc front (x ∷ y ∷ []) (rest ++ behind))
      (λ i. record {
        args = drop_args_lem front rest behind x (y ∷ []) i;
        optind = length front;
        options = options;
      })

-- A value that is attached to `-l` makes the option one cell: `parse_log` takes `optind` back over
-- two, and the argument before the option is dropped with it.
pub parse_log_attached :
    (front rest behind : Cells) (before option : Option Bytes) (value : Bytes) (options : Options)
    → parse_log (some value) (line_at (front ++ (before ∷ option ∷ [])) rest behind options)
      ≡ again
          (line_at front rest (none ∷ none ∷ behind) (record options { logging_file = some value }))
unfolding parse_log
parse_log_attached front rest behind before option value options = ap again (
    drop_two-line_at front rest behind before option (record options { logging_file = some value }))
