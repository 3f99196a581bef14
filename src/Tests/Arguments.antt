-- ===== src/Tests/Arguments.antt =====
-- The theorems about the list of arguments at concrete inputs.
use fuseadf.Prelude.{◌≡◌, none, some, [], ◌∷◌, ◌++◌, codes}
use fuseadf.Args.{Cells, drop_arg, drop_args, add_arg}
use fuseadf.Args.Laws.{drop_args_lem, add_arg-drop_arg}

abbrev before : Cells
before = some (codes "fuseadf") ∷ []

abbrev dropped : Cells
dropped = some (codes "-p") ∷ some (codes "1") ∷ []

abbrev behind : Cells
behind = some (codes "disk.adf") ∷ some (codes "mnt") ∷ []

drop_args_lem_example :
    drop_args (5, before ++ (dropped ++ (behind ++ none ∷ []))) 1 2
    ≡ (3, before ++ (behind ++ (none ∷ none ∷ none ∷ [])))
drop_args_lem_example =
    drop_args_lem before behind (none ∷ []) (some (codes "-p")) (some (codes "1") ∷ [])

add_arg-drop_arg_example :
    add_arg (drop_arg (4, before ++ (some (codes "-i") ∷ (behind ++ none ∷ []))) 1) (codes "-s")
    ≡ (4, before ++ (behind ++ (some (codes "-s") ∷ none ∷ [])))
add_arg-drop_arg_example =
    add_arg-drop_arg before behind (none ∷ []) (some (codes "-i")) (codes "-s")
