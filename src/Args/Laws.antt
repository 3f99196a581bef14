-- ===== src/Args/Laws.antt =====
-- What `drop_arg`, `drop_args` and `add_arg` of src/fuseadf.c do to the list as a whole.
use fuseadf.Prelude.{
  ℕ, zero, suc, ◌+◌, ◌-◌, ◌≡◌, refl, ap, ◌∙◌, Option, none, some, [], ◌∷◌, ◌++◌, append_assoc,
  arith, Bytes, length, length-append, get_or, set, replicate,
}
use fuseadf.Args.{Cells, shift_args, clear_args, drop_arg, drop_args, add_arg}

suc_plus : (a b : ℕ) → suc a + b ≡ suc (a + b)
suc_plus a b = omega arith

-- The loops leave the cells before their first index alone.
shift_args_behind :
    (rounds index num : ℕ) (x : Option Bytes) (argv : Cells)
    → shift_args rounds (suc index) num (x ∷ argv) ≡ x ∷ shift_args rounds index num argv
unfolding shift_args
shift_args_behind zero index num x argv = refl
shift_args_behind (suc rounds) index num x argv =
    rw (suc_plus index num)
      (shift_args_behind rounds (suc index) num x (set argv index (get_or argv (index + num) none)))

clear_args_behind :
    (rounds first : ℕ) (x : Option Bytes) (argv : Cells)
    → clear_args rounds (suc first) (x ∷ argv) ≡ x ∷ clear_args rounds first argv
unfolding clear_args
clear_args_behind zero first x argv = refl
clear_args_behind (suc rounds) first x argv =
    clear_args_behind rounds (suc first) x (set argv first none)

shift_args-append :
    (rounds num : ℕ) (xs argv : Cells)
    → shift_args rounds (length xs) num (xs ++ argv) ≡ xs ++ shift_args rounds 0 num argv
shift_args-append rounds num [] argv = refl
shift_args-append rounds num (x ∷ xs) argv =
    shift_args_behind rounds (length xs) num x (xs ++ argv)
    ∙ ap (λ t. x ∷ t) (shift_args-append rounds num xs argv)

clear_args-append :
    (rounds : ℕ) (xs argv : Cells)
    → clear_args rounds (length xs) (xs ++ argv) ≡ xs ++ clear_args rounds 0 argv
clear_args-append rounds [] argv = refl
clear_args-append rounds (x ∷ xs) argv =
    clear_args_behind rounds (length xs) x (xs ++ argv)
    ∙ ap (λ t. x ∷ t) (clear_args-append rounds xs argv)

clear_args_lem :
    (n : ℕ) (ws zs : Cells) → length ws ≡ n → clear_args n 0 (ws ++ zs) ≡ replicate n none ++ zs
unfolding clear_args
clear_args_lem zero [] zs h = refl
clear_args_lem zero (w ∷ ws) zs h = absurd (omega arith)
clear_args_lem (suc n) [] zs h = absurd (omega arith)
clear_args_lem (suc n) (w ∷ ws) zs h =
    clear_args_behind n 0 none (ws ++ zs)
    ∙ ap (λ t. none ∷ t) (clear_args_lem n ws zs (omega arith))

get_or-append :
    (xs : Cells) (y : Option Bytes) (ys : Cells) → get_or (xs ++ (y ∷ ys)) (length xs) none ≡ y
get_or-append [] y ys = refl
get_or-append (x ∷ xs) y ys = get_or-append xs y ys

-- One round moves one cell to the front of the gap.
shift_args_round :
    (rounds : ℕ) (d y : Option Bytes) (ds rest : Cells)
    → shift_args (suc rounds) 0 (suc (length ds)) (d ∷ (ds ++ (y ∷ rest)))
      ≡ y ∷ shift_args rounds 0 (suc (length ds)) ((ds ++ y ∷ []) ++ rest)
unfolding shift_args
shift_args_round rounds d y ds rest =
    let at : 0 + suc (length ds) ≡ suc (length ds) = omega arith in
    rw (at, append_assoc ds (y ∷ []) rest)
      (rw (get_or-append ds y rest)
        (shift_args_behind rounds 0 (suc (length ds)) y (ds ++ (y ∷ rest))))

-- The cells behind a gap move over it, and the gap is then behind them.
shift_args_lem :
    (ys gap zs : Cells) (num : ℕ)
    → length gap ≡ suc num
    → (ws : Cells) × (length ws ≡ suc num)
      × (shift_args (length ys) 0 (suc num) (gap ++ (ys ++ zs)) ≡ ys ++ (ws ++ zs))
unfolding shift_args
shift_args_lem [] gap zs num h = (gap, h, refl)
shift_args_lem (y ∷ ys) [] zs num h = absurd (omega arith)
shift_args_lem (y ∷ ys) (d ∷ ds) zs num h =
    let same : length ds ≡ num = omega arith in
    let moved = rw same at (shift_args_round (length ys) d y ds (ys ++ zs)) in
    let (ws, l, e) =
      shift_args_lem ys (ds ++ y ∷ []) zs num (omega (arith, length-append {0} ds (y ∷ []))) in
    (ws, l, moved ∙ ap (λ t. y ∷ t) e)

-- Dropping the arguments `gap`, at least one, keeps those before and behind it in their order, takes
-- their number from `argc`, and leaves as many NULL cells behind the arguments that remain.
pub drop_args_lem :
    (xs ys zs : Cells) (d : Option Bytes) (ds : Cells)
    → let gap = d ∷ ds in
      drop_args (length (xs ++ (gap ++ ys)), xs ++ (gap ++ (ys ++ zs))) (length xs) (length gap)
      ≡ (length (xs ++ ys), xs ++ (ys ++ (replicate (length gap) none ++ zs)))
unfolding drop_args
drop_args_lem xs ys zs d ds =
    let (ws, l, e) = shift_args_lem ys (d ∷ ds) zs (length ds) refl in
    let left : length (xs ++ ((d ∷ ds) ++ ys)) - length (d ∷ ds) ≡ length (xs ++ ys) = omega (
      arith,
      length-append {0} xs ((d ∷ ds) ++ ys),
      length-append {0} (d ∷ ds) ys,
      length-append {0} xs ys,
    ) in
    let rounds : length (xs ++ ys) - length xs ≡ length ys =
      omega (arith, length-append {0} xs ys) in
    rw (left, rounds)
      (rw (shift_args-append (length ys) (suc (length ds)) xs ((d ∷ ds) ++ (ys ++ zs)), e)
        (rw (← append_assoc xs ys (ws ++ zs)) (
          rw (clear_args-append (suc (length ds)) (xs ++ ys) (ws ++ zs), clear_args_lem _ ws zs l)
            (λ i.
              (length (xs ++ ys), append_assoc xs ys (replicate (suc (length ds)) none ++ zs) i)))))

pub drop_arg-drop_args :
    (argc : ℕ) (argv : Cells) (index : ℕ)
    → drop_arg (argc, argv) index ≡ drop_args (argc, argv) index 1
unfolding drop_arg drop_args clear_args
drop_arg-drop_args argc argv index = refl

set-append :
    (us : Cells) (w v : Option Bytes) (zs : Cells)
    → set (us ++ (w ∷ zs)) (length us) v ≡ us ++ (v ∷ zs)
set-append [] w v zs = refl
set-append (u ∷ us) w v zs = ap (λ t. u ∷ t) (set-append us w v zs)

-- After an argument has been dropped, one that is added takes its cell: it comes last, the others
-- keep their order, and `argc` and the cells behind the arguments are as they were.
pub add_arg-drop_arg :
    (xs ys zs : Cells) (d : Option Bytes) (arg : Bytes)
    → let argc = length (xs ++ (d ∷ ys)) in
      add_arg (drop_arg (argc, xs ++ (d ∷ (ys ++ zs))) (length xs)) arg
      ≡ (argc, xs ++ (ys ++ (some arg ∷ zs)))
unfolding add_arg
add_arg-drop_arg xs ys zs d arg =
    let dropped =
      drop_arg-drop_args (length (xs ++ (d ∷ ys))) (xs ++ (d ∷ (ys ++ zs))) (length xs)
      ∙ drop_args_lem xs ys zs d [] in
    let number : suc (length (xs ++ ys)) ≡ length (xs ++ (d ∷ ys)) =
      omega (arith, length-append {0} xs ys, length-append {0} xs (d ∷ ys)) in
    rw (dropped, number)
      (rw (← append_assoc xs ys (none ∷ zs), ← append_assoc xs ys (some arg ∷ zs))
        (rw (set-append (xs ++ ys) none (some arg) zs) refl))
