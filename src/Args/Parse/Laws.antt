-- ===== src/Args/Parse/Laws.antt =====
-- What a successful `parse_args` of src/fuseadf.c leaves behind.
use fuseadf.Prelude.{
  ℕ, zero, suc, ◌-◌, ◌≤◌, ◌<◌, ◌%◌, ◌^◌, ◌≡◌, refl, ◌∙◌, Bool, true, false, ◌||◌, Option, none,
  some, Bool-cases, inl, inr, arith, Bytes, codes, length, strcmp_eq, ltb, ◌==◌, if◌then◌else◌,
}
use mathlib.Core.Path.{subst}
use mathlib.Core.Option.{some-injective}
use fuseadf.Args.{Cells, drop_arg, drop_args}
use fuseadf.Args.Bounds.{length-drop_arg, length-drop_args}
use fuseadf.Args.Parse.{
  Shell, Options, Line, Round, again, stop, broken, drop_one, drop_two, with_options, default_log,
  parse_volume, parse_log, parse_mount_option, parse_option, parse_rest, after_getopt, after_round,
  next_round, parse_loop, parse_args,
}

-- From one line to a later one there are no more arguments, as many cells, and a volume in range.
abbrev Kept : Line → Line → Type 0
Kept line next =
    (next.args.0 ≤ line.args.0)
    × (length next.args.1 ≡ length line.args.1)
    × (line.options.adf_volume ≤ 10 → next.options.adf_volume ≤ 10)

-- A round that goes on keeps this; one that stops with success has found `-h` or `-V`.
abbrev KeptRound : Line → Round → Type 0
KeptRound line (again next) = Kept line next
KeptRound line (stop ok last) = ok ≡ true → ((last.options.help || last.options.version) ≡ true)
KeptRound line broken = Unit

drop_one-Kept : (line : Line) → Kept line (drop_one line)
unfolding drop_one drop_arg
drop_one-Kept line = (omega arith, length-drop_arg line.args (line.optind - 1), λ h. h)

drop_two-Kept : (line : Line) → Kept line (drop_two line)
unfolding drop_two drop_args
drop_two-Kept line = (omega arith, length-drop_args line.args (line.optind - 2) 2, λ h. h)

if-KeptRound :
    (line : Line) (b : Bool) (x y : Round)
    → KeptRound line x
    → KeptRound line y
    → KeptRound line (if b then x else y)
if-KeptRound line true x y h k = h
if-KeptRound line false x y h k = k

-- A round may set options first.
set_options-Kept :
    (line : Line) (options : Options)
    → (line.options.adf_volume ≤ 10 → options.adf_volume ≤ 10)
    → Kept line (with_options line options)
set_options-Kept line options v = (omega arith, refl, v)

set_drop_one-Kept :
    (line : Line) (options : Options)
    → (line.options.adf_volume ≤ 10 → options.adf_volume ≤ 10)
    → Kept line (drop_one (with_options line options))
set_drop_one-Kept line options v =
    let (fewer, same, kept) = drop_one-Kept (with_options line options) in
    (fewer, same, λ below. kept (v below))

set_drop_two-Kept :
    (line : Line) (options : Options)
    → (line.options.adf_volume ≤ 10 → options.adf_volume ≤ 10)
    → Kept line (drop_two (with_options line options))
set_drop_two-Kept line options v =
    let (fewer, same, kept) = drop_two-Kept (with_options line options) in
    (fewer, same, λ below. kept (v below))

not_true : {A : Type 0} → false ≡ true → A
not_true h = absurd (cc h)

module _ (S : Shell) where
  parse_volume-Kept :
      (optarg : Option Bytes) (line : Line) → KeptRound line (parse_volume S optarg line)
  unfolding parse_volume
  parse_volume-Kept none line = tt
  parse_volume-Kept (some optarg) line =
      let volume = (S.strtoul optarg).0 % 2 ^ 32 in
      let options : Options = record (line.options) { adf_volume = volume } in
      if-KeptRound line ((S.strtoul optarg).1 == 0) _ _ not_true
        (elim (Bool-cases (ltb 10 volume)) [
          | inl e ↦ rw e not_true
          | inr e ↦ rw e (set_drop_two-Kept line options (λ _. ground arith))
        ])

  parse_log-Kept : (optarg : Option Bytes) (line : Line) → KeptRound line (parse_log optarg line)
  unfolding parse_log
  parse_log-Kept none line =
      set_drop_one-Kept line (record (line.options) { logging_file = some default_log }) (λ h. h)
  parse_log-Kept (some optarg) line =
      set_drop_two-Kept line (record (line.options) { logging_file = some optarg }) (λ h. h)

  parse_mount_option-Kept :
      (optarg : Option Bytes) (line : Line) → KeptRound line (parse_mount_option optarg line)
  unfolding parse_mount_option
  parse_mount_option-Kept none line = tt
  parse_mount_option-Kept (some optarg) line =
      if-KeptRound line (strcmp_eq optarg (codes "ro")) _ _
        (set_options-Kept line (record (line.options) { write_mode = false }) (λ h. h))
        (set_options-Kept line (line.options) (λ h. h))

  parse_option-Kept :
      (opt : ℕ) (optarg : Option Bytes) (line : Line)
      → KeptRound line (parse_option S opt optarg line)
  unfolding parse_option drop_one
  parse_option-Kept opt optarg line =
      if-KeptRound line (opt == b'p') _ _ (parse_volume-Kept optarg line) (
        if-KeptRound line (opt == b'l') _ _ (parse_log-Kept optarg line) (
          if-KeptRound line (opt == b'i') _ _
            (set_drop_one-Kept line (record (line.options) { ignore_checksum_errors = true })
              (λ h. h))
            (if-KeptRound line (opt == b's') _ _
              (set_options-Kept line (record (line.options) { single_threaded = true }) (λ h. h))
              (if-KeptRound line ((opt == b'd') || (opt == b'f')) _ _
                (set_options-Kept line (line.options) (λ h. h))
                (if-KeptRound line (opt == b'o') _ _ (parse_mount_option-Kept optarg line) (
                  if-KeptRound line (opt == b'h') _ _ (λ _. refl)
                    (if-KeptRound line (opt == b'V') _ _ (λ _. ground arith) not_true)))))))

  -- What a finished `parse_args` promises for the line that it began with.
  abbrev Usable : Line → Bool × Line → Type 0
  Usable line (ok, last) =
      ok ≡ true
      → (last.options.help || last.options.version) ≡ false
      → line.options.adf_volume ≤ 10
      → (last.args.0 < line.args.0)
        × (length last.args.1 ≡ length line.args.1)
        × (last.options.adf_volume ≤ 10)

  Usable-later :
      (line next : Line) (r : Bool × Line) → Kept line next → Usable next r → Usable line r
  Usable-later line next (ok, last) k u h flags v =
      let w = u h flags (k.2 v) in (omega (arith, w.0, k.0), w.1 ∙ k.1, w.2)

  parse_rest-Usable : (line : Line) → Usable line (parse_rest S line)
  unfolding parse_rest drop_arg
  parse_rest-Usable line = elim (Bool-cases (suc (suc line.optind) == line.args.0)) [
    | inl e ↦ rw e λ h flags v. (ground arith, length-drop_arg line.args (line.args.0 - 2), v)
    | inr e ↦ rw e (λ h flags v. absurd (cc h))
  ]

  module _
      (permutes : (scan : S.Scan) (optind : ℕ) (args : ℕ × Cells)
        → length (S.getopt scan optind args).argv ≡ length args.1) where
    after_getopt-Kept :
        (scan : S.Scan) (line : Line)
        → Kept line (after_getopt S line (S.getopt scan line.optind line.args))
    after_getopt-Kept scan line = (omega arith, permutes scan line.optind line.args, λ h. h)

    -- If the rest of the loop is usable, the loop is.
    next_round-Usable :
        (rest : Line → Option (Bool × Line))
        → ((next : Line) (r : Bool × Line) → rest next ≡ some r → Usable next r)
        → (result : Option ℕ) (optarg : Option Bytes) (line : Line) (r : Bool × Line)
        → next_round S rest result optarg line ≡ some r
        → Usable line r
    next_round-Usable rest ih none optarg line r h =
        rw (some-injective _ _ h) at (parse_rest-Usable line)
    next_round-Usable rest ih (some opt) optarg line r h =
        go (parse_option S opt optarg line) (parse_option-Kept opt optarg line) h
      where
        go :
            (round : Round)
            → KeptRound line round
            → after_round S rest round ≡ some r
            → Usable line r
        go (again next) k h = Usable-later line next r k (ih next r h)
        go (stop ok last) k h =
            let stopped : Usable line (ok, last) = λ t flags v. absurd (cc (k t, flags)) in
            subst (Usable line) (some-injective _ _ h) stopped
        go broken k h = absurd (cc h)

    parse_loop-Usable :
        (fuel : ℕ) (scan : S.Scan) (line : Line) (r : Bool × Line)
        → parse_loop S fuel scan line ≡ some r
        → Usable line r
    unfolding parse_loop
    parse_loop-Usable zero scan line r h = absurd (cc h)
    parse_loop-Usable (suc fuel) scan line r h =
        let found = S.getopt scan line.optind line.args in
        Usable-later line (after_getopt S line found) r (after_getopt-Kept scan line) (
          next_round-Usable (parse_loop S fuel found.scan) (parse_loop-Usable fuel found.scan)
            found.result found.optarg (after_getopt S line found) r h)

    -- If `parse_args` returns with success and has found neither `-h` nor `-V`, there are fewer
    -- arguments than before in as many cells, so that one can be added, and the volume's number is at
    -- most 10. `getopt` keeps the number of cells.
    pub parse_args-Usable :
        (fuel : ℕ) (args : ℕ × Cells) (last : Line)
        → parse_args S fuel args ≡ some (true, last)
        → (last.options.help || last.options.version) ≡ false
        → (last.args.0 < args.0)
          × (length last.args.1 ≡ length args.1)
          × (last.options.adf_volume ≤ 10)
    unfolding parse_args
    parse_args-Usable fuel args last h flags =
        parse_loop-Usable fuel S.first_scan _ (true, last) h refl flags (omega arith)
