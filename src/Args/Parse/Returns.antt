-- ===== src/Args/Parse/Returns.antt =====
-- That `parse_args` of src/fuseadf.c returns.
use fuseadf.Prelude.{
  ℕ, zero, suc, ◌≤◌, ◌<◌, ◌%◌, ◌^◌, ◌≡◌, ◌≢◌, refl, ap, Bool, true, false, ◌||◌, Option, none, some,
  Option-cases, inl, inr, [], ◌∷◌, ◌++◌, arith, Bytes, codes, length, strcmp_eq, ltb, ◌==◌,
  if◌then◌else◌,
}
use fuseadf.Args.{Cells}
use fuseadf.Args.Parse.Edits.{line_at, drop_one-line_at, drop_two-line_at}
use fuseadf.Args.Parse.{
  Shell, Options, Line, Round, again, stop, broken, drop_one, drop_two, default_log,
  default_options, parse_volume, parse_log, parse_mount_option, parse_option, parse_rest,
  after_getopt, after_round, parse_loop, parse_args,
}

last_one :
    (xs : Cells) → 1 ≤ length xs → (front : Cells) × (x : Option Bytes) × (xs ≡ front ++ x ∷ [])
last_one [] h = absurd (omega arith)
last_one (x ∷ []) h = ([], x, refl)
last_one (x ∷ y ∷ xs) h =
    let (front, z, e) = last_one (y ∷ xs) (omega arith) in (x ∷ front, z, ap (λ t. x ∷ t) e)

last_two :
    (xs : Cells)
    → 2 ≤ length xs
    → (front : Cells) × (x : Option Bytes) × (y : Option Bytes) × (xs ≡ front ++ (x ∷ y ∷ []))
last_two [] h = absurd (omega arith)
last_two (x ∷ []) h = absurd (omega arith)
last_two (x ∷ y ∷ []) h = ([], x, y, refl)
last_two (x ∷ y ∷ z ∷ xs) h =
    let (front, v, w, e) = last_two (y ∷ z ∷ xs) (omega arith) in
    (x ∷ front, v, w, ap (λ t. x ∷ t) e)

-- Options that take a value: `optarg` is not NULL for them.
abbrev pub needs_value : ℕ → Bool
needs_value opt = (opt == b'p') || (opt == b'o')

-- What `getopt` documents: it looks at the cells from `optind` on, of which it may move some behind
-- those that it has seen, and with each option that it reports fewer are left to report. An option
-- with its value lies behind at least one more cell, the program's name.
pub record IsGetopt (S : Shell) : Type 0 where
  pub remaining : S.Scan → Cells → ℕ
  pub advances :
      (scan : S.Scan) (front rest behind : Cells)
      → let found =
          S.getopt scan (length front) (length (front ++ rest), front ++ (rest ++ behind)) in
        (front' : Cells) × (rest' : Cells) × (length (front ++ rest) ≡ length (front' ++ rest'))
        × (found.argv ≡ front' ++ (rest' ++ behind))
        × (found.optind ≡ length front')
        × ((opt : ℕ)
            → found.result ≡ some opt
            → (remaining found.scan rest' < remaining scan rest)
              × (1 ≤ length front')
              × ((value : Bytes) → found.optarg ≡ some value → 2 ≤ length front')
              × (needs_value opt ≡ true → found.optarg ≢ none))

-- A round that goes on from a line goes on behind the same cells; none breaks.
abbrev Goes : Cells → Round → Type 0
Goes rest (again next) =
    (front : Cells) × (behind : Cells) × (options : Options) × (next
      ≡ line_at front rest behind options)
Goes rest (stop ok last) = Unit
Goes rest broken = ⊥

if-Goes :
    (rest : Cells) (b : Bool) (x y : Round)
    → (b ≡ true → Goes rest x)
    → (b ≡ false → Goes rest y)
    → Goes rest (if b then x else y)
if-Goes rest true x y h k = h refl
if-Goes rest false x y h k = k refl

module _ (front rest behind : Cells) (options : Options) where
  again_one : 1 ≤ length front → Goes rest (again (drop_one (line_at front rest behind options)))
  again_one h =
      let (front', x, e) = last_one front h in
      (front', none ∷ behind, options, rw e (drop_one-line_at front' rest behind x options))

  again_two : 2 ≤ length front → Goes rest (again (drop_two (line_at front rest behind options)))
  again_two h =
      let (front', x, y, e) = last_two front h in
      (
        front',
        none ∷ none ∷ behind,
        options,
        rw e (drop_two-line_at front' rest behind x y options),
      )

stays :
    (front rest behind : Cells) (options : Options)
    → Goes rest (again (line_at front rest behind options))
stays front rest behind options = (front, behind, options, refl)

module _ (S : Shell) (front rest behind : Cells) (options : Options) where
  parse_volume-Goes :
      (optarg : Option Bytes)
      → ((value : Bytes) → optarg ≡ some value → 2 ≤ length front)
      → optarg ≢ none
      → Goes rest (parse_volume S optarg (line_at front rest behind options))
  unfolding parse_volume
  parse_volume-Goes none room given = absurd (given refl)
  parse_volume-Goes (some optarg) room given =
      let volume = (S.strtoul optarg).0 % 2 ^ 32 in
      if-Goes rest ((S.strtoul optarg).1 == 0) _ _ (λ _. tt)
        λ _.
          if-Goes rest (ltb 10 volume) _ _ (λ _. tt)
            λ _.
              again_two front rest behind (record options { adf_volume = volume })
                (room optarg refl)

  parse_log-Goes :
      (optarg : Option Bytes)
      → 1 ≤ length front
      → ((value : Bytes) → optarg ≡ some value → 2 ≤ length front)
      → Goes rest (parse_log optarg (line_at front rest behind options))
  unfolding parse_log
  parse_log-Goes none one room =
      again_one front rest behind (record options { logging_file = some default_log }) one
  parse_log-Goes (some optarg) one room =
      again_two front rest behind (record options { logging_file = some optarg }) (room optarg refl)

  parse_mount_option-Goes :
      (optarg : Option Bytes)
      → optarg ≢ none
      → Goes rest (parse_mount_option optarg (line_at front rest behind options))
  unfolding parse_mount_option
  parse_mount_option-Goes none given = absurd (given refl)
  parse_mount_option-Goes (some optarg) given =
      if-Goes rest (strcmp_eq optarg (codes "ro")) _ _
        (λ _. stays front rest behind (record options { write_mode = false }))
        (λ _. stays front rest behind options)

  parse_option-Goes :
      (opt : ℕ) (optarg : Option Bytes)
      → 1 ≤ length front
      → ((value : Bytes) → optarg ≡ some value → 2 ≤ length front)
      → (needs_value opt ≡ true → optarg ≢ none)
      → Goes rest (parse_option S opt optarg (line_at front rest behind options))
  unfolding parse_option
  parse_option-Goes opt optarg one room given =
      if-Goes rest (opt == b'p') _ _ (λ e. parse_volume-Goes optarg room (given (ground arith)))
        λ _.
          if-Goes rest (opt == b'l') _ _ (λ _. parse_log-Goes optarg one room)
            λ _.
              if-Goes rest (opt == b'i') _ _
                (λ _.
                  again_one front rest behind (record options { ignore_checksum_errors = true })
                    one)
                λ _.
                  if-Goes rest (opt == b's') _ _
                    (λ _. stays front rest behind (record options { single_threaded = true }))
                    λ _.
                      if-Goes rest ((opt == b'd') || (opt == b'f')) _ _
                        (λ _. stays front rest behind options)
                        λ _.
                          if-Goes rest (opt == b'o') _ _
                            (λ e. parse_mount_option-Goes optarg (given (ground arith)))
                            λ _.
                              if-Goes rest (opt == b'h') _ _ (λ _. tt)
                                λ _. if-Goes rest (opt == b'V') _ _ (λ _. tt) (λ _. tt)

module _ (S : Shell) (G : IsGetopt S) where
  -- If the rest of the loop returns behind the same cells, the loop does.
  next_round_returns :
      (rest : Cells) (loop : Line → Option (Bool × Line))
      → ((front behind : Cells) (options : Options)
          → (r : Bool × Line) × (loop (line_at front rest behind options) ≡ some r))
      → (round : Round) → Goes rest round
      → (r : Bool × Line) × (after_round S loop round ≡ some r)
  next_round_returns rest loop ih (again next) (front, behind, options, e) =
      rw e (ih front behind options)
  next_round_returns rest loop ih (stop ok last) g = ((ok, last), refl)
  next_round_returns rest loop ih broken g = absurd g

  parse_loop_returns :
      (fuel : ℕ) (scan : S.Scan) (front rest behind : Cells) (options : Options)
      → G.remaining scan rest < fuel
      → (r : Bool × Line) × (parse_loop S fuel scan (line_at front rest behind options) ≡ some r)
  unfolding parse_loop
  parse_loop_returns zero scan front rest behind options h = absurd (omega arith)
  parse_loop_returns (suc fuel) scan front rest behind options h =
      let args : ℕ × Cells = (length (front ++ rest), front ++ (rest ++ behind)) in
      let found = S.getopt scan (length front) args in
      let (front', rest', number, argv, optind, reported) = G.advances scan front rest behind in
      let line : after_getopt S (line_at front rest behind options) found
          ≡ line_at front' rest' behind options =
        λ i. record { args = (number i, argv i); optind = optind i; options = options } in
      rw line (elim (Option-cases (found.result)) [
        | inl e ↦ (parse_rest S (line_at front' rest' behind options), rw e refl)
        | inr (opt, e) ↦
            let (fewer, one, room, given) = reported opt e in
            rw e (
              next_round_returns rest' (parse_loop S fuel found.scan)
                (λ f b o. parse_loop_returns fuel found.scan f rest' b o (omega arith))
                (parse_option S opt found.optarg (line_at front' rest' behind options))
                (parse_option-Goes S front' rest' behind options opt found.optarg one room given))
      ])

  -- `parse_args` returns, with a result and without a read through a NULL `optarg`, for every list of
  -- arguments that begins with the program's name: the fuel is more than the options that a `getopt`
  -- that meets `IsGetopt` has left to report at the start.
  pub parse_args_returns :
      (fuel : ℕ) (name : Option Bytes) (rest behind : Cells)
      → G.remaining S.first_scan rest < fuel
      → (r : Bool × Line) × (parse_args S fuel (length (name ∷ rest), name ∷ (rest ++ behind))
          ≡ some r)
  unfolding parse_args
  parse_args_returns fuel name rest behind h =
      parse_loop_returns fuel S.first_scan (name ∷ []) rest behind default_options h
