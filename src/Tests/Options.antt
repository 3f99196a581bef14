-- ===== src/Tests/Options.antt =====
-- A scanner for the options `-i`, `-s` and `-p number` that meets what the proofs assume of `getopt`,
-- and a command line.
use fuseadf.Prelude.{
  ℕ, suc, ◌+◌, ◌-◌, ◌*◌, ◌≤◌, ◌<◌, ◌≡◌, ◌≢◌, refl, ap, sym, ◌∙◌, Bool, true, false, ◌&&◌, Option,
  none, some, [], ◌∷◌, ◌++◌, append_assoc, arith, Bytes, codes, length, take, drop, strcmp_eq, leb,
  if◌then◌else◌, length-append,
}
use fuseadf.Args.{Cells}
use fuseadf.Args.Parse.{Found, Shell, Line, default_options}
use fuseadf.Args.Parse.Returns.{needs_value, IsGetopt}

-- The option, its value, the cells it takes and those behind them.
pub record Step : Type 0 where
  pub option : Option ℕ
  pub value : Option Bytes
  pub taken : Cells
  pub left : Cells

abbrev flag : ℕ → Option Bytes → Cells → Step
flag opt x rest = record { option = some opt; value = none; taken = x ∷ []; left = rest }

abbrev no_step : Cells → Step
no_step rest = record { option = none; value = none; taken = []; left = rest }

-- A value that is missing is reported by a question mark.
abbrev with_value : Option Bytes → Cells → Step
with_value x [] = flag b'?' x []
with_value x (none ∷ rest) = flag b'?' x (none ∷ rest)
with_value x (some y ∷ rest) = record {
  option = some b'p';
  value = some y;
  taken = x ∷ some y ∷ [];
  left = rest;
}

abbrev step : Cells → Step
step [] = no_step []
step (none ∷ rest) = no_step (none ∷ rest)
step (some x ∷ rest) =
    if strcmp_eq x (codes "-i")
    then flag b'i' (some x) rest
    else if strcmp_eq x (codes "-s")
    then flag b's' (some x) rest
    else if strcmp_eq x (codes "-p")
    then with_value (some x) rest
    else no_step (some x ∷ rest)

abbrev digits : ℕ → Bytes → ℕ × ℕ
digits value [] = (value, 0)
digits value (c ∷ s) =
    let (value', count) = digits (10 * value + (c - b'0')) s in
    if leb b'0' c && leb c b'9' then (value', suc count) else (value, 0)

abbrev scan_cells : ℕ → ℕ × Cells → Found Unit
scan_cells optind (argc, argv) =
    let found = step (take (argc - optind) (drop optind argv)) in
    record {
      result = found.option;
      optarg = found.value;
      optind = optind + length found.taken;
      argv = argv;
      scan = tt;
    }

abbrev pub shell : Shell
shell = record {
  Scan = Unit;
  first_scan = tt;
  getopt = λ scan. scan_cells;
  strtoul = digits 0;
  realpath = λ path. path;
}

-- What a step promises.
abbrev Good : Cells → Step → Type 0
Good rest found =
    (rest ≡ found.taken ++ found.left)
    × ((opt : ℕ)
        → found.option ≡ some opt
        → (length found.left < length rest)
          × (1 ≤ length found.taken)
          × ((value : Bytes) → found.value ≡ some value → 2 ≤ length found.taken)
          × (needs_value opt ≡ true → found.value ≢ none))

flag-Good :
    (opt : ℕ) (x : Option Bytes) (rest : Cells)
    → needs_value opt ≡ false
    → Good (x ∷ rest) (flag opt x rest)
flag-Good opt x rest h = (
  refl,
  λ opt' e.
      (omega arith, omega arith, (λ value v. absurd (cc v)), λ needs. absurd (cc (h, needs, e))),
)

no_step-Good : (rest : Cells) → Good rest (no_step rest)
no_step-Good rest = (refl, λ opt e. absurd (cc e))

with_value-Good : (x : Option Bytes) (rest : Cells) → Good (x ∷ rest) (with_value x rest)
with_value-Good x [] = flag-Good b'?' x [] refl
with_value-Good x (none ∷ rest) = flag-Good b'?' x (none ∷ rest) refl
with_value-Good x (some y ∷ rest) =
    (refl, λ opt e. (omega arith, omega arith, (λ value v. omega arith), λ needs given. cc given))

if-Good :
    (rest : Cells) (b : Bool) (x y : Step)
    → Good rest x
    → Good rest y
    → Good rest (if b then x else y)
if-Good rest true x y h k = h
if-Good rest false x y h k = k

step-Good : (rest : Cells) → Good rest (step rest)
step-Good [] = no_step-Good []
step-Good (none ∷ rest) = no_step-Good (none ∷ rest)
step-Good (some x ∷ rest) =
    if-Good (some x ∷ rest) (strcmp_eq x (codes "-i")) _ _ (flag-Good b'i' (some x) rest refl) (
      if-Good (some x ∷ rest) (strcmp_eq x (codes "-s")) _ _ (flag-Good b's' (some x) rest refl) (
        if-Good (some x ∷ rest) (strcmp_eq x (codes "-p")) _ _ (with_value-Good (some x) rest)
          (no_step-Good (some x ∷ rest))))

take-length : (xs ys : Cells) → take (length xs) (xs ++ ys) ≡ xs
take-length [] ys = refl
take-length (x ∷ xs) ys = ap (λ t. x ∷ t) (take-length xs ys)

drop-length : (xs ys : Cells) → drop (length xs) (xs ++ ys) ≡ ys
drop-length [] ys = refl
drop-length (x ∷ xs) ys = drop-length xs ys

seen :
    (front rest behind : Cells)
    → take (length (front ++ rest) - length front) (drop (length front) (front ++ (rest ++ behind)))
      ≡ rest
seen front rest behind =
    let count : length (front ++ rest) - length front ≡ length rest =
      omega (arith, length-append {0} front rest) in
    rw (count, drop-length front (rest ++ behind)) (take-length rest behind)

cut :
    (front rest : Cells) (found : Step)
    → rest ≡ found.taken ++ found.left
    → front ++ rest ≡ (front ++ found.taken) ++ found.left
cut front rest found split =
    ap (λ t. front ++ t) split ∙ sym (append_assoc front found.taken found.left)

moved :
    (front rest behind : Cells) (found : Step)
    → rest ≡ found.taken ++ found.left
    → front ++ (rest ++ behind) ≡ (front ++ found.taken) ++ (found.left ++ behind)
moved front rest behind found split =
    sym (append_assoc front rest behind)
    ∙ ap (λ t. t ++ behind) (cut front rest found split)
    ∙ append_assoc (front ++ found.taken) found.left behind

pub shell_IsGetopt : IsGetopt shell
shell_IsGetopt = record {
  remaining = λ scan rest. length rest;
  advances = λ scan front rest behind.
      let found = step rest in
      let (split, reported) = step-Good rest in
      let more : length (front ++ found.taken) ≡ length front + length found.taken =
        length-append front found.taken in
      rw (seen front rest behind) (
        front ++ found.taken,
        found.left,
        ap length (cut front rest found split),
        moved front rest behind found split,
        sym more,
        λ opt e.
            let (fewer, one, two, given) = reported opt e in
            (fewer, omega (arith, more, one), (λ value v. omega (arith, more, two value v)), given),
      );
}

pub remaining_lem : (rest : Cells) → shell_IsGetopt.remaining tt rest ≡ length rest
unfolding shell_IsGetopt
remaining_lem rest = refl

abbrev pub cells : Cells
cells =
    some (codes "-p")
    ∷ some (codes "1")
    ∷ some (codes "-i")
    ∷ some (codes "disk.adf")
    ∷ some (codes "mnt")
    ∷ []

abbrev pub command_line : ℕ × Cells
command_line = (6, some (codes "fuseadf") ∷ (cells ++ none ∷ []))

abbrev pub parsed_line : Line
parsed_line = record {
  args = (2, some (codes "fuseadf") ∷ some (codes "mnt") ∷ none ∷ none ∷ none ∷ none ∷ none ∷ []);
  optind = 1;
  options = record default_options {
    adf_volume = 1;
    ignore_checksum_errors = true;
    adf_filename = some (codes "disk.adf");
    mount_point = some (codes "mnt");
  };
}
