-- ===== src/Pathstr.antt =====
-- The path string functions of src/util.h. They work in place on a `char` buffer that holds a
-- string and its NUL. A pointer into the buffer is the list of the cells from it on: a function
-- takes the cells from its pointer and gives them back as it leaves them. A loop of the source
-- that may fail to end takes fuel, and `none` says that the fuel ran out.
pub mod Search
pub mod Slashes
pub mod Parent
pub mod Trim
pub mod Absolute
pub mod Cells
use fuseadf.Prelude.{
  ℕ, zero, suc, Bool, true, false, ◌&&◌, Option, none, some, List, [], ◌∷◌, ◌++◌, Bytes, ◌==◌,
  if◌then◌else◌,
}

abbrev pub nul : ℕ
nul = 0

abbrev pub slash : ℕ
slash = b'/'

abbrev pub dot : ℕ
dot = b'.'

-- The buffer of a string.
abbrev pub buffer : Bytes → List ℕ
buffer s = s ++ nul ∷ []

-- The string that a buffer holds: its cells before the first NUL.
abbrev pub c_str : List ℕ → Bytes
c_str [] = []
c_str (c ∷ s) = if c == nul then [] else c ∷ c_str s

abbrev pub starts_with : Bytes → List ℕ → Bool
starts_with [] s = true
starts_with (n ∷ ns) [] = false
starts_with (n ∷ ns) (c ∷ s) = n == c && starts_with ns s

abbrev pub prepend : ℕ → Option (Bytes × List ℕ) → Option (Bytes × List ℕ)
prepend c none = none
prepend c (some (pre, post)) = some (c ∷ pre, post)

-- `strstr`: the cells before the first occurrence and those from it on.
unfoldable pub strstr : Bytes → List ℕ → Option (Bytes × List ℕ)
strstr n [] = none
strstr n (c ∷ s) =
    if starts_with n (c ∷ s)
    then some ([], c ∷ s)
    else if c == nul
    then none
    else prepend c (strstr n s)

-- `do { *ch = *( ch + 1 ); } while ( *( ch + 1 ) != '\0' );` on the cells from `ch` on. The pointer
-- does not move. With fewer than two cells the read is outside the buffer.
unfoldable pub copy_next : ℕ → List ℕ → Option (List ℕ)
copy_next zero cells = none
copy_next (suc fuel) (c ∷ d ∷ rest) =
    let again = copy_next fuel (d ∷ d ∷ rest) in if d == nul then some (d ∷ d ∷ rest) else again
copy_next (suc fuel) cells = none

abbrev pub after_prefix : Bytes → Option (List ℕ) → Option (List ℕ)
after_prefix pre none = none
after_prefix pre (some cells) = some (pre ++ cells)

abbrev pub bind {ℓ κ} : {A : Type ℓ} {B : Type κ} → Option A → (A → Option B) → Option B
bind none f = none
bind (some a) f = f a

-- `pathstr_remove_double_slashes`, on the cells from `path` on: the next search starts at the
-- double slash that was found.
unfoldable pub remove_double_slashes : ℕ → List ℕ → Option (List ℕ)
remove_double_slashes zero path = none
remove_double_slashes (suc fuel) path = elim (strstr (slash ∷ slash ∷ []) path) [
  | none ↦ some path
  | some (pre, []) ↦ none
  | some (pre, first ∷ ch) ↦
      bind (copy_next fuel ch) λ ch'. after_prefix pre (remove_double_slashes fuel (first ∷ ch'))
]

-- The first loop of `pathstr_dirparent_u2a`: `../` is to become `//`.
unfoldable pub replace_dotdot_slash : ℕ → List ℕ → Option (List ℕ)
replace_dotdot_slash zero pathstr = none
replace_dotdot_slash (suc fuel) pathstr = elim (strstr (dot ∷ dot ∷ slash ∷ []) pathstr) [
  | none ↦ some pathstr
  | some (pre, []) ↦ none
  | some (pre, parent ∷ rest) ↦
      bind (copy_next fuel rest) λ rest'. replace_dotdot_slash fuel (pre ++ slash ∷ rest')
]

-- Its second loop: `/..` at the end becomes `//`. Where the first `/..` is not at the end nothing is
-- written, and the loop searches again.
unfoldable pub replace_final_dotdot : ℕ → List ℕ → Option (List ℕ)
replace_final_dotdot zero pathstr = none
replace_final_dotdot (suc fuel) pathstr = elim (strstr (slash ∷ dot ∷ dot ∷ []) pathstr) [
  | none ↦ some pathstr
  | some (pre, a ∷ b ∷ c ∷ d ∷ rest) ↦ elim (d == nul) [
    | true ↦
        bind (copy_next fuel (c ∷ d ∷ rest))
          λ cells. replace_final_dotdot fuel (pre ++ a ∷ slash ∷ cells)
    | false ↦ replace_final_dotdot fuel pathstr
  ]
  | some (pre, post) ↦ none
]

unfoldable pub pathstr_dirparent_u2a : ℕ → List ℕ → Option (List ℕ)
pathstr_dirparent_u2a fuel pathstr =
    bind (replace_dotdot_slash fuel pathstr) (replace_final_dotdot fuel)

unfoldable pub pathstr_fuse2amigados : ℕ → List ℕ → Option (List ℕ)
pathstr_fuse2amigados fuel pathstr =
    bind (remove_double_slashes fuel pathstr) (pathstr_dirparent_u2a fuel)

-- `pathstr_get_relative`, and the same loop where the source writes it out: skip leading slashes.
unfoldable pub pathstr_get_relative : Bytes → Bytes
pathstr_get_relative [] = []
pathstr_get_relative (c ∷ path) =
    let rest = pathstr_get_relative path in if c == slash then rest else c ∷ path

-- `rindex ( path, '/' )` with the test that nothing follows the slash, as the string without it.
abbrev pub drop_last_slash : Bytes → Option Bytes
drop_last_slash [] = none
drop_last_slash (c ∷ []) = if c == slash then some [] else none
drop_last_slash (c ∷ d ∷ s) = bind (drop_last_slash (d ∷ s)) λ t. some (c ∷ t)

unfoldable pub pathstr_remove_trailing_slashes : ℕ → Bytes → Option Bytes
pathstr_remove_trailing_slashes zero path = none
pathstr_remove_trailing_slashes (suc fuel) path = elim (drop_last_slash path) [
  | none ↦ some path
  | some shorter ↦ pathstr_remove_trailing_slashes fuel shorter
]

unfoldable pub pathstr_is_non_empty : Bytes → Bool
pathstr_is_non_empty [] = false
pathstr_is_non_empty (c ∷ path) = true
