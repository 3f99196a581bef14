-- ===== src/Image.antt =====
-- The state of src/adfimage.c and its working directory: `adfimage_t`, `append_dir`,
-- `adfimage_chdir` and the counts of entries. ADFlib is the parameter `L`.
pub mod Dentry
pub mod Perm
pub mod Files
pub mod Entries
pub mod Rename
use fuseadf.Prelude.{
  ℕ, Bool, true, false, not, Option, none, some, List, [], ◌∷◌, ◌++◌, Bytes, length, strcmp_eq,
  ◌==◌, if◌then◌else◌,
}
use fuseadf.Pathstr.{slash, dot, pathstr_get_relative}
use fuseadf.Adflib.{Adflib, is_ok}

-- `adfimage_t` over a volume. `blksize` is the block size in `fstat`. The file name and the device
-- are only used by `adfimage_open` and `adfimage_close`.
pub record Image (V : Type 0) : Type 0 where
  pub vol : V
  pub cwd : Bytes
  pub blksize : ℕ

-- ADFIMAGE_MAX_PATH
abbrev pub max_path : ℕ
max_path = 1024

abbrev pub root_path : Bytes
root_path = slash ∷ []

abbrev pub with_head : ℕ → List Bytes → List Bytes
with_head c [] = (c ∷ []) ∷ []
with_head c (d ∷ ds) = (c ∷ d) ∷ ds

-- The strings that the loop of `adfimage_chdir` finds, when `strchr` cuts the path at each slash.
unfoldable pub components : Bytes → List Bytes
components [] = [] ∷ []
components (c ∷ s) = let rest = components s in if c == slash then [] ∷ rest else with_head c rest

module _ (L : Adflib) where
  open L use {Vol, cur_dir_ptr, to_root_dir, change_dir, get_dir_ent}

  unfoldable pub append_dir : Bytes → Image Vol → Image Vol
  append_dir dir img =
      let cwd = if not (strcmp_eq img.cwd root_path) then img.cwd ++ root_path else img.cwd in
      record img { cwd = cwd ++ dir }

  -- Change to each directory in turn, until one fails.
  unfoldable pub enter_dirs : List Bytes → Image Vol → Bool × Image Vol
  enter_dirs [] img = (true, img)
  enter_dirs (dir ∷ dirs) img =
      let (rc, v) = change_dir img.vol dir in
      elim (is_ok rc) [
        | true ↦ enter_dirs dirs (append_dir dir (record img { vol = v }))
        | false ↦ (false, record img { vol = v })
      ]

  unfoldable pub to_root : Image Vol → Image Vol
  to_root img = record img { vol = to_root_dir img.vol }

  abbrev pub enter_path : Bytes → Image Vol → Bool × Image Vol
  enter_path [] img = (true, img)
  enter_path (c ∷ path) img =
      if strcmp_eq (c ∷ path) (dot ∷ [])
      then (true, img)
      else enter_dirs (components (c ∷ path)) img

  unfoldable pub chdir : Bytes → Image Vol → Bool × Image Vol
  unfolding to_root
  chdir [] img = (false, img)
  chdir (c ∷ path) img =
      if c == slash
      then enter_path (pathstr_get_relative (c ∷ path)) (record (to_root img) { cwd = root_path })
      else enter_path (c ∷ path) img

  -- An ADFlib list is NULL where it has no entry.
  unfoldable pub count_cwd_entries : Image Vol → ℕ
  count_cwd_entries img = length (get_dir_ent img.vol (cur_dir_ptr img.vol))

  unfoldable pub count_dir_entries : Bytes → Image Vol → ℕ × Image Vol
  count_dir_entries dirpath img =
      let (_, there) = chdir dirpath img in
      let (_, back) = chdir img.cwd there in (count_cwd_entries there, back)

  -- The beginning and the end of the functions that work in the directory of a path: the working
  -- directory is saved if the path has a directory, and restored if it was saved.
  unfoldable pub enter_dirpath : Bytes → Image Vol → Option Bytes × Bool × Image Vol
  enter_dirpath dirpath img =
      if length dirpath == 0
      then (none, true, img)
      else let (ok, there) = chdir dirpath img in (some img.cwd, ok, there)

  unfoldable pub leave_dirpath : Option Bytes → Image Vol → Image Vol
  leave_dirpath none img = img
  leave_dirpath (some cwd) img = (chdir cwd img).1
