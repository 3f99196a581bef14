-- ===== src/Cwd.antt =====
-- The length of `cwd` of `adfimage_t` over a whole session: how the functions of src/adfimage.c and
-- src/adffs.c may leave it, by changes of directory and calls of ADFlib that lead there.
pub mod Ceiling
pub mod Operations
pub mod Files
pub mod Entries
pub mod Handlers
pub mod Requests
pub mod Sessions
use fuseadf.Prelude.{ℕ, suc, ◌+◌, ◌≤◌, ◌≡◌, ◌⊎◌, Bytes, codes, length, strcmp_eq, if◌then◌else◌}
use fuseadf.Adflib.{Adflib}
use fuseadf.Image.{Image, chdir}
use fuseadf.History.Chdir.{Absolute}

-- The room that a change to a relative path may take.
abbrev pub room : Bytes → ℕ
room path = if strcmp_eq path (codes ".") then 0 else suc (length path)

-- A change to this path takes no room beyond h bytes.
abbrev pub Enters : ℕ → Bytes → Type 0
Enters h path = (path ≡ codes ".") ⊎ (Absolute path × (length path ≤ h))

module _ (L : Adflib) where
  open L use {Vol}

  -- `cwd` is an absolute path of at most h bytes.
  abbrev pub Fits : ℕ → Image Vol → Type 0
  Fits h img = Absolute img.cwd × (length img.cwd ≤ h)

  -- Ways from one image to another, with the length that `cwd` is allowed before and after: a call of
  -- ADFlib, a change to a path that takes no room, one to a path that does, and, after other moves,
  -- the change back to the `cwd` that was saved before them.
  pub data Moves : ℕ → Image Vol → ℕ → Image Vol → Type 0 where
    stay : (h : ℕ) (img : Image Vol) → Moves h img h img
    call :
        {h k : ℕ} {img img' : Image Vol} (v : Vol)
        → Moves h img k img'
        → Moves h img k (record img' { vol = v })
    enter :
        {h k : ℕ} {img img' : Image Vol} (path : Bytes)
        → Enters k path
        → Moves h img k img'
        → Moves h img k (chdir L path img').1
    grow :
        {h k : ℕ} {img img' : Image Vol} (path : Bytes)
        → Moves h img k img'
        → Moves h img (k + room path) (chdir L path img').1
    back :
        {h k l : ℕ} {img img' img'' : Image Vol}
        → Moves h img k img'
        → Moves k img' l img''
        → Moves h img l (chdir L img'.cwd img'').1
