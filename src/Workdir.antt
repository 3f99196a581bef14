-- ===== src/Workdir.antt =====
-- What the working directory of src/adfimage.c stands for: the names that lead from the root to the
-- directory where the volume stands.
pub mod Paths
pub mod Enter
pub mod Chdir
pub mod Bounds
pub mod Lookup
use fuseadf.Prelude.{
  Bool, true, false, not, Option, none, some, List, [], ◌∷◌, ◌++◌, ◌≡◌, ◌≢◌, Bytes, strcmp_eq,
  if◌then◌else◌,
}
use fuseadf.Pathstr.{slash, dot}
use fuseadf.Adflib.{Adflib, is_ok}
use fuseadf.Image.{Image, root_path, components}

-- `cwd` after the directories of a list have been appended to it.
unfoldable pub render : Bytes → List Bytes → Bytes
render cwd [] = cwd
render cwd (dir ∷ dirs) =
    render ((if not (strcmp_eq cwd root_path) then cwd ++ root_path else cwd) ++ dir) dirs

-- The names that a path without leading slashes asks for.
unfoldable pub asked : Bytes → List Bytes
asked [] = []
asked (c ∷ path) = if strcmp_eq (c ∷ path) (dot ∷ []) then [] else components (c ∷ path)

abbrev pub is_nil : List Bytes → Bool
is_nil [] = true
is_nil (d ∷ ds) = false

abbrev pub NoSlash : Bytes → Type 0
NoSlash [] = Unit
NoSlash (c ∷ s) = (c ≢ slash) × NoSlash s

-- A name that a path can hold as one component.
abbrev pub IsName : Bytes → Type 0
IsName name = (name ≢ []) × (name ≢ dot ∷ []) × NoSlash name

abbrev pub Names : List Bytes → Type 0
Names [] = Unit
Names (d ∷ ds) = IsName d × Names ds

module _ (L : Adflib) where
  open L use {Vol, to_root_dir, change_dir}

  -- Where the names lead, each by a successful `adfChangeDir`.
  unfoldable pub descend : Vol → List Bytes → Option Vol
  descend v [] = some v
  descend v (dir ∷ dirs) =
      let (rc, w) = change_dir v dir in elim (is_ok rc) [ true ↦ descend w dirs | false ↦ none ]

  -- `cwd` spells the names that lead from the root to where the volume stands.
  pub record At (img : Image Vol) (dirs : List Bytes) : Type 0 where
    pub spelled : img.cwd ≡ render root_path dirs
    pub reached : descend (to_root_dir img.vol) dirs ≡ some img.vol
