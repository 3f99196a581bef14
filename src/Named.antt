-- ===== src/Named.antt =====
-- The view without working directory and strings: a request names a directory, by the names that
-- lead to it from the root, and an entry in it. The path that FUSE gives joins them by slashes.
pub mod Directory
pub mod Entered
pub mod Change
pub mod Growth
pub mod Attr
pub mod Finds
pub mod Later
pub mod Kind
pub mod Transfer
pub mod Opened
pub mod Listing
pub mod Reach
pub mod Chmod
pub mod Stat
pub mod Rename
pub mod Server
use fuseadf.Prelude.{
  ◌≡◌, ◌≢◌, Bool, true, false, Option, none, some, List, [], ◌∷◌, ◌++◌, Bytes, ℤ, neg,
}
use fuseadf.Pathstr.{slash, bind}
use fuseadf.Libc.{Libc, enoent}
use fuseadf.Adflib.{Adflib, AdfEntry}
use fuseadf.Image.Dentry.{adflib_list_find}
use fuseadf.Workdir.{IsName, Names, descend}
use fuseadf.Workdir.Paths.{join}
use fuseadf.Workdir.Enter.{relative_dir}

-- The path of an entry, without and with its slash.
abbrev pub relative_path : List Bytes → Bytes → Bytes
relative_path dirs name = join (dirs ++ name ∷ [])

abbrev pub rooted_path : List Bytes → Bytes → Bytes
rooted_path dirs name = slash ∷ relative_path dirs name

-- What <libgen.h> documents of `dirname` and `basename` for such paths.
pub record IsSplit (C : Libc) : Type 0 where
  pub dirname_relative :
      (dirs : List Bytes) (name : Bytes)
      → Names dirs
      → IsName name
      → C.dirname (relative_path dirs name) ≡ relative_dir dirs
  pub dirname_rooted :
      (dirs : List Bytes) (name : Bytes)
      → Names dirs
      → IsName name
      → C.dirname (rooted_path dirs name) ≡ slash ∷ join dirs
  pub basename_relative :
      (dirs : List Bytes) (name : Bytes)
      → Names dirs
      → IsName name
      → C.basename (relative_path dirs name) ≡ name
  pub basename_rooted :
      (dirs : List Bytes) (name : Bytes)
      → Names dirs
      → IsName name
      → C.basename (rooted_path dirs name) ≡ name

module _ (L : Adflib) where
  open L use {Vol, cur_dir_ptr, to_root_dir, get_dir_ent}

  -- The volume with its current directory where the names lead from the root.
  abbrev pub locate : Vol → List Bytes → Option Vol
  locate v dirs = descend L (to_root_dir v) dirs

  -- The entry of a name in the current directory.
  abbrev pub entry_here : Vol → Bytes → Option AdfEntry
  entry_here v name = adflib_list_find (get_dir_ent v (cur_dir_ptr v)) name

  -- The entry of a path.
  abbrev pub entry_at : Vol → List Bytes → Bytes → Option AdfEntry
  entry_at v dirs name = bind (locate v dirs) λ there. entry_here there name

  -- An operation of ADFlib in a directory: its result, and the volume at the root. A directory that
  -- is missing is -ENOENT and changes nothing.
  abbrev pub change_at : (Vol → ℤ → Bytes → ℤ × Vol) → Vol → List Bytes → Bytes → ℤ × Vol
  change_at call v dirs name = elim (locate v dirs) [
    | none ↦ (neg enoent, to_root_dir v)
    | some there ↦ let (rc, v') = call there (cur_dir_ptr there) name in (rc, to_root_dir v')
  ]
