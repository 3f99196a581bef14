-- ===== src/Named/Entered.antt =====
-- The functions of src/adfimage.c that cut a path by `path_create` and enter its directory, on a path
-- of names.
use fuseadf.Prelude.{◌≡◌, refl, ◌∙◌, Bool, Option, none, some, List, ◌∷◌, Bytes, arith, length}
use fuseadf.Pathstr.{slash}
use fuseadf.Libc.{Libc}
use fuseadf.Adflib.{Adflib}
use fuseadf.Path.{PathT, path_create}
use fuseadf.Image.{Image, root_path, to_root, chdir, enter_dirs, enter_dirpath}
use fuseadf.Workdir.{IsName, Names}
use fuseadf.Workdir.Paths.{join}
use fuseadf.Workdir.Enter.{chdir_rooted}
use fuseadf.History.Chdir.{suc_ne_zero}
use fuseadf.Named.{rooted_path, IsSplit}

pub path_create_lem :
    (C : Libc) (p : Bytes) (path : PathT)
    → path_create C p ≡ some path
    → (path.dirpath ≡ C.dirname p) × (path.entryname ≡ C.basename p)
unfolding path_create
path_create_lem C p path e = (ground arith, ground arith)

-- The allocations for a path succeed.
abbrev pub Created : Libc → Bytes → Type 0
Created C p = (path : PathT) × (path_create C p ≡ some path)

module _ (L : Adflib) where
  open L use {Vol}

  enter_rooted :
      (dirpath dir : Bytes) (img : Image Vol)
      → dirpath ≡ slash ∷ dir
      → let (ok, there) = chdir L (slash ∷ dir) img in
        enter_dirpath L dirpath img ≡ (some img.cwd, ok, there)
  unfolding enter_dirpath
  enter_rooted dirpath dir img e = rw (e, suc_ne_zero (length dir)) refl

module _ (L : Adflib) {A : Type 0} where
  open L use {Vol}

  -- What they share: `k` is given the name, the saved working directory, and the image behind the
  -- change of directory with its result.
  abbrev pub in_dirpath :
      Libc
      → A
      → (Bytes → Option Bytes × Bool × Image Vol → A × Image Vol)
      → Bytes
      → Image Vol
      → A × Image Vol
  in_dirpath C a k pathstr img = elim (path_create C pathstr) [
    | none ↦ (a, img)
    | some path ↦ k path.entryname (enter_dirpath L path.dirpath img)
  ]

  module _ (C : Libc) (P : IsSplit C) where
    -- For a path of names.
    pub in_dirpath_named :
        (a : A) (k : Bytes → Option Bytes × Bool × Image Vol → A × Image Vol) (dirs : List Bytes)
        (name : Bytes) (img : Image Vol)
        → Names dirs
        → IsName name
        → Created C (rooted_path dirs name)
        → let (ok, there) = enter_dirs L dirs (record (to_root L img) { cwd = root_path }) in
          in_dirpath C a k (rooted_path dirs name) img ≡ k name (some img.cwd, ok, there)
    in_dirpath_named a k dirs name img h named (path, created) =
        let (dir, entryname) = path_create_lem C (rooted_path dirs name) path created in
        rw
          (
            created,
            in_dirpath,
            enter_rooted L path.dirpath (join dirs) img (dir ∙ P.dirname_rooted dirs name h named),
            entryname ∙ P.basename_rooted dirs name h named,
            chdir_rooted L dirs img h,
          )
          refl
