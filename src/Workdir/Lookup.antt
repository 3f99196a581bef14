-- ===== src/Workdir/Lookup.antt =====
-- `adfimage_getdentry`: where it looks, and whether it goes back.
use fuseadf.Prelude.{
  ◌≡◌, refl, ap, Bool, false, Bool-cases, inl, inr, Option, some, List, [], ◌∷◌, ◌++◌, Bytes,
  length, strcmp_eq, ◌==◌,
}
use fuseadf.Pathstr.{slash, pathstr_get_relative}
use fuseadf.Libc.{Libc}
use fuseadf.Adflib.{Adflib, AdfEntry}
use fuseadf.Adflib.Laws.{IsDirectory, KeepsOnFailure}
use fuseadf.Path.{PathT, path_create}
use fuseadf.Image.{Image, root_path, chdir, enter_dirpath, leave_dirpath}
use fuseadf.Image.Dentry.{
  Dentry, no_dentry, found_dentry, adflib_list_find, lookup_dentry, getdentry,
}
use fuseadf.History.Chdir.{SameDisk, SameDisk-refl, chdir-SameDisk, suc_ne_zero}
use fuseadf.Workdir.{asked, is_nil, Names, At}
use fuseadf.Workdir.Chdir.{chdir-At, chdir_back}

module _ (L : Adflib) (D : IsDirectory L) (K : KeepsOnFailure L) (C : Libc) where
  open L use {Vol, get_dir_ent, cur_dir_ptr}

  enter_dirpath-SameDisk :
      (dirpath : Bytes) (img : Image Vol) → SameDisk L (enter_dirpath L dirpath img).2 img
  unfolding enter_dirpath
  enter_dirpath-SameDisk dirpath img = elim (Bool-cases (length dirpath == 0)) [
    | inl e ↦ rw e (SameDisk-refl L img)
    | inr e ↦ rw e (chdir-SameDisk L D dirpath img)
  ]

  -- Leaving the directory of a path restores the image, if nothing was written there.
  pub leave-enter :
      (dirpath : Bytes) (dirs : List Bytes) (img : Image Vol)
      → Names dirs
      → At L img dirs
      → let (cwd, _, there) = enter_dirpath L dirpath img in leave_dirpath L cwd there ≡ img
  unfolding enter_dirpath leave_dirpath
  leave-enter dirpath dirs img names at = elim (Bool-cases (length dirpath == 0)) [
    | inl e ↦ rw e refl
    | inr e ↦ rw e (
        ap (λ (r : Bool × Image Vol). r.1)
          (chdir_back L D K dirs img (chdir L dirpath img).1 names at
            (chdir-SameDisk L D dirpath img)))
  ]

  abbrev pub stays_if_empty : List AdfEntry → Image Vol → Image Vol → Image Vol
  stays_if_empty [] there img = there
  stays_if_empty (e ∷ es) there img = img

  lookup_image :
      (entryname : Bytes) (cwd : Option Bytes) (there img : Image Vol)
      → leave_dirpath L cwd there ≡ img
      → (lookup_dentry L entryname cwd there).1
        ≡ stays_if_empty (get_dir_ent there.vol (cur_dir_ptr there.vol)) there img
  unfolding lookup_dentry
  lookup_image entryname cwd there img back = go (get_dir_ent there.vol (cur_dir_ptr there.vol))
    where
      go :
          (es : List AdfEntry)
          → (elim es as (λ _. Dentry × Image Vol) [
            | [] ↦ (no_dentry, there)
            | e ∷ es ↦
                (found_dentry (adflib_list_find (e ∷ es) entryname), leave_dirpath L cwd there)
          ]).1
            ≡ stays_if_empty es there img
      go [] = refl
      go (e ∷ es) = back

  -- Looking up a path other than `/` restores the image, its `cwd` and its volume's directory,
  -- unless the directory that was entered has no entry: then the image stays there. `path_create`
  -- succeeds, the image's `cwd` spells names that lead from the root to where its volume stands,
  -- and ADFlib meets `IsDirectory` and `KeepsOnFailure`.
  pub getdentry_image :
      (pathname : Bytes) (path : PathT) (dirs : List Bytes) (img : Image Vol)
      → strcmp_eq pathname root_path ≡ false
      → path_create C pathname ≡ some path
      → Names dirs
      → At L img dirs
      → let there = (enter_dirpath L path.dirpath img).2 in
        (getdentry L C pathname img).1
        ≡ stays_if_empty (get_dir_ent there.vol (cur_dir_ptr there.vol)) there img
  unfolding getdentry
  getdentry_image pathname path dirs img not_root created names at =
      rw (not_root, created, getdentry)
        (lookup_image path.entryname _ _ img (leave-enter path.dirpath dirs img names at))

  lookup_found :
      (entryname : Bytes) (cwd : Option Bytes) (there : Image Vol) (e : AdfEntry)
      → adflib_list_find (get_dir_ent there.vol (cur_dir_ptr there.vol)) entryname ≡ some e
      → (lookup_dentry L entryname cwd there).0 ≡ found_dentry (some e)
  unfolding lookup_dentry adflib_list_find
  lookup_found entryname cwd there e found =
      go (get_dir_ent there.vol (cur_dir_ptr there.vol)) found
    where
      go :
          (es : List AdfEntry)
          → adflib_list_find es entryname ≡ some e
          → (elim es as (λ _. Dentry × Image Vol) [
            | [] ↦ (no_dentry, there)
            | e ∷ es ↦
                (found_dentry (adflib_list_find (e ∷ es) entryname), leave_dirpath L cwd there)
          ]).0
            ≡ found_dentry (some e)
      go [] h = cc
      go (x ∷ es) h = ap found_dentry h

  abbrev pub Astray : List Bytes → Image Vol → Type 0
  Astray dirs there =
      (done : List Bytes) × (missing : Bytes) × (rest : List Bytes) × (dirs
        ≡ done ++ (missing ∷ rest))
      × At L there done

  astray :
      (t : Bytes) (img there : Image Vol)
      → chdir L (slash ∷ t) img ≡ (false, there)
      → Astray (asked (pathstr_get_relative (slash ∷ t))) there
  astray t img there failed = rw failed at (go (chdir-At L D K t img))
    where
      go :
          (done : List Bytes) × (rest : List Bytes) × (asked (pathstr_get_relative (slash ∷ t))
              ≡ done ++ rest)
            × ((chdir L (slash ∷ t) img).0 ≡ is_nil rest)
            × At L (chdir L (slash ∷ t) img).1 done
          → Astray (asked (pathstr_get_relative (slash ∷ t))) (chdir L (slash ∷ t) img).1
      go (done, [], split, ok, at) = absurd (cc (ap (λ (r : Bool × Image Vol). r.0) failed, ok))
      go (done, missing ∷ rest, split, ok, at) = (done, missing, rest, split, at)

  -- If a directory of an absolute path is missing, `adfimage_getdentry` does not fail where the
  -- last directory that it could enter has an entry of the name that is looked up: it answers with
  -- that entry. The path is not `/`, `path_create` succeeds, and ADFlib meets `IsDirectory` and
  -- `KeepsOnFailure`.
  pub getdentry-Astray :
      (pathname t : Bytes) (path : PathT) (e : AdfEntry) (img there : Image Vol)
      → strcmp_eq pathname root_path ≡ false
      → path_create C pathname ≡ some path
      → path.dirpath ≡ slash ∷ t
      → chdir L (slash ∷ t) img ≡ (false, there)
      → adflib_list_find (get_dir_ent there.vol (cur_dir_ptr there.vol)) path.entryname ≡ some e
      → ((getdentry L C pathname img).0 ≡ found_dentry (some e))
        × Astray (asked (pathstr_get_relative (slash ∷ t))) there
  unfolding getdentry enter_dirpath
  getdentry-Astray pathname t path e img there not_root created abs failed found = (
    rw (not_root, created, getdentry)
        (rw (abs, suc_ne_zero (length t), failed)
          (lookup_found path.entryname (some img.cwd) there e found)),
    astray t img there failed,
  )
