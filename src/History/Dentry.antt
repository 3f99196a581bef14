-- ===== src/History/Dentry.antt =====
-- Looking entries up, from two images with the same disk; and setting permissions.
use fuseadf.Prelude.{ℕ, ◌≡◌, refl, sym, ap, ◌∙◌, Option, List, ◌∷◌, [], Bytes, strcmp_eq}
use fuseadf.Pathstr.{slash}
use fuseadf.Libc.{Libc, IsPosix}
use fuseadf.Adflib.{Adflib, AdfEntry, EntryBlock, is_ok}
use fuseadf.Adflib.Laws.{IsDirectory, IsPositionFree}
use fuseadf.Image.{Image, root_path, leave_dirpath}
use fuseadf.Image.Dentry.{
  Dentry, no_dentry, found_dentry, adflib_list_find, get_root_dentry, lookup_dentry, getdentry,
  adfimage_dentry_valid,
}
use fuseadf.Image.Perm.{rewrite_access, new_access, setperm}
use fuseadf.History.Chdir.{SameDisk, SameDisk-refl, Agree, in_dirpath-Agree, if-Agree}
use fuseadf.History.Files.{leave-SameDisk}

module _ (L : Adflib) (D : IsDirectory L) (F : IsPositionFree L) where
  open L use {Vol, cur_dir_ptr, get_dir_ent, to_root_dir, root_block, read_root_block}

  -- A function that does not use the current directory has one value on one disk.
  pub free_value :
      {A : Type 0} (f : Vol → A) (free : (v : Vol) → f v ≡ f (to_root_dir v)) (img img' : Image Vol)
      → SameDisk L img img'
      → f img.vol ≡ f img'.vol
  free_value f free img img' s = free img.vol ∙ (ap f s.same_root ∙ sym (free img'.vol))

  pub get_root_dentry_same :
      (img img' : Image Vol) → SameDisk L img img' → get_root_dentry L img ≡ get_root_dentry L img'
  unfolding get_root_dentry
  get_root_dentry_same img img' s = rw (
    free_value root_block F.root_block_free img img' s,
    free_value (λ v. read_root_block v (root_block img'.vol))
        (λ v. F.read_root_block_free v (root_block img'.vol)) img img' s,
  )

  module _ (C : Libc) where
    open L use {read_entry_block, write_entry_block}

    pub rewrite_access-Agree :
        (dentry : Dentry) (perms : ℕ) (there there' : Image Vol)
        → SameDisk L there there'
        → Agree L (rewrite_access L C dentry perms there) (rewrite_access L C dentry perms there')
    unfolding rewrite_access
    rewrite_access-Agree dentry perms there there' s =
        let sector = dentry.adflib_entry.sector in
        let (rc, block) = read_entry_block there'.vol sector in
        let block' : EntryBlock = record block { access = new_access L perms block.access } in
        let written =
          free_value (λ v. (write_entry_block v sector block').0)
            (λ v. F.write_entry_block_free v sector block') there there' s in
        let root =
          free_value (λ v. to_root_dir (write_entry_block v sector block').1)
            (λ v. F.to_root-write_entry_block v sector block') there there' s in
        rw
          (free_value (λ v. read_entry_block v sector) (λ v. F.read_entry_block_free v sector) there
            there' s)
          (if-Agree L (is_ok rc) _ _ _ _
            (ap is_ok written, record { same_root = root; same_blksize = s.same_blksize })
            (refl, s))

  module _ (C : Libc) (P : IsPosix C) where
    lookup_dentry-Agree :
        (entryname : Bytes) (cwd cwd' : Option Bytes) (there : Image Vol)
        → Agree L (lookup_dentry L entryname cwd there) (lookup_dentry L entryname cwd' there)
    unfolding lookup_dentry
    lookup_dentry-Agree entryname cwd cwd' there =
        go (get_dir_ent there.vol (cur_dir_ptr there.vol))
      where
        go :
            (es : List AdfEntry)
            → Agree L {A = Dentry}
                (elim es [
                  | [] ↦ (no_dentry, there)
                  | e ∷ es ↦ (
                    found_dentry (adflib_list_find (e ∷ es) entryname),
                    leave_dirpath L cwd there,
                  )
                ])
                (elim es [
                  | [] ↦ (no_dentry, there)
                  | e ∷ es ↦ (
                    found_dentry (adflib_list_find (e ∷ es) entryname),
                    leave_dirpath L cwd' there,
                  )
                ])
        go [] = (refl, SameDisk-refl L there)
        go (e ∷ es) = (refl, leave-SameDisk L C D P cwd cwd' there)

    pub getdentry-Agree :
        (p : Bytes) (img img' : Image Vol)
        → SameDisk L img img'
        → Agree L (getdentry L C (slash ∷ p) img) (getdentry L C (slash ∷ p) img')
    unfolding getdentry
    getdentry-Agree p img img' s =
        if-Agree L (strcmp_eq (slash ∷ p) root_path) _ _ _ _ (get_root_dentry_same img img' s, s)
          (in_dirpath-Agree L C P p no_dentry
            (λ path (cwd, _, there). lookup_dentry L path.entryname cwd there)
            (λ path cwd cwd' ok there. lookup_dentry-Agree path.entryname cwd cwd' there) img img'
            s)

    pub setperm-Agree :
        (p : Bytes) (perms : ℕ) (img img' : Image Vol)
        → SameDisk L img img'
        → Agree L (setperm L C (slash ∷ p) perms img) (setperm L C (slash ∷ p) perms img')
    unfolding setperm
    setperm-Agree p perms img img' s =
        let (same, s') = getdentry-Agree p img img' s in
        let (dentry, there) = getdentry L C (slash ∷ p) img in
        let (dentry', there') = getdentry L C (slash ∷ p) img' in
        rw same (
          if-Agree L (adfimage_dentry_valid dentry') _ _ _ _
            (rewrite_access-Agree C dentry' perms there there' s') (refl, s'))
