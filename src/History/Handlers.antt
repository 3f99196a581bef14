-- ===== src/History/Handlers.antt =====
-- The handlers of src/adffs.c, from two images with the same disk.
use fuseadf.Prelude.{
  ℕ, ◌≡◌, refl, ap, ◌∙◌, Bool, true, false, Option, none, some, Option-cases, inl, inr, List, [],
  ◌∷◌, Bytes, ◌&&◌, if◌then◌else◌, ℤ, pos, neg, eqb_ℤ,
}
use fuseadf.Pathstr.{slash, buffer, c_str, bind, pathstr_fuse2amigados}
use fuseadf.Pathstr.Absolute.{LeadsIf, fuse2amigados-Leads}
use fuseadf.Libc.{Libc, IsPosix, einval}
use fuseadf.Adflib.{Adflib}
use fuseadf.Adflib.Laws.{IsDirectory, IsPositionFree}
use fuseadf.Path.{PathT, path_create, path_is_entryname_non_empty}
use fuseadf.Image.{Image}
use fuseadf.Image.Rename.{convert, rename_dirs, rename_paths, adfimage_file_rename}
use fuseadf.Fs.{
  Filler, adffs_statfs, readdir_at, adffs_readdir, adffs_chmod, adffs_truncate, perms_of_mode,
}
use fuseadf.Fs.Attr.{entry_getattr}
use fuseadf.History.Chdir.{SameDisk, Agree, AgreeIf, Absolute?, chdir_absolute, path_create_dirpath}
use fuseadf.History.Dentry.{free_value, setperm-Agree}
use fuseadf.History.Rename.{rename_dirs-Agree, truncate-Agree}

pub convert-Absolute : (fuel : ℕ) (p : Bytes) → Absolute? (convert fuel (slash ∷ p))
unfolding convert
convert-Absolute fuel p =
    go (pathstr_fuse2amigados fuel (buffer (slash ∷ p)))
      (fuse2amigados-Leads fuel (buffer (slash ∷ p)) refl)
  where
    go : (o : Option (List ℕ)) → LeadsIf o → Absolute? (bind o λ cells. some (c_str cells))
    go none h = tt
    go (some []) h = absurd h
    go (some (c ∷ cells)) h = rw h refl

module _ (L : Adflib) (D : IsDirectory L) (F : IsPositionFree L) where
  open L use {Vol}

  pub statfs_same :
      (img img' : Image Vol) → SameDisk L img img' → adffs_statfs L img ≡ adffs_statfs L img'
  unfolding adffs_statfs
  statfs_same img img' s = rw (
    free_value L D F L.read_only F.read_only_free img img' s,
    free_value L D F L.datablock_size F.datablock_size_free img img' s,
    free_value L D F L.first_block F.first_block_free img img' s,
    free_value L D F L.last_block F.last_block_free img img' s,
    free_value L D F L.count_free_blocks F.count_free_blocks_free img img' s,
  )

module _ (L : Adflib) (D : IsDirectory L) (F : IsPositionFree L) (C : Libc) (P : IsPosix C) where
  open L use {Vol}

  pub entry_getattr_same :
      (p : Bytes) (img img' : Image Vol)
      → SameDisk L img img'
      → entry_getattr L C (slash ∷ p) img ≡ entry_getattr L C (slash ∷ p) img'
  unfolding entry_getattr
  entry_getattr_same p img img' s =
      let (t, e) = P.dirname_absolute p in rw (e, chdir_absolute L t img img' s)

  pub readdir_same :
      (B : Filler) (p : Bytes) (buf : B.Buffer) (img img' : Image Vol)
      → SameDisk L img img'
      → adffs_readdir L B (slash ∷ p) buf img ≡ adffs_readdir L B (slash ∷ p) buf img'
  unfolding adffs_readdir
  readdir_same B p buf img img' s = ap (readdir_at L B buf) (chdir_absolute L p img img' s)

  rename_paths-AgreeIf :
      (fuel : ℕ) (src dst : PathT) (img img' : Image Vol)
      → Absolute? (convert fuel src.dirpath)
      → Absolute? (convert fuel dst.dirpath)
      → SameDisk L img img'
      → AgreeIf L (rename_paths L C fuel src dst img) (rename_paths L C fuel src dst img')
  unfolding rename_paths
  rename_paths-AgreeIf fuel src dst img img' h k s =
      go (path_is_entryname_non_empty src && path_is_entryname_non_empty dst)
    where
      go :
          (b : Bool)
          → AgreeIf L
              (if b
                then rename_dirs L C src dst
                    (convert fuel src.dirpath)
                    (convert fuel dst.dirpath)
                    img
                else some (neg einval, img))
              (if b
                then rename_dirs L C src dst
                    (convert fuel src.dirpath)
                    (convert fuel dst.dirpath)
                    img'
                else some (neg einval, img'))
      go true = rename_dirs-Agree L D F C P src dst fuel _ _ img img' s h k
      go false = (refl, s)

  pub rename-AgreeIf :
      (fuel : ℕ) (p q : Bytes) (img img' : Image Vol)
      → SameDisk L img img'
      → AgreeIf L
          (adfimage_file_rename L C fuel (slash ∷ p) (slash ∷ q) img)
          (adfimage_file_rename L C fuel (slash ∷ p) (slash ∷ q) img')
  unfolding adfimage_file_rename
  rename-AgreeIf fuel p q img img' s = elim (Option-cases (path_create C (slash ∷ p))) [
    | inl e ↦ rw (e, adfimage_file_rename) (refl, s)
    | inr (src, e) ↦ elim (Option-cases (path_create C (slash ∷ q))) [
      | inl e' ↦ rw (e, e', adfimage_file_rename) (refl, s)
      | inr (dst, e') ↦
          rw (e, e', adfimage_file_rename)
            (rename_paths-AgreeIf fuel src dst img img' (absolute p src e) (absolute q dst e') s)
    ]
  ]
    where
      absolute :
          (p : Bytes) (path : PathT)
          → path_create C (slash ∷ p) ≡ some path
          → Absolute? (convert fuel path.dirpath)
      absolute p path e =
          let (t, abs) = P.dirname_absolute p in
          rw (path_create_dirpath C p path e ∙ abs) (convert-Absolute fuel t)

  pub chmod-Agree :
      (p : Bytes) (mode : ℕ) (img img' : Image Vol)
      → SameDisk L img img'
      → Agree L (adffs_chmod L C (slash ∷ p) mode img) (adffs_chmod L C (slash ∷ p) mode img')
  unfolding adffs_chmod
  chmod-Agree p mode img img' s =
      let (e, s') = setperm-Agree L D F C P p (perms_of_mode mode) img img' s in
      (ap (λ (b : Bool). if b then pos 0 else pos einval) e, s')

  pub adffs_truncate-Agree :
      (p : Bytes) (size : ℕ) (img img' : Image Vol)
      → SameDisk L img img'
      → Agree L (adffs_truncate L C (slash ∷ p) size img) (adffs_truncate L C (slash ∷ p) size img')
  unfolding adffs_truncate
  adffs_truncate-Agree p size img img' s =
      let (e, s') = truncate-Agree L D F C P p size img img' s in
      (ap (λ (r : ℤ). if eqb_ℤ r (pos 0) then pos 0 else neg 1) e, s')
