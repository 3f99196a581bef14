-- ===== src/History/Rename.antt =====
-- Renaming, truncating and opening, from two images with the same disk.
use fuseadf.Prelude.{
  ℕ, refl, ap, Option, none, some, ◌∷◌, [], Bytes, ℤ, pos, neg, ltb_ℤ, if◌then◌else◌,
}
use fuseadf.Pathstr.{slash}
use fuseadf.Libc.{Libc, IsPosix}
use fuseadf.Adflib.{Adflib, is_ok, mode_read, mode_write}
use fuseadf.Adflib.Laws.{IsDirectory, IsPositionFree}
use fuseadf.Path.{PathT}
use fuseadf.Image.{Image}
use fuseadf.Image.Files.{adfimage_file_truncate}
use fuseadf.Image.Rename.{
  Parent, failed, sector_of, rename_sectors, rename_checked, rename_from, rename_parents,
  rename_dirs,
}
use fuseadf.Fs.{adffs_open}
use fuseadf.History.Chdir.{SameDisk, Agree, AgreeIf, Absolute?, if-Agree}
use fuseadf.History.Dentry.{free_value, getdentry-Agree}
use fuseadf.History.Files.{file_open-Agree}
use fuseadf.History.Closing.{truncate_opened-Agree, close_opened-Agree}

module _ (L : Adflib) (D : IsDirectory L) (F : IsPositionFree L) (C : Libc) where
  open L use {Vol, to_root_dir, rename_entry}

  pub rename_sectors-Agree :
      (src dst : PathT) (a b : ℤ) (there there' : Image Vol)
      → SameDisk L there there'
      → Agree L (rename_sectors L C src dst a b there) (rename_sectors L C src dst a b there')
  unfolding rename_sectors
  rename_sectors-Agree src dst a b there there' s =
      let rc =
        free_value L D F (λ v. (rename_entry v a src.entryname b dst.entryname).0)
          (λ v. F.rename_entry_free v a src.entryname b dst.entryname) there there' s in
      let root =
        free_value L D F (λ v. to_root_dir (rename_entry v a src.entryname b dst.entryname).1)
          (λ v. F.to_root-rename_entry v a src.entryname b dst.entryname) there there' s in
      if-Agree L (ltb_ℤ a 2) _ _ _ _ (refl, s)
        (if-Agree L (ltb_ℤ b 2) _ _ _ _ (refl, s)
          (
            ap (λ (e : ℤ). if is_ok e then pos 0 else neg 1) rc,
            record { same_root = root; same_blksize = s.same_blksize },
          ))

  rename_checked-Agree :
      (src dst : PathT) (a : ℤ) (y : Parent) (there there' : Image Vol)
      → SameDisk L there there'
      → Agree L (rename_checked L C src dst a y there) (rename_checked L C src dst a y there')
  rename_checked-Agree src dst a (failed e) there there' s = (refl, s)
  rename_checked-Agree src dst a (sector_of b) there there' s =
      rename_sectors-Agree src dst a b there there' s

module _ (L : Adflib) (D : IsDirectory L) (F : IsPositionFree L) (C : Libc) (P : IsPosix C) where
  open L use {Vol, File, to_root_dir, rename_entry, file_truncate, file_close}

  pub truncate-Agree :
      (p : Bytes) (new_size : ℕ) (img img' : Image Vol)
      → SameDisk L img img'
      → Agree L
          (adfimage_file_truncate L C (slash ∷ p) new_size img)
          (adfimage_file_truncate L C (slash ∷ p) new_size img')
  unfolding adfimage_file_truncate
  truncate-Agree p new_size img img' s =
      truncate_opened-Agree L D F new_size _ _ (file_open-Agree L C D P p img img' s mode_write)

  rename_from-Agree :
      (src dst : PathT) (q : Bytes) (x : Parent) (img img' : Image Vol)
      → SameDisk L img img'
      → Agree L
          (rename_from L C src dst (slash ∷ q) x img)
          (rename_from L C src dst (slash ∷ q) x img')
  rename_from-Agree src dst q (failed e) img img' s = (refl, s)
  rename_from-Agree src dst q (sector_of a) img img' s =
      let (e, s') = getdentry-Agree L D F C P q img img' s in
      rw e (rename_checked-Agree L D F C src dst a _ _ _ s')

  pub rename_parents-Agree :
      (src dst : PathT) (p q : Bytes) (img img' : Image Vol)
      → SameDisk L img img'
      → Agree L
          (rename_parents L C src dst (slash ∷ p) (slash ∷ q) img)
          (rename_parents L C src dst (slash ∷ p) (slash ∷ q) img')
  unfolding rename_parents
  rename_parents-Agree src dst p q img img' s =
      let (e, s') = getdentry-Agree L D F C P p img img' s in
      rw e (rename_from-Agree src dst q _ _ _ s')

  pub open-Agree :
      (p : Bytes) (img img' : Image Vol)
      → SameDisk L img img'
      → Agree L (adffs_open L C (slash ∷ p) img) (adffs_open L C (slash ∷ p) img')
  unfolding adffs_open
  open-Agree p img img' s =
      close_opened-Agree L D F _ _ (file_open-Agree L C D P p img img' s mode_read)

  pub rename_dirs-Agree :
      (src dst : PathT) (fuel : ℕ) (x y : Option Bytes) (img img' : Image Vol)
      → SameDisk L img img'
      → Absolute? x
      → Absolute? y
      → AgreeIf L (rename_dirs L C src dst x y img) (rename_dirs L C src dst x y img')
  rename_dirs-Agree src dst fuel none y img img' s h k = tt
  rename_dirs-Agree src dst fuel (some x) none img img' s h k = tt
  rename_dirs-Agree src dst fuel (some []) (some y) img img' s h k = absurd h
  rename_dirs-Agree src dst fuel (some (c ∷ x)) (some []) img img' s h k = absurd k
  rename_dirs-Agree src dst fuel (some (c ∷ x)) (some (d ∷ y)) img img' s h k =
      rw (h, k) (rename_parents-Agree src dst x y img img' s)
