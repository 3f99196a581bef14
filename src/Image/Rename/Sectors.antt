-- ===== src/Image/Rename/Sectors.antt =====
-- What an `adfimage_file_rename` of src/adfimage.c that answers 0 has done.
use fuseadf.Prelude.{
  ◌⊎◌, ◌≢◌, ◌≡◌, refl, false, true, Bool, Bool-cases, inl, inr, Bytes, ℤ, pos, neg, ltb_ℤ,
  if◌then◌else◌,
}
use fuseadf.Libc.{Libc, enoent, einval}
use fuseadf.Adflib.{Adflib, is_ok}
use fuseadf.Path.{PathT}
use fuseadf.Image.{Image}
use fuseadf.Image.Dentry.{
  Dentry, DentryType, dentry_none, dentry_file, dentry_directory, dentry_linkfile, dentry_linkdir,
  dentry_softlink, dentry_unknown, getdentry,
}
use fuseadf.Image.Rename.{
  Parent, failed, sector_of, check_parent, rename_sectors, rename_checked, rename_from,
  rename_parents,
}

-- The sector of a parent's entry: of the directory itself, or of the one that a hard link leads to.
abbrev pub ParentSector : Dentry → ℤ → Type 0
ParentSector dentry s =
    (dentry.type ≡ dentry_directory) × (s ≡ dentry.adflib_entry.sector)
    ⊎ (dentry.type ≡ dentry_linkdir) × (s ≡ dentry.adflib_entry.real)

-- What the check of a parent says: a failure is not 0, and a sector is that of a directory.
abbrev Checked : Dentry → Parent → Type 0
Checked dentry (failed e) = e ≢ pos 0
Checked dentry (sector_of s) = ParentSector dentry s

check_parent-Checked : (dentry : Dentry) → Checked dentry (check_parent dentry)
unfolding check_parent
check_parent-Checked dentry = go (dentry.type) refl
  where
    no_entry_error : neg enoent ≢ pos 0
    no_entry_error = λ e. cc

    no_directory_error : neg einval ≢ pos 0
    no_directory_error = λ e. cc

    go : (t : DentryType) → dentry.type ≡ t → Checked dentry (check_parent dentry)
    go dentry_none e = rw (e, check_parent) no_entry_error
    go dentry_file e = rw (e, check_parent) no_directory_error
    go dentry_directory e = rw (e, check_parent) (inl (refl, refl))
    go dentry_linkfile e = rw (e, check_parent) no_directory_error
    go dentry_linkdir e = rw (e, check_parent) (inr (refl, refl))
    go dentry_softlink e = rw (e, check_parent) no_directory_error
    go dentry_unknown e = rw (e, check_parent) no_directory_error

module _ (L : Adflib) (C : Libc) where
  open L use {Vol, rename_entry}

  -- ADFlib has renamed an entry, from a directory to a directory outside the boot block.
  abbrev pub Renamed : PathT → PathT → ℤ → ℤ → Image Vol → Image Vol → Type 0
  Renamed src dst a b img after =
      (ltb_ℤ a 2 ≡ false)
      × (ltb_ℤ b 2 ≡ false)
      × (is_ok (rename_entry img.vol a src.entryname b dst.entryname).0 ≡ true)
      × (after ≡ record img { vol = (rename_entry img.vol a src.entryname b dst.entryname).1 })

  abbrev guarded : Image Vol → Bool → Bool → ℤ × Vol → ℤ × Image Vol
  guarded img low low' (rc, v) =
      if low
      then (neg 1, img)
      else if low'
      then (neg 1, img)
      else (if is_ok rc then pos 0 else neg 1, record img { vol = v })

  rename_sectors-Renamed :
      (src dst : PathT) (a b : ℤ) (img : Image Vol)
      → (rename_sectors L C src dst a b img).0 ≡ pos 0
      → Renamed src dst a b img (rename_sectors L C src dst a b img).1
  unfolding rename_sectors
  rename_sectors-Renamed src dst a b img =
      go (ltb_ℤ a 2) (ltb_ℤ b 2) (rename_entry img.vol a src.entryname b dst.entryname)
    where
      go :
          (low low' : Bool) (r : ℤ × Vol)
          → (guarded img low low' r).0 ≡ pos 0
          → (low ≡ false)
            × (low' ≡ false)
            × (is_ok r.0 ≡ true)
            × ((guarded img low low' r).1 ≡ record img { vol = r.1 })
      go true low' r h = absurd (cc h)
      go false true r h = absurd (cc h)
      go false false (rc, v) h = elim (Bool-cases (is_ok rc)) [
        | inl e ↦ (refl, refl, e, refl)
        | inr e ↦ absurd (cc (rw e at h))
      ]

  module _ (src dst : PathT) where
    rename_checked-Renamed :
        (a : ℤ) (dst_entry : Dentry) (y : Parent) (img : Image Vol)
        → Checked dst_entry y
        → (rename_checked L C src dst a y img).0 ≡ pos 0
        → (b : ℤ) × ParentSector dst_entry b
          × Renamed src dst a b img (rename_checked L C src dst a y img).1
    rename_checked-Renamed a dst_entry (failed e) img c h = absurd (c h)
    rename_checked-Renamed a dst_entry (sector_of b) img c h =
        (b, c, rename_sectors-Renamed src dst a b img h)

    rename_from-Renamed :
        (dst_dir : Bytes) (src_entry : Dentry) (x : Parent) (img : Image Vol)
        → Checked src_entry x
        → (rename_from L C src dst dst_dir x img).0 ≡ pos 0
        → let (dst_entry, img') = getdentry L C dst_dir img in
          (a : ℤ) × ParentSector src_entry a
          × (b : ℤ) × ParentSector dst_entry b
          × Renamed src dst a b img' (rename_from L C src dst dst_dir x img).1
    rename_from-Renamed dst_dir src_entry (failed e) img c h = absurd (c h)
    rename_from-Renamed dst_dir src_entry (sector_of a) img c h =
        let (dst_entry, img') = getdentry L C dst_dir img in
        let (b, d, r) =
          rename_checked-Renamed a dst_entry (check_parent dst_entry) img'
            (check_parent-Checked dst_entry) h in
        (a, c, b, d, r)

    -- If a rename answers 0, both parents were found as directories or hard links to one, their
    -- sectors are outside the boot block, and ADFlib has renamed the entry between these sectors.
    pub rename_zero :
        (src_dir dst_dir : Bytes) (img : Image Vol)
        → (rename_parents L C src dst src_dir dst_dir img).0 ≡ pos 0
        → let (src_entry, img') = getdentry L C src_dir img in
          let (dst_entry, img'') = getdentry L C dst_dir img' in
          (a : ℤ) × ParentSector src_entry a
          × (b : ℤ) × ParentSector dst_entry b
          × Renamed src dst a b img'' (rename_parents L C src dst src_dir dst_dir img).1
    unfolding rename_parents
    rename_zero src_dir dst_dir img =
        let (src_entry, img') = getdentry L C src_dir img in
        rename_from-Renamed dst_dir src_entry (check_parent src_entry) img'
          (check_parent-Checked src_entry)
