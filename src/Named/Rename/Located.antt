-- ===== src/Named/Rename/Located.antt =====
-- `adfimage_file_rename` of src/adfimage.c between directories that are found: what ADFlib is asked.
use fuseadf.Prelude.{
  ℕ, suc, ◌≡◌, refl, sym, ap, ◌∙◌, ◌⊎◌, true, Bool-cases, inl, inr, some, List, [], ◌∷◌, ◌++◌,
  Bytes, ℤ,
}
use mathlib.Core.Option.{some-injective}
use fuseadf.Libc.{Libc}
use fuseadf.Adflib.{Adflib, AdfEntry, SecType, st_root, st_dir, st_ldir, is_ok}
use fuseadf.Adflib.Laws.{IsDirectory, IsPositionFree}
use fuseadf.Image.{Image, root_path}
use fuseadf.Image.Dentry.{found_dentry, dentry_type, get_root_dentry}
use fuseadf.Image.Rename.{sector_of, check_parent, adfimage_file_rename}
use fuseadf.Workdir.{IsName, Names, descend}
use fuseadf.Named.{rooted_path, IsSplit, locate, entry_here, entry_at}
use fuseadf.Named.Reach.{reach-descend}
use fuseadf.Named.Rename.{
  RenameAllowed, unsnoc, unsnoc_lem, dir_entry, rename_between, rename_to, rename_of, rename_at,
  rename-Gives,
}

module _ (L : Adflib) where
  open L use {
    Vol, to_root_dir, cur_dir_ptr, root_block, change_dir, read_root_block, ent_block2entry,
  }

  -- What ADFlib documents of the sector where a volume stands: at the root it is that of the root
  -- block, and `adfChangeDir` by the name of a directory that is listed takes it to the sector of the
  -- directory's entry, or to the real one of a hard link to a directory.
  pub record KeepsSector : Type 0 where
    pub root_sector : (v : Vol) → cur_dir_ptr (to_root_dir v) ≡ root_block (to_root_dir v)
    pub entered_dir :
        (v : Vol) (dir : Bytes) (entry : AdfEntry)
        → entry_here L v dir ≡ some entry
        → is_ok (change_dir v dir).0 ≡ true
        → entry.sec_type ≡ st_dir
        → cur_dir_ptr (change_dir v dir).1 ≡ entry.sector
    pub entered_link :
        (v : Vol) (dir : Bytes) (entry : AdfEntry)
        → entry_here L v dir ≡ some entry
        → is_ok (change_dir v dir).0 ≡ true
        → entry.sec_type ≡ st_ldir
        → cur_dir_ptr (change_dir v dir).1 ≡ entry.real

  -- The block of the root directory is read, and is one.
  pub record RootRead (v : Vol) : Type 0 where
    pub block_read : is_ok (read_root_block v (root_block v)).0 ≡ true
    pub converted : is_ok (ent_block2entry (read_root_block v (root_block v)).1).0 ≡ true
    pub is_root : (ent_block2entry (read_root_block v (root_block v)).1).1.sec_type ≡ st_root

  -- A directory, or a hard link to one.
  abbrev pub IsDir : AdfEntry → Type 0
  IsDir entry = (entry.sec_type ≡ st_dir) ⊎ (entry.sec_type ≡ st_ldir)

  -- The names lead to a directory that the one above lists by exactly its name, or to the root, which
  -- can be read.
  abbrev pub DirListed : Vol → List Bytes → Type 0
  DirListed v [] = RootRead (to_root_dir v)
  DirListed v (d ∷ ds) =
      let (up, last) = unsnoc d ds in
      (entry : AdfEntry) × (entry_at L v up last ≡ some entry) × IsDir entry

  descend-snoc :
      (dirs : List Bytes) (last : Bytes) (v there : Vol)
      → descend L v (dirs ++ last ∷ []) ≡ some there
      → (above : Vol) × (descend L v dirs ≡ some above)
        × (is_ok (change_dir above last).0 ≡ true)
        × ((change_dir above last).1 ≡ there)
  unfolding descend
  descend-snoc [] last v there h = elim (Bool-cases (is_ok (change_dir v last).0)) [
    | inl e ↦ (v, refl, e, some-injective _ _ (rw (e, descend) at h))
    | inr e ↦ absurd (cc (rw (e, descend) at h))
  ]
  descend-snoc (d ∷ dirs) last v there h = elim (Bool-cases (is_ok (change_dir v d).0)) [
    | inl e ↦
        let (above, up, ok, same) =
          descend-snoc dirs last (change_dir v d).1 there (rw (e, descend) at h) in
        (above, rw (e, descend) up, ok, same)
    | inr e ↦ absurd (cc (rw (e, descend) at h))
  ]

  module _ (S : KeepsSector) where
    root_parent :
        (v : Vol)
        → RootRead v
        → check_parent (get_root_dentry L (record { vol = v; cwd = root_path; blksize = 0 }))
          ≡ sector_of (root_block v)
    unfolding get_root_dentry check_parent
    root_parent v r = rw (r.block_read, r.converted, r.is_root) refl

    -- The program's choice of a sector is the one where the volume stands in the directory.
    entered_sector :
        (v : Vol) (dir : Bytes) (entry : AdfEntry)
        → entry_here L v dir ≡ some entry
        → is_ok (change_dir v dir).0 ≡ true
        → IsDir entry
        → check_parent (found_dentry (some entry)) ≡ sector_of (cur_dir_ptr (change_dir v dir).1)
    unfolding check_parent dentry_type
    entered_sector v dir entry here ok (inl kind) =
        rw (S.entered_dir v dir entry here ok kind) (by_type (entry.sec_type) kind)
      where
        by_type :
            (t : SecType)
            → t ≡ st_dir
            → check_parent (record { type = dentry_type t; adflib_entry = entry })
              ≡ sector_of entry.sector
        by_type t e = rw e refl
    entered_sector v dir entry here ok (inr kind) =
        rw (S.entered_link v dir entry here ok kind) (by_type (entry.sec_type) kind)
      where
        by_type :
            (t : SecType)
            → t ≡ st_ldir
            → check_parent (record { type = dentry_type t; adflib_entry = entry })
              ≡ sector_of entry.real
        by_type t e = rw e refl

    -- The sector of a directory that is found and listed is where the volume stands in it.
    dir_entry-sector :
        (v : Vol) (dirs : List Bytes) (there : Vol)
        → locate L v dirs ≡ some there
        → DirListed v dirs
        → check_parent (dir_entry L (to_root_dir v) dirs) ≡ sector_of (cur_dir_ptr there)
    unfolding descend
    dir_entry-sector v [] there found listed =
        root_parent (to_root_dir v) listed
        ∙ (ap sector_of (sym (S.root_sector v))
            ∙ ap (λ w. sector_of (cur_dir_ptr w)) (some-injective _ _ found))
    dir_entry-sector v (d ∷ ds) there found (entry, listed, kind) =
        let (up, last) = unsnoc d ds in
        let (above, led, ok, same) =
          descend-snoc up last (to_root_dir v) there (rw (unsnoc_lem d ds) found) in
        let here : entry_here L above last ≡ some entry = rw (entry_at, led) at listed in
        rw (reach-descend L up (to_root_dir v) above led, here)
          (entered_sector above last entry here ok kind ∙ ap (λ w. sector_of (cur_dir_ptr w)) same)

    rename_at_located :
        (v : Vol) (src_dirs : List Bytes) (src : Bytes) (dst_dirs : List Bytes) (dst : Bytes)
        (from to : Vol)
        → locate L v src_dirs ≡ some from
        → locate L v dst_dirs ≡ some to
        → DirListed v src_dirs
        → DirListed v dst_dirs
        → rename_at L v src_dirs src dst_dirs dst
          ≡ rename_between L (cur_dir_ptr from) src (cur_dir_ptr to) dst (to_root_dir v)
    rename_at_located v src_dirs src dst_dirs dst from to led led' listed listed' =
        rw (dir_entry-sector v src_dirs from led listed, rename_at, rename_of)
          (rw (dir_entry-sector v dst_dirs to led' listed', rename_to) refl)

    module _ (C : Libc) (P : IsSplit C) (D : IsDirectory L) (F : IsPositionFree L) where
      pub rename_refines :
          (fuel : ℕ) (src_dirs : List Bytes) (src : Bytes) (dst_dirs : List Bytes) (dst : Bytes)
          (img : Image Vol) (from to : Vol)
          → Names src_dirs × IsName src × Names dst_dirs × IsName dst
          → RenameAllowed C src_dirs src dst_dirs dst
          → locate L img.vol src_dirs ≡ some from
          → locate L img.vol dst_dirs ≡ some to
          → DirListed img.vol src_dirs
          → DirListed img.vol dst_dirs
          → (r : ℤ × Image Vol) × (adfimage_file_rename L C
                (suc fuel)
                (rooted_path src_dirs src)
                (rooted_path dst_dirs dst)
                img
              ≡ some r)
            × ((r.0, to_root_dir r.1.vol)
                ≡ rename_between L
                    (cur_dir_ptr from)
                    src
                    (cur_dir_ptr to)
                    dst
                    (to_root_dir img.vol))
      rename_refines fuel src_dirs src dst_dirs dst img from to (h, k, h', k') allowed led led'
            listed listed' =
          let (r, e, (status, disk, _)) =
            rename-Gives L C P D F fuel src_dirs src dst_dirs dst img h k h' k' allowed in
          (
            r,
            e,
            (λ i. (status i, disk i))
                ∙ rename_at_located img.vol src_dirs src dst_dirs dst from to led led' listed
                    listed',
          )
