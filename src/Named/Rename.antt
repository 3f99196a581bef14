-- ===== src/Named/Rename.antt =====
-- `adfimage_file_rename` of src/adfimage.c in the view by names.
pub mod Located
pub mod Later
use fuseadf.Prelude.{
  ℕ, suc, ◌≡◌, refl, sym, ap, ◌∙◌, Bool-cases, inl, inr, some, List, [], ◌∷◌, ◌++◌, Bytes, ℤ, pos,
  neg, ltb_ℤ, strcmp_eq, if◌then◌else◌,
}
use mathlib.Core.Path.{subst, subst₂}
use fuseadf.Pathstr.{slash, pathstr_is_non_empty}
use fuseadf.Libc.{Libc}
use fuseadf.Adflib.{Adflib, is_ok}
use fuseadf.Adflib.Laws.{IsDirectory, IsPositionFree}
use fuseadf.Path.{PathT, path_is_entryname_non_empty}
use fuseadf.Image.{Image, root_path, to_root}
use fuseadf.Image.Dentry.{Dentry, found_dentry, get_root_dentry, getdentry}
use fuseadf.Image.Rename.{
  Parent, failed, sector_of, check_parent, rename_sectors, rename_checked, rename_from,
  rename_parents, rename_paths, adfimage_file_rename,
}
use fuseadf.Image.Rename.Returns.{IsClean, convert-IsClean}
use fuseadf.History.Chdir.{SameDisk}
use fuseadf.History.Dentry.{get_root_dentry_same}
use fuseadf.History.Rename.{rename_sectors-Agree}
use fuseadf.Workdir.{IsName, Names}
use fuseadf.Workdir.Paths.{join}
use fuseadf.Named.{rooted_path, IsSplit, entry_here}
use fuseadf.Named.Directory.{Gives}
use fuseadf.Named.Entered.{Created, path_create_lem}
use fuseadf.Named.Reach.{reach}
use fuseadf.Named.Chmod.{getdentry_named}

-- A list of names as its last one and those before it.
unfoldable pub unsnoc : Bytes → List Bytes → List Bytes × Bytes
unsnoc d [] = ([], d)
unsnoc d (e ∷ ds) = let (up, last) = unsnoc e ds in (d ∷ up, last)

pub unsnoc_lem : (d : Bytes) (ds : List Bytes) → (unsnoc d ds).0 ++ (unsnoc d ds).1 ∷ [] ≡ d ∷ ds
unfolding unsnoc
unsnoc_lem d [] = refl
unsnoc_lem d (e ∷ ds) = ap (λ es. d ∷ es) (unsnoc_lem e ds)

pub unsnoc-Names :
    (d : Bytes) (ds : List Bytes) → Names (d ∷ ds) → Names (unsnoc d ds).0 × IsName (unsnoc d ds).1
unfolding unsnoc
unsnoc-Names d [] h = (tt, h.0)
unsnoc-Names d (e ∷ ds) h = let (up, last) = unsnoc-Names e ds h.1 in ((h.0, up), last)

-- The allocations for a directory's path succeed; there are none for that of the root.
abbrev pub DirCreated : Libc → List Bytes → Type 0
DirCreated C [] = Unit
DirCreated C (d ∷ ds) = Created C (slash ∷ join (d ∷ ds))

-- The allocations for a rename succeed, and the conversion changes nothing in its directories.
abbrev pub RenameAllowed : Libc → List Bytes → Bytes → List Bytes → Bytes → Type 0
RenameAllowed C src_dirs src dst_dirs dst =
    (Created C (rooted_path src_dirs src) × Created C (rooted_path dst_dirs dst))
    × (DirCreated C src_dirs × DirCreated C dst_dirs)
    × (IsClean (slash ∷ join src_dirs) × IsClean (slash ∷ join dst_dirs))

module _ (L : Adflib) where
  open L use {Vol, to_root_dir, rename_entry}

  -- The entry of a directory, in the volume at its root. A directory above it that is missing is
  -- passed over, as in `chmod_at`.
  abbrev pub dir_entry : Vol → List Bytes → Dentry
  dir_entry v [] = get_root_dentry L (record { vol = v; cwd = root_path; blksize = 0 })
  dir_entry v (d ∷ ds) =
      let (up, last) = unsnoc d ds in found_dentry (entry_here L (reach L v up) last)

  -- Rename between the sectors of two directories. Sectors below 2 are in the boot block.
  abbrev pub rename_between : ℤ → Bytes → ℤ → Bytes → Vol → ℤ × Vol
  rename_between a src b dst v =
      let (rc, v') = rename_entry v a src b dst in
      if ltb_ℤ a 2
      then (neg 1, v)
      else if ltb_ℤ b 2
      then (neg 1, v)
      else (if is_ok rc then pos 0 else neg 1, to_root_dir v')

  abbrev pub rename_to : ℤ → Bytes → Parent → Bytes → Vol → ℤ × Vol
  rename_to a src (failed e) dst v = (e, v)
  rename_to a src (sector_of b) dst v = rename_between a src b dst v

  abbrev pub rename_of : Parent → Bytes → List Bytes → Bytes → Vol → ℤ × Vol
  rename_of (failed e) src dst_dirs dst v = (e, v)
  rename_of (sector_of a) src dst_dirs dst v =
      rename_to a src (check_parent (dir_entry v dst_dirs)) dst v

  abbrev pub rename_at : Vol → List Bytes → Bytes → List Bytes → Bytes → ℤ × Vol
  rename_at v src_dirs src dst_dirs dst =
      let start = to_root_dir v in
      rename_of (check_parent (dir_entry start src_dirs)) src dst_dirs dst start

  module _ (C : Libc) (P : IsSplit C) (D : IsDirectory L) (F : IsPositionFree L) where
    getdentry_root :
        (img : Image Vol)
        → let (dentry, img') = getdentry L C root_path img in
          (dentry ≡ dir_entry (to_root_dir img.vol) []) × SameDisk L img' (to_root L img)
    unfolding getdentry get_root_dentry to_root strcmp_eq
    getdentry_root img =
        let root = sym (D.to_root-to_root img.vol) in
        (
          get_root_dentry_same L D F (record img { blksize = 0 })
              (record { vol = to_root_dir img.vol; cwd = root_path; blksize = 0 })
              (record { same_root = root; same_blksize = refl }),
          record { same_root = root; same_blksize = refl },
        )

    -- The directory that is looked up by its path, on the same disk.
    getdentry_dir :
        (dirs : List Bytes) (img : Image Vol)
        → Names dirs
        → DirCreated C dirs
        → let (dentry, img') = getdentry L C (slash ∷ join dirs) img in
          (dentry ≡ dir_entry (to_root_dir img.vol) dirs) × SameDisk L img' (to_root L img)
    unfolding join
    getdentry_dir [] img h created = getdentry_root img
    getdentry_dir (d ∷ ds) img h created =
        let (up, last) = unsnoc-Names d ds h in
        subst
          (λ es.
            Created C (slash ∷ join es)
            → let (dentry, img') = getdentry L C (slash ∷ join es) img in
              (dentry ≡ dir_entry (to_root_dir img.vol) (d ∷ ds)) × SameDisk L img' (to_root L img))
          (unsnoc_lem d ds) (getdentry_named L C P D (unsnoc d ds).0 (unsnoc d ds).1 img up last)
          created

    at_root :
        (src dst : PathT) (a b : ℤ) (img : Image Vol)
        → Gives L
            (rename_sectors L C src dst a b (to_root L img))
            (rename_between a src.entryname b dst.entryname (to_root_dir img.vol))
            img.blksize
    unfolding rename_sectors to_root
    at_root src dst a b img = elim (Bool-cases (ltb_ℤ a 2)) [
      | inl e ↦ rw e (refl, D.to_root-to_root img.vol, refl)
      | inr e ↦ elim (Bool-cases (ltb_ℤ b 2)) [
        | inl e' ↦ rw (e, e') (refl, D.to_root-to_root img.vol, refl)
        | inr e' ↦ rw (e, e') (refl, refl, refl)
      ]
    ]

    rename_sectors-Gives :
        (src dst : PathT) (a b : ℤ) (img there : Image Vol)
        → SameDisk L there (to_root L img)
        → Gives L
            (rename_sectors L C src dst a b there)
            (rename_between a src.entryname b dst.entryname (to_root_dir img.vol))
            img.blksize
    rename_sectors-Gives src dst a b img there s =
        let (e, t) = rename_sectors-Agree L D F C src dst a b there (to_root L img) s in
        let (status, disk, size) = at_root src dst a b img in
        (e ∙ status, t.same_root ∙ disk, t.same_blksize ∙ size)

    -- An answer without a change of the disk.
    stays :
        (e : ℤ) (img there : Image Vol)
        → SameDisk L there (to_root L img)
        → Gives L (e, there) (e, to_root_dir img.vol) img.blksize
    unfolding to_root
    stays e img there s = (refl, s.same_root ∙ D.to_root-to_root img.vol, s.same_blksize)

    rename_checked-Gives :
        (src dst : PathT) (a : ℤ) (parent : Parent) (img there : Image Vol)
        → SameDisk L there (to_root L img)
        → Gives L
            (rename_checked L C src dst a parent there)
            (rename_to a src.entryname parent dst.entryname (to_root_dir img.vol))
            img.blksize
    rename_checked-Gives src dst a (failed e) img there s = stays e img there s
    rename_checked-Gives src dst a (sector_of b) img there s =
        rename_sectors-Gives src dst a b img there s

    rename_from-Gives :
        (src dst : PathT) (dst_dirs : List Bytes) (parent : Parent) (img there : Image Vol)
        → Names dst_dirs
        → DirCreated C dst_dirs
        → SameDisk L there (to_root L img)
        → Gives L
            (rename_from L C src dst (slash ∷ join dst_dirs) parent there)
            (rename_of parent src.entryname dst_dirs dst.entryname (to_root_dir img.vol))
            img.blksize
    unfolding to_root
    rename_from-Gives src dst dst_dirs (failed e) img there h created s = stays e img there s
    rename_from-Gives src dst dst_dirs (sector_of a) img there h created s =
        let (entry, t) = getdentry_dir dst_dirs there h created in
        let root = s.same_root ∙ D.to_root-to_root img.vol in
        let behind : SameDisk L (getdentry L C (slash ∷ join dst_dirs) there).1 (to_root L img) =
          record {
            same_root = t.same_root ∙ (D.to_root-to_root there.vol ∙ s.same_root);
            same_blksize = t.same_blksize ∙ s.same_blksize;
          } in
        rw (entry ∙ ap (λ v. dir_entry v dst_dirs) root) (
          rename_checked-Gives src dst a (check_parent (dir_entry (to_root_dir img.vol) dst_dirs))
            img _ behind)

    rename_parents-Gives :
        (src dst : PathT) (src_dirs dst_dirs : List Bytes) (img : Image Vol)
        → Names src_dirs
        → Names dst_dirs
        → DirCreated C src_dirs
        → DirCreated C dst_dirs
        → Gives L
            (rename_parents L C src dst (slash ∷ join src_dirs) (slash ∷ join dst_dirs) img)
            (rename_at img.vol src_dirs src.entryname dst_dirs dst.entryname)
            img.blksize
    unfolding rename_parents
    rename_parents-Gives src dst src_dirs dst_dirs img h k src_made dst_made =
        let (entry, s) = getdentry_dir src_dirs img h src_made in
        rw entry (
          rename_from-Gives src dst dst_dirs
            (check_parent (dir_entry (to_root_dir img.vol) src_dirs)) img _ k dst_made s)

    paths_converted :
        (fuel : ℕ) (src dst : PathT) (a b : Bytes) (img : Image Vol)
        → src.dirpath ≡ slash ∷ a
        → dst.dirpath ≡ slash ∷ b
        → IsClean (slash ∷ a)
        → IsClean (slash ∷ b)
        → rename_paths L C (suc fuel) src dst img
          ≡ some (rename_parents L C src dst (slash ∷ a) (slash ∷ b) img)
    unfolding rename_paths path_is_entryname_non_empty pathstr_is_non_empty
    paths_converted fuel src dst a b img e e' clean clean' =
        simp
          (e, e', convert-IsClean fuel (slash ∷ a) clean, convert-IsClean fuel (slash ∷ b) clean')

    -- With fuel, the request between two paths of names whose conversion changes nothing.
    pub rename-Gives :
        (fuel : ℕ) (src_dirs : List Bytes) (src : Bytes) (dst_dirs : List Bytes) (dst : Bytes)
        (img : Image Vol)
        → Names src_dirs
        → IsName src
        → Names dst_dirs
        → IsName dst
        → RenameAllowed C src_dirs src dst_dirs dst
        → (r : ℤ × Image Vol) × (adfimage_file_rename L C
              (suc fuel)
              (rooted_path src_dirs src)
              (rooted_path dst_dirs dst)
              img
            ≡ some r)
          × Gives L r (rename_at img.vol src_dirs src dst_dirs dst) img.blksize
    unfolding adfimage_file_rename
    rename-Gives fuel src_dirs src dst_dirs dst img h hs k kd (made, dirs_made, clean) =
        let ((s, s_made), (d, d_made)) = made in
        let (src_made, dst_made) = dirs_made in
        let (src_clean, dst_clean) = clean in
        let (s_dir, s_name) = path_create_lem C (rooted_path src_dirs src) s s_made in
        let (d_dir, d_name) = path_create_lem C (rooted_path dst_dirs dst) d d_made in
        (
          rename_parents L C s d (slash ∷ join src_dirs) (slash ∷ join dst_dirs) img,
          rw (s_made, adfimage_file_rename)
              (rw (d_made, adfimage_file_rename)
                (paths_converted fuel s d (join src_dirs) (join dst_dirs) img
                  (s_dir ∙ P.dirname_rooted src_dirs src h hs)
                  (d_dir ∙ P.dirname_rooted dst_dirs dst k kd) src_clean dst_clean)),
          subst₂
              (λ a b.
                Gives L (rename_parents L C s d (slash ∷ join src_dirs) (slash ∷ join dst_dirs) img)
                  (rename_at img.vol src_dirs a dst_dirs b) img.blksize)
              (s_name ∙ P.basename_rooted src_dirs src h hs)
              (d_name ∙ P.basename_rooted dst_dirs dst k kd)
              (rename_parents-Gives s d src_dirs dst_dirs img h k src_made dst_made),
        )
