-- ===== src/Named/Chmod.antt =====
-- `adffs_chmod` of src/adffs.c in the view by names.
pub mod Later
use fuseadf.Prelude.{
  ℕ, ◌≡◌, ◌≢◌, refl, ap, ◌∙◌, Bool, false, Bool-cases, inl, inr, Option, some, List, [], ◌∷◌, Bytes,
  ℤ, pos, strcmp_eq, if◌then◌else◌,
}
use fuseadf.Pathstr.{slash}
use fuseadf.Libc.{Libc, einval}
use fuseadf.Adflib.{Adflib, AdfEntry, EntryBlock, is_ok}
use fuseadf.Adflib.Laws.{IsDirectory, IsPositionFree}
use fuseadf.Image.{Image, root_path, to_root, enter_dirs, leave_dirpath}
use fuseadf.Image.Dentry.{
  Dentry, no_dentry, found_dentry, adflib_list_find, lookup_dentry, getdentry,
  adfimage_dentry_valid,
}
use fuseadf.Image.Perm.{new_access, rewrite_access, setperm}
use fuseadf.Fs.{perms_of_mode, adffs_chmod}
use fuseadf.History.Chdir.{
  SameDisk, SameDisk-refl, SameDisk-trans, Agree, enter_dirs-SameDisk, leave_dirpath-SameDisk,
  if-Agree,
}
use fuseadf.History.Dentry.{rewrite_access-Agree}
use fuseadf.Workdir.{IsName, Names}
use fuseadf.Named.{relative_path, rooted_path, IsSplit, entry_here}
use fuseadf.Named.Directory.{rooted, Gives}
use fuseadf.Named.Change.{relative_path_ne_nil}
use fuseadf.Named.Entered.{Created, in_dirpath_named}
use fuseadf.Named.Attr.{lookup_dentry_found}
use fuseadf.Named.Reach.{reach, enter_dirs-reach}

slash_not_root : (rel : Bytes) → rel ≢ [] → strcmp_eq (slash ∷ rel) root_path ≡ false
unfolding strcmp_eq
slash_not_root [] h = absurd (h refl)
slash_not_root (c ∷ rel) h = refl

module _ (L : Adflib) where
  open L use {Vol, to_root_dir, cur_dir_ptr, get_dir_ent, read_entry_block, write_entry_block}

  -- The block of the entry with its new access bits: whether it was read and written.
  abbrev pub rewrite : Dentry → ℕ → Vol → Bool × Vol
  rewrite dentry perms v =
      let (rc, block) = read_entry_block v dentry.adflib_entry.sector in
      let block' : EntryBlock = record block { access = new_access L perms block.access } in
      let (rc', v') = write_entry_block v dentry.adflib_entry.sector block' in
      if is_ok rc then (is_ok rc', v') else (false, v)

  abbrev chmod_status : Bool → ℤ
  chmod_status ok = if ok then pos 0 else pos einval

  -- A directory that is missing is passed over: the name is looked up where the names lead to.
  abbrev pub chmod_from : Vol → List Bytes → Bytes → ℕ → ℤ × Vol
  chmod_from start dirs name mode =
      let dentry = found_dentry (entry_here L (reach L start dirs) name) in
      let (ok, v') =
        if adfimage_dentry_valid dentry
        then rewrite dentry (perms_of_mode mode) start
        else (false, start) in
      rooted L (chmod_status ok, v')

  abbrev pub chmod_at : Vol → List Bytes → Bytes → ℕ → ℤ × Vol
  chmod_at v dirs name mode = chmod_from (to_root_dir v) dirs name mode

  module _ (D : IsDirectory L) where
    lookup-SameDisk :
        (name : Bytes) (cwd : Option Bytes) (there : Image Vol)
        → SameDisk L (lookup_dentry L name cwd there).1 there
    unfolding lookup_dentry
    lookup-SameDisk name cwd there = go (get_dir_ent there.vol (cur_dir_ptr there.vol))
      where
        go :
            (es : List AdfEntry)
            → SameDisk L
                (elim es as (λ _. Dentry × Image Vol) [
                  | [] ↦ (no_dentry, there)
                  | e ∷ es ↦
                      (found_dentry (adflib_list_find (e ∷ es) name), leave_dirpath L cwd there)
                ]).1
                there
        go [] = SameDisk-refl L there
        go (e ∷ es) = leave_dirpath-SameDisk L D cwd there

  module _ (C : Libc) (P : IsSplit C) (D : IsDirectory L) where
    -- The entry that is looked up, on the same disk.
    pub getdentry_named :
        (dirs : List Bytes) (name : Bytes) (img : Image Vol)
        → Names dirs
        → IsName name
        → Created C (rooted_path dirs name)
        → let (dentry, img') = getdentry L C (rooted_path dirs name) img in
          (dentry ≡ found_dentry (entry_here L (reach L (to_root_dir img.vol) dirs) name))
          × SameDisk L img' (to_root L img)
    unfolding getdentry to_root
    getdentry_named dirs name img h k created =
        let start : Image Vol = record (to_root L img) { cwd = root_path } in
        let (ok, there) = enter_dirs L dirs start in
        let s = enter_dirs-SameDisk L D dirs start in
        let behind : SameDisk L there (to_root L img) = record {
          same_root = s.same_root;
          same_blksize = s.same_blksize;
        } in
        rw
          (
            slash_not_root (relative_path dirs name) (relative_path_ne_nil dirs name h k),
            in_dirpath_named L C P no_dentry
                (λ name (cwd, _, there). lookup_dentry L name cwd there) dirs name img h k created,
          )
          (
            lookup_dentry_found L name (some img.cwd) there
                ∙ ap (λ v. found_dentry (entry_here L v name)) (enter_dirs-reach L dirs start),
            SameDisk-trans L (lookup-SameDisk D name (some img.cwd) there) behind,
          )

    -- What `adfimage_setperm` does with an entry that is looked up, from an image that stands at its
    -- root.
    abbrev set_access_of : Dentry → ℕ → Image Vol → Bool × Image Vol
    set_access_of dentry perms img =
        if adfimage_dentry_valid dentry then rewrite_access L C dentry perms img else (false, img)

    rewritten :
        (dentry : Dentry) (perms : ℕ) (img : Image Vol)
        → let (ok, img') = rewrite_access L C dentry perms img in
          let (ok', v') = rewrite dentry perms img.vol in
          (ok ≡ ok') × (img'.vol ≡ v') × (img'.blksize ≡ img.blksize)
    unfolding rewrite_access
    rewritten dentry perms img =
        elim (Bool-cases (is_ok (read_entry_block img.vol dentry.adflib_entry.sector).0)) [
          | inl e ↦ rw (e, rewrite, rewrite_access) (refl, refl, refl)
          | inr e ↦ rw (e, rewrite, rewrite_access) (refl, refl, refl)
        ]

    set_access-rewrite :
        (dentry : Dentry) (perms : ℕ) (img : Image Vol)
        → let (ok, img') = set_access_of dentry perms img in
          let (ok', v') =
            if adfimage_dentry_valid dentry
            then rewrite dentry perms img.vol
            else (false, img.vol) in
          (ok ≡ ok') × (img'.vol ≡ v') × (img'.blksize ≡ img.blksize)
    set_access-rewrite dentry perms img = elim (Bool-cases (adfimage_dentry_valid dentry)) [
      | inl e ↦ rw e (rewritten dentry perms img)
      | inr e ↦ rw e (refl, refl, refl)
    ]

    set_access-Agree :
        (F : IsPositionFree L) (dentry : Dentry) (perms : ℕ) (img img' : Image Vol)
        → SameDisk L img img'
        → Agree L (set_access_of dentry perms img) (set_access_of dentry perms img')
    set_access-Agree F dentry perms img img' s =
        if-Agree L (adfimage_dentry_valid dentry) _ _ _ _
          (rewrite_access-Agree L D F C dentry perms img img' s) (refl, s)

    pub chmod-Gives :
        (F : IsPositionFree L) (dirs : List Bytes) (name : Bytes) (mode : ℕ) (img : Image Vol)
        → Names dirs
        → IsName name
        → Created C (rooted_path dirs name)
        → Gives L
            (adffs_chmod L C (rooted_path dirs name) mode img)
            (chmod_at img.vol dirs name mode)
            img.blksize
    unfolding adffs_chmod setperm to_root
    chmod-Gives F dirs name mode img h k created =
        let perms = perms_of_mode mode in
        let start = to_root L img in
        let (looked_up, behind) = getdentry_named dirs name img h k created in
        let dentry = found_dentry (entry_here L (reach L (to_root_dir img.vol) dirs) name) in
        let (same, disk) =
          set_access-Agree F dentry perms (getdentry L C (rooted_path dirs name) img).1 start
            behind in
        let (ok, vol, size) = set_access-rewrite dentry perms start in
        rw looked_up (
          ap chmod_status (same ∙ ok),
          disk.same_root ∙ ap to_root_dir vol,
          disk.same_blksize ∙ size,
        )
