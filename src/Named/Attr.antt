-- ===== src/Named/Attr.antt =====
-- `adffs_getattr` of src/adffs.c on the path of an entry.
use fuseadf.Prelude.{
  ◌≡◌, ◌≢◌, refl, ◌∙◌, false, Option, none, some, Option-cases, inl, inr, List, [], ◌∷◌, Bytes, ℤ,
  pos, neg, arith, strcmp_eq,
}
use fuseadf.Libc.{Libc, enoent}
use fuseadf.Adflib.{
  Adflib, AdfEntry, SecType, st_root, st_dir, st_file, st_lfile, st_ldir, st_lsoft, st_other,
}
use fuseadf.Path.{PathT, path_create}
use fuseadf.Image.{Image, root_path, chdir, to_root, enter_dirpath, leave_dirpath}
use fuseadf.Image.Dentry.{
  Dentry, dentry_type, no_dentry, found_dentry, adflib_list_find, lookup_dentry, getdentry,
}
use fuseadf.Fs.Attr.{stat_dentry, finish, direntry_name, entry_getattr, getattr_of, adffs_getattr}
use fuseadf.Workdir.{IsName, Names, render}
use fuseadf.Workdir.Paths.{join}
use fuseadf.Workdir.Enter.{enter_dirs-descend, enter_dirs_fails, chdir_rooted}
use fuseadf.Named.{relative_path, rooted_path, IsSplit, locate, entry_here, entry_at}
use fuseadf.Named.Entered.{path_create_lem}
use fuseadf.Named.Change.{relative_rooted, relative_path_ne_nil}

-- The status for an entry that is there or not.
abbrev pub presence : Option AdfEntry → ℤ
presence none = neg enoent
presence (some entry) = pos 0

pub name_not_root : (name : Bytes) → IsName name → strcmp_eq name root_path ≡ false
unfolding strcmp_eq
name_not_root [] h = absurd (h.0 refl)
name_not_root (c ∷ name) h = ground arith

pub direntry_name_lem : (name : Bytes) → IsName name → direntry_name name ≡ name
direntry_name_lem [] h = absurd (h.0 refl)
direntry_name_lem (c ∷ name) h = refl

module _ (L : Adflib) where
  open L use {Vol, to_root_dir, cur_dir_ptr, get_dir_ent}

  pub lookup_dentry_found :
      (name : Bytes) (cwd : Option Bytes) (there : Image Vol)
      → (lookup_dentry L name cwd there).0 ≡ found_dentry (entry_here L there.vol name)
  unfolding lookup_dentry adflib_list_find
  lookup_dentry_found name cwd there = go (get_dir_ent there.vol (cur_dir_ptr there.vol))
    where
      go :
          (es : List AdfEntry)
          → (elim es as (λ _. Dentry × Image Vol) [
            | [] ↦ (no_dentry, there)
            | e ∷ es ↦ (found_dentry (adflib_list_find (e ∷ es) name), leave_dirpath L cwd there)
          ]).0
            ≡ found_dentry (adflib_list_find es name)
      go [] = refl
      go (e ∷ es) = refl

  module _ (C : Libc) (P : IsSplit C) where
    -- A bare name is looked up in the current directory.
    pub getdentry_name :
        (name : Bytes) (path : PathT) (img : Image Vol)
        → IsName name
        → path_create C name ≡ some path
        → (getdentry L C name img).0 ≡ found_dentry (entry_here L img.vol name)
    unfolding getdentry enter_dirpath chdir strcmp_eq join
    getdentry_name name path img k created =
        let (dir, entryname) = path_create_lem C name path created in
        rw (name_not_root name k, created, getdentry)
          (rw (dir ∙ P.dirname_relative [] name tt k, entryname ∙ P.basename_relative [] name tt k)
            (lookup_dentry_found name (some img.cwd) img))

    -- The status that `finish` gives to a looked-up entry.
    finish-presence :
        (path name : Bytes) (e : Option AdfEntry) (img img' : Image Vol)
        → (finish L C
            (found_dentry e)
            ((stat_dentry L C path name (found_dentry e) img).0, img')).0.0
          ≡ presence e
    unfolding stat_dentry dentry_type
    finish-presence path name none img img' = refl
    finish-presence path name (some e) img img' = go (e.sec_type)
      where
        go :
            (t : SecType)
            → let dentry : Dentry = record { type = dentry_type t; adflib_entry = e } in
              (finish L C dentry ((stat_dentry L C path name dentry img).0, img')).0.0 ≡ pos 0
        go st_root = refl
        go st_dir = refl
        go st_file = refl
        go st_lfile = refl
        go st_ldir = refl
        go st_lsoft = refl
        go (st_other n) = refl

    pub getattr_of_entry :
        (rel path : Bytes) (img : Image Vol)
        → rel ≢ []
        → getattr_of L C rel path img ≡ entry_getattr L C path img
    getattr_of_entry [] path img h = absurd (h refl)
    getattr_of_entry (c ∷ rel) path img h = refl

    -- The status of `adffs_getattr` for the path of an entry, from any image.
    pub getattr_presence :
        (dirs : List Bytes) (name : Bytes) (path : PathT) (img : Image Vol)
        → Names dirs
        → IsName name
        → path_create C name ≡ some path
        → (adffs_getattr L C (rooted_path dirs name) img).0.0
          ≡ presence (entry_at L img.vol dirs name)
    unfolding adffs_getattr entry_getattr to_root
    getattr_presence dirs name path img h k created =
        let start : Image Vol = record (to_root L img) { cwd = root_path } in
        rw
          (
            relative_rooted dirs name h k,
            getattr_of_entry (relative_path dirs name) (rooted_path dirs name) img
                (relative_path_ne_nil dirs name h k),
            P.dirname_rooted dirs name h k,
            P.basename_rooted dirs name h k,
            direntry_name_lem name k,
            chdir_rooted L dirs img h,
          )
          (elim (Option-cases (locate L img.vol dirs)) [
            | inl e ↦ rw (enter_dirs_fails L dirs start e, e) refl
            | inr (there, e) ↦
                let stand : Image Vol = record {
                  vol = there;
                  cwd = render root_path dirs;
                  blksize = img.blksize;
                } in
                rw (enter_dirs-descend L dirs start there e, e)
                  (rw (getdentry_name name path stand k created) (
                    finish-presence (rooted_path dirs name) name (entry_here L there name)
                      (getdentry L C name stand).1 _))
          ])
