-- ===== src/Image/Dentry.antt =====
-- Directory entries in src/adfimage.c: `adfimage_dentry_t`, `adfimage_get_root_dentry`,
-- `adflib_list_find` and `adfimage_getdentry`.
use fuseadf.Prelude.{
  Bool, true, false, Option, none, some, List, [], ◌∷◌, Bytes, ℤ, pos, strcmp_eq, if◌then◌else◌,
}
use fuseadf.Libc.{Libc}
use fuseadf.Adflib.{
  Adflib, AdfEntry, SecType, st_root, st_dir, st_file, st_lfile, st_ldir, st_lsoft, st_other, is_ok,
}
use fuseadf.Path.{path_create}
use fuseadf.Image.{Image, root_path, enter_dirpath, leave_dirpath}

-- ADFVOLUME_DENTRY_*
pub data DentryType : Type 0 where
  dentry_none dentry_file dentry_directory dentry_linkfile dentry_linkdir : DentryType
  dentry_softlink dentry_unknown : DentryType

pub record Dentry : Type 0 where
  pub type : DentryType
  pub adflib_entry : AdfEntry

abbrev pub no_entry : AdfEntry
no_entry = record {
  sec_type = st_other (pos 0);
  name = [];
  sector = pos 0;
  real = pos 0;
  parent = pos 0;
  access = 0;
  year = pos 0;
  month = pos 0;
  days = pos 0;
  hour = pos 0;
  mins = pos 0;
  secs = pos 0;
}

-- A declaration that sets only `.type` leaves the entry zero.
abbrev pub no_dentry : Dentry
no_dentry = record { type = dentry_none; adflib_entry = no_entry }

unfoldable pub adfimage_dentry_valid : Dentry → Bool
adfimage_dentry_valid dentry = elim (dentry.type) [
  | dentry_none ↦ false
  | dentry_unknown ↦ false
  | _ ↦ true
]

-- The type that `adfimage_getdentry` gives to an entry of ADFlib.
unfoldable pub dentry_type : SecType → DentryType
dentry_type st_file = dentry_file
dentry_type st_root = dentry_directory
dentry_type st_dir = dentry_directory
dentry_type st_lfile = dentry_linkfile
dentry_type st_ldir = dentry_linkdir
dentry_type st_lsoft = dentry_softlink
dentry_type (st_other n) = dentry_unknown

unfoldable pub adflib_list_find : List AdfEntry → Bytes → Option AdfEntry
adflib_list_find [] entry_name = none
adflib_list_find (dentry ∷ dentries) entry_name =
    let rest = adflib_list_find dentries entry_name in
    if strcmp_eq dentry.name entry_name then some dentry else rest

abbrev pub found_dentry : Option AdfEntry → Dentry
found_dentry none = no_dentry
found_dentry (some entry) = record { type = dentry_type entry.sec_type; adflib_entry = entry }

abbrev pub root_dentry : ℤ → AdfEntry → SecType → Dentry
root_dentry sector entry st_root = record {
  type = dentry_directory;
  adflib_entry = record entry { sector = sector; real = pos 0; parent = pos 0 };
}
root_dentry sector entry _ = record { type = dentry_none; adflib_entry = entry }

module _ (L : Adflib) where
  open L use {Vol, cur_dir_ptr, root_block, get_dir_ent, read_root_block, ent_block2entry}

  -- If the block cannot be converted, what was written to the entry stays.
  unfoldable pub get_root_dentry : Image Vol → Dentry
  get_root_dentry img =
      let (rc, block) = read_root_block img.vol (root_block img.vol) in
      let (rc', entry) = ent_block2entry block in
      if is_ok rc
      then (if is_ok rc'
          then root_dentry (root_block img.vol) entry entry.sec_type
          else record { type = dentry_none; adflib_entry = entry })
      else no_dentry

  -- The part of `adfimage_getdentry` behind the change of directory. Without entries it returns at
  -- once, and does not go back.
  unfoldable pub lookup_dentry : Bytes → Option Bytes → Image Vol → Dentry × Image Vol
  lookup_dentry entryname cwd img = elim (get_dir_ent img.vol (cur_dir_ptr img.vol)) [
    | [] ↦ (no_dentry, img)
    | e ∷ es ↦ (found_dentry (adflib_list_find (e ∷ es) entryname), leave_dirpath L cwd img)
  ]

  module _ (C : Libc) where
    -- Whether the change of directory succeeded is not looked at.
    unfoldable pub getdentry : Bytes → Image Vol → Dentry × Image Vol
    getdentry pathname img =
        if strcmp_eq pathname root_path
        then (get_root_dentry img, img)
        else elim (path_create C pathname) [
          | none ↦ (no_dentry, img)
          | some path ↦
              let (cwd, _, there) = enter_dirpath L path.dirpath img in
              lookup_dentry path.entryname cwd there
        ]
