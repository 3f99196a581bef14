-- ===== src/Fs/Attr.antt =====
-- `adffs_getattr` of src/adffs.c.
use fuseadf.Prelude.{
  ℕ, ◌+◌, ◌/◌, Option, none, some, [], ◌∷◌, Bytes, codes, ℤ, pos, neg, bit_and, bit_or,
  if◌then◌else◌,
}
use fuseadf.Pathstr.{pathstr_get_relative}
use fuseadf.Libc.{Libc, enoent, s_ifdir, s_ifreg, s_iflnk, s_iwusr, read_all, execute_all}
use fuseadf.Adflib.{Adflib, mode_read}
use fuseadf.Time.{localtime_to_time_t}
use fuseadf.Image.{Image, chdir, to_root, count_cwd_entries, count_dir_entries}
use fuseadf.Image.Dentry.{
  Dentry, dentry_none, dentry_file, dentry_directory, dentry_linkfile, dentry_linkdir,
  dentry_softlink, dentry_unknown, getdentry, get_root_dentry,
}
use fuseadf.Image.Perm.{adf_perm_read, adf_perm_write, adf_perm_execute, is_set, getperm}

-- `struct stat`, the fields that are set. The three times are always equal.
pub record Stat : Type 0 where
  pub st_mode : ℕ
  pub st_nlink : ℕ
  pub st_size : ℕ
  pub st_blocks : ℕ
  pub st_uid : ℕ
  pub st_gid : ℕ
  pub st_mtime : ℤ
  pub st_blksize : ℕ

-- After `memset`.
abbrev pub zero_stat : Stat
zero_stat = record {
  st_mode = 0;
  st_nlink = 0;
  st_size = 0;
  st_blocks = 0;
  st_uid = 0;
  st_gid = 0;
  st_mtime = pos 0;
  st_blksize = 0;
}

abbrev pub read_write_bits : ℕ → ℕ
read_write_bits perms =
    bit_or (if is_set (bit_and perms adf_perm_read) then read_all else 0)
      (if is_set (bit_and perms adf_perm_write) then s_iwusr else 0)

unfoldable pub file_mode : ℕ → ℕ
file_mode perms =
    bit_or (bit_or s_ifreg (read_write_bits perms))
      (if is_set (bit_and perms adf_perm_execute) then execute_all else 0)

-- Everyone may enter a directory.
unfoldable pub directory_mode : ℕ → ℕ
directory_mode perms = bit_or (bit_or s_ifdir (read_write_bits perms)) execute_all

abbrev pub root_mode : ℕ
root_mode = bit_or s_ifdir 0o755

abbrev pub softlink_mode : ℕ
softlink_mode = bit_or s_iflnk 0o555

-- The name that is looked up: `.` for an empty one.
abbrev pub direntry_name : Bytes → Bytes
direntry_name [] = codes "."
direntry_name (c ∷ name) = c ∷ name

module _ (L : Adflib) (C : Libc) where
  open L use {Vol, File, file_open, file_close, byte_size}

  abbrev pub file_size : Option File → Stat → Stat
  file_size none st = st
  file_size (some file) st = record st {
    st_size = byte_size file;
    st_blocks = byte_size file / 512 + 1;
  }

  -- The part of the answer that depends on the entry's type; `none` is -ENOENT.
  unfoldable pub stat_dentry : Bytes → Bytes → Dentry → Image Vol → Option Stat × Image Vol
  stat_dentry path name dentry img =
      let file_stat : Stat = record zero_stat {
        st_mode = file_mode (getperm L dentry);
        st_nlink = 1;
      } in
      let (afile, v) = file_open img.vol name mode_read in
      let as_file : Option Stat × Image Vol =
        (some (file_size afile file_stat), record img { vol = file_close afile v }) in
      let (entries, img') = count_dir_entries L path img in
      let as_directory : Option Stat × Image Vol = (
        some (record zero_stat {
          st_mode = directory_mode (getperm L dentry);
          st_nlink = 1;
          st_size = entries;
        }),
        img',
      ) in
      elim (dentry.type) [
        | dentry_file ↦ as_file
        | dentry_linkfile ↦ as_file
        | dentry_directory ↦ as_directory
        | dentry_linkdir ↦ as_directory
        | dentry_softlink ↦ (some (record zero_stat { st_mode = softlink_mode; st_nlink = 1 }), img)
        | dentry_unknown ↦ (some zero_stat, img)
        | dentry_none ↦ (none, img)
      ]

  -- The fields that every successful answer sets.
  unfoldable pub finish_stat : Dentry → ℕ → Stat → Stat
  finish_stat dentry blksize st = record st {
    st_uid = C.geteuid;
    st_gid = C.getegid;
    st_mtime =
        localtime_to_time_t C dentry.adflib_entry.year dentry.adflib_entry.month
          dentry.adflib_entry.days dentry.adflib_entry.hour dentry.adflib_entry.mins
          dentry.adflib_entry.secs;
    st_blksize = blksize;
  }

  abbrev pub finish : Dentry → Option Stat × Image Vol → (ℤ × Stat) × Image Vol
  finish dentry (none, img) = ((neg enoent, zero_stat), img)
  finish dentry (some st, img) = ((pos 0, finish_stat dentry img.blksize st), img)

  unfoldable pub root_getattr : Image Vol → (ℤ × Stat) × Image Vol
  root_getattr img =
      let st : Stat = record zero_stat {
        st_mode = root_mode;
        st_size = count_cwd_entries L img;
        st_nlink = 1;
      } in
      finish (get_root_dentry L img) (some st, img)

  unfoldable pub entry_getattr : Bytes → Image Vol → (ℤ × Stat) × Image Vol
  entry_getattr path img =
      let (ok, there) = chdir L (C.dirname path) img in
      let name = direntry_name (C.basename path) in
      let (dentry, found) = getdentry L C name there in
      let (st, img') = stat_dentry path name dentry found in
      if ok then finish dentry (st, to_root L img') else ((neg enoent, zero_stat), there)

  abbrev pub getattr_of : Bytes → Bytes → Image Vol → (ℤ × Stat) × Image Vol
  getattr_of [] path img = root_getattr img
  getattr_of (c ∷ rel) path img = entry_getattr path img

  unfoldable pub adffs_getattr : Bytes → Image Vol → (ℤ × Stat) × Image Vol
  adffs_getattr path img = getattr_of (pathstr_get_relative path) path img
