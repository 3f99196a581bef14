-- ===== src/Fs.antt =====
-- The handlers of src/adffs.c that FUSE calls, all but `adffs_getattr`. The state that they share
-- is the image in `adffs_state_t`. Logging, which has no effect on a result, is left out.
pub mod Attr
pub mod Modes
pub mod Listing
pub mod Forward
pub mod Requests
use fuseadf.Prelude.{
  ℕ, ◌+◌, ◌-◌, ◌%◌, ◌^◌, Bool, true, false, Option, none, some, List, [], ◌∷◌, Bytes, codes, ℤ, pos,
  neg, eqb_ℤ, bit_and, bit_or, if◌then◌else◌,
}
use fuseadf.Libc.{Libc, enoent, eagain, einval, s_irusr, s_iwusr, s_ixusr}
use fuseadf.Adflib.{Adflib, AdfEntry, mode_read}
use fuseadf.Image.{Image, chdir, to_root}
use fuseadf.Image.Perm.{adf_perm_read, adf_perm_write, adf_perm_execute, is_set, setperm}
use fuseadf.Image.Files.{adfimage_file_open, adfimage_file_truncate, unsigned}

-- What FUSE gives `adffs_readdir`: a buffer and a function that adds a name to it. A result other
-- than 0 (`true` here) says that the buffer is full.
pub record Filler : Type 1 where
  pub Buffer : Type 0
  pub fill : Buffer → Bytes → Bool × Buffer

-- `struct statvfs`, the fields that are set.
pub record StatVfs : Type 0 where
  pub f_flag : ℕ
  pub f_bsize : ℕ
  pub f_frsize : ℕ
  pub f_blocks : ℕ
  pub f_bfree : ℕ
  pub f_bavail : ℕ
  pub f_files : ℕ
  pub f_ffree : ℕ
  pub f_favail : ℕ
  pub f_namemax : ℕ

abbrev pub st_rdonly : ℕ
st_rdonly = 1

abbrev pub st_nosuid : ℕ
st_nosuid = 2

-- Only the user's permissions are looked at.
unfoldable pub perms_of_mode : ℕ → ℕ
perms_of_mode mode =
    bit_or
      (bit_or (if is_set (bit_and mode s_irusr) then adf_perm_read else 0)
        (if is_set (bit_and mode s_iwusr) then adf_perm_write else 0))
      (if is_set (bit_and mode s_ixusr) then adf_perm_execute else 0)

module _ (L : Adflib) where
  open L use {
    Vol, File, cur_dir_ptr, read_only, datablock_size, first_block, last_block, get_dir_ent,
    count_free_blocks, file_close,
  }

  -- The subtraction of block numbers is the 32-bit one.
  unfoldable pub adffs_statfs : Image Vol → StatVfs
  adffs_statfs img = record {
    f_flag = if read_only img.vol then bit_or st_nosuid st_rdonly else st_nosuid;
    f_bsize = datablock_size img.vol;
    f_frsize = datablock_size img.vol;
    f_blocks = unsigned (last_block img.vol + (2 ^ 32 - unsigned (first_block img.vol + 2)));
    f_bfree = count_free_blocks img.vol;
    f_bavail = count_free_blocks img.vol;
    f_files = 1;
    f_ffree = 1;
    f_favail = 1;
    f_namemax = 30;
  }

  module _ (F : Filler) where
    open F use {Buffer, fill}

    -- The loop over the entries, until the buffer is full: `true` says that it was.
    unfoldable pub fill_entries : List AdfEntry → Buffer → Bool × Buffer
    fill_entries [] buf = (false, buf)
    fill_entries (dentry ∷ dentries) buf =
        let (full, buf') = fill buf dentry.name in
        elim full [ true ↦ (true, buf') | false ↦ fill_entries dentries buf' ]

    abbrev pub readdir_at : Buffer → Bool × Image Vol → (ℤ × Buffer) × Image Vol
    readdir_at buf (true, there) =
        let (_, buf1) = fill buf (codes ".") in
        let (_, buf2) = fill buf1 (codes "..") in
        let (full, buf3) = fill_entries (get_dir_ent there.vol (cur_dir_ptr there.vol)) buf2 in
        ((if full then neg eagain else pos 0, buf3), to_root L there)
    readdir_at buf (false, there) = ((neg enoent, buf), to_root L there)

    unfoldable pub adffs_readdir : Bytes → Buffer → Image Vol → (ℤ × Buffer) × Image Vol
    adffs_readdir path buf img = readdir_at buf (chdir L path img)

  -- The status of `adffs_open`, and the close, on the file that was opened or NULL.
  abbrev pub close_opened : Option File × Image Vol → ℤ × Image Vol
  close_opened (file, there) = (
    elim file [ none ↦ neg 1 | some _ ↦ pos 0 ],
    record there { vol = file_close file there.vol },
  )

  module _ (C : Libc) where
    -- On failure the error number is not negated.
    unfoldable pub adffs_chmod : Bytes → ℕ → Image Vol → ℤ × Image Vol
    adffs_chmod path mode img =
        let (ok, img') = setperm L C path (perms_of_mode mode) img in
        (if ok then pos 0 else pos einval, img')

    unfoldable pub adffs_open : Bytes → Image Vol → ℤ × Image Vol
    adffs_open filepath img = close_opened (adfimage_file_open L C filepath mode_read img)

    unfoldable pub adffs_truncate : Bytes → ℕ → Image Vol → ℤ × Image Vol
    adffs_truncate path new_size img =
        let (status, img') = adfimage_file_truncate L C path new_size img in
        (if eqb_ℤ status (pos 0) then pos 0 else neg 1, img')
