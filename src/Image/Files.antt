-- ===== src/Image/Files.antt =====
-- Files in src/adfimage.c: open, read, write, readlink and truncate. Each works in the directory of
-- its path, and goes back only where the source does.
pub mod Link
use fuseadf.Prelude.{
  ℕ, ◌%◌, ◌^◌, true, false, Option, none, some, List, [], ◌++◌, Bytes, ℤ, pos, neg, eqb_ℤ, int32,
  length, take, replicate, if◌then◌else◌,
}
use fuseadf.Libc.{Libc, enoent, einval}
use fuseadf.Adflib.{Adflib, EntryBlock, st_lsoft, FileMode, mode_read, mode_write, is_ok}
use fuseadf.Path.{path_create}
use fuseadf.Image.{Image, enter_dirpath, leave_dirpath}

-- The cast to `unsigned`.
abbrev pub unsigned : ℕ → ℕ
unsigned n = n % 2 ^ 32

-- `strncpy ( buffer, s, n )`: the string, cut or filled up with NULs to n cells.
abbrev pub strncpy : ℕ → Bytes → List ℕ
strncpy n s = take n (s ++ replicate n 0)

module _ (L : Adflib) where
  open L use {
    Vol, File, cur_dir_ptr, read_entry_block, name_to_entry_blk, file_open, file_seek, file_read,
    file_write, file_truncate, file_close,
  }

  abbrev pub opened : Option Bytes → Image Vol → Option File → Option File × Image Vol
  opened cwd img none = (none, img)
  opened cwd img (some file) = (some file, leave_dirpath L cwd img)

  -- Seek and read, and close the file. Without a successful seek no byte is read.
  unfoldable pub read_file : File → ℕ → ℕ → Image Vol → (ℤ × Bytes) × Image Vol
  read_file file size offset img =
      let (rc, f, v) = file_seek file (unsigned offset) img.vol in
      elim (is_ok rc) [
        | true ↦
            let (bytes, f', v') = file_read f (unsigned size) v in
            ((int32 (length bytes), bytes), record img { vol = file_close (some f') v' })
        | false ↦ ((pos 0, []), record img { vol = file_close (some f) v })
      ]

  unfoldable pub write_file : File → Bytes → ℕ → ℕ → Image Vol → ℤ × Image Vol
  write_file file data' size offset img =
      let (rc, f, v) = file_seek file (unsigned offset) img.vol in
      elim (is_ok rc) [
        | true ↦
            let (n, f', v') = file_write f (unsigned size) data' v in
            (int32 n, record img { vol = file_close (some f') v' })
        | false ↦ (pos 0, record img { vol = file_close (some f) v })
      ]

  abbrev pub read_opened :
      ℕ → ℕ → Option Bytes → Option File × Vol → Image Vol → (ℤ × Bytes) × Image Vol
  read_opened size offset cwd (none, v) img = ((neg enoent, []), record img { vol = v })
  read_opened size offset cwd (some file, v) img =
      let (reply, img') = read_file file size offset (record img { vol = v }) in
      (reply, leave_dirpath L cwd img')

  abbrev pub write_opened :
      Bytes → ℕ → ℕ → Option Bytes → Option File × Vol → Image Vol → ℤ × Image Vol
  write_opened data' size offset cwd (none, v) img = (neg enoent, record img { vol = v })
  write_opened data' size offset cwd (some file, v) img =
      let (reply, img') = write_file file data' size offset (record img { vol = v }) in
      (reply, leave_dirpath L cwd img')

  -- `adfFileTruncate` and the close, on the file that was opened.
  abbrev pub truncate_opened : ℕ → Option File × Image Vol → ℤ × Image Vol
  truncate_opened new_size (none, there) = (neg enoent, there)
  truncate_opened new_size (some file, there) =
      let (rc, file', v) = file_truncate file (unsigned new_size) there.vol in
      (if is_ok rc then pos 0 else neg 1, record there { vol = file_close (some file') v })

  -- The status and the buffer of a link's text: `secType` tells soft links from hard ones, whose
  -- text is the name of the entry that they refer to.
  unfoldable pub link_text : Vol → ℕ → EntryBlock → ℤ × List ℕ
  link_text v len_max entry = elim (entry.sec_type) [
    | st_lsoft ↦ (pos 0, strncpy len_max entry.real_name)
    | _ ↦
        let (rc, target) = read_entry_block v entry.real_entry in
        if is_ok rc then (pos 0, strncpy len_max target.name) else (neg 3, replicate len_max 0)
  ]

  -- Between the change of directory and `readlink_cleanup`.
  unfoldable pub find_link : Vol → Bytes → List ℕ → ℕ → ℤ × List ℕ
  find_link v entryname buf len_max =
      let (rc, parent) = read_entry_block v (cur_dir_ptr v) in
      let (sect_num, entry) = name_to_entry_blk v parent.hash_table entryname in
      if is_ok rc
      then (if eqb_ℤ sect_num (neg 1) then (neg 2, buf) else link_text v len_max entry)
      else (neg 1, buf)

  module _ (C : Libc) where
    unfoldable pub adfimage_file_open : Bytes → FileMode → Image Vol → Option File × Image Vol
    adfimage_file_open pathstr mode img = elim (path_create C pathstr) [
      | none ↦ (none, img)
      | some path ↦
          let (cwd, ok, there) = enter_dirpath L path.dirpath img in
          let (file, v) = file_open there.vol path.entryname mode in
          if ok then opened cwd (record there { vol = v }) file else (none, there)
    ]

    unfoldable pub adfimage_read : Bytes → ℕ → ℕ → Image Vol → (ℤ × Bytes) × Image Vol
    adfimage_read pathstr size offset img = elim (path_create C pathstr) [
      | none ↦ ((neg einval, []), img)
      | some path ↦
          let (cwd, ok, there) = enter_dirpath L path.dirpath img in
          if ok
          then read_opened size offset cwd (file_open there.vol path.entryname mode_read) there
          else ((neg enoent, []), there)
    ]

    unfoldable pub adfimage_write : Bytes → Bytes → ℕ → ℕ → Image Vol → ℤ × Image Vol
    adfimage_write pathstr data' size offset img = elim (path_create C pathstr) [
      | none ↦ (neg einval, img)
      | some path ↦
          let (cwd, ok, there) = enter_dirpath L path.dirpath img in
          if ok
          then write_opened data' size offset cwd (file_open there.vol path.entryname mode_write)
              there
          else (neg enoent, there)
    ]

    unfoldable pub adfimage_readlink : Bytes → List ℕ → ℕ → Image Vol → (ℤ × List ℕ) × Image Vol
    adfimage_readlink pathstr buf len_max img = elim (path_create C pathstr) [
      | none ↦ ((neg einval, buf), img)
      | some path ↦
          let (cwd, ok, there) = enter_dirpath L path.dirpath img in
          if ok
          then (find_link there.vol path.entryname buf len_max, leave_dirpath L cwd there)
          else ((neg 1, buf), there)
    ]

    unfoldable pub adfimage_file_truncate : Bytes → ℕ → Image Vol → ℤ × Image Vol
    adfimage_file_truncate path new_size img =
        truncate_opened new_size (adfimage_file_open path mode_write img)
