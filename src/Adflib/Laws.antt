-- ===== src/Adflib/Laws.antt =====
-- What the proofs assume of ADFlib: how its operations depend on the current directory of the
-- volume. `to_root_dir v` is the volume with its current directory at the root.
use fuseadf.Prelude.{ℕ, ◌≡◌, Bytes, ℤ, false, Option}
use fuseadf.Adflib.{Adflib, EntryBlock, is_ok}

module _ (L : Adflib) where
  open L use {
    Vol, root_block, read_only, datablock_size, first_block, last_block, to_root_dir, change_dir,
    count_free_blocks, read_root_block, read_entry_block, write_entry_block, rename_entry, File,
    file_truncate, file_close,
  }

  -- `adfToRootDir` and `adfChangeDir` change nothing but the current directory.
  pub record IsDirectory : Type 0 where
    pub to_root-to_root : (v : Vol) → to_root_dir (to_root_dir v) ≡ to_root_dir v
    pub to_root-change_dir :
        (v : Vol) (dir : Bytes) → to_root_dir (change_dir v dir).1 ≡ to_root_dir v

  -- Operations that take no directory, or its sector as an argument, do not use the current one.
  pub record IsPositionFree : Type 0 where
    pub root_block_free : (v : Vol) → root_block v ≡ root_block (to_root_dir v)
    pub read_only_free : (v : Vol) → read_only v ≡ read_only (to_root_dir v)
    pub datablock_size_free : (v : Vol) → datablock_size v ≡ datablock_size (to_root_dir v)
    pub first_block_free : (v : Vol) → first_block v ≡ first_block (to_root_dir v)
    pub last_block_free : (v : Vol) → last_block v ≡ last_block (to_root_dir v)
    pub count_free_blocks_free : (v : Vol) → count_free_blocks v ≡ count_free_blocks (to_root_dir v)
    pub read_root_block_free :
        (v : Vol) (s : ℤ) → read_root_block v s ≡ read_root_block (to_root_dir v) s
    pub read_entry_block_free :
        (v : Vol) (s : ℤ) → read_entry_block v s ≡ read_entry_block (to_root_dir v) s
    pub write_entry_block_free :
        (v : Vol) (s : ℤ) (b : EntryBlock)
        → (write_entry_block v s b).0 ≡ (write_entry_block (to_root_dir v) s b).0
    pub to_root-write_entry_block :
        (v : Vol) (s : ℤ) (b : EntryBlock)
        → to_root_dir (write_entry_block v s b).1
          ≡ to_root_dir (write_entry_block (to_root_dir v) s b).1
    pub rename_entry_free :
        (v : Vol) (s : ℤ) (a : Bytes) (t : ℤ) (b : Bytes)
        → (rename_entry v s a t b).0 ≡ (rename_entry (to_root_dir v) s a t b).0
    pub to_root-rename_entry :
        (v : Vol) (s : ℤ) (a : Bytes) (t : ℤ) (b : Bytes)
        → to_root_dir (rename_entry v s a t b).1
          ≡ to_root_dir (rename_entry (to_root_dir v) s a t b).1
    pub file_truncate_free :
        (f : File) (n : ℕ) (v : Vol)
        → ((file_truncate f n v).0 ≡ (file_truncate f n (to_root_dir v)).0)
          × ((file_truncate f n v).1 ≡ (file_truncate f n (to_root_dir v)).1)
    pub to_root-file_truncate :
        (f : File) (n : ℕ) (v : Vol)
        → to_root_dir (file_truncate f n v).2 ≡ to_root_dir (file_truncate f n (to_root_dir v)).2
    pub to_root-file_close :
        (f : Option File) (v : Vol)
        → to_root_dir (file_close f v) ≡ to_root_dir (file_close f (to_root_dir v))

  -- A failed `adfChangeDir` leaves the current directory as it is.
  pub record KeepsOnFailure : Type 0 where
    pub change_dir_failed :
        (v : Vol) (dir : Bytes) → is_ok (change_dir v dir).0 ≡ false → (change_dir v dir).1 ≡ v
