-- ===== src/Named/Transfer/Back.antt =====
-- What a read of src/adfimage.c finds of the bytes that a write has stored.
use fuseadf.Prelude.{ℕ, ◌+◌, ◌≤◌, ◌≡◌, true, Option, some, List, ◌++◌, Bytes, ℤ, length, take, drop}
use fuseadf.Libc.{Libc}
use fuseadf.Adflib.{Adflib, FileMode, mode_read, mode_write, is_ok}
use fuseadf.Image.{Image}
use fuseadf.Named.{locate}
use fuseadf.Named.Transfer.{Transfer, move}

-- Bytes over others from a position on.
abbrev pub splice : ℕ → Bytes → Bytes → Bytes
splice at data' bytes = take at bytes ++ (data' ++ drop (at + length data') bytes)

module _ (L : Adflib) where
  open L use {Vol, File, to_root_dir, file_open, file_seek, file_read, file_write, file_close}

  -- What ADFlib documents of files. `Opened` says that a handle is for the file of a path, in which
  -- mode it was opened, where its position is and what the file holds. That a file opens, and that a
  -- seek succeeds, is not among it.
  pub record IsFileStore : Type 1 where
    pub contents : Vol → List Bytes → Bytes → Option Bytes
    pub Opened : File → Vol → FileMode → List Bytes → Bytes → ℕ → Bytes → Type 0
    pub contents_free :
        (v : Vol) (dirs : List Bytes) (name : Bytes)
        → contents v dirs name ≡ contents (to_root_dir v) dirs name
    pub opens :
        (v : Vol) (dirs : List Bytes) (name bytes : Bytes) (there : Vol) (m : FileMode) (f : File)
        (w : Vol)
        → locate L v dirs ≡ some there
        → contents v dirs name ≡ some bytes
        → file_open there name m ≡ (some f, w)
        → Opened f w m dirs name 0 bytes
    pub seeks :
        (f : File) (v : Vol) (m : FileMode) (dirs : List Bytes) (name bytes : Bytes) (at n : ℕ)
        → Opened f v m dirs name at bytes
        → n ≤ length bytes
        → is_ok (file_seek f n v).0 ≡ true
        → Opened (file_seek f n v).1 (file_seek f n v).2 m dirs name n bytes
    -- Only a handle that was opened to read is read.
    pub reads :
        (f : File) (v : Vol) (dirs : List Bytes) (name bytes : Bytes) (at n : ℕ)
        → Opened f v mode_read dirs name at bytes
        → (file_read f n v).0 ≡ take n (drop at bytes)
    -- It may write less than it is asked to.
    pub writes :
        (f : File) (v : Vol) (dirs : List Bytes) (name bytes : Bytes) (at : ℕ) (data' : Bytes)
        → Opened f v mode_write dirs name at bytes
        → let (m, f', w) = file_write f (length data') data' v in
          (m ≤ length data')
          × Opened f' w mode_write dirs name (at + m) (splice at (take m data') bytes)
    pub closes :
        (f : File) (v : Vol) (m : FileMode) (dirs : List Bytes) (name bytes : Bytes) (at : ℕ)
        → Opened f v m dirs name at bytes
        → contents (file_close (some f) v) dirs name ≡ some bytes

  -- In a volume, the names lead to a directory where the file opens in a mode, and it can be sought in.
  pub record Ready (v : Vol) (m : FileMode) (dirs : List Bytes) (name : Bytes) (offset : ℕ)
      : Type 0 where
    pub there : Vol
    pub file : File
    pub behind : Vol
    pub found : locate L v dirs ≡ some there
    pub opened : file_open there name m ≡ (some file, behind)
    pub sought : is_ok (file_seek file offset behind).0 ≡ true

  -- A transfer in a file that opens and seeks.
  abbrev moved : Transfer → ℕ → File → Vol → (ℤ × Bytes) × Vol
  moved t size f w = let (reply, f', w') = move L t f size w in (reply, file_close (some f') w')
