-- ===== src/Fs/Forward.antt =====
-- The handlers of src/adffs.c that pass their arguments on to src/adfimage.c, and those that do
-- nothing.
use fuseadf.Prelude.{ℕ, List, Option, Bytes, ℤ, pos}
use fuseadf.Libc.{Libc}
use fuseadf.Adflib.{Adflib}
use fuseadf.Image.{Image}
use fuseadf.Image.Files.{adfimage_read, adfimage_write, adfimage_readlink}
use fuseadf.Image.Entries.{adfimage_mkdir, adfimage_rmdir, adfimage_unlink, adfimage_create}
use fuseadf.Image.Rename.{adfimage_file_rename}

module _ (L : Adflib) where
  open L use {Vol}

  -- Owners and times cannot be set: the answer is success, and nothing is done.
  abbrev pub adffs_chown : Bytes → Image Vol → ℤ × Image Vol
  adffs_chown path img = (pos 0, img)

  abbrev pub adffs_utimens : Bytes → Image Vol → ℤ × Image Vol
  adffs_utimens path img = (pos 0, img)

  module _ (C : Libc) where
    abbrev pub adffs_read : Bytes → ℕ → ℕ → Image Vol → (ℤ × Bytes) × Image Vol
    adffs_read path size offset img = adfimage_read L C path size offset img

    abbrev pub adffs_write : Bytes → Bytes → ℕ → ℕ → Image Vol → ℤ × Image Vol
    adffs_write path buffer size offset img = adfimage_write L C path buffer size offset img

    abbrev pub adffs_readlink : Bytes → List ℕ → ℕ → Image Vol → (ℤ × List ℕ) × Image Vol
    adffs_readlink path buf len img = adfimage_readlink L C path buf len img

    abbrev pub adffs_mkdir : Bytes → Image Vol → ℤ × Image Vol
    adffs_mkdir dirpath img = adfimage_mkdir L C dirpath img

    abbrev pub adffs_rmdir : Bytes → Image Vol → ℤ × Image Vol
    adffs_rmdir dirpath img = adfimage_rmdir L C dirpath img

    abbrev pub adffs_create : Bytes → Image Vol → ℤ × Image Vol
    adffs_create filepath img = adfimage_create L C filepath img

    abbrev pub adffs_unlink : Bytes → Image Vol → ℤ × Image Vol
    adffs_unlink filepath img = adfimage_unlink L C filepath img

    abbrev pub adffs_rename : ℕ → Bytes → Bytes → Image Vol → Option (ℤ × Image Vol)
    adffs_rename fuel src_path dst_path img = adfimage_file_rename L C fuel src_path dst_path img
