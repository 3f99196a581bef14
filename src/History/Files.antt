-- ===== src/History/Files.antt =====
-- Reading and writing, from two images with the same disk.
use fuseadf.Prelude.{ℕ, refl, Option, none, some, List, ◌∷◌, [], Bytes, neg, if◌then◌else◌}
use fuseadf.Pathstr.{slash}
use fuseadf.Libc.{Libc, IsPosix, einval, enoent}
use fuseadf.Adflib.{Adflib, FileMode, mode_read, mode_write}
use fuseadf.Adflib.Laws.{IsDirectory}
use fuseadf.Image.{Image, leave_dirpath}
use fuseadf.Image.Files.{
  read_opened, write_opened, opened, find_link, adfimage_read, adfimage_write, adfimage_readlink,
  adfimage_file_open,
}
use fuseadf.History.Chdir.{
  SameDisk, SameDisk-refl, SameDisk-symm, SameDisk-trans, Agree, leave_dirpath-SameDisk,
  in_dirpath-Agree, if-Agree,
}

module _ (L : Adflib) (C : Libc) (D : IsDirectory L) (P : IsPosix C) where
  open L use {Vol, File, file_open}

  pub leave-SameDisk :
      (cwd cwd' : Option Bytes) (img : Image Vol)
      → SameDisk L (leave_dirpath L cwd img) (leave_dirpath L cwd' img)
  leave-SameDisk cwd cwd' img =
      SameDisk-trans L (leave_dirpath-SameDisk L D cwd img)
        (SameDisk-symm L (leave_dirpath-SameDisk L D cwd' img))

  read_opened-Agree :
      (size offset : ℕ) (cwd cwd' : Option Bytes) (r : Option File × Vol) (there : Image Vol)
      → Agree L (read_opened L size offset cwd r there) (read_opened L size offset cwd' r there)
  read_opened-Agree size offset cwd cwd' (none, v) there = (refl, SameDisk-refl L _)
  read_opened-Agree size offset cwd cwd' (some file, v) there = (refl, leave-SameDisk cwd cwd' _)

  write_opened-Agree :
      (data' : Bytes) (size offset : ℕ) (cwd cwd' : Option Bytes) (r : Option File × Vol)
      (there : Image Vol)
      → Agree L
          (write_opened L data' size offset cwd r there)
          (write_opened L data' size offset cwd' r there)
  write_opened-Agree data' size offset cwd cwd' (none, v) there = (refl, SameDisk-refl L _)
  write_opened-Agree data' size offset cwd cwd' (some file, v) there =
      (refl, leave-SameDisk cwd cwd' _)

  opened-Agree :
      (cwd cwd' : Option Bytes) (there : Image Vol) (file : Option File)
      → Agree L (opened L cwd there file) (opened L cwd' there file)
  opened-Agree cwd cwd' there none = (refl, SameDisk-refl L _)
  opened-Agree cwd cwd' there (some file) = (refl, leave-SameDisk cwd cwd' _)

  module _ (p : Bytes) (img img' : Image Vol) (s : SameDisk L img img') where
    -- Each operation gives the same answer on the same disk.
    pub read-Agree :
        (size offset : ℕ)
        → Agree L
            (adfimage_read L C (slash ∷ p) size offset img)
            (adfimage_read L C (slash ∷ p) size offset img')
    unfolding adfimage_read
    read-Agree size offset =
        in_dirpath-Agree L C P p (neg einval, [])
          (λ path (cwd, ok, there).
            if ok
            then read_opened L size offset cwd (file_open there.vol path.entryname mode_read) there
            else ((neg enoent, []), there))
          (λ path cwd cwd' ok there.
            if-Agree L ok _ _ _ _
              (read_opened-Agree size offset cwd cwd' (file_open there.vol path.entryname mode_read)
                there)
              (refl, SameDisk-refl L there))
          img img' s

    pub write-Agree :
        (data' : Bytes) (size offset : ℕ)
        → Agree L
            (adfimage_write L C (slash ∷ p) data' size offset img)
            (adfimage_write L C (slash ∷ p) data' size offset img')
    unfolding adfimage_write
    write-Agree data' size offset =
        in_dirpath-Agree L C P p (neg einval)
          (λ path (cwd, ok, there).
            if ok
            then write_opened L data' size offset cwd
                (file_open there.vol path.entryname mode_write) there
            else (neg enoent, there))
          (λ path cwd cwd' ok there.
            if-Agree L ok _ _ _ _
              (write_opened-Agree data' size offset cwd cwd'
                (file_open there.vol path.entryname mode_write) there)
              (refl, SameDisk-refl L there))
          img img' s

    pub readlink-Agree :
        (buf : List ℕ) (len_max : ℕ)
        → Agree L
            (adfimage_readlink L C (slash ∷ p) buf len_max img)
            (adfimage_readlink L C (slash ∷ p) buf len_max img')
    unfolding adfimage_readlink
    readlink-Agree buf len_max =
        in_dirpath-Agree L C P p (neg einval, buf)
          (λ path (cwd, ok, there).
            if ok
            then (find_link L there.vol path.entryname buf len_max, leave_dirpath L cwd there)
            else ((neg 1, buf), there))
          (λ path cwd cwd' ok there.
            if-Agree L ok _ _ _ _ (refl, leave-SameDisk cwd cwd' there)
              (refl, SameDisk-refl L there))
          img img' s

    pub file_open-Agree :
        (mode : FileMode)
        → Agree L
            (adfimage_file_open L C (slash ∷ p) mode img)
            (adfimage_file_open L C (slash ∷ p) mode img')
    unfolding adfimage_file_open
    file_open-Agree mode =
        in_dirpath-Agree L C P p none
          (λ path (cwd, ok, there).
            let (file, v) = file_open there.vol path.entryname mode in
            if ok then opened L cwd (record there { vol = v }) file else (none, there))
          (λ path cwd cwd' ok there.
            if-Agree L ok _ _ _ _
              (opened-Agree cwd cwd' _ (file_open there.vol path.entryname mode).0)
              (refl, SameDisk-refl L there))
          img img' s
