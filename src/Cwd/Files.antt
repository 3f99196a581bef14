-- ===== src/Cwd/Files.antt =====
-- Files of src/adfimage.c, as moves.
use fuseadf.Prelude.{
  ℕ, inl, inr, Bool-cases, Option, none, some, List, [], Bytes, neg, if◌then◌else◌,
}
use fuseadf.Libc.{Libc, enoent, einval}
use fuseadf.Adflib.{Adflib, FileMode, mode_read, mode_write, is_ok}
use fuseadf.Image.{Image, leave_dirpath}
use fuseadf.Image.Files.{
  unsigned, find_link, opened, read_file, write_file, read_opened, write_opened, truncate_opened,
  adfimage_file_open, adfimage_read, adfimage_write, adfimage_readlink,
}
use fuseadf.Cwd.{Moves, call}
use fuseadf.Cwd.Operations.{Entered, Opens, in_dirpath-Moves}

module _ (L : Adflib) where
  open L use {Vol}

  opened-Moves :
      {h k : ℕ} {img there : Image Vol} (cwd : Option Bytes) (v : Vol) (file : Option L.File)
      → Entered L h img k cwd there
      → Moves L h img k (opened L cwd (record there { vol = v }) file).1
  opened-Moves cwd v none (m, ret) = call v m
  opened-Moves cwd v (some file) (m, ret) = ret v

  read_opened-Moves :
      {h k : ℕ} {img there : Image Vol} (size offset : ℕ) (cwd : Option Bytes)
      (r : Option L.File × Vol)
      → Entered L h img k cwd there
      → Moves L h img k (read_opened L size offset cwd r there).1
  unfolding read_file leave_dirpath
  read_opened-Moves size offset cwd (none, v) (m, ret) = call v m
  read_opened-Moves size offset cwd (some file, v) (m, ret) =
      elim (Bool-cases (is_ok (L.file_seek file (unsigned offset) v).0)) [
        | inl e ↦ rw (e, read_opened, read_file) (ret _)
        | inr e ↦ rw (e, read_opened, read_file) (ret _)
      ]

  write_opened-Moves :
      {h k : ℕ} {img there : Image Vol} (data' : Bytes) (size offset : ℕ) (cwd : Option Bytes)
      (r : Option L.File × Vol)
      → Entered L h img k cwd there
      → Moves L h img k (write_opened L data' size offset cwd r there).1
  unfolding write_file leave_dirpath
  write_opened-Moves data' size offset cwd (none, v) (m, ret) = call v m
  write_opened-Moves data' size offset cwd (some file, v) (m, ret) =
      elim (Bool-cases (is_ok (L.file_seek file (unsigned offset) v).0)) [
        | inl e ↦ rw (e, write_opened, write_file) (ret _)
        | inr e ↦ rw (e, write_opened, write_file) (ret _)
      ]

  pub truncate_opened-Moves :
      {h k : ℕ} {img there : Image Vol} (size : ℕ) (file : Option L.File)
      → Moves L h img k there
      → Moves L h img k (truncate_opened L size (file, there)).1
  truncate_opened-Moves size none m = m
  truncate_opened-Moves size (some file) m = call _ m

  module _ (C : Libc) where
    pub file_open-Moves :
        {h k : ℕ} {img img' : Image Vol} (path : Bytes) (mode : FileMode)
        → Opens L C k path
        → Moves L h img k img'
        → Moves L h img k (adfimage_file_open L C path mode img').1
    unfolding adfimage_file_open
    file_open-Moves path mode =
        in_dirpath-Moves L C path none
          (λ p (cwd, ok, there).
            let (file, v) = L.file_open there.vol p.entryname mode in
            if ok then opened L cwd (record there { vol = v }) file else (none, there))
          (λ p cwd ok there en. elim (Bool-cases ok) [
            | inl e ↦ rw e (opened-Moves cwd _ (L.file_open there.vol p.entryname mode).0 en)
            | inr e ↦ rw e (en.0)
          ])

    pub read-Moves :
        {h k : ℕ} {img img' : Image Vol} (path : Bytes) (size offset : ℕ)
        → Opens L C k path
        → Moves L h img k img'
        → Moves L h img k (adfimage_read L C path size offset img').1
    unfolding adfimage_read
    read-Moves path size offset =
        in_dirpath-Moves L C path (neg einval, [])
          (λ p (cwd, ok, there).
            if ok
            then read_opened L size offset cwd (L.file_open there.vol p.entryname mode_read) there
            else ((neg enoent, []), there))
          (λ p cwd ok there en. elim (Bool-cases ok) [
            | inl e ↦
                rw e (
                  read_opened-Moves size offset cwd (L.file_open there.vol p.entryname mode_read)
                    en)
            | inr e ↦ rw e (en.0)
          ])

    pub write-Moves :
        {h k : ℕ} {img img' : Image Vol} (path data' : Bytes) (size offset : ℕ)
        → Opens L C k path
        → Moves L h img k img'
        → Moves L h img k (adfimage_write L C path data' size offset img').1
    unfolding adfimage_write
    write-Moves path data' size offset =
        in_dirpath-Moves L C path (neg einval)
          (λ p (cwd, ok, there).
            if ok
            then write_opened L data' size offset cwd (L.file_open there.vol p.entryname mode_write)
                there
            else (neg enoent, there))
          (λ p cwd ok there en. elim (Bool-cases ok) [
            | inl e ↦ rw e (
                write_opened-Moves data' size offset cwd
                  (L.file_open there.vol p.entryname mode_write) en)
            | inr e ↦ rw e (en.0)
          ])

    pub readlink-Moves :
        {h k : ℕ} {img img' : Image Vol} (path : Bytes) (buf : List ℕ) (len : ℕ)
        → Opens L C k path
        → Moves L h img k img'
        → Moves L h img k (adfimage_readlink L C path buf len img').1
    unfolding adfimage_readlink
    readlink-Moves path buf len =
        in_dirpath-Moves L C path (neg einval, buf)
          (λ p (cwd, ok, there).
            if ok
            then (find_link L there.vol p.entryname buf len, leave_dirpath L cwd there)
            else ((neg 1, buf), there))
          (λ p cwd ok there en. elim (Bool-cases ok) [
            | inl e ↦ rw e (en.1 there.vol)
            | inr e ↦ rw e (en.0)
          ])
