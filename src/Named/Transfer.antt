-- ===== src/Named/Transfer.antt =====
-- Reads and writes of src/adfimage.c refine the view by names.
pub mod Back
use fuseadf.Prelude.{
  ℕ, suc, ◌≡◌, refl, ap, sym, ◌∙◌, Bool, true, false, Bool-cases, Option, none, some, Option-cases,
  inl, inr, List, [], ◌∷◌, Bytes, ℤ, pos, neg, arith, int32, length, if◌then◌else◌, ◌==◌,
}
use fuseadf.Pathstr.{slash}
use fuseadf.Libc.{Libc, enoent, einval}
use fuseadf.Adflib.{Adflib, FileMode, mode_read, mode_write, is_ok}
use fuseadf.Adflib.Laws.{IsDirectory}
use fuseadf.Path.{PathT, path_create}
use fuseadf.Image.{Image, root_path, to_root, chdir, enter_dirs, enter_dirpath, leave_dirpath}
use fuseadf.Image.Files.{
  unsigned, read_file, write_file, read_opened, write_opened, adfimage_read, adfimage_write,
}
use fuseadf.History.Chdir.{SameDisk, enter_dirs-SameDisk, leave_dirpath-SameDisk}
use fuseadf.Workdir.{IsName, Names, render}
use fuseadf.Workdir.Paths.{join}
use fuseadf.Workdir.Enter.{enter_dirs-descend, enter_dirs_fails, chdir_rooted}
use fuseadf.Named.Entered.{Created, in_dirpath_named}
use fuseadf.Named.Directory.{Same, Gives, leave-Same, at_dir_lem}
use fuseadf.Named.{rooted_path, IsSplit, locate}

pub data Transfer : Type 0 where
  fetch : Transfer
  store : Bytes → Transfer

abbrev pub mode : Transfer → FileMode
mode fetch = mode_read
mode (store data') = mode_write

module _ (L : Adflib) where
  open L use {Vol, File, to_root_dir, file_open, file_seek, file_read, file_write, file_close}

  -- What ADFlib moves at the position of a file: the status with the bytes that were read.
  abbrev pub move : Transfer → File → ℕ → Vol → (ℤ × Bytes) × File × Vol
  move fetch f n v =
      let (bytes, f', v') = file_read f n v in ((int32 (length bytes), bytes), f', v')
  move (store data') f n v = let (m, f', v') = file_write f n data' v in ((int32 m, []), f', v')

  -- Seek, move and close.
  abbrev pub in_file : Transfer → ℕ → ℕ → Option File × Vol → (ℤ × Bytes) × Vol
  in_file t size offset (none, v) = ((neg enoent, []), v)
  in_file t size offset (some file, v) =
      let (rc, f, w) = file_seek file (unsigned offset) v in
      elim (is_ok rc) [
        | true ↦
            let (reply, f', w') = move t f (unsigned size) w in (reply, file_close (some f') w')
        | false ↦ ((pos 0, []), file_close (some f) w)
      ]

  -- In the directory that the names lead to, with the volume at its root behind it.
  abbrev pub transfer_at : Transfer → Vol → List Bytes → Bytes → ℕ → ℕ → (ℤ × Bytes) × Vol
  transfer_at t v dirs name size offset = elim (locate L v dirs) [
    | none ↦ ((neg enoent, []), to_root_dir v)
    | some there ↦
        let (reply, v') = in_file t size offset (file_open there name (mode t)) in
        (reply, to_root_dir v')
  ]

  -- What the source runs behind the change of directory.
  abbrev opened :
      Transfer → ℕ → ℕ → Option Bytes → Option File × Vol → Image Vol → (ℤ × Bytes) × Image Vol
  opened fetch size offset cwd o img = read_opened L size offset cwd o img
  opened (store data') size offset cwd o img =
      let (status, img') = write_opened L data' size offset cwd o img in ((status, []), img')

  abbrev entered :
      Transfer → Bytes → ℕ → ℕ → Option Bytes → Bool × Image Vol → (ℤ × Bytes) × Image Vol
  entered t name size offset cwd (ok, there) =
      if ok
      then opened t size offset cwd (file_open there.vol name (mode t)) there
      else ((neg enoent, []), there)

  abbrev no_bytes : ℤ × Image Vol → (ℤ × Bytes) × Image Vol
  no_bytes (status, img) = ((status, []), img)

  apart :
      (b : Bool) (x y : ℤ × Image Vol)
      → no_bytes (if b then x else y) ≡ (if b then no_bytes x else no_bytes y)
  apart true x y = refl
  apart false x y = refl

  module _ (D : IsDirectory L) where
    opened-Same :
        (t : Transfer) (size offset : ℕ) (cwd : Option Bytes) (o : Option File × Vol)
        (img : Image Vol)
        → Same L (opened t size offset cwd o img) (in_file t size offset o) img.blksize
    unfolding read_file write_file
    opened-Same fetch size offset cwd (none, v) img = (refl, refl, refl)
    opened-Same (store data') size offset cwd (none, v) img = (refl, refl, refl)
    opened-Same fetch size offset cwd (some file, v) img =
        elim (Bool-cases (is_ok (file_seek file (unsigned offset) v).0)) [
          | inl e ↦ rw (opened, read_opened, read_file, in_file, e) (leave-Same L D cwd _ refl)
          | inr e ↦ rw (opened, read_opened, read_file, in_file, e) (leave-Same L D cwd _ refl)
        ]
    opened-Same (store data') size offset cwd (some file, v) img =
        elim (Bool-cases (is_ok (file_seek file (unsigned offset) v).0)) [
          | inl e ↦ rw (opened, write_opened, write_file, in_file, e) (leave-Same L D cwd _ refl)
          | inr e ↦ rw (opened, write_opened, write_file, in_file, e) (leave-Same L D cwd _ refl)
        ]

    entered-Gives :
        (t : Transfer) (dirs : List Bytes) (name : Bytes) (size offset : ℕ) (img : Image Vol)
        → Gives L
            (entered t name size offset
              (some img.cwd)
              (enter_dirs L dirs (record (to_root L img) { cwd = root_path })))
            (transfer_at t img.vol dirs name size offset)
            img.blksize
    entered-Gives t dirs name size offset img =
        at_dir_lem L D (entered t name size offset (some img.cwd)) (λ v. ((neg enoent, []), v))
          (λ there. in_file t size offset (file_open there name (mode t)))
          (λ there.
            opened-Same t size offset (some img.cwd) (file_open there.vol name (mode t)) there)
          (λ there. (refl, refl, refl)) dirs root_path img

  module _ (C : Libc) where
    -- What the source runs.
    unfoldable pub transfer : Transfer → Bytes → ℕ → ℕ → Image Vol → (ℤ × Bytes) × Image Vol
    transfer fetch path size offset img = adfimage_read L C path size offset img
    transfer (store data') path size offset img =
        let (status, img') = adfimage_write L C path data' size offset img in ((status, []), img')

    transfer-entered :
        (P : IsSplit C) (t : Transfer) (dirs : List Bytes) (name : Bytes) (size offset : ℕ)
        (img : Image Vol)
        → Names dirs
        → IsName name
        → Created C (rooted_path dirs name)
        → transfer t (rooted_path dirs name) size offset img
          ≡ entered t name size offset
              (some img.cwd)
              (enter_dirs L dirs (record (to_root L img) { cwd = root_path }))
    unfolding transfer adfimage_read adfimage_write
    transfer-entered P fetch dirs name size offset img h k created =
        in_dirpath_named L C P (neg einval, [])
          (λ name (cwd, ok, there). entered fetch name size offset cwd (ok, there)) dirs name img h
          k created
    transfer-entered P (store data') dirs name size offset img h k created =
        let (ok, there) = enter_dirs L dirs (record (to_root L img) { cwd = root_path }) in
        ap no_bytes (
          in_dirpath_named L C P (neg einval)
            (λ name (cwd, ok, there).
              if ok
              then write_opened L data' size offset cwd (file_open there.vol name mode_write) there
              else (neg enoent, there))
            dirs name img h k created)
        ∙ apart ok
            (write_opened L data' size offset (some img.cwd) (file_open there.vol name mode_write)
              there)
            (neg enoent, there)

    -- What `transfer_refines` states, and that the block size stays.
    pub transfer-Gives :
        (D : IsDirectory L) (P : IsSplit C) (t : Transfer) (dirs : List Bytes) (name : Bytes)
        (path : PathT) (size offset : ℕ) (img : Image Vol)
        → Names dirs
        → IsName name
        → path_create C (rooted_path dirs name) ≡ some path
        → Gives L
            (transfer t (rooted_path dirs name) size offset img)
            (transfer_at t img.vol dirs name size offset)
            img.blksize
    transfer-Gives D P t dirs name path size offset img h k created =
        rw (transfer-entered P t dirs name size offset img h k (path, created))
          (entered-Gives D t dirs name size offset img)

    -- Reads and writes refine the view by names: for the path of an entry, from any image, the status
    -- and the bytes are those of ADFlib's open, seek, transfer and close in the directory that the
    -- names lead to from the root, with the casts of offset and size to 32 bits, and so is the volume
    -- seen from its root; it is -ENOENT with the disk unchanged if they lead nowhere. The allocations
    -- for the path succeed, ADFlib meets `IsDirectory`, and the C library `IsSplit`.
    pub transfer_refines :
        (D : IsDirectory L) (P : IsSplit C) (t : Transfer) (dirs : List Bytes) (name : Bytes)
        (path : PathT) (size offset : ℕ) (img : Image Vol)
        → Names dirs
        → IsName name
        → path_create C (rooted_path dirs name) ≡ some path
        → let (reply, img') = transfer t (rooted_path dirs name) size offset img in
          (reply, to_root_dir img'.vol) ≡ transfer_at t img.vol dirs name size offset
    transfer_refines D P t dirs name path size offset img h k created =
        let (reply, disk, _) = transfer-Gives D P t dirs name path size offset img h k created in
        (λ i. (reply i, disk i))
