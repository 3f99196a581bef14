-- ===== src/Named/Opened.antt =====
-- `adffs_open`, `adffs_truncate` and `adffs_readlink` of src/adffs.c in the view by names.
use fuseadf.Prelude.{
  ℕ, ◌≡◌, refl, ap, ◌∙◌, Bool, true, false, Option, none, some, List, Bytes, ℤ, pos, neg, eqb_ℤ,
  if◌then◌else◌,
}
use fuseadf.Libc.{Libc, einval}
use fuseadf.Adflib.{Adflib, FileMode, mode_read, mode_write, is_ok}
use fuseadf.Adflib.Laws.{IsDirectory, IsPositionFree}
use fuseadf.Image.{Image, root_path, to_root, enter_dirs, leave_dirpath}
use fuseadf.Image.Files.{
  unsigned, opened, truncate_opened, find_link, adfimage_file_open, adfimage_readlink,
  adfimage_file_truncate,
}
use fuseadf.Fs.{close_opened, adffs_open, adffs_truncate}
use fuseadf.Fs.Forward.{adffs_readlink}
use fuseadf.History.Chdir.{SameDisk-refl, Agree, leave_dirpath-SameDisk}
use fuseadf.History.Closing.{truncate_opened-Agree, close_opened-Agree}
use fuseadf.Workdir.{IsName, Names}
use fuseadf.Named.{rooted_path, IsSplit}
use fuseadf.Named.Directory.{at_dir, Same, Gives, leave-Same, at_dir_lem}
use fuseadf.Named.Entered.{Created, in_dirpath_named}

module _ (L : Adflib) where
  open L use {Vol, File, to_root_dir, file_open, file_truncate, file_close}

  -- Open for reading, and close.
  abbrev pub probe : Option File × Vol → ℤ × Vol
  probe (none, v) = (neg 1, file_close none v)
  probe (some file, v) = (pos 0, file_close (some file) v)

  abbrev pub open_at : Vol → List Bytes → Bytes → ℤ × Vol
  open_at v dirs name =
      at_dir L (λ v. (neg 1, to_root_dir (file_close none v)))
        (λ there. probe (file_open there name mode_read)) v dirs

  -- Cut or lengthen the file that is open for writing, and close it.
  abbrev pub resize : ℕ → Option File × Vol → ℤ × Vol
  resize new_size (none, v) = (neg 1, v)
  resize new_size (some file, v) =
      let (rc, file', v') = file_truncate file (unsigned new_size) v in
      (if is_ok rc then pos 0 else neg 1, file_close (some file') v')

  abbrev pub truncate_at : Vol → List Bytes → Bytes → ℕ → ℤ × Vol
  truncate_at v dirs name new_size =
      at_dir L (λ v. (neg 1, v)) (λ there. resize new_size (file_open there name mode_write)) v dirs

  -- The buffer as it was if there is no such directory.
  abbrev pub readlink_at : Vol → List Bytes → Bytes → List ℕ → ℕ → (ℤ × List ℕ) × Vol
  readlink_at v dirs name buf len_max =
      at_dir L (λ v. ((neg 1, buf), v)) (λ there. (find_link L there name buf len_max, there)) v
        dirs

  -- The status of `adffs_truncate`.
  abbrev checked : ℤ × Image Vol → ℤ × Image Vol
  checked (status, img) = (if eqb_ℤ status (pos 0) then pos 0 else neg 1, img)

  abbrev open_in : FileMode → Bytes → Option Bytes × Bool × Image Vol → Option File × Image Vol
  open_in mode name (cwd, ok, there) =
      let (file, v) = file_open there.vol name mode in
      if ok then opened L cwd (record there { vol = v }) file else (none, there)

  module _ (D : IsDirectory L) (F : IsPositionFree L) where
    opened-Agree :
        (cwd : Option Bytes) (img : Image Vol) (file : Option File)
        → Agree L (opened L cwd img file) (file, img)
    opened-Agree cwd img none = (refl, SameDisk-refl L img)
    opened-Agree cwd img (some file) = (refl, leave_dirpath-SameDisk L D cwd img)

    agreed :
        {A : Type 0} (r : A × Image Vol) (a : A) (img : Image Vol)
        → Agree L r (a, img)
        → Same L r (a, img.vol) img.blksize
    agreed r a img (e, s) = (e, s.same_root, s.same_blksize)

    closed_probe :
        (cwd : Option Bytes) (img : Image Vol) (file : Option File)
        → Same L (close_opened L (opened L cwd img file)) (probe (file, img.vol)) img.blksize
    closed_probe cwd img none = (refl, refl, refl)
    closed_probe cwd img (some file) =
        agreed _ (pos 0) (record img { vol = file_close (some file) img.vol })
          (close_opened-Agree L D F _ (some file, img) (opened-Agree cwd img (some file)))

    checked-resize :
        (cwd : Option Bytes) (new_size : ℕ) (img : Image Vol) (file : Option File)
        → Same L
            (checked (truncate_opened L new_size (opened L cwd img file)))
            (resize new_size (file, img.vol))
            img.blksize
    checked-resize cwd new_size img none = (refl, refl, refl)
    checked-resize cwd new_size img (some file) =
        let (rc, file', v') = file_truncate file (unsigned new_size) img.vol in
        let (e, s) =
          truncate_opened-Agree L D F new_size _ (some file, img)
            (opened-Agree cwd img (some file)) in
        agreed _ (if is_ok rc then pos 0 else neg 1)
          (record img { vol = file_close (some file') v' })
          (
            ap (λ (status : ℤ). if eqb_ℤ status (pos 0) then pos 0 else neg 1) e ∙ twice (is_ok rc),
            s,
          )
      where
        twice :
            (ok : Bool)
            → (if eqb_ℤ (if ok then pos 0 else neg 1) (pos 0) then pos 0 else neg 1)
              ≡ (if ok then pos 0 else neg 1)
        twice true = refl
        twice false = refl

  module _ (C : Libc) (P : IsSplit C) (D : IsDirectory L) (dirs : List Bytes) (name : Bytes)
      (img : Image Vol) (h : Names dirs) (k : IsName name)
      (created : Created C (rooted_path dirs name)) where
    file_open-named :
        (mode : FileMode)
        → let (ok, there) = enter_dirs L dirs (record (to_root L img) { cwd = root_path }) in
          adfimage_file_open L C (rooted_path dirs name) mode img
          ≡ open_in mode name (some img.cwd, ok, there)
    unfolding adfimage_file_open
    file_open-named mode = in_dirpath_named L C P none (open_in mode) dirs name img h k created

    pub open-Gives :
        (F : IsPositionFree L)
        → Gives L
            (adffs_open L C (rooted_path dirs name) img)
            (open_at img.vol dirs name)
            img.blksize
    unfolding adffs_open
    open-Gives F = rw (file_open-named mode_read) (
        at_dir_lem L D
          (λ (ok, there). close_opened L (open_in mode_read name (some img.cwd, ok, there)))
          (λ v. (neg 1, to_root_dir (file_close none v)))
          (λ there. probe (file_open there name mode_read))
          (λ there.
            let (file, v) = file_open there.vol name mode_read in
            closed_probe D F (some img.cwd) (record there { vol = v }) file)
          (λ there. (refl, F.to_root-file_close none there.vol, refl)) dirs root_path img)

    pub truncate-Gives :
        (F : IsPositionFree L) (new_size : ℕ)
        → Gives L
            (adffs_truncate L C (rooted_path dirs name) new_size img)
            (truncate_at img.vol dirs name new_size)
            img.blksize
    unfolding adffs_truncate adfimage_file_truncate
    truncate-Gives F new_size = rw (file_open-named mode_write) (
        at_dir_lem L D
          (λ (ok, there).
            checked
              (truncate_opened L new_size (open_in mode_write name (some img.cwd, ok, there))))
          (λ v. (neg 1, v)) (λ there. resize new_size (file_open there name mode_write))
          (λ there.
            let (file, v) = file_open there.vol name mode_write in
            checked-resize D F (some img.cwd) new_size (record there { vol = v }) file)
          (λ there. (refl, refl, refl)) dirs root_path img)

    pub readlink-Gives :
        (buf : List ℕ) (len_max : ℕ)
        → Gives L
            (adffs_readlink L C (rooted_path dirs name) buf len_max img)
            (readlink_at img.vol dirs name buf len_max)
            img.blksize
    unfolding adfimage_readlink
    readlink-Gives buf len_max =
        rw
          (in_dirpath_named L C P (neg einval, buf)
            (λ name (cwd, ok, there).
              if ok
              then (find_link L there.vol name buf len_max, leave_dirpath L cwd there)
              else ((neg 1, buf), there))
            dirs name img h k created)
          (at_dir_lem L D
            (λ (ok, there).
              if ok
              then (find_link L there.vol name buf len_max, leave_dirpath L (some img.cwd) there)
              else ((neg 1, buf), there))
            (λ v. ((neg 1, buf), v)) (λ there. (find_link L there name buf len_max, there))
            (λ there. leave-Same L D (some img.cwd) there refl) (λ there. (refl, refl, refl)) dirs
            root_path img)
