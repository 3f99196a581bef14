-- ===== src/Image/Rename.antt =====
-- `adfimage_file_rename` of src/adfimage.c. The conversion of the directory paths takes fuel, and
-- the result is `none` where that runs out.
pub mod Returns
pub mod Sectors
use fuseadf.Prelude.{ℕ, ◌&&◌, Option, none, some, Bytes, ℤ, pos, neg, ltb_ℤ, if◌then◌else◌}
use fuseadf.Pathstr.{bind, buffer, c_str, pathstr_fuse2amigados}
use fuseadf.Libc.{Libc, enoent, einval}
use fuseadf.Adflib.{Adflib, is_ok}
use fuseadf.Path.{PathT, path_create, path_is_entryname_non_empty}
use fuseadf.Image.{Image}
use fuseadf.Image.Dentry.{Dentry, dentry_none, dentry_directory, dentry_linkdir, getdentry}

-- What the source checks of a parent's entry: an error, or the sector of the directory.
pub data Parent : Type 0 where
  failed : ℤ → Parent
  sector_of : ℤ → Parent

unfoldable pub check_parent : Dentry → Parent
check_parent dentry = elim (dentry.type) [
  | dentry_none ↦ failed (neg enoent)
  | dentry_directory ↦ sector_of dentry.adflib_entry.sector
  | dentry_linkdir ↦ sector_of dentry.adflib_entry.real
  | _ ↦ failed (neg einval)
]

unfoldable pub convert : ℕ → Bytes → Option Bytes
convert fuel dirpath =
    bind (pathstr_fuse2amigados fuel (buffer dirpath)) λ cells. some (c_str cells)

module _ (L : Adflib) (C : Libc) where
  open L use {Vol, rename_entry}

  -- The checks of the sectors, which are not in the boot block, and the call of ADFlib.
  unfoldable pub rename_sectors : PathT → PathT → ℤ → ℤ → Image Vol → ℤ × Image Vol
  rename_sectors src dst src_sector dst_sector img =
      if ltb_ℤ src_sector 2
      then (neg 1, img)
      else if ltb_ℤ dst_sector 2
      then (neg 1, img)
      else let (rc, v) = rename_entry img.vol src_sector src.entryname dst_sector dst.entryname in
        (if is_ok rc then pos 0 else neg 1, record img { vol = v })

  abbrev pub rename_checked : PathT → PathT → ℤ → Parent → Image Vol → ℤ × Image Vol
  rename_checked src dst src_sector (failed e) img = (e, img)
  rename_checked src dst src_sector (sector_of d) img = rename_sectors src dst src_sector d img

  -- The destination is looked up only if the source's parent passes; its sector is checked later.
  abbrev pub rename_from : PathT → PathT → Bytes → Parent → Image Vol → ℤ × Image Vol
  rename_from src dst dst_dir (failed e) img = (e, img)
  rename_from src dst dst_dir (sector_of src_sector) img =
      let (dst_entry, img') = getdentry L C dst_dir img in
      rename_checked src dst src_sector (check_parent dst_entry) img'

  -- With the converted directory paths.
  unfoldable pub rename_parents : PathT → PathT → Bytes → Bytes → Image Vol → ℤ × Image Vol
  rename_parents src dst src_dir dst_dir img =
      let (src_entry, img') = getdentry L C src_dir img in
      rename_from src dst dst_dir (check_parent src_entry) img'

  abbrev pub rename_dirs :
      PathT → PathT → Option Bytes → Option Bytes → Image Vol → Option (ℤ × Image Vol)
  rename_dirs src dst none dst_dir img = none
  rename_dirs src dst (some src_dir) none img = none
  rename_dirs src dst (some src_dir) (some dst_dir) img =
      some (rename_parents src dst src_dir dst_dir img)

  unfoldable pub rename_paths : ℕ → PathT → PathT → Image Vol → Option (ℤ × Image Vol)
  rename_paths fuel src dst img =
      if path_is_entryname_non_empty src && path_is_entryname_non_empty dst
      then rename_dirs src dst (convert fuel src.dirpath) (convert fuel dst.dirpath) img
      else some (neg einval, img)

  unfoldable pub adfimage_file_rename : ℕ → Bytes → Bytes → Image Vol → Option (ℤ × Image Vol)
  adfimage_file_rename fuel src_pathstr dst_pathstr img = elim (path_create C src_pathstr) [
    | none ↦ some (neg einval, img)
    | some src ↦ elim (path_create C dst_pathstr) [
      | none ↦ some (neg einval, img)
      | some dst ↦ rename_paths fuel src dst img
    ]
  ]
