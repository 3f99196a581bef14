-- ===== src/Named/Rename/Later.antt =====
-- What src/adffs.c finds of a file after it has been renamed.
use fuseadf.Prelude.{
  ℕ, suc, ◌≤◌, ◌≡◌, ◌≢◌, ◌⊎◌, refl, sym, ap, ◌∙◌, true, false, Bool, Bool-cases, inl, inr, some,
  List, Bytes, ℤ, pos, neg, length, ltb_ℤ,
}
use mathlib.Core.Option.{some-injective}
use fuseadf.Pathstr.{bind}
use fuseadf.Libc.{Libc, enoent}
use fuseadf.Adflib.{Adflib, AdfEntry, st_file, is_ok}
use fuseadf.Adflib.Laws.{IsDirectory, IsPositionFree}
use fuseadf.Path.{PathT, path_create}
use fuseadf.Image.{Image}
use fuseadf.Image.Rename.{adfimage_file_rename}
use fuseadf.Fs.Attr.{adffs_getattr}
use fuseadf.Workdir.{IsName, Names, descend}
use fuseadf.Named.{rooted_path, IsSplit, locate, entry_here}
use fuseadf.Named.Attr.{presence, getattr_presence}
use fuseadf.Named.Later.{max_name, Lists, Lacks, Left, outcome, Left-presence}
use fuseadf.Named.Rename.{RenameAllowed, rename_between}
use fuseadf.Named.Rename.Located.{KeepsSector, DirListed, rename_refines}

module _ (L : Adflib) where
  open L use {Vol, to_root_dir, cur_dir_ptr, rename_entry}

  -- ADFlib's rename between the directories where two volumes stand, in the volume at its root.
  abbrev pub moved : Vol → Vol → Bytes → Vol → Bytes → ℤ × Vol
  moved v from src to dst = rename_entry (to_root_dir v) (cur_dir_ptr from) src (cur_dir_ptr to) dst

  -- A file of a directory, and another directory that names lead to.
  pub record Move (v : Vol) (src_dirs : List Bytes) (src : Bytes) (dst_dirs : List Bytes)
      (from to : Vol) : Type 0 where
    pub from_found : locate L v src_dirs ≡ some from
    pub to_found : locate L v dst_dirs ≡ some to
    pub entry : AdfEntry
    pub listed : entry_here L from src ≡ some entry
    pub is_file : entry.sec_type ≡ st_file

  -- What ADFlib documents: a file that was renamed with success is in the directory that it was moved
  -- to, by its name if that is not cut off, and no longer where it was.
  pub record IsMover : Type 0 where
    pub moved-Lists :
        (v : Vol) (src_dirs : List Bytes) (src : Bytes) (dst_dirs : List Bytes) (dst : Bytes)
        (from to : Vol)
        → Move v src_dirs src dst_dirs from to
        → IsName dst
        → length dst ≤ max_name
        → is_ok (moved v from src to dst).0 ≡ true
        → Lists L (moved v from src to dst).1 dst_dirs dst
    pub moved-Lacks :
        (v : Vol) (src_dirs : List Bytes) (src : Bytes) (dst_dirs : List Bytes) (dst : Bytes)
        (from to : Vol)
        → Move v src_dirs src dst_dirs from to
        → (cur_dir_ptr from ≢ cur_dir_ptr to) ⊎ (src ≢ dst)
        → is_ok (moved v from src to dst).0 ≡ true
        → Lacks L (moved v from src to dst).1 src_dirs src

  -- A rename that answers 0 has asked ADFlib, with success.
  between_zero :
      (a : ℤ) (src : Bytes) (b : ℤ) (dst : Bytes) (v : Vol)
      → (rename_between L a src b dst v).0 ≡ pos 0
      → (is_ok (rename_entry v a src b dst).0 ≡ true)
        × ((rename_between L a src b dst v).1 ≡ to_root_dir (rename_entry v a src b dst).1)
  between_zero a src b dst v zero' = elim (Bool-cases (ltb_ℤ a 2)) [
    | inl e ↦ absurd (cc (rw (e, rename_between) at zero'))
    | inr e ↦ elim (Bool-cases (ltb_ℤ b 2)) [
      | inl e' ↦ absurd (cc (rw (e, e', rename_between) at zero'))
      | inr e' ↦ elim (Bool-cases (is_ok (rename_entry v a src b dst).0)) [
        | inl ok ↦ (ok, rw (e, e', rename_between) refl)
        | inr bad ↦ absurd (cc (rw (e, e', bad, rename_between) at zero'))
      ]
    ]
  ]

  module _ (C : Libc) (P : IsSplit C) where
    -- `adffs_getattr` in an image of the disk where an entry is, or is not.
    getattr-Left :
        (made : Bool) (w : Vol) (dirs : List Bytes) (name : Bytes) (path : PathT) (img : Image Vol)
        → Names dirs
        → IsName name
        → path_create C name ≡ some path
        → to_root_dir img.vol ≡ to_root_dir w
        → Left L made w dirs name
        → (adffs_getattr L C (rooted_path dirs name) img).0.0 ≡ outcome L made
    getattr-Left made w dirs name path img h k created same left =
        getattr_presence L C P dirs name path img h k created
        ∙ (ap (λ v. presence (bind (descend L v dirs) λ there. entry_here L there name)) same
            ∙ Left-presence L made w dirs name left)

    module _ (S : KeepsSector L) (M : IsMover) (D : IsDirectory L) (F : IsPositionFree L) where
      -- A file that is renamed is found by its new name and no longer by the old: if the rename of a
      -- file answers 0, then in the image that it leaves `adffs_getattr` answers 0 for the new path
      -- and -ENOENT for the old one. The directories are two different ones, or the names are; the
      -- new name is not longer than ADFlib stores. Each directory is found and is the root, whose
      -- block can be read, or listed by exactly its name in the one above, as a directory or a hard
      -- link to one; the directories hold none of `//`, `../`, `/..` and NUL, the allocations for the
      -- paths and names succeed, ADFlib meets `IsDirectory`, `IsPositionFree`, `KeepsSector` and
      -- `IsMover`, and the C library `IsSplit`.
      pub getattr-rename :
          (fuel : ℕ) (src_dirs : List Bytes) (src : Bytes) (dst_dirs : List Bytes) (dst : Bytes)
          (src_path dst_path : PathT) (img after : Image Vol) (from to : Vol)
          → Names src_dirs × IsName src × Names dst_dirs × IsName dst
          → RenameAllowed C src_dirs src dst_dirs dst
          → path_create C src ≡ some src_path
          → path_create C dst ≡ some dst_path
          → Move img.vol src_dirs src dst_dirs from to
          → DirListed L img.vol src_dirs
          → DirListed L img.vol dst_dirs
          → length dst ≤ max_name
          → (cur_dir_ptr from ≢ cur_dir_ptr to) ⊎ (src ≢ dst)
          → adfimage_file_rename L C
              (suc fuel)
              (rooted_path src_dirs src)
              (rooted_path dst_dirs dst)
              img
            ≡ some (pos 0, after)
          → ((adffs_getattr L C (rooted_path dst_dirs dst) after).0.0 ≡ pos 0)
            × ((adffs_getattr L C (rooted_path src_dirs src) after).0.0 ≡ neg enoent)
      getattr-rename fuel src_dirs src dst_dirs dst src_path dst_path img after from to
            (h, k, h', k') allowed created created' move listed listed' short differ answered =
          let (r, e, between) =
            rename_refines L S C P D F fuel src_dirs src dst_dirs dst img from to (h, k, h', k')
              allowed move.from_found move.to_found listed listed' in
          let r_is : r ≡ (pos 0, after) = some-injective _ _ (sym e ∙ answered) in
          let (ok, disk) =
            between_zero (cur_dir_ptr from) src (cur_dir_ptr to) dst (to_root_dir img.vol)
              (sym (ap (λ (x : ℤ × Vol). x.0) between) ∙ ap (λ (x : ℤ × Image Vol). x.0) r_is) in
          let same =
            sym (ap (λ (x : ℤ × Image Vol). to_root_dir x.1.vol) r_is)
            ∙ (ap (λ (x : ℤ × Vol). x.1) between ∙ disk) in
          let w = (moved img.vol from src to dst).1 in
          (
            getattr-Left true w dst_dirs dst dst_path after h' k' created' same
                (M.moved-Lists img.vol src_dirs src dst_dirs dst from to move k' short ok),
            getattr-Left false w src_dirs src src_path after h k created same
                (M.moved-Lacks img.vol src_dirs src dst_dirs dst from to move differ ok),
          )
