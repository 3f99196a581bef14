-- ===== src/Image/Entries.antt =====
-- Entries in src/adfimage.c: mkdir, rmdir, unlink and create. They go to the root first and change
-- to the directory of the path without its leading slashes.
use fuseadf.Prelude.{Bool, true, false, [], ◌∷◌, Bytes, ℤ, pos, neg, if◌then◌else◌}
use fuseadf.Pathstr.{pathstr_get_relative}
use fuseadf.Libc.{Libc, eperm, enoent, eexist, einval}
use fuseadf.Adflib.{Adflib, is_ok}
use fuseadf.Image.{Image, chdir, to_root}

module _ (L : Adflib) (C : Libc) where
  open L use {Vol, cur_dir_ptr, create_dir, create_file, remove_entry}

  -- Behind the change of directory.
  abbrev pub call_there : (Vol → ℤ → Bytes → ℤ × Vol) → Bytes → Bool × Image Vol → ℤ × Image Vol
  call_there call name (true, there) =
      let (rc, v) = call there.vol (cur_dir_ptr there.vol) name in
      (rc, to_root L (record there { vol = v }))
  call_there call name (false, there) = (neg enoent, there)

  -- What the three functions share: an error for the root directory, the change to the directory,
  -- the call on the entry's name there, and the way back to the root. After a failed change of
  -- directory the volume stays where it got to.
  abbrev pub in_parent : ℤ → (Vol → ℤ → Bytes → ℤ × Vol) → Bytes → Image Vol → ℤ × Image Vol
  in_parent at_root call [] img = (at_root, img)
  in_parent at_root call (c ∷ rel) img =
      call_there call (C.basename (c ∷ rel)) (chdir L (C.dirname (c ∷ rel)) (to_root L img))

  -- The source returns the return code of `adfCreateDir`.
  unfoldable pub adfimage_mkdir : Bytes → Image Vol → ℤ × Image Vol
  adfimage_mkdir newdirpath img =
      in_parent (neg eexist) create_dir (pathstr_get_relative newdirpath) img

  unfoldable pub adfimage_remove_entry : Bytes → Image Vol → ℤ × Image Vol
  adfimage_remove_entry rmpath img =
      in_parent (neg eperm) remove_entry (pathstr_get_relative rmpath) img

  unfoldable pub adfimage_rmdir : Bytes → Image Vol → ℤ × Image Vol
  unfolding adfimage_remove_entry
  adfimage_rmdir rmdirpath img = adfimage_remove_entry rmdirpath img

  unfoldable pub adfimage_unlink : Bytes → Image Vol → ℤ × Image Vol
  unfolding adfimage_remove_entry
  adfimage_unlink unlinkpath img = adfimage_remove_entry unlinkpath img

  -- `( adfCreateFile ( ... ) == ADF_RC_OK ) ? 0 : -1`
  abbrev pub create_file_status : Vol → ℤ → Bytes → ℤ × Vol
  create_file_status v sector name =
      let (rc, v') = create_file v sector name in (if is_ok rc then pos 0 else neg 1, v')

  unfoldable pub adfimage_create : Bytes → Image Vol → ℤ × Image Vol
  adfimage_create newfilepath img =
      in_parent (neg einval) create_file_status (pathstr_get_relative newfilepath) img
