-- ===== src/Workdir/Enter.antt =====
-- Entering a list of names: `adfimage_chdir` of src/adfimage.c on paths that join names.
use fuseadf.Prelude.{
  ℕ, ◌≡◌, ◌≢◌, refl, true, false, Bool-cases, inl, inr, none, some, List, [], ◌∷◌, arith, Bytes,
  codes, strcmp_eq, ◌==◌,
}
use fuseadf.Pathstr.{slash, pathstr_get_relative}
use fuseadf.Adflib.{Adflib, is_ok}
use fuseadf.Image.{Image, root_path, append_dir, enter_dirs, enter_path, to_root, chdir}
use fuseadf.Workdir.{render, Names, descend}
use fuseadf.Workdir.Paths.{join, components-join, relative_join, join_not_dot}

-- The directory part of a relative path of names.
abbrev pub relative_dir : List Bytes → Bytes
relative_dir [] = codes "."
relative_dir (d ∷ ds) = join (d ∷ ds)

not_slash : (c : ℕ) → c ≢ slash → (c == slash) ≡ false
not_slash c h = ground arith

module _ (L : Adflib) where
  open L use {Vol, to_root_dir, change_dir}

  -- All names of a list can be entered if the list leads somewhere.
  pub enter_dirs-descend :
      (dirs : List Bytes) (img : Image Vol) (v : Vol)
      → descend L img.vol dirs ≡ some v
      → enter_dirs L dirs img
        ≡ (true, record { vol = v; cwd = render img.cwd dirs; blksize = img.blksize })
  unfolding enter_dirs append_dir render descend
  enter_dirs-descend [] img v h = ground arith
  enter_dirs-descend (dir ∷ dirs) img v h = elim (Bool-cases (is_ok (change_dir img.vol dir).0)) [
    | inl e ↦
        rw (e, enter_dirs)
          (enter_dirs-descend dirs
            (append_dir L dir (record img { vol = (change_dir img.vol dir).1 })) v
            (rw (e, descend) at h))
    | inr e ↦ absurd (cc (rw (e, descend) at h))
  ]

  pub enter_path-Names :
      (d : Bytes) (ds : List Bytes) (img : Image Vol)
      → Names (d ∷ ds)
      → enter_path L (join (d ∷ ds)) img ≡ enter_dirs L (d ∷ ds) img
  unfolding join
  enter_path-Names [] ds img h = absurd (h.0.0 refl)
  enter_path-Names (c ∷ d) [] img h = rw (join_not_dot (c ∷ d) [] h, components-join (c ∷ d) [] h)
  enter_path-Names (c ∷ d) (e ∷ ds) img h =
      rw (join_not_dot (c ∷ d) (e ∷ ds) h, components-join (c ∷ d) (e ∷ ds) h)

  pub enter_dirs_fails :
      (dirs : List Bytes) (img : Image Vol)
      → descend L img.vol dirs ≡ none
      → (enter_dirs L dirs img).0 ≡ false
  unfolding enter_dirs append_dir descend
  enter_dirs_fails [] img h = absurd (cc h)
  enter_dirs_fails (dir ∷ dirs) img h = elim (Bool-cases (is_ok (change_dir img.vol dir).0)) [
    | inl e ↦
        rw (e, enter_dirs)
          (enter_dirs_fails dirs
            (append_dir L dir (record img { vol = (change_dir img.vol dir).1 }))
            (rw (e, descend) at h))
    | inr e ↦ rw (e, enter_dirs) refl
  ]

  chdir-join :
      (d : Bytes) (ds : List Bytes) (img : Image Vol)
      → Names (d ∷ ds)
      → chdir L (join (d ∷ ds)) img ≡ enter_dirs L (d ∷ ds) img
  unfolding chdir join
  chdir-join [] ds img h = absurd (h.0.0 refl)
  chdir-join (c ∷ d) [] img h = rw (not_slash c h.0.2.0) (enter_path-Names (c ∷ d) [] img h)
  chdir-join (c ∷ d) (e ∷ ds) img h =
      rw (not_slash c h.0.2.0) (enter_path-Names (c ∷ d) (e ∷ ds) img h)

  pub chdir_relative :
      (ds : List Bytes) (img : Image Vol)
      → Names ds
      → chdir L (relative_dir ds) img ≡ enter_dirs L ds img
  unfolding chdir enter_dirs strcmp_eq
  chdir_relative [] img h = refl
  chdir_relative (d ∷ ds) img h = chdir-join d ds img h

  pub chdir_rooted :
      (ds : List Bytes) (img : Image Vol)
      → Names ds
      → chdir L (slash ∷ join ds) img ≡ enter_dirs L ds (record (to_root L img) { cwd = root_path })
  unfolding chdir enter_dirs to_root pathstr_get_relative join
  chdir_rooted [] img h = refl
  chdir_rooted (d ∷ ds) img h =
      rw (relative_join d ds h)
        (enter_path-Names d ds (record (to_root L img) { cwd = root_path }) h)
