-- ===== src/Workdir/Bounds.antt =====
-- How long `cwd` gets: the buffer in `adfimage_t` has ADFIMAGE_MAX_PATH bytes, and neither `strcpy`
-- nor `strcat` checks them.
use fuseadf.Prelude.{
  ℕ, suc, ◌+◌, ◌≤◌, ◌≡◌, refl, ap, Bool, true, false, not, Bool-cases, inl, inr, List, [], ◌∷◌,
  ◌++◌, arith, Bytes, length, length-append, strcmp_eq, ◌==◌, if◌then◌else◌,
}
use fuseadf.Pathstr.{slash, dot, pathstr_get_relative}
use fuseadf.Adflib.{Adflib, is_ok}
use fuseadf.Image.{
  Image, root_path, with_head, components, append_dir, enter_dirs, enter_path, to_root, chdir,
}

-- The bytes of a path: those of its components, and a slash between two.
pub weight : List Bytes → ℕ
weight [] = 0
weight (d ∷ ds) = suc (length d) + weight ds

weight-nil : weight [] ≡ 0
unfolding weight
weight-nil = refl

pub weight-components : (s : Bytes) → weight (components s) ≡ suc (length s)
unfolding weight components
weight-components [] = omega arith
weight-components (c ∷ s) = elim (Bool-cases (c == slash)) [
  | inl e ↦ rw e (omega (arith, weight-components s))
  | inr e ↦ rw e (go (components s) (weight-components s))
]
  where
    go :
        (ds : List Bytes)
        → weight ds ≡ suc (length s)
        → weight (with_head c ds) ≡ suc (suc (length s))
    go [] h = absurd (omega arith)
    go (d ∷ ds) h = omega arith

pub length-get_relative : (path : Bytes) → length (pathstr_get_relative path) ≤ length path
unfolding pathstr_get_relative
length-get_relative [] = omega arith
length-get_relative (c ∷ path) = ground (arith, length-get_relative path)

module _ (L : Adflib) where
  open L use {Vol, to_root_dir, change_dir}

  pub length-enter_dirs :
      (dirs : List Bytes) (img : Image Vol)
      → length (enter_dirs L dirs img).1.cwd ≤ length img.cwd + weight dirs
  unfolding enter_dirs append_dir weight
  length-enter_dirs [] img = omega arith
  length-enter_dirs (dir ∷ dirs) img =
      let next = append_dir L dir (record img { vol = (change_dir img.vol dir).1 }) in
      let grown : length next.cwd ≤ length img.cwd + suc (length dir) =
        step (strcmp_eq img.cwd root_path) in
      elim (Bool-cases (is_ok (change_dir img.vol dir).0)) [
        | inl e ↦ rw (e, enter_dirs) (omega (arith, length-enter_dirs dirs next, grown))
        | inr e ↦ rw (e, enter_dirs) (omega arith)
      ]
    where
      step :
          (b : Bool)
          → length ((if not b then img.cwd ++ root_path else img.cwd) ++ dir)
            ≤ length img.cwd + suc (length dir)
      step true = omega (arith, length-append {0} img.cwd dir)
      step false =
          omega (
            arith,
            length-append {0} (img.cwd ++ root_path) dir,
            length-append {0} img.cwd root_path,
          )

  -- From the root the first name takes no slash of its own.
  length-enter_dirs_root :
      (dir : Bytes) (dirs : List Bytes) (img : Image Vol)
      → img.cwd ≡ root_path
      → length (enter_dirs L (dir ∷ dirs) img).1.cwd ≤ weight (dir ∷ dirs)
  unfolding enter_dirs append_dir weight strcmp_eq
  length-enter_dirs_root dir dirs img at_root =
      let next = append_dir L dir (record img { vol = (change_dir img.vol dir).1 }) in
      let grown : length next.cwd ≤ suc (length dir) = rw at_root (omega arith) in
      elim (Bool-cases (is_ok (change_dir img.vol dir).0)) [
        | inl e ↦ rw (e, enter_dirs) (omega (arith, length-enter_dirs dirs next, grown))
        | inr e ↦ rw (e, enter_dirs) (omega (arith, ap length at_root))
      ]

  length-enter_path :
      (path : Bytes) (img : Image Vol)
      → img.cwd ≡ root_path
      → length (enter_path L path img).1.cwd ≤ suc (length path)
  length-enter_path [] img at_root = omega (arith, ap length at_root)
  length-enter_path (c ∷ path) img at_root = go (strcmp_eq (c ∷ path) (dot ∷ []))
    where
      entered :
          (ds : List Bytes)
          → weight ds ≡ suc (suc (length path))
          → length (enter_dirs L ds img).1.cwd ≤ suc (suc (length path))
      entered [] h = absurd (omega (arith, weight-nil, h))
      entered (d ∷ ds) h = omega (arith, length-enter_dirs_root d ds img at_root, h)

      go :
          (b : Bool)
          → length (if b then (true, img) else enter_dirs L (components (c ∷ path)) img).1.cwd
            ≤ suc (suc (length path))
      go true = omega (arith, ap length at_root)
      go false = entered (components (c ∷ path)) (weight-components (c ∷ path))

  -- After a change to an absolute path `cwd` is no longer than that path, whether the change
  -- succeeded or not and however long `cwd` was before.
  pub length-chdir :
      (path : Bytes) (img : Image Vol)
      → length (chdir L (slash ∷ path) img).1.cwd ≤ length (slash ∷ path)
  unfolding chdir to_root pathstr_get_relative
  length-chdir path img =
      let start : Image Vol = record (to_root L img) { cwd = root_path } in
      omega
        (arith, length-enter_path (pathstr_get_relative path) start refl, length-get_relative path)
