-- ===== src/Cwd/Ceiling.antt =====
-- How long `cwd` gets in the course of moves, with the changes of directory of `adfimage_chdir`.
use fuseadf.Prelude.{
  ℕ, ◌+◌, ◌≤◌, refl, inl, inr, Bool, true, false, not, Bool-cases, List, [], ◌∷◌, ◌++◌, Bytes,
  length, arith, strcmp_eq, ◌==◌, ==_iff, if◌then◌else◌,
}
use fuseadf.Pathstr.{slash, dot, pathstr_get_relative}
use fuseadf.Adflib.{Adflib, is_ok}
use fuseadf.Image.{Image, root_path, components, append_dir, enter_dirs, enter_path, chdir}
use fuseadf.Workdir.Bounds.{weight-components, length-enter_dirs, length-chdir}
use fuseadf.History.Chdir.{Absolute}
use fuseadf.Cwd.{room, Enters, Fits, Moves, stay, call, enter, grow, back}

Absolute-append : (s t : Bytes) → Absolute s → Absolute (s ++ t)
Absolute-append [] t h = absurd h
Absolute-append (c ∷ s) t h = h

module _ (L : Adflib) where
  open L use {Vol, change_dir}

  -- Changes of directory.
  enter_dirs-Absolute :
      (dirs : List Bytes) (img : Image Vol)
      → Absolute img.cwd
      → Absolute (enter_dirs L dirs img).1.cwd
  unfolding enter_dirs append_dir
  enter_dirs-Absolute [] img h = h
  enter_dirs-Absolute (dir ∷ dirs) img h = elim (Bool-cases (is_ok (change_dir img.vol dir).0)) [
    | inl e ↦
        rw (e, enter_dirs, Absolute)
          (enter_dirs-Absolute dirs
            (append_dir L dir (record img { vol = (change_dir img.vol dir).1 }))
            (longer (strcmp_eq img.cwd root_path)))
    | inr e ↦ rw (e, enter_dirs, Absolute) h
  ]
    where
      longer : (b : Bool) → Absolute ((if not b then img.cwd ++ root_path else img.cwd) ++ dir)
      longer true = Absolute-append img.cwd dir h
      longer false =
          Absolute-append (img.cwd ++ root_path) dir (Absolute-append img.cwd root_path h)

  enter_path-Absolute :
      (path : Bytes) (img : Image Vol) → Absolute img.cwd → Absolute (enter_path L path img).1.cwd
  enter_path-Absolute [] img h = h
  enter_path-Absolute (c ∷ path) img h = elim (Bool-cases (strcmp_eq (c ∷ path) (dot ∷ []))) [
    | inl e ↦ rw e h
    | inr e ↦ rw e (enter_dirs-Absolute (components (c ∷ path)) img h)
  ]

  chdir-Absolute :
      (path : Bytes) (img : Image Vol) → Absolute img.cwd → Absolute (chdir L path img).1.cwd
  unfolding chdir
  chdir-Absolute [] img h = h
  chdir-Absolute (c ∷ path) img h = elim (Bool-cases (c == slash)) [
    | inl e ↦ rw e (enter_path-Absolute (pathstr_get_relative (c ∷ path)) _ refl)
    | inr e ↦ rw e (enter_path-Absolute (c ∷ path) img h)
  ]

  chdir-Absolute-slash :
      (path : Bytes) (img : Image Vol) → Absolute (chdir L (slash ∷ path) img).1.cwd
  unfolding chdir
  chdir-Absolute-slash path img = enter_path-Absolute (pathstr_get_relative (slash ∷ path)) _ refl

  length-enter_path :
      (path : Bytes) (img : Image Vol)
      → length (enter_path L path img).1.cwd ≤ length img.cwd + room path
  length-enter_path [] img = omega arith
  length-enter_path (c ∷ path) img = elim (Bool-cases (strcmp_eq (c ∷ path) (dot ∷ []))) [
    | inl e ↦ rw e (omega arith)
    | inr e ↦ rw e (
        omega
          (arith, length-enter_dirs L (components (c ∷ path)) img, weight-components (c ∷ path)))
  ]

  length-chdir-slash :
      (path : Bytes) (img : Image Vol)
      → length (chdir L (slash ∷ path) img).1.cwd ≤ length img.cwd + room (slash ∷ path)
  unfolding strcmp_eq
  length-chdir-slash path img = omega (arith, length-chdir L path img)

  length-chdir-room :
      (path : Bytes) (img : Image Vol)
      → Absolute img.cwd
      → length (chdir L path img).1.cwd ≤ length img.cwd + room path
  unfolding chdir
  length-chdir-room [] img h = omega arith
  length-chdir-room (c ∷ path) img h = elim (Bool-cases (c == slash)) [
    | inl e ↦ rw ((==_iff _ _).0 e) (length-chdir-slash path img)
    | inr e ↦ rw e (length-enter_path (c ∷ path) img)
  ]

  -- A saved directory, or one that is given by an absolute path, is not longer than that.
  pub chdir-Fits :
      (h : ℕ) (path : Bytes) (img : Image Vol)
      → Absolute path
      → length path ≤ h
      → Fits L h (chdir L path img).1
  chdir-Fits h [] img abs k = absurd abs
  chdir-Fits h (c ∷ path) img abs k =
      rw abs (chdir-Absolute-slash path img, omega (arith, length-chdir L path img))

  Enters-Fits :
      (h : ℕ) (path : Bytes) (img : Image Vol)
      → Enters h path
      → Fits L h img
      → Fits L h (chdir L path img).1
  unfolding chdir strcmp_eq
  Enters-Fits h path img (inl e) k = rw e k
  Enters-Fits h path img (inr (abs, e)) k = chdir-Fits h path img abs e

  -- The ceiling is kept.
  pub Moves-Fits :
      {h k : ℕ} {img img' : Image Vol}
      → Moves L h img k img'
      → Fits L h img
      → (h ≤ k) × Fits L k img'
  Moves-Fits (stay h img) f = (omega arith, f)
  Moves-Fits (call v m) f = Moves-Fits m f
  Moves-Fits (enter path e m) f =
      let (le, (abs, short)) = Moves-Fits m f in (le, Enters-Fits _ path _ e (abs, short))
  Moves-Fits (grow {img' = img'} path m) f =
      let (le, (abs, short)) = Moves-Fits m f in
      (omega arith, (chdir-Absolute path img' abs, omega (arith, length-chdir-room path img' abs)))
  Moves-Fits (back {l = l} {img' = img'} {img'' = img''} m n) f =
      let (le, (abs, short)) = Moves-Fits m f in
      let (le', _) = Moves-Fits n (abs, short) in
      (omega arith, chdir-Fits l img'.cwd img'' abs (omega arith))
