-- ===== src/History/Chdir.antt =====
-- Changing the directory, from two images with the same disk.
use fuseadf.Prelude.{
  ◌≡◌, refl, sym, ap, ◌∙◌, true, false, Bool, Bool-cases, inl, inr, Option, none, some, List, [],
  ◌∷◌, Bytes, strcmp_eq, ◌==◌, arith, if◌then◌else◌, ℕ, suc, length, Option-cases,
}
use fuseadf.Pathstr.{slash, dot, pathstr_get_relative}
use fuseadf.Libc.{Libc, IsPosix}
use fuseadf.Adflib.{Adflib, is_ok}
use fuseadf.Adflib.Laws.{IsDirectory}
use fuseadf.Path.{PathT, path_create}
use fuseadf.Image.{
  Image, root_path, components, append_dir, enter_dirs, enter_path, to_root, chdir, enter_dirpath,
  leave_dirpath,
}

pub suc_ne_zero : (n : ℕ) → (suc n == 0) ≡ false
suc_ne_zero n = ground arith

pub path_create_dirpath :
    (C : Libc) (p : Bytes) (path : PathT)
    → path_create C (slash ∷ p) ≡ some path
    → path.dirpath ≡ C.dirname (slash ∷ p)
unfolding path_create
path_create_dirpath C p path e = ground arith

-- A path that begins with a slash, and one that does if it is there.
abbrev pub Absolute : Bytes → Type 0
Absolute [] = ⊥
Absolute (c ∷ path) = c ≡ slash

abbrev pub Absolute? : Option Bytes → Type 0
Absolute? none = Unit
Absolute? (some path) = Absolute path

module _ (L : Adflib) where
  open L use {Vol, to_root_dir, change_dir}

  -- Two images that differ at most in where they stand.
  pub record SameDisk (img img' : Image Vol) : Type 0 where
    pub same_root : to_root_dir img.vol ≡ to_root_dir img'.vol
    pub same_blksize : img.blksize ≡ img'.blksize

  pub SameDisk-refl : (img : Image Vol) → SameDisk img img
  SameDisk-refl img = record { same_root = refl; same_blksize = refl }

  pub SameDisk-symm : {img img' : Image Vol} → SameDisk img img' → SameDisk img' img
  SameDisk-symm s = record { same_root = sym s.same_root; same_blksize = sym s.same_blksize }

  pub SameDisk-trans :
      {img img' img'' : Image Vol} → SameDisk img img' → SameDisk img' img'' → SameDisk img img''
  SameDisk-trans s t = record {
    same_root = s.same_root ∙ t.same_root;
    same_blksize = s.same_blksize ∙ t.same_blksize;
  }

  -- The same answer, on the same disk.
  abbrev pub Agree {ℓ} : {A : Type ℓ} → A × Image Vol → A × Image Vol → Type ℓ
  Agree r r' = (r.0 ≡ r'.0) × SameDisk r.1 r'.1

  -- Both calls return and agree, or neither returns.
  abbrev pub AgreeIf : {A : Type 0} → Option (A × Image Vol) → Option (A × Image Vol) → Type 0
  AgreeIf none none = Unit
  AgreeIf (some r) (some r') = Agree r r'
  AgreeIf none (some r') = ⊥
  AgreeIf (some r) none = ⊥

  pub if-Agree :
      {A : Type 0} (ok : Bool) (x x' y y' : A × Image Vol)
      → Agree x x'
      → Agree y y'
      → Agree (if ok then x else y) (if ok then x' else y')
  if-Agree true x x' y y' h k = h
  if-Agree false x x' y y' h k = k

  -- From two such images an absolute path leads to the same image, with the same result.
  pub chdir_absolute :
      (path : Bytes) (img img' : Image Vol)
      → SameDisk img img'
      → chdir L (slash ∷ path) img ≡ chdir L (slash ∷ path) img'
  unfolding chdir to_root
  chdir_absolute path img img' s =
      ap (enter_path L (pathstr_get_relative (slash ∷ path)))
        (λ i. record { vol = s.same_root i; cwd = root_path; blksize = s.same_blksize i })

  module _ (D : IsDirectory L) where
    pub enter_dirs-SameDisk :
        (dirs : List Bytes) (img : Image Vol) → SameDisk (enter_dirs L dirs img).1 img
    unfolding enter_dirs append_dir
    enter_dirs-SameDisk [] img = SameDisk-refl img
    enter_dirs-SameDisk (dir ∷ dirs) img = elim (Bool-cases (is_ok (change_dir img.vol dir).0)) [
      | inl e ↦
          rw (e, enter_dirs)
            (SameDisk-trans
              (enter_dirs-SameDisk dirs
                (append_dir L dir (record img { vol = (change_dir img.vol dir).1 })))
              (record { same_root = D.to_root-change_dir img.vol dir; same_blksize = refl }))
      | inr e ↦
          rw (e, enter_dirs)
            (record { same_root = D.to_root-change_dir img.vol dir; same_blksize = refl })
    ]

    enter_path-SameDisk : (path : Bytes) (img : Image Vol) → SameDisk (enter_path L path img).1 img
    enter_path-SameDisk [] img = SameDisk-refl img
    enter_path-SameDisk (c ∷ path) img = elim (Bool-cases (strcmp_eq (c ∷ path) (dot ∷ []))) [
      | inl e ↦ rw e (SameDisk-refl img)
      | inr e ↦ rw e (enter_dirs-SameDisk (components (c ∷ path)) img)
    ]

    -- A change of directory leaves the disk alone, whatever the path and the result.
    pub chdir-SameDisk : (path : Bytes) (img : Image Vol) → SameDisk (chdir L path img).1 img
    unfolding chdir to_root
    chdir-SameDisk [] img = SameDisk-refl img
    chdir-SameDisk (c ∷ path) img = elim (Bool-cases (c == slash)) [
      | inl e ↦ rw e (
          SameDisk-trans
            (enter_path-SameDisk (pathstr_get_relative (c ∷ path))
              (record (to_root L img) { cwd = root_path }))
            (record { same_root = D.to_root-to_root img.vol; same_blksize = refl }))
      | inr e ↦ rw e (enter_path-SameDisk (c ∷ path) img)
    ]

    pub leave_dirpath-SameDisk :
        (cwd : Option Bytes) (img : Image Vol) → SameDisk (leave_dirpath L cwd img) img
    unfolding leave_dirpath
    leave_dirpath-SameDisk none img = SameDisk-refl img
    leave_dirpath-SameDisk (some cwd) img = chdir-SameDisk cwd img

  module _ {A : Type 0} (C : Libc) (P : IsPosix C) where
    enter_dirpath_absolute :
        (dirpath t : Bytes)
        → dirpath ≡ slash ∷ t
        → (img img' : Image Vol) → SameDisk img img'
        → (k : Option Bytes × Bool × Image Vol → A × Image Vol)
        → ((cwd cwd' : Option Bytes) (ok : Bool) (there : Image Vol)
            → Agree (k (cwd, ok, there)) (k (cwd', ok, there)))
        → Agree (k (enter_dirpath L dirpath img)) (k (enter_dirpath L dirpath img'))
    unfolding enter_dirpath
    enter_dirpath_absolute dirpath t e img img' s k h =
        rw (e, suc_ne_zero (length t), chdir_absolute t img img' s)
          (h (some img.cwd) (some img'.cwd) _ _)

    -- The shape of the functions that work in the directory of a path.
    abbrev pub in_dirpath :
        Bytes
        → A
        → (PathT → Option Bytes × Bool × Image Vol → A × Image Vol)
        → Image Vol
        → A × Image Vol
    in_dirpath pathstr a k img = elim (path_create C pathstr) [
      | none ↦ (a, img)
      | some path ↦ k path (enter_dirpath L path.dirpath img)
    ]

    -- If what such a function does in the directory does not depend on where it goes back to, then
    -- neither does its answer for an absolute path.
    pub in_dirpath-Agree :
        (p : Bytes) (a : A) (k : PathT → Option Bytes × Bool × Image Vol → A × Image Vol)
        → ((path : PathT) (cwd cwd' : Option Bytes) (ok : Bool) (there : Image Vol)
            → Agree (k path (cwd, ok, there)) (k path (cwd', ok, there)))
        → (img img' : Image Vol) → SameDisk img img'
        → Agree (in_dirpath (slash ∷ p) a k img) (in_dirpath (slash ∷ p) a k img')
    in_dirpath-Agree p a k h img img' s = elim (Option-cases (path_create C (slash ∷ p))) [
      | inl e ↦ rw (e, in_dirpath) (refl, s)
      | inr (path, e) ↦
          let (t, abs) = P.dirname_absolute p in
          rw (e, in_dirpath)
            (enter_dirpath_absolute path.dirpath t (path_create_dirpath C p path e ∙ abs) img img' s
              (k path) (h path))
    ]
