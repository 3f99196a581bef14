-- ===== src/History/Entries.antt =====
-- Making and removing entries, from two images with the same disk.
use fuseadf.Prelude.{
  ◌≡◌, refl, ap, ◌∙◌, Bool, true, false, Bool-cases, inl, inr, List, ◌∷◌, [], Bytes, ℤ, strcmp_eq,
  ◌==◌, if◌then◌else◌,
}
use fuseadf.Pathstr.{slash, dot, pathstr_get_relative}
use fuseadf.Libc.{Libc}
use fuseadf.Adflib.{Adflib, is_ok}
use fuseadf.Image.{Image, components, append_dir, enter_dirs, enter_path, to_root, chdir}
use fuseadf.Image.Entries.{call_there, in_parent}
use fuseadf.History.Chdir.{SameDisk, Agree}

module _ (L : Adflib) where
  open L use {Vol, to_root_dir, change_dir, cur_dir_ptr}

  -- Two images that stand in the same directory of the same disk; `cwd` may differ.
  pub record SameVol (img img' : Image Vol) : Type 0 where
    pub same_vol : img.vol ≡ img'.vol
    pub same_size : img.blksize ≡ img'.blksize

  -- The same result, in the same directory.
  abbrev pub Follows : Bool × Image Vol → Bool × Image Vol → Type 0
  Follows r r' = (r.0 ≡ r'.0) × SameVol r.1 r'.1

  if-Follows :
      (t : Bool) (x x' y y' : Bool × Image Vol)
      → Follows x x'
      → Follows y y'
      → Follows (if t then x else y) (if t then x' else y')
  if-Follows true x x' y y' h k = h
  if-Follows false x x' y y' h k = k

  enter_dirs-Follows :
      (dirs : List Bytes) (img img' : Image Vol)
      → SameVol img img'
      → Follows (enter_dirs L dirs img) (enter_dirs L dirs img')
  unfolding enter_dirs append_dir
  enter_dirs-Follows [] img img' s = (refl, s)
  enter_dirs-Follows (dir ∷ dirs) img img' s =
      let next = append_dir L dir (record img { vol = (change_dir img.vol dir).1 }) in
      let next' = append_dir L dir (record img' { vol = (change_dir img'.vol dir).1 }) in
      let same : SameVol next next' = record {
        same_vol = ap (λ v. (change_dir v dir).1) s.same_vol;
        same_size = s.same_size;
      } in
      let test : is_ok (change_dir img.vol dir).0 ≡ is_ok (change_dir img'.vol dir).0 =
        ap (λ v. is_ok (change_dir v dir).0) s.same_vol in
      elim (Bool-cases (is_ok (change_dir img'.vol dir).0)) [
        | inl e ↦ rw (test ∙ e, e, enter_dirs) (enter_dirs-Follows dirs next next' same)
        | inr e ↦
            rw (test ∙ e, e, enter_dirs)
              (refl, record { same_vol = same.same_vol; same_size = s.same_size })
      ]

  pub enter_path-Follows :
      (path : Bytes) (img img' : Image Vol)
      → SameVol img img'
      → Follows (enter_path L path img) (enter_path L path img')
  enter_path-Follows [] img img' s = (refl, s)
  enter_path-Follows (c ∷ path) img img' s =
      if-Follows (strcmp_eq (c ∷ path) (dot ∷ [])) _ _ _ _ (refl, s)
        (enter_dirs-Follows (components (c ∷ path)) img img' s)

  -- The string `cwd` has no influence on where a change of directory leads.
  pub chdir-Follows :
      (path : Bytes) (img img' : Image Vol)
      → SameVol img img'
      → Follows (chdir L path img) (chdir L path img')
  unfolding chdir to_root
  chdir-Follows [] img img' s = (refl, s)
  chdir-Follows (c ∷ path) img img' s =
      if-Follows (c == slash) _ _ _ _
        (enter_path-Follows (pathstr_get_relative (c ∷ path)) _ _
          (record { same_vol = ap to_root_dir s.same_vol; same_size = s.same_size }))
        (enter_path-Follows (c ∷ path) img img' s)

  call_there-Agree :
      (C : Libc) (call : Vol → ℤ → Bytes → ℤ × Vol) (name : Bytes) (r r' : Bool × Image Vol)
      → Follows r r'
      → Agree L (call_there L C call name r) (call_there L C call name r')
  unfolding to_root
  call_there-Agree C call name (true, there) (ok', there') f =
      rw (← f.0, f.1.same_vol) (refl, record { same_root = refl; same_blksize = f.1.same_size })
  call_there-Agree C call name (false, there) (ok', there') f =
      rw (← f.0)
        (refl, record { same_root = ap to_root_dir f.1.same_vol; same_blksize = f.1.same_size })

  -- Each operation gives the same answer on the same disk, for any path.
  pub in_parent-Agree :
      (C : Libc) (e : ℤ) (call : Vol → ℤ → Bytes → ℤ × Vol) (rel : Bytes) (img img' : Image Vol)
      → SameDisk L img img'
      → Agree L (in_parent L C e call rel img) (in_parent L C e call rel img')
  unfolding to_root
  in_parent-Agree C e call [] img img' s = (refl, s)
  in_parent-Agree C e call (c ∷ rel) img img' s =
      call_there-Agree C call (C.basename (c ∷ rel)) _ _ (
        chdir-Follows (C.dirname (c ∷ rel)) _ _
          (record { same_vol = s.same_root; same_size = s.same_blksize }))
