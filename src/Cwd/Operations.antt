-- ===== src/Cwd/Operations.antt =====
-- Looking up entries and working in the directory of a path, in src/adfimage.c, as moves.
use fuseadf.Prelude.{
  ℕ, inl, inr, Bool, Bool-cases, Option, none, some, List, [], ◌∷◌, Bytes, length, strcmp_eq, ◌==◌,
}
use fuseadf.Libc.{Libc}
use fuseadf.Adflib.{Adflib, AdfEntry, is_ok}
use fuseadf.Path.{PathT, path_create}
use fuseadf.Image.{Image, root_path, enter_dirpath, leave_dirpath, count_dir_entries}
use fuseadf.Image.Dentry.{
  Dentry, no_dentry, found_dentry, adflib_list_find, adfimage_dentry_valid, lookup_dentry,
  getdentry,
}
use fuseadf.Image.Perm.{rewrite_access, setperm}
use fuseadf.Cwd.{Enters, Moves, stay, call, enter, back}

module _ (L : Adflib) where
  open L use {Vol}

  -- An image that was entered, and that the way back from, after a call of ADFlib, is a move too.
  abbrev pub Entered : ℕ → Image Vol → ℕ → Option Bytes → Image Vol → Type 0
  Entered h img k cwd there =
      Moves L h img k there
      × ((v : Vol) → Moves L h img k (leave_dirpath L cwd (record there { vol = v })))

  entered :
      {h k : ℕ} {img img' : Image Vol} (dirpath : Bytes)
      → Enters k dirpath
      → Moves L h img k img'
      → let (cwd, _, there) = enter_dirpath L dirpath img' in Entered h img k cwd there
  unfolding enter_dirpath leave_dirpath
  entered {img' = img'} dirpath e m = elim (Bool-cases (length dirpath == 0)) [
    | inl z ↦ rw z (m, λ v. call v m)
    | inr z ↦ rw z (enter dirpath e m, λ v. back m (call v (enter dirpath e (stay _ img'))))
  ]

  -- Counting the entries of a directory.
  pub count_dir_entries-Moves :
      {h k : ℕ} {img img' : Image Vol} (dirpath : Bytes)
      → Enters k dirpath
      → Moves L h img k img'
      → Moves L h img k (count_dir_entries L dirpath img').1
  unfolding count_dir_entries
  count_dir_entries-Moves {img' = img'} dirpath e m = back m (enter dirpath e (stay _ img'))

  looked_up :
      {h k : ℕ} {img there : Image Vol} (entryname : Bytes) (cwd : Option Bytes)
      → Entered h img k cwd there
      → Moves L h img k (lookup_dentry L entryname cwd there).1
  unfolding lookup_dentry
  looked_up {h = h} {k = k} {img = img} {there = there} entryname cwd (m, ret) =
      go (L.get_dir_ent there.vol (L.cur_dir_ptr there.vol))
    where
      go :
          (es : List AdfEntry)
          → Moves L h img k
              (elim es as (λ _. Dentry × Image Vol) [
                | [] ↦ (no_dentry, there)
                | e ∷ es ↦
                    (found_dentry (adflib_list_find (e ∷ es) entryname), leave_dirpath L cwd there)
              ]).1
      go [] = m
      go (e ∷ es) = ret there.vol

  module _ (C : Libc) where
    -- The directory of a path takes no room.
    abbrev pub Opens : ℕ → Bytes → Type 0
    Opens k path = Enters k (C.dirname path)

    -- What works in the directory of a path, given what it does there.
    pub in_dirpath-Moves :
        {A : Type 0} {h k : ℕ} {img img' : Image Vol} (path : Bytes) (fail : A)
        (f : PathT → Option Bytes × Bool × Image Vol → A × Image Vol)
        → ((p : PathT) (cwd : Option Bytes) (ok : Bool) (there : Image Vol)
            → Entered h img k cwd there
            → Moves L h img k (f p (cwd, ok, there)).1)
        → Opens k path
        → Moves L h img k img'
        → Moves L h img k
            (elim (path_create C path) as (λ _. A × Image Vol) [
              | none ↦ (fail, img')
              | some p ↦ f p (enter_dirpath L p.dirpath img')
            ]).1
    unfolding path_create
    in_dirpath-Moves {img' = img'} path fail f g o m = elim (Bool-cases (C.path_malloc path)) [
      | inr e ↦ rw e m
      | inl e ↦ elim (Bool-cases (C.dirpath_strdup path)) [
        | inr e' ↦ rw (e, e') m
        | inl e' ↦ elim (Bool-cases (C.entryname_strdup path)) [
          | inr e'' ↦ rw (e, e', e'') m
          | inl e'' ↦ rw (e, e', e'') (g _ _ _ _ (entered (C.dirname path) o m))
        ]
      ]
    ]

    -- Looking up an entry.
    pub getdentry-Moves :
        {h k : ℕ} {img img' : Image Vol} (path : Bytes)
        → Opens k path
        → Moves L h img k img'
        → Moves L h img k (getdentry L C path img').1
    unfolding getdentry
    getdentry-Moves {img' = img'} path o m = elim (Bool-cases (strcmp_eq path root_path)) [
      | inl e ↦ rw e m
      | inr e ↦ rw e (
          in_dirpath-Moves path no_dentry
            (λ p (cwd, _, there). lookup_dentry L p.entryname cwd there)
            (λ p cwd ok there. looked_up p.entryname cwd) o m)
    ]

    pub setperm-Moves :
        {h k : ℕ} {img img' : Image Vol} (path : Bytes) (perms : ℕ)
        → Opens k path
        → Moves L h img k img'
        → Moves L h img k (setperm L C path perms img').1
    unfolding setperm rewrite_access
    setperm-Moves {img' = img'} path perms o m =
        let (dentry, there) = getdentry L C path img' in
        let n = getdentry-Moves path o m in
        elim (Bool-cases (adfimage_dentry_valid dentry)) [
          | inr e ↦ rw e n
          | inl e ↦
              elim (Bool-cases
                (is_ok (L.read_entry_block there.vol dentry.adflib_entry.sector).0)) [
                  | inl e' ↦ rw (e, e') (call _ n)
                  | inr e' ↦ rw (e, e') n
                ]
        ]
