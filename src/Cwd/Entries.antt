-- ===== src/Cwd/Entries.antt =====
-- Making, removing and renaming entries in src/adfimage.c, as moves.
use fuseadf.Prelude.{
  ℕ, ◌+◌, ◌≡◌, inl, inr, Bool, true, false, Bool-cases, Option, none, some, Option-cases, [], ◌∷◌,
  Bytes, arith, ◌&&◌, ltb_ℤ, ℤ, neg, if◌then◌else◌,
}
use fuseadf.Libc.{Libc, einval}
use fuseadf.Adflib.{Adflib}
use fuseadf.Path.{PathT, path_create, path_is_entryname_non_empty}
use fuseadf.Image.{Image, to_root}
use fuseadf.Image.Entries.{call_there, in_parent}
use fuseadf.Image.Rename.{
  Parent, failed, sector_of, convert, rename_sectors, rename_checked, rename_from, rename_parents,
  rename_dirs, rename_paths, adfimage_file_rename,
}
use fuseadf.Cwd.{room, Moves, call, grow}
use fuseadf.Cwd.Operations.{Opens, getdentry-Moves}

created_dirpath :
    (C : Libc) (p : Bytes) (path : PathT) → path_create C p ≡ some path → path.dirpath ≡ C.dirname p
unfolding path_create
created_dirpath C p path e = ground arith

module _ (L : Adflib) where
  open L use {Vol}

  module _ (C : Libc) where
    -- The length that mkdir, rmdir, unlink and create, which change to a path that is relative, from
    -- wherever `cwd` was, may raise it to.
    abbrev pub raised : Bytes → ℕ → ℕ
    raised [] h = h
    raised (c ∷ rel) h = h + room (C.dirname (c ∷ rel))

    call_there-Moves :
        {h k : ℕ} {img : Image Vol} (f : Vol → ℤ → Bytes → ℤ × Vol) (name : Bytes)
        (r : Bool × Image Vol)
        → Moves L h img k r.1
        → Moves L h img k (call_there L C f name r).1
    unfolding to_root
    call_there-Moves f name (true, there) m =
        call _ (call (f there.vol (L.cur_dir_ptr there.vol) name).1 m)
    call_there-Moves f name (false, there) m = m

    pub in_parent-Moves :
        {h k : ℕ} {img img' : Image Vol} (at_root : ℤ) (f : Vol → ℤ → Bytes → ℤ × Vol) (rel : Bytes)
        → Moves L h img k img'
        → Moves L h img (raised rel k) (in_parent L C at_root f rel img').1
    unfolding to_root
    in_parent-Moves at_root f [] m = m
    in_parent-Moves at_root f (c ∷ rel) m =
        call_there-Moves f _ _ (grow (C.dirname (c ∷ rel)) (call _ m))

    rename_sectors-Moves :
        {h k : ℕ} {img img' : Image Vol} (src dst : PathT) (s d : ℤ)
        → Moves L h img k img'
        → Moves L h img k (rename_sectors L C src dst s d img').1
    unfolding rename_sectors
    rename_sectors-Moves src dst s d m = elim (Bool-cases (ltb_ℤ s 2)) [
      | inl e ↦ rw e m
      | inr e ↦ elim (Bool-cases (ltb_ℤ d 2)) [
        | inl e' ↦ rw (e, e') m
        | inr e' ↦ rw (e, e') (call _ m)
      ]
    ]

    rename_checked-Moves :
        {h k : ℕ} {img img' : Image Vol} (src dst : PathT) (s : ℤ) (p : Parent)
        → Moves L h img k img'
        → Moves L h img k (rename_checked L C src dst s p img').1
    rename_checked-Moves src dst s (failed e) m = m
    rename_checked-Moves src dst s (sector_of d) m = rename_sectors-Moves src dst s d m

    rename_from-Moves :
        {h k : ℕ} {img img' : Image Vol} (src dst : PathT) (dir : Bytes) (p : Parent)
        → Opens L C k dir
        → Moves L h img k img'
        → Moves L h img k (rename_from L C src dst dir p img').1
    rename_from-Moves src dst dir (failed e) o m = m
    rename_from-Moves src dst dir (sector_of s) o m =
        rename_checked-Moves src dst s _ (getdentry-Moves L C dir o m)

    -- A directory of a rename, if its conversion ends, takes no room.
    abbrev pub OpensIf : ℕ → Option Bytes → Type 0
    OpensIf k none = Unit
    OpensIf k (some dir) = Opens L C k dir

    -- The same moves, if the call returns.
    abbrev pub MovesIf {ℓ} : {A : Type ℓ} → ℕ → Image Vol → ℕ → Option (A × Image Vol) → Type 0
    MovesIf h img k none = Unit
    MovesIf h img k (some r) = Moves L h img k r.1

    rename_dirs-MovesIf :
        {h k : ℕ} {img img' : Image Vol} (src dst : PathT) (o o' : Option Bytes)
        → OpensIf k o
        → OpensIf k o'
        → Moves L h img k img'
        → MovesIf h img k (rename_dirs L C src dst o o' img')
    unfolding rename_parents
    rename_dirs-MovesIf src dst none o' p q m = tt
    rename_dirs-MovesIf src dst (some s) none p q m = tt
    rename_dirs-MovesIf src dst (some s) (some d) p q m =
        rename_from-Moves src dst d _ q (getdentry-Moves L C s p m)

    pub rename-MovesIf :
        {h k : ℕ} {img img' : Image Vol} (fuel : ℕ) (src dst : Bytes)
        → OpensIf k (convert fuel (C.dirname src))
        → OpensIf k (convert fuel (C.dirname dst))
        → Moves L h img k img'
        → MovesIf h img k (adfimage_file_rename L C fuel src dst img')
    unfolding adfimage_file_rename rename_paths
    rename-MovesIf {h = h} {k = k} {img = img} {img' = img'} fuel src dst p q m =
        elim (Option-cases (path_create C src)) [
          | inl e ↦ rw (e, MovesIf) m
          | inr (s, e) ↦ elim (Option-cases (path_create C dst)) [
            | inl e' ↦ rw (e, e', MovesIf) m
            | inr (d, e') ↦
                rw (e, e', MovesIf)
                  (go s d (path_is_entryname_non_empty s && path_is_entryname_non_empty d)
                    (created_dirpath C src s e) (created_dirpath C dst d e'))
          ]
        ]
      where
        go :
            (s d : PathT) (b : Bool)
            → s.dirpath ≡ C.dirname src
            → d.dirpath ≡ C.dirname dst
            → MovesIf h img k (
                if b
                then rename_dirs L C s d (convert fuel s.dirpath) (convert fuel d.dirpath) img'
                else some (neg einval, img'))
        go s d false e e' = m
        go s d true e e' = rename_dirs-MovesIf s d _ _ (rw e p) (rw e' q) m
