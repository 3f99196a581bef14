-- ===== src/Cwd/Handlers.antt =====
-- The handlers of src/adffs.c, as moves.
use fuseadf.Prelude.{
  ℕ, suc, ◌≤◌, ◌≡◌, refl, ◌⊎◌, inl, inr, Bool, true, false, Bool-cases, Option, none, some, List,
  [], ◌∷◌, Bytes, codes, length, arith,
}
use fuseadf.Pathstr.{slash, buffer, c_str, bind, pathstr_get_relative, pathstr_fuse2amigados}
use fuseadf.Pathstr.Cells.{KeepsIf, fuse2amigados-Keeps, length-converted}
use fuseadf.Libc.{Libc}
use fuseadf.Adflib.{Adflib, mode_read, mode_write}
use fuseadf.Image.{Image, root_path, chdir, to_root}
use fuseadf.Image.Dentry.{
  Dentry, DentryType, dentry_none, dentry_file, dentry_directory, dentry_linkfile, dentry_linkdir,
  dentry_softlink, dentry_unknown, getdentry,
}
use fuseadf.Image.Files.{adfimage_file_open, adfimage_file_truncate}
use fuseadf.Image.Rename.{convert}
use fuseadf.Fs.{
  Filler, readdir_at, adffs_readdir, adffs_chmod, perms_of_mode, adffs_open, adffs_truncate,
}
use fuseadf.Fs.Attr.{
  Stat, direntry_name, stat_dentry, finish, root_getattr, entry_getattr, getattr_of, adffs_getattr,
}
use fuseadf.History.Chdir.{Absolute, Absolute?}
use fuseadf.History.Handlers.{convert-Absolute}
use fuseadf.Cwd.{Fits, Enters, Moves, stay, call, enter}
use fuseadf.Cwd.Ceiling.{chdir-Fits, Moves-Fits}
use fuseadf.Cwd.Operations.{Opens, count_dir_entries-Moves, getdentry-Moves, setperm-Moves}
use fuseadf.Cwd.Files.{file_open-Moves, truncate_opened-Moves}
use fuseadf.Cwd.Entries.{OpensIf}

-- What <libgen.h> documents: the directory of an absolute path is absolute and no longer, and that
-- of a last component is `.`, or `/` if the path has only slashes.
pub record IsShortening (C : Libc) : Type 0 where
  pub dirname_short :
      (p : Bytes)
      → Absolute (C.dirname (slash ∷ p)) × (length (C.dirname (slash ∷ p)) ≤ suc (length p))
  pub dirname_basename :
      (p : Bytes)
      → (C.dirname (C.basename (slash ∷ p)) ≡ codes ".")
        ⊎ (C.dirname (C.basename (slash ∷ p)) ≡ root_path)
  pub dirname_dot : C.dirname (codes ".") ≡ codes "."

-- An absolute path of at most h bytes.
abbrev pub Short : ℕ → Bytes → Type 0
Short h path = Absolute path × (length path ≤ h)

abbrev ShortIf : ℕ → Option Bytes → Type 0
ShortIf h none = Unit
ShortIf h (some path) = length path ≤ h

-- A conversion makes no path longer.
ShortIf-convert : {h : ℕ} (fuel : ℕ) (d : Bytes) → length d ≤ h → ShortIf h (convert fuel d)
unfolding convert
ShortIf-convert {h = h} fuel d le =
    go (pathstr_fuse2amigados fuel (buffer d)) (fuse2amigados-Keeps fuel (buffer d))
  where
    go :
        (o : Option (List ℕ))
        → KeepsIf (buffer d) o
        → ShortIf h (bind o λ cells. some (c_str cells))
    go none k = tt
    go (some cells) k = omega (arith, length-converted d cells k)

module _ (L : Adflib) (C : Libc) (S : IsShortening C) where
  open L use {Vol}

  pub Opens-Short : {k : ℕ} (path : Bytes) → Short k path → Opens L C k path
  Opens-Short [] s = absurd (s.0)
  Opens-Short (c ∷ p) (abs, le) =
      let (abs', le') = S.dirname_short p in rw abs (inr (abs', omega arith))

  direntry-Opens :
      {k : ℕ} (name : Bytes)
      → 1 ≤ k
      → (C.dirname name ≡ codes ".") ⊎ (C.dirname name ≡ root_path)
      → Opens L C k (direntry_name name)
  direntry-Opens [] le o = inl S.dirname_dot
  direntry-Opens (c ∷ name) le (inl e) = inl e
  direntry-Opens (c ∷ name) le (inr e) = rw e (inr (refl, le))

  name-Opens : {k : ℕ} (path : Bytes) → Short k path → Opens L C k (direntry_name (C.basename path))
  name-Opens [] s = absurd (s.0)
  name-Opens (c ∷ p) (abs, le) =
      rw abs (direntry-Opens (C.basename (slash ∷ p)) (omega arith) (S.dirname_basename p))

  Absolute-convert : (fuel : ℕ) (d : Bytes) → Absolute d → Absolute? (convert fuel d)
  Absolute-convert fuel [] abs = absurd abs
  Absolute-convert fuel (c ∷ d) abs = rw abs (convert-Absolute fuel d)

  pub converted_opens :
      {k : ℕ} (fuel : ℕ) (path : Bytes)
      → Short k path
      → OpensIf L C k (convert fuel (C.dirname path))
  converted_opens fuel [] s = absurd (s.0)
  converted_opens {k = k} fuel (c ∷ p) (abs, le) =
      let (d, le') = S.dirname_short p in
      rw abs (
        go (convert fuel (C.dirname (slash ∷ p))) (Absolute-convert fuel _ d)
          (ShortIf-convert fuel _ (omega arith)))
    where
      go : (o : Option Bytes) → Absolute? o → ShortIf k o → OpensIf L C k o
      go none a t = tt
      go (some dir) a t = Opens-Short dir (a, t)

  stat_dentry-Moves :
      {h k : ℕ} {img img' : Image Vol} (path name : Bytes) (dentry : Dentry)
      → Enters k path
      → Moves L h img k img'
      → Moves L h img k (stat_dentry L C path name dentry img').1
  unfolding stat_dentry
  stat_dentry-Moves {h = h} {k = k} {img = img} {img' = img'} path name dentry e m =
      go (dentry.type)
    where
      go :
          (t : DentryType)
          → Moves L h img k (stat_dentry L C path name (record dentry { type = t }) img').1
      go dentry_file = call _ m
      go dentry_linkfile = call _ m
      go dentry_directory = count_dir_entries-Moves L path e m
      go dentry_linkdir = count_dir_entries-Moves L path e m
      go dentry_softlink = m
      go dentry_unknown = m
      go dentry_none = m

  finish-image : (dentry : Dentry) (r : Option Stat × Image Vol) → (finish L C dentry r).1 ≡ r.1
  finish-image dentry (none, img) = refl
  finish-image dentry (some st, img) = refl

  -- Behind the change to the directory of the path.
  entry_getattr-Moves :
      {h k : ℕ} {img : Image Vol} (img' : Image Vol) (path : Bytes)
      → Short k path
      → Moves L h img k (chdir L (C.dirname path) img').1
      → Moves L h img k (entry_getattr L C path img').1
  unfolding entry_getattr to_root
  entry_getattr-Moves img' path s entered =
      let there = (chdir L (C.dirname path) img').1 in
      let name = direntry_name (C.basename path) in
      let (dentry, found) = getdentry L C name there in
      let r = stat_dentry L C path name dentry found in
      let n =
        stat_dentry-Moves path name dentry (inr s)
          (getdentry-Moves L C name (name-Opens path s) entered) in
      elim (Bool-cases (chdir L (C.dirname path) img').0) [
        | inl e ↦ rw (e, finish-image dentry (r.0, to_root L r.1)) (call _ n)
        | inr e ↦ rw e entered
      ]

  pub getattr-Moves :
      {h k : ℕ} {img img' : Image Vol} (path : Bytes)
      → Short k path
      → Moves L h img k img'
      → Moves L h img k (adffs_getattr L C path img').1
  unfolding adffs_getattr root_getattr
  getattr-Moves {h = h} {k = k} {img = img} {img' = img'} path s m = go (pathstr_get_relative path)
    where
      go : (rel : Bytes) → Moves L h img k (getattr_of L C rel path img').1
      go [] = m
      go (c ∷ rel) = entry_getattr-Moves img' path s (enter (C.dirname path) (Opens-Short path s) m)

  -- However long `cwd` was, it is no longer than the path behind a look at an entry.
  pub entry_getattr-Fits :
      (h : ℕ) (path : Bytes) (img : Image Vol)
      → Short h path
      → Fits L h (entry_getattr L C path img).1
  entry_getattr-Fits h path img s =
      let there = (chdir L (C.dirname path) img).1 in
      (Moves-Fits L (entry_getattr-Moves img path s (stay h there)) (entered path s)).1
    where
      entered : (path : Bytes) → Short h path → Fits L h (chdir L (C.dirname path) img).1
      entered [] s = absurd (s.0)
      entered (c ∷ p) (abs, le) =
          let (abs', le') = S.dirname_short p in
          rw abs (chdir-Fits L h (C.dirname (slash ∷ p)) img abs' (omega arith))

  -- The same behind a listing.
  pub readdir-Fits :
      (h : ℕ) (B : Filler) (path : Bytes) (buf : B.Buffer) (img : Image Vol)
      → Short h path
      → Fits L h (adffs_readdir L B path buf img).1
  unfolding adffs_readdir to_root
  readdir-Fits h B path buf img (abs, le) = go (chdir L path img) (chdir-Fits L h path img abs le)
    where
      go : (r : Bool × Image Vol) → Fits L h r.1 → Fits L h (readdir_at L B buf r).1
      go (true, there) f = f
      go (false, there) f = f

  pub readdir-Moves :
      {h k : ℕ} {img img' : Image Vol} (B : Filler) (path : Bytes) (buf : B.Buffer)
      → Short k path
      → Moves L h img k img'
      → Moves L h img k (adffs_readdir L B path buf img').1
  unfolding adffs_readdir to_root
  readdir-Moves {h = h} {k = k} {img = img} {img' = img'} B path buf s m =
      go (chdir L path img') (enter path (inr s) m)
    where
      go : (r : Bool × Image Vol) → Moves L h img k r.1 → Moves L h img k (readdir_at L B buf r).1
      go (true, there) n = call _ n
      go (false, there) n = call _ n

  pub chmod-Moves :
      {h k : ℕ} {img img' : Image Vol} (path : Bytes) (mode : ℕ)
      → Short k path
      → Moves L h img k img'
      → Moves L h img k (adffs_chmod L C path mode img').1
  unfolding adffs_chmod
  chmod-Moves path mode s m = setperm-Moves L C path (perms_of_mode mode) (Opens-Short path s) m

  pub open-Moves :
      {h k : ℕ} {img img' : Image Vol} (path : Bytes)
      → Short k path
      → Moves L h img k img'
      → Moves L h img k (adffs_open L C path img').1
  unfolding adffs_open
  open-Moves path s m = call _ (file_open-Moves L C path mode_read (Opens-Short path s) m)

  pub truncate-Moves :
      {h k : ℕ} {img img' : Image Vol} (path : Bytes) (size : ℕ)
      → Short k path
      → Moves L h img k img'
      → Moves L h img k (adffs_truncate L C path size img').1
  unfolding adffs_truncate adfimage_file_truncate
  truncate-Moves {img' = img'} path size s m =
      truncate_opened-Moves L size (adfimage_file_open L C path mode_write img').0
        (file_open-Moves L C path mode_write (Opens-Short path s) m)
