-- ===== src/Cwd/Requests.antt =====
-- Requests of FUSE, src/adffs.c, as moves: how long `cwd` may get.
use fuseadf.Prelude.{ℕ, ◌≤◌, Option, none, some, [], ◌∷◌, Bytes, ℤ, neg, arith}
use fuseadf.Pathstr.{bind, pathstr_get_relative}
use fuseadf.Libc.{Libc, eexist, eperm, einval}
use fuseadf.Adflib.{Adflib}
use fuseadf.Image.{Image}
use fuseadf.Image.Entries.{
  create_file_status, adfimage_mkdir, adfimage_rmdir, adfimage_unlink, adfimage_create,
}
use fuseadf.Fs.{Filler}
use fuseadf.Fs.Attr.{root_getattr, getattr_of, adffs_getattr}
use fuseadf.Fs.Requests.{
  Request, getattr, statfs, mkdir, unlink, rmdir, create, open_file, chown, utimens, readlink,
  rename, chmod, truncate, read, write, readdir, reply, handle, status,
}
use fuseadf.Cwd.{Fits, Moves, stay}
use fuseadf.Cwd.Ceiling.{Moves-Fits}
use fuseadf.Cwd.Files.{read-Moves, write-Moves, readlink-Moves}
use fuseadf.Cwd.Entries.{raised, in_parent-Moves, MovesIf, rename-MovesIf}
use fuseadf.Cwd.Handlers.{
  IsShortening, Short, Opens-Short, converted_opens, entry_getattr-Fits, readdir-Fits,
  getattr-Moves, readdir-Moves, chmod-Moves, open-Moves, truncate-Moves,
}

module _ (B : Filler) (L : Adflib) (C : Libc) where
  open L use {Vol, create_dir, remove_entry}

  -- The length that a request may raise `cwd` to.
  abbrev pub ceiling : Request B → ℕ → ℕ
  ceiling (mkdir path) h = raised L C (pathstr_get_relative path) h
  ceiling (unlink path) h = raised L C (pathstr_get_relative path) h
  ceiling (rmdir path) h = raised L C (pathstr_get_relative path) h
  ceiling (create path) h = raised L C (pathstr_get_relative path) h
  ceiling _ h = h

  -- The length that `cwd` may have after a request. A look at an entry and a listing, with a path of at
  -- most h bytes, leave no more than h of it.
  abbrev pub looked_at : Bytes → ℕ → ℕ → ℕ
  looked_at [] h k = k
  looked_at (c ∷ rel) h k = h

  abbrev pub after : ℕ → Request B → ℕ → ℕ
  after h (getattr path) k = looked_at (pathstr_get_relative path) h k
  after h (readdir path buf) k = h
  after h req k = ceiling req k

  -- Requests with absolute paths of at most h bytes.
  abbrev pub ShortPaths : ℕ → Request B → Type 0
  ShortPaths h (rename src dst) = Short h src × Short h dst
  ShortPaths h (getattr path) = Short h path
  ShortPaths h (readlink path buf len) = Short h path
  ShortPaths h (chmod path mode) = Short h path
  ShortPaths h (truncate path size) = Short h path
  ShortPaths h (read path size offset) = Short h path
  ShortPaths h (write path data' size offset) = Short h path
  ShortPaths h (readdir path buf) = Short h path
  ShortPaths h (open_file path) = Short h path
  ShortPaths h _ = Unit

  pub handle-MovesIf :
      (fuel : ℕ) (S : IsShortening C) (req : Request B) {h k : ℕ} {img img' : Image Vol}
      → ShortPaths k req
      → Moves L h img k img'
      → MovesIf L C h img (ceiling req k) (handle B L C fuel req img')
  unfolding handle adfimage_mkdir adfimage_rmdir adfimage_unlink adfimage_create
  handle-MovesIf fuel S (getattr path) s m = getattr-Moves L C S path s m
  handle-MovesIf fuel S (readlink path buf len) s m =
      readlink-Moves L C path buf len (Opens-Short L C S path s) m
  handle-MovesIf fuel S (mkdir path) s m =
      in_parent-Moves L C (neg eexist) create_dir (pathstr_get_relative path) m
  handle-MovesIf fuel S (unlink path) s m =
      in_parent-Moves L C (neg eperm) remove_entry (pathstr_get_relative path) m
  handle-MovesIf fuel S (rmdir path) s m =
      in_parent-Moves L C (neg eperm) remove_entry (pathstr_get_relative path) m
  handle-MovesIf fuel S (create path) s m =
      in_parent-Moves L C (neg einval) (create_file_status L C) (pathstr_get_relative path) m
  handle-MovesIf fuel S (rename src dst) {h = h} {k = k} {img = img} (s, d) m = go _ (
      rename-MovesIf L C fuel src dst (converted_opens L C S fuel src s)
        (converted_opens L C S fuel dst d) m)
    where
      go :
          (o : Option (ℤ × Image Vol))
          → MovesIf L C h img k o
          → MovesIf L C h img k (bind o λ r. reply B status r)
      go none n = tt
      go (some r) n = n
  handle-MovesIf fuel S (chmod path mode) s m = chmod-Moves L C S path mode s m
  handle-MovesIf fuel S (chown path) s m = m
  handle-MovesIf fuel S (truncate path size) s m = truncate-Moves L C S path size s m
  handle-MovesIf fuel S (open_file path) s m = open-Moves L C S path s m
  handle-MovesIf fuel S (read path size offset) s m =
      read-Moves L C path size offset (Opens-Short L C S path s) m
  handle-MovesIf fuel S (write path data' size offset) s m =
      write-Moves L C path data' size offset (Opens-Short L C S path s) m
  handle-MovesIf fuel S (statfs path) s m = m
  handle-MovesIf fuel S (readdir path buf) s m = readdir-Moves L C S B path buf s m
  handle-MovesIf fuel S (utimens path) s m = m

  -- Paths that are short enough stay so when more is allowed.
  more : {h k : ℕ} (path : Bytes) → h ≤ k → Short h path → Short k path
  more path le (abs, short) = (abs, omega arith)

  pub ShortPaths-mono : {h k : ℕ} (req : Request B) → h ≤ k → ShortPaths h req → ShortPaths k req
  ShortPaths-mono (rename src dst) le (s, d) = (more src le s, more dst le d)
  ShortPaths-mono (getattr path) le s = more path le s
  ShortPaths-mono (readlink path buf len) le s = more path le s
  ShortPaths-mono (chmod path mode) le s = more path le s
  ShortPaths-mono (truncate path size) le s = more path le s
  ShortPaths-mono (read path size offset) le s = more path le s
  ShortPaths-mono (write path data' size offset) le s = more path le s
  ShortPaths-mono (readdir path buf) le s = more path le s
  ShortPaths-mono (open_file path) le s = more path le s
  ShortPaths-mono (mkdir path) le s = tt
  ShortPaths-mono (unlink path) le s = tt
  ShortPaths-mono (rmdir path) le s = tt
  ShortPaths-mono (create path) le s = tt
  ShortPaths-mono (chown path) le s = tt
  ShortPaths-mono (utimens path) le s = tt
  ShortPaths-mono (statfs path) le s = tt

  le-raised : (rel : Bytes) (k : ℕ) → k ≤ raised L C rel k
  le-raised [] k = omega arith
  le-raised (c ∷ rel) k = omega arith

  le-ceiling : (req : Request B) (k : ℕ) → k ≤ ceiling req k
  le-ceiling (mkdir path) k = le-raised (pathstr_get_relative path) k
  le-ceiling (unlink path) k = le-raised (pathstr_get_relative path) k
  le-ceiling (rmdir path) k = le-raised (pathstr_get_relative path) k
  le-ceiling (create path) k = le-raised (pathstr_get_relative path) k
  le-ceiling (rename src dst) k = omega arith
  le-ceiling (getattr path) k = omega arith
  le-ceiling (readlink path buf len) k = omega arith
  le-ceiling (chmod path mode) k = omega arith
  le-ceiling (truncate path size) k = omega arith
  le-ceiling (read path size offset) k = omega arith
  le-ceiling (write path data' size offset) k = omega arith
  le-ceiling (readdir path buf) k = omega arith
  le-ceiling (open_file path) k = omega arith
  le-ceiling (chown path) k = omega arith
  le-ceiling (utimens path) k = omega arith
  le-ceiling (statfs path) k = omega arith

  le-looked_at : (rel : Bytes) (h k : ℕ) → h ≤ k → h ≤ looked_at rel h k
  le-looked_at [] h k le = le
  le-looked_at (c ∷ rel) h k le = omega arith

  pub le-after : (h k : ℕ) (req : Request B) → h ≤ k → h ≤ after h req k
  le-after h k (getattr path) le = le-looked_at (pathstr_get_relative path) h k le
  le-after h k (readdir path buf) le = omega arith
  le-after h k (mkdir path) le = omega (arith, le-ceiling (mkdir path) k)
  le-after h k (unlink path) le = omega (arith, le-ceiling (unlink path) k)
  le-after h k (rmdir path) le = omega (arith, le-ceiling (rmdir path) k)
  le-after h k (create path) le = omega (arith, le-ceiling (create path) k)
  le-after h k (rename src dst) le = le
  le-after h k (readlink path buf len) le = le
  le-after h k (chmod path mode) le = le
  le-after h k (truncate path size) le = le
  le-after h k (read path size offset) le = le
  le-after h k (write path data' size offset) le = le
  le-after h k (open_file path) le = le
  le-after h k (chown path) le = le
  le-after h k (utimens path) le = le
  le-after h k (statfs path) le = le

  -- `cwd` fits after a call, if that returns.
  abbrev pub FitsIf : {A : Type 0} → ℕ → Option (A × Image Vol) → Type 0
  FitsIf k none = Unit
  FitsIf k (some r) = Fits L k r.1

  MovesIf-FitsIf :
      {A : Type 0} (k l : ℕ) (img : Image Vol) (o : Option (A × Image Vol))
      → MovesIf L C k img l o
      → Fits L k img
      → FitsIf l o
  MovesIf-FitsIf k l img none m f = tt
  MovesIf-FitsIf k l img (some r) m f = (Moves-Fits L m f).1

  pub handle-FitsIf :
      (fuel h k : ℕ) (S : IsShortening C) (req : Request B) (img : Image Vol)
      → h ≤ k
      → ShortPaths h req
      → Fits L k img
      → FitsIf (after h req k) (handle B L C fuel req img)
  unfolding handle adffs_getattr root_getattr
  handle-FitsIf fuel h k S req img le s f = go req s (kept req s)
    where
      kept :
          (req : Request B) → ShortPaths h req → FitsIf (ceiling req k) (handle B L C fuel req img)
      kept req s =
          MovesIf-FitsIf k (ceiling req k) img _
            (handle-MovesIf fuel S req (ShortPaths-mono req le s) (stay k img)) f

      look :
          (rel path : Bytes)
          → Short h path
          → Fits L (looked_at rel h k) (getattr_of L C rel path img).1
      look [] path s = f
      look (c ∷ rel) path s = entry_getattr-Fits L C S h path img s

      go :
          (req : Request B)
          → ShortPaths h req
          → FitsIf (ceiling req k) (handle B L C fuel req img)
          → FitsIf (after h req k) (handle B L C fuel req img)
      go (getattr path) s t = look (pathstr_get_relative path) path s
      go (readdir path buf) s t = readdir-Fits L C S h B path buf img s
      go (mkdir path) s t = t
      go (unlink path) s t = t
      go (rmdir path) s t = t
      go (create path) s t = t
      go (rename src dst) s t = t
      go (readlink path buf len) s t = t
      go (chmod path mode) s t = t
      go (truncate path size) s t = t
      go (read path size offset) s t = t
      go (write path data' size offset) s t = t
      go (open_file path) s t = t
      go (chown path) s t = t
      go (utimens path) s t = t
      go (statfs path) s t = t
