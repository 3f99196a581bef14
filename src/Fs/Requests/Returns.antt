-- ===== src/Fs/Requests/Returns.antt =====
-- Sessions of requests to src/adffs.c that return.
use fuseadf.Prelude.{ℕ, suc, ◌≡◌, refl, ap, some, List, [], ◌∷◌, length}
use fuseadf.Libc.{Libc}
use fuseadf.Adflib.{Adflib}
use fuseadf.Image.{Image}
use fuseadf.Image.Rename.Returns.{Convertible, rename_returns}
use fuseadf.Fs.{Filler}
use fuseadf.Fs.Requests.{
  Request, Reply, getattr, statfs, mkdir, unlink, rmdir, create, open_file, chown, utimens,
  readlink, rename, chmod, truncate, read, write, readdir, status, handle, serve,
}

module _ (F : Filler) (L : Adflib) (C : Libc) where
  open L use {Vol}

  abbrev pub Returning : Request F → Type 0
  Returning (rename src dst) = Convertible L C src × Convertible L C dst
  Returning (getattr path) = Unit
  Returning (readlink path buf len) = Unit
  Returning (chmod path mode) = Unit
  Returning (truncate path size) = Unit
  Returning (read path size offset) = Unit
  Returning (write path data' size offset) = Unit
  Returning (readdir path buf) = Unit
  Returning (open_file path) = Unit
  Returning (statfs path) = Unit
  Returning (mkdir path) = Unit
  Returning (unlink path) = Unit
  Returning (rmdir path) = Unit
  Returning (create path) = Unit
  Returning (chown path) = Unit
  Returning (utimens path) = Unit

  abbrev pub AllReturning : List (Request F) → Type 0
  AllReturning [] = Unit
  AllReturning (req ∷ reqs) = Returning req × AllReturning reqs

  handle_returns :
      (fuel : ℕ) (req : Request F) (img : Image Vol)
      → Returning req
      → (r : Reply F × Image Vol) × (handle F L C (suc fuel) req img ≡ some r)
  unfolding handle
  handle_returns fuel (rename src dst) img h =
      let (r, e) = rename_returns L C fuel src dst img h.0 h.1 in ((status r.0, r.1), rw e refl)
  handle_returns fuel (getattr path) img h = (_, refl)
  handle_returns fuel (readlink path buf len) img h = (_, refl)
  handle_returns fuel (chmod path mode) img h = (_, refl)
  handle_returns fuel (truncate path size) img h = (_, refl)
  handle_returns fuel (read path size offset) img h = (_, refl)
  handle_returns fuel (write path data' size offset) img h = (_, refl)
  handle_returns fuel (readdir path buf) img h = (_, refl)
  handle_returns fuel (open_file path) img h = (_, refl)
  handle_returns fuel (statfs path) img h = (_, refl)
  handle_returns fuel (mkdir path) img h = (_, refl)
  handle_returns fuel (unlink path) img h = (_, refl)
  handle_returns fuel (rmdir path) img h = (_, refl)
  handle_returns fuel (create path) img h = (_, refl)
  handle_returns fuel (chown path) img h = (_, refl)
  handle_returns fuel (utimens path) img h = (_, refl)

  -- With one unit of fuel or more a session gives a reply to each request, if for each path of its
  -- renames `path_create` fails or gives a directory path that holds none of `//`, `../`, `/..` and
  -- NUL.
  pub serve_returns :
      (fuel : ℕ) (reqs : List (Request F)) (img : Image Vol)
      → AllReturning reqs
      → (replies : List (Reply F)) × (serve F L C (suc fuel) reqs img ≡ some replies)
        × (length replies ≡ length reqs)
  unfolding serve
  serve_returns fuel [] img h = ([], refl, refl)
  serve_returns fuel (req ∷ reqs) img h =
      let (r, e) = handle_returns fuel req img h.0 in
      let (replies, e', l) = serve_returns fuel reqs r.1 h.1 in
      (r.0 ∷ replies, rw (e, e') refl, ap suc l)
