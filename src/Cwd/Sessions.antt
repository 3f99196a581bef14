-- ===== src/Cwd/Sessions.antt =====
-- Sessions of requests of FUSE, src/adffs.c: the length of `cwd` between them.
use fuseadf.Prelude.{ℕ, ◌≤◌, ◌≡◌, some, List, [], ◌∷◌}
use mathlib.Core.Path.{subst}
use fuseadf.Libc.{Libc}
use fuseadf.Adflib.{Adflib}
use fuseadf.Image.{Image}
use fuseadf.Fs.{Filler}
use fuseadf.Fs.Requests.{Request, Reply, handle}
use fuseadf.Cwd.{Fits}
use fuseadf.Cwd.Handlers.{IsShortening}
use fuseadf.Cwd.Requests.{after, ShortPaths, le-after, FitsIf, handle-FitsIf}

module _ (B : Filler) (L : Adflib) (C : Libc) where
  open L use {Vol}

  -- Sessions: requests that return, one after the other, with the image before and after them.
  pub data Session (fuel : ℕ) : List (Request B) → Image Vol → Image Vol → Type 0 where
    done : (img : Image Vol) → Session fuel [] img img
    next :
        {req : Request B} {reqs : List (Request B)} {img img' img'' : Image Vol} {r : Reply B}
        → handle B L C fuel req img ≡ some (r, img')
        → Session fuel reqs img' img''
        → Session fuel (req ∷ reqs) img img''

  -- Before and after each request `cwd` is an absolute path of at most the length that is allowed
  -- there.
  unfoldable pub AllFit :
      {fuel : ℕ} (h k : ℕ) {reqs : List (Request B)} {img img' : Image Vol}
      → Session fuel reqs img img'
      → Type 0
  AllFit h k (done img) = Fits L k img
  AllFit h k (next {req = req} {img = img} e rest) =
      Fits L k img × AllFit h (after B L C h req k) rest

  abbrev pub AllShort : ℕ → List (Request B) → Type 0
  AllShort h [] = Unit
  AllShort h (req ∷ reqs) = ShortPaths B L C h req × AllShort h reqs

  -- Between requests `cwd` has a bounded length: in any session of requests with absolute paths of
  -- at most h bytes, from an image whose `cwd` is an absolute path of at most k bytes, where k is h
  -- or more, `cwd` is such a path before and after each request. In the course of the session each
  -- mkdir, rmdir, unlink and create raises k by a byte and the length of its relative directory, if
  -- that is not `.`; a look at an entry and a listing bring k back to h, and the other requests
  -- leave it. The C library meets `IsShortening`.
  pub session-AllFit :
      (S : IsShortening C) (fuel h k : ℕ) (reqs : List (Request B)) (img img' : Image Vol)
      → h ≤ k
      → Fits L k img
      → AllShort h reqs
      → (session : Session fuel reqs img img') → AllFit h k session
  unfolding AllFit
  session-AllFit S fuel h k [] img img' le f s (done _) = f
  session-AllFit S fuel h k (req ∷ reqs) img img' le f (s, t) (next {img' = img2} e rest) =
      let f' =
        subst (λ o. FitsIf B L C (after B L C h req k) o) e
          (handle-FitsIf B L C fuel h k S req img le s f) in
      (
        f,
        session-AllFit S fuel h (after B L C h req k) reqs img2 img' (le-after B L C h k req le) f'
            t rest,
      )
