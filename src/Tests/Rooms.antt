-- ===== src/Tests/Rooms.antt =====
-- The theorem about the room that `cwd` takes in a session, at a short session.
use fuseadf.Prelude.{
  ◌≡◌, refl, Bool-cases, inl, inr, none, some, Option, List, [], ◌∷◌, ◌≤◌, suc, Bytes, codes,
  length, arith, ◌==◌, ap,
}
use mathlib.Core.Option.{some-injective}
use fuseadf.Fs.{adffs_readdir}
use fuseadf.Fs.Attr.{adffs_getattr}
use fuseadf.Image.Entries.{adfimage_create}
use fuseadf.History.Chdir.{Absolute}
use fuseadf.Image.{Image}
use fuseadf.Fs.Listing.{bounded}
use fuseadf.Fs.Requests.{Request, getattr, readdir, create, handle}
use fuseadf.Cwd.Handlers.{IsShortening}
use fuseadf.Cwd.Sessions.{Session, done, next, AllFit, session-AllFit}
use fuseadf.Tests.Toy.{Toy, toy, inner_image}
use fuseadf.Tests.Host.{host, before_last, after_last, cut_before, directory_of}

length-before_last : (p s : Bytes) → before_last p ≡ some s → length s ≤ length p
length-before_last [] s e = absurd cc
length-before_last (c ∷ p) s e = go (before_last p) refl e (λ t eq. length-before_last p t eq)
  where
    go :
        (o : Option Bytes)
        → before_last p ≡ o
        → cut_before c o ≡ some s
        → ((t : Bytes) → before_last p ≡ some t → length t ≤ length p)
        → length s ≤ suc (length p)
    go none eq e shorter = elim (Bool-cases (c == b'/')) [
      | inl h ↦ omega (arith, ap length (some-injective _ _ (rw h at e)))
      | inr h ↦ absurd (cc (rw h at e))
    ]
    go (some t) eq e shorter = omega (arith, ap length (some-injective _ _ e), shorter t eq)

length-directory_of :
    (p : Bytes) (o : Option Bytes)
    → before_last p ≡ o
    → length (directory_of (cut_before b'/' o)) ≤ suc (length p)
length-directory_of p none e = omega arith
length-directory_of p (some s) e = omega (arith, length-before_last p s e)

leads_directory_of : (o : Option Bytes) → Absolute (directory_of (cut_before b'/' o))
leads_directory_of none = refl
leads_directory_of (some s) = refl

-- A last component has no slash.
before_last-after_last :
    (kept s : Bytes)
    → (before_last s ≡ none → before_last kept ≡ none)
    → before_last (after_last kept s) ≡ none
before_last-after_last kept [] h = h refl
before_last-after_last kept (c ∷ s) h = elim (Bool-cases (c == b'/')) [
  | inl e ↦ rw e (before_last-after_last s s (λ n. n))
  | inr e ↦ rw e (before_last-after_last kept s (λ n. h (rw (n, e) refl)))
]

host-IsShortening : IsShortening host
host-IsShortening = record {
  dirname_short = λ p. (leads_directory_of (before_last p), length-directory_of p _ refl);
  dirname_basename = λ p. inl (ap directory_of (before_last-after_last p p (λ n. n)));
  dirname_dot = refl;
}

abbrev reqs : List (Request bounded)
reqs = create (codes "/d/n") ∷ getattr (codes "/d/n") ∷ readdir (codes "/d") (4, []) ∷ []

-- The images after the requests.
abbrev made : Image Toy
made = (adfimage_create toy host (codes "/d/n") inner_image).1

abbrev looked : Image Toy
looked = (adffs_getattr toy host (codes "/d/n") made).1

abbrev ended : Image Toy
ended = (adffs_readdir toy bounded (codes "/d") (4, []) looked).1

session : Session bounded toy host 1 reqs inner_image ended
unfolding handle
session = next refl (next refl (next refl (done ended)))

session-AllFit_example : AllFit bounded toy host 4 4 session
session-AllFit_example =
    session-AllFit bounded toy host host-IsShortening 1 4 4 reqs inner_image ended (omega arith)
      (refl, omega arith) (tt, ((refl, omega arith), ((refl, omega arith), tt))) session
