-- ===== src/Tests/Split.antt =====
-- The C library of the tests splits paths as <libgen.h> documents.
use fuseadf.Prelude.{
  ◌≡◌, ◌≢◌, refl, ap, ◌∙◌, none, some, List, [], ◌∷◌, ◌++◌, append_assoc, Bytes, Bool, true, false,
  ◌==◌, if◌then◌else◌, arith,
}
use fuseadf.Pathstr.{slash}
use fuseadf.Workdir.{NoSlash, IsName, Names}
use fuseadf.Workdir.Paths.{join}
use fuseadf.Workdir.Enter.{relative_dir}
use fuseadf.Named.{relative_path, rooted_path, IsSplit}
use fuseadf.Tests.Host.{before_last, after_last, directory_of, host}

before_last_name : (name : Bytes) → NoSlash name → before_last name ≡ none
before_last_name [] h = refl
before_last_name (c ∷ name) h = ground (arith, before_last_name name h.1)

before_last-append :
    (dir name : Bytes) → NoSlash name → before_last (dir ++ (slash ∷ name)) ≡ some dir
before_last-append [] name h = rw (before_last_name name h) refl
before_last-append (c ∷ dir) name h = rw (before_last-append dir name h) refl

after_last_name : (kept name : Bytes) → NoSlash name → after_last kept name ≡ kept
after_last_name kept [] h = refl
after_last_name kept (c ∷ name) h = ground (arith, after_last_name kept name h.1)

if_same : (b : Bool) (s : Bytes) → (if b then s else s) ≡ s
if_same true s = refl
if_same false s = refl

after_last-append :
    (kept dir name : Bytes) → NoSlash name → after_last kept (dir ++ (slash ∷ name)) ≡ name
after_last-append kept [] name h = after_last_name name name h
after_last-append kept (c ∷ dir) name h =
    simp (after_last-append kept dir name h, after_last-append (dir ++ (slash ∷ name)) dir name h)
      (if_same (c == slash) name)

join_snoc :
    (d : Bytes) (dirs : List Bytes) (name : Bytes)
    → join (d ∷ dirs ++ name ∷ []) ≡ join (d ∷ dirs) ++ (slash ∷ name)
unfolding join
join_snoc d [] name = refl
join_snoc d (e ∷ dirs) name = ap (λ t. d ++ (slash ∷ t)) (join_snoc e dirs name) ∙ rw append_assoc

directory_of-join :
    (d : Bytes) (dirs : List Bytes)
    → d ≢ []
    → directory_of (some (join (d ∷ dirs))) ≡ join (d ∷ dirs)
unfolding join
directory_of-join [] dirs h = absurd (h refl)
directory_of-join (c ∷ d) [] h = refl
directory_of-join (c ∷ d) (e ∷ dirs) h = refl

dirname_relative :
    (dirs : List Bytes) (name : Bytes)
    → Names dirs
    → IsName name
    → host.dirname (relative_path dirs name) ≡ relative_dir dirs
unfolding join
dirname_relative [] name h k = rw (before_last_name name k.2) refl
dirname_relative (d ∷ dirs) name h k =
    rw (join_snoc d dirs name, before_last-append (join (d ∷ dirs)) name k.2)
      (directory_of-join d dirs h.0.0)

dirname_rooted :
    (dirs : List Bytes) (name : Bytes)
    → Names dirs
    → IsName name
    → host.dirname (rooted_path dirs name) ≡ slash ∷ join dirs
unfolding join
dirname_rooted [] name h k = rw (before_last_name name k.2) refl
dirname_rooted (d ∷ dirs) name h k =
    rw (join_snoc d dirs name, before_last-append (join (d ∷ dirs)) name k.2) refl

basename_relative :
    (dirs : List Bytes) (name : Bytes)
    → Names dirs
    → IsName name
    → host.basename (relative_path dirs name) ≡ name
unfolding join
basename_relative [] name h k = after_last_name name name k.2
basename_relative (d ∷ dirs) name h k =
    rw (join_snoc d dirs name) (after_last-append _ (join (d ∷ dirs)) name k.2)

basename_rooted :
    (dirs : List Bytes) (name : Bytes)
    → Names dirs
    → IsName name
    → host.basename (rooted_path dirs name) ≡ name
unfolding join
basename_rooted [] name h k = after_last-append (slash ∷ name) [] name k.2
basename_rooted (d ∷ dirs) name h k = rw (join_snoc d dirs name) (
    after_last-append (slash ∷ (join (d ∷ dirs) ++ (slash ∷ name))) (slash ∷ join (d ∷ dirs)) name
      k.2)

pub host-IsSplit : IsSplit host
host-IsSplit = record {
  dirname_relative = dirname_relative;
  dirname_rooted = dirname_rooted;
  basename_relative = basename_relative;
  basename_rooted = basename_rooted;
}
