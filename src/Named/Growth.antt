-- ===== src/Named/Growth.antt =====
-- What mkdir, rmdir, unlink and create of src/adfimage.c do to `cwd`: they take the volume to its root
-- and leave the string as it is, and the change of directory appends to it.
use fuseadf.Prelude.{
  suc, ◌+◌, ◌*◌, ◌≤◌, ◌≡◌, refl, ap, ◌∙◌, Bool, true, false, not, some, List, [], ◌∷◌, ◌++◌, Bytes,
  ℤ, arith, length, length-append, strcmp_eq, if◌then◌else◌,
}
use fuseadf.Libc.{Libc}
use fuseadf.Adflib.{Adflib}
use fuseadf.Adflib.Laws.{IsDirectory}
use fuseadf.Image.{Image, max_path, root_path}
use fuseadf.Workdir.{IsName, Names, render}
use fuseadf.Named.{rooted_path, IsSplit, locate}
use fuseadf.Named.Change.{
  Change, request, adflib_call, request-in_parent, in_parent_found, error_at_root,
}

-- Each directory adds at least one byte.
length-render :
    (cwd : Bytes) (dirs : List Bytes)
    → Names dirs
    → length cwd + length dirs ≤ length (render cwd dirs)
unfolding render
length-render cwd [] h = omega arith
length-render cwd ([] ∷ dirs) h = absurd (h.0.0 refl)
length-render cwd ((c ∷ d) ∷ dirs) h =
    let next = (if not (strcmp_eq cwd root_path) then cwd ++ root_path else cwd) ++ (c ∷ d) in
    omega (arith, length-render next dirs h.1, longer (strcmp_eq cwd root_path))
  where
    longer :
        (b : Bool)
        → suc (length cwd) ≤ length ((if not b then cwd ++ root_path else cwd) ++ (c ∷ d))
    longer true = omega (arith, length-append {0} cwd (c ∷ d))
    longer false =
        omega (arith, length-append {0} (cwd ++ root_path) (c ∷ d), length-append {0} cwd root_path)

module _ (L : Adflib) (C : Libc) where
  open L use {Vol, to_root_dir, cur_dir_ptr}

  -- Requests for entries of one directory, one after the other.
  unfoldable pub requests : List Bytes → List (Change × Bytes) → Image Vol → Image Vol
  requests dirs [] img = img
  requests dirs ((c, name) ∷ changes) img =
      requests dirs changes (request L C c (rooted_path dirs name) img).1

  -- Making and removing entries of a directory leaves the way to the directory.
  pub record KeepsWay : Type 0 where
    pub way_kept :
        (c : Change) (v : Vol) (dirs : List Bytes) (name : Bytes) (there : Vol)
        → locate L v dirs ≡ some there
        → (there' : Vol) × (locate L (adflib_call L C c there (cur_dir_ptr there) name).1 dirs
            ≡ some there')

  abbrev pub AllNames : List (Change × Bytes) → Type 0
  AllNames [] = Unit
  AllNames ((c, name) ∷ changes) = IsName name × AllNames changes

  -- Every such request makes `cwd` longer by at least a byte for each directory of the path.
  cwd_grows :
      (D : IsDirectory L) (P : IsSplit C) (K : KeepsWay) (dirs : List Bytes)
      (changes : List (Change × Bytes)) (img : Image Vol) (there : Vol)
      → Names dirs
      → AllNames changes
      → locate L img.vol dirs ≡ some there
      → length img.cwd + length changes * length dirs ≤ length (requests dirs changes img).cwd
  unfolding requests
  cwd_grows D P K dirs [] img there h k found = omega arith
  cwd_grows D P K dirs ((c, name) ∷ changes) img there h k found =
      let next : Image Vol = (request L C c (rooted_path dirs name) img).1 in
      let shape =
        request-in_parent L C c (rooted_path dirs name) img
        ∙ in_parent_found L C P (error_at_root L C c) (adflib_call L C c) dirs name img there h k.0
            found in
      let cwd : next.cwd ≡ render img.cwd dirs = ap (λ (r : ℤ × Image Vol). r.1.cwd) shape in
      let vol : next.vol ≡ to_root_dir (adflib_call L C c there (cur_dir_ptr there) name).1 =
        ap (λ (r : ℤ × Image Vol). r.1.vol) shape in
      let (there', found') = K.way_kept c img.vol dirs name there found in
      let located : locate L next.vol dirs ≡ some there' =
        rw (vol, D.to_root-to_root (adflib_call L C c there (cur_dir_ptr there) name).1) found' in
      omega (
        arith,
        cwd_grows D P K dirs changes next there' h k.1 located,
        length-render img.cwd dirs h,
        ap length cwd,
      )

  -- `cwd` outgrows its buffer: after as many requests to make or remove entries as ADFIMAGE_MAX_PATH,
  -- in a directory below the root that exists and with no other request between them, the string has
  -- at least as many bytes as the buffer, without its NUL, whatever ADFlib answers. ADFlib meets
  -- `IsDirectory` and `KeepsWay`, and the C library `IsSplit`.
  pub cwd_overflows :
      (D : IsDirectory L) (P : IsSplit C) (K : KeepsWay) (d : Bytes) (ds : List Bytes)
      (changes : List (Change × Bytes)) (img : Image Vol) (there : Vol)
      → Names (d ∷ ds)
      → AllNames changes
      → locate L img.vol (d ∷ ds) ≡ some there
      → max_path ≤ length changes
      → max_path ≤ length (requests (d ∷ ds) changes img).cwd
  cwd_overflows D P K d ds changes img there h k found many =
      let grown = cwd_grows D P K (d ∷ ds) changes img there h k found in grind (arith, grown)
