-- ===== src/Named/Later.antt =====
-- What a request of src/adffs.c finds of the entries that earlier requests made or removed.
use fuseadf.Prelude.{
  ℕ, ◌≤◌, ◌≡◌, refl, ap, sym, ◌∙◌, Bool, true, false, Bool-cases, none, some, Option-cases, inl,
  inr, List, Bytes, ℤ, pos, neg, length,
}
use fuseadf.Libc.{Libc, enoent}
use fuseadf.Adflib.{Adflib, AdfEntry, is_ok}
use fuseadf.Adflib.Laws.{IsDirectory}
use fuseadf.Path.{PathT, path_create}
use fuseadf.Image.{Image}
use fuseadf.Fs.Attr.{adffs_getattr}
use fuseadf.Workdir.{IsName, Names}
use fuseadf.Named.{rooted_path, IsSplit, locate, entry_here, entry_at, change_at}
use fuseadf.Named.Change.{
  Change, make_dir, remove_dir, remove_file, make_file, request, adflib_call, error_at_root,
  request-in_parent, request_refines, in_parent_found,
}
use fuseadf.Named.Attr.{presence, getattr_presence}

-- The longest name of an entry.
abbrev pub max_name : ℕ
max_name = 30

module _ (L : Adflib) where
  open L use {Vol, to_root_dir, cur_dir_ptr, create_dir, create_file, remove_entry}

  -- In a directory where the names still lead, an entry that is there or not.
  abbrev pub Lists : Vol → List Bytes → Bytes → Type 0
  Lists v dirs name =
      (there : Vol) × (entry : AdfEntry) × (locate L v dirs ≡ some there)
      × (entry_here L there name ≡ some entry)

  abbrev pub Lacks : Vol → List Bytes → Bytes → Type 0
  Lacks v dirs name =
      (there : Vol) × (locate L v dirs ≡ some there) × (entry_here L there name ≡ none)

  -- What ADFlib documents: an entry that was made with success is in its directory, by its name if
  -- that is not cut off, and one that was removed is not.
  pub record IsStore : Type 0 where
    pub create_dir-Lists :
        (v : Vol) (dirs : List Bytes) (name : Bytes) (there : Vol)
        → locate L v dirs ≡ some there
        → IsName name
        → length name ≤ max_name
        → is_ok (create_dir there (cur_dir_ptr there) name).0 ≡ true
        → Lists (create_dir there (cur_dir_ptr there) name).1 dirs name
    pub create_file-Lists :
        (v : Vol) (dirs : List Bytes) (name : Bytes) (there : Vol)
        → locate L v dirs ≡ some there
        → IsName name
        → length name ≤ max_name
        → is_ok (create_file there (cur_dir_ptr there) name).0 ≡ true
        → Lists (create_file there (cur_dir_ptr there) name).1 dirs name
    pub remove_entry-Lacks :
        (v : Vol) (dirs : List Bytes) (name : Bytes) (there : Vol)
        → locate L v dirs ≡ some there
        → IsName name
        → is_ok (remove_entry there (cur_dir_ptr there) name).0 ≡ true
        → Lacks (remove_entry there (cur_dir_ptr there) name).1 dirs name

  -- The requests that make an entry, and those that remove one.
  abbrev pub makes : Change → Bool
  makes make_dir = true
  makes make_file = true
  makes remove_dir = false
  makes remove_file = false

  abbrev pub Left : Bool → Vol → List Bytes → Bytes → Type 0
  Left true = Lists
  Left false = Lacks

  abbrev pub outcome : Bool → ℤ
  outcome true = pos 0
  outcome false = neg enoent

  pub Left-presence :
      (made : Bool) (v : Vol) (dirs : List Bytes) (name : Bytes)
      → Left made v dirs name
      → presence (entry_at L v dirs name) ≡ outcome made
  Left-presence true v dirs name (there, entry, found, here) = rw (found, here) refl
  Left-presence false v dirs name (there, found, here) = rw (found, here) refl

  module _ (C : Libc) (S : IsStore) where
    adflib_call-Left :
        (c : Change) (v : Vol) (dirs : List Bytes) (name : Bytes) (there : Vol)
        → locate L v dirs ≡ some there
        → IsName name
        → length name ≤ max_name
        → (adflib_call L C c there (cur_dir_ptr there) name).0 ≡ pos 0
        → Left (makes c) (adflib_call L C c there (cur_dir_ptr there) name).1 dirs name
    unfolding adflib_call
    adflib_call-Left make_dir v dirs name there found k short ok =
        S.create_dir-Lists v dirs name there found k short (rw ok refl)
    adflib_call-Left make_file v dirs name there found k short ok =
        S.create_file-Lists v dirs name there found k short
          (elim (Bool-cases (is_ok (create_file there (cur_dir_ptr there) name).0)) [
            | inl e ↦ e
            | inr e ↦ absurd (cc (rw e at ok))
          ])
    adflib_call-Left remove_dir v dirs name there found k short ok =
        S.remove_entry-Lacks v dirs name there found k (rw ok refl)
    adflib_call-Left remove_file v dirs name there found k short ok =
        S.remove_entry-Lacks v dirs name there found k (rw ok refl)

    -- An entry is there after the request that made it and gone after the one that removed it: if
    -- mkdir, create, rmdir or unlink answers 0 for a path, then `adffs_getattr` for that path, in the
    -- image that the request leaves, answers 0 after the first two and -ENOENT after the others. The
    -- name is not longer than ADFlib stores, the allocations for it succeed, ADFlib meets
    -- `IsDirectory` and `IsStore`, and the C library `IsSplit`.
    pub getattr-request :
        (D : IsDirectory L) (P : IsSplit C) (c : Change) (dirs : List Bytes) (name : Bytes)
        (path : PathT) (img : Image Vol)
        → Names dirs
        → IsName name
        → length name ≤ max_name
        → path_create C name ≡ some path
        → (request L C c (rooted_path dirs name) img).0 ≡ pos 0
        → (adffs_getattr L C
            (rooted_path dirs name)
            (request L C c (rooted_path dirs name) img).1).0.0
          ≡ outcome (makes c)
    getattr-request D P c dirs name path img h k short created ok =
        getattr_presence L C P dirs name path (request L C c (rooted_path dirs name) img).1 h k
          created
        ∙ elim (Option-cases (locate L img.vol dirs)) [
          | inl e ↦
              let missing = rw (e, change_at) at (request_refines L C D P c dirs name img h k) in
              absurd (cc (ap (λ (r : ℤ × Vol). r.0) missing, ok))
          | inr (there, e) ↦
              let call = adflib_call L C c there (cur_dir_ptr there) name in
              let shape =
                request-in_parent L C c (rooted_path dirs name) img
                ∙ in_parent_found L C P (error_at_root L C c) (adflib_call L C c) dirs name img
                    there h k e in
              let left : Left (makes c) call.1 dirs name =
                adflib_call-Left c img.vol dirs name there e k short
                  (sym (ap (λ (r : ℤ × Image Vol). r.0) shape) ∙ ok) in
              rw (ap (λ (r : ℤ × Image Vol). r.1.vol) shape, D.to_root-to_root call.1)
                (Left-presence (makes c) call.1 dirs name left)
        ]
