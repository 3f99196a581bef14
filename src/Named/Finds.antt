-- ===== src/Named/Finds.antt =====
-- `adffs_getattr` of src/adffs.c against the entries that the directories list.
use fuseadf.Prelude.{
  ◌≡◌, refl, ap, sym, ◌∙◌, ◌⊎◌, inl, inr, Bool-cases, true, none, some, Option-cases, List, [], ◌∷◌,
  Bytes, pos, neg, strcmp_eq, strcmp_eq→eq, strcmp_eq_refl,
}
use mathlib.Core.List.{Memᴰ}
use mathlib.Core.List.Memᴰ
use fuseadf.Libc.{Libc, enoent}
use fuseadf.Adflib.{Adflib, AdfEntry}
use fuseadf.Path.{PathT, path_create}
use fuseadf.Image.{Image}
use fuseadf.Image.Dentry.{adflib_list_find}
use fuseadf.Fs.Attr.{adffs_getattr}
use fuseadf.Workdir.{IsName, Names}
use fuseadf.Named.{rooted_path, IsSplit, locate, entry_at}
use fuseadf.Named.Attr.{presence, getattr_presence}

-- An entry of that name is in the list.
abbrev Holds : List AdfEntry → Bytes → Type 0
Holds es name = (e : AdfEntry) × Memᴰ e es × (e.name ≡ name)

list_find_some :
    (es : List AdfEntry) (name : Bytes) (e : AdfEntry)
    → adflib_list_find es name ≡ some e
    → Holds es name
unfolding adflib_list_find
list_find_some [] name e h = absurd (cc h)
list_find_some (d ∷ es) name e h = elim (Bool-cases (strcmp_eq d.name name)) [
  | inl same ↦ (d, Memᴰ.head refl, strcmp_eq→eq d.name name same)
  | inr other ↦
      let (f, member, named) = list_find_some es name e (rw (adflib_list_find, other) at h) in
      (f, Memᴰ.tail member, named)
]

list_find_none :
    (es : List AdfEntry) (name : Bytes) → adflib_list_find es name ≡ none → Holds es name → ⊥
unfolding adflib_list_find
list_find_none [] name h (e, member, named) = Memᴰ.not-nil member
list_find_none (d ∷ es) name h (e, member, named) = elim (Bool-cases (strcmp_eq d.name name)) [
  | inl same ↦ absurd (cc (rw (adflib_list_find, same) at h))
  | inr other ↦ elim (Memᴰ.cases_cons member) [
    | inl first ↦
        let equal : strcmp_eq d.name name ≡ true =
          rw (sym (ap (λ (x : AdfEntry). x.name) first) ∙ named) (strcmp_eq_refl name) in
        absurd (cc (equal, other))
    | inr later ↦ list_find_none es name (rw (adflib_list_find, other) at h) (e, later, named)
  ]
]

module _ (L : Adflib) where
  open L use {Vol, cur_dir_ptr, get_dir_ent}

  -- The names lead to a directory that lists an entry of the name.
  abbrev pub Listed : Vol → List Bytes → Bytes → Type 0
  Listed v dirs name =
      (there : Vol) × (entry : AdfEntry) × (locate L v dirs ≡ some there)
      × Memᴰ entry (get_dir_ent there (cur_dir_ptr there))
      × (entry.name ≡ name)

  entry_at-some :
      (v : Vol) (dirs : List Bytes) (name : Bytes) (e : AdfEntry)
      → entry_at L v dirs name ≡ some e
      → Listed v dirs name
  entry_at-some v dirs name e h = elim (Option-cases (locate L v dirs)) [
    | inl missing ↦ absurd (cc (rw (entry_at, missing) at h))
    | inr (there, found) ↦
        let (entry, member, named) =
          list_find_some (get_dir_ent there (cur_dir_ptr there)) name e
            (rw (entry_at, found) at h) in
        (there, entry, found, member, named)
  ]

  entry_at-none :
      (v : Vol) (dirs : List Bytes) (name : Bytes)
      → entry_at L v dirs name ≡ none
      → Listed v dirs name
      → ⊥
  entry_at-none v dirs name h (there, entry, found, member, named) =
      list_find_none (get_dir_ent there (cur_dir_ptr there)) name (rw (entry_at, found) at h)
        (entry, member, named)

  module _ (C : Libc) (P : IsSplit C) where
    -- `adffs_getattr` finds exactly the entries that there are: for the path of an entry, from any
    -- image, its status is 0 and the names lead to a directory that lists an entry of that name, or
    -- its status is -ENOENT and they lead to no such directory. The allocations for the name succeed,
    -- and the C library meets `IsSplit`.
    pub getattr_finds :
        (dirs : List Bytes) (name : Bytes) (path : PathT) (img : Image Vol)
        → Names dirs
        → IsName name
        → path_create C name ≡ some path
        → let status = (adffs_getattr L C (rooted_path dirs name) img).0.0 in
          (status ≡ pos 0) × Listed img.vol dirs name
          ⊎ (status ≡ neg enoent) × (Listed img.vol dirs name → ⊥)
    getattr_finds dirs name path img h k created =
        let answer = getattr_presence L C P dirs name path img h k created in
        elim (Option-cases (entry_at L img.vol dirs name)) [
          | inl e ↦ inr (answer ∙ ap presence e, entry_at-none img.vol dirs name e)
          | inr (entry, e) ↦ inl (answer ∙ ap presence e, entry_at-some img.vol dirs name entry e)
        ]
