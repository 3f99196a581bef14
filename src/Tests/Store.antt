-- ===== src/Tests/Store.antt =====
-- The volume of the tests keeps what is made in its directories.
use fuseadf.Prelude.{
  ◌≡◌, sym, ℕ, Bool-cases, refl, ◌∙◌, inl, inr, Bool, true, false, Option, none, some, List, [],
  ◌∷◌, Bytes, codes, strcmp_eq, strcmp_eq_refl, if◌then◌else◌, ◌&&◌, ℤ,
}
use mathlib.Core.Option.{some-injective}
use fuseadf.Adflib.{AdfEntry, SecType, is_ok, st_dir, st_file}
use fuseadf.Image.Dentry.{adflib_list_find}
use fuseadf.Workdir.{descend}
use fuseadf.Named.{locate, entry_here}
use fuseadf.Named.Change.{adflib_call}
use fuseadf.Named.Growth.{KeepsWay}
use fuseadf.Named.Later.{Lists, IsStore}
use fuseadf.Tests.Toy.{Toy, toy, changed, on_entries, wrote, without, entry}
use fuseadf.Tests.Host.{host}

abbrev pub stand : Bool → Toy → Toy
stand at_root v = record v { at_root = at_root }

descend_cons :
    (v : Toy) (d : Bytes) (dirs : List Bytes)
    → descend toy v (d ∷ dirs)
      ≡ (if v.at_root && strcmp_eq d (codes "d") then descend toy (stand false v) dirs else none)
unfolding descend
descend_cons v d dirs = go (v.at_root && strcmp_eq d (codes "d"))
  where
    go :
        (b : Bool)
        → (elim (is_ok (changed b v).0) as (λ _. Option Toy) [
          | true ↦ descend toy (changed b v).1 dirs
          | false ↦ none
        ])
          ≡ (if b then descend toy (stand false v) dirs else none)
    go true = refl
    go false = refl

descend_nil : (v : Toy) → descend toy v [] ≡ some v
unfolding descend
descend_nil v = refl

-- Names lead to the root or to `d`, whatever the volume holds.
pub located :
    (v : Toy) (dirs : List Bytes) (there : Toy)
    → locate toy v dirs ≡ some there
    → (at_root : Bool) × (there ≡ stand at_root v)
      × ((v' : Toy) → locate toy v' dirs ≡ some (stand at_root v'))
located v [] there h = (
  true,
  some-injective _ _ (sym h ∙ descend_nil (stand true v)),
  λ v'. descend_nil (stand true v'),
)
located v (d ∷ dirs) there h =
    go dirs (strcmp_eq d (codes "d")) (λ v'. descend_cons (stand true v') d dirs)
      (sym (descend_cons (stand true v) d dirs) ∙ h)
  where
    go :
        (dirs : List Bytes) (b : Bool)
        → ((v' : Toy)
            → locate toy v' (d ∷ dirs) ≡ (if b then descend toy (stand false v') dirs else none))
        → (if b then descend toy (stand false v) dirs else none) ≡ some there
        → (at_root : Bool) × (there ≡ stand at_root v)
          × ((v' : Toy) → locate toy v' (d ∷ dirs) ≡ some (stand at_root v'))
    go dirs false leads h = absurd (cc h)
    go [] true leads h = (
      false,
      some-injective _ _ (sym h ∙ descend_nil (stand false v)),
      λ v'. leads v' ∙ descend_nil (stand false v'),
    )
    go (e ∷ dirs) true leads h = absurd (cc (sym (descend_cons (stand false v) e dirs) ∙ h))

-- Whatever is changed among the entries, the names lead to the same directory.
pub toy_KeepsWay : KeepsWay toy host
toy_KeepsWay = record {
  way_kept = λ c v dirs name there found.
      let (at_root, same, leads) = located v dirs there found in
      let v' : Toy = (adflib_call toy host c there (toy.cur_dir_ptr there) name).1 in
      (stand at_root v', leads v');
}

pub found_first : (e : AdfEntry) (es : List AdfEntry) → adflib_list_find (e ∷ es) e.name ≡ some e
unfolding adflib_list_find
found_first e es = rw (strcmp_eq_refl e.name) refl

pub lost : (name : Bytes) (es : List AdfEntry) → adflib_list_find (without name es) name ≡ none
unfolding adflib_list_find
lost name [] = refl
lost name (e ∷ es) = elim (Bool-cases (strcmp_eq e.name name)) [
  | inl same ↦ rw same (lost name es)
  | inr other ↦ rw (other, adflib_list_find, other) (lost name es)
]

made :
    (create : Toy → ℤ → Bytes → ℤ × Toy) (kind : SecType) (at : ℕ)
    → ((at_root : Bool) (v : Toy) (name : Bytes)
        → let there = stand at_root v in
          entry_here toy (stand at_root (create there (toy.cur_dir_ptr there) name).1) name
          ≡ some (entry kind name at))
    → (v : Toy) (dirs : List Bytes) (name : Bytes) (there : Toy) → locate toy v dirs ≡ some there
    → Lists toy (create there (toy.cur_dir_ptr there) name).1 dirs name
made create kind at here v dirs name there found =
    let (at_root, same, leads) = located v dirs there found in
    let v' = (create there (toy.cur_dir_ptr there) name).1 in
    (stand at_root v', entry kind name at, leads v', rw same (here at_root v name))

on_found :
    (at_root : Bool) (e : AdfEntry) (v : Toy)
    → entry_here toy
        (stand at_root
          (on_entries (λ es. e ∷ es) (toy.cur_dir_ptr (stand at_root v)) (wrote (stand at_root v))))
        e.name
      ≡ some e
on_found true e v = found_first e v.root_entries
on_found false e v = found_first e v.inner_entries

gone :
    (at_root : Bool) (name : Bytes) (v : Toy)
    → entry_here toy
        (stand at_root
          (toy.remove_entry (stand at_root v) (toy.cur_dir_ptr (stand at_root v)) name).1)
        name
      ≡ none
gone true name v = lost name v.root_entries
gone false name v = lost name v.inner_entries

pub toy_IsStore : IsStore toy
toy_IsStore = record {
  create_dir-Lists = λ v dirs name there found k short ok.
      made (toy.create_dir) st_dir 902
        (λ at_root v name. on_found at_root (entry st_dir name 902) v) v dirs name there found;
  create_file-Lists = λ v dirs name there found k short ok.
      made (toy.create_file) st_file 903
        (λ at_root v name. on_found at_root (entry st_file name 903) v) v dirs name there found;
  remove_entry-Lacks = λ v dirs name there found k ok.
      let (at_root, same, leads) = located v dirs there found in
      let v' = (toy.remove_entry there (toy.cur_dir_ptr there) name).1 in
      (stand at_root v', leads v', rw same (gone at_root name v));
}
