-- ===== src/Tests/Mover.antt =====
-- The volume of the tests with a rename that moves files. The directory `d` is always listed.
use fuseadf.Prelude.{
  ◌≡◌, ◌≢◌, ◌⊎◌, refl, sym, ap, ◌∙◌, Bool-cases, inl, inr, Bool, true, false, none, some, List, [],
  ◌∷◌, Bytes, codes, ℤ, pos, eqb_ℤ, strcmp_eq, strcmp_eq→eq, if◌then◌else◌,
}
use mathlib.Core.Option.{some-injective}
use mathlib.Core.Path.{subst, subst₂}
use fuseadf.Adflib.{Adflib, AdfEntry, st_file, is_ok}
use fuseadf.Adflib.Laws.{IsDirectory, IsPositionFree}
use fuseadf.Image.Dentry.{adflib_list_find}
use fuseadf.Named.{locate, entry_here}
use fuseadf.Named.Later.{Lists, Lacks}
use fuseadf.Named.Rename.Located.{KeepsSector}
use fuseadf.Named.Rename.Later.{IsMover, moved}
use fuseadf.Tests.Toy.{Toy, root_sector, inner_dir, entry, wrote, without}
use fuseadf.Tests.Variant.{variant, variant_IsDirectory, variant-located}
use fuseadf.Tests.Store.{stand, lost, found_first}

-- Changes the entries of the root or of `d`.
abbrev pub placed : Bool → (List AdfEntry → List AdfEntry) → Toy → Toy
placed root f v = record v {
  root_entries = if root then f v.root_entries else v.root_entries;
  inner_entries = if root then v.inner_entries else f v.inner_entries;
}

abbrev pub file_named : Bytes → AdfEntry
file_named name = entry st_file name 904

abbrev pub move_file : Bool → Bytes → Bool → Bytes → Toy → Toy
move_file a src b dst v =
    placed b (λ es. file_named dst ∷ es) (placed a (λ es. without src es) (wrote v))

abbrev is_root : ℤ → Bool
is_root s = eqb_ℤ s root_sector

abbrev pub mover : Adflib
mover =
    variant
      (λ v s.
        if is_root s
        then inner_dir ∷ v.root_entries
        else if eqb_ℤ s (pos 882)
        then v.inner_entries
        else [])
      (λ v s src t dst. (pos 0, move_file (is_root s) src (is_root t) dst v))

pub mover_IsDirectory : IsDirectory mover
mover_IsDirectory = variant_IsDirectory _ _

pub mover_IsPositionFree : IsPositionFree mover
mover_IsPositionFree = record {
  root_block_free = λ v. refl;
  read_only_free = λ v. refl;
  datablock_size_free = λ v. refl;
  first_block_free = λ v. refl;
  last_block_free = λ v. refl;
  count_free_blocks_free = λ v. refl;
  read_root_block_free = λ v s. refl;
  read_entry_block_free = λ v s. refl;
  write_entry_block_free = λ v s b. refl;
  to_root-write_entry_block = λ v s b. refl;
  rename_entry_free = λ v s a t b. refl;
  to_root-rename_entry = λ v s a t b. refl;
  file_truncate_free = λ f n v. (refl, refl);
  to_root-file_truncate = λ f n v. refl;
  to_root-file_close = λ f v. refl;
}

-- The only directory that can be entered is `d`, and it is no link.
entered :
    (b : Bool) (v : Toy) (dir : Bytes) (e : AdfEntry)
    → entry_here mover (stand b v) dir ≡ some e
    → is_ok (mover.change_dir (stand b v) dir).0 ≡ true
    → (inner_dir ≡ e) × (mover.cur_dir_ptr (mover.change_dir (stand b v) dir).1 ≡ inner_dir.sector)
unfolding adflib_list_find strcmp_eq
entered false v dir e here ok = absurd (cc ok)
entered true v dir e here ok = elim (Bool-cases (strcmp_eq dir (codes "d"))) [
  | inl same ↦
      let d = strcmp_eq→eq dir (codes "d") same in
      let first : some inner_dir ≡ some e =
        subst (λ n. entry_here mover (stand true v) n ≡ some e) d here in
      rw same (some-injective _ _ first, refl)
  | inr other ↦ absurd (cc (rw other at ok))
]

pub mover_KeepsSector : KeepsSector mover
mover_KeepsSector = record {
  root_sector = λ v. refl;
  entered_dir = λ v dir e here ok kind.
      let (same, at) = entered v.at_root v dir e here ok in
      at ∙ ap (λ (x : AdfEntry). x.sector) same;
  entered_link = λ v dir e here ok kind.
      let (same, _) = entered v.at_root v dir e here ok in
      absurd (cc (ap (λ (x : AdfEntry). x.sec_type) same ∙ kind));
}

-- A volume stands where names lead, whatever it holds.
leads :
    (v : Toy) (dirs : List Bytes) (there : Toy)
    → locate mover v dirs ≡ some there
    → (at_root : Bool) × (there ≡ stand at_root v)
      × ((v' : Toy) → locate mover v' dirs ≡ some (stand at_root v'))
leads = variant-located _ _

-- What is renamed is behind `d` in the root and first in `d`.
find_second :
    (dst : Bytes) (es : List AdfEntry)
    → (e : AdfEntry) × (adflib_list_find (inner_dir ∷ file_named dst ∷ es) dst ≡ some e)
unfolding adflib_list_find
find_second dst es = elim (Bool-cases (strcmp_eq (codes "d") dst)) [
  | inl same ↦ (inner_dir, rw same)
  | inr other ↦ (file_named dst, rw (other, found_first (file_named dst) es))
]

arrived :
    (a b : Bool) (src dst : Bytes) (v : Toy)
    → (e : AdfEntry) × (entry_here mover (stand b (move_file a src b dst v)) dst ≡ some e)
arrived a true src dst v = find_second dst _
arrived a false src dst v = (file_named dst, found_first (file_named dst) _)

sector_is : (b : Bool) → is_root (if b then root_sector else pos 882) ≡ b
sector_is true = refl
sector_is false = refl

-- The directory `d` is no file, and another name is not found.
not_d :
    (v : Toy) (name : Bytes) (e : AdfEntry)
    → entry_here mover (stand true v) name ≡ some e
    → e.sec_type ≡ st_file
    → strcmp_eq (codes "d") name ≡ false
unfolding adflib_list_find
not_d v name e here is_file = elim (Bool-cases (strcmp_eq (codes "d") name)) [
  | inl same ↦
      let first : some inner_dir ≡ some e = rw same at here in
      absurd (cc (ap (λ (x : AdfEntry). x.sec_type) (some-injective _ _ first) ∙ is_file))
  | inr other ↦ other
]

other_name : (a b : Bytes) → a ≢ b → strcmp_eq b a ≡ false
other_name a b differ = elim (Bool-cases (strcmp_eq b a)) [
  | inl same ↦ absurd (differ (sym (strcmp_eq→eq b a same)))
  | inr other ↦ other
]

added :
    (src dst : Bytes) (es : List AdfEntry)
    → src ≢ dst
    → adflib_list_find (file_named dst ∷ without src es) src ≡ none
unfolding adflib_list_find
added src dst es differ = rw (other_name src dst differ) (lost src es)

left_behind :
    (a b : Bool) (src dst : Bytes) (v : Toy) (e : AdfEntry)
    → entry_here mover (stand a v) src ≡ some e
    → e.sec_type ≡ st_file
    → (mover.cur_dir_ptr (stand a v) ≢ mover.cur_dir_ptr (stand b v)) ⊎ (src ≢ dst)
    → entry_here mover (stand a (move_file a src b dst v)) src ≡ none
unfolding adflib_list_find
left_behind true true src dst v e here is_file (inl differ) = absurd (differ refl)
left_behind true true src dst v e here is_file (inr differ) =
    rw (not_d v src e here is_file) (added src dst v.root_entries differ)
left_behind true false src dst v e here is_file differ =
    rw (not_d v src e here is_file) (lost src v.root_entries)
left_behind false true src dst v e here is_file differ = lost src v.inner_entries
left_behind false false src dst v e here is_file (inl differ) = absurd (differ refl)
left_behind false false src dst v e here is_file (inr differ) = added src dst v.inner_entries differ

module _ (v : Toy) (src_dirs : List Bytes) (src : Bytes) (dst_dirs : List Bytes) (dst : Bytes) where
  moves_to :
      (a b : Bool)
      → ((v' : Toy) → locate mover v' dst_dirs ≡ some (stand b v'))
      → Lists mover (moved mover v (stand a v) src (stand b v) dst).1 dst_dirs dst
  moves_to a b all =
      let (e, here) = arrived a b src dst (stand true v) in
      rw (sector_is a, sector_is b)
        (
          stand b (move_file a src b dst (stand true v)),
          e,
          all (move_file a src b dst (stand true v)),
          here,
        )

  moves_from :
      (a b : Bool) (e : AdfEntry)
      → ((v' : Toy) → locate mover v' src_dirs ≡ some (stand a v'))
      → entry_here mover (stand a v) src ≡ some e
      → e.sec_type ≡ st_file
      → (mover.cur_dir_ptr (stand a v) ≢ mover.cur_dir_ptr (stand b v)) ⊎ (src ≢ dst)
      → Lacks mover (moved mover v (stand a v) src (stand b v) dst).1 src_dirs src
  moves_from a b e all here is_file differ =
      rw (sector_is a, sector_is b)
        (
          stand a (move_file a src b dst (stand true v)),
          all (move_file a src b dst (stand true v)),
          left_behind a b src dst (stand true v) e here is_file differ,
        )

pub mover_IsMover : IsMover mover
mover_IsMover = record {
  moved-Lists = λ v src_dirs src dst_dirs dst from to move k short ok.
      let (a, same, _) = leads v src_dirs from move.from_found in
      let (b, same', all) = leads v dst_dirs to move.to_found in
      subst₂ (λ f t. Lists mover (moved mover v f src t dst).1 dst_dirs dst) (sym same) (sym same')
        (moves_to v src_dirs src dst_dirs dst a b all);
  moved-Lacks = λ v src_dirs src dst_dirs dst from to move differ ok.
      let (a, same, all) = leads v src_dirs from move.from_found in
      let (b, same', _) = leads v dst_dirs to move.to_found in
      subst₂ (λ f t. Lacks mover (moved mover v f src t dst).1 src_dirs src) (sym same) (sym same')
        (moves_from v src_dirs src dst_dirs dst a b (move.entry) all
          (subst (λ f. entry_here mover f src ≡ some (move.entry)) same (move.listed))
          (move.is_file)
          (subst₂ (λ f t. (mover.cur_dir_ptr f ≢ mover.cur_dir_ptr t) ⊎ (src ≢ dst)) same same'
            differ));
}
