-- ===== src/Tests/Accessor.antt =====
-- The volume of the tests with access bits that are listed, and the theorem about chmod there.
use fuseadf.Prelude.{
  ◌≡◌, refl, ap, ◌∙◌, Bool-cases, inl, inr, Bool, true, false, some, [], ◌∷◌, Bytes, codes, pos,
  eqb_ℤ, strcmp_eq, if◌then◌else◌, arith,
}
use mathlib.Core.Option.{some-injective}
use mathlib.Core.Path.{subst}
use fuseadf.Adflib.{Adflib, AdfEntry, st_file}
use fuseadf.Adflib.Laws.{IsPositionFree}
use fuseadf.Image.Dentry.{adflib_list_find}
use fuseadf.Image.Perm.Laws.{IsAccess}
use fuseadf.Fs.{adffs_chmod}
use fuseadf.Fs.Attr.{file_mode, adffs_getattr}
use fuseadf.Named.{rooted_path, entry_here}
use fuseadf.Named.Chmod.Later.{FileAt, IsAccessStore, with_access, granted, getattr-chmod}
use fuseadf.Tests.Toy.{
  Toy, toy_IsAccess, root_sector, inner_dir, root_file, inner_file, inner_image, wrote,
}
use fuseadf.Tests.Host.{host}
use fuseadf.Tests.Split.{host-IsSplit}
use fuseadf.Tests.Store.{stand}
use fuseadf.Tests.Variant.{variant, variant_IsDirectory, variant_KeepsOnFailure, variant-located}
use fuseadf.Tests.Names.{in_d, d_Names, letter}

-- The file `f` of the root or of `d`, with the bits of the volume.
abbrev file_of : Bool → Toy → AdfEntry
file_of true v = record root_file { access = v.access }
file_of false v = record inner_file { access = v.access }

abbrev accessor : Adflib
accessor =
    variant
      (λ v s. if eqb_ℤ s root_sector then inner_dir ∷ file_of true v ∷ [] else file_of false v ∷ [])
      (λ v s a t b. (pos 0, wrote v))

accessor_IsPositionFree : IsPositionFree accessor
accessor_IsPositionFree = record {
  root_block_free = λ v. refl;
  read_only_free = λ v. refl;
  datablock_size_free = λ v. refl;
  first_block_free = λ v. refl;
  last_block_free = λ v. refl;
  count_free_blocks_free = λ v. refl;
  read_root_block_free = λ v s. refl;
  read_entry_block_free = λ v s. refl;
  write_entry_block_free = λ v s b. refl;
  to_root-write_entry_block = λ v s b. refl;
  rename_entry_free = λ v s a t b. refl;
  to_root-rename_entry = λ v s a t b. refl;
  file_truncate_free = λ f n v. (refl, refl);
  to_root-file_truncate = λ f n v. refl;
  to_root-file_close = λ f v. refl;
}

accessor_IsAccess : IsAccess accessor
accessor_IsAccess = record {
  mask_r_ne_zero = toy_IsAccess.mask_r_ne_zero;
  mask_w_ne_zero = toy_IsAccess.mask_w_ne_zero;
  mask_e_ne_zero = toy_IsAccess.mask_e_ne_zero;
  has_r_zero = toy_IsAccess.has_r_zero;
  has_w_zero = toy_IsAccess.has_w_zero;
  has_e_zero = toy_IsAccess.has_e_zero;
  has_r_set = toy_IsAccess.has_r_set;
  has_w_set = toy_IsAccess.has_w_set;
  has_e_set = toy_IsAccess.has_e_set;
  has_r_w = toy_IsAccess.has_r_w;
  has_r_e = toy_IsAccess.has_r_e;
  has_w_e = toy_IsAccess.has_w_e;
}

-- A file that is listed is `f`, and is listed whatever the bits are.
still_listed :
    (b : Bool) (v v' : Toy) (name : Bytes) (e : AdfEntry)
    → entry_here accessor (stand b v) name ≡ some e
    → e.sec_type ≡ st_file
    → entry_here accessor (stand b v') name ≡ some (file_of b v')
unfolding adflib_list_find
still_listed true v v' name e here is_file = elim (Bool-cases (strcmp_eq (codes "d") name)) [
  | inl same ↦
      let first : some inner_dir ≡ some e = rw same at here in
      absurd (cc (ap (λ (x : AdfEntry). x.sec_type) (some-injective _ _ first) ∙ is_file))
  | inr other ↦ elim (Bool-cases (strcmp_eq (codes "f") name)) [
    | inl f ↦ rw (other, f) refl
    | inr no_f ↦ absurd (cc (rw (other, no_f) at here))
  ]
]
still_listed false v v' name e here is_file = elim (Bool-cases (strcmp_eq (codes "f") name)) [
  | inl f ↦ rw f refl
  | inr no_f ↦ absurd (cc (rw no_f at here))
]

kind_of : (b : Bool) (v : Toy) → (file_of b v).sec_type ≡ st_file
kind_of true v = refl
kind_of false v = refl

bits_of : (b : Bool) (v : Toy) → (file_of b v).access ≡ v.access
bits_of true v = refl
bits_of false v = refl

accessor_IsAccessStore : IsAccessStore accessor
accessor_IsAccessStore = record {
  access_written = λ v dirs name a file ok ok'.
      let (b, same, all) = variant-located _ _ v dirs (file.there) (file.found) in
      let w = (with_access accessor v (file.entry) a).1 in
      (
        record {
          there = stand b w;
          entry = file_of b w;
          found = all w;
          listed =
              still_listed b v w name (file.entry)
                (subst (λ t. entry_here accessor t name ≡ some (file.entry)) same (file.listed))
                (file.is_file);
          is_file = kind_of b w;
        },
        bits_of b w,
      );
}

f_FileAt : FileAt accessor inner_image.vol in_d (codes "f")
unfolding fuseadf.Workdir.descend strcmp_eq adflib_list_find
f_FileAt = record {
  there = stand false (inner_image.vol);
  entry = file_of false (inner_image.vol);
  found = refl;
  listed = refl;
  is_file = refl;
}

-- Execution is asked for, without reading and writing.
answered : (adffs_chmod accessor host (rooted_path in_d (codes "f")) 0o100 inner_image).0 ≡ pos 0
unfolding adffs_chmod fuseadf.Image.Perm.setperm fuseadf.Image.Dentry.adfimage_dentry_valid
    fuseadf.Image.Dentry.getdentry strcmp_eq fuseadf.Workdir.Paths.join fuseadf.Path.path_create
    fuseadf.Image.Dentry.lookup_dentry fuseadf.Image.enter_dirpath fuseadf.Image.chdir
    fuseadf.Pathstr.pathstr_get_relative fuseadf.Image.enter_dirs fuseadf.Image.components
    fuseadf.Image.append_dir adflib_list_find fuseadf.Image.Dentry.dentry_type
    fuseadf.Image.Perm.rewrite_access fuseadf.Fs.perms_of_mode fuseadf.Image.Dentry.get_root_dentry
    fuseadf.Image.Perm.new_access fuseadf.Image.leave_dirpath fuseadf.Image.to_root
answered = refl

getattr-chmod_example :
    let path = rooted_path in_d (codes "f") in
    let (status, st) =
      (adffs_getattr accessor host path (adffs_chmod accessor host path 0o100 inner_image).1).0 in
    (status ≡ pos 0) × (st.st_mode ≡ file_mode (granted 0o100))
unfolding fuseadf.Path.path_create
getattr-chmod_example =
    getattr-chmod accessor host host-IsSplit (variant_IsDirectory _ _) accessor_IsPositionFree
      (variant_KeepsOnFailure _ _) accessor_IsAccess accessor_IsAccessStore in_d (codes "f") 0o100
      inner_image d_Names (letter b'f' (omega arith)) (_, refl) (_, refl) f_FileAt answered
