-- ===== src/Tests/Toy.antt =====
-- A volume of two directories: the root holds the directory `d` and the file `f`, and `d` holds
-- another file `f`. Entries can be made and removed. It keeps the access bits last written to it and
-- how often it was written.
use fuseadf.Prelude.{
  ℕ, suc, ◌/◌, ◌%◌, ◌+◌, ◌≡◌, refl, Bool, true, false, ◌&&◌, Option, none, some, List, [], ◌∷◌,
  Bytes, codes, take, drop, ℤ, pos, neg, eqb_ℤ, strcmp_eq, ◌==◌, if◌then◌else◌, arith,
}
use fuseadf.Bits.{bit_or_two, bit_or_four, bit_or_eight}
use fuseadf.Adflib.{
  Adflib, AdfEntry, EntryBlock, FileMode, SecType, st_dir, st_file, st_root, is_ok,
}
use fuseadf.Adflib.Laws.{IsDirectory, IsPositionFree, KeepsOnFailure}
use fuseadf.Image.{Image}
use fuseadf.Image.Perm.Laws.{IsAccess}
use fuseadf.Named.Transfer.Back.{splice}

pub record Toy : Type 0 where
  pub at_root : Bool
  pub access : ℕ
  pub written : ℕ
  pub root_entries : List AdfEntry
  pub inner_entries : List AdfEntry
  pub root_text : Bytes
  pub inner_text : Bytes

abbrev pub root_sector : ℤ
root_sector = pos 880

abbrev pub entry : SecType → Bytes → ℕ → AdfEntry
entry kind entry_name at = record {
  sec_type = kind;
  name = entry_name;
  sector = pos at;
  real = pos 0;
  parent = pos 880;
  access = 0;
  year = pos 2020;
  month = pos 2;
  days = pos 29;
  hour = pos 12;
  mins = pos 0;
  secs = pos 0;
}

abbrev pub root_file : AdfEntry
root_file = entry st_file (codes "f") 901

abbrev pub inner_file : AdfEntry
inner_file = entry st_file (codes "f") 900

abbrev pub inner_dir : AdfEntry
inner_dir = entry st_dir (codes "d") 882

abbrev block : ℕ → EntryBlock
block bits = record {
  sec_type = st_file;
  name = codes "f";
  real_name = [];
  real_entry = pos 0;
  access = bits;
  hash_table = [];
  rest = [];
}

abbrev pub changed : Bool → Toy → ℤ × Toy
changed true v = (pos 0, record v { at_root = false })
changed false v = (neg 1, v)

abbrev pub wrote : Toy → Toy
wrote v = record v { written = suc v.written }

-- Changes the entries of a directory.
abbrev pub on_entries : (List AdfEntry → List AdfEntry) → ℤ → Toy → Toy
on_entries f s v =
    if eqb_ℤ s root_sector
    then record v { root_entries = f v.root_entries }
    else record v { inner_entries = f v.inner_entries }

abbrev pub without : Bytes → List AdfEntry → List AdfEntry
without old_name [] = []
without old_name (e ∷ es) =
    let rest = without old_name es in if strcmp_eq e.name old_name then rest else e ∷ rest

abbrev toy_change_dir : Toy → Bytes → ℤ × Toy
toy_change_dir v dir = changed (v.at_root && strcmp_eq dir (codes "d")) v

-- An open file: whether it is in the root, and its position.
abbrev toy_file_open : Toy → Bytes → FileMode → Option (Bool × ℕ) × Toy
toy_file_open v file_name mode =
    (if strcmp_eq file_name (codes "f") then some (v.at_root, 0) else none, v)

abbrev pub text_of : Bool → Toy → Bytes
text_of true v = v.root_text
text_of false v = v.inner_text

abbrev pub with_text : Bool → Bytes → Toy → Toy
with_text true text v = record v { root_text = text }
with_text false text v = record v { inner_text = text }

abbrev toy_file_write : Bool × ℕ → ℕ → Bytes → Toy → ℕ × (Bool × ℕ) × Toy
toy_file_write (in_root, at) n data' v = (
  n,
  (in_root, at + n),
  with_text in_root (splice at (take n data') (text_of in_root v)) (wrote v),
)

abbrev sector_of_name : Bytes → ℤ
sector_of_name entry_name =
    if strcmp_eq entry_name (codes "f")
    then pos 901
    else if strcmp_eq entry_name (codes "d")
    then pos 882
    else neg 1

abbrev pub toy : Adflib
toy = record {
  Vol = Toy;
  File = Bool × ℕ;
  RootBlock = ℕ;
  cur_dir_ptr = λ v. if v.at_root then root_sector else pos 882;
  root_block = λ v. root_sector;
  read_only = λ v. false;
  datablock_size = λ v. 488;
  first_block = λ v. 0;
  last_block = λ v. 1759;
  to_root_dir = λ v. record v { at_root = true };
  change_dir = toy_change_dir;
  get_dir_ent = λ v s.
      if eqb_ℤ s root_sector
      then v.root_entries
      else if eqb_ℤ s (pos 882)
      then v.inner_entries
      else [];
  count_free_blocks = λ v. 1000;
  read_root_block = λ v s. (pos 0, 0);
  ent_block2entry = λ r. (pos 0, entry st_root (codes "disk") 880);
  read_entry_block = λ v s. (pos 0, block v.access);
  write_entry_block = λ v s b. (pos 0, record (wrote v) { access = b.access });
  name_to_entry_blk = λ v table entry_name. (sector_of_name entry_name, block v.access);
  create_dir =
      λ v s new_name. (pos 0, on_entries (λ es. entry st_dir new_name 902 ∷ es) s (wrote v));
  create_file =
      λ v s new_name. (pos 0, on_entries (λ es. entry st_file new_name 903 ∷ es) s (wrote v));
  remove_entry = λ v s old_name. (pos 0, on_entries (without old_name) s (wrote v));
  rename_entry = λ v s old_name t new_name. (pos 0, wrote v);
  file_open = toy_file_open;
  file_seek = λ f n v. (pos 0, (f.0, n), v);
  file_read = λ f n v. (take n (drop f.1 (text_of f.0 v)), f, v);
  file_write = toy_file_write;
  file_truncate = λ f n v. (pos 0, f, wrote v);
  file_close = λ f v. v;
  byte_size = λ f. 5;
  accmask_r = 8;
  accmask_w = 4;
  accmask_e = 2;
  acc_has_r = λ a. a / 8 % 2 == 1;
  acc_has_w = λ a. a / 4 % 2 == 1;
  acc_has_e = λ a. a / 2 % 2 == 1;
}

to_root-changed : (b : Bool) (v : Toy) → toy.to_root_dir (changed b v).1 ≡ toy.to_root_dir v
to_root-changed true v = refl
to_root-changed false v = refl

pub toy_IsDirectory : IsDirectory toy
toy_IsDirectory = record {
  to_root-to_root = λ v. refl;
  to_root-change_dir = λ v dir. to_root-changed (v.at_root && strcmp_eq dir (codes "d")) v;
}

changed_failed : (b : Bool) (v : Toy) → is_ok (changed b v).0 ≡ false → (changed b v).1 ≡ v
changed_failed true v h = cc
changed_failed false v h = refl

pub toy_KeepsOnFailure : KeepsOnFailure toy
toy_KeepsOnFailure = record {
  change_dir_failed = λ v dir. changed_failed (v.at_root && strcmp_eq dir (codes "d")) v;
}

pub toy_IsPositionFree : IsPositionFree toy
toy_IsPositionFree = record {
  root_block_free = λ v. refl;
  read_only_free = λ v. refl;
  datablock_size_free = λ v. refl;
  first_block_free = λ v. refl;
  last_block_free = λ v. refl;
  count_free_blocks_free = λ v. refl;
  read_root_block_free = λ v s. refl;
  read_entry_block_free = λ v s. refl;
  write_entry_block_free = λ v s b. refl;
  to_root-write_entry_block = λ v s b. refl;
  rename_entry_free = λ v s a t b. refl;
  to_root-rename_entry = λ v s a t b. refl;
  file_truncate_free = λ f n v. (refl, refl);
  to_root-file_truncate = λ f n v. refl;
  to_root-file_close = λ f v. refl;
}

pub toy_IsAccess : IsAccess toy
toy_IsAccess = record {
  mask_r_ne_zero = omega arith;
  mask_w_ne_zero = omega arith;
  mask_e_ne_zero = omega arith;
  has_r_zero = refl;
  has_w_zero = refl;
  has_e_zero = refl;
  has_r_set = λ a. ground (arith, bit_or_eight a);
  has_w_set = λ a. ground (arith, bit_or_four a);
  has_e_set = λ a. ground (arith, bit_or_two a);
  has_r_w = λ a. ground (arith, bit_or_four a);
  has_r_e = λ a. ground (arith, bit_or_two a);
  has_w_e = λ a. ground (arith, bit_or_two a);
}

abbrev pub volume : Bool → Toy
volume at_root = record {
  at_root = at_root;
  access = 0;
  written = 0;
  root_entries = inner_dir ∷ root_file ∷ [];
  inner_entries = inner_file ∷ [];
  root_text = codes "hello";
  inner_text = codes "hello";
}

-- An image at the root, and one that an earlier call left in the directory `d`.
abbrev pub at_root_image : Image Toy
at_root_image = record { vol = volume true; cwd = codes "/"; blksize = 512 }

abbrev pub inner_image : Image Toy
inner_image = record { vol = volume false; cwd = codes "/d"; blksize = 512 }
