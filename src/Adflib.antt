-- ===== src/Adflib.antt =====
-- The interface of ADFlib that the program uses: its data, and a record of its operations over an
-- unknown volume (`struct AdfVolume` with the device behind it) and an unknown open file. An
-- operation that may write gives the new volume back; the others leave it alone.
pub mod Laws
use fuseadf.Prelude.{ℕ, Bool, true, false, Option, List, Bytes, ℤ, pos, eqb_ℤ}

-- ADF_RC_OK
abbrev pub rc_ok : ℤ
rc_ok = pos 0

abbrev pub is_ok : ℤ → Bool
is_ok rc = eqb_ℤ rc rc_ok

-- The values of ADF_ST_*, and any other.
pub data SecType : Type 0 where
  st_root st_dir st_file st_lfile st_ldir st_lsoft : SecType
  st_other : ℤ → SecType

-- ADF_FILE_MODE_*
pub data FileMode : Type 0 where
  mode_read mode_write : FileMode

-- `struct AdfEntry`, the fields that the program reads or sets.
pub record AdfEntry : Type 0 where
  pub sec_type : SecType
  pub name : Bytes
  pub sector : ℤ
  pub real : ℤ
  pub parent : ℤ
  pub access : ℕ
  pub year : ℤ
  pub month : ℤ
  pub days : ℤ
  pub hour : ℤ
  pub mins : ℤ
  pub secs : ℤ

-- `struct AdfEntryBlock`, also read as a `struct AdfLinkBlock`. `rest` are its other fields.
pub record EntryBlock : Type 0 where
  pub sec_type : SecType
  pub name : Bytes
  pub real_name : Bytes
  pub real_entry : ℤ
  pub access : ℕ
  pub hash_table : List ℤ
  pub rest : List ℕ

pub record Adflib : Type 1 where
  pub Vol : Type 0
  pub File : Type 0
  pub RootBlock : Type 0
  -- fields of `struct AdfVolume`
  pub cur_dir_ptr : Vol → ℤ
  pub root_block : Vol → ℤ
  pub read_only : Vol → Bool
  pub datablock_size : Vol → ℕ
  pub first_block : Vol → ℕ
  pub last_block : Vol → ℕ
  -- directories
  pub to_root_dir : Vol → Vol
  pub change_dir : Vol → Bytes → ℤ × Vol
  pub get_dir_ent : Vol → ℤ → List AdfEntry
  pub count_free_blocks : Vol → ℕ
  -- blocks
  pub read_root_block : Vol → ℤ → ℤ × RootBlock
  pub ent_block2entry : RootBlock → ℤ × AdfEntry
  pub read_entry_block : Vol → ℤ → ℤ × EntryBlock
  pub write_entry_block : Vol → ℤ → EntryBlock → ℤ × Vol
  pub name_to_entry_blk : Vol → List ℤ → Bytes → ℤ × EntryBlock
  -- entries
  pub create_dir : Vol → ℤ → Bytes → ℤ × Vol
  pub create_file : Vol → ℤ → Bytes → ℤ × Vol
  pub remove_entry : Vol → ℤ → Bytes → ℤ × Vol
  pub rename_entry : Vol → ℤ → Bytes → ℤ → Bytes → ℤ × Vol
  -- files
  pub file_open : Vol → Bytes → FileMode → Option File × Vol
  pub file_seek : File → ℕ → Vol → ℤ × File × Vol
  pub file_read : File → ℕ → Vol → Bytes × File × Vol
  pub file_write : File → ℕ → Bytes → Vol → ℕ × File × Vol
  pub file_truncate : File → ℕ → Vol → ℤ × File × Vol
  pub file_close : Option File → Vol → Vol
  pub byte_size : File → ℕ
  -- ADF_ACCMASK_R, _W and _E, and the tests adfAccHasR, adfAccHasW and adfAccHasE
  pub accmask_r : ℕ
  pub accmask_w : ℕ
  pub accmask_e : ℕ
  pub acc_has_r : ℕ → Bool
  pub acc_has_w : ℕ → Bool
  pub acc_has_e : ℕ → Bool
