-- ===== src/Image/Perm.antt =====
-- Permissions in src/adfimage.c: `adfimage_getperm` and `adfimage_setperm`.
pub mod Laws
use fuseadf.Prelude.{
  ℕ, zero, suc, Bool, true, false, not, bit_and, bit_or, Bytes, ◌==◌, if◌then◌else◌,
}
use fuseadf.Libc.{Libc}
use fuseadf.Adflib.{Adflib, EntryBlock, is_ok}
use fuseadf.Image.{Image}
use fuseadf.Image.Dentry.{Dentry, adfimage_dentry_valid, getdentry}

abbrev pub adf_perm_read : ℕ
adf_perm_read = 1

abbrev pub adf_perm_write : ℕ
adf_perm_write = 2

abbrev pub adf_perm_execute : ℕ
adf_perm_execute = 4

-- A number as a condition.
abbrev pub is_set : ℕ → Bool
is_set n = not (n == 0)

-- `!n`, the logical negation.
abbrev pub lnot : ℕ → ℕ
lnot zero = 1
lnot (suc n) = 0

module _ (L : Adflib) where
  open L use {
    Vol, acc_has_r, acc_has_w, acc_has_e, accmask_r, accmask_w, accmask_e, read_entry_block,
    write_entry_block,
  }

  unfoldable pub access_perms : ℕ → ℕ
  access_perms access =
      bit_or
        (bit_or (if acc_has_r access then 0 else adf_perm_read)
          (if acc_has_w access then 0 else adf_perm_write))
        (if acc_has_e access then 0 else adf_perm_execute)

  unfoldable pub getperm : Dentry → ℕ
  unfolding access_perms
  getperm dentry = access_perms dentry.adflib_entry.access

  -- `access &= !mask` or `access |= mask`.
  abbrev pub set_access : Bool → ℕ → ℕ → ℕ
  set_access granted mask access =
      if granted then bit_and access (lnot mask) else bit_or access mask

  -- The three assignments to `entryBlock.access`.
  unfoldable pub new_access : ℕ → ℕ → ℕ
  new_access perms access = set_access (is_set (bit_and perms adf_perm_execute)) accmask_e (
      set_access (is_set (bit_and perms adf_perm_write)) accmask_w
        (set_access (is_set (bit_and perms adf_perm_read)) accmask_r access))

  module _ (C : Libc) where
    -- Read the block, set its access bits and write it back.
    unfoldable pub rewrite_access : Dentry → ℕ → Image Vol → Bool × Image Vol
    rewrite_access dentry perms img =
        let (rc, block) = read_entry_block img.vol dentry.adflib_entry.sector in
        let block' : EntryBlock = record block { access = new_access perms block.access } in
        let (rc', v) = write_entry_block img.vol dentry.adflib_entry.sector block' in
        if is_ok rc then (is_ok rc', record img { vol = v }) else (false, img)

    unfoldable pub setperm : Bytes → ℕ → Image Vol → Bool × Image Vol
    setperm path perms img =
        let (dentry, img') = getdentry L C path img in
        if adfimage_dentry_valid dentry then rewrite_access dentry perms img' else (false, img')
