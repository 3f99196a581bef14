-- ===== src/Mount.antt =====
-- `adfimage_open`, `adfimage_close`, `mount_dev`, `mount_volume` and
-- `isBlockAllocationBitmapValid` of src/adfimage.c, as the calls of ADFlib and of the allocator that
-- they make, in order. What the calls answer is given in advance.
pub mod Ledger
use fuseadf.Prelude.{Bool, true, false, not, List, [], ◌∷◌, ◌++◌, ℤ, if◌then◌else◌, eqb_ℤ, ◌&&◌}
use fuseadf.Adflib.{is_ok, rc_ok}

pub data Call : Type 0 where
  lib_init lib_clean_up dev_open dev_close dev_mount dev_unmount : Call
  vol_mount vol_unmount read_root_block malloc_image free_image : Call

-- The answers: return codes, and whether a pointer is not NULL. `bitmap_valid` is the test of
-- `bmFlag` in the root block that was read.
pub record Answers : Type 0 where
  pub init_rc : ℤ
  pub device : Bool
  pub mount_rc : ℤ
  pub volume : Bool
  pub root_rc : ℤ
  pub bitmap_valid : Bool
  pub image : Bool

-- On an error the return code is returned as the truth value.
unfoldable pub is_bitmap_valid : Answers → Bool
is_bitmap_valid a = if not (is_ok a.root_rc) then not (eqb_ℤ a.root_rc rc_ok) else a.bitmap_valid

-- The calls, and whether the device is mounted.
unfoldable pub mount_dev : Answers → Bool × List Call
mount_dev a =
    if not a.device
    then (false, dev_open ∷ [])
    else if not (is_ok a.mount_rc)
    then (false, dev_open ∷ dev_mount ∷ dev_close ∷ [])
    else (true, dev_open ∷ dev_mount ∷ [])

unfoldable pub mount_volume : Answers → Bool × List Call
mount_volume a = (a.volume, vol_mount ∷ [])

abbrev pub cleanup_adflib : List Call
cleanup_adflib = lib_clean_up ∷ []

abbrev pub cleanup_dev : List Call
cleanup_dev = dev_unmount ∷ dev_close ∷ cleanup_adflib

abbrev pub cleanup_vol : List Call
cleanup_vol = vol_unmount ∷ cleanup_dev

-- With the volume mounted.
abbrev pub open_mounted : Bool → Answers → Bool × List Call
open_mounted read_only a =
    let reads = if read_only then [] else read_root_block ∷ [] in
    if not read_only && not (is_bitmap_valid a)
    then (false, reads ++ cleanup_vol)
    else if not a.image
    then (false, reads ++ (malloc_image ∷ cleanup_vol))
    else (true, reads ++ (malloc_image ∷ []))

abbrev pub after_calls : List Call → Bool × List Call → Bool × List Call
after_calls calls (ok, more) = (ok, calls ++ more)

unfoldable pub open_device : Bool → Answers → Bool × List Call
open_device read_only a =
    let (mounted, calls) = mount_volume a in
    after_calls calls (if not mounted then (false, cleanup_dev) else open_mounted read_only a)

unfoldable pub open_library : Bool → Answers → Bool × List Call
open_library read_only a =
    let (mounted, calls) = mount_dev a in
    after_calls calls (if not mounted then (false, cleanup_adflib) else open_device read_only a)

-- Whether an image is returned, and the calls made.
unfoldable pub adfimage_open : Bool → Answers → Bool × List Call
adfimage_open read_only a =
    after_calls (lib_init ∷ [])
      (if not (is_ok a.init_rc) then (false, []) else open_library read_only a)

-- The pointers in `adfimage_t` that are not NULL; `none` of the calls is made for no image.
unfoldable pub adfimage_close : Bool → Bool → Bool → List Call
adfimage_close image vol dev =
    if not image
    then []
    else (if vol then vol_unmount ∷ [] else [])
      ++ ((if dev then dev_unmount ∷ dev_close ∷ [] else []) ++ (free_image ∷ lib_clean_up ∷ []))
