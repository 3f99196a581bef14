-- ===== src/Mount/Ledger.antt =====
-- The resources behind the calls of `adfimage_open` and `adfimage_close`, with the order that ADFlib
-- asks for.
use fuseadf.Prelude.{
  Bool, true, false, not, ◌&&◌, ◌≡◌, refl, Option, none, some, List, [], ◌∷◌, ◌++◌, arith,
  if◌then◌else◌,
}
use fuseadf.Adflib.{is_ok}
use fuseadf.Mount.{
  Call, lib_init, lib_clean_up, dev_open, dev_close, dev_mount, dev_unmount, vol_mount, vol_unmount,
  read_root_block, malloc_image, free_image, Answers, is_bitmap_valid, mount_dev, mount_volume,
  open_device, open_library, adfimage_open, adfimage_close,
}

-- What is held.
pub record Held : Type 0 where
  pub library : Bool
  pub device_open : Bool
  pub device_mounted : Bool
  pub volume_mounted : Bool
  pub image_memory : Bool

abbrev pub nothing : Held
nothing = record {
  library = false;
  device_open = false;
  device_mounted = false;
  volume_mounted = false;
  image_memory = false;
}

abbrev pub everything : Held
everything = record {
  library = true;
  device_open = true;
  device_mounted = true;
  volume_mounted = true;
  image_memory = true;
}

abbrev allowed : Bool → Held → Option Held
allowed b h = if b then some h else none

-- A call that acquires succeeds or not by the answers. `none` is a misuse: a release of what is not
-- held, a use of what is released, or a device released under a mounted volume.
unfoldable pub act : Answers → Held → Call → Option Held
act a h lib_init = allowed (not h.library) (record h { library = is_ok a.init_rc })
act a h dev_open = allowed (h.library && not h.device_open) (record h { device_open = a.device })
act a h dev_mount =
    allowed (h.device_open && not h.device_mounted) (record h { device_mounted = is_ok a.mount_rc })
act a h vol_mount =
    allowed (h.device_mounted && not h.volume_mounted) (record h { volume_mounted = a.volume })
act a h read_root_block = allowed h.volume_mounted h
act a h malloc_image = allowed (not h.image_memory) (record h { image_memory = a.image })
act a h vol_unmount = allowed h.volume_mounted (record h { volume_mounted = false })
act a h dev_unmount =
    allowed (h.device_mounted && not h.volume_mounted) (record h { device_mounted = false })
act a h dev_close =
    allowed (h.device_open && not h.device_mounted) (record h { device_open = false })
act a h free_image = allowed h.image_memory (record h { image_memory = false })
act a h lib_clean_up = allowed (h.library && not h.device_open) (record h { library = false })

unfoldable pub run : Answers → List Call → Held → Option Held
run a [] h = some h
run a (call ∷ calls) h = elim (act a h call) [ none ↦ none | some h' ↦ run a calls h' ]

-- For every answer of ADFlib and of the allocator, opening an image misuses nothing. It holds
-- everything at its end if it returns an image, and nothing if it returns NULL.
pub open_holds :
    (read_only : Bool) (a : Answers)
    → run a (adfimage_open read_only a).1 nothing
      ≡ some (if (adfimage_open read_only a).0 then everything else nothing)
unfolding adfimage_open open_library open_device mount_dev mount_volume run act
open_holds read_only a = ground arith

pub close_everything :
    (a : Answers) → run a (adfimage_close true true true) everything ≡ some nothing
unfolding adfimage_close run act
close_everything a = refl

-- Opening an image and closing it, if it was opened, misuses nothing and releases all that was
-- acquired, for every answer of ADFlib and of the allocator.
pub close-open_releases :
    (read_only : Bool) (a : Answers)
    → let (opened, calls) = adfimage_open read_only a in
      run a (calls ++ adfimage_close opened opened opened) nothing ≡ some nothing
unfolding adfimage_open adfimage_close open_library open_device mount_dev mount_volume run act
close-open_releases read_only a = ground arith

-- If the root block cannot be read, the block allocation bitmap counts as valid: the volume is
-- opened for writing all the same.
pub open_unreadable :
    (a : Answers)
    → is_ok a.init_rc ≡ true
    → a.device ≡ true
    → is_ok a.mount_rc ≡ true
    → a.volume ≡ true
    → a.image ≡ true
    → is_ok a.root_rc ≡ false
    → (adfimage_open false a).0 ≡ true
unfolding adfimage_open open_library open_device mount_dev mount_volume is_bitmap_valid
open_unreadable a hi hd hm hv hg hr = ground arith
