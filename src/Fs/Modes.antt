-- ===== src/Fs/Modes.antt =====
-- The mode bits that `adffs_getattr` reports and those that `adffs_chmod` understands.
use fuseadf.Prelude.{ℕ, ◌<◌, ◌≡◌, refl, true, bit_and, ◌==◌, ==_iff}
use fuseadf.Bits.{all_below, all_below_sound}
use fuseadf.Libc.{s_ifreg}
use fuseadf.Fs.{perms_of_mode}
use fuseadf.Fs.Attr.{file_mode}

-- S_IFMT
abbrev pub s_ifmt : ℕ
s_ifmt = 0o170000

checked_perms : all_below 8 (λ p. perms_of_mode (file_mode p) == p) ≡ true
unfolding all_below perms_of_mode file_mode
checked_perms = refl

checked_type : all_below 8 (λ p. bit_and (file_mode p) s_ifmt == s_ifreg) ≡ true
unfolding all_below file_mode
checked_type = refl

-- The mode of a file, as `adffs_getattr` reports it, says "regular file" and stands for the same
-- permissions when it is given to `adffs_chmod`, for each of the eight sets of permissions.
pub perms_of_mode-file_mode :
    (perms : ℕ)
    → perms < 8
    → (perms_of_mode (file_mode perms) ≡ perms) × (bit_and (file_mode perms) s_ifmt ≡ s_ifreg)
perms_of_mode-file_mode perms h = (
  (==_iff _ _).0 (all_below_sound 8 _ perms checked_perms h),
  (==_iff _ _).0 (all_below_sound 8 _ perms checked_type h),
)
