-- ===== src/Named/Kind.antt =====
-- The mode that `adffs_getattr` of src/adffs.c reports for an entry: its type and permissions.
use fuseadf.Prelude.{
  ℕ, ◌<◌, ◌≡◌, refl, ap, ◌∙◌, Bool, true, false, none, some, List, Bytes, ℤ, pos, neg, bit_and,
  bit_or, ◌==◌, ==_iff, arith, if◌then◌else◌,
}
use fuseadf.Bits.{all_below, all_below_sound}
use fuseadf.Libc.{Libc, enoent, s_ifdir, s_ifreg, s_iflnk}
use fuseadf.Adflib.{
  Adflib, AdfEntry, SecType, st_root, st_dir, st_file, st_lfile, st_ldir, st_lsoft, st_other,
}
use fuseadf.Adflib.Laws.{IsDirectory, KeepsOnFailure}
use fuseadf.Image.{Image}
use fuseadf.Image.Dentry.{found_dentry, dentry_type}
use fuseadf.Image.Perm.{adf_perm_read, adf_perm_execute, access_perms, getperm}
use fuseadf.Fs.{perms_of_mode}
use fuseadf.Fs.Attr.{Stat, zero_stat, file_mode, directory_mode, finish_stat, adffs_getattr}
use fuseadf.Fs.Modes.{s_ifmt, perms_of_mode-file_mode}
use fuseadf.Workdir.{IsName, Names}
use fuseadf.Named.{rooted_path, IsSplit, locate, entry_here}
use fuseadf.Named.Directory.{rooted}
use fuseadf.Named.Entered.{Created}
use fuseadf.Named.Stat.{finish_at, stat_of, stat_here, stat_at, getattr-Gives}
use fuseadf.Named.Chmod.Later.{file_size-mode}

-- The type in a mode.
abbrev pub kind_bits : SecType → ℕ
kind_bits st_file = s_ifreg
kind_bits st_lfile = s_ifreg
kind_bits st_root = s_ifdir
kind_bits st_dir = s_ifdir
kind_bits st_ldir = s_ifdir
kind_bits st_lsoft = s_iflnk
kind_bits (st_other n) = 0

-- The user's permissions in a mode, for an entry with given ones: every directory may be entered, and
-- those of a soft link do not count.
abbrev pub shown_perms : SecType → ℕ → ℕ
shown_perms st_file perms = perms
shown_perms st_lfile perms = perms
shown_perms st_root perms = bit_or perms adf_perm_execute
shown_perms st_dir perms = bit_or perms adf_perm_execute
shown_perms st_ldir perms = bit_or perms adf_perm_execute
shown_perms st_lsoft perms = bit_or adf_perm_read adf_perm_execute
shown_perms (st_other n) perms = 0

-- What a mode says of an entry.
abbrev Says : SecType → ℕ → ℕ → Type 0
Says t perms mode = (bit_and mode s_ifmt ≡ kind_bits t) × (perms_of_mode mode ≡ shown_perms t perms)

checked_perms :
    all_below 8 (λ p. perms_of_mode (directory_mode p) == bit_or p adf_perm_execute) ≡ true
unfolding all_below perms_of_mode directory_mode
checked_perms = refl

checked_type : all_below 8 (λ p. bit_and (directory_mode p) s_ifmt == s_ifdir) ≡ true
unfolding all_below directory_mode
checked_type = refl

file-Says : (perms : ℕ) → perms < 8 → Says st_file perms (file_mode perms)
file-Says perms h = let (same, kind) = perms_of_mode-file_mode perms h in (kind, same)

directory-Says : (perms : ℕ) → perms < 8 → Says st_dir perms (directory_mode perms)
directory-Says perms h = (
  (==_iff _ _).0 (all_below_sound 8 _ perms checked_type h),
  (==_iff _ _).0 (all_below_sound 8 _ perms checked_perms h),
)

module _ (L : Adflib) where
  open L use {Vol}

  access_perms-below : (access : ℕ) → access_perms L access < 8
  unfolding access_perms
  access_perms-below access = go (L.acc_has_r access) (L.acc_has_w access) (L.acc_has_e access)
    where
      go :
          (r w e : Bool)
          → bit_or (bit_or (if r then 0 else 1) (if w then 0 else 2)) (if e then 0 else 4) < 8
      go true true true = omega arith
      go true true false = omega arith
      go true false true = omega arith
      go true false false = omega arith
      go false true true = omega arith
      go false true false = omega arith
      go false false true = omega arith
      go false false false = omega arith

  module _ (C : Libc) where
    -- By the type of an entry that is listed where the volume stands.
    reported_kind :
        (blksize : ℕ) (dirs : List Bytes) (name : Bytes) (entry : AdfEntry) (there : Vol)
        (t : SecType)
        → let dentry = found_dentry (some entry) in
          let (status, st) =
            (finish_at L C dentry blksize (stat_of L C (dentry_type t) dirs name dentry there)).0 in
          (status ≡ pos 0) × Says t (access_perms L entry.access) st.st_mode
    unfolding finish_stat getperm dentry_type perms_of_mode
    reported_kind blksize dirs name entry there = go
      where
        perms : ℕ
        perms = access_perms L entry.access

        go :
            (t : SecType)
            → let dentry = found_dentry (some entry) in
              let (status, st) =
                (finish_at L C dentry blksize
                  (stat_of L C (dentry_type t) dirs name dentry there)).0 in
              (status ≡ pos 0) × Says t perms st.st_mode
        go st_file = (refl, rw file_size-mode (file-Says perms (access_perms-below entry.access)))
        go st_lfile = (refl, rw file_size-mode (file-Says perms (access_perms-below entry.access)))
        go st_root = (refl, directory-Says perms (access_perms-below entry.access))
        go st_dir = (refl, directory-Says perms (access_perms-below entry.access))
        go st_ldir = (refl, directory-Says perms (access_perms-below entry.access))
        go st_lsoft = (refl, (refl, refl))
        go (st_other n) = (refl, (refl, refl))

    stat_listed :
        (blksize : ℕ) (v : Vol) (dirs : List Bytes) (name : Bytes) (there : Vol) (entry : AdfEntry)
        → locate L v dirs ≡ some there
        → entry_here L there name ≡ some entry
        → (stat_at L C blksize v dirs name).0
          ≡ (finish_at L C (found_dentry (some entry)) blksize (
              stat_of L C
                (dentry_type entry.sec_type)
                dirs
                name
                (found_dentry (some entry))
                there)).0
    stat_listed blksize v dirs name there entry found listed =
        ap
          (λ o.
            (elim o as (λ _. (ℤ × Stat) × Vol) [
              | none ↦ ((neg enoent, zero_stat), L.to_root_dir v)
              | some w ↦ rooted L (stat_here L C blksize dirs name w)
            ]).0)
          found
        ∙ ap
            (λ o.
              let dentry = found_dentry o in
              (finish_at L C dentry blksize (stat_of L C (dentry.type) dirs name dentry there)).0)
            listed

    -- `adffs_getattr` reports the type and the permissions of the entry that is there: for the path
    -- of an entry that its directory lists, from any image, the status is 0, and the mode has the
    -- type of the entry (of a hard link, that of what it links to) and, as `adffs_chmod` reads
    -- them, the permissions in its access bits, with execution added for a directory; a soft link
    -- has reading and execution, and an entry of another type neither type nor permissions. The
    -- allocations for the name succeed, ADFlib meets `IsDirectory` and `KeepsOnFailure`, and the C
    -- library `IsSplit`.
    pub getattr_says :
        (P : IsSplit C) (D : IsDirectory L) (K : KeepsOnFailure L) (dirs : List Bytes)
        (name : Bytes) (img : Image Vol) (there : Vol) (entry : AdfEntry)
        → Names dirs
        → IsName name
        → Created C name
        → locate L img.vol dirs ≡ some there
        → entry_here L there name ≡ some entry
        → let (status, st) = (adffs_getattr L C (rooted_path dirs name) img).0 in
          (status ≡ pos 0)
          × (bit_and st.st_mode s_ifmt ≡ kind_bits entry.sec_type)
          × (perms_of_mode st.st_mode ≡ shown_perms entry.sec_type (access_perms L entry.access))
    getattr_says P D K dirs name img there entry h k created found listed =
        let (answer, _, _) = getattr-Gives L C P D K dirs name img h k created in
        let same = answer ∙ stat_listed img.blksize img.vol dirs name there entry found listed in
        let (zero_status, (kind, perms)) =
          reported_kind img.blksize dirs name entry there entry.sec_type in
        (
          ap (λ (r : ℤ × Stat). r.0) same ∙ zero_status,
          ap (λ (r : ℤ × Stat). bit_and r.1.st_mode s_ifmt) same ∙ kind,
          ap (λ (r : ℤ × Stat). perms_of_mode r.1.st_mode) same ∙ perms,
        )
