-- ===== src/Named/Chmod/Later.antt =====
-- What `adffs_getattr` of src/adffs.c reports of a file after `adffs_chmod`.
use fuseadf.Prelude.{
  ℕ, ◌≡◌, refl, sym, ap, ◌∙◌, Bool, true, false, Bool-cases, inl, inr, ◌||◌, Option, none, some,
  List, Bytes, ℤ, pos, neg, bit_and, bit_or, if◌then◌else◌,
}
use fuseadf.Libc.{Libc, enoent, einval, s_irusr, s_iwusr, s_ixusr}
use fuseadf.Adflib.{Adflib, AdfEntry, EntryBlock, SecType, st_file, is_ok}
use fuseadf.Adflib.Laws.{IsDirectory, IsPositionFree, KeepsOnFailure}
use fuseadf.Image.{Image}
use fuseadf.Image.Dentry.{found_dentry, dentry_type, adfimage_dentry_valid}
use fuseadf.Image.Perm.{
  adf_perm_read, adf_perm_write, adf_perm_execute, is_set, access_perms, new_access, getperm,
}
use fuseadf.Image.Perm.Laws.{IsAccess, access_perms-new_access}
use fuseadf.Fs.{perms_of_mode, adffs_chmod}
use fuseadf.Fs.Attr.{Stat, zero_stat, file_mode, file_size, finish_stat, adffs_getattr}
use fuseadf.Workdir.{IsName, Names, descend}
use fuseadf.Named.{rooted_path, IsSplit, locate, entry_here}
use fuseadf.Named.Directory.{rooted}
use fuseadf.Named.Entered.{Created}
use fuseadf.Named.Reach.{reach-descend}
use fuseadf.Named.Chmod.{chmod_from, chmod_at, chmod-Gives, rewrite}
use fuseadf.Named.Stat.{finish_at, stat_of, stat_here, stat_at, getattr-Gives}

-- The permissions that are left when those of the user in a mode have been set.
abbrev pub granted : ℕ → ℕ
granted mode =
    let r = is_set (bit_and mode s_irusr) in
    let w = is_set (bit_and mode s_iwusr) in
    let e = is_set (bit_and mode s_ixusr) in
    bit_or
      (bit_or (if r || (w || e) then adf_perm_read else 0) (if w || e then adf_perm_write else 0))
      (if e then adf_perm_execute else 0)

asked_bits :
    (mode : ℕ)
    → (is_set (bit_and (perms_of_mode mode) adf_perm_read) ≡ is_set (bit_and mode s_irusr))
      × (is_set (bit_and (perms_of_mode mode) adf_perm_write) ≡ is_set (bit_and mode s_iwusr))
      × (is_set (bit_and (perms_of_mode mode) adf_perm_execute) ≡ is_set (bit_and mode s_ixusr))
unfolding perms_of_mode
asked_bits mode =
    go (is_set (bit_and mode s_irusr)) (is_set (bit_and mode s_iwusr))
      (is_set (bit_and mode s_ixusr))
  where
    go :
        (r w e : Bool)
        → let perms =
            bit_or
              (bit_or (if r then adf_perm_read else 0) (if w then adf_perm_write else 0))
              (if e then adf_perm_execute else 0) in
          (is_set (bit_and perms adf_perm_read) ≡ r)
          × (is_set (bit_and perms adf_perm_write) ≡ w)
          × (is_set (bit_and perms adf_perm_execute) ≡ e)
    go true true true = (refl, refl, refl)
    go true true false = (refl, refl, refl)
    go true false true = (refl, refl, refl)
    go true false false = (refl, refl, refl)
    go false true true = (refl, refl, refl)
    go false true false = (refl, refl, refl)
    go false false true = (refl, refl, refl)
    go false false false = (refl, refl, refl)

module _ (L : Adflib) where
  open L use {Vol, to_root_dir, read_entry_block, write_entry_block}

  -- The entry's block, written back with other access bits in the volume at its root.
  abbrev pub with_access : Vol → AdfEntry → ℕ → ℤ × Vol
  with_access v entry a =
      let block = (read_entry_block (to_root_dir v) entry.sector).1 in
      write_entry_block (to_root_dir v) entry.sector (record block { access = a })

  -- A file that names lead to.
  pub record FileAt (v : Vol) (dirs : List Bytes) (name : Bytes) : Type 0 where
    pub there : Vol
    pub entry : AdfEntry
    pub found : locate L v dirs ≡ some there
    pub listed : entry_here L there name ≡ some entry
    pub is_file : entry.sec_type ≡ st_file

  -- What ADFlib documents: a file whose block has been written back with other access bits is listed
  -- with these.
  pub record IsAccessStore : Type 0 where
    pub access_written :
        (v : Vol) (dirs : List Bytes) (name : Bytes) (a : ℕ)
        → (file : FileAt v dirs name)
        → is_ok (read_entry_block (to_root_dir v) (file.entry.sector)).0 ≡ true
        → is_ok (with_access v (file.entry) a).0 ≡ true
        → (after : FileAt (with_access v (file.entry) a).1 dirs name) × (after.entry.access ≡ a)

  granted_lem :
      (A : IsAccess L) (mode a : ℕ)
      → access_perms L (new_access L (perms_of_mode mode) a) ≡ granted mode
  granted_lem A mode a =
      let (r, w, e) = asked_bits mode in
      access_perms-new_access L A (perms_of_mode mode) a ∙ rw (r, w, e) refl

  valid_file :
      (entry : AdfEntry)
      → entry.sec_type ≡ st_file
      → adfimage_dentry_valid (found_dentry (some entry)) ≡ true
  unfolding adfimage_dentry_valid dentry_type
  valid_file entry e =
      ap (λ t. adfimage_dentry_valid (record { type = dentry_type t; adflib_entry = entry })) e

  -- The block of the file, with the result of the read.
  abbrev read_block : Vol → AdfEntry → ℤ × EntryBlock
  read_block v entry = read_entry_block (to_root_dir v) entry.sector

  -- The bits that are written.
  abbrev written : Vol → AdfEntry → ℕ → ℕ
  written v entry mode = new_access L (perms_of_mode mode) (read_block v entry).1.access

  -- The answer for an entry that is found.
  abbrev chmod_entry : Vol → AdfEntry → ℕ → ℤ × Vol
  chmod_entry v entry mode =
      let (ok, w) = rewrite L (found_dentry (some entry)) (perms_of_mode mode) (to_root_dir v) in
      (if ok then pos 0 else pos einval, to_root_dir w)

  chmod_found :
      (v : Vol) (dirs : List Bytes) (name : Bytes) (mode : ℕ) (file : FileAt v dirs name)
      → chmod_at L v dirs name mode ≡ chmod_entry v (file.entry) mode
  chmod_found v dirs name mode file =
      rw
        (
          chmod_at,
          chmod_from,
          reach-descend L dirs (to_root_dir v) (file.there) (file.found),
          file.listed,
          valid_file (file.entry) (file.is_file),
        )
        refl

  -- A chmod of a file that answers 0 has written the block back.
  chmod_zero :
      (v : Vol) (entry : AdfEntry) (mode : ℕ)
      → (chmod_entry v entry mode).0 ≡ pos 0
      → (is_ok (read_block v entry).0 ≡ true)
        × (is_ok (with_access v entry (written v entry mode)).0 ≡ true)
        × ((chmod_entry v entry mode).1
            ≡ to_root_dir (with_access v entry (written v entry mode)).1)
  chmod_zero v entry mode answered = elim (Bool-cases (is_ok (read_block v entry).0)) [
    | inr e ↦ absurd (cc (rw (e, chmod_entry, rewrite) at answered))
    | inl e ↦ elim (Bool-cases (is_ok (with_access v entry (written v entry mode)).0)) [
      | inr e' ↦ absurd (cc (rw (e, e', chmod_entry, rewrite) at answered))
      | inl e' ↦ (e, e', rw (e, chmod_entry, rewrite) refl)
    ]
  ]

  module _ (C : Libc) where
    pub file_size-mode : (o : Option L.File) (st : Stat) → (file_size L C o st).st_mode ≡ st.st_mode
    file_size-mode none st = refl
    file_size-mode (some file) st = refl

    -- The answer of `stat_at` for an entry of a given type.
    abbrev stat_entry : ℕ → List Bytes → Bytes → AdfEntry → SecType → Vol → ℤ × Stat
    stat_entry blksize dirs name entry t there =
        let dentry = found_dentry (some entry) in
        (finish_at L C dentry blksize (stat_of L C (dentry_type t) dirs name dentry there)).0

    stat_found :
        (blksize : ℕ) (v : Vol) (dirs : List Bytes) (name : Bytes) (file : FileAt v dirs name)
        → (stat_at L C blksize v dirs name).0
          ≡ stat_entry blksize dirs name (file.entry) st_file (file.there)
    stat_found blksize v dirs name file =
        let there = file.there in
        ap
          (λ o.
            (elim o as (λ _. (ℤ × Stat) × Vol) [
              | none ↦ ((neg enoent, zero_stat), to_root_dir v)
              | some w ↦ rooted L (stat_here L C blksize dirs name w)
            ]).0)
          (file.found)
        ∙ (ap
              (λ o.
                let dentry = found_dentry o in
                (finish_at L C dentry blksize (stat_of L C (dentry.type) dirs name dentry there)).0)
              (file.listed)
            ∙ ap (λ t. stat_entry blksize dirs name (file.entry) t there) (file.is_file))

    -- What is reported of a file.
    reported :
        (blksize : ℕ) (v : Vol) (dirs : List Bytes) (name : Bytes) (file : FileAt v dirs name)
        → let (status, st) = (stat_at L C blksize v dirs name).0 in
          (status ≡ pos 0) × (st.st_mode ≡ file_mode (access_perms L (file.entry.access)))
    unfolding finish_stat getperm dentry_type
    reported blksize v dirs name file =
        let answer = stat_found blksize v dirs name file in
        (
          ap (λ (r : ℤ × Stat). r.0) answer,
          ap (λ (r : ℤ × Stat). r.1.st_mode) answer ∙ file_size-mode _ _,
        )

    -- A chmod of a file is seen by the next look at it: if `adffs_chmod` answers 0 for the path of a
    -- file, then `adffs_getattr` for that path, in the image that it leaves, answers 0 with the mode
    -- of a regular file, in which of the user's permissions execution is granted if it was asked for,
    -- writing if writing or execution was, and reading if any of the three was. The allocations for
    -- the path and the name succeed, ADFlib meets `IsDirectory`, `IsPositionFree`, `KeepsOnFailure`,
    -- `IsAccess` and `IsAccessStore`, and the C library `IsSplit`.
    pub getattr-chmod :
        (P : IsSplit C) (D : IsDirectory L) (F : IsPositionFree L) (K : KeepsOnFailure L)
        (A : IsAccess L) (S : IsAccessStore) (dirs : List Bytes) (name : Bytes) (mode : ℕ)
        (img : Image Vol)
        → Names dirs
        → IsName name
        → Created C (rooted_path dirs name)
        → Created C name
        → FileAt img.vol dirs name
        → (adffs_chmod L C (rooted_path dirs name) mode img).0 ≡ pos 0
        → let (status, st) =
            (adffs_getattr L C
              (rooted_path dirs name)
              (adffs_chmod L C (rooted_path dirs name) mode img).1).0 in
          (status ≡ pos 0) × (st.st_mode ≡ file_mode (granted mode))
    getattr-chmod P D F K A S dirs name mode img h k created created' file answered =
        let img' = (adffs_chmod L C (rooted_path dirs name) mode img).1 in
        let (status, disk, size) = chmod-Gives L C P D F dirs name mode img h k created in
        let shape = chmod_found img.vol dirs name mode file in
        let (ok, ok', root) =
          chmod_zero img.vol (file.entry) mode
            (sym (status ∙ ap (λ (r : ℤ × Vol). r.0) shape) ∙ answered) in
        let (after, bits) =
          S.access_written img.vol dirs name (written img.vol (file.entry) mode) file ok ok' in
        let same = disk ∙ (ap (λ (r : ℤ × Vol). r.1) shape ∙ root) in
        let moved : FileAt img'.vol dirs name = record {
          there = after.there;
          entry = after.entry;
          found = ap (λ v. descend L v dirs) same ∙ after.found;
          listed = after.listed;
          is_file = after.is_file;
        } in
        let (answer, _, _) = getattr-Gives L C P D K dirs name img' h k created' in
        let (zero_status, its_mode) = reported img'.blksize img'.vol dirs name moved in
        (
          ap (λ (r : ℤ × Stat). r.0) answer ∙ zero_status,
          ap (λ (r : ℤ × Stat). r.1.st_mode) answer
              ∙ (its_mode ∙ ap file_mode (ap (access_perms L) bits ∙ granted_lem A mode _)),
        )
