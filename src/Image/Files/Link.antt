-- ===== src/Image/Files/Link.antt =====
-- The buffer of `adfimage_readlink` in src/adfimage.c.
use fuseadf.Prelude.{
  ℕ, zero, suc, ◌≤◌, ◌<◌, ◌≡◌, refl, ap, ◌∙◌, ◌⊎◌, Bool, true, false, Bool-cases, Option,
  Option-cases, inl, inr, List, [], ◌∷◌, ◌++◌, Bytes, ℤ, pos, neg, eqb_ℤ, arith, length, take,
  replicate, ltb, NulFree, if◌then◌else◌,
}
use fuseadf.Pathstr.{c_str}
use fuseadf.Libc.{Libc}
use fuseadf.Adflib.{
  Adflib, EntryBlock, SecType, st_root, st_dir, st_file, st_lfile, st_ldir, st_lsoft, st_other,
  is_ok,
}
use fuseadf.Path.{path_create}
use fuseadf.Image.{Image, enter_dirpath, leave_dirpath}
use fuseadf.Image.Files.{strncpy, link_text, find_link, adfimage_readlink}

length-replicate : (n : ℕ) → length (replicate {A = ℕ} n 0) ≡ n
length-replicate zero = refl
length-replicate (suc n) = ap suc (length-replicate n)

-- `m` NULs are enough to fill up to `n` cells.
length-take_padded : (n m : ℕ) (s : Bytes) → n ≤ m → length (take n (s ++ replicate m 0)) ≡ n
length-take_padded zero m s h = refl
length-take_padded (suc n) zero s h = absurd (omega arith)
length-take_padded (suc n) (suc m) [] h = ap suc (length-take_padded n m [] (omega arith))
length-take_padded (suc n) (suc m) (c ∷ s) h = ap suc (length-take_padded n (suc m) s (omega arith))

length-strncpy : (n : ℕ) (s : Bytes) → length (strncpy n s) ≡ n
length-strncpy n s = length-take_padded n n s (omega arith)

c_str-take_padded :
    (n m : ℕ) (s : Bytes)
    → NulFree s
    → length s < n
    → n ≤ m
    → c_str (take n (s ++ replicate m 0)) ≡ s
c_str-take_padded zero m s h short room = absurd (omega arith)
c_str-take_padded (suc n) zero s h short room = absurd (omega arith)
c_str-take_padded (suc n) (suc m) [] h short room = refl
c_str-take_padded (suc n) (suc m) (c ∷ s) h short room =
    ground (arith, c_str-take_padded n (suc m) s h.1 (omega arith) (omega arith))

take_padded-NulFree :
    (n m : ℕ) (s : Bytes) → NulFree s → n ≤ length s → NulFree (take n (s ++ replicate m 0))
take_padded-NulFree zero m s h long = tt
take_padded-NulFree (suc n) m [] h long = absurd (omega arith)
take_padded-NulFree (suc n) m (c ∷ s) h long = (h.0, take_padded-NulFree n m s h.1 (omega arith))

-- A copied string is there whole, with its NUL, or it is cut and the buffer holds no NUL.
abbrev pub Copied : ℕ → Bytes → List ℕ → Type 0
Copied n s cells = (length s < n) × (c_str cells ≡ s) ⊎ (n ≤ length s) × NulFree cells

strncpy-Copied : (n : ℕ) (s : Bytes) → NulFree s → Copied n s (strncpy n s)
strncpy-Copied n s h = elim (Bool-cases (ltb (length s) n)) [
  | inl e ↦
      let short : length s < n = ground arith in
      inl (short, c_str-take_padded n n s h short (omega arith))
  | inr e ↦ let long : n ≤ length s = ground arith in inr (long, take_padded-NulFree n n s h long)
]

module _ (L : Adflib) where
  open L use {Vol, cur_dir_ptr, read_entry_block, name_to_entry_blk}

  -- A soft link that is found is answered with 0 and the text of the link, which is terminated if it
  -- is shorter than the buffer. If it is not, the answer is 0 as well, and the buffer holds no NUL.
  pub find_link-Copied :
      (v : Vol) (entryname : Bytes) (buf : List ℕ) (len_max : ℕ) (parent entry : EntryBlock)
      (sect_num : ℤ)
      → read_entry_block v (cur_dir_ptr v) ≡ (pos 0, parent)
      → name_to_entry_blk v parent.hash_table entryname ≡ (sect_num, entry)
      → eqb_ℤ sect_num (neg 1) ≡ false
      → entry.sec_type ≡ st_lsoft
      → NulFree entry.real_name
      → let (status, cells) = find_link L v entryname buf len_max in
        (status ≡ pos 0) × Copied len_max entry.real_name cells
  unfolding find_link link_text
  find_link-Copied v entryname buf len_max parent entry sect_num read named known soft text =
      let named' : name_to_entry_blk v (read_entry_block v (cur_dir_ptr v)).1.hash_table entryname
          ≡ (sect_num, entry) =
        rw read named in
      let found : find_link L v entryname buf len_max ≡ link_text L v len_max entry =
        (λ i. reply (read i) (named' i)) ∙ rw known refl in
      rw (found, link_text, soft) (refl, strncpy-Copied len_max _ text)
    where
      reply : ℤ × EntryBlock → ℤ × EntryBlock → ℤ × List ℕ
      reply (rc, p) (s, e) =
          if is_ok rc
          then (if eqb_ℤ s (neg 1) then (neg 2, buf) else link_text L v len_max e)
          else (neg 1, buf)

  length-link_text :
      (v : Vol) (len_max : ℕ) (entry : EntryBlock)
      → length (link_text L v len_max entry).1 ≡ len_max
  unfolding link_text
  length-link_text v len_max entry = by_type (entry.sec_type)
    where
      length-target :
          (ok : Bool) (text : Bytes)
          → length
              (if◌then◌else◌ {A = ℤ × List ℕ} ok
                (pos 0, strncpy len_max text)
                (neg 3, replicate len_max 0)).1
            ≡ len_max
      length-target true text = length-strncpy len_max text
      length-target false text = length-replicate len_max

      by_type :
          (kind : SecType)
          → length (link_text L v len_max (record entry { sec_type = kind })).1 ≡ len_max
      by_type st_lsoft = length-strncpy len_max entry.real_name
      by_type st_root =
          length-target (is_ok (read_entry_block v entry.real_entry).0)
            (read_entry_block v entry.real_entry).1.name
      by_type st_dir =
          length-target (is_ok (read_entry_block v entry.real_entry).0)
            (read_entry_block v entry.real_entry).1.name
      by_type st_file =
          length-target (is_ok (read_entry_block v entry.real_entry).0)
            (read_entry_block v entry.real_entry).1.name
      by_type st_lfile =
          length-target (is_ok (read_entry_block v entry.real_entry).0)
            (read_entry_block v entry.real_entry).1.name
      by_type st_ldir =
          length-target (is_ok (read_entry_block v entry.real_entry).0)
            (read_entry_block v entry.real_entry).1.name
      by_type (st_other n) =
          length-target (is_ok (read_entry_block v entry.real_entry).0)
            (read_entry_block v entry.real_entry).1.name

  length-find_link :
      (v : Vol) (entryname : Bytes) (buf : List ℕ)
      → length (find_link L v entryname buf (length buf)).1 ≡ length buf
  unfolding find_link
  length-find_link v entryname buf =
      let parent = read_entry_block v (cur_dir_ptr v) in
      let (sect_num, entry) = name_to_entry_blk v parent.1.hash_table entryname in
      go (is_ok parent.0) (eqb_ℤ sect_num (neg 1)) (link_text L v (length buf) entry)
        (length-link_text v (length buf) entry)
    where
      go :
          (ok missing : Bool) (r : ℤ × List ℕ)
          → length r.1 ≡ length buf
          → length (if ok then (if missing then (neg 2, buf) else r) else (neg 1, buf)).1
            ≡ length buf
      go true true r h = refl
      go true false r h = h
      go false missing r h = refl

  module _ (C : Libc) where
    -- Given the size of its buffer, `adfimage_readlink` keeps that size, whatever the path, the image
    -- and the answers of ADFlib are and whatever it returns.
    pub length-readlink :
        (path : Bytes) (buf : List ℕ) (img : Image Vol)
        → length (adfimage_readlink L C path buf (length buf) img).0.1 ≡ length buf
    unfolding adfimage_readlink
    length-readlink path buf img = elim (Option-cases (path_create C path)) [
      | inl e ↦ rw (adfimage_readlink, e) refl
      | inr (p, e) ↦
          let (cwd, ok, there) = enter_dirpath L p.dirpath img in
          rw (adfimage_readlink, e)
            (go cwd ok there (find_link L there.vol p.entryname buf (length buf))
              (length-find_link there.vol p.entryname buf))
    ]
      where
        go :
            (cwd : Option Bytes) (ok : Bool) (there : Image Vol) (reply : ℤ × List ℕ)
            → length reply.1 ≡ length buf
            → length
                (if◌then◌else◌ {A = (ℤ × List ℕ) × Image Vol} ok
                  (reply, leave_dirpath L cwd there)
                  ((neg 1, buf), there)).0.1
              ≡ length buf
        go cwd true there reply h = h
        go cwd false there reply h = refl
