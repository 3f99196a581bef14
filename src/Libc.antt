-- ===== src/Libc.antt =====
-- What the program takes from the C library and the host: parameters, with the documented behaviour
-- that the proofs rely on in `IsPosix`. Also the error numbers of <errno.h> and the mode bits of
-- <sys/stat.h>.
use fuseadf.Prelude.{ℕ, ◌≡◌, Bool, ◌∷◌, Bytes, ℤ}

abbrev pub eperm : ℕ
eperm = 1

abbrev pub enoent : ℕ
enoent = 2

abbrev pub eagain : ℕ
eagain = 11

abbrev pub eexist : ℕ
eexist = 17

abbrev pub einval : ℕ
einval = 22

abbrev pub s_ifdir : ℕ
s_ifdir = 0o040000

abbrev pub s_ifreg : ℕ
s_ifreg = 0o100000

abbrev pub s_iflnk : ℕ
s_iflnk = 0o120000

-- S_IRUSR | S_IRGRP | S_IROTH
abbrev pub read_all : ℕ
read_all = 0o444

-- S_IXUSR | S_IXGRP | S_IXOTH
abbrev pub execute_all : ℕ
execute_all = 0o111

abbrev pub s_irusr : ℕ
s_irusr = 0o400

abbrev pub s_iwusr : ℕ
s_iwusr = 0o200

abbrev pub s_ixusr : ℕ
s_ixusr = 0o100

-- `struct tm`, the fields that the program sets.
pub record Tm : Type 0 where
  pub tm_year : ℤ
  pub tm_mon : ℤ
  pub tm_mday : ℤ
  pub tm_hour : ℤ
  pub tm_min : ℤ
  pub tm_sec : ℤ
  pub tm_isdst : ℤ

pub record Libc : Type 0 where
  pub dirname : Bytes → Bytes
  pub basename : Bytes → Bytes
  -- Whether the three allocations of `path_create` succeed for a path.
  pub path_malloc : Bytes → Bool
  pub dirpath_strdup : Bytes → Bool
  pub entryname_strdup : Bytes → Bool
  pub mktime : Tm → ℤ
  pub timegm : Tm → ℤ
  pub geteuid : ℕ
  pub getegid : ℕ

pub record IsPosix (C : Libc) : Type 0 where
  -- The directory part of an absolute path is absolute.
  pub dirname_absolute : (p : Bytes) → (t : Bytes) × (C.dirname (b'/' ∷ p) ≡ b'/' ∷ t)
