-- ===== src/Tests/Host.antt =====
-- A C library that meets the assumptions.
use fuseadf.Prelude.{
  ℕ, ◌≡◌, refl, true, Option, none, some, [], ◌∷◌, Bytes, codes, ℤ, pos, ◌==◌, if◌then◌else◌,
}
use fuseadf.Libc.{Libc, IsPosix, Tm}

-- Cut before the last slash, and after it.
abbrev pub cut_before : ℕ → Option Bytes → Option Bytes
cut_before c none = if c == b'/' then some [] else none
cut_before c (some s) = some (c ∷ s)

abbrev pub before_last : Bytes → Option Bytes
before_last [] = none
before_last (c ∷ s) = cut_before c (before_last s)

abbrev pub after_last : Bytes → Bytes → Bytes
after_last kept [] = kept
after_last kept (c ∷ s) = if c == b'/' then after_last s s else after_last kept s

abbrev pub directory_of : Option Bytes → Bytes
directory_of none = codes "."
directory_of (some []) = codes "/"
directory_of (some (c ∷ s)) = c ∷ s

-- A clock that counts seconds in a year that does not end.
abbrev pub seconds : ℤ → Tm
seconds t = record {
  tm_year = pos 70;
  tm_mon = pos 0;
  tm_mday = pos 1;
  tm_hour = pos 0;
  tm_min = pos 0;
  tm_sec = t;
  tm_isdst = pos 0;
}

abbrev pub host : Libc
host = record {
  dirname = λ p. directory_of (before_last p);
  basename = λ p. after_last p p;
  path_malloc = λ p. true;
  dirpath_strdup = λ p. true;
  entryname_strdup = λ p. true;
  mktime = λ tm. tm.tm_sec;
  timegm = λ tm. tm.tm_sec;
  geteuid = 1000;
  getegid = 1000;
}

absolute_part : (o : Option Bytes) → (t : Bytes) × (directory_of (cut_before b'/' o) ≡ b'/' ∷ t)
absolute_part none = ([], refl)
absolute_part (some s) = (s, refl)

pub host_IsPosix : IsPosix host
host_IsPosix = record { dirname_absolute = λ p. absolute_part (before_last p) }
