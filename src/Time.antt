-- ===== src/Time.antt =====
-- The two conversions of src/adffs_util.c. `mktime` and `timegm` are the C library's.
use fuseadf.Prelude.{◌≡◌, sym, ap, ◌∙◌, ℤ, pos, neg, minus, plus, minus-plus}
use fuseadf.Libc.{Libc, Tm}

-- The broken-down time that both functions fill in.
abbrev pub fill_tm : ℤ → ℤ → ℤ → ℤ → ℤ → ℤ → ℤ → Tm
fill_tm year month day hour min sec isdst = record {
  tm_year = minus year 1900;
  tm_mon = minus month 1;
  tm_mday = day;
  tm_hour = hour;
  tm_min = min;
  tm_sec = sec;
  tm_isdst = isdst;
}

-- The two offsets are those that <time.h> gives the year and the month.
fill_tm_inverts :
    (tm : Tm)
    → tm.tm_isdst ≡ pos 0
    → fill_tm
        (plus tm.tm_year 1900)
        (plus tm.tm_mon 1)
        tm.tm_mday
        tm.tm_hour
        tm.tm_min
        tm.tm_sec
        (pos 0)
      ≡ tm
fill_tm_inverts tm utc = λ i. record {
  tm_year = minus-plus tm.tm_year 1900 i;
  tm_mon = minus-plus tm.tm_mon 1 i;
  tm_mday = tm.tm_mday;
  tm_hour = tm.tm_hour;
  tm_min = tm.tm_min;
  tm_sec = tm.tm_sec;
  tm_isdst = sym utc i;
}

module _ (C : Libc) where
  unfoldable pub gmtime_to_time_t : ℤ → ℤ → ℤ → ℤ → ℤ → ℤ → ℤ
  gmtime_to_time_t year month day hour min sec =
      C.timegm (fill_tm year month day hour min sec (pos 0))

  unfoldable pub localtime_to_time_t : ℤ → ℤ → ℤ → ℤ → ℤ → ℤ → ℤ
  localtime_to_time_t year month day hour min sec =
      C.mktime (fill_tm year month day hour min sec (neg 1))

  -- The broken-down time of an instant in UTC, in the program's units, converts back to it: `gmtime`
  -- is any function that `timegm` inverts and that never sets daylight saving.
  pub gmtime_to_time_t_inverts :
      (gmtime : ℤ → Tm) (t : ℤ)
      → C.timegm (gmtime t) ≡ t
      → (gmtime t).tm_isdst ≡ pos 0
      → gmtime_to_time_t
          (plus (gmtime t).tm_year 1900)
          (plus (gmtime t).tm_mon 1)
          (gmtime t).tm_mday
          (gmtime t).tm_hour
          (gmtime t).tm_min
          (gmtime t).tm_sec
        ≡ t
  unfolding gmtime_to_time_t
  gmtime_to_time_t_inverts gmtime t inverse utc =
      ap C.timegm (fill_tm_inverts (gmtime t) utc) ∙ inverse
