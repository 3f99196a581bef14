-- ===== src/Pathstr/Slashes.antt =====
-- What `pathstr_remove_double_slashes` does to a string: when it ends, and with what.
use fuseadf.Prelude.{
  ℕ, zero, suc, ◌≡◌, refl, ◌≢◌, false, none, some, List, [], ◌∷◌, ◌++◌, arith, Bytes, NulFree,
}
use fuseadf.Pathstr.{nul, slash, buffer, strstr, copy_next, remove_double_slashes}
use fuseadf.Pathstr.Search.{Found, occurs, strstr_absent, strstr_final, strstr-Found}

-- The copying loop ends at once or never: its test looks at a cell that the loop leaves alone.
pub copy_next_hangs :
    (fuel c d : ℕ) (rest : List ℕ) → d ≢ nul → copy_next fuel (c ∷ d ∷ rest) ≡ none
unfolding copy_next
copy_next_hangs zero c d rest h = refl
copy_next_hangs (suc fuel) c d rest h = ground (arith, copy_next_hangs fuel d d rest h)

pub copy_next_ends :
    (fuel c : ℕ) (rest : List ℕ) → copy_next (suc fuel) (c ∷ nul ∷ rest) ≡ some (nul ∷ nul ∷ rest)
unfolding copy_next
copy_next_ends fuel c rest = refl

abbrev pub double : Bytes
double = slash ∷ slash ∷ []

hangs_on :
    (fuel c : ℕ) (b : Bytes) (path : List ℕ)
    → Found double (c ∷ b) path
    → remove_double_slashes fuel path ≡ none
unfolding remove_double_slashes
hangs_on zero c b path found = refl
hangs_on (suc fuel) c b path (pre, [], e, h, l, s) = absurd (omega arith)
hangs_on (suc fuel) c b path (pre, x ∷ [], e, h, l, s) = absurd (omega arith)
hangs_on (suc fuel) c b path (pre, x ∷ y ∷ [], e, h, l, s) = absurd (omega arith)
hangs_on (suc fuel) c b path (pre, x ∷ y ∷ z ∷ v, e, h, l, s) =
    ground (arith, copy_next_hangs fuel y z (v ++ nul ∷ []) h.1.1.0)

-- On a string with a double slash before its last character the function gives no result, whatever
-- the fuel.
pub remove_double_slashes_hangs :
    (fuel : ℕ) (a : Bytes) (c : ℕ) (b : Bytes)
    → NulFree (a ++ (double ++ (c ∷ b)))
    → remove_double_slashes fuel (buffer (a ++ (double ++ (c ∷ b)))) ≡ none
remove_double_slashes_hangs fuel a c b h =
    hangs_on fuel c b (buffer (a ++ (double ++ (c ∷ b))))
      (strstr-Found slash (slash ∷ []) a (c ∷ b) h)

double-NulFree : NulFree double
double-NulFree = omega arith

-- One unit of fuel or more is enough for a string without a double slash, which is left as it is.
pub remove_double_slashes_clean :
    (fuel : ℕ) (s : Bytes)
    → NulFree s
    → occurs double s ≡ false
    → remove_double_slashes (suc fuel) (buffer s) ≡ some (buffer s)
unfolding remove_double_slashes
remove_double_slashes_clean fuel s h clean =
    rw (strstr_absent double s [] double-NulFree (λ e. cc) h clean, remove_double_slashes)

-- Two units of fuel or more are enough for a string whose only double slash ends it: its last slash
-- is removed.
remove_double_slashes_final :
    (fuel : ℕ) (s : Bytes)
    → NulFree s
    → occurs double (s ++ slash ∷ []) ≡ false
    → remove_double_slashes (suc (suc fuel)) (buffer (s ++ double))
      ≡ some (s ++ (slash ∷ nul ∷ nul ∷ []))
unfolding remove_double_slashes strstr
remove_double_slashes_final fuel s h final =
    rw (strstr_final slash [] slash s h final, remove_double_slashes)
      (ground (arith, copy_next_ends fuel slash []))
