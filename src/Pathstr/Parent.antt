-- ===== src/Pathstr/Parent.antt =====
-- What `pathstr_dirparent_u2a` does to a string: when it ends, and with what.
use fuseadf.Prelude.{
  ℕ, zero, suc, ◌≡◌, refl, false, none, some, List, [], ◌∷◌, ◌++◌, append_assoc, arith, Bytes,
  NulFree, NulFree-append,
}
use fuseadf.Pathstr.{
  nul, slash, dot, buffer, strstr, replace_dotdot_slash, replace_final_dotdot,
  pathstr_dirparent_u2a,
}
use fuseadf.Pathstr.Search.{Found, occurs, strstr_absent, strstr_final, strstr-Found}
use fuseadf.Pathstr.Slashes.{copy_next_ends, copy_next_hangs}

abbrev pub dotdot_slash : Bytes
dotdot_slash = dot ∷ dot ∷ slash ∷ []

abbrev pub slash_dotdot : Bytes
slash_dotdot = slash ∷ dot ∷ dot ∷ []

dotdot_hangs_on :
    (fuel : ℕ) (b : Bytes) (path : List ℕ)
    → Found dotdot_slash b path
    → replace_dotdot_slash fuel path ≡ none
unfolding replace_dotdot_slash
dotdot_hangs_on zero b path found = refl
dotdot_hangs_on (suc fuel) b path (pre, [], e, h, l, s) = absurd (omega arith)
dotdot_hangs_on (suc fuel) b path (pre, x ∷ [], e, h, l, s) = absurd (omega arith)
dotdot_hangs_on (suc fuel) b path (pre, x ∷ y ∷ [], e, h, l, s) = absurd (omega arith)
dotdot_hangs_on (suc fuel) b path (pre, x ∷ y ∷ z ∷ v, e, h, l, s) =
    ground (arith, copy_next_hangs fuel y z (v ++ nul ∷ []) h.1.1.0)

-- On a string in which `../` stands anywhere the function gives no result, whatever the fuel.
pub dirparent_u2a_hangs :
    (fuel : ℕ) (a b : Bytes)
    → NulFree (a ++ (dotdot_slash ++ b))
    → pathstr_dirparent_u2a fuel (buffer (a ++ (dotdot_slash ++ b))) ≡ none
unfolding pathstr_dirparent_u2a
dirparent_u2a_hangs fuel a b h =
    rw (dotdot_hangs_on fuel b _ (strstr-Found dot (dot ∷ slash ∷ []) a b h))

final_hangs_on :
    (fuel c : ℕ) (b : Bytes) (path : List ℕ)
    → Found slash_dotdot (c ∷ b) path
    → replace_final_dotdot fuel path ≡ none
unfolding replace_final_dotdot
final_hangs_on zero c b path found = refl
final_hangs_on (suc fuel) c b path (pre, [], e, h, l, s) = absurd (omega arith)
final_hangs_on (suc fuel) c b path (pre, x ∷ [], e, h, l, s) = absurd (omega arith)
final_hangs_on (suc fuel) c b path (pre, x ∷ y ∷ [], e, h, l, s) = absurd (omega arith)
final_hangs_on (suc fuel) c b path (pre, x ∷ y ∷ z ∷ [], e, h, l, s) = absurd (omega arith)
final_hangs_on (suc fuel) c b path (pre, x ∷ y ∷ z ∷ w ∷ v, e, h, l, s) =
    ground (arith, final_hangs_on fuel c b path (pre, x ∷ y ∷ z ∷ w ∷ v, e, h, l, s))

dotdot_slash_clean :
    (fuel : ℕ) (s : Bytes)
    → NulFree s
    → occurs dotdot_slash s ≡ false
    → replace_dotdot_slash (suc fuel) (buffer s) ≡ some (buffer s)
unfolding replace_dotdot_slash
dotdot_slash_clean fuel s h clean =
    rw (strstr_absent dotdot_slash s [] (omega arith) (λ e. cc) h clean, replace_dotdot_slash)

-- On a string with `/..` before its last character and no `../`, as where the name of a directory
-- begins with two dots, the function gives no result, whatever the fuel.
pub dirparent_u2a_hangs_inside :
    (fuel : ℕ) (a : Bytes) (c : ℕ) (b : Bytes)
    → NulFree (a ++ (slash_dotdot ++ (c ∷ b)))
    → occurs dotdot_slash (a ++ (slash_dotdot ++ (c ∷ b))) ≡ false
    → pathstr_dirparent_u2a fuel (buffer (a ++ (slash_dotdot ++ (c ∷ b)))) ≡ none
unfolding pathstr_dirparent_u2a replace_dotdot_slash
dirparent_u2a_hangs_inside zero a c b h clean = refl
dirparent_u2a_hangs_inside (suc fuel) a c b h clean =
    rw (dotdot_slash_clean fuel (a ++ (slash_dotdot ++ (c ∷ b))) h clean)
      (final_hangs_on (suc fuel) c b _ (strstr-Found slash (dot ∷ dot ∷ []) a (c ∷ b) h))

-- One unit of fuel or more is enough for a string with neither `../` nor `/..`, which is left as it
-- is.
pub dirparent_u2a_clean :
    (fuel : ℕ) (s : Bytes)
    → NulFree s
    → occurs dotdot_slash s ≡ false
    → occurs slash_dotdot s ≡ false
    → pathstr_dirparent_u2a (suc fuel) (buffer s) ≡ some (buffer s)
unfolding pathstr_dirparent_u2a replace_final_dotdot
dirparent_u2a_clean fuel s h clean clean' =
    rw (dotdot_slash_clean fuel s h clean)
      (rw (strstr_absent slash_dotdot s [] (omega arith) (λ e. cc) h clean', replace_final_dotdot))

-- With two slashes for the final `/..` no `/..` is left.
no_dotdot_left :
    (s : Bytes)
    → occurs slash_dotdot (s ++ (slash ∷ dot ∷ [])) ≡ false
    → occurs slash_dotdot (s ++ (slash ∷ slash ∷ [])) ≡ false
no_dotdot_left [] h = refl
no_dotdot_left (x ∷ []) h = ground arith
no_dotdot_left (x ∷ y ∷ []) h = ground arith
no_dotdot_left (x ∷ y ∷ z ∷ s) h = ground (arith, no_dotdot_left (y ∷ z ∷ s))

nothing_left :
    (s : Bytes)
    → NulFree s
    → occurs slash_dotdot (s ++ (slash ∷ dot ∷ [])) ≡ false
    → strstr slash_dotdot (s ++ (slash ∷ slash ∷ nul ∷ nul ∷ [])) ≡ none
nothing_left s h only = rw (← append_assoc s (slash ∷ slash ∷ []) (nul ∷ nul ∷ [])) (
    strstr_absent slash_dotdot (s ++ (slash ∷ slash ∷ [])) (nul ∷ []) (omega arith) (λ e. cc)
      (NulFree-append s (slash ∷ slash ∷ []) h (omega arith)) (no_dotdot_left s only))

replaced_ends :
    (fuel : ℕ) (s : Bytes)
    → NulFree s
    → occurs slash_dotdot (s ++ (slash ∷ dot ∷ [])) ≡ false
    → replace_final_dotdot (suc fuel) (s ++ (slash ∷ slash ∷ nul ∷ nul ∷ []))
      ≡ some (s ++ (slash ∷ slash ∷ nul ∷ nul ∷ []))
unfolding replace_final_dotdot
replaced_ends fuel s h only = rw (nothing_left s h only, replace_final_dotdot)

-- Two units of fuel or more are enough for a string without `../` whose only `/..` ends it: the two
-- dots become one slash.
dirparent_u2a_final :
    (fuel : ℕ) (s : Bytes)
    → NulFree s
    → occurs dotdot_slash (s ++ slash_dotdot) ≡ false
    → occurs slash_dotdot (s ++ (slash ∷ dot ∷ [])) ≡ false
    → pathstr_dirparent_u2a (suc (suc fuel)) (buffer (s ++ slash_dotdot))
      ≡ some (s ++ (slash ∷ slash ∷ nul ∷ nul ∷ []))
unfolding pathstr_dirparent_u2a replace_final_dotdot
dirparent_u2a_final fuel s h clean only =
    let whole = NulFree-append s slash_dotdot h (omega arith) in
    rw (dotdot_slash_clean (suc fuel) (s ++ slash_dotdot) whole clean) (
      rw (strstr_final slash (dot ∷ []) dot s h only, replace_final_dotdot)
        (rw (copy_next_ends fuel dot []) (replaced_ends fuel s h only)))
