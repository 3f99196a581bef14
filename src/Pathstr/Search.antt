-- ===== src/Pathstr/Search.antt =====
-- Laws of `strstr` on the buffer of a string.
use fuseadf.Prelude.{
  ℕ, ◌+◌, ◌≤◌, ◌≡◌, refl, ◌≢◌, ◌∙◌, inl, inr, Bool, Bool-cases, true, false, ◌||◌, none, some, List,
  [], ◌∷◌, ◌++◌, append_assoc, arith, Bytes, NulFree, length, length-append,
}
use fuseadf.Pathstr.{nul, buffer, starts_with, strstr}

-- Whether `n` stands somewhere in a string.
abbrev pub occurs : Bytes → Bytes → Bool
occurs n [] = false
occurs n (c ∷ s) = starts_with n (c ∷ s) || occurs n s

pub starts_with-append :
    (n u v : List ℕ) → length n ≤ length u → starts_with n (u ++ v) ≡ starts_with n u
starts_with-append [] u v h = refl
starts_with-append (x ∷ n) [] v h = absurd (omega arith)
starts_with-append (x ∷ n) (c ∷ u) v h = ground (arith, starts_with-append n u v (omega arith))

starts_with_self : (n v : List ℕ) → starts_with n (n ++ v) ≡ true
starts_with_self [] v = refl
starts_with_self (x ∷ n) v = ground (arith, starts_with_self n v)

-- A pattern without NUL does not match across the end of the string.
starts_with-buffer : (n s r : List ℕ) → NulFree n → starts_with n (s ++ nul ∷ r) ≡ starts_with n s
starts_with-buffer [] s r h = refl
starts_with-buffer (x ∷ n) [] r h = ground arith
starts_with-buffer (x ∷ n) (c ∷ s) r h = ground (arith, starts_with-buffer n s r h.1)

pub strstr_absent :
    (n s r : List ℕ)
    → NulFree n
    → n ≢ []
    → NulFree s
    → occurs n s ≡ false
    → strstr n (s ++ nul ∷ r) ≡ none
unfolding strstr
strstr_absent [] s r hn ne hs h = absurd (ne refl)
strstr_absent (x ∷ n) [] r hn ne hs h = ground arith
strstr_absent (x ∷ n) (c ∷ s) r hn ne hs h =
    ground (arith, strstr_absent (x ∷ n) s r hn ne hs.1, starts_with-buffer n s r hn.1)

-- What `strstr` finds for a pattern that occurs with `b` behind it: an occurrence with at least as
-- much of the string behind it.
abbrev pub Found : Bytes → Bytes → List ℕ → Type 0
Found n b cells =
    (pre : Bytes) × (v : Bytes) × (strstr n cells ≡ some (pre, buffer v))
    × NulFree v
    × (length n + length b ≤ length v)
    × (starts_with n (buffer v) ≡ true)

pub strstr-Found :
    (x : ℕ) (n a b : Bytes)
    → NulFree (a ++ ((x ∷ n) ++ b))
    → Found (x ∷ n) b (buffer (a ++ ((x ∷ n) ++ b)))
unfolding strstr
strstr-Found x n [] b h =
    let found : starts_with n (buffer (n ++ b)) ≡ true =
      rw append_assoc (starts_with_self n (b ++ nul ∷ [])) in
    ([], x ∷ (n ++ b), ground arith, h, omega (arith, length-append {0} n b), ground arith)
strstr-Found x n (c ∷ a) b h =
    let w = a ++ ((x ∷ n) ++ b) in
    elim (Bool-cases (starts_with (x ∷ n) (buffer (c ∷ w)))) [
      | inl here ↦ (
        [],
        c ∷ w,
        ground arith,
        h,
        omega (arith, length-append {0} a ((x ∷ n) ++ b), length-append {0} (x ∷ n) b),
        here,
      )
      | inr later ↦
          let (pre, v, e, hv, l, s) = strstr-Found x n a b h.1 in
          (c ∷ pre, v, ground arith, hv, l, s)
    ]

same_end : (p m : Bytes) (z : ℕ) → buffer (p ++ (m ++ z ∷ [])) ≡ (p ++ m) ++ (z ∷ nul ∷ [])
same_end p m z = simp append_assoc

-- Before the end a match would be one in the string without its last character.
no_match_before :
    (x : ℕ) (m : Bytes) (z c : ℕ) (p : Bytes)
    → starts_with (x ∷ (m ++ z ∷ [])) (c ∷ (p ++ (x ∷ m))) ≡ false
    → starts_with (x ∷ (m ++ z ∷ [])) (c ∷ buffer (p ++ (x ∷ (m ++ z ∷ [])))) ≡ false
no_match_before x m z c p h = rw (same_end p (x ∷ m) z) (
    starts_with-append (x ∷ (m ++ z ∷ [])) (c ∷ (p ++ (x ∷ m))) (z ∷ nul ∷ [])
      (omega (arith, length-append {0} m (z ∷ []), length-append {0} p (x ∷ m)))
    ∙ h)

-- The first occurrence stands at the end.
pub strstr_final :
    (x : ℕ) (m : Bytes) (z : ℕ) (p : Bytes)
    → NulFree p
    → occurs (x ∷ (m ++ z ∷ [])) (p ++ (x ∷ m)) ≡ false
    → strstr (x ∷ (m ++ z ∷ [])) (buffer (p ++ (x ∷ (m ++ z ∷ []))))
      ≡ some (p, buffer (x ∷ (m ++ z ∷ [])))
unfolding strstr
strstr_final x m z [] hp h = ground (arith, starts_with_self (m ++ z ∷ []) (nul ∷ []))
strstr_final x m z (c ∷ p) hp h =
    ground (arith, no_match_before x m z c p, strstr_final x m z p hp.1)
