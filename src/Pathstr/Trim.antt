-- ===== src/Pathstr/Trim.antt =====
-- The two functions that strip slashes from an end of a path.
use fuseadf.Prelude.{
  ℕ, zero, suc, ◌<◌, ◌≡◌, refl, false, none, some, [], ◌∷◌, ◌++◌, append_assoc, append-nil, ap,
  length-append, arith, Bytes, length, replicate, Bool-cases, inl, inr, ◌==◌, Option-cases,
}
use fuseadf.Pathstr.{
  slash, starts_with, drop_last_slash, pathstr_get_relative, pathstr_remove_trailing_slashes,
}

-- A relative path is the path without its leading slashes, all of them.
get_relative_strips :
    (path : Bytes)
    → (n : ℕ) × (path ≡ replicate n slash ++ pathstr_get_relative path)
      × (starts_with (slash ∷ []) (pathstr_get_relative path) ≡ false)
unfolding pathstr_get_relative
get_relative_strips [] = (0, refl, ground arith)
get_relative_strips (c ∷ path) =
    let (n, e, s) = get_relative_strips path in
    elim (Bool-cases (c == slash)) [
      | inl h ↦ (suc n, ground arith, ground arith)
      | inr h ↦ (0, ground arith, ground arith)
    ]

drop_last_slash_lem : (path s : Bytes) → drop_last_slash path ≡ some s → path ≡ s ++ slash ∷ []
drop_last_slash_lem [] s h = cc
drop_last_slash_lem (c ∷ []) s h = ground arith
drop_last_slash_lem (c ∷ d ∷ path) s h = elim (Option-cases (drop_last_slash (d ∷ path))) [
  | inl e ↦ ground arith
  | inr (t, e) ↦ ground (arith, drop_last_slash_lem (d ∷ path) t e)
]

replicate-snoc : (n : ℕ) (c : ℕ) → replicate n c ++ c ∷ [] ≡ replicate (suc n) c
replicate-snoc zero c = refl
replicate-snoc (suc n) c = ap (λ t. c ∷ t) (replicate-snoc n c)

one_more :
    (path s shorter : Bytes) (n : ℕ)
    → path ≡ shorter ++ slash ∷ []
    → shorter ≡ s ++ replicate n slash
    → path ≡ s ++ replicate (suc n) slash
one_more path s shorter n e q =
    rw (← replicate-snoc n slash, ← append_assoc s (replicate n slash) (slash ∷ []), ← q) e

-- With more fuel than the path has bytes the function returns the path without its trailing
-- slashes, all of them.
remove_trailing_strips :
    (fuel : ℕ) (path : Bytes)
    → length path < fuel
    → (s : Bytes) × (pathstr_remove_trailing_slashes fuel path ≡ some s)
      × (drop_last_slash s ≡ none)
      × (n : ℕ) × (path ≡ s ++ replicate n slash)
unfolding pathstr_remove_trailing_slashes
remove_trailing_strips zero path h = absurd (omega arith)
remove_trailing_strips (suc fuel) path h = elim (Option-cases (drop_last_slash path)) [
  | inl e ↦ (path, rw (e, pathstr_remove_trailing_slashes), e, 0, rw append-nil)
  | inr (shorter, e) ↦
      let whole = drop_last_slash_lem path shorter e in
      let (s, r, d, n, q) =
        remove_trailing_strips fuel shorter
          (omega (arith, ap length whole, length-append {0} shorter (slash ∷ []))) in
      (s, rw (e, pathstr_remove_trailing_slashes) r, d, suc n, one_more path s shorter n whole q)
]
