-- ===== src/Pathstr/Cells.antt =====
-- The cells of a path's buffer when `pathstr_fuse2amigados` has converted it.
use fuseadf.Prelude.{
  ℕ, zero, suc, ◌≡◌, ◌≤◌, refl, sym, ◌∙◌, Bool-cases, Option, none, some, Option-cases, inl, inr,
  List, [], ◌∷◌, ◌++◌, Bytes, length, length-append, arith, ◌==◌,
}
use mathlib.Core.Option.{some-injective}
use fuseadf.Pathstr.{
  nul, slash, dot, buffer, c_str, strstr, copy_next, after_prefix, bind, remove_double_slashes,
  replace_dotdot_slash, replace_final_dotdot, pathstr_dirparent_u2a, pathstr_fuse2amigados,
}
use fuseadf.Pathstr.Absolute.{strstr_splits}

-- The last cell is a NUL.
abbrev pub IsEnded : List ℕ → Type 0
IsEnded [] = ⊥
IsEnded (c ∷ []) = c ≡ nul
IsEnded (c ∷ d ∷ cells) = IsEnded (d ∷ cells)

-- As many cells as before, and a NUL at the end if there was one.
abbrev pub Keeps : List ℕ → List ℕ → Type 0
Keeps cells cells' = (length cells' ≡ length cells) × (IsEnded cells → IsEnded cells')

abbrev pub KeepsIf : List ℕ → Option (List ℕ) → Type 0
KeepsIf cells none = Unit
KeepsIf cells (some cells') = Keeps cells cells'

Keeps-prefix :
    (pre cells cells' : List ℕ) → Keeps cells cells' → Keeps (pre ++ cells) (pre ++ cells')
Keeps-prefix [] cells cells' k = k
Keeps-prefix (x ∷ []) [] [] k = (refl, λ e. e)
Keeps-prefix (x ∷ []) [] (c ∷ cells') (same, k) = absurd (omega arith)
Keeps-prefix (x ∷ []) (c ∷ cells) [] (same, k) = absurd (omega arith)
Keeps-prefix (x ∷ []) (c ∷ cells) (d ∷ cells') (same, k) = (omega arith, k)
Keeps-prefix (x ∷ y ∷ pre) cells cells' k =
    let (same, k') = Keeps-prefix (y ∷ pre) cells cells' k in (omega arith, k')

Keeps-trans : (a b : List ℕ) (o : Option (List ℕ)) → Keeps a b → KeepsIf b o → KeepsIf a o
Keeps-trans a b none k l = tt
Keeps-trans a b (some c) (same, k) (same', l) = (same' ∙ same, λ e. l (k e))

-- The cells behind one that changes too.
copy_next-Keeps :
    (fuel : ℕ) (cells cells' : List ℕ)
    → copy_next fuel cells ≡ some cells'
    → (c c' : ℕ) → Keeps (c ∷ cells) (c' ∷ cells')
unfolding copy_next
copy_next-Keeps zero cells cells' e c c' = absurd cc
copy_next-Keeps (suc fuel) [] cells' e c c' = absurd cc
copy_next-Keeps (suc fuel) (a ∷ []) cells' e c c' = absurd cc
copy_next-Keeps (suc fuel) (a ∷ d ∷ rest) cells' e c c' = elim (Bool-cases (d == nul)) [
  | inl h ↦
      let stored : d ∷ d ∷ rest ≡ cells' = some-injective _ _ (rw h at e) in
      rw (sym stored) (refl, λ k. k)
  | inr h ↦ copy_next-Keeps fuel (d ∷ d ∷ rest) cells' (rw h at e) c c'
]

after_prefix-Keeps :
    (pre cells : List ℕ) (o : Option (List ℕ))
    → KeepsIf cells o
    → KeepsIf (pre ++ cells) (after_prefix pre o)
after_prefix-Keeps pre cells none k = tt
after_prefix-Keeps pre cells (some cells') k = Keeps-prefix pre cells cells' k

bind-Keeps :
    (cells : List ℕ) (o : Option (List ℕ)) (f : List ℕ → Option (List ℕ))
    → KeepsIf cells o
    → ((cells' : List ℕ) → KeepsIf cells' (f cells'))
    → KeepsIf cells (bind o f)
bind-Keeps cells none f k l = tt
bind-Keeps cells (some cells') f k l = Keeps-trans cells cells' (f cells') k (l cells')

remove_double_slashes-Keeps :
    (fuel : ℕ) (path : List ℕ) → KeepsIf path (remove_double_slashes fuel path)
unfolding remove_double_slashes
remove_double_slashes-Keeps zero path = tt
remove_double_slashes-Keeps (suc fuel) path =
    elim (Option-cases (strstr (slash ∷ slash ∷ []) path)) [
      | inl e ↦ rw (e, remove_double_slashes) (refl, λ k. k)
      | inr ((pre, []), e) ↦ rw (e, remove_double_slashes) tt
      | inr ((pre, c ∷ ch), e) ↦ elim (Option-cases (copy_next fuel ch)) [
        | inl e' ↦ rw (e, remove_double_slashes) (rw e' tt)
        | inr (ch', e') ↦
            let split = strstr_splits (slash ∷ slash ∷ []) path pre (c ∷ ch) e in
            rw (e, remove_double_slashes)
              (rw e' (
                rw split (
                  after_prefix-Keeps pre (c ∷ ch) (remove_double_slashes fuel (c ∷ ch')) (
                    Keeps-trans (c ∷ ch) (c ∷ ch') _ (copy_next-Keeps fuel ch ch' e' c c)
                      (remove_double_slashes-Keeps fuel (c ∷ ch'))))))
      ]
    ]

replace_dotdot_slash-Keeps :
    (fuel : ℕ) (path : List ℕ) → KeepsIf path (replace_dotdot_slash fuel path)
unfolding replace_dotdot_slash
replace_dotdot_slash-Keeps zero path = tt
replace_dotdot_slash-Keeps (suc fuel) path =
    elim (Option-cases (strstr (dot ∷ dot ∷ slash ∷ []) path)) [
      | inl e ↦ rw (e, replace_dotdot_slash) (refl, λ k. k)
      | inr ((pre, []), e) ↦ rw (e, replace_dotdot_slash) tt
      | inr ((pre, c ∷ rest), e) ↦ elim (Option-cases (copy_next fuel rest)) [
        | inl e' ↦ rw (e, replace_dotdot_slash) (rw e' tt)
        | inr (rest', e') ↦
            let split = strstr_splits (dot ∷ dot ∷ slash ∷ []) path pre (c ∷ rest) e in
            rw (e, replace_dotdot_slash)
              (rw e' (
                rw split (
                  Keeps-trans (pre ++ (c ∷ rest)) (pre ++ (slash ∷ rest')) _
                    (Keeps-prefix pre _ _ (copy_next-Keeps fuel rest rest' e' c slash))
                    (replace_dotdot_slash-Keeps fuel (pre ++ (slash ∷ rest'))))))
      ]
    ]

replace_final_dotdot-Keeps :
    (fuel : ℕ) (path : List ℕ) → KeepsIf path (replace_final_dotdot fuel path)
unfolding replace_final_dotdot
replace_final_dotdot-Keeps zero path = tt
replace_final_dotdot-Keeps (suc fuel) path =
    elim (Option-cases (strstr (slash ∷ dot ∷ dot ∷ []) path)) [
      | inl e ↦ rw (e, replace_final_dotdot) (refl, λ k. k)
      | inr ((pre, []), e) ↦ rw (e, replace_final_dotdot) tt
      | inr ((pre, a ∷ []), e) ↦ rw (e, replace_final_dotdot) tt
      | inr ((pre, a ∷ b ∷ []), e) ↦ rw (e, replace_final_dotdot) tt
      | inr ((pre, a ∷ b ∷ c ∷ []), e) ↦ rw (e, replace_final_dotdot) tt
      | inr ((pre, a ∷ b ∷ c ∷ d ∷ rest), e) ↦ elim (Bool-cases (d == nul)) [
        | inr more ↦ rw (e, replace_final_dotdot) (rw more (replace_final_dotdot-Keeps fuel path))
        | inl done ↦ elim (Option-cases (copy_next fuel (c ∷ d ∷ rest))) [
          | inl e' ↦ rw (e, replace_final_dotdot) (rw done (rw e' tt))
          | inr (cells, e') ↦
              let split =
                strstr_splits (slash ∷ dot ∷ dot ∷ []) path pre (a ∷ b ∷ c ∷ d ∷ rest) e in
              let copied = copy_next-Keeps fuel (c ∷ d ∷ rest) cells e' b slash in
              rw (e, replace_final_dotdot)
                (rw done (
                  rw e' (
                    rw split (
                      Keeps-trans (pre ++ (a ∷ b ∷ c ∷ d ∷ rest)) (pre ++ (a ∷ slash ∷ cells)) _
                        (Keeps-prefix pre _ _
                          (Keeps-prefix (a ∷ []) (b ∷ c ∷ d ∷ rest) (slash ∷ cells) copied))
                        (replace_final_dotdot-Keeps fuel (pre ++ (a ∷ slash ∷ cells)))))))
        ]
      ]
    ]

-- The conversion of a path stays within its buffer: where it returns, the buffer has as many cells
-- as before, and a NUL at its end if it had one there.
pub fuse2amigados-Keeps :
    (fuel : ℕ) (path : List ℕ) → KeepsIf path (pathstr_fuse2amigados fuel path)
unfolding pathstr_fuse2amigados pathstr_dirparent_u2a
fuse2amigados-Keeps fuel path =
    bind-Keeps path (remove_double_slashes fuel path) _ (remove_double_slashes-Keeps fuel path)
      λ cells.
        bind-Keeps cells (replace_dotdot_slash fuel cells) (replace_final_dotdot fuel)
          (replace_dotdot_slash-Keeps fuel cells) (replace_final_dotdot-Keeps fuel)

buffer-IsEnded : (s : Bytes) → IsEnded (buffer s)
buffer-IsEnded [] = refl
buffer-IsEnded (c ∷ []) = refl
buffer-IsEnded (c ∷ d ∷ s) = buffer-IsEnded (d ∷ s)

length-c_str : (cells : List ℕ) → IsEnded cells → suc (length (c_str cells)) ≤ length cells
length-c_str [] e = absurd e
length-c_str (c ∷ []) e = rw e (omega arith)
length-c_str (c ∷ d ∷ cells) e = elim (Bool-cases (c == nul)) [
  | inl h ↦ rw h (omega arith)
  | inr h ↦ rw h (omega (arith, length-c_str (d ∷ cells) e))
]

-- The string of a buffer that has been converted is no longer than the one that was there.
pub length-converted :
    (s : Bytes) (cells : List ℕ) → Keeps (buffer s) cells → length (c_str cells) ≤ length s
length-converted s cells (same, k) =
    omega (arith, length-c_str cells (k (buffer-IsEnded s)), length-append {0} s (nul ∷ []), same)
