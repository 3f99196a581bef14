-- ===== src/Pathstr/Absolute.antt =====
-- The conversion of a path, `pathstr_fuse2amigados`, and its leading slash.
use fuseadf.Prelude.{
  ℕ, zero, suc, ◌≡◌, refl, Bool-cases, Option, none, some, Option-cases, inl, inr, List, [], ◌∷◌,
  ◌++◌, arith, ◌==◌,
}
use fuseadf.Pathstr.{
  nul, slash, dot, starts_with, strstr, copy_next, after_prefix, bind, remove_double_slashes,
  replace_dotdot_slash, replace_final_dotdot, pathstr_dirparent_u2a, pathstr_fuse2amigados,
}

-- Cells that begin with a slash.
abbrev pub Leads : List ℕ → Type 0
Leads [] = ⊥
Leads (c ∷ cells) = c ≡ slash

-- The same of a result, if there is one.
abbrev pub LeadsIf : Option (List ℕ) → Type 0
LeadsIf none = Unit
LeadsIf (some cells) = Leads cells

pub strstr_splits :
    (n cells pre post : List ℕ) → strstr n cells ≡ some (pre, post) → cells ≡ pre ++ post
unfolding strstr
strstr_splits n [] pre post h = cc
strstr_splits n (c ∷ cells) pre post h = elim (Bool-cases (starts_with n (c ∷ cells))) [
  | inl e ↦ ground arith
  | inr e ↦ elim (Option-cases (strstr n cells)) [
    | inl e' ↦ ground arith
    | inr ((pre', post'), e') ↦ ground (arith, strstr_splits n cells pre' post' e')
  ]
]

-- What follows a prefix may change behind the first cell.
Leads-prefix :
    (pre : List ℕ) (c : ℕ) (r r' : List ℕ) → Leads (pre ++ (c ∷ r)) → Leads (pre ++ (c ∷ r'))
Leads-prefix [] c r r' h = h
Leads-prefix (x ∷ pre) c r r' h = h

Leads-slash :
    (pre : List ℕ) (c : ℕ) (r r' : List ℕ) → Leads (pre ++ (c ∷ r)) → Leads (pre ++ (slash ∷ r'))
Leads-slash [] c r r' h = refl
Leads-slash (x ∷ pre) c r r' h = h

Leads-after :
    (pre : List ℕ) (c : ℕ) (r : List ℕ) (o : Option (List ℕ))
    → Leads (pre ++ (c ∷ r))
    → (Leads (c ∷ r) → LeadsIf o)
    → LeadsIf (after_prefix pre o)
Leads-after pre c r none h k = tt
Leads-after [] c r (some cells) h k = k h
Leads-after (x ∷ pre) c r (some cells) h k = h

remove_double_slashes-Leads :
    (fuel : ℕ) (path : List ℕ) → Leads path → LeadsIf (remove_double_slashes fuel path)
unfolding remove_double_slashes
remove_double_slashes-Leads zero path h = tt
remove_double_slashes-Leads (suc fuel) path h =
    elim (Option-cases (strstr (slash ∷ slash ∷ []) path)) [
      | inl e ↦ rw (e, remove_double_slashes) h
      | inr ((pre, []), e) ↦ rw (e, remove_double_slashes) tt
      | inr ((pre, c ∷ ch), e) ↦ elim (Option-cases (copy_next fuel ch)) [
        | inl e' ↦ rw (e, remove_double_slashes) (rw e' tt)
        | inr (ch', e') ↦
            let split = strstr_splits (slash ∷ slash ∷ []) path pre (c ∷ ch) e in
            rw (e, remove_double_slashes)
              (rw e' (
                Leads-after pre c ch (remove_double_slashes fuel (c ∷ ch')) (rw split at h)
                  λ lead. remove_double_slashes-Leads fuel (c ∷ ch') lead))
      ]
    ]

replace_dotdot_slash-Leads :
    (fuel : ℕ) (path : List ℕ) → Leads path → LeadsIf (replace_dotdot_slash fuel path)
unfolding replace_dotdot_slash
replace_dotdot_slash-Leads zero path h = tt
replace_dotdot_slash-Leads (suc fuel) path h =
    elim (Option-cases (strstr (dot ∷ dot ∷ slash ∷ []) path)) [
      | inl e ↦ rw (e, replace_dotdot_slash) h
      | inr ((pre, []), e) ↦ rw (e, replace_dotdot_slash) tt
      | inr ((pre, c ∷ rest), e) ↦ elim (Option-cases (copy_next fuel rest)) [
        | inl e' ↦ rw (e, replace_dotdot_slash) (rw e' tt)
        | inr (rest', e') ↦
            let split = strstr_splits (dot ∷ dot ∷ slash ∷ []) path pre (c ∷ rest) e in
            rw (e, replace_dotdot_slash)
              (rw e' (
                replace_dotdot_slash-Leads fuel (pre ++ (slash ∷ rest'))
                  (Leads-slash pre c rest rest' (rw split at h))))
      ]
    ]

replace_final_dotdot-Leads :
    (fuel : ℕ) (path : List ℕ) → Leads path → LeadsIf (replace_final_dotdot fuel path)
unfolding replace_final_dotdot
replace_final_dotdot-Leads zero path h = tt
replace_final_dotdot-Leads (suc fuel) path h =
    elim (Option-cases (strstr (slash ∷ dot ∷ dot ∷ []) path)) [
      | inl e ↦ rw (e, replace_final_dotdot) h
      | inr ((pre, []), e) ↦ rw (e, replace_final_dotdot) tt
      | inr ((pre, a ∷ []), e) ↦ rw (e, replace_final_dotdot) tt
      | inr ((pre, a ∷ b ∷ []), e) ↦ rw (e, replace_final_dotdot) tt
      | inr ((pre, a ∷ b ∷ c ∷ []), e) ↦ rw (e, replace_final_dotdot) tt
      | inr ((pre, a ∷ b ∷ c ∷ d ∷ rest), e) ↦ elim (Bool-cases (d == nul)) [
        | inr more ↦ rw (e, replace_final_dotdot) (rw more (replace_final_dotdot-Leads fuel path h))
        | inl done ↦ elim (Option-cases (copy_next fuel (c ∷ d ∷ rest))) [
          | inl e' ↦ rw (e, replace_final_dotdot) (rw done (rw e' tt))
          | inr (cells, e') ↦
              let split =
                strstr_splits (slash ∷ dot ∷ dot ∷ []) path pre (a ∷ b ∷ c ∷ d ∷ rest) e in
              rw (e, replace_final_dotdot)
                (rw done (
                  rw e' (
                    replace_final_dotdot-Leads fuel (pre ++ (a ∷ slash ∷ cells))
                      (Leads-prefix pre a (b ∷ c ∷ d ∷ rest) (slash ∷ cells) (rw split at h)))))
        ]
      ]
    ]

bind-Leads :
    (o : Option (List ℕ)) (f : List ℕ → Option (List ℕ))
    → LeadsIf o
    → ((cells : List ℕ) → Leads cells → LeadsIf (f cells))
    → LeadsIf (bind o f)
bind-Leads none f h k = tt
bind-Leads (some cells) f h k = k cells h

-- Where the conversion returns, a path that began with a slash still does.
pub fuse2amigados-Leads :
    (fuel : ℕ) (path : List ℕ) → Leads path → LeadsIf (pathstr_fuse2amigados fuel path)
unfolding pathstr_fuse2amigados pathstr_dirparent_u2a
fuse2amigados-Leads fuel path h =
    bind-Leads (remove_double_slashes fuel path) _ (remove_double_slashes-Leads fuel path h)
      λ cells lead.
        bind-Leads (replace_dotdot_slash fuel cells) (replace_final_dotdot fuel)
          (replace_dotdot_slash-Leads fuel cells lead) (replace_final_dotdot-Leads fuel)
