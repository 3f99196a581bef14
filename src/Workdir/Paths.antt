-- ===== src/Workdir/Paths.antt =====
-- The names in a path and the path that spells them.
use fuseadf.Prelude.{
  ◌≡◌, refl, sym, ap, ◌∙◌, ◌≢◌, false, Bool-cases, inl, inr, List, [], ◌∷◌, ◌++◌, append_assoc,
  append-nil, arith, Bytes, strcmp_eq, strcmp_eq→eq,
}
use fuseadf.Pathstr.{slash, dot, pathstr_get_relative}
use fuseadf.Image.{root_path, components}
use fuseadf.Workdir.{render, asked, NoSlash, Names}

-- The names joined by slashes.
unfoldable pub join : List Bytes → Bytes
join [] = []
join (d ∷ []) = d
join (d ∷ e ∷ ds) = d ++ (slash ∷ join (e ∷ ds))

pub components_name : (d : Bytes) → NoSlash d → components d ≡ d ∷ []
unfolding components
components_name [] h = refl
components_name (c ∷ d) h = ground (arith, components_name d h.1)

pub components-append : (d s : Bytes) → NoSlash d → components (d ++ (slash ∷ s)) ≡ d ∷ components s
unfolding components
components-append [] s h = ground arith
components-append (c ∷ d) s h = ground (arith, components-append d s h.1)

-- A path that joins names is cut into the same names.
pub components-join :
    (d : Bytes) (ds : List Bytes) → Names (d ∷ ds) → components (join (d ∷ ds)) ≡ d ∷ ds
unfolding join
components-join d [] h = components_name d h.0.2
components-join d (e ∷ ds) h =
    components-append d (join (e ∷ ds)) h.0.2 ∙ ap (λ t. d ∷ t) (components-join e ds h.1)

-- Slashes in front of each name.
tail_of : List Bytes → Bytes
tail_of [] = []
tail_of (d ∷ ds) = slash ∷ (d ++ tail_of ds)

join-tail : (d : Bytes) (ds : List Bytes) → join (d ∷ ds) ≡ d ++ tail_of ds
unfolding join tail_of
join-tail d [] = rw append-nil
join-tail d (e ∷ ds) = rw (join-tail e ds)

-- Behind the root a longer path is spelled.
not_root : (c : Bytes) → c ≢ [] → strcmp_eq (slash ∷ c) root_path ≡ false
unfolding strcmp_eq
not_root [] h = absurd (h refl)
not_root (x ∷ c) h = ground arith

append_ne_nil : (a b : Bytes) → a ≢ [] → a ++ b ≢ []
append_ne_nil [] b h = absurd (h refl)
append_ne_nil (x ∷ a) b h = λ e. cc

render-long :
    (c : Bytes) (ds : List Bytes) → c ≢ [] → render (slash ∷ c) ds ≡ slash ∷ (c ++ tail_of ds)
unfolding render tail_of
render-long c [] h = rw append-nil
render-long c (d ∷ ds) h = rw (not_root c h) (
    render-long ((c ++ root_path) ++ d) ds (append_ne_nil _ d (append_ne_nil c root_path h))
    ∙ simp append_assoc)

pub render-join :
    (d : Bytes) (ds : List Bytes) → d ≢ [] → render root_path (d ∷ ds) ≡ slash ∷ join (d ∷ ds)
unfolding render strcmp_eq
render-join d ds h = render-long d ds h ∙ ap (λ t. slash ∷ t) (sym (join-tail d ds))

-- A path that joins names begins with none but a name's character, and is not `.`.
pub relative_join :
    (d : Bytes) (ds : List Bytes)
    → Names (d ∷ ds)
    → pathstr_get_relative (slash ∷ join (d ∷ ds)) ≡ join (d ∷ ds)
unfolding pathstr_get_relative join
relative_join [] ds h = absurd (h.0.0 refl)
relative_join (c ∷ d) [] h = ground arith
relative_join (c ∷ d) (e ∷ ds) h = ground arith

pub join_not_dot :
    (d : Bytes) (ds : List Bytes) → Names (d ∷ ds) → strcmp_eq (join (d ∷ ds)) (dot ∷ []) ≡ false
unfolding join
join_not_dot d ds h = elim (Bool-cases (strcmp_eq (join (d ∷ ds)) (dot ∷ []))) [
  | inr e ↦ e
  | inl e ↦ absurd (go d ds h (strcmp_eq→eq _ _ e))
]
  where
    go : (d : Bytes) (ds : List Bytes) → Names (d ∷ ds) → join (d ∷ ds) ≢ dot ∷ []
    go d [] h e = h.0.1 e
    go [] (x ∷ ds) h e = h.0.0 refl
    go (c ∷ []) (x ∷ ds) h e = ground arith
    go (c ∷ b ∷ d) (x ∷ ds) h e = ground arith

-- The names that such a path asks for.
pub asked-join : (d : Bytes) (ds : List Bytes) → Names (d ∷ ds) → asked (join (d ∷ ds)) ≡ d ∷ ds
unfolding asked join
asked-join [] ds h = absurd (h.0.0 refl)
asked-join (c ∷ d) [] h = rw (join_not_dot (c ∷ d) [] h) (components-join (c ∷ d) [] h)
asked-join (c ∷ d) (e ∷ ds) h =
    rw (join_not_dot (c ∷ d) (e ∷ ds) h) (components-join (c ∷ d) (e ∷ ds) h)
