-- ===== src/Tests/Content.antt =====
-- The volume of the tests keeps what is written to its files.
use fuseadf.Prelude.{
  ℕ, ◌+◌, ◌≤◌, ◌≡◌, refl, ap, sym, ◌∙◌, Bool, true, false, Bool-cases, Option, none, some, inl, inr,
  List, ◌∷◌, [], Bytes, codes, length, take, drop, arith, strcmp_eq, if◌then◌else◌,
}
use mathlib.Core.Option.{some-injective}
use mathlib.Core.Path.{subst}
use fuseadf.Adflib.{FileMode, mode_write}
use fuseadf.Named.{locate}
use fuseadf.Named.Transfer.Back.{splice, IsFileStore}
use fuseadf.Tests.Toy.{Toy, toy, at_root_image, text_of, with_text, wrote}
use fuseadf.Tests.Store.{stand, located}

abbrev text_at : Toy → Option Toy → Option Bytes
text_at v none = none
text_at v (some there) = some (text_of there.at_root v)

abbrev pub contents : Toy → List Bytes → Bytes → Option Bytes
contents v dirs name = if strcmp_eq name (codes "f") then text_at v (locate toy v dirs) else none

abbrev Opened : Bool × ℕ → Toy → FileMode → List Bytes → Bytes → ℕ → Bytes → Type 0
Opened (in_root, position) v m dirs name at bytes =
    (position ≡ at)
    × (strcmp_eq name (codes "f") ≡ true)
    × ((v' : Toy) → locate toy v' dirs ≡ some (stand in_root v'))
    × (text_of in_root v ≡ bytes)

text_of-with_text :
    (in_root : Bool) (text : Bytes) (v : Toy) → text_of in_root (with_text in_root text v) ≡ text
text_of-with_text true text v = refl
text_of-with_text false text v = refl

text_of-stand :
    (in_root at_root : Bool) (v : Toy) → text_of in_root v ≡ text_of in_root (stand at_root v)
text_of-stand true at_root v = refl
text_of-stand false at_root v = refl

contents_free :
    (v : Toy) (dirs : List Bytes) (name : Bytes)
    → contents v dirs name ≡ contents (stand true v) dirs name
contents_free v dirs name =
    ap (λ o. if strcmp_eq name (codes "f") then o else none) (go (locate toy v dirs))
  where
    go : (o : Option Toy) → text_at v o ≡ text_at (stand true v) o
    go none = refl
    go (some there) = ap some (text_of-stand there.at_root true v)

opened_there :
    (in_root : Bool) (v : Toy) (name : Bytes) (m : FileMode) (f : Bool × ℕ) (w : Toy)
    → strcmp_eq name (codes "f") ≡ true
    → toy.file_open (stand in_root v) name m ≡ (some f, w)
    → (f ≡ (in_root, 0)) × (w ≡ stand in_root v)
opened_there in_root v name m f w e h =
    let known : (some (in_root, 0), stand in_root v) ≡ (some f, w) = rw e at h in
    (
      sym (some-injective _ _ (ap (λ (r : Option (Bool × ℕ) × Toy). r.0) known)),
      sym (ap (λ (r : Option (Bool × ℕ) × Toy). r.1) known),
    )

opens :
    (v : Toy) (dirs : List Bytes) (name bytes : Bytes) (there : Toy) (m : FileMode) (f : Bool × ℕ)
    (w : Toy)
    → locate toy v dirs ≡ some there
    → contents v dirs name ≡ some bytes
    → toy.file_open there name m ≡ (some f, w)
    → Opened f w m dirs name 0 bytes
opens v dirs name bytes there m f w found holds opened =
    elim (Bool-cases (strcmp_eq name (codes "f"))) [
      | inr e ↦ absurd (cc (rw e at holds))
      | inl e ↦
          let (in_root, same, leads) = located v dirs there found in
          let text = some-injective _ _ (rw (e, leads v) at holds) in
          let (f_is, w_is) =
            opened_there in_root v name m f w e
              (subst (λ t. toy.file_open t name m ≡ (some f, w)) same opened) in
          rw (f_is, w_is) (refl, e, leads, sym (text_of-stand in_root in_root v) ∙ text)
    ]

closes :
    (f : Bool × ℕ) (v : Toy) (m : FileMode) (dirs : List Bytes) (name bytes : Bytes) (at : ℕ)
    → Opened f v m dirs name at bytes
    → contents v dirs name ≡ some bytes
closes (in_root, position) v m dirs name bytes at (same, named, leads, text) =
    rw (named, leads v) (ap some text)

writes :
    (f : Bool × ℕ) (v : Toy) (dirs : List Bytes) (name bytes : Bytes) (at : ℕ) (data' : Bytes)
    → Opened f v mode_write dirs name at bytes
    → let (m, f', w) = toy.file_write f (length data') data' v in
      (m ≤ length data')
      × Opened f' w mode_write dirs name (at + m) (splice at (take m data') bytes)
writes (in_root, position) v dirs name bytes at data' (same, named, leads, text) = (
  omega arith,
  (
    omega (arith, same),
    named,
    leads,
    text_of-with_text in_root _ (wrote v)
        ∙ (λ i. splice (same i) (take (length data') data') (text i)),
  ),
)

pub toy-IsFileStore : IsFileStore toy
toy-IsFileStore = record {
  contents = contents;
  Opened = Opened;
  contents_free = contents_free;
  opens = opens;
  seeks = λ f v m dirs name bytes at n o inside ok. (refl, o.1, o.2, o.3);
  reads = λ f v dirs name bytes at n o. (λ i. take n (drop (o.0 i) (o.3 i)));
  writes = writes;
  closes = closes;
}

pub hello_in_d :
    toy-IsFileStore.contents at_root_image.vol (codes "d" ∷ []) (codes "f") ≡ some (codes "hello")
unfolding toy-IsFileStore fuseadf.Workdir.descend strcmp_eq
hello_in_d = refl
