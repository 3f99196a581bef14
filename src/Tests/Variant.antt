-- ===== src/Tests/Variant.antt =====
-- The volume of the tests with another listing and another rename. Names lead to the same places.
use fuseadf.Prelude.{◌≡◌, refl, sym, ◌∙◌, Bool-cases, inl, inr, Bool, some, List, [], ◌∷◌, Bytes, ℤ}
use fuseadf.Adflib.{Adflib, AdfEntry, is_ok}
use fuseadf.Adflib.Laws.{IsDirectory, KeepsOnFailure}
use fuseadf.Workdir.{descend}
use fuseadf.Named.{locate}
use fuseadf.Tests.Toy.{Toy, toy, toy_IsDirectory, toy_KeepsOnFailure}
use fuseadf.Tests.Store.{stand, located}

module _ (listing : Toy → ℤ → List AdfEntry) (rename : Toy → ℤ → Bytes → ℤ → Bytes → ℤ × Toy) where
  abbrev pub variant : Adflib
  variant = record toy { get_dir_ent = listing; rename_entry = rename }

  pub variant_IsDirectory : IsDirectory variant
  variant_IsDirectory = record {
    to_root-to_root = toy_IsDirectory.to_root-to_root;
    to_root-change_dir = toy_IsDirectory.to_root-change_dir;
  }

  pub variant_KeepsOnFailure : KeepsOnFailure variant
  variant_KeepsOnFailure = record { change_dir_failed = toy_KeepsOnFailure.change_dir_failed }

  descend-variant : (dirs : List Bytes) (v : Toy) → descend variant v dirs ≡ descend toy v dirs
  unfolding descend
  descend-variant [] v = refl
  descend-variant (d ∷ dirs) v = elim (Bool-cases (is_ok (toy.change_dir v d).0)) [
    | inl e ↦ rw (e, descend) (descend-variant dirs (toy.change_dir v d).1)
    | inr e ↦ rw (e, descend) refl
  ]

  -- A volume stands where names lead, whatever it holds.
  pub variant-located :
      (v : Toy) (dirs : List Bytes) (there : Toy)
      → locate variant v dirs ≡ some there
      → (at_root : Bool) × (there ≡ stand at_root v)
        × ((v' : Toy) → locate variant v' dirs ≡ some (stand at_root v'))
  variant-located v dirs there found =
      let (at_root, same, all) =
        located v dirs there (sym (descend-variant dirs (toy.to_root_dir v)) ∙ found) in
      (at_root, same, λ v'. descend-variant dirs (toy.to_root_dir v') ∙ all v')
