-- ===== src/Workdir/Chdir.antt =====
-- `adfimage_chdir`: `cwd` and the volume after a change of directory, and the way back.
use fuseadf.Prelude.{
  ◌≡◌, refl, sym, ap, ◌∙◌, Bool, true, false, Bool-cases, inl, inr, some, List, [], ◌∷◌, ◌++◌,
  Bytes, strcmp_eq, if◌then◌else◌,
}
use mathlib.Core.Option.{some-injective}
use fuseadf.Pathstr.{slash, dot, pathstr_get_relative}
use fuseadf.Adflib.{Adflib, is_ok}
use fuseadf.Adflib.Laws.{IsDirectory, KeepsOnFailure}
use fuseadf.Image.{Image, root_path, components, append_dir, enter_dirs, enter_path, to_root, chdir}
use fuseadf.History.Chdir.{SameDisk, chdir-SameDisk}
use fuseadf.Workdir.{render, asked, is_nil, Names, descend, At}
use fuseadf.Workdir.Enter.{enter_dirs-descend, enter_path-Names}
use fuseadf.Workdir.Paths.{render-join, relative_join}

module _ (L : Adflib) (D : IsDirectory L) (K : KeepsOnFailure L) where
  open L use {Vol, to_root_dir, change_dir}

  -- How far a list of names was followed, from an image to a result.
  abbrev Followed : Image Vol → List Bytes → Bool × Image Vol → Type 0
  Followed img dirs r =
      (done : List Bytes) × (rest : List Bytes) × (dirs ≡ done ++ rest)
      × (r.0 ≡ is_nil rest)
      × (r.1.cwd ≡ render img.cwd done)
      × (descend L img.vol done ≡ some r.1.vol)

  enter_dirs-Followed :
      (dirs : List Bytes) (img : Image Vol) → Followed img dirs (enter_dirs L dirs img)
  unfolding enter_dirs append_dir render descend
  enter_dirs-Followed [] img = ([], [], refl, refl, refl, refl)
  enter_dirs-Followed (dir ∷ dirs) img = elim (Bool-cases (is_ok (change_dir img.vol dir).0)) [
    | inr e ↦ (
      [],
      dir ∷ dirs,
      refl,
      rw (e, enter_dirs) refl,
      rw (e, enter_dirs) refl,
      rw (e, enter_dirs) (ap some (sym (K.change_dir_failed img.vol dir e))),
    )
    | inl e ↦
        let (done, rest, split, ok, cwd, vol) =
          enter_dirs-Followed dirs
            (append_dir L dir (record img { vol = (change_dir img.vol dir).1 })) in
        (
          dir ∷ done,
          rest,
          ap (λ t. dir ∷ t) split,
          rw (e, enter_dirs) ok,
          rw (e, enter_dirs) cwd,
          rw (e, enter_dirs, descend) vol,
        )
  ]

  enter_path-Followed :
      (path : Bytes) (img : Image Vol) → Followed img (asked path) (enter_path L path img)
  unfolding asked render descend
  enter_path-Followed [] img = ([], [], refl, refl, refl, refl)
  enter_path-Followed (c ∷ path) img = go (strcmp_eq (c ∷ path) (dot ∷ []))
    where
      go :
          (b : Bool)
          → Followed img
              (if b then [] else components (c ∷ path))
              (if b then (true, img) else enter_dirs L (components (c ∷ path)) img)
      go true = ([], [], refl, refl, refl, refl)
      go false = enter_dirs-Followed (components (c ∷ path)) img

  -- After a change to an absolute path, successful or not, `cwd` spells the way from the root to
  -- where the volume stands: the names of the path in their order, all of them if the result is
  -- true, and otherwise those before the first that could not be entered. ADFlib meets
  -- `IsDirectory` and `KeepsOnFailure`.
  pub chdir-At :
      (path : Bytes) (img : Image Vol)
      → (done : List Bytes) × (rest : List Bytes) × (asked (pathstr_get_relative (slash ∷ path))
          ≡ done ++ rest)
        × ((chdir L (slash ∷ path) img).0 ≡ is_nil rest)
        × At L (chdir L (slash ∷ path) img).1 done
  unfolding chdir to_root
  chdir-At path img =
      let start : Image Vol = record (to_root L img) { cwd = root_path } in
      let (done, rest, split, ok, cwd, vol) =
        enter_path-Followed (pathstr_get_relative (slash ∷ path)) start in
      let there = chdir L (slash ∷ path) img in
      (
        done,
        rest,
        split,
        ok,
        record {
          spelled = cwd;
          reached = rw (SameDisk.same_root (chdir-SameDisk L D (slash ∷ path) img)) vol;
        },
      )

  -- Going back: from any image of the same disk, a change to the `cwd` of an image restores the
  -- image, its volume's directory and its `cwd`, if that `cwd` spells names that lead from the root
  -- to where its volume stands. ADFlib meets `IsDirectory` and `KeepsOnFailure`.
  pub chdir_back :
      (dirs : List Bytes) (img there : Image Vol)
      → Names dirs
      → At L img dirs
      → SameDisk L there img
      → chdir L img.cwd there ≡ (true, img)
  unfolding chdir to_root render descend pathstr_get_relative
  chdir_back [] img there names at s =
      let vol = s.same_root ∙ some-injective _ _ at.reached in
      rw at.spelled
        (λ i. (true, record { vol = vol i; cwd = root_path; blksize = s.same_blksize i }))
  chdir_back (d ∷ ds) img there names at s =
      let start : Image Vol = record (to_root L there) { cwd = root_path } in
      let reached = rw (← s.same_root) at at.reached in
      rw (at.spelled, render-join d ds names.0.0)
        (rw (relative_join d ds names, enter_path-Names L d ds start names)
          (enter_dirs-descend L (d ∷ ds) start img.vol reached ∙ λ i. (
            true,
            record {
              vol = img.vol;
              cwd = render-join d ds names.0.0 i;
              blksize = s.same_blksize i;
            },
          )))
