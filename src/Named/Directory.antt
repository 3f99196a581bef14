-- ===== src/Named/Directory.antt =====
-- Functions of src/adfimage.c that change to the directory of a path, work there and go back, against
-- operations in the directory that names lead to.
use fuseadf.Prelude.{
  ◌≡◌, ap, sym, ◌∙◌, Bool, true, false, Option, none, some, Option-cases, inl, inr, List, Bytes, ℕ,
}
use fuseadf.Adflib.{Adflib}
use fuseadf.Adflib.Laws.{IsDirectory}
use fuseadf.Image.{Image, to_root, enter_dirs, leave_dirpath}
use fuseadf.History.Chdir.{SameDisk, enter_dirs-SameDisk, leave_dirpath-SameDisk}
use fuseadf.Workdir.{descend, render}
use fuseadf.Workdir.Enter.{enter_dirs-descend, enter_dirs_fails}
use fuseadf.Named.{locate}

module _ (L : Adflib) {A : Type 0} where
  open L use {Vol, to_root_dir}

  -- With the volume taken back to its root.
  abbrev pub rooted : A × Vol → A × Vol
  rooted (a, v) = (a, to_root_dir v)

  -- In the directory that the names lead to, or, if they lead nowhere, at the root.
  abbrev pub at_dir : (Vol → A × Vol) → (Vol → A × Vol) → Vol → List Bytes → A × Vol
  at_dir missing run v dirs = elim (locate L v dirs) [
    | none ↦ missing (to_root_dir v)
    | some there ↦ rooted (run there)
  ]

  -- Where the volume stands does not matter.
  pub at_dir_rooted :
      (D : IsDirectory L) (missing run : Vol → A × Vol) (v : Vol) (dirs : List Bytes)
      → at_dir missing run v dirs ≡ at_dir missing run (to_root_dir v) dirs
  at_dir_rooted D missing run v dirs =
      ap (λ w. elim (descend L w dirs) [ none ↦ missing w | some there ↦ rooted (run there) ])
        (sym (D.to_root-to_root v))

  -- The same answer, on the same disk, and the block size.
  abbrev pub Same : A × Image Vol → A × Vol → ℕ → Type 0
  Same (a, img) (a', v) blksize =
      (a ≡ a') × (to_root_dir img.vol ≡ to_root_dir v) × (img.blksize ≡ blksize)

  abbrev pub Gives : A × Image Vol → A × Vol → ℕ → Type 0
  Gives (a, img) (a', v) blksize = (a ≡ a') × (to_root_dir img.vol ≡ v) × (img.blksize ≡ blksize)

  -- Going back to the working directory keeps the disk.
  pub leave-Same :
      (D : IsDirectory L) (cwd : Option Bytes) {a a' : A} (img : Image Vol)
      → a ≡ a'
      → Same (a, leave_dirpath L cwd img) (a', img.vol) img.blksize
  leave-Same D cwd img e =
      let back = leave_dirpath-SameDisk L D cwd img in (e, back.same_root, back.same_blksize)

  -- What is run behind the change of directory, if it has succeeded and if it has failed.
  pub at_dir_lem_at :
      (D : IsDirectory L) (body : Bool × Image Vol → A × Image Vol) (missing run : Vol → A × Vol)
      (dirs : List Bytes) (cwd : Bytes) (img : Image Vol)
      → ((there : Vol)
          → locate L img.vol dirs ≡ some there
          → Same
              (body (true, record { vol = there; cwd = render cwd dirs; blksize = img.blksize }))
              (run there)
              img.blksize)
      → ((there : Image Vol)
          → Gives (body (false, there)) (missing (to_root_dir there.vol)) there.blksize)
      → Gives
          (body (enter_dirs L dirs (record (to_root L img) { cwd = cwd })))
          (at_dir missing run img.vol dirs)
          img.blksize
  unfolding to_root
  at_dir_lem_at D body missing run dirs cwd img found fails =
      elim (Option-cases (locate L img.vol dirs)) [
        | inl e ↦
            rw (e, at_dir)
              (failed (enter_dirs L dirs start) (enter_dirs_fails L dirs start e)
                (enter_dirs-SameDisk L D dirs start))
        | inr (there, e) ↦ rw (at_dir, enter_dirs-descend L dirs start there e, e) (found there e)
      ]
    where
      start : Image Vol
      start = record (to_root L img) { cwd = cwd }

      failed :
          (r : Bool × Image Vol)
          → r.0 ≡ false
          → SameDisk L r.1 start
          → Gives (body r) (missing (to_root_dir img.vol)) img.blksize
      failed (true, there) h s = absurd (cc h)
      failed (false, there) h s =
          let (a, disk, size) = fails there in
          let root : to_root_dir there.vol ≡ to_root_dir img.vol =
            s.same_root ∙ D.to_root-to_root img.vol in
          (
            a ∙ ap (λ v. (missing v).0) root,
            disk ∙ ap (λ v. (missing v).1) root,
            size ∙ s.same_blksize,
          )

  -- If what is run does not depend on where it stands.
  pub at_dir_lem :
      (D : IsDirectory L) (body : Bool × Image Vol → A × Image Vol) (missing run : Vol → A × Vol)
      → ((there : Image Vol) → Same (body (true, there)) (run there.vol) there.blksize)
      → ((there : Image Vol)
          → Gives (body (false, there)) (missing (to_root_dir there.vol)) there.blksize)
      → (dirs : List Bytes) (cwd : Bytes) (img : Image Vol)
      → Gives
          (body (enter_dirs L dirs (record (to_root L img) { cwd = cwd })))
          (at_dir missing run img.vol dirs)
          img.blksize
  at_dir_lem D body missing run found fails dirs cwd img =
      at_dir_lem_at D body missing run dirs cwd img
        (λ there e. found (record { vol = there; cwd = render cwd dirs; blksize = img.blksize }))
        fails
