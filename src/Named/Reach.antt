-- ===== src/Named/Reach.antt =====
-- `adfimage_chdir` on names of which one may not lead on: src/adfimage.c stays where it got to.
use fuseadf.Prelude.{
  ◌≡◌, refl, true, false, Bool-cases, inl, inr, List, [], ◌∷◌, Bytes, some, arith,
}
use fuseadf.Adflib.{Adflib, is_ok}
use fuseadf.Image.{Image, append_dir, enter_dirs}
use fuseadf.Workdir.{descend}

module _ (L : Adflib) where
  open L use {Vol, change_dir}

  -- How far the names lead.
  unfoldable pub reach : Vol → List Bytes → Vol
  reach v [] = v
  reach v (dir ∷ dirs) =
      let (rc, w) = change_dir v dir in elim (is_ok rc) [ true ↦ reach w dirs | false ↦ w ]

  pub enter_dirs-reach :
      (dirs : List Bytes) (img : Image Vol) → (enter_dirs L dirs img).1.vol ≡ reach img.vol dirs
  unfolding enter_dirs append_dir reach
  enter_dirs-reach [] img = refl
  enter_dirs-reach (dir ∷ dirs) img = elim (Bool-cases (is_ok (change_dir img.vol dir).0)) [
    | inl e ↦
        rw (e, enter_dirs, reach)
          (enter_dirs-reach dirs
            (append_dir L dir (record img { vol = (change_dir img.vol dir).1 })))
    | inr e ↦ rw (e, enter_dirs, reach) refl
  ]

  -- As far as `descend`, if all of them do.
  pub reach-descend :
      (dirs : List Bytes) (v there : Vol) → descend L v dirs ≡ some there → reach v dirs ≡ there
  unfolding descend reach
  reach-descend [] v there h = ground arith
  reach-descend (dir ∷ dirs) v there h = elim (Bool-cases (is_ok (change_dir v dir).0)) [
    | inl e ↦ rw (e, reach) (reach-descend dirs (change_dir v dir).1 there (rw (e, descend) at h))
    | inr e ↦ absurd (cc (rw (e, descend) at h))
  ]
