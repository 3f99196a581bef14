-- ===== src/Image/Perm/Laws.antt =====
-- What `adfimage_setperm` does to the permissions that `adfimage_getperm` reads.
use fuseadf.Prelude.{
  ℕ, zero, suc, ◌≡◌, refl, ap, ◌∙◌, ◌≢◌, Bool, true, false, not, ◌||◌, bit_and, bit_or,
  if◌then◌else◌,
}
use fuseadf.Bits.{bit_and-zero}
use fuseadf.Adflib.{Adflib}
use fuseadf.Image.Perm.{
  adf_perm_read, adf_perm_write, adf_perm_execute, is_set, lnot, access_perms, set_access,
  new_access,
}

module _ (L : Adflib) where
  open L use {acc_has_r, acc_has_w, acc_has_e, accmask_r, accmask_w, accmask_e}

  -- The masks of ADFlib are bits of their own: each test sees its mask and no other.
  pub record IsAccess : Type 0 where
    pub mask_r_ne_zero : accmask_r ≢ 0
    pub mask_w_ne_zero : accmask_w ≢ 0
    pub mask_e_ne_zero : accmask_e ≢ 0
    pub has_r_zero : acc_has_r 0 ≡ false
    pub has_w_zero : acc_has_w 0 ≡ false
    pub has_e_zero : acc_has_e 0 ≡ false
    pub has_r_set : (a : ℕ) → acc_has_r (bit_or a accmask_r) ≡ true
    pub has_w_set : (a : ℕ) → acc_has_w (bit_or a accmask_w) ≡ true
    pub has_e_set : (a : ℕ) → acc_has_e (bit_or a accmask_e) ≡ true
    pub has_r_w : (a : ℕ) → acc_has_r (bit_or a accmask_w) ≡ acc_has_r a
    pub has_r_e : (a : ℕ) → acc_has_r (bit_or a accmask_e) ≡ acc_has_r a
    pub has_w_e : (a : ℕ) → acc_has_w (bit_or a accmask_e) ≡ acc_has_w a

  lnot_ne_zero : (n : ℕ) → n ≢ 0 → lnot n ≡ 0
  lnot_ne_zero zero h = absurd (h refl)
  lnot_ne_zero (suc n) h = refl

  -- The mask is negated as a truth value, so granting one permission clears every access bit.
  granted-zero : (mask a : ℕ) → mask ≢ 0 → set_access L true mask a ≡ 0
  granted-zero mask a h = ap (bit_and a) (lnot_ne_zero mask h) ∙ bit_and-zero a

  abbrev perms_of : Bool → Bool → Bool → ℕ
  perms_of r w e =
      bit_or (bit_or (if r then adf_perm_read else 0) (if w then adf_perm_write else 0))
        (if e then adf_perm_execute else 0)

  abbrev chained : Bool → Bool → Bool → ℕ → ℕ
  chained r w e a = set_access L e accmask_e (set_access L w accmask_w (set_access L r accmask_r a))

  access_perms_of :
      (x : ℕ) (r w e : Bool)
      → acc_has_r x ≡ not r
      → acc_has_w x ≡ not w
      → acc_has_e x ≡ not e
      → access_perms L x ≡ perms_of r w e
  unfolding access_perms
  access_perms_of x r w e hr hw he = rw (hr, hw, he) (go r w e)
    where
      go :
          (r w e : Bool)
          → bit_or
              (bit_or (if not r then 0 else adf_perm_read) (if not w then 0 else adf_perm_write))
              (if not e then 0 else adf_perm_execute)
            ≡ perms_of r w e
      go true true true = refl
      go true true false = refl
      go true false true = refl
      go true false false = refl
      go false true true = refl
      go false true false = refl
      go false false true = refl
      go false false false = refl

  module _ (A : IsAccess) where
    all_granted : (x : ℕ) → x ≡ 0 → access_perms L x ≡ perms_of true true true
    all_granted x h =
        access_perms_of x true true true (ap acc_has_r h ∙ A.has_r_zero)
          (ap acc_has_w h ∙ A.has_w_zero) (ap acc_has_e h ∙ A.has_e_zero)

    -- After the bit for execution has been set on something that denies nothing.
    no_execute : (x : ℕ) → x ≡ 0 → access_perms L (bit_or x accmask_e) ≡ perms_of true true false
    no_execute x h =
        access_perms_of (bit_or x accmask_e) true true false
          (A.has_r_e x ∙ (ap acc_has_r h ∙ A.has_r_zero))
          (A.has_w_e x ∙ (ap acc_has_w h ∙ A.has_w_zero)) (A.has_e_set x)

    only_read :
        (x : ℕ)
        → x ≡ 0
        → access_perms L (bit_or (bit_or x accmask_w) accmask_e) ≡ perms_of true false false
    only_read x h =
        access_perms_of (bit_or (bit_or x accmask_w) accmask_e) true false false
          (A.has_r_e _ ∙ (A.has_r_w x ∙ (ap acc_has_r h ∙ A.has_r_zero)))
          (A.has_w_e _ ∙ A.has_w_set x) (A.has_e_set _)

    none_granted :
        (x : ℕ)
        → access_perms L (bit_or (bit_or (bit_or x accmask_r) accmask_w) accmask_e)
          ≡ perms_of false false false
    none_granted x =
        access_perms_of (bit_or (bit_or (bit_or x accmask_r) accmask_w) accmask_e) false false false
          (A.has_r_e _ ∙ (A.has_r_w _ ∙ A.has_r_set x)) (A.has_w_e _ ∙ A.has_w_set _)
          (A.has_e_set _)

    chained_perms :
        (r w e : Bool) (a : ℕ)
        → access_perms L (chained r w e a) ≡ perms_of (r || (w || e)) (w || e) e
    chained_perms true true true a = all_granted _ (granted-zero accmask_e _ A.mask_e_ne_zero)
    chained_perms true false true a = all_granted _ (granted-zero accmask_e _ A.mask_e_ne_zero)
    chained_perms false true true a = all_granted _ (granted-zero accmask_e _ A.mask_e_ne_zero)
    chained_perms false false true a = all_granted _ (granted-zero accmask_e _ A.mask_e_ne_zero)
    chained_perms true true false a = no_execute _ (granted-zero accmask_w _ A.mask_w_ne_zero)
    chained_perms false true false a = no_execute _ (granted-zero accmask_w _ A.mask_w_ne_zero)
    chained_perms true false false a = only_read _ (granted-zero accmask_r _ A.mask_r_ne_zero)
    chained_perms false false false a = none_granted a

    -- The permissions that `adfimage_getperm` reads after `adfimage_setperm` do not depend on those
    -- before: execution is granted if it is asked for, writing if writing or execution is, and
    -- reading if any of the three is. The masks of ADFlib meet `IsAccess`.
    pub access_perms-new_access :
        (perms a : ℕ)
        → let r = is_set (bit_and perms adf_perm_read) in
          let w = is_set (bit_and perms adf_perm_write) in
          let e = is_set (bit_and perms adf_perm_execute) in
          access_perms L (new_access L perms a)
          ≡ bit_or
              (bit_or
                (if r || (w || e) then adf_perm_read else 0)
                (if w || e then adf_perm_write else 0))
              (if e then adf_perm_execute else 0)
    unfolding new_access
    access_perms-new_access perms a = chained_perms _ _ _ a
