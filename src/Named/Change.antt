-- ===== src/Named/Change.antt =====
-- mkdir, rmdir, unlink and create of src/adfimage.c refine the view by names.
use fuseadf.Prelude.{
  ◌≡◌, ◌≢◌, refl, ap, ◌∙◌, some, List, [], ◌∷◌, ◌++◌, Bytes, ℤ, pos, neg, if◌then◌else◌,
}
use fuseadf.Pathstr.{pathstr_get_relative}
use fuseadf.Libc.{Libc, enoent, eexist, eperm, einval}
use fuseadf.Adflib.{Adflib, is_ok}
use fuseadf.Adflib.Laws.{IsDirectory}
use fuseadf.Image.{Image, chdir, to_root, enter_dirs}
use fuseadf.Image.Entries.{
  in_parent, call_there, adfimage_mkdir, adfimage_rmdir, adfimage_unlink, adfimage_create,
}
use fuseadf.Workdir.{IsName, Names, render}
use fuseadf.Workdir.Paths.{join, relative_join}
use fuseadf.Workdir.Enter.{enter_dirs-descend, chdir_relative}
use fuseadf.Named.Directory.{Gives, at_dir_lem}
use fuseadf.Named.{relative_path, rooted_path, IsSplit, locate, change_at}

pub Names-snoc :
    (dirs : List Bytes) (name : Bytes) → Names dirs → IsName name → Names (dirs ++ name ∷ [])
Names-snoc [] name h k = (k, tt)
Names-snoc (d ∷ dirs) name h k = (h.0, Names-snoc dirs name h.1 k)

join_ne_nil : (d : Bytes) (ds : List Bytes) → d ≢ [] → join (d ∷ ds) ≢ []
unfolding join
join_ne_nil [] ds h = absurd (h refl)
join_ne_nil (c ∷ d) [] h = λ e. cc
join_ne_nil (c ∷ d) (e ∷ ds) h = λ e. cc

pub relative_path_ne_nil :
    (dirs : List Bytes) (name : Bytes) → Names dirs → IsName name → relative_path dirs name ≢ []
relative_path_ne_nil [] name h k = join_ne_nil name [] k.0
relative_path_ne_nil (d ∷ dirs) name h k = join_ne_nil d (dirs ++ name ∷ []) h.0.0

pub relative_rooted :
    (dirs : List Bytes) (name : Bytes)
    → Names dirs
    → IsName name
    → pathstr_get_relative (rooted_path dirs name) ≡ relative_path dirs name
relative_rooted [] name h k = relative_join name [] (k, tt)
relative_rooted (d ∷ dirs) name h k =
    relative_join d (dirs ++ name ∷ []) (Names-snoc (d ∷ dirs) name h k)

module _ (L : Adflib) (C : Libc) where
  open L use {Vol, to_root_dir, cur_dir_ptr, create_dir, create_file, remove_entry}

  in_parent_cons :
      (at_root : ℤ) (call : Vol → ℤ → Bytes → ℤ × Vol) (rel : Bytes) (img : Image Vol)
      → rel ≢ []
      → in_parent L C at_root call rel img
        ≡ call_there L C call (C.basename rel) (chdir L (C.dirname rel) (to_root L img))
  in_parent_cons at_root call [] img h = absurd (h refl)
  in_parent_cons at_root call (c ∷ rel) img h = refl

  module _ (P : IsSplit C) where
    in_parent_named :
        (at_root : ℤ) (call : Vol → ℤ → Bytes → ℤ × Vol) (dirs : List Bytes) (name : Bytes)
        (img : Image Vol)
        → Names dirs
        → IsName name
        → in_parent L C at_root call (pathstr_get_relative (rooted_path dirs name)) img
          ≡ call_there L C call name (enter_dirs L dirs (to_root L img))
    in_parent_named at_root call dirs name img h k =
        rw
          (
            relative_rooted dirs name h k,
            in_parent_cons at_root call (relative_path dirs name) img
                (relative_path_ne_nil dirs name h k),
            P.dirname_relative dirs name h k,
            P.basename_relative dirs name h k,
            chdir_relative L dirs (to_root L img) h,
          )
          refl

    -- The image of the source behind an operation in a directory.
    pub in_parent_found :
        (at_root : ℤ) (call : Vol → ℤ → Bytes → ℤ × Vol) (dirs : List Bytes) (name : Bytes)
        (img : Image Vol) (there : Vol)
        → Names dirs
        → IsName name
        → locate L img.vol dirs ≡ some there
        → in_parent L C at_root call (pathstr_get_relative (rooted_path dirs name)) img ≡ (
          (call there (cur_dir_ptr there) name).0,
          record {
            vol = to_root_dir (call there (cur_dir_ptr there) name).1;
            cwd = render img.cwd dirs;
            blksize = img.blksize;
          },
        )
    unfolding to_root
    in_parent_found at_root call dirs name img there h k found =
        in_parent_named at_root call dirs name img h k
        ∙ ap (call_there L C call name) (enter_dirs-descend L dirs (to_root L img) there found)

    in_parent_refines :
        (D : IsDirectory L) (at_root : ℤ) (call : Vol → ℤ → Bytes → ℤ × Vol) (dirs : List Bytes)
        (name : Bytes) (img : Image Vol)
        → Names dirs
        → IsName name
        → Gives L
            (in_parent L C at_root call (pathstr_get_relative (rooted_path dirs name)) img)
            (change_at L call img.vol dirs name)
            img.blksize
    unfolding to_root
    in_parent_refines D at_root call dirs name img h k =
        rw (in_parent_named at_root call dirs name img h k) (
          at_dir_lem L D (call_there L C call name) (λ v. (neg enoent, v))
            (λ there. call there (cur_dir_ptr there) name)
            (λ there. (refl, D.to_root-to_root _, refl)) (λ there. (refl, refl, refl)) dirs img.cwd
            img)

-- The four requests.
pub data Change : Type 0 where
  make_dir remove_dir remove_file make_file : Change

module _ (L : Adflib) (C : Libc) where
  open L use {Vol, to_root_dir, cur_dir_ptr, create_dir, create_file, remove_entry}

  -- What the source runs, and what ADFlib is asked to do.
  unfoldable pub request : Change → Bytes → Image Vol → ℤ × Image Vol
  request make_dir path img = adfimage_mkdir L C path img
  request remove_dir path img = adfimage_rmdir L C path img
  request remove_file path img = adfimage_unlink L C path img
  request make_file path img = adfimage_create L C path img

  -- What is promised of a create: 0 where the return code of ADFlib is 0, and -1 for every other.
  abbrev zero_or_minus_one : ℤ → ℤ
  zero_or_minus_one rc = if is_ok rc then pos 0 else neg 1

  unfoldable pub adflib_call : Change → Vol → ℤ → Bytes → ℤ × Vol
  adflib_call make_dir = create_dir
  adflib_call remove_dir = remove_entry
  adflib_call remove_file = remove_entry
  adflib_call make_file =
      λ v sector name. let (rc, v') = create_file v sector name in (zero_or_minus_one rc, v')

  abbrev pub error_at_root : Change → ℤ
  error_at_root make_dir = neg eexist
  error_at_root remove_dir = neg eperm
  error_at_root remove_file = neg eperm
  error_at_root make_file = neg einval

  pub request-in_parent :
      (c : Change) (path : Bytes) (img : Image Vol)
      → request c path img
        ≡ in_parent L C (error_at_root c) (adflib_call c) (pathstr_get_relative path) img
  unfolding request adflib_call adfimage_mkdir adfimage_rmdir adfimage_unlink adfimage_create
  request-in_parent make_dir path img = refl
  request-in_parent remove_dir path img = refl
  request-in_parent remove_file path img = refl
  request-in_parent make_file path img = refl

  -- What `request_refines` states, and that the block size stays.
  pub request-Gives :
      (D : IsDirectory L) (P : IsSplit C) (c : Change) (dirs : List Bytes) (name : Bytes)
      (img : Image Vol)
      → Names dirs
      → IsName name
      → Gives L
          (request c (rooted_path dirs name) img)
          (change_at L (adflib_call c) img.vol dirs name)
          img.blksize
  request-Gives D P c dirs name img h k =
      rw (request-in_parent c (rooted_path dirs name) img)
        (in_parent_refines L C P D (error_at_root c) (adflib_call c) dirs name img h k)

  -- mkdir, rmdir, unlink and create refine the view by names: for the path of an entry, from any
  -- image, the status and the volume seen from its root are those of ADFlib's operation in the
  -- directory that the names lead to from the root, and -ENOENT with the disk unchanged if they lead
  -- nowhere. For create the status is 0 where ADFlib's is, and -1 where it is any other. ADFlib meets
  -- `IsDirectory`, and the C library `IsSplit`.
  pub request_refines :
      (D : IsDirectory L) (P : IsSplit C) (c : Change) (dirs : List Bytes) (name : Bytes)
      (img : Image Vol)
      → Names dirs
      → IsName name
      → let (rc, img') = request c (rooted_path dirs name) img in
        (rc, to_root_dir img'.vol) ≡ change_at L (adflib_call c) img.vol dirs name
  request_refines D P c dirs name img h k =
      let (rc, disk, _) = request-Gives D P c dirs name img h k in (λ i. (rc i, disk i))
