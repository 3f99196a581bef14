-- ===== src/Image/Rename/Returns.antt =====
-- When `adfimage_file_rename` of src/adfimage.c returns.
use fuseadf.Prelude.{
  ℕ, zero, suc, ◌≡◌, refl, ap, Bool, true, false, ◌&&◌, none, some, Option-cases, inl, inr, [], ◌∷◌,
  ◌++◌, arith, Bytes, ℤ, neg, NulFree, if◌then◌else◌,
}
use fuseadf.Pathstr.{bind, buffer, c_str, pathstr_is_non_empty, pathstr_fuse2amigados}
use fuseadf.Pathstr.Search.{occurs}
use fuseadf.Pathstr.Slashes.{double, remove_double_slashes_clean}
use fuseadf.Pathstr.Parent.{dotdot_slash, slash_dotdot, dirparent_u2a_clean, dirparent_u2a_hangs}
use fuseadf.Libc.{Libc, einval}
use fuseadf.Adflib.{Adflib}
use fuseadf.Path.{PathT, path_create, path_is_entryname_non_empty}
use fuseadf.Image.{Image}
use fuseadf.Image.Rename.{convert, rename_parents, rename_paths, adfimage_file_rename}

-- A path that the conversion has nothing to do with.
abbrev pub IsClean : Bytes → Type 0
IsClean s =
    NulFree s
    × (occurs double s ≡ false)
    × (occurs dotdot_slash s ≡ false)
    × (occurs slash_dotdot s ≡ false)

c_str-buffer : (s : Bytes) → NulFree s → c_str (buffer s) ≡ s
c_str-buffer [] h = refl
c_str-buffer (c ∷ s) h = ground (arith, c_str-buffer s h.1)

pub convert-IsClean : (fuel : ℕ) (s : Bytes) → IsClean s → convert (suc fuel) s ≡ some s
unfolding convert pathstr_fuse2amigados
convert-IsClean fuel s (nul_free, no_double, no_dotdot, no_final) =
    rw (remove_double_slashes_clean fuel s nul_free no_double) (
      rw (dirparent_u2a_clean fuel s nul_free no_dotdot no_final)
        (ap some (c_str-buffer s nul_free)))

convert_hangs :
    (fuel : ℕ) (a b : Bytes)
    → NulFree (a ++ (dotdot_slash ++ b))
    → occurs double (a ++ (dotdot_slash ++ b)) ≡ false
    → convert fuel (a ++ (dotdot_slash ++ b)) ≡ none
unfolding convert pathstr_fuse2amigados fuseadf.Pathstr.remove_double_slashes
convert_hangs zero a b h clean = refl
convert_hangs (suc fuel) a b h clean =
    rw (remove_double_slashes_clean fuel _ h clean) (rw (dirparent_u2a_hangs (suc fuel) a b h) refl)

module _ (L : Adflib) (C : Libc) where
  open L use {Vol}

  abbrev pub Convertible : Bytes → Type 0
  Convertible p = elim (path_create C p) [ none ↦ Unit | some path ↦ IsClean path.dirpath ]

  rename_paths_returns :
      (fuel : ℕ) (src dst : PathT) (img : Image Vol)
      → IsClean src.dirpath
      → IsClean dst.dirpath
      → (r : ℤ × Image Vol) × (rename_paths L C (suc fuel) src dst img ≡ some r)
  unfolding rename_paths
  rename_paths_returns fuel src dst img h k =
      rw (convert-IsClean fuel src.dirpath h, convert-IsClean fuel dst.dirpath k)
        (go (path_is_entryname_non_empty src && path_is_entryname_non_empty dst))
    where
      go :
          (b : Bool)
          → (r : ℤ × Image Vol) × ((if b
                then some (rename_parents L C src dst src.dirpath dst.dirpath img)
                else some (neg einval, img))
              ≡ some r)
      go true = (_, refl)
      go false = (_, refl)

  -- With one unit of fuel or more a rename gives a result if for each of the two paths
  -- `path_create` fails or gives a directory path that holds none of `//`, `../`, `/..` and NUL.
  pub rename_returns :
      (fuel : ℕ) (src dst : Bytes) (img : Image Vol)
      → Convertible src
      → Convertible dst
      → (r : ℤ × Image Vol) × (adfimage_file_rename L C (suc fuel) src dst img ≡ some r)
  unfolding adfimage_file_rename
  rename_returns fuel src dst img h k = elim (Option-cases (path_create C src)) [
    | inl e ↦ ((neg einval, img), rw (e, adfimage_file_rename) refl)
    | inr (s, e) ↦ elim (Option-cases (path_create C dst)) [
      | inl e' ↦
          ((neg einval, img), rw (e, adfimage_file_rename) (rw (e', adfimage_file_rename) refl))
      | inr (d, e') ↦
          let (r, q) =
            rename_paths_returns fuel s d img (rw (e, Convertible) at h)
              (rw (e', Convertible) at k) in
          (r, rw (e, adfimage_file_rename) (rw (e', adfimage_file_rename) q))
    ]
  ]

  non_empty : (a b : Bytes) → pathstr_is_non_empty (a ++ (dotdot_slash ++ b)) ≡ true
  unfolding pathstr_is_non_empty
  non_empty [] b = refl
  non_empty (c ∷ a) b = refl

  -- A rename gives no result, whatever the fuel, if the directory of the source holds `../` and
  -- neither `//` nor NUL, and that of the destination is not empty. `path_create` succeeds for both
  -- paths.
  pub rename_hangs :
      (fuel : ℕ) (src_pathstr dst_pathstr : Bytes) (src dst : PathT) (img : Image Vol) (a b : Bytes)
      → path_create C src_pathstr ≡ some src
      → path_create C dst_pathstr ≡ some dst
      → src.dirpath ≡ a ++ (dotdot_slash ++ b)
      → NulFree (a ++ (dotdot_slash ++ b))
      → occurs double (a ++ (dotdot_slash ++ b)) ≡ false
      → pathstr_is_non_empty dst.dirpath ≡ true
      → adfimage_file_rename L C fuel src_pathstr dst_pathstr img ≡ none
  unfolding adfimage_file_rename rename_paths path_is_entryname_non_empty
  rename_hangs fuel src_pathstr dst_pathstr src dst img a b hs hd shape h clean more =
      rw (hs, adfimage_file_rename)
        (rw (hd, adfimage_file_rename)
          (rw (shape, non_empty a b, more, convert_hangs fuel a b h clean) refl))
