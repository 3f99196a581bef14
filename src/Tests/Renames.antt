-- ===== src/Tests/Renames.antt =====
-- The theorems about renaming and about sessions that return, at concrete inputs.
use fuseadf.Prelude.{
  ◌≡◌, refl, none, some, List, [], ◌∷◌, ◌++◌, Bytes, codes, ℤ, pos, length, arith,
}
use fuseadf.Path.{PathT}
use fuseadf.Image.{Image}
use fuseadf.Image.Dentry.{getdentry}
use fuseadf.Image.Rename.{rename_parents, adfimage_file_rename}
use fuseadf.Image.Rename.Returns.{rename_returns, rename_hangs}
use fuseadf.Image.Rename.Sectors.{ParentSector, Renamed, rename_zero}
use fuseadf.Fs.Listing.{bounded}
use fuseadf.Fs.Requests.{Request, Reply, rename, mkdir, serve}
use fuseadf.Fs.Requests.Returns.{serve_returns}
use fuseadf.Tests.Toy.{Toy, toy, at_root_image}
use fuseadf.Tests.Host.{host}

rename_returns_example :
    (r : ℤ × Image Toy) × (adfimage_file_rename toy host 1 (codes "/d/f") (codes "/g") at_root_image
      ≡ some r)
unfolding fuseadf.Path.path_create
rename_returns_example =
    rename_returns toy host 0 (codes "/d/f") (codes "/g") at_root_image
      (omega arith, refl, refl, refl) (omega arith, refl, refl, refl)

rename_hangs_example :
    adfimage_file_rename toy host 9 (codes "/d/../x/f") (codes "/g") at_root_image ≡ none
unfolding fuseadf.Path.path_create fuseadf.Pathstr.pathstr_is_non_empty
rename_hangs_example =
    rename_hangs toy host 9 (codes "/d/../x/f") (codes "/g")
      (record { dirpath = codes "/d/../x"; entryname = codes "f" })
      (record { dirpath = codes "/"; entryname = codes "g" }) at_root_image (codes "/d/")
      (codes "x") refl refl refl (omega arith) refl refl

abbrev session : List (Request bounded)
session = rename (codes "/d/f") (codes "/g") ∷ mkdir (codes "/new") ∷ []

serve_returns_example :
    (replies : List (Reply bounded)) × (serve bounded toy host 1 session at_root_image
      ≡ some replies)
    × (length replies ≡ length session)
unfolding fuseadf.Path.path_create
serve_returns_example =
    serve_returns bounded toy host 0 session at_root_image
      (((omega arith, refl, refl, refl), (omega arith, refl, refl, refl)), (tt, tt))

abbrev file_in_d : PathT
file_in_d = record { dirpath = codes "/d"; entryname = codes "f" }

abbrev file_in_root : PathT
file_in_root = record { dirpath = codes "/"; entryname = codes "g" }

rename_zero_example :
    let (src_entry, img') = getdentry toy host (codes "/d") at_root_image in
    let (dst_entry, img'') = getdentry toy host (codes "/") img' in
    (a : ℤ) × ParentSector src_entry a
    × (b : ℤ) × ParentSector dst_entry b
    × Renamed toy host file_in_d file_in_root a b img''
        (rename_parents toy host file_in_d file_in_root (codes "/d") (codes "/") at_root_image).1
unfolding rename_parents getdentry fuseadf.Path.path_create fuseadf.Image.enter_dirpath
    fuseadf.Image.leave_dirpath fuseadf.Image.chdir fuseadf.Image.Dentry.lookup_dentry
    fuseadf.Image.Dentry.get_root_dentry fuseadf.Image.Dentry.adflib_list_find
    fuseadf.Image.Dentry.dentry_type fuseadf.Image.Rename.check_parent
    fuseadf.Image.Rename.rename_sectors fuseadf.Pathstr.pathstr_get_relative
    fuseadf.Prelude.strcmp_eq
rename_zero_example =
    rename_zero toy host file_in_d file_in_root (codes "/d") (codes "/") at_root_image refl
