-- ===== src/Tests/Sessions.antt =====
-- The theorems about the working directory and about sessions at concrete inputs.
use fuseadf.Prelude.{
  ℕ, ◌-◌, ◌≤◌, ◌≡◌, refl, Bool, true, false, none, some, List, [], ◌∷◌, ◌++◌, Bytes, codes, length,
  take, ltb, pos, neg, arith, if◌then◌else◌,
}
use fuseadf.Libc.{eagain}
use fuseadf.Pathstr.{slash, pathstr_get_relative}
use fuseadf.Path.{PathT}
use fuseadf.Image.{Image, chdir, enter_dirpath, to_root}
use fuseadf.Image.Dentry.{getdentry, found_dentry}
use fuseadf.Fs.{adffs_readdir}
use fuseadf.Fs.Listing.{bounded, readdir_lists}
use fuseadf.Fs.Requests.{
  Request, getattr, mkdir, create, rename, chmod, read, write, readdir, serve,
}
use fuseadf.History.Chdir.{SameDisk, chdir_absolute}
use fuseadf.History.Session.{All, serve_history}
use fuseadf.Workdir.{Names, At, asked, is_nil}
use fuseadf.Workdir.Chdir.{chdir-At, chdir_back}
use fuseadf.Workdir.Lookup.{Astray, getdentry_image, getdentry-Astray}
use fuseadf.Tests.Toy.{
  toy, toy_IsDirectory, toy_IsPositionFree, toy_KeepsOnFailure, at_root_image, inner_image,
  root_file,
}
use fuseadf.Tests.Host.{host, host_IsPosix}

abbrev session : List (Request bounded)
session =
    mkdir (codes "/new")
    ∷ getattr (codes "/d/f")
    ∷ chmod (codes "/f") 0o500
    ∷ write (codes "/f") (codes "abc") 3 0
    ∷ read (codes "/d/f") 3 1
    ∷ rename (codes "/f") (codes "/d/g")
    ∷ readdir (codes "/d") (4, [])
    ∷ create (codes "/g")
    ∷ []

session-All : All toy toy_IsDirectory toy_IsPositionFree host host_IsPosix bounded session
unfolding pathstr_get_relative
session-All = (tt, ((refl, λ e. cc), (refl, (refl, (refl, ((refl, refl), (refl, (tt, tt))))))))

same_disk : SameDisk toy inner_image at_root_image
same_disk = record { same_root = refl; same_blksize = refl }

serve_history_example :
    serve bounded toy host 3 session inner_image ≡ serve bounded toy host 3 session at_root_image
serve_history_example =
    serve_history toy toy_IsDirectory toy_IsPositionFree host host_IsPosix bounded 3 session
      inner_image at_root_image session-All same_disk

chdir_absolute_example :
    chdir toy (slash ∷ codes "d") inner_image ≡ chdir toy (slash ∷ codes "d") at_root_image
chdir_absolute_example = chdir_absolute toy (codes "d") inner_image at_root_image same_disk

chdir-At_example :
    (done : List Bytes) × (rest : List Bytes) × (asked (pathstr_get_relative (slash ∷ codes "d/x"))
      ≡ done ++ rest)
    × ((chdir toy (slash ∷ codes "d/x") at_root_image).0 ≡ is_nil rest)
    × At toy (chdir toy (slash ∷ codes "d/x") at_root_image).1 done
chdir-At_example = chdir-At toy toy_IsDirectory toy_KeepsOnFailure (codes "d/x") at_root_image

inner_Names : Names (codes "d" ∷ [])
inner_Names = (((λ e. cc), (λ e. ground arith), ((λ e. ground arith), tt)), tt)

inner_At : At toy inner_image (codes "d" ∷ [])
unfolding fuseadf.Workdir.render fuseadf.Workdir.descend fuseadf.Prelude.strcmp_eq
inner_At = record { spelled = refl; reached = refl }

chdir_back_example : chdir toy (codes "/d") at_root_image ≡ (true, inner_image)
chdir_back_example =
    chdir_back toy toy_IsDirectory toy_KeepsOnFailure (codes "d" ∷ []) inner_image at_root_image
      inner_Names inner_At (record { same_root = refl; same_blksize = refl })

abbrev file_path : PathT
file_path = record { dirpath = codes "/"; entryname = codes "f" }

getdentry_image_example : (getdentry toy host (codes "/f") inner_image).1 ≡ inner_image
unfolding fuseadf.Path.path_create fuseadf.Image.enter_dirpath fuseadf.Image.chdir
    fuseadf.Prelude.strcmp_eq pathstr_get_relative
getdentry_image_example =
    getdentry_image toy toy_IsDirectory toy_KeepsOnFailure host (codes "/f") file_path
      (codes "d" ∷ []) inner_image refl refl inner_Names inner_At

abbrev missing_path : PathT
missing_path = record { dirpath = codes "/none"; entryname = codes "f" }

getdentry-Astray_example :
    ((getdentry toy host (codes "/none/f") inner_image).0 ≡ found_dentry (some root_file))
    × Astray toy toy_IsDirectory toy_KeepsOnFailure host
        (asked (pathstr_get_relative (slash ∷ codes "none")))
        at_root_image
unfolding fuseadf.Path.path_create fuseadf.Image.chdir fuseadf.Image.enter_dirs
    fuseadf.Image.components fuseadf.Image.Dentry.adflib_list_find fuseadf.Prelude.strcmp_eq
    pathstr_get_relative
getdentry-Astray_example =
    getdentry-Astray toy toy_IsDirectory toy_KeepsOnFailure host (codes "/none/f") (codes "none")
      missing_path root_file inner_image at_root_image refl refl refl refl refl

readdir_lists_example :
    adffs_readdir toy bounded (codes "/") (3, []) inner_image
    ≡ ((neg eagain, (0, codes "." ∷ codes ".." ∷ codes "d" ∷ [])), to_root toy at_root_image)
unfolding fuseadf.Image.chdir pathstr_get_relative
readdir_lists_example = readdir_lists toy (codes "/") 1 inner_image at_root_image refl
