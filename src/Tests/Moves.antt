-- ===== src/Tests/Moves.antt =====
-- The theorems about renaming by names at concrete inputs.
use fuseadf.Prelude.{
  ◌≡◌, ◌≢◌, refl, true, false, some, inl, inr, [], ◌∷◌, Bytes, codes, pos, neg, arith,
}
use fuseadf.Libc.{enoent}
use fuseadf.Path.{PathT}
use fuseadf.Image.{Image}
use fuseadf.Image.Rename.{adfimage_file_rename}
use fuseadf.Fs.Attr.{adffs_getattr}
use fuseadf.Workdir.{IsName, Names}
use fuseadf.Named.{rooted_path, locate}
use fuseadf.Named.Rename.{RenameAllowed}
use fuseadf.Named.Rename.Located.{DirListed}
use fuseadf.Named.Rename.Later.{Move, getattr-rename}
use fuseadf.Tests.Toy.{Toy, inner_dir, inner_file, inner_image}
use fuseadf.Tests.Host.{host}
use fuseadf.Tests.Split.{host-IsSplit}
use fuseadf.Tests.Mover.{
  mover, move_file, mover_IsDirectory, mover_IsPositionFree, mover_KeepsSector, mover_IsMover,
}
use fuseadf.Tests.Store.{stand}
use fuseadf.Tests.Names.{in_d, d_Names, letter}

-- From `/d/f` to `/g`, with the volume left in `d`.
f-IsName : IsName (codes "f")
f-IsName = letter b'f' (omega arith)

g-IsName : IsName (codes "g")
g-IsName = letter b'g' (omega arith)

abbrev bare : Bytes → PathT
bare name = record { dirpath = codes "."; entryname = name }

allowed : RenameAllowed host in_d (codes "f") [] (codes "g")
unfolding fuseadf.Path.path_create fuseadf.Workdir.Paths.join
allowed = (
  ((_, refl), (_, refl)),
  ((_, refl), tt),
  ((omega arith, refl, refl, refl), (omega arith, refl, refl, refl)),
)

abbrev in_d_there : Toy
in_d_there = stand false (inner_image.vol)

abbrev at_top : Toy
at_top = stand true (inner_image.vol)

f_moves : Move mover inner_image.vol in_d (codes "f") [] in_d_there at_top
unfolding fuseadf.Workdir.descend fuseadf.Prelude.strcmp_eq fuseadf.Image.Dentry.adflib_list_find
f_moves = record {
  from_found = refl;
  to_found = refl;
  entry = inner_file;
  listed = refl;
  is_file = refl;
}

d_DirListed : DirListed mover inner_image.vol in_d
unfolding fuseadf.Workdir.descend fuseadf.Prelude.strcmp_eq fuseadf.Image.Dentry.adflib_list_find
    fuseadf.Named.Rename.unsnoc
d_DirListed = (inner_dir, refl, inl refl)

top_DirListed : DirListed mover inner_image.vol []
top_DirListed = record { block_read = refl; converted = refl; is_root = refl }

abbrev after_move : Image Toy
after_move = record inner_image {
  vol = move_file false (codes "f") true (codes "g") (inner_image.vol);
}

answered :
    adfimage_file_rename mover host 1
      (rooted_path in_d (codes "f"))
      (rooted_path [] (codes "g"))
      inner_image
    ≡ some (pos 0, after_move)
unfolding adfimage_file_rename fuseadf.Path.path_create fuseadf.Image.Rename.rename_paths
    fuseadf.Path.path_is_entryname_non_empty fuseadf.Workdir.Paths.join fuseadf.Image.Rename.convert
    fuseadf.Pathstr.pathstr_fuse2amigados fuseadf.Pathstr.remove_double_slashes
    fuseadf.Pathstr.strstr fuseadf.Pathstr.pathstr_dirparent_u2a
    fuseadf.Pathstr.replace_dotdot_slash fuseadf.Pathstr.replace_final_dotdot
    fuseadf.Image.Rename.rename_parents fuseadf.Image.Rename.check_parent
    fuseadf.Image.Dentry.getdentry fuseadf.Prelude.strcmp_eq fuseadf.Image.Dentry.lookup_dentry
    fuseadf.Image.Dentry.adflib_list_find fuseadf.Image.Dentry.dentry_type
    fuseadf.Image.Dentry.get_root_dentry fuseadf.Image.Rename.rename_sectors
    fuseadf.Image.append_dir fuseadf.Image.chdir fuseadf.Image.components
    fuseadf.Image.enter_dirpath fuseadf.Image.enter_dirs fuseadf.Image.leave_dirpath
    fuseadf.Image.to_root fuseadf.Pathstr.copy_next fuseadf.Pathstr.pathstr_get_relative
    fuseadf.Pathstr.pathstr_is_non_empty
answered = refl

getattr-rename_example :
    ((adffs_getattr mover host (rooted_path [] (codes "g")) after_move).0.0 ≡ pos 0)
    × ((adffs_getattr mover host (rooted_path in_d (codes "f")) after_move).0.0 ≡ neg enoent)
unfolding fuseadf.Path.path_create
getattr-rename_example =
    getattr-rename mover host host-IsSplit mover_KeepsSector mover_IsMover mover_IsDirectory
      mover_IsPositionFree 0 in_d (codes "f") [] (codes "g") (bare (codes "f")) (bare (codes "g"))
      inner_image after_move in_d_there at_top (d_Names, f-IsName, tt, g-IsName) allowed refl refl
      f_moves d_DirListed top_DirListed (omega arith) (inr λ e. ground arith) answered
