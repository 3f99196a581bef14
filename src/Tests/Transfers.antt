-- ===== src/Tests/Transfers.antt =====
-- The theorems about reads and writes by names at concrete inputs.
use fuseadf.Prelude.{◌≡◌, refl, codes, arith}
use fuseadf.Path.{PathT}
use fuseadf.Image.Files.{adfimage_write}
use fuseadf.Named.{rooted_path}
use fuseadf.Named.Transfer.{store, transfer, transfer_at, transfer_refines}
use fuseadf.Image.{Image}
use fuseadf.Tests.Toy.{Toy, toy, toy_IsDirectory, at_root_image, inner_image}
use fuseadf.Tests.Host.{host}
use fuseadf.Tests.Split.{host-IsSplit}
use fuseadf.Tests.Names.{in_d, d_Names, letter}

abbrev file_path : PathT
file_path = record { dirpath = codes "/d"; entryname = codes "f" }

transfer_refines_example :
    let (reply, img') =
      transfer toy host (store (codes "abc")) (rooted_path in_d (codes "f")) 3 1 inner_image in
    (reply, toy.to_root_dir img'.vol)
    ≡ transfer_at toy (store (codes "abc")) inner_image.vol in_d (codes "f") 3 1
unfolding fuseadf.Path.path_create fuseadf.Workdir.Paths.join
transfer_refines_example =
    transfer_refines toy host toy_IsDirectory host-IsSplit (store (codes "abc")) in_d (codes "f")
      file_path 3 1 inner_image d_Names (letter b'f' (omega arith)) refl

abbrev written : Image Toy
written =
    (adfimage_write toy host (rooted_path in_d (codes "f")) (codes "abcde") 5 1 at_root_image).1
