-- ===== src/Tests/Links.antt =====
-- The theorems about soft links at concrete inputs: on the volume of the tests every name is a link.
use fuseadf.Prelude.{◌≡◌, refl, [], ◌∷◌, arith, codes, length, pos, NulFree}
use fuseadf.Adflib.{Adflib, EntryBlock, st_lsoft}
use fuseadf.Image.Files.{find_link, adfimage_readlink}
use fuseadf.Image.Files.Link.{Copied, find_link-Copied, length-readlink}
use fuseadf.Tests.Toy.{toy, at_root_image}
use fuseadf.Tests.Host.{host}

abbrev link : EntryBlock
link = record {
  sec_type = st_lsoft;
  name = codes "l";
  real_name = codes "target";
  real_entry = pos 0;
  access = 0;
  hash_table = [];
  rest = [];
}

abbrev linked : Adflib
linked = record toy {
  read_entry_block = λ v s. (pos 0, link);
  name_to_entry_blk = λ v table entry_name. (pos 901, link);
}

target_NulFree : NulFree (codes "target")
target_NulFree = (
  (λ e. ground arith),
  (
    (λ e. ground arith),
    ((λ e. ground arith), ((λ e. ground arith), ((λ e. ground arith), ((λ e. ground arith), tt)))),
  ),
)

-- The buffer is as long as the text.
find_link-Copied_example :
    let (status, buffer) =
      find_link linked at_root_image.vol (codes "l") (1 ∷ 1 ∷ 1 ∷ 1 ∷ 1 ∷ 1 ∷ []) 6 in
    (status ≡ pos 0) × Copied 6 (codes "target") buffer
find_link-Copied_example =
    find_link-Copied linked at_root_image.vol (codes "l") (1 ∷ 1 ∷ 1 ∷ 1 ∷ 1 ∷ 1 ∷ []) 6 link link
      (pos 901) refl refl refl refl target_NulFree

length-readlink_example :
    length (adfimage_readlink linked host (codes "/l") (1 ∷ 1 ∷ []) 2 at_root_image).0.1 ≡ 2
length-readlink_example = length-readlink linked host (codes "/l") (1 ∷ 1 ∷ []) at_root_image
