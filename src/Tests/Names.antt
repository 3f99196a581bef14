-- ===== src/Tests/Names.antt =====
-- The theorems about requests by names at concrete inputs.
use fuseadf.Prelude.{
  ◌⊎◌, ℕ, zero, suc, ◌≤◌, ◌<◌, ◌≡◌, ◌⊎◌, refl, ap, Bool, true, false, none, some, List, [], ◌∷◌,
  arith, Bytes, codes, length, pos, neg, ◌∙◌, ℤ, take, replicate, bit_and,
}
use fuseadf.Libc.{enoent}
use fuseadf.Path.{PathT}
use fuseadf.Image.{max_path}
use fuseadf.Workdir.{IsName, Names}
use fuseadf.Named.{rooted_path, locate, entry_here, change_at}
use fuseadf.Named.Kind.{kind_bits, shown_perms, getattr_says}
use fuseadf.Image.Perm.{access_perms}
use fuseadf.Fs.{perms_of_mode}
use fuseadf.Fs.Modes.{s_ifmt}
use fuseadf.Named.Change.{Change, make_dir, make_file, request, adflib_call, request_refines}
use fuseadf.Named.Growth.{requests, AllNames, cwd_overflows}
use fuseadf.Named.Finds.{Listed, getattr_finds}
use fuseadf.Named.Later.{getattr-request}
use fuseadf.Fs.Attr.{adffs_getattr}
use fuseadf.Tests.Toy.{
  Toy, toy, toy_IsDirectory, toy_KeepsOnFailure, inner_file, at_root_image, inner_image,
}
use fuseadf.Tests.Host.{host}
use fuseadf.Tests.Split.{host-IsSplit}
use fuseadf.Tests.Store.{toy_KeepsWay, toy_IsStore}

abbrev pub in_d : List Bytes
in_d = codes "d" ∷ []

pub letter : (c : ℕ) → 47 < c → IsName (c ∷ [])
letter c h = ((λ e. cc e), (λ e. ground arith), ((λ e. omega arith), tt))

pub d_Names : Names in_d
d_Names = (letter b'd' (omega arith), tt)

request_refines_example :
    let (rc, img') = request toy host make_dir (rooted_path in_d (codes "n")) inner_image in
    (rc, toy.to_root_dir img'.vol)
    ≡ change_at toy (adflib_call toy host make_dir) inner_image.vol in_d (codes "n")
request_refines_example =
    request_refines toy host toy_IsDirectory host-IsSplit make_dir in_d (codes "n") inner_image
      d_Names (letter b'n' (omega arith))

-- The same file made again and again.
abbrev many : ℕ → List (Change × Bytes)
many zero = []
many (suc n) = (make_file, codes "n") ∷ many n

length-many : (n : ℕ) → length (many n) ≡ n
length-many zero = refl
length-many (suc n) = ap suc (length-many n)

many-AllNames : (n : ℕ) → AllNames toy host (many n)
many-AllNames zero = tt
many-AllNames (suc n) = (letter b'n' (omega arith), many-AllNames n)

pub found_d : locate toy at_root_image.vol in_d ≡ some inner_image.vol
unfolding fuseadf.Workdir.descend fuseadf.Prelude.strcmp_eq
found_d = refl

cwd_overflows_example : max_path ≤ length (requests toy host in_d (many max_path) at_root_image).cwd
cwd_overflows_example =
    cwd_overflows toy host toy_IsDirectory host-IsSplit toy_KeepsWay (codes "d") [] (many max_path)
      at_root_image inner_image.vol d_Names (many-AllNames max_path) found_d
      (omega (arith, length-many max_path))

abbrev name_path : Bytes → PathT
name_path name = record { dirpath = codes "."; entryname = name }

getattr_finds_example :
    let status = (adffs_getattr toy host (rooted_path in_d (codes "n")) at_root_image).0.0 in
    (status ≡ pos 0) × Listed toy at_root_image.vol in_d (codes "n")
    ⊎ (status ≡ neg enoent) × (Listed toy at_root_image.vol in_d (codes "n") → ⊥)
unfolding fuseadf.Path.path_create
getattr_finds_example =
    getattr_finds toy host host-IsSplit in_d (codes "n") (name_path (codes "n")) at_root_image
      d_Names (letter b'n' (omega arith)) refl

made_in_d : (request toy host make_file (rooted_path in_d (codes "n")) at_root_image).0 ≡ pos 0
unfolding fuseadf.Workdir.descend fuseadf.Prelude.strcmp_eq adflib_call
made_in_d =
    ap (λ (r : ℤ × Toy). r.0)
      (request_refines toy host toy_IsDirectory host-IsSplit make_file in_d (codes "n")
        at_root_image d_Names (letter b'n' (omega arith)))

getattr-request_example :
    (adffs_getattr toy host
      (rooted_path in_d (codes "n"))
      (request toy host make_file (rooted_path in_d (codes "n")) at_root_image).1).0.0
    ≡ pos 0
unfolding fuseadf.Path.path_create
getattr-request_example =
    getattr-request toy host toy_IsStore toy_IsDirectory host-IsSplit make_file in_d (codes "n")
      (name_path (codes "n")) at_root_image d_Names (letter b'n' (omega arith)) (omega arith) refl
      made_in_d

listed_f : entry_here toy inner_image.vol (codes "f") ≡ some inner_file
unfolding fuseadf.Image.Dentry.adflib_list_find fuseadf.Prelude.strcmp_eq
listed_f = refl

getattr_says_example :
    let (status, st) = (adffs_getattr toy host (rooted_path in_d (codes "f")) at_root_image).0 in
    (status ≡ pos 0)
    × (bit_and st.st_mode s_ifmt ≡ kind_bits inner_file.sec_type)
    × (perms_of_mode st.st_mode
        ≡ shown_perms inner_file.sec_type (access_perms toy inner_file.access))
unfolding fuseadf.Path.path_create
getattr_says_example =
    getattr_says toy host host-IsSplit toy_IsDirectory toy_KeepsOnFailure in_d (codes "f")
      at_root_image inner_image.vol inner_file d_Names (letter b'f' (omega arith)) (_, refl) found_d
      listed_f
