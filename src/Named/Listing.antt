-- ===== src/Named/Listing.antt =====
-- `adffs_readdir` of src/adffs.c in the view by names.
use fuseadf.Prelude.{refl, List, ◌∷◌, Bytes, codes, ℤ, pos, neg, if◌then◌else◌}
use fuseadf.Pathstr.{slash}
use fuseadf.Libc.{enoent, eagain}
use fuseadf.Adflib.{Adflib}
use fuseadf.Adflib.Laws.{IsDirectory}
use fuseadf.Image.{Image, root_path, to_root}
use fuseadf.Fs.{Filler, fill_entries, readdir_at, adffs_readdir}
use fuseadf.Workdir.{Names}
use fuseadf.Workdir.Paths.{join}
use fuseadf.Workdir.Enter.{chdir_rooted}
use fuseadf.Named.Directory.{at_dir, Gives, at_dir_lem}

module _ (L : Adflib) (B : Filler) where
  open L use {Vol, cur_dir_ptr, get_dir_ent}
  open B use {Buffer, fill}

  -- `.`, `..` and the entries of the directory where the volume stands.
  abbrev pub list_here : Buffer → Vol → (ℤ × Buffer) × Vol
  list_here buf there =
      let (_, buf1) = fill buf (codes ".") in
      let (_, buf2) = fill buf1 (codes "..") in
      let (full, buf3) = fill_entries L B (get_dir_ent there (cur_dir_ptr there)) buf2 in
      ((if full then neg eagain else pos 0, buf3), there)

  abbrev pub list_at : Vol → List Bytes → Buffer → (ℤ × Buffer) × Vol
  list_at v dirs buf = at_dir L (λ v. ((neg enoent, buf), v)) (list_here buf) v dirs

  pub readdir-Gives :
      (D : IsDirectory L) (dirs : List Bytes) (buf : Buffer) (img : Image Vol)
      → Names dirs
      → Gives L
          (adffs_readdir L B (slash ∷ join dirs) buf img)
          (list_at img.vol dirs buf)
          img.blksize
  unfolding adffs_readdir to_root
  readdir-Gives D dirs buf img h = rw (chdir_rooted L dirs img h) (
      at_dir_lem L D (readdir_at L B buf) (λ v. ((neg enoent, buf), v)) (list_here buf)
        (λ there. (refl, D.to_root-to_root there.vol, refl))
        (λ there. (refl, D.to_root-to_root there.vol, refl)) dirs root_path img)
