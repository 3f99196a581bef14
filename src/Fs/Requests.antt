-- ===== src/Fs/Requests.antt =====
-- The table `adffs_oper` of src/adffs.c: what FUSE can ask, and the handler for each request.
pub mod Returns
use fuseadf.Prelude.{ℕ, Option, some, List, [], ◌∷◌, Bytes, ℤ, pos}
use fuseadf.Libc.{Libc}
use fuseadf.Adflib.{Adflib}
use fuseadf.Pathstr.{bind}
use fuseadf.Image.{Image}
use fuseadf.Fs.{
  Filler, StatVfs, adffs_statfs, adffs_readdir, adffs_chmod, adffs_open, adffs_truncate,
}
use fuseadf.Fs.Attr.{Stat, adffs_getattr}
use fuseadf.Fs.Forward.{
  adffs_read, adffs_write, adffs_readlink, adffs_mkdir, adffs_rmdir, adffs_create, adffs_unlink,
  adffs_rename, adffs_chown, adffs_utimens,
}

module _ (F : Filler) where
  open F use {Buffer}

  pub data Request : Type 0 where
    getattr statfs mkdir unlink rmdir create open_file chown utimens : Bytes → Request
    readlink : Bytes → List ℕ → ℕ → Request
    rename : Bytes → Bytes → Request
    chmod truncate : Bytes → ℕ → Request
    read : Bytes → ℕ → ℕ → Request
    write : Bytes → Bytes → ℕ → ℕ → Request
    readdir : Bytes → Buffer → Request

  pub data Reply : Type 0 where
    status : ℤ → Reply
    attributes : ℤ × Stat → Reply
    bytes : ℤ × Bytes → Reply
    link : ℤ × List ℕ → Reply
    entries : ℤ × Buffer → Reply
    volume : StatVfs → Reply

  abbrev pub reply {ℓ} :
      {A : Type ℓ} {V : Type 0} → (A → Reply) → A × Image V → Option (Reply × Image V)
  reply wrap (a, img) = some (wrap a, img)

  module _ (L : Adflib) (C : Libc) where
    open L use {Vol}

    -- `none` is a call that has not returned within the fuel: only a rename can be one.
    unfoldable pub handle : ℕ → Request → Image Vol → Option (Reply × Image Vol)
    handle fuel (getattr path) img = reply attributes (adffs_getattr L C path img)
    handle fuel (readlink path buf len) img = reply link (adffs_readlink L C path buf len img)
    handle fuel (mkdir path) img = reply status (adffs_mkdir L C path img)
    handle fuel (unlink path) img = reply status (adffs_unlink L C path img)
    handle fuel (rmdir path) img = reply status (adffs_rmdir L C path img)
    handle fuel (rename src dst) img = bind (adffs_rename L C fuel src dst img) λ r. reply status r
    handle fuel (chmod path mode) img = reply status (adffs_chmod L C path mode img)
    handle fuel (chown path) img = reply status (adffs_chown L path img)
    handle fuel (truncate path size) img = reply status (adffs_truncate L C path size img)
    handle fuel (open_file path) img = reply status (adffs_open L C path img)
    handle fuel (read path size offset) img = reply bytes (adffs_read L C path size offset img)
    handle fuel (write path data' size offset) img =
        reply status (adffs_write L C path data' size offset img)
    handle fuel (statfs path) img = some (volume (adffs_statfs L img), img)
    handle fuel (readdir path buf) img = reply entries (adffs_readdir L F path buf img)
    handle fuel (create path) img = reply status (adffs_create L C path img)
    handle fuel (utimens path) img = reply status (adffs_utimens L path img)

    -- A session: the replies to a list of requests, in order.
    unfoldable pub serve : ℕ → List Request → Image Vol → Option (List Reply)
    serve fuel [] img = some []
    serve fuel (req ∷ reqs) img =
        bind (handle fuel req img) λ r. bind (serve fuel reqs r.1) λ rest. some (r.0 ∷ rest)
