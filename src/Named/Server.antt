-- ===== src/Named/Server.antt =====
-- A file server in the view by names: what src/adffs.c answers to requests without working directory,
-- path strings and fuel. Its state is a volume at its root.
pub mod Refines
use fuseadf.Prelude.{
  ℕ, suc, ◌≡◌, refl, ap, ◌∙◌, sym, some, Option, List, [], ◌∷◌, map, Bytes, ℤ, pos,
}
use fuseadf.Pathstr.{bind, slash}
use fuseadf.Libc.{Libc}
use fuseadf.Adflib.{Adflib}
use fuseadf.Adflib.Laws.{IsDirectory, IsPositionFree, KeepsOnFailure}
use fuseadf.Image.{Image, root_path, to_root}
use fuseadf.Fs.{Filler, StatVfs, adffs_statfs}
use fuseadf.Fs.Requests.{
  Request, Reply, getattr, statfs, mkdir, unlink, rmdir, create, open_file, chown, utimens,
  readlink, rename, chmod, truncate, read, write, readdir, handle, serve, status, attributes, bytes,
  link, entries, volume,
}
use fuseadf.History.Chdir.{SameDisk, SameDisk-refl}
use fuseadf.History.Handlers.{statfs_same}
use fuseadf.Workdir.{IsName, Names}
use fuseadf.Workdir.Paths.{join}
use fuseadf.Named.{rooted_path, IsSplit, change_at}
use fuseadf.Named.Directory.{Gives}
use fuseadf.Named.Entered.{Created}
use fuseadf.Named.Change.{
  Change, make_dir, make_file, remove_dir, remove_file, request, adflib_call, request-Gives,
}
use fuseadf.Named.Transfer.{Transfer, fetch, store, transfer, transfer_at, transfer-Gives}
use fuseadf.Named.Opened.{
  open_at, truncate_at, readlink_at, open-Gives, truncate-Gives, readlink-Gives,
}
use fuseadf.Named.Listing.{list_at, readdir-Gives}
use fuseadf.Named.Chmod.{chmod_at, chmod-Gives}
use fuseadf.Named.Stat.{stat_at, getattr-Gives}
use fuseadf.Named.Rename.{rename_at, RenameAllowed}

-- What can be asked of an entry.
pub data Ask : Type 0 where
  look_at open_it set_owner set_times : Ask
  change : Change → Ask
  move_to : List Bytes → Bytes → Ask
  set_mode set_size : ℕ → Ask
  transfer_bytes : Transfer → ℕ → ℕ → Ask
  read_link : List ℕ → ℕ → Ask

-- An entry by its directory's names and its own, a directory by its names, or the volume. The path
-- that comes with the last is not looked at.
pub data Question (Buffer : Type 0) : Type 0 where
  entry : List Bytes → Bytes → Ask → Question Buffer
  names_in : List Bytes → Buffer → Question Buffer
  room : Bytes → Question Buffer

-- What the allocator and the names have to allow for a request.
abbrev pub AskAllowed : Libc → List Bytes → Bytes → Ask → Type 0
AskAllowed C dirs name look_at = Created C name
AskAllowed C dirs name open_it = Created C (rooted_path dirs name)
AskAllowed C dirs name set_owner = Unit
AskAllowed C dirs name set_times = Unit
AskAllowed C dirs name (change c) = Unit
AskAllowed C dirs name (move_to dst_dirs dst) =
    (Names dst_dirs × IsName dst) × RenameAllowed C dirs name dst_dirs dst
AskAllowed C dirs name (set_mode mode) = Created C (rooted_path dirs name)
AskAllowed C dirs name (set_size n) = Created C (rooted_path dirs name)
AskAllowed C dirs name (transfer_bytes t size offset) = Created C (rooted_path dirs name)
AskAllowed C dirs name (read_link buf len) = Created C (rooted_path dirs name)

module _ (B : Filler) where
  open B use {Buffer}

  -- The request with the path that spells the names.
  abbrev pub entry_request : Bytes → Ask → Request B
  entry_request path look_at = getattr path
  entry_request path open_it = open_file path
  entry_request path set_owner = chown path
  entry_request path set_times = utimens path
  entry_request path (change make_dir) = mkdir path
  entry_request path (change remove_dir) = rmdir path
  entry_request path (change remove_file) = unlink path
  entry_request path (change make_file) = create path
  entry_request path (move_to dst_dirs dst) = rename path (rooted_path dst_dirs dst)
  entry_request path (set_mode mode) = chmod path mode
  entry_request path (set_size n) = truncate path n
  entry_request path (transfer_bytes fetch size offset) = read path size offset
  entry_request path (transfer_bytes (store data') size offset) = write path data' size offset
  entry_request path (read_link buf len) = readlink path buf len

  abbrev pub spelled : Question Buffer → Request B
  spelled (entry dirs name ask) = entry_request (rooted_path dirs name) ask
  spelled (names_in dirs buf) = readdir (slash ∷ join dirs) buf
  spelled (room path) = statfs path

  abbrev pub Allowed : Libc → Question Buffer → Type 0
  Allowed C (entry dirs name ask) = Names dirs × IsName name × AskAllowed C dirs name ask
  Allowed C (names_in dirs buf) = Names dirs
  Allowed C (room path) = Unit

  abbrev pub AllAllowed : Libc → List (Question Buffer) → Type 0
  AllAllowed C [] = Unit
  AllAllowed C (q ∷ qs) = Allowed C q × AllAllowed C qs

  module _ (L : Adflib) (C : Libc) where
    open L use {Vol, to_root_dir}

    abbrev pub replied : {A : Type 0} → (A → Reply B) → A × Vol → Reply B × Vol
    replied wrap (a, v) = (wrap a, v)

    -- The server by names: the reply, and the volume at its root. `blksize` is the block size that
    -- the host reports of the image's file.
    abbrev pub answer_entry : ℕ → List Bytes → Bytes → Ask → Vol → Reply B × Vol
    answer_entry blksize dirs name look_at v = replied attributes (stat_at L C blksize v dirs name)
    answer_entry blksize dirs name open_it v = replied status (open_at L v dirs name)
    answer_entry blksize dirs name set_owner v = (status (pos 0), to_root_dir v)
    answer_entry blksize dirs name set_times v = (status (pos 0), to_root_dir v)
    answer_entry blksize dirs name (change c) v =
        replied status (change_at L (adflib_call L C c) v dirs name)
    answer_entry blksize dirs name (move_to dst_dirs dst) v =
        replied status (rename_at L v dirs name dst_dirs dst)
    answer_entry blksize dirs name (set_mode mode) v = replied status (chmod_at L v dirs name mode)
    answer_entry blksize dirs name (set_size n) v = replied status (truncate_at L v dirs name n)
    answer_entry blksize dirs name (transfer_bytes fetch size offset) v =
        replied bytes (transfer_at L fetch v dirs name size offset)
    answer_entry blksize dirs name (transfer_bytes (store data') size offset) v =
        replied (λ r. status r.0) (transfer_at L (store data') v dirs name size offset)
    answer_entry blksize dirs name (read_link buf len) v =
        replied link (readlink_at L v dirs name buf len)

    unfoldable pub answer : ℕ → Question Buffer → Vol → Reply B × Vol
    answer blksize (entry dirs name ask) v = answer_entry blksize dirs name ask v
    answer blksize (names_in dirs buf) v = replied entries (list_at L B v dirs buf)
    answer blksize (room path) v =
        let root = to_root_dir v in
        (volume (adffs_statfs L (record { vol = root; cwd = root_path; blksize = blksize })), root)

    -- The replies to a list of questions.
    unfoldable pub answers : ℕ → List (Question Buffer) → Vol → List (Reply B)
    answers blksize [] v = []
    answers blksize (q ∷ qs) v = let (r, v') = answer blksize q v in r ∷ answers blksize qs v'
