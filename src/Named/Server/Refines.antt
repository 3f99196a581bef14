-- ===== src/Named/Server/Refines.antt =====
-- src/adffs.c refines the server by names.
use fuseadf.Prelude.{
  ℕ, suc, ◌≡◌, refl, ap, sym, ◌∙◌, none, some, pos, neg, List, [], ◌∷◌, map, Bytes,
}
use fuseadf.Pathstr.{slash}
use fuseadf.Libc.{Libc, enoent}
use fuseadf.Adflib.{Adflib, mode_read, mode_write}
use fuseadf.Adflib.Laws.{IsDirectory, IsPositionFree, KeepsOnFailure}
use fuseadf.Image.{Image}
use fuseadf.Image.Files.{find_link}
use fuseadf.Image.Rename.{check_parent}
use fuseadf.Fs.{Filler, adffs_statfs, adffs_readdir, adffs_open, adffs_chmod, adffs_truncate}
use fuseadf.Fs.Attr.{zero_stat, adffs_getattr}
use fuseadf.Fs.Forward.{adffs_readlink}
use fuseadf.Fs.Requests.{
  Reply, reply, handle, serve, status, attributes, bytes, link, entries, volume,
}
use fuseadf.History.Handlers.{statfs_same}
use fuseadf.Workdir.{IsName, Names}
use fuseadf.Workdir.Paths.{join}
use fuseadf.Named.{rooted_path, IsSplit, change_at}
use fuseadf.Named.Directory.{Gives, at_dir_rooted}
use fuseadf.Named.Change.{
  Change, make_dir, make_file, remove_dir, remove_file, request, adflib_call, request-Gives,
}
use fuseadf.Named.Transfer.{
  Transfer, fetch, store, mode, in_file, transfer, transfer_at, transfer-Gives,
}
use fuseadf.Named.Opened.{
  open_at, truncate_at, readlink_at, probe, resize, open-Gives, truncate-Gives, readlink-Gives,
}
use fuseadf.Named.Listing.{list_here, list_at, readdir-Gives}
use fuseadf.Named.Chmod.{chmod_at, chmod_from, chmod-Gives}
use fuseadf.Named.Stat.{stat_at, stat_here, getattr-Gives}
use fuseadf.Named.Rename.{rename_at, rename_of, dir_entry, rename-Gives}
use fuseadf.Named.Server.{
  Ask, look_at, open_it, set_owner, set_times, change, move_to, set_mode, set_size, transfer_bytes,
  read_link, Question, entry, names_in, room, AskAllowed, Allowed, AllAllowed, spelled, replied,
  answer_entry, answer, answers,
}

module _ (B : Filler) (L : Adflib) (C : Libc) where
  open B use {Buffer}
  open L use {Vol, to_root_dir, cur_dir_ptr, file_open, file_close}

  -- The handler returns, and gives what the server by names does.
  abbrev Returns : ℕ → Question Buffer → Image Vol → Type 0
  Returns fuel q img =
      (r : Reply B × Image Vol) × (handle B L C (suc fuel) (spelled B q) img ≡ some r)
      × Gives L r (answer B L C img.blksize q img.vol) img.blksize

  module _ (D : IsDirectory L) (F : IsPositionFree L) (K : KeepsOnFailure L) (P : IsSplit C) where
    returned :
        {A : Type 0} (wrap : A → Reply B) (fuel : ℕ) (q : Question Buffer) (img : Image Vol)
        (r : A × Image Vol) (s : A × Vol)
        → handle B L C (suc fuel) (spelled B q) img ≡ some (wrap r.0, r.1)
        → answer B L C img.blksize q img.vol ≡ replied B L C wrap s
        → Gives L r s img.blksize
        → Returns fuel q img
    returned wrap fuel q img r s handled answered (e, disk, size) =
        ((wrap r.0, r.1), handled, rw answered (ap wrap e, disk, size))

    changed :
        (fuel : ℕ) (c : Change) (dirs : List Bytes) (name : Bytes) (img : Image Vol)
        → handle B L C (suc fuel) (spelled B (entry dirs name (change c))) img
          ≡ reply B status (request L C c (rooted_path dirs name) img)
    unfolding handle request
    changed fuel make_dir dirs name img = refl
    changed fuel remove_dir dirs name img = refl
    changed fuel remove_file dirs name img = refl
    changed fuel make_file dirs name img = refl

    entry-Returns :
        (fuel : ℕ) (dirs : List Bytes) (name : Bytes) (ask : Ask) (img : Image Vol)
        → Names dirs
        → IsName name
        → AskAllowed C dirs name ask
        → Returns fuel (entry dirs name ask) img
    unfolding handle answer transfer
    entry-Returns fuel dirs name look_at img h k made =
        returned attributes fuel (entry dirs name look_at) img
          (adffs_getattr L C (rooted_path dirs name) img)
          (stat_at L C img.blksize img.vol dirs name) refl refl
          (getattr-Gives L C P D K dirs name img h k made)
    entry-Returns fuel dirs name open_it img h k made =
        returned status fuel (entry dirs name open_it) img
          (adffs_open L C (rooted_path dirs name) img) (open_at L img.vol dirs name) refl refl
          (open-Gives L C P D dirs name img h k made F)
    entry-Returns fuel dirs name set_owner img h k made =
        ((status (pos 0), img), refl, (refl, refl, refl))
    entry-Returns fuel dirs name set_times img h k made =
        ((status (pos 0), img), refl, (refl, refl, refl))
    entry-Returns fuel dirs name (change c) img h k made =
        returned status fuel (entry dirs name (change c)) img
          (request L C c (rooted_path dirs name) img)
          (change_at L (adflib_call L C c) img.vol dirs name) (changed fuel c dirs name img) refl
          (request-Gives L C D P c dirs name img h k)
    entry-Returns fuel dirs name (move_to dst_dirs dst) img h k made =
        let ((h', k'), allowed) = made in
        let (r, e, gives) =
          rename-Gives L C P D F fuel dirs name dst_dirs dst img h k h' k' allowed in
        returned status fuel (entry dirs name (move_to dst_dirs dst)) img r
          (rename_at L img.vol dirs name dst_dirs dst) (rw e refl) refl gives
    entry-Returns fuel dirs name (set_mode mode) img h k made =
        returned status fuel (entry dirs name (set_mode mode)) img
          (adffs_chmod L C (rooted_path dirs name) mode img) (chmod_at L img.vol dirs name mode)
          refl refl (chmod-Gives L C P D F dirs name mode img h k made)
    entry-Returns fuel dirs name (set_size n) img h k made =
        returned status fuel (entry dirs name (set_size n)) img
          (adffs_truncate L C (rooted_path dirs name) n img) (truncate_at L img.vol dirs name n)
          refl refl (truncate-Gives L C P D dirs name img h k made F n)
    entry-Returns fuel dirs name (transfer_bytes fetch size offset) img h k (path, made) =
        returned bytes fuel (entry dirs name (transfer_bytes fetch size offset)) img
          (transfer L C fetch (rooted_path dirs name) size offset img)
          (transfer_at L fetch img.vol dirs name size offset) refl refl
          (transfer-Gives L C D P fetch dirs name path size offset img h k made)
    entry-Returns fuel dirs name (transfer_bytes (store data') size offset) img h k (path, made) =
        returned (λ r. status r.0) fuel (entry dirs name (transfer_bytes (store data') size offset))
          img (transfer L C (store data') (rooted_path dirs name) size offset img)
          (transfer_at L (store data') img.vol dirs name size offset) refl refl
          (transfer-Gives L C D P (store data') dirs name path size offset img h k made)
    entry-Returns fuel dirs name (read_link buf len) img h k made =
        returned link fuel (entry dirs name (read_link buf len)) img
          (adffs_readlink L C (rooted_path dirs name) buf len img)
          (readlink_at L img.vol dirs name buf len) refl refl
          (readlink-Gives L C P D dirs name img h k made buf len)

    handle-Returns :
        (fuel : ℕ) (q : Question Buffer) (img : Image Vol) → Allowed B C q → Returns fuel q img
    unfolding handle answer
    handle-Returns fuel (entry dirs name ask) img (h, k, made) =
        entry-Returns fuel dirs name ask img h k made
    handle-Returns fuel (names_in dirs buf) img h =
        returned entries fuel (names_in dirs buf) img
          (adffs_readdir L B (slash ∷ join dirs) buf img) (list_at L B img.vol dirs buf) refl refl
          (readdir-Gives L B D dirs buf img h)
    handle-Returns fuel (room path) img h = (
      (volume (adffs_statfs L img), img),
      refl,
      (
        ap volume (
            statfs_same L D F img _
              (record { same_root = sym (D.to_root-to_root img.vol); same_blksize = refl })),
        refl,
        refl,
      ),
    )

    transfer_rooted :
        (t : Transfer) (dirs : List Bytes) (name : Bytes) (size offset : ℕ) (v : Vol)
        → transfer_at L t v dirs name size offset
          ≡ transfer_at L t (to_root_dir v) dirs name size offset
    transfer_rooted t dirs name size offset v =
        at_dir_rooted L D (λ v. ((neg enoent, []), v))
          (λ there. in_file L t size offset (file_open there name (mode t))) v dirs

    entry_rooted :
        (blksize : ℕ) (dirs : List Bytes) (name : Bytes) (v : Vol) (ask : Ask)
        → answer_entry B L C blksize dirs name ask v
          ≡ answer_entry B L C blksize dirs name ask (to_root_dir v)
    entry_rooted blksize dirs name v look_at = ap (replied B L C attributes) (
        at_dir_rooted L D (λ v. ((neg enoent, zero_stat), v)) (stat_here L C blksize dirs name) v
          dirs)
    entry_rooted blksize dirs name v open_it = ap (replied B L C status) (
        at_dir_rooted L D (λ v. (neg 1, to_root_dir (file_close none v)))
          (λ there. probe L (file_open there name mode_read)) v dirs)
    entry_rooted blksize dirs name v set_owner =
        ap (λ w. (status (pos 0), w)) (sym (D.to_root-to_root v))
    entry_rooted blksize dirs name v set_times =
        ap (λ w. (status (pos 0), w)) (sym (D.to_root-to_root v))
    entry_rooted blksize dirs name v (change c) = ap (replied B L C status) (
        at_dir_rooted L D (λ v. (neg enoent, v))
          (λ there. adflib_call L C c there (cur_dir_ptr there) name) v dirs)
    entry_rooted blksize dirs name v (move_to dst_dirs dst) =
        ap
          (λ w.
            replied B L C status
              (rename_of L (check_parent (dir_entry L w dirs)) name dst_dirs dst w))
          (sym (D.to_root-to_root v))
    entry_rooted blksize dirs name v (set_mode mode) =
        ap (λ w. replied B L C status (chmod_from L w dirs name mode)) (sym (D.to_root-to_root v))
    entry_rooted blksize dirs name v (set_size n) = ap (replied B L C status) (
        at_dir_rooted L D (λ v. (neg 1, v)) (λ there. resize L n (file_open there name mode_write))
          v dirs)
    entry_rooted blksize dirs name v (transfer_bytes fetch size offset) =
        ap (replied B L C bytes) (transfer_rooted fetch dirs name size offset v)
    entry_rooted blksize dirs name v (transfer_bytes (store data') size offset) =
        ap (replied B L C (λ r. status r.0)) (transfer_rooted (store data') dirs name size offset v)
    entry_rooted blksize dirs name v (read_link buf len) = ap (replied B L C link) (
        at_dir_rooted L D (λ v. ((neg 1, buf), v))
          (λ there. (find_link L there name buf len, there)) v dirs)

    -- The answer does not depend on where the volume stands.
    answer_rooted :
        (blksize : ℕ) (q : Question Buffer) (v : Vol)
        → answer B L C blksize q v ≡ answer B L C blksize q (to_root_dir v)
    unfolding answer
    answer_rooted blksize (entry dirs name ask) v = entry_rooted blksize dirs name v ask
    answer_rooted blksize (names_in dirs buf) v =
        ap (replied B L C entries)
          (at_dir_rooted L D (λ v. ((neg enoent, buf), v)) (list_here L B buf) v dirs)
    answer_rooted blksize (room path) v = rw (D.to_root-to_root v)

    answers_rooted :
        (blksize : ℕ) (qs : List (Question Buffer)) (v : Vol)
        → answers B L C blksize qs v ≡ answers B L C blksize qs (to_root_dir v)
    unfolding answers
    answers_rooted blksize [] v = refl
    answers_rooted blksize (q ∷ qs) v =
        ap (λ (r : Reply B × Vol). r.0 ∷ answers B L C blksize qs r.1) (answer_rooted blksize q v)

    -- Sessions refine a file server by names: from any image, with one unit of fuel or more, the
    -- handlers answer a list of requests for named entries and directories with one reply each, the
    -- replies of that server from the image's volume. It has no working directory, path strings or
    -- fuel. ADFlib meets `IsDirectory`, `IsPositionFree` and `KeepsOnFailure`, the C library
    -- `IsSplit`, the allocations for the paths succeed, and the directories of renames hold none of
    -- `//`, `../`, `/..` and NUL.
    pub serve_refines :
        (fuel : ℕ) (qs : List (Question Buffer)) (img : Image Vol)
        → AllAllowed B C qs
        → serve B L C (suc fuel) (map (spelled B) qs) img
          ≡ some (answers B L C img.blksize qs img.vol)
    unfolding serve answers
    serve_refines fuel [] img allowed = refl
    serve_refines fuel (q ∷ qs) img (allowed, rest) =
        let (r, e, gives) = handle-Returns fuel q img allowed in
        let (reply_same, disk, size) = gives in
        rw (e, serve_refines fuel qs r.1 rest, reply_same, size)
          (ap (λ replies. some ((answer B L C img.blksize q img.vol).0 ∷ replies))
            (answers_rooted img.blksize qs r.1.vol ∙ ap (answers B L C img.blksize qs) disk))
