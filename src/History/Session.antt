-- ===== src/History/Session.antt =====
-- The answers to a session of requests with absolute paths, from two images with the same disk.
use fuseadf.Prelude.{ℕ, ◌≡◌, refl, ap, ◌≢◌, Option, none, some, List, [], ◌∷◌, Bytes, ℤ, neg}
use fuseadf.Pathstr.{bind, pathstr_get_relative}
use fuseadf.Libc.{Libc, IsPosix, eexist, eperm, einval}
use fuseadf.Adflib.{Adflib}
use fuseadf.Adflib.Laws.{IsDirectory, IsPositionFree}
use fuseadf.Image.{Image}
use fuseadf.Image.Entries.{
  create_file_status, adfimage_mkdir, adfimage_rmdir, adfimage_unlink, adfimage_create,
}
use fuseadf.Fs.{Filler}
use fuseadf.Fs.Attr.{adffs_getattr, getattr_of}
use fuseadf.Fs.Requests.{
  Request, Reply, getattr, statfs, mkdir, unlink, rmdir, create, open_file, chown, utimens,
  readlink, rename, chmod, truncate, read, write, readdir, reply, handle, serve, status, attributes,
  bytes, link, entries, volume,
}
use fuseadf.History.Chdir.{SameDisk, SameDisk-refl, Agree, AgreeIf, Absolute}
use fuseadf.History.Files.{read-Agree, write-Agree, readlink-Agree}
use fuseadf.History.Entries.{in_parent-Agree}
use fuseadf.History.Rename.{open-Agree}
use fuseadf.History.Handlers.{
  entry_getattr_same, readdir_same, statfs_same, rename-AgreeIf, chmod-Agree, adffs_truncate-Agree,
}

module _ (L : Adflib) (D : IsDirectory L) (F : IsPositionFree L) (C : Libc) (P : IsPosix C) where
  open L use {Vol, create_dir, remove_entry}

  module _ (B : Filler) where
    open B use {Buffer}

    -- A request with absolute paths; `getattr` of the root directory is not among them.
    abbrev pub IsAbsolute : Request B → Type 0
    IsAbsolute (getattr path) = Absolute path × (pathstr_get_relative path ≢ [])
    IsAbsolute (rename src dst) = Absolute src × Absolute dst
    IsAbsolute (readlink path buf len) = Absolute path
    IsAbsolute (chmod path mode) = Absolute path
    IsAbsolute (truncate path size) = Absolute path
    IsAbsolute (read path size offset) = Absolute path
    IsAbsolute (write path data' size offset) = Absolute path
    IsAbsolute (readdir path buf) = Absolute path
    IsAbsolute (open_file path) = Absolute path
    IsAbsolute (statfs path) = Unit
    IsAbsolute (mkdir path) = Unit
    IsAbsolute (unlink path) = Unit
    IsAbsolute (rmdir path) = Unit
    IsAbsolute (create path) = Unit
    IsAbsolute (chown path) = Unit
    IsAbsolute (utimens path) = Unit

    getattr_of_same :
        (rel path : Bytes) (img img' : Image Vol)
        → SameDisk L img img'
        → Absolute path
        → rel ≢ []
        → getattr_of L C rel path img ≡ getattr_of L C rel path img'
    getattr_of_same rel [] img img' s abs h = absurd abs
    getattr_of_same [] (c ∷ p) img img' s abs h = absurd (h refl)
    getattr_of_same (r ∷ rel) (c ∷ p) img img' s abs h =
        rw abs (entry_getattr_same L D F C P p img img' s)

    wrapped :
        {A : Type 0} (wrap : A → Reply B) (r r' : A × Image Vol)
        → Agree L r r'
        → AgreeIf L (reply B wrap r) (reply B wrap r')
    wrapped wrap r r' h = (ap wrap h.0, h.1)

    equal :
        {A : Type 0} (wrap : A → Reply B) (r r' : A × Image Vol)
        → r ≡ r'
        → AgreeIf L (reply B wrap r) (reply B wrap r')
    equal wrap r r' h = rw h (refl, SameDisk-refl L r'.1)

    renamed :
        (r r' : Option (ℤ × Image Vol))
        → AgreeIf L r r'
        → AgreeIf L (bind r λ r. reply B status r) (bind r' λ r. reply B status r)
    renamed none none h = tt
    renamed none (some r') h = absurd h
    renamed (some r) none h = absurd h
    renamed (some r) (some r') h = (ap status h.0, h.1)

    handle-AgreeIf :
        (fuel : ℕ) (req : Request B) (img img' : Image Vol)
        → IsAbsolute req
        → SameDisk L img img'
        → AgreeIf L (handle B L C fuel req img) (handle B L C fuel req img')
    unfolding handle adffs_getattr adfimage_mkdir adfimage_rmdir adfimage_unlink adfimage_create
    handle-AgreeIf fuel (getattr path) img img' h s =
        equal attributes _ _ (getattr_of_same (pathstr_get_relative path) path img img' s h.0 h.1)
    handle-AgreeIf fuel (readlink [] buf len) img img' h s = absurd h
    handle-AgreeIf fuel (readlink (c ∷ p) buf len) img img' h s =
        rw h (wrapped link _ _ (readlink-Agree L C D P p img img' s buf len))
    handle-AgreeIf fuel (mkdir path) img img' h s =
        wrapped status _ _
          (in_parent-Agree L C (neg eexist) create_dir (pathstr_get_relative path) img img' s)
    handle-AgreeIf fuel (unlink path) img img' h s =
        wrapped status _ _
          (in_parent-Agree L C (neg eperm) remove_entry (pathstr_get_relative path) img img' s)
    handle-AgreeIf fuel (rmdir path) img img' h s =
        wrapped status _ _
          (in_parent-Agree L C (neg eperm) remove_entry (pathstr_get_relative path) img img' s)
    handle-AgreeIf fuel (create path) img img' h s = wrapped status _ _ (
        in_parent-Agree L C (neg einval) (create_file_status L C) (pathstr_get_relative path) img
          img' s)
    handle-AgreeIf fuel (rename [] dst) img img' h s = absurd h.0
    handle-AgreeIf fuel (rename (c ∷ p) []) img img' h s = absurd h.1
    handle-AgreeIf fuel (rename (c ∷ p) (d ∷ q)) img img' h s =
        rw (h.0, h.1) (renamed _ _ (rename-AgreeIf L D F C P fuel p q img img' s))
    handle-AgreeIf fuel (chmod [] mode) img img' h s = absurd h
    handle-AgreeIf fuel (chmod (c ∷ p) mode) img img' h s =
        rw h (wrapped status _ _ (chmod-Agree L D F C P p mode img img' s))
    handle-AgreeIf fuel (chown path) img img' h s = (refl, s)
    handle-AgreeIf fuel (truncate [] size) img img' h s = absurd h
    handle-AgreeIf fuel (truncate (c ∷ p) size) img img' h s =
        rw h (wrapped status _ _ (adffs_truncate-Agree L D F C P p size img img' s))
    handle-AgreeIf fuel (open_file []) img img' h s = absurd h
    handle-AgreeIf fuel (open_file (c ∷ p)) img img' h s =
        rw h (wrapped status _ _ (open-Agree L D F C P p img img' s))
    handle-AgreeIf fuel (read [] size offset) img img' h s = absurd h
    handle-AgreeIf fuel (read (c ∷ p) size offset) img img' h s =
        rw h (wrapped bytes _ _ (read-Agree L C D P p img img' s size offset))
    handle-AgreeIf fuel (write [] data' size offset) img img' h s = absurd h
    handle-AgreeIf fuel (write (c ∷ p) data' size offset) img img' h s =
        rw h (wrapped status _ _ (write-Agree L C D P p img img' s data' size offset))
    handle-AgreeIf fuel (statfs path) img img' h s = (ap volume (statfs_same L D F img img' s), s)
    handle-AgreeIf fuel (readdir [] buf) img img' h s = absurd h
    handle-AgreeIf fuel (readdir (c ∷ p) buf) img img' h s =
        rw h (equal entries _ _ (readdir_same L D F C P B p buf img img' s))
    handle-AgreeIf fuel (utimens path) img img' h s = (refl, s)

    abbrev pub All : List (Request B) → Type 0
    All [] = Unit
    All (req ∷ reqs) = IsAbsolute req × All reqs

    -- Two rounds that agree, with sessions that do so on the same disk.
    round_same :
        (k : Image Vol → Option (List (Reply B)))
        → ((img img' : Image Vol) → SameDisk L img img' → k img ≡ k img')
        → (r r' : Option (Reply B × Image Vol)) → AgreeIf L r r'
        → bind r (λ r. bind (k r.1) λ rest. some (r.0 ∷ rest))
          ≡ bind r' (λ r. bind (k r.1) λ rest. some (r.0 ∷ rest))
    round_same k same none none h = refl
    round_same k same none (some r') h = absurd h
    round_same k same (some r) none h = absurd h
    round_same k same (some r) (some r') h = rw (h.0, same r.1 r'.1 h.1)

    -- The replies to a session depend on the disk alone: from two images that differ at most in
    -- where earlier calls left the volume and `cwd`, every list of requests with absolute paths,
    -- `getattr` of the root directory not among them, gets the same replies, or neither session
    -- gives replies within the fuel. ADFlib meets `IsDirectory` and `IsPositionFree`, and the C
    -- library `IsPosix`.
    pub serve_history :
        (fuel : ℕ) (reqs : List (Request B)) (img img' : Image Vol)
        → All reqs
        → SameDisk L img img'
        → serve B L C fuel reqs img ≡ serve B L C fuel reqs img'
    unfolding serve
    serve_history fuel [] img img' h s = refl
    serve_history fuel (req ∷ reqs) img img' h s =
        round_same (serve B L C fuel reqs) (λ a b t. serve_history fuel reqs a b h.1 t)
          (handle B L C fuel req img) (handle B L C fuel req img')
          (handle-AgreeIf fuel req img img' h.0 s)
