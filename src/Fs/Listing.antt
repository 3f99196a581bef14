-- ===== src/Fs/Listing.antt =====
-- What `adffs_readdir` lists, with a buffer that holds a bounded number of names.
use fuseadf.Prelude.{
  ℕ, zero, suc, ◌-◌, ◌≡◌, refl, Bool, true, false, List, [], ◌∷◌, ◌++◌, map, append_assoc,
  append-nil, arith, Bytes, codes, length, take, ltb, pos, neg, if◌then◌else◌,
}
use fuseadf.Libc.{eagain}
use fuseadf.Adflib.{Adflib, AdfEntry}
use fuseadf.Image.{Image, chdir, to_root}
use fuseadf.Fs.{Filler, fill_entries, adffs_readdir}

-- A buffer is the room left and the names so far. Without room a name is not added.
abbrev bounded_fill : ℕ × List Bytes → Bytes → Bool × (ℕ × List Bytes)
bounded_fill (zero, names) name = (true, (zero, names))
bounded_fill (suc room, names) name = (false, (room, names ++ name ∷ []))

abbrev pub bounded : Filler
bounded = record { Buffer = ℕ × List Bytes; fill = bounded_fill }

abbrev entry_name : AdfEntry → Bytes
entry_name e = e.name

abbrev pub entry_names : List AdfEntry → List Bytes
entry_names es = map entry_name es

module _ (L : Adflib) where
  open L use {Vol, cur_dir_ptr, get_dir_ent, to_root_dir}

  fill_entries-bounded :
      (es : List AdfEntry) (room : ℕ) (names : List Bytes)
      → fill_entries L bounded es (room, names)
        ≡ (ltb room (length es), (room - length es, names ++ take room (entry_names es)))
  unfolding fill_entries
  fill_entries-bounded [] zero names = rw append-nil (ground arith)
  fill_entries-bounded [] (suc room) names = rw append-nil (ground arith)
  fill_entries-bounded (e ∷ es) zero names = rw append-nil (ground arith)
  fill_entries-bounded (e ∷ es) (suc room) names =
      rw (fill_entries-bounded es room (names ++ e.name ∷ []), append_assoc) (ground arith)

  -- Into an empty buffer with room for `.`, `..` and `room` more names, a listing of a directory
  -- that can be entered puts the two and the names of the entries in the order of ADFlib, as many as
  -- fit. It returns 0 if all fit and -EAGAIN if not, and leaves the volume at the root either way.
  pub readdir_lists :
      (path : Bytes) (room : ℕ) (img there : Image Vol)
      → chdir L path img ≡ (true, there)
      → let es = get_dir_ent there.vol (cur_dir_ptr there.vol) in
        adffs_readdir L bounded path (suc (suc room), []) img ≡ (
          (
            if ltb room (length es) then neg eagain else pos 0,
            (room - length es, codes "." ∷ codes ".." ∷ take room (entry_names es)),
          ),
          to_root L there,
        )
  unfolding adffs_readdir
  readdir_lists path room img there entered = rw entered (
      rw
        (fill_entries-bounded (get_dir_ent there.vol (cur_dir_ptr there.vol)) room
          (codes "." ∷ codes ".." ∷ []))
        refl)
