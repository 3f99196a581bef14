-- ===== src/Named/Stat.antt =====
-- `adffs_getattr` of src/adffs.c in the view by names.
use fuseadf.Prelude.{
  ℕ, ◌≡◌, refl, ap, ◌∙◌, Bool, true, Option, none, some, List, [], ◌∷◌, ◌++◌, Bytes, ℤ, pos, neg,
  length, strcmp_eq, if◌then◌else◌,
}
use fuseadf.Pathstr.{slash}
use fuseadf.Libc.{Libc, enoent}
use fuseadf.Adflib.{Adflib, AdfEntry, mode_read}
use fuseadf.Adflib.Laws.{IsDirectory, KeepsOnFailure}
use fuseadf.Image.{
  Image, root_path, to_root, chdir, enter_dirpath, count_cwd_entries, count_dir_entries,
}
use fuseadf.Image.Dentry.{
  Dentry, DentryType, dentry_none, dentry_file, dentry_directory, dentry_linkfile, dentry_linkdir,
  dentry_softlink, dentry_unknown, found_dentry, getdentry,
}
use fuseadf.Image.Perm.{getperm}
use fuseadf.Fs.Attr.{
  Stat, zero_stat, file_mode, directory_mode, softlink_mode, file_size, stat_dentry, finish_stat,
  finish, entry_getattr, adffs_getattr,
}
use fuseadf.History.Chdir.{SameDisk, SameDisk-trans, chdir-SameDisk, enter_dirs-SameDisk}
use fuseadf.Workdir.{IsName, Names, At, render}
use fuseadf.Workdir.Enter.{enter_dirs-descend, chdir_rooted}
use fuseadf.Workdir.Lookup.{getdentry_image, stays_if_empty}
use fuseadf.Workdir.Paths.{join}
use fuseadf.Named.{relative_path, rooted_path, IsSplit, locate, entry_here}
use fuseadf.Named.Directory.{at_dir, Same, Gives, at_dir_lem_at}
use fuseadf.Named.Change.{relative_rooted, relative_path_ne_nil, Names-snoc}
use fuseadf.Named.Entered.{Created, path_create_lem}
use fuseadf.Named.Attr.{name_not_root, direntry_name_lem, getdentry_name, getattr_of_entry}
use fuseadf.Named.Reach.{reach, enter_dirs-reach}

module _ (L : Adflib) where
  open L use {Vol, File, to_root_dir, cur_dir_ptr, get_dir_ent, file_open, file_close}

  -- The entries where the names lead to from the root.
  abbrev pub entries_of : Vol → List Bytes → ℕ
  entries_of v dirs =
      let far = reach L (to_root_dir v) dirs in length (get_dir_ent far (cur_dir_ptr far))

  -- Counting the entries of a path goes there and back.
  count_dir_entries-reach :
      (D : IsDirectory L) (dirs : List Bytes) (img : Image Vol)
      → Names dirs
      → let (n, img') = count_dir_entries L (slash ∷ join dirs) img in
        (n ≡ entries_of img.vol dirs) × SameDisk L img' img
  unfolding count_dir_entries count_cwd_entries to_root
  count_dir_entries-reach D dirs img h =
      let there = (chdir L (slash ∷ join dirs) img).1 in
      let at : there.vol ≡ reach L (to_root_dir img.vol) dirs =
        rw (chdir_rooted L dirs img h)
          (enter_dirs-reach L dirs (record (to_root L img) { cwd = root_path })) in
      (
        ap (λ v. length (get_dir_ent v (cur_dir_ptr v))) at,
        SameDisk-trans L (chdir-SameDisk L D img.cwd there)
            (chdir-SameDisk L D (slash ∷ join dirs) img),
      )

  module _ (C : Libc) where
    abbrev of_file : ℕ → Option File × Vol → Option Stat × Vol
    of_file mode (file, v) = (
      some (file_size L C file (record zero_stat { st_mode = mode; st_nlink = 1 })),
      file_close file v,
    )

    -- By the type of an entry of the directory where the volume stands: a file is opened for its size,
    -- and a directory has as many entries as its own path leads to. `none` is -ENOENT.
    abbrev pub stat_of : DentryType → List Bytes → Bytes → Dentry → Vol → Option Stat × Vol
    stat_of dentry_file dirs name dentry v =
        of_file (file_mode (getperm L dentry)) (file_open v name mode_read)
    stat_of dentry_linkfile dirs name dentry v =
        of_file (file_mode (getperm L dentry)) (file_open v name mode_read)
    stat_of dentry_directory dirs name dentry v = (
      some (record zero_stat {
        st_mode = directory_mode (getperm L dentry);
        st_nlink = 1;
        st_size = entries_of v (dirs ++ name ∷ []);
      }),
      v,
    )
    stat_of dentry_linkdir dirs name dentry v = (
      some (record zero_stat {
        st_mode = directory_mode (getperm L dentry);
        st_nlink = 1;
        st_size = entries_of v (dirs ++ name ∷ []);
      }),
      v,
    )
    stat_of dentry_softlink dirs name dentry v =
        (some (record zero_stat { st_mode = softlink_mode; st_nlink = 1 }), v)
    stat_of dentry_unknown dirs name dentry v = (some zero_stat, v)
    stat_of dentry_none dirs name dentry v = (none, v)

    abbrev pub finish_at : Dentry → ℕ → Option Stat × Vol → (ℤ × Stat) × Vol
    finish_at dentry blksize (none, v) = ((neg enoent, zero_stat), v)
    finish_at dentry blksize (some st, v) = ((pos 0, finish_stat L C dentry blksize st), v)

    abbrev pub stat_here : ℕ → List Bytes → Bytes → Vol → (ℤ × Stat) × Vol
    stat_here blksize dirs name v =
        let dentry = found_dentry (entry_here L v name) in
        finish_at dentry blksize (stat_of (dentry.type) dirs name dentry v)

    abbrev pub stat_at : ℕ → Vol → List Bytes → Bytes → (ℤ × Stat) × Vol
    stat_at blksize v dirs name =
        at_dir L (λ v. ((neg enoent, zero_stat), v)) (stat_here blksize dirs name) v dirs

    finish-Same :
        (dentry : Dentry) (st st' : Option Stat) (img : Image Vol) (v : Vol) (blksize : ℕ)
        → Same L (st, img) (st', v) blksize
        → Same L (finish L C dentry (st, img)) (finish_at dentry blksize (st', v)) blksize
    finish-Same dentry st none img v blksize (e, disk, size) = rw e (refl, disk, size)
    finish-Same dentry st (some st') img v blksize (e, disk, size) =
        rw e (ap (λ n. (pos 0, finish_stat L C dentry n st')) size, disk, size)

    stat_dentry-Same :
        (D : IsDirectory L) (dirs : List Bytes) (name : Bytes) (dentry : Dentry) (img : Image Vol)
        → Names (dirs ++ name ∷ [])
        → Same L
            (stat_dentry L C (rooted_path dirs name) name dentry img)
            (stat_of (dentry.type) dirs name dentry img.vol)
            img.blksize
    unfolding stat_dentry
    stat_dentry-Same D dirs name dentry img h = by_type (dentry.type)
      where
        by_type :
            (t : DentryType)
            → Same L
                (stat_dentry L C (rooted_path dirs name) name (record dentry { type = t }) img)
                (stat_of t dirs name (record dentry { type = t }) img.vol)
                img.blksize
        by_type dentry_file = (refl, refl, refl)
        by_type dentry_linkfile = (refl, refl, refl)
        by_type dentry_directory =
            let (n, s) = count_dir_entries-reach D (dirs ++ name ∷ []) img h in
            rw n (refl, s.same_root, s.same_blksize)
        by_type dentry_linkdir =
            let (n, s) = count_dir_entries-reach D (dirs ++ name ∷ []) img h in
            rw n (refl, s.same_root, s.same_blksize)
        by_type dentry_softlink = (refl, refl, refl)
        by_type dentry_unknown = (refl, refl, refl)
        by_type dentry_none = (refl, refl, refl)

  module _ (C : Libc) (P : IsSplit C) (D : IsDirectory L) (K : KeepsOnFailure L) where
    stays-same : (es : List AdfEntry) (img : Image Vol) → stays_if_empty L D K C es img img ≡ img
    stays-same [] img = refl
    stays-same (e ∷ es) img = refl

    -- A bare name is looked up where the volume stands, which stays there.
    getdentry_here :
        (dirs : List Bytes) (name : Bytes) (img : Image Vol)
        → Names dirs
        → At L img dirs
        → IsName name
        → Created C name
        → getdentry L C name img ≡ (found_dentry (entry_here L img.vol name), img)
    unfolding enter_dirpath chdir join strcmp_eq
    getdentry_here dirs name img h at k (path, created) =
        let (dir, _) = path_create_lem C name path created in
        let there = (enter_dirpath L path.dirpath img).2 in
        let here : there ≡ img = rw (dir ∙ P.dirname_relative [] name tt k) refl in
        let back = getdentry_image L D K C name path dirs img (name_not_root name k) created h at in
        let es = get_dir_ent there.vol (cur_dir_ptr there.vol) in
        (λ i. (
          getdentry_name L C P name path img k created i,
          (back ∙ ap (λ x. stays_if_empty L D K C es x img) here ∙ stays-same es img) i,
        ))

    -- Where the names lead, the working directory spells them.
    At-names :
        (dirs : List Bytes) (img : Image Vol) (there : Vol)
        → locate L img.vol dirs ≡ some there
        → At L (record { vol = there; cwd = render root_path dirs; blksize = img.blksize }) dirs
    unfolding to_root
    At-names dirs img there e =
        let start : Image Vol = record (to_root L img) { cwd = root_path } in
        let s =
          rw (enter_dirs-descend L dirs start there e) at (enter_dirs-SameDisk L D dirs start) in
        record { spelled = refl; reached = rw (s.same_root, D.to_root-to_root img.vol) e }

    -- What `entry_getattr` does behind the change of directory.
    abbrev answered : Bytes → Bytes → Bool × Image Vol → (ℤ × Stat) × Image Vol
    answered path name (ok, there) =
        let (dentry, found) = getdentry L C name there in
        let (st, img') = stat_dentry L C path name dentry found in
        if ok then finish L C dentry (st, to_root L img') else ((neg enoent, zero_stat), there)

    answered-Same :
        (dirs : List Bytes) (name : Bytes) (img : Image Vol)
        → Names dirs
        → At L img dirs
        → IsName name
        → Created C name
        → Same L
            (answered (rooted_path dirs name) name (true, img))
            (stat_here C img.blksize dirs name img.vol)
            img.blksize
    unfolding to_root
    answered-Same dirs name img h at k created =
        let dentry = found_dentry (entry_here L img.vol name) in
        let (st, disk, size) =
          stat_dentry-Same C D dirs name dentry img (Names-snoc dirs name h k) in
        rw (getdentry_here dirs name img h at k created)
          (finish-Same C dentry _ _ _ _ img.blksize (st, D.to_root-to_root _ ∙ disk, size))

    pub getattr-Gives :
        (dirs : List Bytes) (name : Bytes) (img : Image Vol)
        → Names dirs
        → IsName name
        → Created C name
        → Gives L
            (adffs_getattr L C (rooted_path dirs name) img)
            (stat_at C img.blksize img.vol dirs name)
            img.blksize
    unfolding adffs_getattr entry_getattr
    getattr-Gives dirs name img h k created =
        rw
          (
            relative_rooted dirs name h k,
            getattr_of_entry L C P (relative_path dirs name) (rooted_path dirs name) img
                (relative_path_ne_nil dirs name h k),
            P.dirname_rooted dirs name h k,
            P.basename_rooted dirs name h k,
            direntry_name_lem name k,
            chdir_rooted L dirs img h,
          )
          (at_dir_lem_at L D (answered (rooted_path dirs name) name)
            (λ v. ((neg enoent, zero_stat), v)) (stat_here C img.blksize dirs name) dirs root_path
            img (λ there e. answered-Same dirs name _ h (At-names dirs img there e) k created)
            (λ there. (refl, refl, refl)))
