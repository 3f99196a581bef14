-- ===== src/Tests/Strings.antt =====
-- The theorems about path strings, permissions, times and resources at concrete inputs.
use fuseadf.Prelude.{
  ◌≡◌, refl, true, false, none, some, [], ◌++◌, codes, pos, plus, arith, if◌then◌else◌,
}
use fuseadf.Pathstr.{buffer, remove_double_slashes, pathstr_dirparent_u2a, pathstr_fuse2amigados}
use fuseadf.Pathstr.Slashes.{remove_double_slashes_hangs}
use fuseadf.Pathstr.Parent.{dirparent_u2a_hangs, dirparent_u2a_hangs_inside}
use fuseadf.Pathstr.Cells.{KeepsIf, fuse2amigados-Keeps}
use fuseadf.Image.Perm.{access_perms, new_access}
use fuseadf.Image.Perm.Laws.{access_perms-new_access}
use fuseadf.Time.{gmtime_to_time_t, gmtime_to_time_t_inverts}
use fuseadf.Mount.{Answers, adfimage_open, adfimage_close}
use fuseadf.Mount.Ledger.{
  everything, nothing, run, open_holds, close-open_releases, open_unreadable,
}
use fuseadf.Tests.Toy.{toy, toy_IsAccess}
use fuseadf.Tests.Host.{host, seconds}

remove_double_slashes_hangs_example : remove_double_slashes 9 (buffer (codes "/a//b")) ≡ none
remove_double_slashes_hangs_example =
    remove_double_slashes_hangs 9 (codes "/a") b'b' [] (omega arith)

dirparent_u2a_hangs_example : pathstr_dirparent_u2a 9 (buffer (codes "/a/../b")) ≡ none
dirparent_u2a_hangs_example = dirparent_u2a_hangs 9 (codes "/a/") (codes "b") (omega arith)

dirparent_u2a_hangs_inside_example : pathstr_dirparent_u2a 9 (buffer (codes "/a/..b")) ≡ none
dirparent_u2a_hangs_inside_example =
    dirparent_u2a_hangs_inside 9 (codes "/a") b'b' [] (omega arith) refl

fuse2amigados-Keeps_example :
    KeepsIf (buffer (codes "/a/..")) (pathstr_fuse2amigados 3 (buffer (codes "/a/..")))
fuse2amigados-Keeps_example = fuse2amigados-Keeps 3 (buffer (codes "/a/.."))

access_perms-new_access_example : access_perms toy (new_access toy 1 14) ≡ 1
access_perms-new_access_example = access_perms-new_access toy toy_IsAccess 1 14

gmtime_to_time_t_inverts_example :
    gmtime_to_time_t host (plus (pos 70) 1900) (plus (pos 0) 1) (pos 1) (pos 0) (pos 0) (pos 59)
    ≡ pos 59
gmtime_to_time_t_inverts_example = gmtime_to_time_t_inverts host seconds (pos 59) refl refl

-- A volume that mounts and whose root block cannot be read.
abbrev unreadable : Answers
unreadable = record {
  init_rc = pos 0;
  device = true;
  mount_rc = pos 0;
  volume = true;
  root_rc = pos 2;
  bitmap_valid = false;
  image = true;
}

open_holds_example :
    run unreadable (adfimage_open false unreadable).1 nothing
    ≡ some (if (adfimage_open false unreadable).0 then everything else nothing)
open_holds_example = open_holds false unreadable

close-open_releases_example :
    let (opened, calls) = adfimage_open false unreadable in
    run unreadable (calls ++ adfimage_close opened opened opened) nothing ≡ some nothing
close-open_releases_example = close-open_releases false unreadable

open_unreadable_example : (adfimage_open false unreadable).0 ≡ true
open_unreadable_example = open_unreadable unreadable refl refl refl refl refl refl
