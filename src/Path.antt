-- ===== src/Path.antt =====
-- `path_t` of src/util.h: a path cut into its directory and its entry name.
use fuseadf.Prelude.{Bool, Option, none, some, Bytes, if◌then◌else◌}
use fuseadf.Pathstr.{pathstr_is_non_empty}
use fuseadf.Libc.{Libc}

-- The two buffers that the source keeps for `free` hold the same strings.
pub record PathT : Type 0 where
  pub dirpath : Bytes
  pub entryname : Bytes

module _ (C : Libc) where
  unfoldable pub path_create : Bytes → Option PathT
  path_create path_str =
      if C.path_malloc path_str
      then (if C.dirpath_strdup path_str
          then (if C.entryname_strdup path_str
              then some (record { dirpath = C.dirname path_str; entryname = C.basename path_str })
              else none)
          else none)
      else none

unfoldable pub path_is_dirpath_non_empty : PathT → Bool
unfolding pathstr_is_non_empty
path_is_dirpath_non_empty path = pathstr_is_non_empty path.dirpath

-- As in the source, this looks at the directory too.
unfoldable pub path_is_entryname_non_empty : PathT → Bool
unfolding pathstr_is_non_empty
path_is_entryname_non_empty path = pathstr_is_non_empty path.dirpath
