-- ===== src/Log.antt =====
-- The log: src/log.c, and `flog` with its functions in src/adffs_log.c. What `vfprintf` makes of a
-- format is a parameter, the text. `none` is a use of a stream after `fclose`.
pub mod Laws
use fuseadf.Prelude.{
  Bool, true, false, not, Option, none, some, List, [], ◌∷◌, ◌++◌, Bytes, if◌then◌else◌,
}
use fuseadf.Pathstr.{bind}

-- Whether `flog` is not NULL, whether the stream is open, and the lines in the file.
pub record Log : Type 0 where
  pub flog : Bool
  pub opened : Bool
  pub lines : List Bytes

-- Before `adffs_log_open`.
abbrev pub no_log : Log
no_log = record { flog = false; opened = false; lines = [] }

-- `fopen` to write, which may fail, empties the file.
unfoldable pub log_open : Bool → Log → Bool × Log
log_open fopen log =
    if fopen then (true, record log { opened = true; lines = [] }) else (false, log)

unfoldable pub log_close : Bool → Log → Option Log
log_close flog log =
    if flog then (if log.opened then some (record log { opened = false }) else none) else some log

-- The text and its newline are one line of the file.
unfoldable pub vlog_info : Bool → Bytes → Log → Option Log
vlog_info flog text log =
    if flog
    then (if log.opened then some (record log { lines = log.lines ++ text ∷ [] }) else none)
    else some log

unfoldable pub adffs_log_open : Bool → Log → Bool × Log
unfolding log_open
adffs_log_open fopen log =
    let (flog, log') = log_open fopen log in (flog, record log' { flog = flog })

-- `flog` stays as it is.
unfoldable pub adffs_log_close : Log → Option Log
unfolding log_close
adffs_log_close log = log_close log.flog log

unfoldable pub adffs_log_info : Bytes → Log → Option Log
unfolding vlog_info
adffs_log_info text log = if not log.flog then some log else vlog_info log.flog text log

-- A list of messages, in order.
unfoldable pub log_all : List Bytes → Log → Option Log
log_all [] log = some log
log_all (text ∷ texts) log = bind (adffs_log_info text log) (log_all texts)
