-- ===== src/Log/Laws.antt =====
-- The log from its opening to its end.
use fuseadf.Prelude.{
  ◌≡◌, refl, ◌∙◌, Bool, true, false, none, some, arith, List, [], ◌∷◌, ◌++◌, append_assoc,
  append-nil, Bytes, if◌then◌else◌,
}
use fuseadf.Pathstr.{bind}
use fuseadf.Log.{Log, no_log, adffs_log_open, adffs_log_close, adffs_log_info, log_all}

log_all_open :
    (texts : List Bytes) (lines : List Bytes)
    → log_all texts (record { flog = true; opened = true; lines = lines })
      ≡ some (record { flog = true; opened = true; lines = lines ++ texts })
unfolding log_all adffs_log_info
log_all_open [] lines = rw append-nil
log_all_open (text ∷ texts) lines =
    log_all_open texts (lines ++ text ∷ []) ∙ rw (append_assoc lines (text ∷ []) texts)

log_all_closed : (texts : List Bytes) (log : Log) → log.flog ≡ false → log_all texts log ≡ some log
unfolding log_all adffs_log_info
log_all_closed [] log h = refl
log_all_closed (text ∷ texts) log h = simp h (log_all_closed texts log h)

-- A log that is opened, written and closed holds the messages in their order if the file could be
-- opened, and otherwise nothing; no stream is used after its end, and none is left open.
pub log_session :
    (fopen : Bool) (texts : List Bytes)
    → bind (log_all texts (adffs_log_open fopen no_log).1) adffs_log_close
      ≡ some (record { flog = fopen; opened = false; lines = if fopen then texts else [] })
unfolding adffs_log_open adffs_log_close
log_session true texts = rw (log_all_open texts []) refl
log_session false texts = rw (log_all_closed texts no_log refl) refl

-- `adffs_log_close` does not reset `flog`: a message after it is written to the closed stream.
pub log_after_close :
    (log closed : Log) (text : Bytes)
    → log.flog ≡ true
    → adffs_log_close log ≡ some closed
    → adffs_log_info text closed ≡ none
unfolding adffs_log_close adffs_log_info
log_after_close log closed text h e = ground arith
