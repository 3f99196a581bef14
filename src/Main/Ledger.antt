-- ===== src/Main/Ledger.antt =====
-- The account of what `main` of src/fuseadf.c and `adffs_destroy` of src/adffs.c hold.
use fuseadf.Prelude.{
  ℕ, ◌≡◌, refl, Bool, true, false, not, Bool-cases, Option, none, some, inl, inr, List, [], ◌∷◌,
  ◌++◌, Bytes, append_assoc, if◌then◌else◌,
}
use fuseadf.Pathstr.{bind}
use fuseadf.Args.{Cells}
use fuseadf.Args.Parse.{Options, Line}
use fuseadf.Log.{Log, no_log, adffs_log_open, adffs_log_close}
use fuseadf.Mount.{Call, adfimage_open, adfimage_close}
use fuseadf.Mount.Ledger.{Held, nothing, everything, act, run, open_holds, close_everything}
use fuseadf.Main.{
  Act, open_log, close_log, image, run_fuse, Exit, exit_failure, exit_success, fuse_status, World,
  image_acts, start_image, after_act, open_logging, start_log, fuse_args, start, adffs_destroy,
}

abbrev with_log : Held → Log → Option (Held × Log)
with_log held log = some (held, log)

-- One act on what is held and the log. FUSE runs only on a mounted volume.
unfoldable pub perform : World → Act → Held × Log → Option (Held × Log)
perform w open_log (held, log) = some (held, (adffs_log_open w.fopen log).1)
perform w close_log (held, log) = bind (adffs_log_close log) λ log'. some (held, log')
perform w (image call) (held, log) = bind (act w.answers held call) λ held'. some (held', log)
perform w (run_fuse args) (held, log) = if held.volume_mounted then some (held, log) else none

unfoldable pub perform_all : World → List Act → Held × Log → Option (Held × Log)
perform_all w [] s = some s
perform_all w (x ∷ acts) s = bind (perform w x s) (perform_all w acts)

-- The calls about the image leave the log alone.
perform_image_acts :
    (w : World) (calls : List Call) (acts : List Act) (held : Held) (log : Log)
    → perform_all w (image_acts calls ++ acts) (held, log)
      ≡ bind (run w.answers calls held) λ held'. perform_all w acts (held', log)
unfolding perform_all perform run
perform_image_acts w [] acts held log = refl
perform_image_acts w (call ∷ calls) acts held log =
    go (act w.answers held call) λ held'. perform_image_acts w calls acts held' log
  where
    go :
        (o : Option Held)
        → ((held' : Held)
            → perform_all w (image_acts calls ++ acts) (held', log)
              ≡ bind (run w.answers calls held') λ held''. perform_all w acts (held'', log))
        → bind (bind o λ held'. with_log held' log) (perform_all w (image_acts calls ++ acts))
          ≡ bind
              (elim o as (λ _. Option Held) [
                | none ↦ none
                | some held' ↦ run w.answers calls held'
              ])
              λ held'. perform_all w acts (held', log)
    go none ih = refl
    go (some held') ih = ih held'

-- All that a run does: where FUSE has run, it calls `adffs_destroy` at its end.
abbrev pub whole : List Act × Exit → List Act
whole (acts, fuse_status) = acts ++ adffs_destroy true
whole (acts, exit_failure) = acts
whole (acts, exit_success) = acts

-- Nothing is held and no stream is open.
abbrev pub AllReleased : Option (Held × Log) → Type 0
AllReleased none = ⊥
AllReleased (some (held, log)) = (held ≡ nothing) × (log.opened ≡ false)

close_log-AllReleased :
    (w : World) (log : Log)
    → log.flog ≡ log.opened
    → AllReleased (perform_all w (close_log ∷ []) (nothing, log))
unfolding perform_all perform adffs_log_close
close_log-AllReleased w log h = go (log.flog) (log.opened) refl h
  where
    go :
        (flog opened : Bool)
        → log.opened ≡ opened
        → flog ≡ opened
        → AllReleased (
            bind
              (bind
                (if flog
                  then (if opened then some (record log { opened = false }) else none)
                  else some log)
                λ log'. with_log nothing log')
              λ s. some s)
    go true true e h = (refl, refl)
    go true false e h = absurd (cc h)
    go false true e h = absurd (cc h)
    go false false e h = (refl, e)

destroy-AllReleased :
    (w : World) (log : Log)
    → log.flog ≡ log.opened
    → AllReleased (perform_all w (adffs_destroy true) (everything, log))
unfolding adffs_destroy
destroy-AllReleased w log h =
    rw
      (
        perform_image_acts w (adfimage_close true true true) (close_log ∷ []) everything log,
        close_everything w.answers,
      )
      (close_log-AllReleased w log h)

fuse_ran :
    (w : World) (args : ℕ × Cells) (log : Log)
    → log.flog ≡ log.opened
    → AllReleased (perform_all w (run_fuse args ∷ adffs_destroy true) (everything, log))
unfolding perform_all perform
fuse_ran w args log h = destroy-AllReleased w log h

start_image-AllReleased :
    (w : World) (options : Options) (args : ℕ × Cells) (log : Log)
    → log.flog ≡ log.opened
    → AllReleased (perform_all w (whole (start_image w options args)) (nothing, log))
unfolding start_image
start_image-AllReleased w options args log h =
    let (opened, calls) = adfimage_open (not options.write_mode) w.answers in
    let holds = open_holds (not options.write_mode) w.answers in go opened calls holds
  where
    go :
        (opened : Bool) (calls : List Call)
        → run w.answers calls nothing ≡ some (if opened then everything else nothing)
        → AllReleased (
            perform_all w
              (whole (
                if not opened
                then (image_acts calls ++ close_log ∷ [], exit_failure)
                else (image_acts calls ++ run_fuse args ∷ [], fuse_status)))
              (nothing, log))
    go false calls holds =
        rw (perform_image_acts w calls (close_log ∷ []) nothing log, holds)
          (close_log-AllReleased w log h)
    go true calls holds =
        rw
          (
            append_assoc (image_acts calls) (run_fuse args ∷ []) (adffs_destroy true),
            perform_image_acts w calls (run_fuse args ∷ adffs_destroy true) nothing log,
            holds,
          )
          (fuse_ran w args log h)

whole_after : (x : Act) (r : List Act × Exit) → whole (after_act x r) ≡ x ∷ whole r
whole_after x (acts, exit_failure) = refl
whole_after x (acts, exit_success) = refl
whole_after x (acts, fuse_status) = refl

open_logging-AllReleased :
    (w : World) (path : Option Bytes) (r : List Act × Exit)
    → ((log : Log) → log.flog ≡ log.opened → AllReleased (perform_all w (whole r) (nothing, log)))
    → AllReleased (perform_all w (whole (open_logging w path r)) (nothing, no_log))
unfolding perform_all perform adffs_log_open
open_logging-AllReleased w none r h = h no_log refl
open_logging-AllReleased w (some path) r h = elim (Bool-cases (w.fopen)) [
  | inl e ↦ simp (e, whole_after) (h (record { flog = true; opened = true; lines = [] }) refl)
  | inr e ↦ simp e (refl, refl)
]

-- A run of the program from the end of `parse_args` to the end of FUSE, with the unmounting of the file
-- system, holds nothing of the image and no open log at its end and misuses neither on the way: for
-- every result of `parse_args` and every answer of `fopen`, of ADFlib and of the allocator.
pub start-AllReleased :
    (w : World) (parsed : Bool × Line)
    → AllReleased (perform_all w (whole (start w parsed)) (nothing, no_log))
unfolding start start_log perform_all
start-AllReleased w (ok, line) =
    let args = fuse_args (line.options) line.args in
    go ok line.options.help line.options.version (start_log w (line.options) args) (
      open_logging-AllReleased w line.options.logging_file _
        (start_image-AllReleased w (line.options) args))
  where
    go :
        (ok help version : Bool) (r : List Act × Exit)
        → AllReleased (perform_all w (whole r) (nothing, no_log))
        → AllReleased (
            perform_all w
              (whole (
                if not ok
                then ([], exit_failure)
                else if help
                then ([], exit_success)
                else if version
                then ([], exit_success)
                else r))
              (nothing, no_log))
    go false help version r h = (refl, refl)
    go true true version r h = (refl, refl)
    go true false true r h = (refl, refl)
    go true false false r h = h
