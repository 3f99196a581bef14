-- ===== src/History/Closing.antt =====
-- Truncating and closing a file, from two images with the same disk.
use fuseadf.Prelude.{ℕ, refl, ap, ◌≡◌, ◌∙◌, Option, none, some, ℤ, pos, neg, if◌then◌else◌}
use fuseadf.Adflib.{Adflib, is_ok}
use fuseadf.Adflib.Laws.{IsDirectory, IsPositionFree}
use fuseadf.Image.{Image}
use fuseadf.Image.Files.{unsigned, truncate_opened}
use fuseadf.Fs.{close_opened}
use fuseadf.History.Chdir.{SameDisk, Agree}
use fuseadf.History.Dentry.{free_value}

module _ (L : Adflib) (D : IsDirectory L) (F : IsPositionFree L) where
  open L use {Vol, File, to_root_dir, file_truncate, file_close}

  -- What `adfFileClose` writes does not depend on the current directory.
  closed-SameDisk :
      (f f' : Option File) (there there' : Image Vol)
      → f ≡ f'
      → SameDisk L there there'
      → SameDisk L
          (record there { vol = file_close f there.vol })
          (record there' { vol = file_close f' there'.vol })
  closed-SameDisk f f' there there' e s = record {
    same_root =
        ap (λ g. to_root_dir (file_close g there.vol)) e
        ∙ free_value L D F (λ v. to_root_dir (file_close f' v)) (F.to_root-file_close f') there
            there' s;
    same_blksize = s.same_blksize;
  }

  pub truncate_opened-Agree :
      (new_size : ℕ) (r r' : Option File × Image Vol)
      → Agree L r r'
      → Agree L (truncate_opened L new_size r) (truncate_opened L new_size r')
  truncate_opened-Agree new_size (none, there) (file', there') h = rw (← h.0) (refl, h.1)
  truncate_opened-Agree new_size (some f, there) (file', there') h =
      let n = unsigned new_size in
      let rc =
        free_value L D F (λ v. (file_truncate f n v).0) (λ v. (F.file_truncate_free f n v).0) there
          there' h.1 in
      let file =
        free_value L D F (λ v. (file_truncate f n v).1) (λ v. (F.file_truncate_free f n v).1) there
          there' h.1 in
      let root =
        free_value L D F (λ v. to_root_dir (file_truncate f n v).2) (F.to_root-file_truncate f n)
          there there' h.1 in
      rw (← h.0) (
        ap (λ (e : ℤ). if is_ok e then pos 0 else neg 1) rc,
        closed-SameDisk _ _ (record there { vol = (file_truncate f n there.vol).2 })
            (record there' { vol = (file_truncate f n there'.vol).2 }) (ap some file)
            (record { same_root = root; same_blksize = h.1.same_blksize }),
      )

  pub close_opened-Agree :
      (r r' : Option File × Image Vol)
      → Agree L r r'
      → Agree L (close_opened L r) (close_opened L r')
  close_opened-Agree (file, there) (file', there') h = (
    ap (elim [ none ↦ neg 1 | some _ ↦ pos 0 ]) h.0,
    closed-SameDisk file file' there there' h.0 h.1,
  )
