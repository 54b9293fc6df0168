-- ===== src/Counter/Halts.antt =====
-- The operations on the metadata, the counter and the backups need no fuel.
use ravens.Base.{ℕ, Bool, Option}
use ravens.Counter.{get_current_counter, record_step, increment_counter, backup_cache, goes_fast}
use ravens.Device.Halts.{Halts, bind, seq, branch, assert-Halts, erase-Halts, write-Halts}
use ravens.Metadata.{is_metadata_valid, get_metadata, set_metadata_page, reset_metadata_page}
use ravens.Device.{pure, skip, assert, ◌>>◌, erase, write}
use ravens.Platform.{Platform}

module _ (p : Platform) where
  pub get_metadata-Halts : Halts (get_metadata p)
  unfolding get_metadata
  get_metadata-Halts d =
      branch (is_metadata_valid d.nand p.update_metadata_main) (pure p.update_metadata_main)
        (assert (is_metadata_valid d.nand p.update_metadata_sec) >> pure p.update_metadata_sec)
        (λ e. tt)
        (seq (assert (is_metadata_valid d.nand p.update_metadata_sec)) (pure p.update_metadata_sec)
          (assert-Halts (is_metadata_valid d.nand p.update_metadata_sec)) (λ e. tt))
        d

  pub reset_metadata_page-Halts :
      (current multiplier : ℕ) → Halts (reset_metadata_page p current multiplier)
  unfolding reset_metadata_page set_metadata_page
  reset_metadata_page-Halts current multiplier d =
      seq (erase p _) _ (erase-Halts p _)
        (seq (write p _ 4 _) _ (write-Halts p _ 4 _) (
          seq (write p _ 4 _) _ (write-Halts p _ 4 _) (
            seq (write p _ 8 _) _ (write-Halts p _ 8 _)
              (seq (write p _ 8 _) _ (write-Halts p _ 8 _) (λ e. tt)))))
        d

  pub get_current_counter-Halts : Halts (get_current_counter p)
  unfolding get_current_counter
  get_current_counter-Halts = bind (get_metadata p) _ get_metadata-Halts λ page d.
      seq (assert (is_metadata_valid d.nand page)) _ (assert-Halts (is_metadata_valid d.nand page))
        (λ e. tt) d

  pub record_step-Halts : (counter : ℕ) → Halts (record_step p counter)
  unfolding record_step
  record_step-Halts counter = bind (get_metadata p) _ get_metadata-Halts λ page d.
      branch _ _ (reset_metadata_page p page _)
        (seq (write p _ 8 _) skip (write-Halts p _ 8 _) (λ e. tt))
        (reset_metadata_page-Halts page _) d

  pub increment_counter-Halts :
      (counter old_counter : ℕ) (fast : Option Bool)
      → Halts (increment_counter p counter old_counter fast)
  unfolding increment_counter
  increment_counter-Halts counter old_counter fast =
      branch (goes_fast fast) _ _ (λ d. tt)
        (seq (record_step p _) _ (record_step-Halts _) (λ d. tt))

  pub backup_cache-Halts : (counter : ℕ) → Halts (backup_cache p counter)
  unfolding backup_cache
  backup_cache-Halts counter =
      seq (erase p _) _ (erase-Halts p _)
        (λ d. seq (write p _ 4096 _) skip (write-Halts p _ 4096 _) (λ e. tt) d)
