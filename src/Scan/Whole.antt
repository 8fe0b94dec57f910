-- ===== src/Scan/Whole.antt =====
-- A scan from its start to its end.
use mathlib.Core.List.{append-nil, append_assoc}
use vorn_media_server.Prelude.{
  ℕ, suc, ◌+◌, ◌<◌, Bool, true, false, List, [], ◌∷◌, ◌++◌, ◌≡◌, refl, ap, ◌∙◌, sym, arith, length,
  length-append, All,
}
use vorn_media_server.Scan.{QueuedFile, ScanFile, Sources, inserts}
use vorn_media_server.Scan.Stage.{
  upsert_all, has_duplicate, Scan, drain_available, update_progress, Happening, discovered, ticked,
  happen, produce, wind_up, run, create_scan_job, stage, Fault, flush_batch_size,
}
use vorn_media_server.Scan.Upserts.{upsert_all-append, inserts-append, has_duplicate-append}
use vorn_media_server.Scan.Flushed.{IsDrained, drain_rest-IsDrained}

-- Nothing fails, and between the ticks of the flush nothing arrives within a drain.
abbrev pub IsSmooth : Happening → Type 0
IsSmooth (discovered f fails) = fails ≡ false
IsSmooth (ticked batches fails) = batches ≡ []

-- The files found.
abbrev pub file_of : Happening → List QueuedFile
file_of (discovered f fails) = f ∷ []
file_of (ticked batches fails) = []

abbrev pub files : List Happening → List QueuedFile
files [] = []
files (h ∷ hs) = file_of h ++ files hs

-- The files staged and those found until the end are in the table, and counted.
record IsScanned (src : Sources) (fs : List QueuedFile) (s s' : Scan) : Type 0 where
  rows : s'.rows ≡ upsert_all (inserts src (s.staged ++ fs)) s.rows
  synced : s'.synced ≡ s.synced + length (s.staged ++ fs)
  found : s'.found ≡ s.found + length (fs)
  shown : (s'.files_found ≡ s'.found) × (s'.files_synced ≡ s'.synced)

update_progress-IsDrained :
    (b : Bool) (src : Sources) (s s' : Scan)
    → IsDrained src s s'
    → IsDrained src s (update_progress b s')
unfolding update_progress
update_progress-IsDrained true src s s' d = d
update_progress-IsDrained false src s s' d = record {
  rows = d.rows;
  staged = d.staged;
  synced = d.synced;
  found = d.found;
}

module _ (src : Sources) (fs : List QueuedFile) (s : Scan) where
  after_tick : {t s' : Scan} → IsDrained src s t → IsScanned src fs t s' → IsScanned src fs s s'
  after_tick {t} {s'} d l = record {
    rows =
        l.rows
        ∙ ap (λ gs. upsert_all (inserts src (gs ++ fs)) t.rows) d.staged
        ∙ ap (λ rs. upsert_all (inserts src fs) rs) d.rows
        ∙ sym (upsert_all-append (inserts src s.staged) (inserts src fs) s.rows)
        ∙ ap (λ bs. upsert_all bs s.rows) (sym (inserts-append src s.staged fs));
    synced = omega (
      arith,
      l.synced,
      d.synced,
      ap length d.staged,
      length-append s.staged fs,
      length-append t.staged fs,
    );
    found = omega (arith, l.found, d.found);
    shown = l.shown;
  }

  after_push :
      (f : QueuedFile) {s' : Scan}
      → IsScanned src fs (stage (f ∷ []) s) s'
      → IsScanned src (f ∷ fs) s s'
  after_push f d = record {
    rows =
        d.rows ∙ ap (λ gs. upsert_all (inserts src gs) s.rows) (append_assoc s.staged (f ∷ []) fs);
    synced = d.synced ∙ ap (λ gs. s.synced + length gs) (append_assoc s.staged (f ∷ []) fs);
    found = omega (arith, d.found);
    shown = d.shown;
  }

  at_end :
      {s' : Scan}
      → IsDrained src s s'
      → (s'.files_found ≡ s'.found) × (s'.files_synced ≡ s'.synced)
      → IsScanned src [] s (record s' { staged = [] })
  at_end d c = record {
    rows = d.rows ∙ ap (λ gs. upsert_all (inserts src gs) s.rows) (sym (append-nil s.staged));
    synced = d.synced ∙ ap (λ gs. s.synced + length gs) (sym (append-nil s.staged));
    found = omega (arith, d.found);
    shown = c;
  }

module _ (size : ℕ) (src : Sources) where
  drained :
      (s : Scan)
      → 0 < size
      → has_duplicate (inserts src s.staged) ≡ false
      → IsDrained src s (drain_available size src [] s)
  unfolding drain_available
  drained s p h = drain_rest-IsDrained size src (suc (length s.staged)) s p (omega arith) h

  push-smooth :
      (f : QueuedFile) (fails : Bool) (s : Scan)
      → fails ≡ false
      → happen size src (discovered f fails) s ≡ stage (f ∷ []) s
  unfolding happen
  push-smooth f fails s e = rw e refl

  tick-smooth :
      (batches : List (List QueuedFile × Fault)) (fails : Bool) (s : Scan)
      → batches ≡ []
      → happen size src (ticked batches fails) s
        ≡ update_progress fails (drain_available size src [] s)
  unfolding happen
  tick-smooth batches fails s e = rw e refl

  scanned :
      (hs : List Happening) (s : Scan)
      → 0 < size
      → All IsSmooth hs
      → has_duplicate (inserts src (s.staged ++ files hs)) ≡ false
      → IsScanned src (files hs) s (wind_up size src [] false false (produce size src hs s))
  unfolding produce
  scanned [] s p a h =
      unfold wind_up in
      let end =
        drained s p (ap (λ fs. has_duplicate (inserts src fs)) (sym (append-nil s.staged)) ∙ h) in
      at_end src [] s (update_progress-IsDrained false src s (drain_available size src [] s) end)
        (unfold update_progress in (refl, refl))
  scanned (discovered f fails ∷ hs) s p a h = rw (push-smooth f fails s a.0) (
      after_push src (files hs) s f (
        scanned hs (stage (f ∷ []) s) p a.1 (
          ap (λ fs. has_duplicate (inserts src fs)) (append_assoc s.staged (f ∷ []) (files hs))
          ∙ h)))
  scanned (ticked batches fails ∷ hs) s p a h =
      let parts =
        has_duplicate-append (inserts src s.staged) (inserts src (files hs))
          (ap has_duplicate (sym (inserts-append src s.staged (files hs))) ∙ h) in
      let d =
        update_progress-IsDrained fails src s (drain_available size src [] s)
          (drained s p parts.0) in
      rw (tick-smooth batches fails s a.0) (
        after_tick src (files hs) s d (
          scanned hs (update_progress fails (drain_available size src [] s)) p a.1
            (ap (λ fs. has_duplicate (inserts src (fs ++ files hs))) d.staged ∙ parts.1)))

-- A scan in which nothing fails, whose files' rows have distinct keys, and whose ticks find the
-- queue at rest, ends with the rows that one upsert of all the files in the order of their discovery
-- would give, however the ticks fall between them, nothing staged, and both counts that of the
-- files.
pub run-upserts :
    (src : Sources) (hs : List Happening) (rows : List ScanFile)
    → All IsSmooth hs
    → has_duplicate (inserts src (files hs)) ≡ false
    → let end = run flush_batch_size src hs [] false false rows in
      (end.rows ≡ upsert_all (inserts src (files hs)) rows)
      × (end.staged ≡ [])
      × (end.files_found ≡ length (files hs))
      × (end.files_synced ≡ length (files hs))
unfolding run
run-upserts src hs rows a h =
    let s = scanned flush_batch_size src hs (create_scan_job rows) (omega arith) a h in
    (
      s.rows,
      unfold wind_up in refl,
      omega (arith, s.shown.0, s.found),
      omega (arith, s.shown.1, s.synced),
    )
