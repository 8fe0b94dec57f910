-- ===== src/Scan/Stage.antt =====
-- The table scan_files and the flush of staged files into it: UpsertScanFiles of
-- backend/internal/store/scan.go, and flushBatch, drainAvailable and run of
-- backend/internal/scanner/service.go.
use vorn_media_server.Prelude.{
  ℕ, zero, suc, ◌+◌, Bool, false, ◌&&◌, ◌||◌, Option, none, some, List, [], ◌∷◌, ◌++◌, text_eq, ltb,
  any, length, take, drop, ◌==◌, if◌then◌else◌,
}
use vorn_media_server.Scan.{QueuedFile, ScanFile, Sources, inserts}

-- The unique key (library_id, path).
abbrev pub same_key : ScanFile → ScanFile → Bool
same_key a b = a.library_id == b.library_id && text_eq a.path b.path

-- ON CONFLICT DO UPDATE, which leaves the match alone.
abbrev pub refresh : ScanFile → ScanFile → ScanFile
refresh row old = record row { media_item_id = old.media_item_id }

unfoldable pub upsert : ScanFile → List ScanFile → List ScanFile
upsert row [] = row ∷ []
upsert row (r ∷ rs) =
    let rest = upsert row rs in if same_key row r then refresh row r ∷ rs else r ∷ rest

unfoldable pub upsert_all : List ScanFile → List ScanFile → List ScanFile
unfolding upsert
upsert_all [] rows = rows
upsert_all (b ∷ bs) rows = upsert_all bs (upsert b rows)

unfoldable pub has_duplicate : List ScanFile → Bool
has_duplicate [] = false
has_duplicate (b ∷ bs) = any (same_key b) bs || has_duplicate bs

-- UpsertScanFiles: Postgres refuses a statement that would update one row twice.
unfoldable pub upsert_scan_files : Bool → List ScanFile → List ScanFile → Option (List ScanFile)
unfolding upsert_all has_duplicate
upsert_scan_files fails [] rows = some rows
upsert_scan_files fails (b ∷ bs) rows =
    if fails || has_duplicate (b ∷ bs) then none else some (upsert_all (b ∷ bs) rows)

pub data JobStatus : Type 0 where
  running completed failed : JobStatus

-- A job: its list in DragonflyDB, the table, run's counters, and its own row.
pub record Scan : Type 0 where
  pub staged : List QueuedFile
  pub rows : List ScanFile
  pub found : ℕ
  pub synced : ℕ
  pub files_found : ℕ
  pub files_synced : ℕ
  pub status : JobStatus

-- What goes wrong in a batch.
pub record Fault : Type 0 where
  pub pop_fails : Bool
  pub upsert_fails : Bool

abbrev pub no_fault : Fault
no_fault = record { pop_fails = false; upsert_fails = false }

abbrev pub flushed : ℕ → Scan → Option (List ScanFile) → Option ℕ × Scan
flushed n s none = (none, s)
flushed n s (some rows) = (some n, record s { rows = rows })

-- flushBatch, `none` for an error; what was popped is gone from the list either way.
unfoldable pub flush_batch : ℕ → Sources → Fault → Scan → Option ℕ × Scan
unfolding inserts upsert_scan_files
flush_batch size src fault s =
    let files = take size s.staged in
    let popped = record s { staged = drop size s.staged } in
    let rows = upsert_scan_files fault.upsert_fails (inserts src files) s.rows in
    if fault.pop_fails then (none, s) else flushed (length files) popped rows

-- PopBatch's files that arrive before a batch of a drain, counted and pushed by the producer.
abbrev pub stage : List QueuedFile → Scan → Scan
stage fs s = record s { staged = s.staged ++ fs; found = s.found + length fs }

abbrev pub add_synced : ℕ → Scan → Scan
add_synced n s = record s { synced = s.synced + n }

-- One round of drainAvailable's loop, and the rounds after it.
abbrev pub drain_round : ℕ → Option ℕ × Scan → (Scan → Scan) → Scan
drain_round size (none, s) again = s
drain_round size (some n, s) again = if ltb n size then add_synced n s else again (add_synced n s)

-- updateProgress, whose statement may fail.
unfoldable pub update_progress : Bool → Scan → Scan
update_progress fails s =
    if fails then s else record s { files_found = s.found; files_synced = s.synced }

module _ (size : ℕ) (src : Sources) where
  -- drainAvailable while nothing arrives and nothing fails; as many rounds are enough as there are
  -- files, and one.
  unfoldable pub drain_rest : ℕ → Scan → Scan
  drain_rest zero s = s
  drain_rest (suc fuel) s = drain_round size (flush_batch size src no_fault s) (drain_rest fuel)

  -- drainAvailable: what arrives and goes wrong before each batch is given, and past the end of it
  -- nothing arrives and nothing fails.
  unfoldable pub drain_available : List (List QueuedFile × Fault) → Scan → Scan
  unfolding drain_rest
  drain_available [] s = drain_rest (suc (length s.staged)) s
  drain_available ((arrived, fault) ∷ more) s =
      drain_round size (flush_batch size src fault (stage arrived s)) (drain_available more)

-- What happens until the producer is done: a file is found, and its push may fail; or the ticker
-- fires.
pub data Happening : Type 0 where
  discovered : QueuedFile → Bool → Happening
  ticked : List (List QueuedFile × Fault) → Bool → Happening

abbrev pub push : Bool → QueuedFile → Scan → Scan
push fails f s = if fails then record s { found = s.found + 1 } else stage (f ∷ []) s

module _ (size : ℕ) (src : Sources) where
  unfoldable pub happen : Happening → Scan → Scan
  unfolding drain_available update_progress
  happen (discovered f fails) s = push fails f s
  happen (ticked batches fails) s = update_progress fails (drain_available size src batches s)

  unfoldable pub produce : List Happening → Scan → Scan
  unfolding happen
  produce [] s = s
  produce (h ∷ hs) s = produce hs (happen h s)

  abbrev pub no_arrivals : List Fault → List (List QueuedFile × Fault)
  no_arrivals [] = []
  no_arrivals (f ∷ fs) = ([], f) ∷ no_arrivals fs

  -- run after the producer is done, up to the promotion: the last drain, and the list is deleted.
  unfoldable pub wind_up : List Fault → Bool → Bool → Scan → Scan
  unfolding drain_available update_progress
  wind_up faults progress_fails delete_fails s =
      let drained =
        update_progress progress_fails (drain_available size src (no_arrivals faults) s) in
      if delete_fails then drained else record drained { staged = [] }

-- FinishScanJob
abbrev pub finish_scan_job : Bool → Scan → Scan
finish_scan_job scan_failed s = record s { status = if scan_failed then failed else completed }

abbrev pub flush_batch_size : ℕ
flush_batch_size = 500

-- A job at its start.
abbrev pub create_scan_job : List ScanFile → Scan
create_scan_job rows = record {
  staged = [];
  rows = rows;
  found = 0;
  synced = 0;
  files_found = 0;
  files_synced = 0;
  status = running;
}

-- StartLibraryScan's job from its start to its end, less the promotion of the rows.
unfoldable pub run : ℕ → Sources → List Happening → List Fault → Bool → Bool → List ScanFile → Scan
unfolding produce wind_up
run size src happenings faults progress_fails delete_fails rows = finish_scan_job false (
    wind_up size src faults progress_fails delete_fails
      (produce size src happenings (create_scan_job rows)))
