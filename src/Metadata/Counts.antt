-- ===== src/Metadata/Counts.antt =====
-- The counts that a sync writes to its job's row, backend/internal/metadata/sync.go.
use vorn_media_server.Prelude.{
  ℕ, suc, ◌+◌, ◌≤◌, Bool, true, false, List, [], ◌∷◌, All, keep, length, Bool-cases, if◌then◌else◌,
  ◌≡◌, inl, inr, arith,
}
use vorn_media_server.Metadata.{Item, MetadataUpdate, needs_metadata}
use vorn_media_server.Metadata.Sync.{
  Answer, Bundle, Turn, Sync, Course, JobStatus, set_counts, apply_answer, each, found_more,
  cast_items, second_pass, finish, run, backfill, process_item,
}

-- No more matched than found, in all that was written.
abbrev pub IsBounded : Sync → Type 0
IsBounded s = All (λ c. c.1 ≤ c.0) s.counts

set_counts-IsBounded :
    (fails : Bool) (total matched : ℕ) (s : Sync)
    → matched ≤ total
    → IsBounded s
    → IsBounded (set_counts fails total matched s)
set_counts-IsBounded true total matched s le h = h
set_counts-IsBounded false total matched s le h = (le, h)

apply_answer-IsBounded :
    (counted : Bool) (t : Turn) (total : ℕ) (m : Item) (matched : ℕ) (a : Answer MetadataUpdate)
    (s : Sync)
    → suc matched ≤ total
    → IsBounded s
    → let r = apply_answer counted t total m matched a s in (r.0 ≤ suc matched) × IsBounded r.1
apply_answer-IsBounded counted t total m matched Answer.failed s le h = (omega arith, h)
apply_answer-IsBounded true t total m matched Answer.nothing s le h =
    (omega arith, set_counts-IsBounded t.fails_count total (suc matched) s le h)
apply_answer-IsBounded false t total m matched Answer.nothing s le h = (omega arith, h)
apply_answer-IsBounded counted t total m matched (Answer.found u) s le h =
    elim (Bool-cases t.fails_apply) [
      | inl e ↦ rw e (omega arith, h)
      | inr e ↦ rw e (omega arith, set_counts-IsBounded t.fails_count total (suc matched) _ le h)
    ]

each-IsBounded :
    (counted : Bool) (process : Bundle → Item → List Item → Answer MetadataUpdate)
    (turns : ℕ → Turn) (total : ℕ) (ms : List Item) (matched : ℕ) (s : Sync)
    → matched + length ms ≤ total
    → IsBounded s
    → let r = each counted process turns total ms matched s in
      (r.0 ≤ matched + length ms) × IsBounded r.1
unfolding each
each-IsBounded counted process turns total [] matched s le h = (omega arith, h)
each-IsBounded counted process turns total (m ∷ ms) matched s le h =
    let t = turns m.id in
    let s' = record s { items = t.others s.items } in
    let r = apply_answer counted t total m matched (process t.bundle m (t.seen s.items)) s' in
    let (le', h') =
      apply_answer-IsBounded counted t total m matched (process t.bundle m (t.seen s.items)) s'
        (omega arith) h in
    let (le'', h'') = each-IsBounded counted process turns total ms r.0 r.1 (omega arith) h' in
    (omega arith, h'')

found_more-IsBounded :
    (c : Course) (ms : List Item) (total matched : ℕ) (s : Sync)
    → matched ≤ total
    → IsBounded s
    → IsBounded (found_more c ms total matched s)
found_more-IsBounded c [] total matched s le h = h
found_more-IsBounded c (m ∷ ms) total matched s le h =
    set_counts-IsBounded c.fails_cast_count total matched s le h

second_pass-IsBounded :
    (c : Course) (listed matched : ℕ) (s : Sync)
    → matched ≤ listed
    → IsBounded s
    → IsBounded (second_pass c listed (matched, s))
unfolding second_pass
second_pass-IsBounded c listed matched s0 le h =
    let s = record s0 { items = c.before_cast s0.items } in
    let items = cast_items c s in
    (each-IsBounded true backfill c.second (listed + length items) items matched _ (omega arith)
      (found_more-IsBounded c items (listed + length items) matched s (omega arith) h)).1

finish-IsBounded :
    (fails : Bool) (status : JobStatus) (s : Sync) → IsBounded s → IsBounded (finish fails status s)
finish-IsBounded true status s h = h
finish-IsBounded false status s h = h

either-IsBounded :
    (b : Bool) (s t : Sync) → IsBounded s → IsBounded t → IsBounded (if b then s else t)
either-IsBounded true s t h k = h
either-IsBounded false s t h k = k

-- Whatever the others do to the rows between its statements, whatever the services answer and
-- whichever statements the database refuses, a sync never writes to its job's row that it has
-- matched more items than it has found.
pub run-IsBounded : (c : Course) (s : Sync) → s.counts ≡ [] → IsBounded (run c s)
unfolding run
run-IsBounded c s0 start =
    let s = record s0 { items = c.before_list s0.items } in
    let items = keep (needs_metadata c.library_id) s.items in
    let h : IsBounded s = rw start tt in
    let first =
      each false process_item c.first (length items) items 0
        (set_counts c.fails_count (length items) 0 s) in
    let (le, k) =
      each-IsBounded false process_item c.first (length items) items 0
        (set_counts c.fails_count (length items) 0 s) (omega arith)
        (set_counts-IsBounded c.fails_count (length items) 0 s (omega arith) h) in
    either-IsBounded c.fails_list _ _ (finish-IsBounded c.fails_finish JobStatus.failed s h) (
      finish-IsBounded c.fails_finish JobStatus.completed _
        (second_pass-IsBounded c (length items) first.0 first.1 (omega arith) k))
