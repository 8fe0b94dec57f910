-- ===== src/Metadata/Locked.antt =====
-- What a sync leaves alone, backend/internal/metadata/sync.go.
use vorn_media_server.Prelude.{
  ℕ, ◌+◌, Bool, true, false, List, [], ◌∷◌, All, keep, length, Bool-cases, ◌==◌, if◌then◌else◌, ◌≡◌,
  refl, ◌∙◌, ap, inl, inr, arith,
}
use vorn_media_server.Metadata.{Item, MetadataUpdate, needs_metadata, needs_cast, apply_metadata}
use vorn_media_server.Metadata.Sync.{
  Answer, Bundle, Turn, Sync, Course, JobStatus, set_counts, apply_answer, each, found_more,
  cast_items, second_pass, finish, run, backfill, process_item,
}

abbrev pub rows : ℕ → List Item → List Item
rows id = keep (λ m. m.id == id)

abbrev pub Leaves : ℕ → (List Item → List Item) → Type 0
Leaves id f = (ms : List Item) → rows id (f ms) ≡ rows id ms

abbrev pub IsLocked : Item → Type 0
IsLocked m = m.metadata_locked ≡ true

-- No item of the list has the id.
abbrev Avoids : ℕ → List Item → Type 0
Avoids id = All (λ m. (m.id == id) ≡ false)

keep-Avoids :
    (p : Item → Bool) (id : ℕ) (ms : List Item)
    → ((m : Item) → IsLocked m → p m ≡ false)
    → All IsLocked (rows id ms)
    → Avoids id (keep p ms)
keep-Avoids p id [] spares h = tt
keep-Avoids p id (m ∷ ms) spares h = elim (Bool-cases (m.id == id)) [
  | inl e ↦ let locked = simp e at h in rw (spares m locked.0) (keep-Avoids p id ms spares locked.1)
  | inr e ↦
      let rest = simp e at h in
      elim (Bool-cases (p m)) [
        | inl k ↦ rw k (e, keep-Avoids p id ms spares rest)
        | inr k ↦ rw k (keep-Avoids p id ms spares rest)
      ]
]

apply-Leaves :
    (j id : ℕ) (u : MetadataUpdate) (lock : Bool) (ms : List Item)
    → (j == id) ≡ false
    → rows id (apply_metadata j u lock ms) ≡ rows id ms
unfolding apply_metadata
apply-Leaves j id u lock [] ne = refl
apply-Leaves j id u lock (m ∷ ms) ne = ground (arith, apply-Leaves j id u lock ms)

apply_answer-Leaves :
    (counted : Bool) (t : Turn) (total id : ℕ) (m : Item) (matched : ℕ) (a : Answer MetadataUpdate)
    (s : Sync)
    → (m.id == id) ≡ false
    → rows id (apply_answer counted t total m matched a s).1.items ≡ rows id s.items
apply_answer-Leaves counted t total id m matched Answer.failed s ne = refl
apply_answer-Leaves counted t total id m matched Answer.nothing s ne = ground arith
apply_answer-Leaves counted t total id m matched (Answer.found u) s ne =
    ground (arith, apply-Leaves m.id id u false s.items)

each-Leaves :
    (counted : Bool) (process : Bundle → Item → List Item → Answer MetadataUpdate)
    (turns : ℕ → Turn) (total id : ℕ) (ms : List Item) (matched : ℕ) (s : Sync)
    → ((n : ℕ) → Leaves id (turns n).others)
    → Avoids id ms
    → rows id (each counted process turns total ms matched s).1.items ≡ rows id s.items
unfolding each
each-Leaves counted process turns total id [] matched s leaves avoids = refl
each-Leaves counted process turns total id (m ∷ ms) matched s leaves avoids =
    let t = turns m.id in
    let s' = record s { items = t.others s.items } in
    let r = apply_answer counted t total m matched (process t.bundle m (t.seen s.items)) s' in
    each-Leaves counted process turns total id ms r.0 r.1 leaves avoids.1
    ∙ (apply_answer-Leaves counted t total id m matched (process t.bundle m (t.seen s.items)) s'
          avoids.0
        ∙ leaves m.id s.items)

found_more-items :
    (c : Course) (ms : List Item) (total matched : ℕ) (s : Sync)
    → (found_more c ms total matched s).items ≡ s.items
found_more-items c [] total matched s = refl
found_more-items c (m ∷ ms) total matched s = ground arith

cast_items-Avoids :
    (c : Course) (id : ℕ) (s : Sync) → All IsLocked (rows id s.items) → Avoids id (cast_items c s)
unfolding cast_items needs_cast
cast_items-Avoids c id s locked = elim (Bool-cases c.fails_cast_list) [
  | inl e ↦ simp e tt
  | inr e ↦ simp e (keep-Avoids (needs_cast c.library_id) id s.items (λ m h. ground arith) locked)
]

-- The others, at every point of the run, leave the rows of this id as they are.
pub record Spares (id : ℕ) (c : Course) : Type 0 where
  pub list : Leaves id c.before_list
  pub cast : Leaves id c.before_cast
  pub first : (n : ℕ) → Leaves id (c.first n).others
  pub second : (n : ℕ) → Leaves id (c.second n).others

second_pass-Leaves :
    (c : Course) (id listed matched : ℕ) (s : Sync)
    → Spares id c
    → All IsLocked (rows id s.items)
    → rows id (second_pass c listed (matched, s)).items ≡ rows id s.items
unfolding second_pass
second_pass-Leaves c id listed matched s0 spared locked =
    let s = record s0 { items = c.before_cast s0.items } in
    let items = cast_items c s in
    let total = listed + length items in
    let avoids = cast_items-Avoids c id s (rw (spared.cast s0.items) locked) in
    each-Leaves true backfill c.second total id items matched (found_more c items total matched s)
      spared.second avoids
    ∙ (ap (rows id) (found_more-items c items total matched s) ∙ spared.cast s0.items)

set_counts-items :
    (fails : Bool) (total matched : ℕ) (s : Sync)
    → (set_counts fails total matched s).items ≡ s.items
set_counts-items true total matched s = refl
set_counts-items false total matched s = refl

either-Leaves :
    (id : ℕ) (b : Bool) (s t : Sync) {ms : List Item}
    → rows id s.items ≡ ms
    → rows id t.items ≡ ms
    → rows id (if b then s else t).items ≡ ms
either-Leaves id true s t h k = h
either-Leaves id false s t h k = k

finish-items :
    (fails : Bool) (status : JobStatus) (s : Sync) → (finish fails status s).items ≡ s.items
finish-items true status s = refl
finish-items false status s = refl

-- A row that is locked when a sync begins, and that the others leave as it is, is the same when the
-- sync ends, whatever the services answer and whichever statements the database refuses.
pub rows-run :
    (c : Course) (id : ℕ) (s : Sync)
    → Spares id c
    → All IsLocked (rows id s.items)
    → rows id (run c s).items ≡ rows id s.items
unfolding run needs_metadata
rows-run c id s0 spared locked =
    let s = record s0 { items = c.before_list s0.items } in
    let items = keep (needs_metadata c.library_id) s.items in
    let total = length items in
    let s1 = set_counts c.fails_count total 0 s in
    let r = each false process_item c.first total items 0 s1 in
    let begun : rows id s1.items ≡ rows id s0.items =
      ap (rows id) (set_counts-items c.fails_count total 0 s) ∙ spared.list s0.items in
    let avoids : Avoids id items =
      keep-Avoids (needs_metadata c.library_id) id s.items (λ m h. ground arith)
        (rw (spared.list s0.items) locked) in
    let one : rows id r.1.items ≡ rows id s0.items =
      each-Leaves false process_item c.first total id items 0 s1 spared.first avoids ∙ begun in
    let two = second_pass-Leaves c id total r.0 r.1 spared (rw one locked) in
    either-Leaves id c.fails_list _ _
      (ap (rows id) (finish-items c.fails_finish JobStatus.failed s) ∙ spared.list s0.items)
      (ap (rows id) (finish-items c.fails_finish JobStatus.completed (second_pass c total r))
        ∙ (two ∙ one))
