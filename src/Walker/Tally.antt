-- ===== src/Walker/Tally.antt =====
-- How often a file stands in a tree, in a walk and among what was emitted.
use vorn_media_server.Prelude.{
  ℕ, zero, suc, ◌+◌, Bool, List, [], ◌∷◌, ◌++◌, Text, ◌≡◌, refl, arith, ◌∙◌, if◌then◌else◌,
  Bool-cases, inl, inr,
}
use vorn_media_server.Walker.{
  Dir, unreadable, listing, Entries, no_more, sub, file, DiscoveredFile, Item, DirQueue, Worker,
  idle, asleep, reading, returned, Walk, one, pop_or_wait, Event, pushes, works, found, work,
  work_at, push_root, step, steps, join, entries_of,
}
use vorn_media_server.Walker.Roused.{Roused, wake-Roused}

module _ (is_media_file : Text → Bool) where
  -- The media files of a tree, in the order of the listing, a directory's before what follows it.
  mutual
    pub files_in : Text → Dir → List DiscoveredFile
    files_in path unreadable = []
    files_in path (listing es) = files_of path es

    pub files_of : Text → Entries → List DiscoveredFile
    files_of path no_more = []
    files_of path (sub name d es) = files_in (join path name) d ++ files_of path es
    files_of path (file name info es) = found is_media_file path name info ++ files_of path es

  -- Those of several trees.
  unfoldable pub files_all : List Item → List DiscoveredFile
  unfolding files_in
  files_all [] = []
  files_all (i ∷ is) = files_in i.path i.dir ++ files_all is

  -- Those that a worker has still to emit.
  abbrev pub left : Worker → List DiscoveredFile
  left idle = []
  left asleep = []
  left (reading dir es) = files_of dir es
  left returned = []

  unfoldable pub all_left : List Worker → List DiscoveredFile
  all_left [] = []
  all_left (w ∷ ws) = left w ++ all_left ws

  module _ (p : DiscoveredFile → Bool) where
    abbrev pub count : List DiscoveredFile → ℕ
    count [] = 0
    count (x ∷ xs) = (if p x then 1 else 0) + count xs

    pub count-append : (xs ys : List DiscoveredFile) → count (xs ++ ys) ≡ count xs + count ys
    count-append [] ys = omega arith
    count-append (x ∷ xs) ys = omega (arith, count-append xs ys)

    count-entries_of :
        (path : Text) (d : Dir) → count (files_of path (entries_of d)) ≡ count (files_in path d)
    unfolding files_in
    count-entries_of path unreadable = refl
    count-entries_of path (listing es) = refl

    pop-count :
        (is : List Item) (q : DirQueue)
        → q.items ≡ is
        → let turn = pop_or_wait is q in
          count (left turn.worker) + count (files_all turn.queue.items) + count turn.sent
          ≡ count (files_all is)
    unfolding files_all
    pop-count [] q e = elim (Bool-cases q.closed) [
      | inl c ↦ simp (e, c) (omega arith)
      | inr c ↦ simp (e, c) (omega arith)
    ]
    pop-count (i ∷ is) q e =
        omega (
          arith,
          count-append (files_in i.path i.dir) (files_all is),
          count-entries_of i.path i.dir,
        )

    -- A stretch of one worker moves files along and loses none.
    work-count :
        (w : Worker) (q : DirQueue)
        → let turn = work is_media_file w q in
          count (left turn.worker) + count (files_all turn.queue.items) + count turn.sent
          ≡ count (left w) + count (files_all q.items)
    unfolding work files_all files_in
    work-count idle q = omega (arith, pop-count q.items q refl)
    work-count asleep q = omega arith
    work-count (reading dir no_more) q = omega arith
    work-count (reading dir (sub name d es)) q = omega (
      arith,
      count-append (files_in (join dir name) d) (files_all q.items),
      count-append (files_in (join dir name) d) (files_of dir es),
    )
    work-count (reading dir (file name info es)) q =
        omega (arith, count-append (found is_media_file dir name info) (files_of dir es))
    work-count returned q = omega arith

    work_at-count :
        (n : ℕ) (ws : List Worker) (q : DirQueue)
        → let out = work_at is_media_file n ws q in
          count (all_left out.0) + count (files_all out.1.items) + count out.2
          ≡ count (all_left ws) + count (files_all q.items)
    unfolding work_at all_left
    work_at-count n [] q = omega arith
    work_at-count zero (w ∷ ws) q =
        let turn = work is_media_file w q in
        omega (
          arith,
          work-count w q,
          count-append (left w) (all_left ws),
          count-append (left turn.worker) (all_left ws),
        )
    work_at-count (suc n) (w ∷ ws) q =
        let out = work_at is_media_file n ws q in
        omega (
          arith,
          work_at-count n ws q,
          count-append (left w) (all_left ws),
          count-append (left w) (all_left out.0),
        )

    -- Emitted or still to come.
    abbrev pub total : Walk → ℕ
    total w =
        count w.emitted
        + count (all_left w.workers)
        + count (files_all w.queue.items)
        + count (files_all w.roots)

    Roused-count :
        {ws ws' : List Worker} → Roused ws ws' → count (all_left ws') ≡ count (all_left ws)
    unfolding all_left
    Roused-count Roused.done = refl
    Roused-count (Roused.same w {ws} {ws'} r) = omega (
      arith,
      Roused-count r,
      count-append (left w) (all_left ws),
      count-append (left w) (all_left ws'),
    )
    Roused-count (Roused.roused r) = Roused-count r

    push_root-total :
        (k : ℕ) (rs : List Item) (w : Walk)
        → w.roots ≡ rs
        → total (push_root is_media_file k rs w) ≡ total w
    unfolding files_all
    push_root-total k [] w e = refl
    push_root-total k (r ∷ rs) w e = simp e (
        omega (
          arith,
          Roused-count (wake-Roused one k w.workers),
          count-append (files_in r.path r.dir) (files_all w.queue.items),
          count-append (files_in r.path r.dir) (files_all rs),
        ))

    step-total : (e : Event) (w : Walk) → total (step is_media_file e w) ≡ total w
    unfolding step
    step-total (pushes k) w = push_root-total k w.roots w refl
    step-total (works n k) w = omega (
      arith,
      Roused-count (
          wake-Roused (work_at is_media_file n w.workers w.queue).3 k
            (work_at is_media_file n w.workers w.queue).0),
      work_at-count n w.workers w.queue,
      count-append (work_at is_media_file n w.workers w.queue).2 w.emitted,
    )

    pub steps-total : (es : List Event) (w : Walk) → total (steps is_media_file es w) ≡ total w
    steps-total [] w = refl
    steps-total (e ∷ es) w = steps-total es (step is_media_file e w) ∙ step-total e w
