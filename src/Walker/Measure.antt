-- ===== src/Walker/Measure.antt =====
-- What a walk has still to do: every event lessens it or changes nothing. A worker that sleeps can be
-- woken by each push that is to come, and by each directory's end, which may wake all.
use vorn_media_server.Prelude.{
  ℕ, zero, suc, ◌+◌, ◌-◌, ◌==◌, if◌then◌else◌, ◌<◌, ◌≤◌, Bool, true, false, List, [], ◌∷◌, ◌++◌,
  Text, ◌≡◌, refl, arith, ap, Bool-cases, inl, inr, ◌⊎◌, any, length,
}
use vorn_media_server.Walker.{
  Dir, unreadable, listing, Entries, no_more, sub, file, Item, DirQueue, Worker, idle, asleep,
  reading, returned, Walk, Turn, pop_or_wait, Event, pushes, works, work, work_at, push_root, step,
  entries_of, is_none, Wakes, nobody, one, everyone, wake, signal, broadcast, is_asleep,
}
use vorn_media_server.Walker.Complete.{step-length, work_at-length}

-- All is counted for a number of workers.
mutual
  pub size_dir : ℕ → Dir → ℕ
  size_dir m unreadable = 0
  size_dir m (listing es) = size_entries m es

  pub size_entries : ℕ → Entries → ℕ
  size_entries m no_more = 0
  size_entries m (sub name d es) = 5 + m + size_dir m d + size_entries m es
  size_entries m (file name info es) = 1 + size_entries m es

abbrev pub item_work : ℕ → Item → ℕ
item_work m i = 3 + m + size_dir m i.dir

pub items_work : ℕ → List Item → ℕ
items_work m [] = 0
items_work m (i ∷ is) = item_work m i + items_work m is

abbrev pub worker_work : ℕ → Worker → ℕ
worker_work m idle = 2
worker_work m asleep = 1
worker_work m (reading dir es) = 3 + m + size_entries m es
worker_work m returned = 0

unfoldable pub workers_work : ℕ → List Worker → ℕ
workers_work m [] = 0
workers_work m (w ∷ ws) = worker_work m w + workers_work m ws

pub roots_work : ℕ → List Item → ℕ
roots_work m [] = 0
roots_work m (r ∷ rs) = 2 + item_work m r + roots_work m rs

abbrev pub remaining_for : ℕ → Walk → ℕ
remaining_for m w = roots_work m w.roots + items_work m w.queue.items + workers_work m w.workers

-- The steps that a walk can still take.
abbrev pub remaining : Walk → ℕ
remaining w = remaining_for (length w.workers) w

-- A worker that has something to do.
abbrev pub is_active : Worker → Bool
is_active idle = true
is_active asleep = false
is_active (reading dir es) = true
is_active returned = false

-- How many workers a stretch may wake.
abbrev woken : ℕ → Wakes → ℕ
woken m nobody = 0
woken m one = 1
woken m everyone = m

module _ (m : ℕ) where
  size_entries_of : (d : Dir) → size_entries m (entries_of d) ≡ size_dir m d
  unfolding size_entries size_dir
  size_entries_of unreadable = refl
  size_entries_of (listing es) = refl

  signal_work : (ws : List Worker) (k : ℕ) → workers_work m (signal ws k) ≤ workers_work m ws + 1
  unfolding signal workers_work
  signal_work [] k = omega arith
  signal_work (asleep ∷ ws) zero = omega arith
  signal_work (asleep ∷ ws) (suc k) = elim (Bool-cases (any is_asleep ws)) [
    | inl e ↦ rw e (omega (arith, signal_work ws k))
    | inr e ↦ rw e (omega arith)
  ]
  signal_work (idle ∷ ws) k = omega (arith, signal_work ws k)
  signal_work (reading dir es ∷ ws) k = omega (arith, signal_work ws k)
  signal_work (returned ∷ ws) k = omega (arith, signal_work ws k)

  broadcast_work :
      (ws : List Worker) → workers_work m (broadcast ws) ≤ workers_work m ws + length ws
  unfolding broadcast workers_work
  broadcast_work [] = omega arith
  broadcast_work (asleep ∷ ws) = omega (arith, broadcast_work ws)
  broadcast_work (idle ∷ ws) = omega (arith, broadcast_work ws)
  broadcast_work (reading dir es ∷ ws) = omega (arith, broadcast_work ws)
  broadcast_work (returned ∷ ws) = omega (arith, broadcast_work ws)

  wake_work :
      (v : Wakes) (k : ℕ) (ws : List Worker)
      → length ws ≤ m
      → workers_work m (wake v k ws) ≤ workers_work m ws + woken m v
  unfolding wake
  wake_work nobody k ws h = omega arith
  wake_work one k ws h = signal_work ws k
  wake_work everyone k ws h = omega (arith, broadcast_work ws)

  module _ (is_media_file : Text → Bool) where
    abbrev still : Worker → DirQueue → Turn
    still w q = record { worker = w; queue = q; sent = []; wakes = nobody }

    -- The work that a stretch of a worker leaves, its own, the queue's and the woken workers'.
    abbrev turn_work : Turn → ℕ
    turn_work t = items_work m t.queue.items + worker_work m t.worker + woken m t.wakes

    pop-less :
        (is : List Item) (q : DirQueue)
        → q.items ≡ is
        → turn_work (pop_or_wait is q) < items_work m is + 2
    unfolding items_work
    pop-less [] q e = elim (Bool-cases q.closed) [
      | inl c ↦ simp (c, e) (omega arith)
      | inr c ↦ simp (c, e) (omega arith)
    ]
    pop-less (i ∷ is) q e = omega (arith, size_entries_of i.dir)

    finish-less : (b : Bool) → woken m (if b then everyone else nobody) ≤ m
    finish-less true = omega arith
    finish-less false = omega arith

    work-less :
        (w : Worker) (q : DirQueue)
        → is_active w ≡ true
        → turn_work (work is_media_file w q) < items_work m q.items + worker_work m w
    unfolding work items_work size_entries
    work-less idle q h = pop-less q.items q refl
    work-less asleep q h = cc
    work-less (reading dir no_more) q h = omega (arith, finish-less (q.pending - 1 == 0))
    work-less (reading dir (sub name d es)) q h = omega arith
    work-less (reading dir (file name info es)) q h = omega arith
    work-less returned q h = cc

    work-settles :
        (w : Worker) (q : DirQueue)
        → (work is_media_file w q ≡ still w q)
          ⊎ (turn_work (work is_media_file w q) < items_work m q.items + worker_work m w)
    work-settles idle q = inr (work-less idle q refl)
    work-settles asleep q = inl (unfold work in refl)
    work-settles (reading dir es) q = inr (work-less (reading dir es) q refl)
    work-settles returned q = inl (unfold work in refl)

    -- The work that a stretch of one worker among others leaves.
    abbrev out_work : ℕ → List Worker → DirQueue → ℕ
    out_work n ws q =
        let out = work_at is_media_file n ws q in
        items_work m out.1.items + workers_work m out.0 + woken m out.3

    work_at-settles :
        (n : ℕ) (ws : List Worker) (q : DirQueue)
        → (work_at is_media_file n ws q ≡ (ws, q, [], nobody))
          ⊎ (out_work n ws q < items_work m q.items + workers_work m ws)
    unfolding work_at workers_work
    work_at-settles n [] q = inl refl
    work_at-settles zero (w ∷ ws) q = elim (work-settles w q) [
      | inl e ↦ inl (ap (λ t. (t.worker ∷ ws, t.queue, t.sent, t.wakes)) e)
      | inr l ↦ inr (omega arith)
    ]
    work_at-settles (suc n) (w ∷ ws) q = elim (work_at-settles n ws q) [
      | inl e ↦ inl (ap (λ o. (w ∷ o.0, o.1, o.2, o.3)) e)
      | inr l ↦ inr (omega arith)
    ]

    some-less :
        (ws : List Worker) (q : DirQueue)
        → any is_active ws ≡ true
        → (n : ℕ) × (out_work n ws q < items_work m q.items + workers_work m ws)
    unfolding work_at workers_work
    some-less [] q h = cc
    some-less (w ∷ ws) q h = elim (Bool-cases (is_active w)) [
      | inl e ↦ (zero, omega (arith, work-less w q e))
      | inr e ↦ let later = some-less ws q (ground arith) in (suc later.0, omega (arith, later.1))
    ]

    woken-less :
        (n k : ℕ) (w : Walk)
        → length w.workers ≤ m
        → out_work n w.workers w.queue < items_work m w.queue.items + workers_work m w.workers
        → remaining_for m (step is_media_file (works n k) w) < remaining_for m w
    unfolding step
    woken-less n k w fits l =
        let out = work_at is_media_file n w.workers w.queue in
        let same = work_at-length is_media_file n w.workers w.queue in
        omega (arith, wake_work out.3 k out.0 (omega arith))

    pushes-less_for :
        (k : ℕ) (rs : List Item) (w : Walk)
        → length w.workers ≤ m
        → w.roots ≡ rs
        → is_none rs ≡ false
        → remaining_for m (push_root is_media_file k rs w) < remaining_for m w
    unfolding roots_work items_work
    pushes-less_for k [] w fits e h = cc
    pushes-less_for k (r ∷ rs) w fits e h = simp e (omega (arith, wake_work one k w.workers fits))

module _ (is_media_file : Text → Bool) where
  still_step :
      (n k : ℕ) (w : Walk)
      → work_at is_media_file n w.workers w.queue ≡ (w.workers, w.queue, [], nobody)
      → step is_media_file (works n k) w ≡ w
  unfolding step wake
  still_step n k w e =
      ap (λ o. record w { workers = wake o.3 k o.0; queue = o.1; emitted = o.2 ++ w.emitted }) e

  step-less_for :
      (e : Event) (w : Walk)
      → remaining_for (length w.workers) (step is_media_file e w) < remaining w
      → remaining (step is_media_file e w) < remaining w
  step-less_for e w l = rw (step-length is_media_file e w) l

  pub pushes-less :
      (w : Walk)
      → is_none w.roots ≡ false
      → remaining (step is_media_file (pushes 0) w) < remaining w
  pushes-less w h = step-less_for (pushes 0) w (
      unfold step in
      pushes-less_for (length w.workers) is_media_file 0 w.roots w (omega arith) refl h)

  pub works-less :
      (w : Walk)
      → any is_active w.workers ≡ true
      → (n : ℕ) × (remaining (step is_media_file (works n 0) w) < remaining w)
  works-less w h =
      let m = length w.workers in
      let going = some-less m is_media_file w.workers w.queue h in
      (
        going.0,
        step-less_for (works going.0 0) w
            (woken-less m is_media_file going.0 0 w (omega arith) going.1),
      )

  -- Every event of a walk changes nothing or lessens what remains, so that no schedule takes more
  -- steps that change something than remain at the start.
  pub step-settles :
      (e : Event) (w : Walk)
      → (step is_media_file e w ≡ w) ⊎ (remaining (step is_media_file e w) < remaining w)
  step-settles (pushes k) w = elim (Bool-cases (is_none w.roots)) [
    | inl e ↦ inl (unfold step in pushed_none w.roots e)
    | inr e ↦ inr (
        step-less_for (pushes k) w (
          unfold step in
          pushes-less_for (length w.workers) is_media_file k w.roots w (omega arith) refl e))
  ]
    where
      pushed_none : (rs : List Item) → is_none rs ≡ true → push_root is_media_file k rs w ≡ w
      pushed_none [] e = refl
      pushed_none (r ∷ rs) e = cc
  step-settles (works n k) w =
      let m = length w.workers in
      elim (work_at-settles m is_media_file n w.workers w.queue) [
        | inl e ↦ inl (still_step n k w e)
        | inr l ↦
            inr (step-less_for (works n k) w (woken-less m is_media_file n k w (omega arith) l))
      ]
