-- ===== src/Walker/Pending.antt =====
-- What the queue's counter and its closing say of the workers.
use vorn_media_server.Prelude.{
  ℕ, zero, suc, ◌+◌, ◌≤◌, Bool, true, not, ◌||◌, List, [], ◌∷◌, Text, ◌≡◌, refl, arith, ap, ◌==◌,
  length, any,
}
use vorn_media_server.Walker.{
  no_more, sub, file, Item, DirQueue, Worker, idle, asleep, reading, returned, Walk, one,
  pop_or_wait, Event, pushes, works, work, work_at, push_root, step, has_returned,
}
use vorn_media_server.Walker.Roused.{Roused, wake-Roused, Roused-any_returned}

-- 1 while a worker is in the loop over a directory.
abbrev pub busy : Worker → ℕ
busy idle = 0
busy asleep = 0
busy (reading dir es) = 1
busy returned = 0

unfoldable pub busies : List Worker → ℕ
busies [] = 0
busies (w ∷ ws) = busy w + busies ws

pub Roused-busies : {ws ws' : List Worker} → Roused ws ws' → busies ws' ≡ busies ws
unfolding busies
Roused-busies Roused.done = refl
Roused-busies (Roused.same w r) = omega (arith, Roused-busies r)
Roused-busies (Roused.roused r) = omega (arith, Roused-busies r)

-- Directories queued or being read.
abbrev pub IsCounted : List Worker → DirQueue → Type 0
IsCounted ws q = q.pending ≡ length q.items + busies ws

module _ (is_media_file : Text → Bool) where
  work_counted :
      (w : Worker) (q : DirQueue) (others : ℕ)
      → q.pending ≡ length q.items + busy w + others
      → let turn = work is_media_file w q in
        turn.queue.pending ≡ length turn.queue.items + busy turn.worker + others
  unfolding work
  work_counted idle q others h = pop-counted q.items q refl h
    where
      pop-counted :
          (is : List Item) (q' : DirQueue)
          → q'.items ≡ is
          → q'.pending ≡ length q'.items + 0 + others
          → let turn = pop_or_wait is q' in
            turn.queue.pending ≡ length turn.queue.items + busy turn.worker + others
      pop-counted [] q' e k = ground arith
      pop-counted (i ∷ is) q' e k = omega (arith, ap length e)
  work_counted asleep q others h = h
  work_counted (reading dir no_more) q others h = omega arith
  work_counted (reading dir (sub name d es)) q others h = omega arith
  work_counted (reading dir (file name info es)) q others h = h
  work_counted returned q others h = h

  pub work_at_counted :
      (n : ℕ) (ws : List Worker) (q : DirQueue) (others : ℕ)
      → q.pending ≡ length q.items + busies ws + others
      → let out = work_at is_media_file n ws q in
        out.1.pending ≡ length out.1.items + busies out.0 + others
  unfolding work_at busies
  work_at_counted n [] q others h = h
  work_at_counted zero (w ∷ ws) q others h =
      omega (arith, work_counted w q (busies ws + others) (omega arith))
  work_at_counted (suc n) (w ∷ ws) q others h =
      omega (arith, work_at_counted n ws q (busy w + others) (omega arith))

  push_root-IsCounted :
      (k : ℕ) (rs : List Item) (w : Walk)
      → IsCounted w.workers w.queue
      → IsCounted (push_root is_media_file k rs w).workers (push_root is_media_file k rs w).queue
  push_root-IsCounted k [] w h = h
  push_root-IsCounted k (r ∷ rs) w h = omega (arith, Roused-busies (wake-Roused one k w.workers))

  pub step-IsCounted :
      (e : Event) (w : Walk)
      → IsCounted w.workers w.queue
      → IsCounted (step is_media_file e w).workers (step is_media_file e w).queue
  unfolding step
  step-IsCounted (pushes k) w h = push_root-IsCounted k w.roots w h
  step-IsCounted (works n k) w h =
      let out = work_at is_media_file n w.workers w.queue in
      omega (
        arith,
        work_at_counted n w.workers w.queue 0 (omega arith),
        Roused-busies (wake-Roused out.3 k out.0),
      )

-- A closed queue has nothing pending, and workers have returned only from a closed queue.
pub record IsQuiet (ws : List Worker) (q : DirQueue) : Type 0 where
  pub counted : IsCounted ws q
  pub closed_empty : (not q.closed || q.pending == 0) ≡ true
  pub returned_closed : (not (any has_returned ws) || q.closed) ≡ true

module _ (is_media_file : Text → Bool) where
  work-closed_empty :
      (w : Worker) (q : DirQueue)
      → busy w ≤ q.pending
      → (not q.closed || q.pending == 0) ≡ true
      → let turn = work is_media_file w q in
        (not turn.queue.closed || turn.queue.pending == 0) ≡ true
  unfolding work
  work-closed_empty idle q b h = go q.items
    where
      go :
          (is : List Item)
          → let turn = pop_or_wait is q in (not turn.queue.closed || turn.queue.pending == 0) ≡ true
      go [] = h
      go (i ∷ is) = h
  work-closed_empty asleep q b h = h
  work-closed_empty (reading dir no_more) q b h = ground arith
  work-closed_empty (reading dir (sub name d es)) q b h = ground arith
  work-closed_empty (reading dir (file name info es)) q b h = h
  work-closed_empty returned q b h = h

  work-closed :
      (w : Worker) (q : DirQueue) → (not q.closed || (work is_media_file w q).queue.closed) ≡ true
  unfolding work
  work-closed idle q = go q.items
    where
      go : (is : List Item) → (not q.closed || (pop_or_wait is q).queue.closed) ≡ true
      go [] = ground arith
      go (i ∷ is) = ground arith
  work-closed asleep q = ground arith
  work-closed (reading dir no_more) q = ground arith
  work-closed (reading dir (sub name d es)) q = ground arith
  work-closed (reading dir (file name info es)) q = ground arith
  work-closed returned q = ground arith

  work-returned :
      (w : Worker) (q : DirQueue)
      → (not (has_returned w) || q.closed) ≡ true
      → let turn = work is_media_file w q in
        (not (has_returned turn.worker) || turn.queue.closed) ≡ true
  unfolding work
  work-returned idle q h = go q.items
    where
      go :
          (is : List Item)
          → let turn = pop_or_wait is q in
            (not (has_returned turn.worker) || turn.queue.closed) ≡ true
      go [] = ground arith
      go (i ∷ is) = refl
  work-returned asleep q h = h
  work-returned (reading dir no_more) q h = refl
  work-returned (reading dir (sub name d es)) q h = refl
  work-returned (reading dir (file name info es)) q h = refl
  work-returned returned q h = h

  work_at-closed_empty :
      (n : ℕ) (ws : List Worker) (q : DirQueue)
      → busies ws ≤ q.pending
      → (not q.closed || q.pending == 0) ≡ true
      → let out = work_at is_media_file n ws q in (not out.1.closed || out.1.pending == 0) ≡ true
  unfolding work_at busies
  work_at-closed_empty n [] q b h = h
  work_at-closed_empty zero (w ∷ ws) q b h = work-closed_empty w q (omega arith) h
  work_at-closed_empty (suc n) (w ∷ ws) q b h = work_at-closed_empty n ws q (omega arith) h

  work_at-closed :
      (n : ℕ) (ws : List Worker) (q : DirQueue)
      → (not q.closed || (work_at is_media_file n ws q).1.closed) ≡ true
  unfolding work_at
  work_at-closed n [] q = ground arith
  work_at-closed zero (w ∷ ws) q = work-closed w q
  work_at-closed (suc n) (w ∷ ws) q = work_at-closed n ws q

  work_at-returned :
      (n : ℕ) (ws : List Worker) (q : DirQueue)
      → (not (any has_returned ws) || q.closed) ≡ true
      → let out = work_at is_media_file n ws q in
        (not (any has_returned out.0) || out.1.closed) ≡ true
  unfolding work_at
  work_at-returned n [] q h = refl
  work_at-returned zero (w ∷ ws) q h = ground (arith, work-returned w q, work-closed w q)
  work_at-returned (suc n) (w ∷ ws) q h =
      ground (arith, work_at-returned n ws q, work_at-closed n ws q)

  pub work_at-IsQuiet :
      (n : ℕ) (ws : List Worker) (q : DirQueue)
      → IsQuiet ws q
      → IsQuiet (work_at is_media_file n ws q).0 (work_at is_media_file n ws q).1
  work_at-IsQuiet n ws q h = record {
    counted = omega (arith, work_at_counted is_media_file n ws q 0 (omega (arith, h.counted)));
    closed_empty = work_at-closed_empty n ws q (omega (arith, h.counted)) h.closed_empty;
    returned_closed = work_at-returned n ws q h.returned_closed;
  }

  pub step-IsQuiet :
      (n k : ℕ) (w : Walk)
      → IsQuiet w.workers w.queue
      → IsQuiet (step is_media_file (works n k) w).workers (step is_media_file (works n k) w).queue
  unfolding step
  step-IsQuiet n k w h =
      let out = work_at is_media_file n w.workers w.queue in
      let quiet = work_at-IsQuiet n w.workers w.queue h in
      let woken = wake-Roused out.3 k out.0 in
      record {
        counted = omega (arith, quiet.counted, Roused-busies woken);
        closed_empty = quiet.closed_empty;
        returned_closed = rw (Roused-any_returned woken) quiet.returned_closed;
      }
