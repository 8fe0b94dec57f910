-- ===== src/Walker/Complete.antt =====
-- A walk that has ended has emitted every media file, when its folder is one.
use vorn_media_server.Prelude.{
  ℕ, zero, suc, ◌<◌, ◌≤◌, ◌&&◌, ◌||◌, ◌==◌, not, Bool, true, false, Bool-cases, inl, inr, List, [],
  ◌∷◌, Text, ◌≡◌, refl, arith, ◌∙◌, ap, if◌then◌else◌, length, any, all, ltb,
}
use vorn_media_server.Walker.{
  DiscoveredFile, Item, DirQueue, Worker, idle, asleep, reading, returned, Walk, Event, pushes,
  works, work, work_at, push_root, step, steps, has_returned, is_none, is_over, start, one,
  idle_workers,
}
use vorn_media_server.Walker.Tally.{
  files_in, files_all, all_left, count, total, steps-total, count-append,
}
use vorn_media_server.Walker.Pending.{busies, Roused-busies, IsQuiet, step-IsQuiet}
use vorn_media_server.Walker.Roused.{wake-Roused, Roused-length, Roused-any_returned}

idle_busies : (n : ℕ) → busies (idle_workers n) ≡ 0
unfolding busies
idle_busies zero = refl
idle_busies (suc n) = omega (arith, idle_busies n)

idle_length : (n : ℕ) → length (idle_workers n) ≡ n
idle_length zero = refl
idle_length (suc n) = omega (arith, idle_length n)

at_least_one : (k : ℕ) → 0 < (if ltb k 1 then 1 else k)
at_least_one k = ground arith

idle_returned : (n : ℕ) → any has_returned (idle_workers n) ≡ false
idle_returned zero = refl
idle_returned (suc n) = idle_returned n

idle_left : (m : Text → Bool) (n : ℕ) → all_left m (idle_workers n) ≡ []
unfolding all_left
idle_left m zero = refl
idle_left m (suc n) = idle_left m n

returned_left :
    (m : Text → Bool) (ws : List Worker) → all has_returned ws ≡ true → all_left m ws ≡ []
unfolding all_left
returned_left m [] h = refl
returned_left m (idle ∷ ws) h = cc
returned_left m (asleep ∷ ws) h = cc
returned_left m (reading dir es ∷ ws) h = cc
returned_left m (returned ∷ ws) h = returned_left m ws h

some_returned :
    (ws : List Worker) → 0 < length ws → all has_returned ws ≡ true → any has_returned ws ≡ true
some_returned [] n h = absurd (omega arith)
some_returned (w ∷ ws) n h = ground arith

-- Of one root: it is in the queue or nothing has been in it yet, the queue has not been closed too
-- early, and there are workers.
record IsRunning (w : Walk) : Type 0 where
  rooted : length w.roots ≤ 1
  unopened : (is_none w.roots || (not w.queue.closed && w.queue.pending == 0)) ≡ true
  quiet : IsQuiet w.workers w.queue
  manned : 0 < length w.workers

module _ (is_media_file : Text → Bool) where
  pub work_at-length :
      (n : ℕ) (ws : List Worker) (q : DirQueue)
      → length (work_at is_media_file n ws q).0 ≡ length ws
  unfolding work_at
  work_at-length n [] q = refl
  work_at-length zero (w ∷ ws) q = refl
  work_at-length (suc n) (w ∷ ws) q = ap (λ k. suc k) (work_at-length n ws q)

  pub step-length :
      (e : Event) (w : Walk) → length (step is_media_file e w).workers ≡ length w.workers
  unfolding step
  step-length (pushes k) w = pushed w.roots
    where
      pushed : (rs : List Item) → length (push_root is_media_file k rs w).workers ≡ length w.workers
      pushed [] = refl
      pushed (r ∷ rs) = Roused-length (wake-Roused one k w.workers)
  step-length (works n k) w =
      let out = work_at is_media_file n w.workers w.queue in
      Roused-length (wake-Roused out.3 k out.0) ∙ work_at-length n w.workers w.queue

  -- Where nothing is pending a worker leaves the queue as it is.
  idle_queue :
      (n : ℕ) (ws : List Worker) (q : DirQueue)
      → q.items ≡ []
      → busies ws ≡ 0
      → (work_at is_media_file n ws q).1 ≡ q
  unfolding work_at work busies
  idle_queue n [] q e b = refl
  idle_queue zero (idle ∷ ws) q e b = rw e refl
  idle_queue zero (asleep ∷ ws) q e b = refl
  idle_queue zero (reading dir es ∷ ws) q e b = absurd (omega arith)
  idle_queue zero (returned ∷ ws) q e b = refl
  idle_queue (suc n) (w ∷ ws) q e b = idle_queue n ws q e (omega arith)

  none_of_length : (is : List Item) → length is ≡ 0 → is ≡ []
  none_of_length [] e = refl
  none_of_length (i ∷ is) e = absurd (omega arith)

  unopened_still :
      (n : ℕ) (w : Walk)
      → IsQuiet w.workers w.queue
      → (is_none w.roots || (not w.queue.closed && w.queue.pending == 0)) ≡ true
      → let q = (work_at is_media_file n w.workers w.queue).1 in
        (is_none w.roots || (not q.closed && q.pending == 0)) ≡ true
  unopened_still n w h u = elim (Bool-cases (is_none w.roots)) [
    | inl e ↦ rw e refl
    | inr e ↦
        let nothing : w.queue.pending ≡ 0 = ground arith in
        let empty = none_of_length w.queue.items (omega (arith, h.counted)) in
        rw (idle_queue n w.workers w.queue empty (omega (arith, h.counted))) u
  ]

  push-IsRunning :
      (k : ℕ) (rs : List Item) (w : Walk)
      → w.roots ≡ rs
      → IsRunning w
      → IsRunning (push_root is_media_file k rs w)
  push-IsRunning k [] w e h = h
  push-IsRunning k (r ∷ (r' ∷ rs)) w e h = absurd (omega (arith, ap length e, h.rooted))
  push-IsRunning k (r ∷ []) w e h =
      let woken = wake-Roused one k w.workers in
      let opened : (not w.queue.closed && w.queue.pending == 0) ≡ true = simp e at h.unopened in
      record {
        rooted = omega arith;
        unopened = refl;
        quiet = record {
          counted = omega (arith, h.quiet.counted, Roused-busies woken);
          closed_empty = ground arith;
          returned_closed = rw (Roused-any_returned woken) h.quiet.returned_closed;
        };
        manned = omega (arith, Roused-length woken, h.manned);
      }

  step-IsRunning : (e : Event) (w : Walk) → IsRunning w → IsRunning (step is_media_file e w)
  step-IsRunning (pushes k) w h = unfold step in push-IsRunning k w.roots w refl h
  step-IsRunning (works n k) w h = record {
    rooted = unfold step in h.rooted;
    unopened = unfold step in unopened_still n w h.quiet h.unopened;
    quiet = step-IsQuiet is_media_file n k w h.quiet;
    manned = omega (arith, step-length (works n k) w, h.manned);
  }

  steps-IsRunning :
      (es : List Event) (w : Walk) → IsRunning w → IsRunning (steps is_media_file es w)
  steps-IsRunning [] w h = h
  steps-IsRunning (e ∷ es) w h = steps-IsRunning es (step is_media_file e w) (step-IsRunning e w h)

  -- At the end of a running walk nothing is left in the queue.
  nothing_pending :
      (w : Walk) → IsRunning w → all has_returned w.workers ≡ true → w.queue.pending ≡ 0
  nothing_pending w h o =
      ground
        (arith, some_returned w.workers h.manned o, h.quiet.closed_empty, h.quiet.returned_closed)

  over_all : (w : Walk) → is_over w ≡ true → all has_returned w.workers ≡ true
  over_all w o = ground arith

  no_roots : (rs : List Item) → is_none rs ≡ true → rs ≡ []
  no_roots [] h = refl
  no_roots (r ∷ rs) h = cc

  running_complete :
      (p : DiscoveredFile → Bool) (w : Walk)
      → IsRunning w
      → is_over w ≡ true
      → count is_media_file p w.emitted ≡ total is_media_file p w
  unfolding files_all
  running_complete p w h o =
      let ended = over_all w o in
      let empty =
        none_of_length w.queue.items (omega (arith, h.quiet.counted, nothing_pending w h ended)) in
      let pushed = no_roots w.roots (ground arith) in
      simp (pushed, empty, returned_left is_media_file w.workers ended) (omega arith)

  start-IsRunning : (r : Item) (k : ℕ) → IsRunning (start (r ∷ []) k)
  unfolding start
  start-IsRunning r k = record {
    rooted = omega arith;
    unopened = refl;
    quiet = record {
      counted = omega (arith, idle_busies (if ltb k 1 then 1 else k));
      closed_empty = refl;
      returned_closed = rw (idle_returned (if ltb k 1 then 1 else k)) refl;
    };
    manned = omega (arith, idle_length (if ltb k 1 then 1 else k), at_least_one k);
  }

  start-total :
      (p : DiscoveredFile → Bool) (r : Item) (k : ℕ)
      → total is_media_file p (start (r ∷ []) k)
        ≡ count is_media_file p (files_in is_media_file r.path r.dir)
  unfolding start files_all
  start-total p r k =
      simp (idle_left is_media_file (if ltb k 1 then 1 else k))
        (omega (arith, count-append is_media_file p (files_in is_media_file r.path r.dir) []))

  -- Whatever the interleaving, a walk of one folder that has ended has emitted each media file
  -- exactly as often as it stands in the folder's tree, counted by any test.
  pub steps_complete :
      (p : DiscoveredFile → Bool) (r : Item) (k : ℕ) (es : List Event)
      → is_over (steps is_media_file es (start (r ∷ []) k)) ≡ true
      → count is_media_file p (steps is_media_file es (start (r ∷ []) k)).emitted
        ≡ count is_media_file p (files_in is_media_file r.path r.dir)
  steps_complete p r k es o =
      running_complete p (steps is_media_file es (start (r ∷ []) k))
        (steps-IsRunning es (start (r ∷ []) k) (start-IsRunning r k)) o
      ∙ steps-total is_media_file p es (start (r ∷ []) k)
      ∙ start-total p r k
