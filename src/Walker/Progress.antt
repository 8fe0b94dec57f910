-- ===== src/Walker/Progress.antt =====
-- A walk never comes to a halt before its end: no worker sleeps on while there is something to do.
use vorn_media_server.Prelude.{
  ℕ, zero, suc, ◌<◌, ◌-◌, Bool, true, false, not, ◌||◌, ◌&&◌, List, [], ◌∷◌, Text, ◌≡◌, refl, arith,
  if◌then◌else◌, ◌==◌, Bool-cases, inl, inr, length, any, all, ltb,
}
use vorn_media_server.Walker.{
  no_more, sub, file, Item, DirQueue, Worker, idle, asleep, reading, returned, Walk, pop_or_wait,
  Event, pushes, works, work, work_at, push_root, step, steps, has_returned, is_over, is_none,
  start, idle_workers, is_asleep, Wakes, nobody, one, everyone, wake, signal, broadcast,
}
use vorn_media_server.Walker.Roused.{Roused, wake-Roused}
use vorn_media_server.Walker.Pending.{busies, IsCounted, step-IsCounted}
use vorn_media_server.Walker.Measure.{remaining, is_active, works-less, pushes-less}

-- When all roots are pushed and nothing is pending the queue is closed.
abbrev IsWatched : List Item → DirQueue → Type 0
IsWatched rs q = (not (is_none rs) || (not (q.pending == 0) || q.closed)) ≡ true

-- Nobody sleeps at a closed queue.
abbrev IsAlert : List Worker → DirQueue → Type 0
IsAlert ws q = (not q.closed || not (any is_asleep ws)) ≡ true

-- While directories are queued a worker sleeps only if another is awake.
abbrev IsServed : List Worker → DirQueue → Type 0
IsServed ws q = (is_none q.items || (any is_active ws || not (any is_asleep ws))) ≡ true

Roused-active :
    {ws ws' : List Worker} → Roused ws ws' → (not (any is_active ws) || any is_active ws') ≡ true
Roused-active Roused.done = refl
Roused-active (Roused.same w r) = ground (arith, Roused-active r)
Roused-active (Roused.roused r) = ground arith

Roused-asleep :
    {ws ws' : List Worker} → Roused ws ws' → (not (any is_asleep ws') || any is_asleep ws) ≡ true
Roused-asleep Roused.done = refl
Roused-asleep (Roused.same w r) = ground (arith, Roused-asleep r)
Roused-asleep (Roused.roused r) = ground arith

signal-active :
    (ws : List Worker) (k : ℕ) → (any is_active (signal ws k) || not (any is_asleep ws)) ≡ true
unfolding signal
signal-active [] k = refl
signal-active (asleep ∷ ws) zero = refl
signal-active (asleep ∷ ws) (suc k) = elim (Bool-cases (any is_asleep ws)) [
  | inl e ↦ rw e (ground (arith, signal-active ws k))
  | inr e ↦ rw e refl
]
signal-active (idle ∷ ws) k = refl
signal-active (reading dir es ∷ ws) k = refl
signal-active (returned ∷ ws) k = signal-active ws k

broadcast-asleep : (ws : List Worker) → any is_asleep (broadcast ws) ≡ false
unfolding broadcast
broadcast-asleep [] = refl
broadcast-asleep (asleep ∷ ws) = broadcast-asleep ws
broadcast-asleep (idle ∷ ws) = broadcast-asleep ws
broadcast-asleep (reading dir es ∷ ws) = broadcast-asleep ws
broadcast-asleep (returned ∷ ws) = broadcast-asleep ws

wakes_all : Wakes → Bool
wakes_all nobody = false
wakes_all one = false
wakes_all everyone = true

everyone-asleep :
    (v : Wakes) (k : ℕ) (ws : List Worker)
    → (not (wakes_all v) || not (any is_asleep (wake v k ws))) ≡ true
unfolding wakes_all wake
everyone-asleep nobody k ws = refl
everyone-asleep one k ws = refl
everyone-asleep everyone k ws = ground (arith, broadcast-asleep ws)

module _ (is_media_file : Text → Bool) where
  work-watched :
      (w : Worker) (q : DirQueue)
      → (not (q.pending == 0) || q.closed) ≡ true
      → let turn = work is_media_file w q in
        (not (turn.queue.pending == 0) || turn.queue.closed) ≡ true
  unfolding work
  work-watched idle q h = go q.items
    where
      go :
          (is : List Item)
          → let turn = pop_or_wait is q in
            (not (turn.queue.pending == 0) || turn.queue.closed) ≡ true
      go [] = h
      go (i ∷ is) = h
  work-watched asleep q h = h
  work-watched (reading dir no_more) q h = ground arith
  work-watched (reading dir (sub name d es)) q h = ground arith
  work-watched (reading dir (file name info es)) q h = h
  work-watched returned q h = h

  work_at-watched :
      (n : ℕ) (ws : List Worker) (q : DirQueue)
      → (not (q.pending == 0) || q.closed) ≡ true
      → let out = work_at is_media_file n ws q in (not (out.1.pending == 0) || out.1.closed) ≡ true
  unfolding work_at
  work_at-watched n [] q h = h
  work_at-watched zero (w ∷ ws) q h = work-watched w q h
  work_at-watched (suc n) (w ∷ ws) q h = work_at-watched n ws q h

  -- A worker goes to sleep only at an open queue, and whoever closes the queue wakes all.
  work-alert :
      (w : Worker) (q : DirQueue)
      → let turn = work is_media_file w q in
        (wakes_all turn.wakes
          || (not turn.queue.closed || (q.closed && (not (is_asleep turn.worker) || is_asleep w))))
        ≡ true
  unfolding work wakes_all
  work-alert idle q = go q.items
    where
      go :
          (is : List Item)
          → let turn = pop_or_wait is q in
            (wakes_all turn.wakes
              || (not turn.queue.closed || (q.closed && (not (is_asleep turn.worker) || false))))
            ≡ true
      go [] = ground arith
      go (i ∷ is) = ground arith
  work-alert asleep q = ground arith
  work-alert (reading dir no_more) q = elim (Bool-cases (q.pending - 1 == 0)) [
    | inl e ↦ rw e refl
    | inr e ↦ rw e (ground arith)
  ]
  work-alert (reading dir (sub name d es)) q = ground arith
  work-alert (reading dir (file name info es)) q = ground arith
  work-alert returned q = ground arith

  work_at-alert :
      (n : ℕ) (ws : List Worker) (q : DirQueue)
      → let out = work_at is_media_file n ws q in
        (wakes_all out.3
          || (not out.1.closed || (q.closed && (not (any is_asleep out.0) || any is_asleep ws))))
        ≡ true
  unfolding work_at wakes_all
  work_at-alert n [] q = ground arith
  work_at-alert zero (w ∷ ws) q = ground (arith, work-alert w q)
  work_at-alert (suc n) (w ∷ ws) q = ground (arith, work_at-alert n ws q)

  -- A worker that was awake is so still, or nothing is queued.
  work-served :
      (w : Worker) (q : DirQueue)
      → let turn = work is_media_file w q in
        (is_none turn.queue.items
          || (is_active turn.worker
              || (not (is_active w)
                  && (not (is_asleep turn.worker) || is_asleep w)
                  && not (is_none q.items))))
        ≡ true
  unfolding work
  work-served idle q = go q.items refl
    where
      go :
          (is : List Item)
          → let turn = pop_or_wait is q in
            q.items ≡ is
            → (is_none turn.queue.items
                || (is_active turn.worker
                    || (false && (not (is_asleep turn.worker) || false) && not (is_none q.items))))
              ≡ true
      go [] e = rw e refl
      go (i ∷ is) e = ground arith
  work-served asleep q = ground arith
  work-served (reading dir no_more) q = ground arith
  work-served (reading dir (sub name d es)) q = refl
  work-served (reading dir (file name info es)) q = ground arith
  work-served returned q = ground arith

  work_at-served :
      (n : ℕ) (ws : List Worker) (q : DirQueue)
      → let out = work_at is_media_file n ws q in
        (is_none out.1.items
          || (any is_active out.0
              || (not (any is_active ws)
                  && (not (any is_asleep out.0) || any is_asleep ws)
                  && not (is_none q.items))))
        ≡ true
  unfolding work_at
  work_at-served n [] q = ground arith
  work_at-served zero (w ∷ ws) q = ground (arith, work-served w q)
  work_at-served (suc n) (w ∷ ws) q = ground (arith, work_at-served n ws q)

-- What holds from the start on.
record IsSound (w : Walk) : Type 0 where
  counted : IsCounted w.workers w.queue
  watched : IsWatched w.roots w.queue
  alert : IsAlert w.workers w.queue
  served : IsServed w.workers w.queue

-- Where all workers that have not returned sleep, none is busy.
none_busy : (ws : List Worker) → any is_active ws ≡ false → busies ws ≡ 0
unfolding busies
none_busy [] h = refl
none_busy (idle ∷ ws) h = cc
none_busy (asleep ∷ ws) h = omega (arith, none_busy ws h)
none_busy (reading dir es ∷ ws) h = cc
none_busy (returned ∷ ws) h = omega (arith, none_busy ws h)

some_asleep :
    (ws : List Worker)
    → all has_returned ws ≡ false
    → any is_active ws ≡ false
    → any is_asleep ws ≡ true
some_asleep [] r h = cc
some_asleep (idle ∷ ws) r h = cc
some_asleep (asleep ∷ ws) r h = refl
some_asleep (reading dir es ∷ ws) r h = cc
some_asleep (returned ∷ ws) r h = some_asleep ws r h

none_length : (is : List Item) → is_none is ≡ true → length is ≡ 0
none_length [] h = refl
none_length (i ∷ is) h = cc

module _ (is_media_file : Text → Bool) where
  -- Once all roots are pushed, a worker is awake until all have returned.
  some_active :
      (w : Walk)
      → IsSound w
      → is_none w.roots ≡ true
      → is_over w ≡ false
      → any is_active w.workers ≡ true
  some_active w h e o = elim (Bool-cases (any is_active w.workers)) [
    | inl a ↦ a
    | inr a ↦
        let sleeper = some_asleep w.workers (ground arith) a in
        let empty = none_length w.queue.items (ground (arith, h.served)) in
        let settled : w.queue.pending ≡ 0 =
          omega (arith, h.counted, none_busy w.workers a, empty) in
        ground (arith, h.watched, h.alert)
  ]

  push-IsSound :
      (k : ℕ) (rs : List Item) (w : Walk)
      → w.roots ≡ rs
      → IsSound w
      → IsCounted (push_root is_media_file k rs w).workers (push_root is_media_file k rs w).queue
      → IsSound (push_root is_media_file k rs w)
  push-IsSound k [] w e h c = h
  push-IsSound k (r ∷ rs) w e h c =
      let woken = wake-Roused one k w.workers in
      let up : (any is_active (wake one k w.workers) || not (any is_asleep w.workers)) ≡ true =
        unfold wake in signal-active w.workers k in
      record {
        counted = c;
        watched = ground arith;
        alert = ground (arith, Roused-asleep woken, h.alert);
        served = ground (arith, Roused-asleep woken, up);
      }

  step-IsSound : (e : Event) (w : Walk) → IsSound w → IsSound (step is_media_file e w)
  step-IsSound (pushes k) w h =
      let c = step-IsCounted is_media_file (pushes k) w h.counted in
      unfold step in push-IsSound k w.roots w refl h (unfold step in c)
  step-IsSound (works n k) w h =
      let out = work_at is_media_file n w.workers w.queue in
      let woken = wake-Roused out.3 k out.0 in
      let c = step-IsCounted is_media_file (works n k) w h.counted in
      unfold step in
      record {
        counted = c;
        watched = ground (arith, work_at-watched is_media_file n w.workers w.queue, h.watched);
        alert = ground (
          arith,
          h.alert,
          Roused-asleep woken,
          everyone-asleep out.3 k out.0,
          work_at-alert is_media_file n w.workers w.queue,
        );
        served = ground (
          arith,
          h.served,
          Roused-active woken,
          Roused-asleep woken,
          work_at-served is_media_file n w.workers w.queue,
        );
      }

  steps-IsSound : (es : List Event) (w : Walk) → IsSound w → IsSound (steps is_media_file es w)
  steps-IsSound [] w h = h
  steps-IsSound (e ∷ es) w h = steps-IsSound es (step is_media_file e w) (step-IsSound e w h)

  step-less :
      (w : Walk)
      → IsSound w
      → is_over w ≡ false
      → (e : Event) × (remaining (step is_media_file e w) < remaining w)
  step-less w h o = elim (Bool-cases (is_none w.roots)) [
    | inl e ↦
        let going = works-less is_media_file w (some_active w h e o) in (works going.0 0, going.1)
    | inr e ↦ (pushes 0, pushes-less is_media_file w e)
  ]

  finishes :
      (fuel : ℕ) (w : Walk)
      → remaining w < fuel
      → IsSound w
      → (es : List Event) × (is_over (steps is_media_file es w) ≡ true)
  finishes zero w l h = absurd (omega arith)
  finishes (suc fuel) w l h = elim (Bool-cases (is_over w)) [
    | inl o ↦ ([], o)
    | inr o ↦
        let next = step-less w h o in
        let later =
          finishes fuel (step is_media_file next.0 w) (omega (arith, next.1))
            (step-IsSound next.0 w h) in
        (next.0 ∷ later.0, later.1)
  ]

  idle_busies : (n : ℕ) → busies (idle_workers n) ≡ 0
  unfolding busies
  idle_busies zero = refl
  idle_busies (suc n) = omega (arith, idle_busies n)

  -- From wherever a walk of one folder or more has come, in any interleaving, it can be brought to
  -- its end: the workers never all sleep on.
  pub steps-can_end :
      (r : Item) (rs : List Item) (k : ℕ) (es : List Event)
      → (es' : List Event) × (is_over
            (steps is_media_file es' (steps is_media_file es (start (r ∷ rs) k)))
          ≡ true)
  unfolding start
  steps-can_end r rs k es =
      let begun = start (r ∷ rs) k in
      let reached = steps is_media_file es begun in
      finishes (suc (remaining reached)) reached (omega arith) (
        steps-IsSound es begun (record {
          counted = omega (arith, idle_busies (if ltb k 1 then 1 else k));
          watched = refl;
          alert = refl;
          served = refl;
        }))
