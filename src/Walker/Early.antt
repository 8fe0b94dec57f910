-- ===== src/Walker/Early.antt =====
-- The queue may be closed before WalkConcurrent has pushed all its folders.
use vorn_media_server.Prelude.{
  ℕ, zero, suc, Bool, true, false, List, [], ◌∷◌, ◌++◌, Text, ◌≡◌, refl, arith, ◌∙◌, ap,
  if◌then◌else◌, all, ltb,
}
use vorn_media_server.Walker.{
  no_more, Item, DirQueue, Worker, idle, returned, Walk, Event, pushes, works, work, work_at, step,
  steps, entries_of, has_returned, is_over, start, idle_workers, new_dir_queue, nobody, wake,
  signal, broadcast,
}

abbrev closed_queue : DirQueue
closed_queue = record { items = []; pending = 0; closed = true }

done : ℕ → List Worker
done zero = []
done (suc i) = returned ∷ done i

-- Every worker in turn finds the queue closed.
retire : ℕ → ℕ → List Event
retire i zero = []
retire i (suc k) = works i 0 ∷ retire (suc i) k

abbrev retiring : List Item → ℕ → ℕ → Walk
retiring rs i k = record {
  roots = rs;
  queue = closed_queue;
  workers = done i ++ idle_workers k;
  emitted = [];
}

at_least_one : (k : ℕ) → (if ltb (suc k) 1 then 1 else suc k) ≡ suc k
at_least_one k = ground arith

done_returned : (j : ℕ) → all has_returned (done j ++ []) ≡ true
unfolding done
done_returned zero = refl
done_returned (suc j) = done_returned j

-- Nobody sleeps among these, so nobody is woken.
signal_idle : (n : ℕ) → signal (idle_workers n) 0 ≡ idle_workers n
unfolding signal
signal_idle zero = refl
signal_idle (suc n) = ap (λ ws. idle ∷ ws) (signal_idle n)

broadcast_idle : (n : ℕ) → broadcast (idle_workers n) ≡ idle_workers n
unfolding broadcast
broadcast_idle zero = refl
broadcast_idle (suc n) = ap (λ ws. idle ∷ ws) (broadcast_idle n)

signal-done : (j : ℕ) → signal (done j ++ []) 0 ≡ done j ++ []
unfolding signal done
signal-done zero = refl
signal-done (suc j) = ap (λ ws. returned ∷ ws) (signal-done j)

module _ (is_media_file : Text → Bool) where
  work_at-done :
      (i : ℕ) (ws : List Worker)
      → work_at is_media_file i (done i ++ idle ∷ ws) closed_queue
        ≡ (done (suc i) ++ ws, closed_queue, [], nobody)
  unfolding work_at work done
  work_at-done zero ws = refl
  work_at-done (suc i) ws = ap (λ o. (returned ∷ o.0, o.1, o.2, o.3)) (work_at-done i ws)

  retire_lem :
      (rs : List Item) (k i : ℕ)
      → (j : ℕ) × (steps is_media_file (retire i k) (retiring rs i k) ≡ retiring rs j 0)
  unfolding retire step wake
  retire_lem rs zero i = (i, refl)
  retire_lem rs (suc k) i =
      let rest = retire_lem rs k (suc i) in
      (
        rest.0,
        ap
              (λ o.
                steps is_media_file (retire (suc i) k) (record {
                  roots = rs;
                  queue = o.1;
                  workers = wake o.3 0 o.0;
                  emitted = o.2 ++ [];
                }))
              (work_at-done i (idle_workers k))
            ∙ rest.1,
      )

  steps-append :
      (es fs : List Event) (w : Walk)
      → steps is_media_file (es ++ fs) w ≡ steps is_media_file fs (steps is_media_file es w)
  steps-append [] fs w = refl
  steps-append (e ∷ es) fs w = steps-append es fs (step is_media_file e w)

  -- The first folder is pushed, read and finished before the second is pushed.
  abbrev early : ℕ → List Event
  early k = pushes 0 ∷ works 0 0 ∷ works 0 0 ∷ (retire 0 (suc k) ++ pushes 0 ∷ [])

  abbrev one_reading : DirQueue
  one_reading = record { items = []; pending = 1; closed = false }

  start_lem :
      (rs : List Item) (k : ℕ)
      → start rs (suc k)
        ≡ record { roots = rs; queue = new_dir_queue; workers = idle_workers (suc k); emitted = [] }
  unfolding start
  start_lem rs k =
      ap (λ n. record { roots = rs; queue = new_dir_queue; workers = idle_workers n; emitted = [] })
        (at_least_one k)

  opening :
      (a b : Item) (k : ℕ)
      → entries_of a.dir ≡ no_more
      → steps is_media_file (pushes 0 ∷ works 0 0 ∷ works 0 0 ∷ []) (start (a ∷ b ∷ []) (suc k))
        ≡ retiring (b ∷ []) 0 (suc k)
  unfolding step work_at work done wake signal broadcast
  opening a b k e =
      ap (λ w. steps is_media_file (pushes 0 ∷ works 0 0 ∷ works 0 0 ∷ []) w)
        (start_lem (a ∷ b ∷ []) k)
      ∙ rw (signal_idle k, e, broadcast_idle k) refl

  over_pushed :
      (b : Item) (j : ℕ) → is_over (step is_media_file (pushes 0) (retiring (b ∷ []) j 0)) ≡ true
  unfolding step wake
  over_pushed b j = rw (signal-done j) (done_returned j)

  -- However many workers there are, a walk of an empty or unreadable folder and then any other has a
  -- schedule in which it ends without reading the second folder.
  pub steps-misses_folder :
      (a b : Item) (k : ℕ)
      → entries_of a.dir ≡ no_more
      → (es : List Event) × (is_over (steps is_media_file es (start (a ∷ b ∷ []) (suc k))) ≡ true)
        × ((steps is_media_file es (start (a ∷ b ∷ []) (suc k))).emitted ≡ [])
  steps-misses_folder a b k e =
      let retired = retire_lem (b ∷ []) (suc k) 0 in
      let ended : steps is_media_file (early k) (start (a ∷ b ∷ []) (suc k))
          ≡ step is_media_file (pushes 0) (retiring (b ∷ []) retired.0 0) =
        steps-append (pushes 0 ∷ works 0 0 ∷ works 0 0 ∷ []) (retire 0 (suc k) ++ pushes 0 ∷ [])
          (start (a ∷ b ∷ []) (suc k))
        ∙ ap (λ w. steps is_media_file (retire 0 (suc k) ++ pushes 0 ∷ []) w) (opening a b k e)
        ∙ steps-append (retire 0 (suc k)) (pushes 0 ∷ []) (retiring (b ∷ []) 0 (suc k))
        ∙ ap (λ w. step is_media_file (pushes 0) w) retired.1 in
      (
        early k,
        ap (λ w. is_over w) ended ∙ over_pushed b retired.0,
        ap (λ w. w.emitted) ended ∙ unfold step in refl,
      )
