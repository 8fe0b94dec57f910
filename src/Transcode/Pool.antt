-- ===== src/Transcode/Pool.antt =====
-- No more ffmpeg processes run at once than the manager has places.
use Prim.Native.Nat.{max}
use vorn_media_server.Prelude.{
  ℕ, ◌+◌, ◌≤◌, Bool, true, false, List, [], ◌∷◌, ◌++◌, Text, Option, none, some, map, keep, All,
  All-append, length, ◌≡◌, refl, sym, ◌∙◌, arith, Bool-cases, inl, inr,
}
use vorn_media_server.Transcode.{
  Session, status_starting, Phase, waiting, holding, working, releasing, leaving, over, Manager,
  Event, run, new_manager, start_session, displace, stop, cancel, clear_finished, untrack_finished,
}
use vorn_media_server.Transcode.Fair.{slot, slots, IsSettled, run_at-IsFair}

pub record IsSound (m : Manager) : Type 0 where
  pub counted : m.sem ≡ slots m.sessions
  pub bounded : m.sem ≤ m.capacity
  pub settled : All IsSettled m.sessions

slots-append : (ss ts : List Session) → slots (ss ++ ts) ≡ slots ss + slots ts
slots-append [] ts = omega arith
slots-append (s ∷ ss) ts = omega (arith, slots-append ss ts)

-- A change that leaves goroutines where they stand.
module _ (f : Session → Session) (f-phase : (s : Session) → (f s).phase ≡ s.phase)
    (f-status : (s : Session) → (f s).status ≡ s.status) where
  slots-map : (ss : List Session) → slots (map f ss) ≡ slots ss
  slots-map [] = refl
  slots-map (s ∷ ss) = rw (f-phase s) (omega (arith, slots-map ss))

  map-IsSettled : (ss : List Session) → All IsSettled ss → All IsSettled (map f ss)
  map-IsSettled [] a = tt
  map-IsSettled (s ∷ ss) a = (rw (f-phase s) (rw (f-status s) a.0), map-IsSettled ss a.1)

displace-phase : (id : Text) (s : Session) → (displace id s).phase ≡ s.phase
unfolding displace
displace-phase id s = ground arith

displace-status : (id : Text) (s : Session) → (displace id s).status ≡ s.status
unfolding displace
displace-status id s = ground arith

cancel-phase : (id : Text) (s : Session) → (cancel id s).phase ≡ s.phase
unfolding cancel
cancel-phase id s = ground arith

cancel-status : (id : Text) (s : Session) → (cancel id s).status ≡ s.status
unfolding cancel
cancel-status id s = ground arith

untrack_finished-phase : (s : Session) → (untrack_finished s).phase ≡ s.phase
unfolding untrack_finished
untrack_finished-phase s = ground arith

untrack_finished-status : (s : Session) → (untrack_finished s).status ≡ s.status
unfolding untrack_finished
untrack_finished-status s = ground arith

-- A call on the manager, or a stretch of one of its goroutines.
pub data Step : Type 0 where
  starting : Option Text → Text → Text → Step
  going : Event → ℕ → Step
  stopping : Text → Step
  clearing : Step

abbrev pub step : Step → Manager → Manager
step (starting made id path) m = (start_session made id path m).1
step (going ev n) m = run ev n m
step (stopping id) m = (stop (λ x. none) id m).1
step clearing m = (clear_finished (λ x. none) m).1

abbrev pub steps : List Step → Manager → Manager
steps [] m = m
steps (x ∷ xs) m = steps xs (step x m)

abbrev started : Text → Text → Session
started id path = record {
  id = id;
  source_path = path;
  status = status_starting;
  canceled = false;
  tracked = true;
  phase = waiting;
}

step-IsSound : (x : Step) (m : Manager) → IsSound m → IsSound (step x m)
unfolding start_session run stop clear_finished
step-IsSound (starting (some e) id path) m h = h
step-IsSound (starting none id path) m h =
    let kept = slots-map (displace id) (displace-phase id) (displace-status id) m.sessions in
    record {
      counted = omega (
        arith,
        h.counted,
        kept,
        slots-append (map (displace id) m.sessions) (started id path ∷ []),
      );
      bounded = h.bounded;
      settled =
          All-append IsSettled (map (displace id) m.sessions) (started id path ∷ [])
            (map-IsSettled (displace id) (displace-phase id) (displace-status id) m.sessions
              h.settled)
            (refl, tt);
    }
step-IsSound (going ev n) m h =
    let fair =
      run_at-IsFair m.capacity m.sem ev n m.sessions (omega (arith, h.counted)) h.bounded
        h.settled in
    record { counted = omega (arith, fair.0, h.counted); bounded = fair.1; settled = fair.2 }
step-IsSound (stopping id) m h = record {
  counted = h.counted ∙ sym (slots-map (cancel id) (cancel-phase id) (cancel-status id) m.sessions);
  bounded = h.bounded;
  settled = map-IsSettled (cancel id) (cancel-phase id) (cancel-status id) m.sessions h.settled;
}
step-IsSound clearing m h = record {
  counted =
      h.counted
      ∙ sym (slots-map untrack_finished untrack_finished-phase untrack_finished-status m.sessions);
  bounded = h.bounded;
  settled =
      map-IsSettled untrack_finished untrack_finished-phase untrack_finished-status m.sessions
        h.settled;
}

step-capacity : (x : Step) (m : Manager) → (step x m).capacity ≡ m.capacity
unfolding start_session run stop clear_finished
step-capacity (starting (some e) id path) m = refl
step-capacity (starting none id path) m = refl
step-capacity (going ev n) m = refl
step-capacity (stopping id) m = refl
step-capacity clearing m = refl

capacity_max : (n : ℕ) → (new_manager n).capacity ≡ max n 1
unfolding new_manager
capacity_max n = ground arith

pub steps-IsSound : (xs : List Step) (m : Manager) → IsSound m → IsSound (steps xs m)
steps-IsSound [] m h = h
steps-IsSound (x ∷ xs) m h = steps-IsSound xs (step x m) (step-IsSound x m h)

steps-capacity : (xs : List Step) (m : Manager) → (steps xs m).capacity ≡ m.capacity
steps-capacity [] m = refl
steps-capacity (x ∷ xs) m = steps-capacity xs (step x m) ∙ step-capacity x m

pub new_manager-IsSound : (n : ℕ) → IsSound (new_manager n)
unfolding new_manager
new_manager-IsSound n = record { counted = refl; bounded = omega arith; settled = tt }

abbrev pub is_working : Phase → Bool
is_working working = true
is_working waiting = false
is_working holding = false
is_working releasing = false
is_working leaving = false
is_working over = false

working_slot : (p : Phase) → is_working p ≡ true → slot p ≡ 1
working_slot working h = refl
working_slot waiting h = cc
working_slot holding h = cc
working_slot releasing h = cc
working_slot leaving h = cc
working_slot over h = cc

working_slots : (ss : List Session) → length (keep (λ s. is_working s.phase) ss) ≤ slots ss
working_slots [] = omega arith
working_slots (s ∷ ss) = elim (Bool-cases (is_working s.phase)) [
  | inl e ↦ rw e (omega (arith, working_slots ss, working_slot s.phase e))
  | inr e ↦ rw e (omega (arith, working_slots ss))
]

-- Whatever is started, stopped and cleared, and however the goroutines proceed, no more ffmpeg
-- processes run at once than the manager was made for, or one where it was made for none.
pub steps-working :
    (n : ℕ) (xs : List Step)
    → length (keep (λ s. is_working s.phase) (steps xs (new_manager n)).sessions) ≤ max n 1
unfolding new_manager
steps-working n xs =
    let sound = steps-IsSound xs (new_manager n) (new_manager-IsSound n) in
    let capacity = steps-capacity xs (new_manager n) in
    omega (
      arith,
      working_slots (steps xs (new_manager n)).sessions,
      sound.counted,
      sound.bounded,
      capacity,
      capacity_max n,
    )
