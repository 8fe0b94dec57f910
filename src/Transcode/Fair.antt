-- ===== src/Transcode/Fair.antt =====
-- One goroutine's step keeps the count of the semaphore.
use vorn_media_server.Prelude.{
  ℕ, zero, suc, ◌+◌, ◌≤◌, Bool, true, false, not, ◌&&◌, List, [], ◌∷◌, Text, All, ltb, ◌≡◌, refl,
  arith, Bool-cases, inl, inr, if◌then◌else◌,
}
use vorn_media_server.Transcode.{
  Session, SessionStatus, status_starting, status_running, status_stopped, status_failed, Phase,
  waiting, holding, working, releasing, leaving, over, Event, slot_free, context_done, start_fails,
  start_works, exits, returns, run_next, run_at, is_finished,
}

-- 1 where the goroutine has a slot.
abbrev pub slot : Phase → ℕ
slot waiting = 0
slot holding = 1
slot working = 1
slot releasing = 1
slot leaving = 0
slot over = 0

abbrev pub slots : List Session → ℕ
slots [] = 0
slots (s ∷ ss) = slot s.phase + slots ss

-- The status agrees with where the goroutine stands.
abbrev pub is_starting : SessionStatus → Bool
is_starting status_starting = true
is_starting status_running = false
is_starting status_stopped = false
is_starting status_failed = false

abbrev pub is_running : SessionStatus → Bool
is_running status_starting = false
is_running status_running = true
is_running status_stopped = false
is_running status_failed = false

abbrev pub is_settled : Phase → SessionStatus → Bool
is_settled waiting status = is_starting status
is_settled holding status = is_starting status
is_settled working status = is_running status
is_settled releasing status = is_finished status
is_settled leaving status = is_finished status
is_settled over status = is_finished status

abbrev pub IsSettled : Session → Type 0
IsSettled s = is_settled s.phase s.status ≡ true

pub record IsFair (capacity sem : ℕ) (s : Session) (out : Session × ℕ) : Type 0 where
  pub counts : slot out.0.phase + sem ≡ slot s.phase + out.1
  pub bounds : out.1 ≤ capacity
  pub settles : is_settled out.0.phase out.0.status ≡ true

exit-finished : (b : Bool) → is_finished (if b then status_failed else status_stopped) ≡ true
exit-finished true = refl
exit-finished false = refl

module _ (capacity sem : ℕ) where
  still :
      (s : Session)
      → sem ≤ capacity
      → is_settled s.phase s.status ≡ true
      → IsFair capacity sem s (s, sem)
  still s k e = record { counts = refl; bounds = k; settles = e }

  run_next-IsFair :
      (ev : Event) (p : Phase) (st : SessionStatus) (id path : Text) (c t : Bool)
      → slot p ≤ sem
      → sem ≤ capacity
      → is_settled p st ≡ true
      → let s : Session = record {
        id = id;
        source_path = path;
        status = st;
        canceled = c;
        tracked = t;
        phase = p;
      } in
        IsFair capacity sem s (run_next ev capacity sem p s)
  unfolding run_next
  run_next-IsFair slot_free waiting st id path c t h k e = elim (Bool-cases (ltb sem capacity)) [
    | inl x ↦ rw x (record { counts = omega arith; bounds = ground arith; settles = e })
    | inr x ↦ rw x (record { counts = omega arith; bounds = k; settles = e })
  ]
  run_next-IsFair slot_free holding st id path c t h k e = still _ k e
  run_next-IsFair slot_free working st id path c t h k e = still _ k e
  run_next-IsFair slot_free releasing st id path c t h k e = still _ k e
  run_next-IsFair slot_free leaving st id path c t h k e = still _ k e
  run_next-IsFair slot_free over st id path c t h k e = still _ k e
  run_next-IsFair context_done waiting st id path c t h k e = elim (Bool-cases c) [
    | inl x ↦ rw x (record { counts = omega arith; bounds = k; settles = refl })
    | inr x ↦ rw x (record { counts = omega arith; bounds = k; settles = e })
  ]
  run_next-IsFair context_done holding st id path c t h k e = still _ k e
  run_next-IsFair context_done working st id path c t h k e = still _ k e
  run_next-IsFair context_done releasing st id path c t h k e = still _ k e
  run_next-IsFair context_done leaving st id path c t h k e = still _ k e
  run_next-IsFair context_done over st id path c t h k e = still _ k e
  run_next-IsFair start_fails waiting st id path c t h k e = still _ k e
  run_next-IsFair start_fails holding st id path c t h k e = record {
    counts = omega arith;
    bounds = k;
    settles = refl;
  }
  run_next-IsFair start_fails working st id path c t h k e = still _ k e
  run_next-IsFair start_fails releasing st id path c t h k e = still _ k e
  run_next-IsFair start_fails leaving st id path c t h k e = still _ k e
  run_next-IsFair start_fails over st id path c t h k e = still _ k e
  run_next-IsFair start_works waiting st id path c t h k e = still _ k e
  run_next-IsFair start_works holding st id path c t h k e = record {
    counts = omega arith;
    bounds = k;
    settles = refl;
  }
  run_next-IsFair start_works working st id path c t h k e = still _ k e
  run_next-IsFair start_works releasing st id path c t h k e = still _ k e
  run_next-IsFair start_works leaving st id path c t h k e = still _ k e
  run_next-IsFair start_works over st id path c t h k e = still _ k e
  run_next-IsFair (exits failed) waiting st id path c t h k e = still _ k e
  run_next-IsFair (exits failed) holding st id path c t h k e = still _ k e
  run_next-IsFair (exits failed) working st id path c t h k e = record {
    counts = omega arith;
    bounds = k;
    settles = exit-finished (failed && not c);
  }
  run_next-IsFair (exits failed) releasing st id path c t h k e = still _ k e
  run_next-IsFair (exits failed) leaving st id path c t h k e = still _ k e
  run_next-IsFair (exits failed) over st id path c t h k e = still _ k e
  run_next-IsFair returns waiting st id path c t h k e = still _ k e
  run_next-IsFair returns holding st id path c t h k e = still _ k e
  run_next-IsFair returns working st id path c t h k e = still _ k e
  run_next-IsFair returns releasing st id path c t h k e = record {
    counts = omega arith;
    bounds = omega arith;
    settles = e;
  }
  run_next-IsFair returns leaving st id path c t h k e = record {
    counts = omega arith;
    bounds = k;
    settles = e;
  }
  run_next-IsFair returns over st id path c t h k e = still _ k e

  -- A step of one goroutine among all of them.
  pub run_at-IsFair :
      (ev : Event) (n : ℕ) (ss : List Session)
      → slots ss ≤ sem
      → sem ≤ capacity
      → All IsSettled ss
      → let out : List Session × ℕ = run_at ev capacity sem n ss in
        (slots out.0 + sem ≡ slots ss + out.1) × (out.1 ≤ capacity) × All IsSettled out.0
  unfolding run_at
  run_at-IsFair ev n [] h k a = (refl, k, tt)
  run_at-IsFair ev zero (s ∷ ss) h k a =
      let fair : IsFair capacity sem s (run_next ev capacity sem s.phase s) =
        run_next-IsFair ev s.phase s.status s.id s.source_path s.canceled s.tracked (omega arith) k
          a.0 in
      (omega (arith, fair.counts), fair.bounds, (fair.settles, a.1))
  run_at-IsFair ev (suc n) (s ∷ ss) h k a =
      let rest = run_at-IsFair ev n ss (omega arith) k a.1 in
      (omega (arith, rest.0), rest.1, (a.0, rest.2))
