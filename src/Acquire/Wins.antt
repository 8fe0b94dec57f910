-- ===== src/Acquire/Wins.antt =====
-- What a reported win of a race says, backend/internal/acquisition/service.go.
use vorn_media_server.Prelude.{
  ℕ, zero, suc, Bool, true, false, Bool-cases, inl, inr, Option, none, some, List, [], ◌∷◌, ◌≡◌,
  refl, find, arith,
}
use vorn_media_server.Quality.{ScoredRelease, ScoredNzbRelease}
use vorn_media_server.Store.{MediaItem, DebridAccount, Shared}
use vorn_media_server.Store.Prog.{
  Result, ok, err, Turn, World, Prog, pure, check, run_on, statement, pause,
}
use vorn_media_server.Store.Media.{has_id, is_owned, first_row, get_media_item}
use vorn_media_server.Remote.{Remote}
use vorn_media_server.Acquire.{candidate_polls, candidate_polls_nzb}
use vorn_media_server.Acquire.Race.{
  is_won, poll, all_resolved, all_settled, wait_for, wait_for_nzb, race_one_account,
  race_torrent_candidates, race_nzb_candidates,
}

-- The row of the id is owned.
abbrev pub IsOwnedNow : ℕ → Shared → Type 0
IsOwnedNow id s =
    (m : MediaItem) × (find (has_id id) s.media_items ≡ some m)
    × (is_owned m.acquisition_status ≡ true)

run_on-sees {ℓ} :
    {A : Type ℓ} (f : Shared → Result A) (a : A) (w : World) (ts : List Turn)
    → (run_on (λ s. (f s, s)) w ts).0 ≡ ok a
    → f (run_on (λ s. (f s, s)) w ts).1.shared ≡ ok a
run_on-sees f a w [] h = h
run_on-sees f a w (t ∷ ts) h = elim (Bool-cases t.fails) [
  | inl e ↦ ground arith
  | inr e ↦ ground arith
]

first_row-some {ℓ} : {A : Type ℓ} (o : Option A) (a : A) → first_row o ≡ ok a → o ≡ some a
first_row-some none a h = cc
first_row-some (some b) a h = cc

seen-owned :
    (id : ℕ) (o : Result MediaItem) (w : World)
    → ((m : MediaItem) → o ≡ ok m → find (has_id id) w.shared.media_items ≡ some m)
    → (check o (λ e. pure false) (λ m. pure (is_owned m.acquisition_status)) w).0 ≡ true
    → IsOwnedNow id
        (check o (λ e. pure false) (λ m. pure (is_owned m.acquisition_status)) w).1.shared
seen-owned id (ok m) w k h = (m, k m refl, h)
seen-owned id (err e) w k h = cc

is_won-owned : (id : ℕ) (w : World) → (is_won id w).0 ≡ true → IsOwnedNow id (is_won id w).1.shared
unfolding is_won get_media_item statement
is_won-owned id w h =
    seen-owned id (get_media_item id w).0 (get_media_item id w).1
      (λ m e.
        first_row-some _ m
          (run_on-sees (λ s. first_row (find (has_id id) s.media_items)) m w w.turns e))
      h

poll-owned :
    (done : Prog Bool) (id n : ℕ) (w : World)
    → (poll done id n w).0 ≡ true
    → IsOwnedNow id (poll done id n w).1.shared
unfolding poll
poll-owned done id zero w h = elim (Bool-cases (is_won id w).0) [
  | inl e ↦ rw e (is_won-owned id w e)
  | inr e ↦ ground arith
]
poll-owned done id (suc n) w h = elim (Bool-cases (is_won id w).0) [
  | inl e ↦ rw e (is_won-owned id w e)
  | inr e ↦ elim (Bool-cases (done (is_won id w).1).0) [
    | inl k ↦ ground arith
    | inr k ↦ rw (e, k) (poll-owned done id n (pause (done (is_won id w).1).1).1 (rw (e, k) at h))
  ]
]

wait_for-owned :
    (m : MediaItem) (ids : List ℕ) (w : World)
    → (wait_for m ids w).0 ≡ true
    → IsOwnedNow m.id (wait_for m ids w).1.shared
wait_for-owned m [] w h = cc
wait_for-owned m (id ∷ ids) w h = poll-owned (all_resolved (id ∷ ids)) m.id candidate_polls w h

wait_for_nzb-owned :
    (m : MediaItem) (ids : List ℕ) (w : World)
    → (wait_for_nzb m ids w).0 ≡ true
    → IsOwnedNow m.id (wait_for_nzb m ids w).1.shared
wait_for_nzb-owned m [] w h = cc
wait_for_nzb-owned m (id ∷ ids) w h =
    poll-owned (all_settled false true (id ∷ ids)) m.id candidate_polls_nzb w h

race_one_account-owned :
    (r : Remote) (m : MediaItem) (a : DebridAccount) (rs : List ScoredRelease) (w : World)
    → (race_one_account r m a rs w).0 ≡ true
    → IsOwnedNow m.id (race_one_account r m a rs w).1.shared
unfolding race_one_account
race_one_account-owned r m a rs w h = wait_for-owned m _ _ h

-- A torrent race over any accounts that reports a win ends in a state in which the item is owned,
-- whatever the provider, the resolves and the other goroutines did and whatever statements failed.
pub race_torrent_candidates-owned :
    (r : Remote) (m : MediaItem) (accounts : List DebridAccount) (rs : List ScoredRelease)
    (w : World)
    → (race_torrent_candidates r m accounts rs w).0 ≡ true
    → IsOwnedNow m.id (race_torrent_candidates r m accounts rs w).1.shared
unfolding race_torrent_candidates
race_torrent_candidates-owned r m [] rs w h = cc
race_torrent_candidates-owned r m (a ∷ accounts) rs w h =
    elim (Bool-cases (race_one_account r m a rs w).0) [
      | inl e ↦ rw e (race_one_account-owned r m a rs w e)
      | inr e ↦ rw e (
          race_torrent_candidates-owned r m accounts rs (race_one_account r m a rs w).1 (rw e at h))
    ]

-- The same for a race of NZB candidates.
pub race_nzb_candidates-owned :
    (r : Remote) (m : MediaItem) (rs : List ScoredNzbRelease) (w : World)
    → (race_nzb_candidates r m rs w).0 ≡ true
    → IsOwnedNow m.id (race_nzb_candidates r m rs w).1.shared
unfolding race_nzb_candidates
race_nzb_candidates-owned r m rs w h = wait_for_nzb-owned m _ _ h
