-- ===== src/Acquire/Kept/Races.antt =====
-- The torrent race keeps what is closed under the store.
use vorn_media_server.Prelude.{ℕ, zero, suc, Bool, true, false, List, [], ◌∷◌, if◌then◌else◌}
use vorn_media_server.Store.{Shared, MediaItem, DebridAccount}
use vorn_media_server.Store.Prog.{World, Prog}
use vorn_media_server.Store.Keeps.{Keeps, keeps_rules, Calm, pause-Keeps}
use vorn_media_server.Store.Closed.{Closed}
use vorn_media_server.Remote.{Remote}
use vorn_media_server.Store.Closed.Tables.{
  get_debrid_item-Keeps, get_media_item-Keeps, set_acquisition_status-Keeps,
  set_active_debrid_item-Keeps,
}
use vorn_media_server.Acquire.Kept.Resolves.{add_link-Keeps}
use vorn_media_server.Acquire.Kept.Searches.{prioritize_cached-Keeps}
use vorn_media_server.Quality.{ScoredRelease}
use vorn_media_server.Store.Prog.{pause}
use vorn_media_server.Acquire.{candidate_polls}
use vorn_media_server.Acquire.Race.{
  is_won, is_resolved, all_resolved, poll, link_input, launch, wait_for, race_one_account,
  race_torrent_candidates,
}

module _ {P : Shared → Type 0} (c : Closed P) where
  pub is_won-Keeps : (id : ℕ) → Keeps P (is_won id)
  unfolding is_won
  is_won-Keeps id = search (keeps_rules, get_media_item-Keeps c) depth 20

  pub is_resolved-Keeps : (id : ℕ) → Keeps P (is_resolved id)
  unfolding is_resolved
  is_resolved-Keeps id = search (keeps_rules, get_debrid_item-Keeps c) depth 20

  first-Calm {ℓ} :
      {A : Type ℓ} (b : Bool) (x y : A × World)
      → Calm P x.1
      → Calm P y.1
      → Calm P (if b then x else y).1
  first-Calm true x y cx cy = cx
  first-Calm false x y cx cy = cy

  all_resolved-Keeps : (ids : List ℕ) → Keeps P (all_resolved ids)
  unfolding all_resolved
  all_resolved-Keeps [] = record { at = λ w h. h }
  all_resolved-Keeps (id ∷ ids) = record {
    at = λ w h.
        let (done, w') = is_resolved id w in
        let h' = (is_resolved-Keeps id).at w h in
        first-Calm done (all_resolved ids w') (false, w') ((all_resolved-Keeps ids).at w' h') h';
  }

  pub poll-Keeps : (done : Prog Bool) (id n : ℕ) → Keeps P done → Keeps P (poll done id n)
  unfolding poll
  poll-Keeps done id zero k = record {
    at = λ w h.
        let (won, w') = is_won id w in
        let h' = (is_won-Keeps id).at w h in
        first-Calm won (true, w') (false, (done w').1) h' (k.at w' h');
  }
  poll-Keeps done id (suc n) k = record {
    at = λ w h.
        let (won, w1) = is_won id w in
        let (ended, w2) = done w1 in
        let rest = poll done id n (pause w2).1 in
        let h1 = (is_won-Keeps id).at w h in
        let h2 = k.at w1 h1 in
        first-Calm won (true, w1) (if ended then (false, w2) else rest) h1
          (first-Calm ended (false, w2) rest h2
            ((poll-Keeps done id n k).at (pause w2).1 (pause-Keeps.at w2 h2)));
  }

  launch-Keeps :
      (m : MediaItem) (a : DebridAccount) (cs : List ScoredRelease) → Keeps P (launch m a cs)
  unfolding launch
  launch-Keeps m a [] = record { at = λ w h. h }
  launch-Keeps m a (x ∷ cs) = record {
    at = λ w h. (launch-Keeps m a cs).at _ ((add_link-Keeps c (link_input m a x)).at w h);
  }

  wait_for-Keeps : (m : MediaItem) (ids : List ℕ) → Keeps P (wait_for m ids)
  wait_for-Keeps m [] = record { at = λ w h. h }
  wait_for-Keeps m (id ∷ ids) = record {
    at =
        (poll-Keeps (all_resolved (id ∷ ids)) m.id candidate_polls
          (all_resolved-Keeps (id ∷ ids))).at;
  }

  pub race_one_account-Keeps :
      (r : Remote) (m : MediaItem) (a : DebridAccount) (rs : List ScoredRelease)
      → Keeps P (race_one_account r m a rs)
  unfolding race_one_account
  race_one_account-Keeps r m a rs =
      search
        (
          keeps_rules,
          launch-Keeps,
          wait_for-Keeps,
          prioritize_cached-Keeps c,
          set_active_debrid_item-Keeps c,
          set_acquisition_status-Keeps c,
        )
        depth 20

  pub race_torrent_candidates-Keeps :
      (r : Remote) (m : MediaItem) (as' : List DebridAccount) (rs : List ScoredRelease)
      → Keeps P (race_torrent_candidates r m as' rs)
  unfolding race_torrent_candidates
  race_torrent_candidates-Keeps r m [] rs = record { at = λ w h. h }
  race_torrent_candidates-Keeps r m (a ∷ as') rs = record {
    at = λ w h.
        let (won, w') = race_one_account r m a rs w in
        let h' = (race_one_account-Keeps r m a rs).at w h in
        first-Calm won (true, w') (race_torrent_candidates r m as' rs w') h'
          ((race_torrent_candidates-Keeps r m as' rs).at w' h');
  }
