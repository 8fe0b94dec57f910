-- ===== src/Acquire/Kept/Trees.antt =====
-- Syncing a series keeps what is closed under the store.
use vorn_media_server.Prelude.{ℕ, Option, none, some, List, [], ◌∷◌}
use vorn_media_server.Store.{Shared, MediaItem}
use vorn_media_server.Store.Prog.{Error, Result, ok, err, not_found, World}
use vorn_media_server.Store.Keeps.{Keeps, keeps_rules, Calm}
use vorn_media_server.Store.Closed.{Closed}
use vorn_media_server.Remote.{Remote, EpisodeDetails, SeriesDetails}
use vorn_media_server.Store.Closed.Tables.{
  apply_metadata-Keeps, create_placeholder-Keeps, find_placeholder_child-Keeps,
}
use vorn_media_server.Store.Find.{PlaceholderInput}
use vorn_media_server.Acquire.Tree.{
  or_create, find_or_create_child, describe_episode, sync_episode, sync_episodes, sync_season,
  sync_seasons, backfill_ids, sync_tmdb, sync_series_tree,
}

module _ {P : Shared → Type 0} (c : Closed P) where
  pub or_create-Keeps : (o : Result MediaItem) (p : PlaceholderInput) → Keeps P (or_create o p)
  or_create-Keeps (ok m) p = record { at = λ w h. h }
  or_create-Keeps (err e) p = found-Keeps e p
    where
      found-Keeps : (e : Error) (p : PlaceholderInput) → Keeps P (or_create (err e) p)
      found-Keeps not_found p = record { at = (create_placeholder-Keeps c p).at }
      found-Keeps _ p = record { at = λ w h. h }

  pub find_or_create_child-Keeps : (p : PlaceholderInput) → Keeps P (find_or_create_child p)
  unfolding find_or_create_child
  find_or_create_child-Keeps p =
      search (keeps_rules, or_create-Keeps, find_placeholder_child-Keeps c) depth 20

  describe_episode-Keeps : (id : ℕ) (e : EpisodeDetails) → Keeps P (describe_episode id e)
  describe_episode-Keeps id e = search (keeps_rules, apply_metadata-Keeps c) depth 20

  pub sync_episode-Keeps :
      (m s : MediaItem) (n : ℕ) (e : EpisodeDetails) → Keeps P (sync_episode m s n e)
  unfolding sync_episode
  sync_episode-Keeps m s n e =
      search (keeps_rules, find_or_create_child-Keeps, describe_episode-Keeps) depth 20

  sync_episodes-Keeps :
      (m s : MediaItem) (n : ℕ) (es : List EpisodeDetails) → Keeps P (sync_episodes m s n es)
  unfolding sync_episodes
  sync_episodes-Keeps m s n [] = record { at = λ w h. h }
  sync_episodes-Keeps m s n (e ∷ es) = record {
    at = λ w h. (sync_episodes-Keeps m s n es).at _ ((sync_episode-Keeps m s n e).at w h);
  }

  pub sync_season-Keeps :
      (r : Remote) (m : MediaItem) (tmdb s : ℕ) → Keeps P (sync_season r m tmdb s)
  unfolding sync_season
  sync_season-Keeps r m tmdb s =
      search (keeps_rules, find_or_create_child-Keeps, sync_episodes-Keeps) depth 20

  after_season-Calm :
      (outcome : Result (Unit {0})) (w : World) (rest : Result (Unit {0}) × World)
      → Calm P w
      → Calm P rest.1
      → Calm P
          (elim outcome as (λ _. Result (Unit {0}) × World) [ err e ↦ (err e, w) | ok u ↦ rest ]).1
  after_season-Calm (ok u) w rest h k = k
  after_season-Calm (err e) w rest h k = h

  sync_seasons-Keeps :
      (r : Remote) (m : MediaItem) (tmdb : ℕ) (ss : List ℕ) → Keeps P (sync_seasons r m tmdb ss)
  unfolding sync_seasons
  sync_seasons-Keeps r m tmdb [] = record { at = λ w h. h }
  sync_seasons-Keeps r m tmdb (s ∷ ss) = record {
    at = λ w h.
        let (outcome, w') = sync_season r m tmdb s w in
        let h' = (sync_season-Keeps r m tmdb s).at w h in
        after_season-Calm outcome w' (sync_seasons r m tmdb ss w') h'
          ((sync_seasons-Keeps r m tmdb ss).at w' h');
  }

  backfill_ids-Keeps : (m : MediaItem) (d : SeriesDetails) → Keeps P (backfill_ids m d)
  backfill_ids-Keeps m d = search (keeps_rules, apply_metadata-Keeps c) depth 20

  sync_tmdb-Keeps : (r : Remote) (m : MediaItem) (o : Option ℕ) → Keeps P (sync_tmdb r m o)
  sync_tmdb-Keeps r m none = record { at = λ w h. h }
  sync_tmdb-Keeps r m (some tmdb) =
      search (keeps_rules, backfill_ids-Keeps, sync_seasons-Keeps) depth 20

  pub sync_series_tree-Keeps : (r : Remote) (m : MediaItem) → Keeps P (sync_series_tree r m)
  unfolding sync_series_tree
  sync_series_tree-Keeps r m = record { at = (sync_tmdb-Keeps r m m.tmdb_id).at }
