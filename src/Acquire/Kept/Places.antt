-- ===== src/Acquire/Kept/Places.antt =====
-- New placeholders and metadata backfills keep what is closed under the store.
use vorn_media_server.Prelude.{ℕ, Bool, true, false, Option, none, some, Text}
use vorn_media_server.Store.{Kind, movie, series, season, episode, Shared, MediaItem}
use vorn_media_server.Store.Prog.{Error, Result, ok, err, not_found}
use vorn_media_server.Store.Keeps.{Keeps, keeps_rules}
use vorn_media_server.Store.Closed.{Closed}
use vorn_media_server.Remote.{Remote}
use vorn_media_server.Store.Closed.Tables.{
  apply_metadata-Keeps, create_placeholder-Keeps, get_by_tmdb_id-Keeps, get_media_item-Keeps,
}
use vorn_media_server.Acquire.Kept.Trees.{sync_series_tree-Keeps}
use vorn_media_server.Store.{artist, album, track, audiobook, book, chapter}
use vorn_media_server.Acquire.Tree.{apply_top_level_metadata}
use vorn_media_server.Acquire.Place.{
  materialize_movie, materialize_series, refresh_existing, materialize_new, materialize_found,
  materialize_placeholder, backfill_series_metadata, backfill_movie, has_ids, backfill_unless,
  backfill_episode, backfill_season, ensure_for, ensure_expected_runtime,
}

module _ {P : Shared → Type 0} (c : Closed P) where
  pub apply_top_level_metadata-Keeps :
      (id : ℕ) (overview date poster backdrop : Text) (runtime : ℕ) (imdb : Text)
      → Keeps P (apply_top_level_metadata id overview date poster backdrop runtime imdb)
  unfolding apply_top_level_metadata
  apply_top_level_metadata-Keeps id overview date poster backdrop runtime imdb =
      search (keeps_rules, apply_metadata-Keeps c) depth 20

  pub materialize_movie-Keeps :
      (r : Remote) (library tmdb : ℕ) → Keeps P (materialize_movie r library tmdb)
  unfolding materialize_movie
  materialize_movie-Keeps r library tmdb =
      search
        (
          keeps_rules,
          apply_top_level_metadata-Keeps,
          create_placeholder-Keeps c,
          get_media_item-Keeps c,
        )
        depth 20

  pub materialize_series-Keeps :
      (r : Remote) (library tmdb : ℕ) → Keeps P (materialize_series r library tmdb)
  unfolding materialize_series
  materialize_series-Keeps r library tmdb =
      search
        (
          keeps_rules,
          apply_top_level_metadata-Keeps,
          create_placeholder-Keeps c,
          get_media_item-Keeps c,
          sync_series_tree-Keeps c,
        )
        depth 20

  refresh_existing-Keeps :
      (r : Remote) (k : Kind) (m : MediaItem) → Keeps P (refresh_existing r k m)
  refresh_existing-Keeps r movie m = record { at = λ w h. h }
  refresh_existing-Keeps r series m =
      search (keeps_rules, sync_series_tree-Keeps c, get_media_item-Keeps c) depth 20
  refresh_existing-Keeps r season m = record { at = λ w h. h }
  refresh_existing-Keeps r episode m = record { at = λ w h. h }
  refresh_existing-Keeps r artist m = record { at = λ w h. h }
  refresh_existing-Keeps r album m = record { at = λ w h. h }
  refresh_existing-Keeps r track m = record { at = λ w h. h }
  refresh_existing-Keeps r audiobook m = record { at = λ w h. h }
  refresh_existing-Keeps r book m = record { at = λ w h. h }
  refresh_existing-Keeps r chapter m = record { at = λ w h. h }

  materialize_new-Keeps :
      (r : Remote) (k : Kind) (library tmdb : ℕ) → Keeps P (materialize_new r k library tmdb)
  materialize_new-Keeps r movie library tmdb = record {
    at = (materialize_movie-Keeps r library tmdb).at;
  }
  materialize_new-Keeps r series library tmdb = record {
    at = (materialize_series-Keeps r library tmdb).at;
  }
  materialize_new-Keeps r season library tmdb = record {
    at = (materialize_series-Keeps r library tmdb).at;
  }
  materialize_new-Keeps r episode library tmdb = record {
    at = (materialize_series-Keeps r library tmdb).at;
  }
  materialize_new-Keeps r artist library tmdb = record {
    at = (materialize_series-Keeps r library tmdb).at;
  }
  materialize_new-Keeps r album library tmdb = record {
    at = (materialize_series-Keeps r library tmdb).at;
  }
  materialize_new-Keeps r track library tmdb = record {
    at = (materialize_series-Keeps r library tmdb).at;
  }
  materialize_new-Keeps r audiobook library tmdb = record {
    at = (materialize_series-Keeps r library tmdb).at;
  }
  materialize_new-Keeps r book library tmdb = record {
    at = (materialize_series-Keeps r library tmdb).at;
  }
  materialize_new-Keeps r chapter library tmdb = record {
    at = (materialize_series-Keeps r library tmdb).at;
  }

  missing-Keeps :
      (r : Remote) (k : Kind) (library tmdb : ℕ) (e : Error)
      → Keeps P (materialize_found r k library tmdb (err e))
  missing-Keeps r k library tmdb not_found = record {
    at = (materialize_new-Keeps r k library tmdb).at;
  }
  missing-Keeps r k library tmdb _ = record { at = λ w h. h }

  materialize_found-Keeps :
      (r : Remote) (k : Kind) (library tmdb : ℕ) (o : Result MediaItem)
      → Keeps P (materialize_found r k library tmdb o)
  materialize_found-Keeps r k library tmdb (ok m) = record {
    at = (refresh_existing-Keeps r k m).at;
  }
  materialize_found-Keeps r k library tmdb (err e) = missing-Keeps r k library tmdb e

  pub materialize_placeholder-Keeps :
      (r : Remote) (library tmdb : ℕ) (k : Kind)
      → Keeps P (materialize_placeholder r library tmdb k)
  unfolding materialize_placeholder
  materialize_placeholder-Keeps r library tmdb k =
      search (keeps_rules, materialize_found-Keeps, get_by_tmdb_id-Keeps c) depth 20

  pub backfill_series_metadata-Keeps :
      (r : Remote) (id : ℕ) → Keeps P (backfill_series_metadata r id)
  unfolding backfill_series_metadata
  backfill_series_metadata-Keeps r id =
      search (keeps_rules, get_media_item-Keeps c, sync_series_tree-Keeps c) depth 20

  backfill_movie-Keeps :
      (r : Remote) (m : MediaItem) (o : Option ℕ) → Keeps P (backfill_movie r m o)
  backfill_movie-Keeps r m none = record { at = λ w h. h }
  backfill_movie-Keeps r m (some tmdb) = search (keeps_rules, apply_metadata-Keeps c) depth 20

  has_ids-Keeps : (id : ℕ) → Keeps P (has_ids id)
  has_ids-Keeps id = search (keeps_rules, get_media_item-Keeps c) depth 20

  backfill_unless-Keeps : (r : Remote) (id : ℕ) (b : Bool) → Keeps P (backfill_unless r id b)
  backfill_unless-Keeps r id true = record { at = λ w h. h }
  backfill_unless-Keeps r id false = record { at = (backfill_series_metadata-Keeps r id).at }

  backfill_episode-Keeps :
      (r : Remote) (m : MediaItem) (o : Option ℕ) → Keeps P (backfill_episode r m o)
  backfill_episode-Keeps r m none = record { at = λ w h. h }
  backfill_episode-Keeps r m (some p) =
      search
        (
          keeps_rules,
          get_media_item-Keeps c,
          has_ids-Keeps,
          backfill_unless-Keeps,
          backfill_series_metadata-Keeps,
        )
        depth 20

  backfill_season-Keeps : (r : Remote) (o : Option ℕ) → Keeps P (backfill_season r o)
  backfill_season-Keeps r none = record { at = λ w h. h }
  backfill_season-Keeps r (some id) = record { at = (backfill_series_metadata-Keeps r id).at }

  ensure_for-Keeps : (r : Remote) (k : Kind) (m : MediaItem) → Keeps P (ensure_for r k m)
  ensure_for-Keeps r movie m = record { at = (backfill_movie-Keeps r m m.tmdb_id).at }
  ensure_for-Keeps r series m = record { at = λ w h. h }
  ensure_for-Keeps r season m = record { at = (backfill_season-Keeps r m.parent_id).at }
  ensure_for-Keeps r episode m = record { at = (backfill_episode-Keeps r m m.parent_id).at }
  ensure_for-Keeps r artist m = record { at = λ w h. h }
  ensure_for-Keeps r album m = record { at = λ w h. h }
  ensure_for-Keeps r track m = record { at = λ w h. h }
  ensure_for-Keeps r audiobook m = record { at = λ w h. h }
  ensure_for-Keeps r book m = record { at = λ w h. h }
  ensure_for-Keeps r chapter m = record { at = λ w h. h }

  pub ensure_expected_runtime-Keeps :
      (r : Remote) (m : MediaItem) → Keeps P (ensure_expected_runtime r m)
  unfolding ensure_expected_runtime
  ensure_expected_runtime-Keeps r m = record { at = (ensure_for-Keeps r m.kind m).at }
