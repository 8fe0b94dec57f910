-- ===== src/Acquire/Place.antt =====
-- New placeholders for a TMDb id, and the backfill of metadata that older rows lack,
-- backend/internal/acquisition/service.go.
use vorn_media_server.Prelude.{
  ℕ, Bool, true, false, not, ◌&&◌, ◌||◌, Option, none, some, [], Text, is_empty, ltb, if◌then◌else◌,
}
use vorn_media_server.Store.{Kind, movie, series, season, episode, MediaItem}
use vorn_media_server.Store.Prog.{
  not_found, Result, ok, err, Prog, ◌>>=◌, ◌>>◌, pure, check, when_some, unsupported_kind,
  fetching_movie, fetching_series,
}
use vorn_media_server.Store.Media.{get_media_item, no_update, apply_metadata, is_null}
use vorn_media_server.Store.Find.{get_by_tmdb_id, PlaceholderInput, create_placeholder}
use vorn_media_server.Remote.{Remote}
use vorn_media_server.Acquire.Tree.{apply_top_level_metadata, sync_series_tree}

abbrev pub top_level_input : ℕ → Kind → Text → ℕ → PlaceholderInput
top_level_input library kind title tmdb = record {
  library_id = library;
  parent_id = none;
  kind = kind;
  title = title;
  sort_title = [];
  season_number = none;
  episode_number = none;
  tmdb_id = some tmdb;
  monitored = false;
}

unfoldable pub materialize_movie : Remote → ℕ → ℕ → Prog (Result MediaItem)
materialize_movie r library tmdb =
    check (r.movie_details tmdb) (λ e. pure (err (fetching_movie e)))
      λ d. do
        created ← create_placeholder (top_level_input library movie d.title tmdb)
        check created (λ e. pure (err e))
            λ m. do
              apply_top_level_metadata m.id d.overview d.release_date d.poster_url d.backdrop_url
                  d.runtime d.imdb_id
              get_media_item m.id

unfoldable pub materialize_series : Remote → ℕ → ℕ → Prog (Result MediaItem)
materialize_series r library tmdb =
    check (r.series_details tmdb) (λ e. pure (err (fetching_series e)))
      λ d. do
        created ← create_placeholder (top_level_input library series d.title tmdb)
        check created (λ e. pure (err e))
            λ m. do
              apply_top_level_metadata m.id d.overview d.first_air_date d.poster_url d.backdrop_url
                  0 d.imdb_id
              reloaded ← get_media_item m.id
              check reloaded (λ e. pure (err e))
                  λ fresh. do sync_series_tree r fresh; pure (ok fresh)

-- A row that is there already: a series is synced again.
abbrev pub refresh_existing : Remote → Kind → MediaItem → Prog (Result MediaItem)
refresh_existing r series m = do sync_series_tree r m; get_media_item m.id
refresh_existing r kind m = pure (ok m)

abbrev pub materialize_new : Remote → Kind → ℕ → ℕ → Prog (Result MediaItem)
materialize_new r movie library tmdb = materialize_movie r library tmdb
materialize_new r kind library tmdb = materialize_series r library tmdb

abbrev pub materialize_found : Remote → Kind → ℕ → ℕ → Result MediaItem → Prog (Result MediaItem)
materialize_found r kind library tmdb (ok m) = refresh_existing r kind m
materialize_found r kind library tmdb (err not_found) = materialize_new r kind library tmdb
materialize_found r kind library tmdb (err e) = pure (err e)

abbrev pub is_top_level : Kind → Bool
is_top_level movie = true
is_top_level series = true
is_top_level _ = false

unfoldable pub materialize_placeholder : Remote → ℕ → ℕ → Kind → Prog (Result MediaItem)
materialize_placeholder r library tmdb kind =
    if is_top_level kind
    then (do found ← get_by_tmdb_id library tmdb kind; materialize_found r kind library tmdb found)
    else pure (err (unsupported_kind kind))

unfoldable pub backfill_series_metadata : Remote → ℕ → Prog (Unit {0})
backfill_series_metadata r id = do
  found ← get_media_item id
  check found (λ e. pure tt) λ m. do sync_series_tree r m; pure tt

abbrev pub backfill_movie : Remote → MediaItem → Option ℕ → Prog (Unit {0})
backfill_movie r m none = pure tt
backfill_movie r m (some tmdb) =
    if not (is_null m.runtime_minutes) && not (is_null m.imdb_id)
    then pure tt
    else check (r.movie_details tmdb) (λ e. pure tt)
        λ d.
          if ltb 0 d.runtime || not (is_empty d.imdb_id)
          then (do
            apply_metadata m.id
                (record no_update { runtime_minutes = d.runtime; imdb_id = d.imdb_id }) false
            pure tt)
          else pure tt

-- Both ids of the series are known.
abbrev pub has_ids : ℕ → Prog Bool
has_ids id = do
  found ← get_media_item id
  check found (λ e. pure false) λ m. pure (not (is_null m.imdb_id) && not (is_null m.tvdb_id))

abbrev pub backfill_unless : Remote → ℕ → Bool → Prog (Unit {0})
backfill_unless r id true = pure tt
backfill_unless r id false = backfill_series_metadata r id

abbrev pub backfill_episode : Remote → MediaItem → Option ℕ → Prog (Unit {0})
backfill_episode r m none = pure tt
backfill_episode r m (some parent) = do
  found ← get_media_item parent
  check found (λ e. pure tt)
      λ season_item. when_some season_item.parent_id (pure tt) λ series_id.
        if is_null m.runtime_minutes
        then backfill_series_metadata r series_id
        else do known ← has_ids series_id; backfill_unless r series_id known

abbrev pub backfill_season : Remote → Option ℕ → Prog (Unit {0})
backfill_season r none = pure tt
backfill_season r (some series_id) = backfill_series_metadata r series_id

abbrev pub ensure_for : Remote → Kind → MediaItem → Prog (Unit {0})
ensure_for r movie m = backfill_movie r m m.tmdb_id
ensure_for r episode m = backfill_episode r m m.parent_id
ensure_for r season m = backfill_season r m.parent_id
ensure_for r kind m = pure tt

unfoldable pub ensure_expected_runtime : Remote → MediaItem → Prog (Unit {0})
ensure_expected_runtime r m = ensure_for r m.kind m
