-- ===== src/Acquire/Tree.antt =====
-- Placeholders and the season/episode tree of a series, backend/internal/acquisition/service.go.
use vorn_media_server.Prelude.{
  ℕ, ◌+◌, ◌*◌, ◌-◌, ◌%◌, Bool, false, not, ◌&&◌, ◌||◌, Option, none, some, List, [], ◌∷◌, Text,
  is_empty, ltb, leb, ◌==◌, is_digit, if◌then◌else◌,
}
use vorn_media_server.Store.{season, episode, Date, MediaItem}
use vorn_media_server.Store.Prog.{
  not_found, Result, ok, err, Prog, ◌>>=◌, ◌>>◌, pure, check, fetching_series, no_tmdb_id,
  season_failed,
}
use vorn_media_server.Store.Media.{no_update, apply_metadata, is_null}
use vorn_media_server.Store.Find.{find_placeholder_child, PlaceholderInput, create_placeholder}
use vorn_media_server.Store.Promoted.{season_display_title, episode_display_title}
use vorn_media_server.Remote.{Remote, EpisodeDetails, SeriesDetails}

abbrev pub is_leap : ℕ → Bool
is_leap y = y % 4 == 0 && (not (y % 100 == 0) || y % 400 == 0)

abbrev pub days_in : ℕ → ℕ → ℕ
days_in y m =
    if m == 2
    then (if is_leap y then 29 else 28)
    else if m == 4 || (m == 6 || (m == 9 || m == 11))
    then 30
    else 31

abbrev pub digit : ℕ → ℕ
digit c = c - b'0'

abbrev pub valid_date : ℕ → ℕ → ℕ → Option Date
valid_date y m d =
    if leb 1 m && (leb m 12 && (leb 1 d && leb d (days_in y m)))
    then some (record { year = y; month = m; day = d })
    else none

-- time.Parse("2006-01-02", s); `none` is its error.
unfoldable pub parse_date : Text → Option Date
parse_date (a ∷ b ∷ c ∷ d ∷ h ∷ e ∷ f ∷ i ∷ j ∷ k ∷ []) =
    if is_digit a
      && (is_digit b
          && (is_digit c
              && (is_digit d
                  && (h == b'-'
                      && (is_digit e
                          && (is_digit f && (i == b'-' && (is_digit j && is_digit k))))))))
    then valid_date (1000 * digit a + 100 * digit b + 10 * digit c + digit d)
        (10 * digit e + digit f) (10 * digit j + digit k)
    else none
parse_date _ = none

unfoldable pub apply_top_level_metadata :
    ℕ → Text → Text → Text → Text → ℕ → Text → Prog (Result (Unit {0}))
apply_top_level_metadata id overview release_date poster_url backdrop_url runtime imdb_id =
    apply_metadata id
      (record {
        tmdb_id = none;
        title = [];
        overview = overview;
        release_date = parse_date release_date;
        poster_url = poster_url;
        backdrop_url = backdrop_url;
        runtime_minutes = runtime;
        imdb_id = imdb_id;
        tvdb_id = 0;
      })
      false

-- errors.Is(err, store.ErrNotFound) then create.
abbrev pub or_create : Result MediaItem → PlaceholderInput → Prog (Result MediaItem)
or_create (ok m) p = pure (ok m)
or_create (err not_found) p = create_placeholder p
or_create (err e) p = pure (err e)

abbrev pub season_input : MediaItem → ℕ → PlaceholderInput
season_input series_item n = record {
  library_id = series_item.library_id;
  parent_id = some series_item.id;
  kind = season;
  title = season_display_title n;
  sort_title = [];
  season_number = some n;
  episode_number = none;
  tmdb_id = none;
  monitored = series_item.monitored;
}

abbrev pub episode_input : MediaItem → MediaItem → ℕ → ℕ → PlaceholderInput
episode_input series_item season_item s e = record {
  library_id = series_item.library_id;
  parent_id = some season_item.id;
  kind = episode;
  title = episode_display_title s e;
  sort_title = [];
  season_number = some s;
  episode_number = some e;
  tmdb_id = none;
  monitored = series_item.monitored;
}

-- FindPlaceholderChild, and CreatePlaceholder where it finds none.
unfoldable pub find_or_create_child : PlaceholderInput → Prog (Result MediaItem)
find_or_create_child p = do
  found ←
      find_placeholder_child p.library_id p.parent_id p.kind p.title p.season_number
        p.episode_number
  or_create found p

abbrev pub describe_episode : ℕ → EpisodeDetails → Prog (Unit {0})
describe_episode id e =
    if not (is_empty e.overview) || ltb 0 e.runtime
    then (do
      apply_metadata id (record no_update { overview = e.overview; runtime_minutes = e.runtime })
          false
      pure tt)
    else pure tt

-- The body of the episode loop; `continue` on an error.
unfoldable pub sync_episode : MediaItem → MediaItem → ℕ → EpisodeDetails → Prog (Unit {0})
sync_episode series_item season_item s e = do
  child ← find_or_create_child (episode_input series_item season_item s e.episode_number)
  check child (λ x. pure tt) λ m. describe_episode m.id e

unfoldable pub sync_episodes : MediaItem → MediaItem → ℕ → List EpisodeDetails → Prog (Unit {0})
sync_episodes series_item season_item s [] w = (tt, w)
sync_episodes series_item season_item s (e ∷ es) w =
    sync_episodes series_item season_item s es (sync_episode series_item season_item s e w).1

-- The body of the season loop; the TMDb error is `continue`.
unfoldable pub sync_season : Remote → MediaItem → ℕ → ℕ → Prog (Result (Unit {0}))
unfolding sync_episodes
sync_season r series_item tmdb s = do
  child ← find_or_create_child (season_input series_item s)
  check child (λ e. pure (err (season_failed e)))
      λ season_item.
        check (r.season_details tmdb s) (λ e. pure (ok tt))
          λ episodes. do sync_episodes series_item season_item s episodes; pure (ok tt)

unfoldable pub sync_seasons : Remote → MediaItem → ℕ → List ℕ → Prog (Result (Unit {0}))
sync_seasons r series_item tmdb [] w = (ok tt, w)
sync_seasons r series_item tmdb (s ∷ ss) w =
    let (outcome, w') = sync_season r series_item tmdb s w in
    let rest = sync_seasons r series_item tmdb ss w' in
    elim outcome [ err e ↦ (err e, w') | ok u ↦ rest ]

abbrev pub backfill_ids : MediaItem → SeriesDetails → Prog (Unit {0})
backfill_ids m d =
    if is_null m.imdb_id && not (is_empty d.imdb_id) || is_null m.tvdb_id && ltb 0 d.tvdb_id
    then (do
      apply_metadata m.id (record no_update { imdb_id = d.imdb_id; tvdb_id = d.tvdb_id }) false
      pure tt)
    else pure tt

abbrev pub sync_tmdb : Remote → MediaItem → Option ℕ → Prog (Result (Unit {0}))
sync_tmdb r series_item none = pure (err no_tmdb_id)
sync_tmdb r series_item (some tmdb) =
    check (r.series_details tmdb) (λ e. pure (err (fetching_series e)))
      λ details. do
        backfill_ids series_item details
        sync_seasons r series_item tmdb details.seasons

unfoldable pub sync_series_tree : Remote → MediaItem → Prog (Result (Unit {0}))
unfolding sync_seasons
sync_series_tree r series_item = sync_tmdb r series_item series_item.tmdb_id
