-- ===== src/Store/Messages.antt =====
-- The text of an error, as acquisition stores it (backend/internal/acquisition/quality.go and
-- service.go). Ids and the database driver's own words are left out.
use vorn_media_server.Prelude.{◌++◌, Text, codes}
use vorn_media_server.Store.Prog.{
  Error, not_found, db_failed, no_acceptable_release, no_search_results, no_nzb_search_results,
  no_acceptable_nzb_release, torrent_not_configured, nzb_not_configured, no_candidate_resolved,
  no_nzb_candidate_resolved, no_enabled_account, account_disabled, unknown_provider, nzb_unparsable,
  nzb_empty, unsupported_kind, cannot_acquire, no_tmdb_id, missing_numbers, not_a_season,
  no_parent_series, remote, searching_indexers, searching_nzb_indexers, fetching_movie,
  fetching_series, loading, loading_season, loading_series, listing_episodes, season_failed,
  fast_re_resolve, both_tiers,
}

unfoldable pub message : Error → Text
message not_found = codes "store: not found"
message db_failed = codes "database error"
message no_acceptable_release = codes "acquisition: no release matched the quality profile"
message no_search_results =
    codes
      "acquisition: no torrent search results found -- check that at least one torrent indexer is configured and enabled"
message no_nzb_search_results =
    codes
      "acquisition: no NZB search results found -- check that at least one NZB indexer is configured and enabled"
message no_acceptable_nzb_release = codes "acquisition: no NZB release matched the quality profile"
message torrent_not_configured = codes "acquisition: torrent acquisition is not enabled"
message nzb_not_configured = codes "acquisition: NZB/Usenet acquisition is not enabled"
message no_candidate_resolved = codes "no torrent candidate could be resolved"
message no_nzb_candidate_resolved = codes "no NZB candidate could be resolved"
message no_enabled_account = codes "no enabled debrid account configured"
message account_disabled = codes "debrid: account is disabled"
message unknown_provider = codes "debrid: unknown provider"
message nzb_unparsable = codes "nzb: parsing nzb file"
message nzb_empty = codes "nzb: nzb file has no <file> entries"
message (unsupported_kind k) = codes "acquisition: unsupported kind"
message (cannot_acquire k) = codes "acquisition: cannot acquire kind"
message no_tmdb_id = codes "acquisition: series has no tmdb id"
message missing_numbers = codes "acquisition: episode missing season/episode/parent"
message not_a_season = codes "acquisition: not a season"
message no_parent_series = codes "acquisition: season has no parent series"
message (remote t) = t
message (searching_indexers e) = codes "searching indexers: " ++ message e
message (searching_nzb_indexers e) = codes "searching NZB indexers: " ++ message e
message (fetching_movie e) = codes "acquisition: fetching movie details: " ++ message e
message (fetching_series e) = codes "acquisition: fetching series details: " ++ message e
message (loading e) = codes "acquisition: loading: " ++ message e
message (loading_season e) = codes "acquisition: loading season for episode: " ++ message e
message (loading_series e) = codes "acquisition: loading series: " ++ message e
message (listing_episodes e) = codes "acquisition: listing episodes for season: " ++ message e
message (season_failed e) = codes "acquisition: season: " ++ message e
message (fast_re_resolve e) = codes "fast re-resolve: " ++ message e
message (both_tiers t n) = codes "torrent: " ++ (message t ++ (codes "; nzb: " ++ message n))
