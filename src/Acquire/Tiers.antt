-- ===== src/Acquire/Tiers.antt =====
-- The torrent tier and the NZB tier of one acquisition, backend/internal/acquisition/service.go.
use vorn_media_server.Prelude.{
  Bool, true, false, not, Option, none, some, List, [], ◌∷◌, Text, take, if◌then◌else◌,
}
use vorn_media_server.Quality.{
  SearchResult, NzbResult, QualityProfile, ScoredRelease, ScoredNzbRelease, score_and_rank,
  score_and_rank_nzb,
}
use vorn_media_server.Select.{dedupe_nzb_by_url}
use vorn_media_server.Store.{MediaItem, DebridItem, NzbDownload}
use vorn_media_server.Store.Prog.{
  Result, ok, err, Prog, ◌>>=◌, ◌>>◌, pure, check, notify, acquired, torrent_not_configured,
  searching_indexers, no_search_results, no_acceptable_release, no_candidate_resolved,
  nzb_not_configured, searching_nzb_indexers, no_nzb_search_results, no_acceptable_nzb_release,
  no_nzb_candidate_resolved,
}
use vorn_media_server.Remote.{Remote}
use vorn_media_server.Acquire.{max_candidates, list_enabled_debrid_accounts}
use vorn_media_server.Acquire.Search.{
  resolve_imdb_search_params, add_by_id, winning_debrid_item, winning_nzb_download,
}
use vorn_media_server.Acquire.Race.{race_torrent_candidates, race_nzb_candidates}

abbrev pub debrid_title : MediaItem → Result (Option DebridItem) → Text
debrid_title item (ok (some d)) = d.name
debrid_title item (ok none) = item.title
debrid_title item (err e) = item.title

abbrev pub nzb_title : MediaItem → Result (Option NzbDownload) → Text
nzb_title item (ok (some n)) = n.name
nzb_title item (ok none) = item.title
nzb_title item (err e) = item.title

abbrev pub finish_torrent : MediaItem → Bool → Prog (Result (Unit {0}))
finish_torrent item false = pure (err no_candidate_resolved)
finish_torrent item true = do
  winner ← winning_debrid_item item.id
  notify (acquired item.id item.title (debrid_title item winner))
  pure (ok tt)

abbrev pub race_ranked : Remote → MediaItem → List ScoredRelease → Prog (Result (Unit {0}))
race_ranked r item [] = pure (err no_acceptable_release)
race_ranked r item (best ∷ ranked) = do
  listed ← list_enabled_debrid_accounts
  check listed (λ e. pure (err e))
      λ accounts. do
        won ← race_torrent_candidates r item accounts (take max_candidates (best ∷ ranked))
        finish_torrent item won

abbrev pub rank_torrents :
    Remote → MediaItem → QualityProfile → List SearchResult → Prog (Result (Unit {0}))
rank_torrents r item profile [] = pure (err no_search_results)
rank_torrents r item profile (c ∷ cs) = race_ranked r item (score_and_rank (c ∷ cs) profile)

unfoldable pub acquire_via_torrent :
    Remote → MediaItem → Text → QualityProfile → Prog (Result (Unit {0}))
acquire_via_torrent r item query profile =
    if not r.has_torrent
    then pure (err torrent_not_configured)
    else check (r.torrent_search query) (λ e. pure (err (searching_indexers e)))
        λ candidates. do
          ids ← resolve_imdb_search_params item
          rank_torrents r item profile (add_by_id r.torrent_by_id ids candidates)

abbrev pub finish_nzb : MediaItem → Bool → Prog (Result (Unit {0}))
finish_nzb item false = pure (err no_nzb_candidate_resolved)
finish_nzb item true = do
  winner ← winning_nzb_download item.id
  notify (acquired item.id item.title (nzb_title item winner))
  pure (ok tt)

abbrev pub race_ranked_nzb : Remote → MediaItem → List ScoredNzbRelease → Prog (Result (Unit {0}))
race_ranked_nzb r item [] = pure (err no_acceptable_nzb_release)
race_ranked_nzb r item (best ∷ ranked) = do
  won ← race_nzb_candidates r item (best ∷ ranked)
  finish_nzb item won

abbrev pub rank_nzbs :
    Remote → MediaItem → QualityProfile → List NzbResult → Prog (Result (Unit {0}))
rank_nzbs r item profile [] = pure (err no_nzb_search_results)
rank_nzbs r item profile (c ∷ cs) =
    race_ranked_nzb r item (score_and_rank_nzb (dedupe_nzb_by_url (c ∷ cs)) profile)

unfoldable pub acquire_via_nzb :
    Remote → MediaItem → Text → QualityProfile → Prog (Result (Unit {0}))
acquire_via_nzb r item query profile =
    if not r.has_nzb
    then pure (err nzb_not_configured)
    else check (r.nzb_search query) (λ e. pure (err (searching_nzb_indexers e)))
        λ candidates. do
          ids ← resolve_imdb_search_params item
          rank_nzbs r item profile (add_by_id r.nzb_by_id ids candidates)
