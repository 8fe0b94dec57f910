-- ===== src/Acquire/Kept/Tiers.antt =====
-- The two tiers of an acquisition keep what is closed under the store.
use vorn_media_server.Prelude.{Bool, true, false, List, [], ◌∷◌, Text, take}
use vorn_media_server.Store.{Shared, MediaItem, DebridAccount}
use vorn_media_server.Store.Prog.{Result, err, pure, ◌>>=◌, check}
use vorn_media_server.Store.Keeps.{Keeps, keeps_rules, bind-Keeps}
use vorn_media_server.Store.Closed.{Closed}
use vorn_media_server.Remote.{Remote}
use vorn_media_server.Acquire.Kept.Searches.{
  list_enabled_debrid_accounts-Keeps, resolve_imdb_search_params-Keeps, winning_debrid_item-Keeps,
  winning_nzb_download-Keeps,
}
use vorn_media_server.Acquire.Kept.Races.{race_torrent_candidates-Keeps}
use vorn_media_server.Acquire.Kept.RacesNzb.{race_nzb_candidates-Keeps}
use vorn_media_server.Quality.{
  SearchResult, NzbResult, QualityProfile, ScoredRelease, ScoredNzbRelease, score_and_rank,
  score_and_rank_nzb,
}
use vorn_media_server.Select.{dedupe_nzb_by_url}
use vorn_media_server.Acquire.{max_candidates}
use vorn_media_server.Acquire.Race.{race_torrent_candidates}
use vorn_media_server.Acquire.Tiers.{
  finish_torrent, race_ranked, rank_torrents, acquire_via_torrent, finish_nzb, race_ranked_nzb,
  rank_nzbs, acquire_via_nzb,
}

module _ {P : Shared → Type 0} (c : Closed P) where
  finish_torrent-Keeps : (m : MediaItem) (won : Bool) → Keeps P (finish_torrent m won)
  finish_torrent-Keeps m false = record { at = λ w h. h }
  finish_torrent-Keeps m true = search (keeps_rules, winning_debrid_item-Keeps c) depth 20

  race_listed-Keeps :
      (r : Remote) (m : MediaItem) (o : Result (List DebridAccount)) (rs : List ScoredRelease)
      → Keeps P (
          check o
            (λ e. pure (err e))
            λ as'. race_torrent_candidates r m as' rs >>= λ won. finish_torrent m won)
  race_listed-Keeps r m o rs =
      search (keeps_rules, race_torrent_candidates-Keeps c, finish_torrent-Keeps) depth 20

  race_ranked-Keeps :
      (r : Remote) (m : MediaItem) (rs : List ScoredRelease) → Keeps P (race_ranked r m rs)
  race_ranked-Keeps r m [] = record { at = λ w h. h }
  race_ranked-Keeps r m (x ∷ rs) =
      bind-Keeps (list_enabled_debrid_accounts-Keeps c)
        (λ o. race_listed-Keeps r m o (take max_candidates (x ∷ rs)))

  rank_torrents-Keeps :
      (r : Remote) (m : MediaItem) (p : QualityProfile) (cs : List SearchResult)
      → Keeps P (rank_torrents r m p cs)
  rank_torrents-Keeps r m p [] = record { at = λ w h. h }
  rank_torrents-Keeps r m p (x ∷ cs) = record {
    at = (race_ranked-Keeps r m (score_and_rank (x ∷ cs) p)).at;
  }

  pub acquire_via_torrent-Keeps :
      (r : Remote) (m : MediaItem) (query : Text) (p : QualityProfile)
      → Keeps P (acquire_via_torrent r m query p)
  unfolding acquire_via_torrent
  acquire_via_torrent-Keeps r m query p =
      search (keeps_rules, rank_torrents-Keeps, resolve_imdb_search_params-Keeps c) depth 20

  finish_nzb-Keeps : (m : MediaItem) (won : Bool) → Keeps P (finish_nzb m won)
  finish_nzb-Keeps m false = record { at = λ w h. h }
  finish_nzb-Keeps m true = search (keeps_rules, winning_nzb_download-Keeps c) depth 20

  race_ranked_nzb-Keeps :
      (r : Remote) (m : MediaItem) (rs : List ScoredNzbRelease) → Keeps P (race_ranked_nzb r m rs)
  race_ranked_nzb-Keeps r m [] = record { at = λ w h. h }
  race_ranked_nzb-Keeps r m (x ∷ rs) =
      search (keeps_rules, race_nzb_candidates-Keeps c, finish_nzb-Keeps) depth 20

  rank_nzbs-Keeps :
      (r : Remote) (m : MediaItem) (p : QualityProfile) (cs : List NzbResult)
      → Keeps P (rank_nzbs r m p cs)
  rank_nzbs-Keeps r m p [] = record { at = λ w h. h }
  rank_nzbs-Keeps r m p (x ∷ cs) = record {
    at = (race_ranked_nzb-Keeps r m (score_and_rank_nzb (dedupe_nzb_by_url (x ∷ cs)) p)).at;
  }

  pub acquire_via_nzb-Keeps :
      (r : Remote) (m : MediaItem) (query : Text) (p : QualityProfile)
      → Keeps P (acquire_via_nzb r m query p)
  unfolding acquire_via_nzb
  acquire_via_nzb-Keeps r m query p =
      search (keeps_rules, rank_nzbs-Keeps, resolve_imdb_search_params-Keeps c) depth 20
