-- ===== src/Acquire/Kept/Scans.antt =====
-- The monitor's scan keeps what is closed under the store.
use vorn_media_server.Prelude.{ℕ, Bool, true, false, Option, none, some, List, [], ◌∷◌, Text}
use vorn_media_server.Store.{
  Kind, movie, series, season, episode, Shared, MediaItem, DebridAccount, Source,
}
use vorn_media_server.Store.Prog.{Result, ok, err, pure, ◌>>=◌, check}
use vorn_media_server.Store.Keeps.{Keeps, keeps_rules, bind-Keeps, if-Keeps, pure-Keeps}
use vorn_media_server.Store.Closed.{Closed}
use vorn_media_server.Remote.{Remote}
use vorn_media_server.Store.Closed.Tables.{
  get_quality_profile-Keeps, list_children-Keeps, list_monitored_owned-Keeps,
  list_monitored_top_level-Keeps, list_owned_remote_items-Keeps, record_upgrade-Keeps,
  set_acquisition_status-Keeps,
}
use vorn_media_server.Acquire.Kept.Searches.{
  build_search_query-Keeps, list_enabled_debrid_accounts-Keeps,
}
use vorn_media_server.Acquire.Kept.Races.{race_torrent_candidates-Keeps}
use vorn_media_server.Acquire.Kept.RacesNzb.{race_nzb_candidates-Keeps}
use vorn_media_server.Acquire.Kept.Trees.{sync_series_tree-Keeps}
use vorn_media_server.Acquire.Kept.Places.{ensure_expected_runtime-Keeps}
use vorn_media_server.Acquire.Kept.Starts.{acquire-Keeps, reacquire_soft_fail-Keeps}
use vorn_media_server.Acquire.Kept.Seasons.{acquire_season_pack-Keeps}
use vorn_media_server.Store.{artist, album, track, audiobook, book, chapter}
use vorn_media_server.Quality.{QualityProfile, ScoredRelease, ScoredNzbRelease}
use vorn_media_server.Titles.{resolution_tier}
use vorn_media_server.Acquire.Race.{race_torrent_candidates}
use vorn_media_server.Acquire.Monitor.{
  is_upgrade, current_tier, grab_pending, grab_season, grab_seasons, grab_placeholder_episodes,
  grab_kind, grab_items, grab_new_content, revert_upgrade_attempt, settle_upgrade,
  upgrade_via_torrent, upgrade_via_nzb, try_torrent, try_nzb, check_upgrade, check_upgrades,
  check_quality_upgrades, refresh_path, refresh_items, refresh_dead_links, tick,
}

module _ {P : Shared → Type 0} (c : Closed P) where
  grab_pending-Keeps :
      (r : Remote) (s : MediaItem) (ms : List MediaItem) → Keeps P (grab_pending r s ms)
  grab_pending-Keeps r s [] = record { at = λ w h. h }
  grab_pending-Keeps r s (m ∷ []) = search (keeps_rules, acquire-Keeps c) depth 20
  grab_pending-Keeps r s (m ∷ n ∷ ms) = search (keeps_rules, acquire_season_pack-Keeps c) depth 20

  grab_season-Keeps : (r : Remote) (s : MediaItem) → Keeps P (grab_season r s)
  unfolding grab_season
  grab_season-Keeps r s = search (keeps_rules, grab_pending-Keeps, list_children-Keeps c) depth 20

  grab_seasons-Keeps : (r : Remote) (ms : List MediaItem) → Keeps P (grab_seasons r ms)
  unfolding grab_seasons
  grab_seasons-Keeps r [] = record { at = λ w h. h }
  grab_seasons-Keeps r (m ∷ ms) = record {
    at = λ w h. (grab_seasons-Keeps r ms).at _ ((grab_season-Keeps r m).at w h);
  }

  grab_placeholder_episodes-Keeps :
      (r : Remote) (m : MediaItem) → Keeps P (grab_placeholder_episodes r m)
  unfolding grab_placeholder_episodes
  grab_placeholder_episodes-Keeps r m =
      search (keeps_rules, grab_seasons-Keeps, list_children-Keeps c) depth 20

  grab_kind-Keeps : (r : Remote) (k : Kind) (m : MediaItem) → Keeps P (grab_kind r k m)
  grab_kind-Keeps r movie m = search (keeps_rules, acquire-Keeps c) depth 20
  grab_kind-Keeps r series m =
      search (keeps_rules, sync_series_tree-Keeps c, grab_placeholder_episodes-Keeps) depth 20
  grab_kind-Keeps r season m = record { at = λ w h. h }
  grab_kind-Keeps r episode m = record { at = λ w h. h }
  grab_kind-Keeps r artist m = record { at = λ w h. h }
  grab_kind-Keeps r album m = record { at = λ w h. h }
  grab_kind-Keeps r track m = record { at = λ w h. h }
  grab_kind-Keeps r audiobook m = record { at = λ w h. h }
  grab_kind-Keeps r book m = record { at = λ w h. h }
  grab_kind-Keeps r chapter m = record { at = λ w h. h }

  grab_items-Keeps : (r : Remote) (ms : List MediaItem) → Keeps P (grab_items r ms)
  unfolding grab_items
  grab_items-Keeps r [] = record { at = λ w h. h }
  grab_items-Keeps r (m ∷ ms) = record {
    at = λ w h. (grab_items-Keeps r ms).at _ ((grab_kind-Keeps r m.kind m).at w h);
  }

  grab_new_content-Keeps : (r : Remote) → Keeps P (grab_new_content r)
  unfolding grab_new_content
  grab_new_content-Keeps r =
      search (keeps_rules, grab_items-Keeps, list_monitored_top_level-Keeps c) depth 20

  revert_upgrade_attempt-Keeps : (id : ℕ) → Keeps P (revert_upgrade_attempt id)
  unfolding revert_upgrade_attempt
  revert_upgrade_attempt-Keeps id = search (keeps_rules, set_acquisition_status-Keeps c) depth 20

  settle_upgrade-Keeps :
      (m : MediaItem) (t : Text) (s : Source) (b : Bool) → Keeps P (settle_upgrade m t s b)
  settle_upgrade-Keeps m t s true = search (keeps_rules, record_upgrade-Keeps c) depth 20
  settle_upgrade-Keeps m t s false = search (keeps_rules, revert_upgrade_attempt-Keeps) depth 20

  race_listed-Keeps :
      (r : Remote) (m : MediaItem) (x : ScoredRelease) (o : Result (List DebridAccount))
      → Keeps P (
          check o
            (λ e. pure (err e))
            λ as'. race_torrent_candidates r m as' (x ∷ []) >>= λ won.
              settle_upgrade m x.result.title Source.torrent won >>= λ done. pure (ok done))
  race_listed-Keeps r m x o =
      search (keeps_rules, race_torrent_candidates-Keeps c, settle_upgrade-Keeps) depth 20

  upgrade_via_torrent-Keeps :
      (r : Remote) (m : MediaItem) (rs : List ScoredRelease) → Keeps P (upgrade_via_torrent r m rs)
  unfolding upgrade_via_torrent
  upgrade_via_torrent-Keeps r m [] = record { at = λ w h. h }
  upgrade_via_torrent-Keeps r m (x ∷ rs) =
      if-Keeps (is_upgrade (current_tier m) (resolution_tier x.resolution))
        (bind-Keeps (list_enabled_debrid_accounts-Keeps c) (λ o. race_listed-Keeps r m x o))
        (pure-Keeps (ok false))

  upgrade_via_nzb-Keeps :
      (r : Remote) (m : MediaItem) (rs : List ScoredNzbRelease) → Keeps P (upgrade_via_nzb r m rs)
  unfolding upgrade_via_nzb
  upgrade_via_nzb-Keeps r m [] = record { at = λ w h. h }
  upgrade_via_nzb-Keeps r m (x ∷ rs) =
      search (keeps_rules, race_nzb_candidates-Keeps c, settle_upgrade-Keeps) depth 20

  try_torrent-Keeps :
      (r : Remote) (m : MediaItem) (q : Text) (p : QualityProfile) → Keeps P (try_torrent r m q p)
  try_torrent-Keeps r m q p = search (keeps_rules, upgrade_via_torrent-Keeps) depth 20

  try_nzb-Keeps :
      (r : Remote) (m : MediaItem) (q : Text) (p : QualityProfile) (b : Bool)
      → Keeps P (try_nzb r m q p b)
  try_nzb-Keeps r m q p true = record { at = λ w h. h }
  try_nzb-Keeps r m q p false = search (keeps_rules, upgrade_via_nzb-Keeps) depth 20

  pub check_upgrade-Keeps : (r : Remote) (m : MediaItem) → Keeps P (check_upgrade r m)
  unfolding check_upgrade
  check_upgrade-Keeps r m =
      search
        (
          keeps_rules,
          try_torrent-Keeps,
          try_nzb-Keeps,
          ensure_expected_runtime-Keeps c,
          build_search_query-Keeps c,
          get_quality_profile-Keeps c,
        )
        depth 20

  check_upgrades-Keeps : (r : Remote) (ms : List MediaItem) → Keeps P (check_upgrades r ms)
  unfolding check_upgrades
  check_upgrades-Keeps r [] = record { at = λ w h. h }
  check_upgrades-Keeps r (m ∷ ms) = record {
    at = λ w h. (check_upgrades-Keeps r ms).at _ ((check_upgrade-Keeps r m).at w h);
  }

  check_quality_upgrades-Keeps : (r : Remote) → Keeps P (check_quality_upgrades r)
  unfolding check_quality_upgrades
  check_quality_upgrades-Keeps r =
      search (keeps_rules, check_upgrades-Keeps, list_monitored_owned-Keeps c) depth 20

  refresh_path-Keeps :
      (r : Remote) (n : ℕ) (m : MediaItem) (o : Option Text) → Keeps P (refresh_path r n m o)
  refresh_path-Keeps r n m none = record { at = λ w h. h }
  refresh_path-Keeps r n m (some path) = search (keeps_rules, reacquire_soft_fail-Keeps c) depth 20

  refresh_items-Keeps : (r : Remote) (n : ℕ) (ms : List MediaItem) → Keeps P (refresh_items r n ms)
  unfolding refresh_items
  refresh_items-Keeps r n [] = record { at = λ w h. h }
  refresh_items-Keeps r n (m ∷ ms) = record {
    at = λ w h. (refresh_items-Keeps r n ms).at _ ((refresh_path-Keeps r n m m.path).at w h);
  }

  refresh_dead_links-Keeps : (r : Remote) (n : ℕ) → Keeps P (refresh_dead_links r n)
  unfolding refresh_dead_links
  refresh_dead_links-Keeps r n =
      search (keeps_rules, refresh_items-Keeps, list_owned_remote_items-Keeps c) depth 20

  pub tick-Keeps : (r : Remote) (n : ℕ) → Keeps P (tick r n)
  unfolding tick
  tick-Keeps r n =
      search
        (
          keeps_rules, grab_new_content-Keeps, check_quality_upgrades-Keeps,
          refresh_dead_links-Keeps,
        )
        depth 20
