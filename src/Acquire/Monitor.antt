-- ===== src/Acquire/Monitor.antt =====
-- The periodic scan for missing, upgradable and dead items, backend/internal/acquisition/monitor.go.
use vorn_media_server.Prelude.{
  ℕ, Bool, true, false, not, ◌&&◌, Option, none, some, List, [], ◌∷◌, Text, ltb, keep,
  if◌then◌else◌,
}
use vorn_media_server.Titles.{parse_resolution, resolution_tier}
use vorn_media_server.Quality.{
  QualityProfile, ScoredRelease, ScoredNzbRelease, score_and_rank, score_and_rank_nzb,
}
use vorn_media_server.Store.{Kind, movie, series, MediaItem, Source, owned}
use vorn_media_server.Store.Prog.{Result, ok, err, Prog, ◌>>=◌, ◌>>◌, pure, check, notify, upgraded}
use vorn_media_server.Store.Media.{set_acquisition_status}
use vorn_media_server.Store.Find.{
  list_monitored_top_level, list_monitored_owned, list_owned_remote_items, list_children,
}
use vorn_media_server.Store.Lookups.{get_quality_profile, record_upgrade}
use vorn_media_server.Remote.{Remote}
use vorn_media_server.Acquire.{build_search_query, list_enabled_debrid_accounts}
use vorn_media_server.Acquire.Race.{race_torrent_candidates, race_nzb_candidates}
use vorn_media_server.Acquire.Tree.{sync_series_tree}
use vorn_media_server.Acquire.Place.{ensure_expected_runtime}
use vorn_media_server.Acquire.Start.{acquire, reacquire_soft_fail}
use vorn_media_server.Acquire.Season.{is_wanted, acquire_season_pack}

abbrev pub grab_pending : Remote → MediaItem → List MediaItem → Prog (Unit {0})
grab_pending r season_item [] = pure tt
grab_pending r season_item (m ∷ []) = do acquire m.id; pure tt
grab_pending r season_item (m ∷ n ∷ ms) = do acquire_season_pack r season_item.id; pure tt

-- The body of the season loop: one pending episode alone, several as a pack.
unfoldable pub grab_season : Remote → MediaItem → Prog (Unit {0})
grab_season r season_item = do
  listed ← list_children season_item.id
  check listed (λ e. pure tt)
      λ episodes. grab_pending r season_item (keep (λ m. is_wanted m.acquisition_status) episodes)

unfoldable pub grab_seasons : Remote → List MediaItem → Prog (Unit {0})
grab_seasons r [] w = (tt, w)
grab_seasons r (s ∷ ss) w = grab_seasons r ss (grab_season r s w).1

unfoldable pub grab_placeholder_episodes : Remote → MediaItem → Prog (Unit {0})
unfolding grab_seasons
grab_placeholder_episodes r m = do
  listed ← list_children m.id
  check listed (λ e. pure tt) λ seasons. grab_seasons r seasons

abbrev pub grab_kind : Remote → Kind → MediaItem → Prog (Unit {0})
grab_kind r movie m = if is_wanted m.acquisition_status then (do acquire m.id; pure tt) else pure tt
grab_kind r series m = do
  synced ← sync_series_tree r m
  check synced (λ e. pure tt) λ _. grab_placeholder_episodes r m
grab_kind r kind m = pure tt

unfoldable pub grab_items : Remote → List MediaItem → Prog (Unit {0})
grab_items r [] w = (tt, w)
grab_items r (m ∷ ms) w = grab_items r ms (grab_kind r m.kind m w).1

unfoldable pub grab_new_content : Remote → Prog (Unit {0})
unfolding grab_items
grab_new_content r = do
  listed ← list_monitored_top_level
  check listed (λ e. pure tt) λ items. grab_items r items

unfoldable pub revert_upgrade_attempt : ℕ → Prog (Unit {0})
revert_upgrade_attempt id = do set_acquisition_status id owned; pure tt

-- A known tier above the current one; an unknown current tier is 0.
abbrev pub is_upgrade : ℕ → ℕ × Bool → Bool
is_upgrade current (tier, known) = known && ltb current tier

abbrev pub current_tier : MediaItem → ℕ
current_tier m = (resolution_tier (parse_resolution m.current_release_title)).0

-- The end of an upgrade race: `true` where it was won.
abbrev pub settle_upgrade : MediaItem → Text → Source → Bool → Prog Bool
settle_upgrade m release source true = do
  notify (upgraded m.id m.title release)
  record_upgrade m.id m.title m.current_release_title release source
  pure true
settle_upgrade m release source false = do revert_upgrade_attempt m.id; pure false

-- `ok true` is the return after a torrent upgrade; `ok false` goes on to the NZB tier.
unfoldable pub upgrade_via_torrent : Remote → MediaItem → List ScoredRelease → Prog (Result Bool)
upgrade_via_torrent r m [] = pure (ok false)
upgrade_via_torrent r m (best ∷ ranked) =
    if is_upgrade (current_tier m) (resolution_tier best.resolution)
    then (do
      listed ← list_enabled_debrid_accounts
      check listed (λ e. pure (err e))
          λ accounts. do
            won ← race_torrent_candidates r m accounts (best ∷ [])
            done ← settle_upgrade m best.result.title Source.torrent won
            pure (ok done))
    else pure (ok false)

unfoldable pub upgrade_via_nzb : Remote → MediaItem → List ScoredNzbRelease → Prog (Unit {0})
upgrade_via_nzb r m [] = pure tt
upgrade_via_nzb r m (best ∷ ranked) =
    if is_upgrade (current_tier m) (resolution_tier best.resolution)
    then (do
      won ← race_nzb_candidates r m (best ∷ [])
      settle_upgrade m best.result.title Source.nzb won
      pure tt)
    else pure tt

abbrev pub try_torrent : Remote → MediaItem → Text → QualityProfile → Prog (Result Bool)
try_torrent r m query profile =
    if not r.has_torrent
    then pure (ok false)
    else check (r.torrent_search query) (λ e. pure (err e))
        λ found. upgrade_via_torrent r m (score_and_rank found profile)

abbrev pub try_nzb : Remote → MediaItem → Text → QualityProfile → Bool → Prog (Result (Unit {0}))
try_nzb r m query profile true = pure (ok tt)
try_nzb r m query profile false =
    if not r.has_nzb
    then pure (ok tt)
    else check (r.nzb_search query) (λ e. pure (err e))
        λ found. do upgrade_via_nzb r m (score_and_rank_nzb found profile); pure (ok tt)

unfoldable pub check_upgrade : Remote → MediaItem → Prog (Result (Unit {0}))
check_upgrade r m = do
  ensure_expected_runtime r m
  built ← build_search_query m
  check built (λ e. pure (err e))
      λ query. do
        loaded ← get_quality_profile m.library_id
        check loaded (λ e. pure (err e))
            λ profile. do
              tried ← try_torrent r m query profile
              check tried (λ e. pure (err e)) λ done. try_nzb r m query profile done

unfoldable pub check_upgrades : Remote → List MediaItem → Prog (Unit {0})
check_upgrades r [] w = (tt, w)
check_upgrades r (m ∷ ms) w = check_upgrades r ms (check_upgrade r m w).1

unfoldable pub check_quality_upgrades : Remote → Prog (Unit {0})
unfolding check_upgrades
check_quality_upgrades r = do
  listed ← list_monitored_owned
  check listed (λ e. pure tt) λ items. check_upgrades r items

abbrev pub refresh_path : Remote → ℕ → MediaItem → Option Text → Prog (Unit {0})
refresh_path r polls m none = pure tt
refresh_path r polls m (some path) =
    if r.probe_alive path then pure tt else do reacquire_soft_fail r polls m.id; pure tt

unfoldable pub refresh_items : Remote → ℕ → List MediaItem → Prog (Unit {0})
refresh_items r polls [] w = (tt, w)
refresh_items r polls (m ∷ ms) w = refresh_items r polls ms (refresh_path r polls m m.path w).1

unfoldable pub refresh_dead_links : Remote → ℕ → Prog (Unit {0})
unfolding refresh_items
refresh_dead_links r polls = do
  listed ← list_owned_remote_items
  check listed (λ e. pure tt) λ items. refresh_items r polls items

unfoldable pub tick : Remote → ℕ → Prog (Unit {0})
tick r polls = do grab_new_content r; check_quality_upgrades r; refresh_dead_links r polls
