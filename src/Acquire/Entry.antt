-- ===== src/Acquire/Entry.antt =====
-- The ways into acquisition: what handlers, the monitor and `go` statements start, each as one program
-- that changes a world (backend/internal/acquisition, debrid, nzb and store).
use vorn_media_server.Prelude.{ℕ, Text}
use vorn_media_server.Quality.{QualityProfile}
use vorn_media_server.Store.{Kind, MediaItem, DebridAccount, DebridItem, NzbDownload, Shared}
use vorn_media_server.Store.Prog.{Result, World, Tier, OnFailure}
use vorn_media_server.Store.Media.{reset_stuck_acquisitions}
use vorn_media_server.Store.Keeps.{Calm}
use vorn_media_server.Store.Closed.{Closed}
use vorn_media_server.Store.Closed.Tables.{reset_stuck_acquisitions-Keeps}
use vorn_media_server.Remote.{Remote}
use vorn_media_server.Resolve.{run, on_nzb_complete}
use vorn_media_server.Acquire.Tiers.{acquire_via_torrent, acquire_via_nzb}
use vorn_media_server.Acquire.Place.{materialize_placeholder}
use vorn_media_server.Acquire.Start.{acquire, reacquire_with, run_acquire}
use vorn_media_server.Acquire.Season.{acquire_season_pack, fulfill_request}
use vorn_media_server.Acquire.Monitor.{tick}
use vorn_media_server.Acquire.Kept.Resolves.{run-Keeps, on_nzb_complete-Keeps}
use vorn_media_server.Acquire.Kept.Tiers.{acquire_via_torrent-Keeps, acquire_via_nzb-Keeps}
use vorn_media_server.Acquire.Kept.Places.{materialize_placeholder-Keeps}
use vorn_media_server.Acquire.Kept.Starts.{acquire-Keeps, reacquire_with-Keeps, run_acquire-Keeps}
use vorn_media_server.Acquire.Kept.Seasons.{acquire_season_pack-Keeps, fulfill_request-Keeps}
use vorn_media_server.Acquire.Kept.Scans.{tick-Keeps}

pub data Entry : Type 0 where
  start : Entry
  scan : ℕ → Entry
  request : ℕ → Kind → ℕ → Entry
  place : ℕ → ℕ → Kind → Entry
  get : ℕ → Entry
  get_again : ℕ → ℕ → OnFailure → Entry
  get_season : ℕ → Entry
  search_item : MediaItem → OnFailure → Tier → Result (Unit {0}) → Result (Unit {0}) → Entry
  search_torrents search_nzbs : MediaItem → Text → QualityProfile → Entry
  resolve : DebridAccount → DebridItem → Entry
  nzb_done : NzbDownload → Entry

-- main.go's reset, MonitorScheduler.tick, FulfillRequest, MaterializePlaceholder, Acquire, Reacquire and
-- ReacquireSoftFail, AcquireSeasonPack, runAcquire, the two tiers, debrid's run and nzb's onComplete.
unfoldable pub run_entry : Remote → Entry → World → World
run_entry r start w = (reset_stuck_acquisitions w).1
run_entry r (scan polls) w = (tick r polls w).1
run_entry r (request id kind tmdb) w = (fulfill_request r id kind tmdb w).1
run_entry r (place library tmdb kind) w = (materialize_placeholder r library tmdb kind w).1
run_entry r (get id) w = (acquire id w).1
run_entry r (get_again polls id on_failure) w = (reacquire_with r polls id on_failure w).1
run_entry r (get_season id) w = (acquire_season_pack r id w).1
run_entry r (search_item m on_failure t x y) w = (run_acquire r m on_failure t x y w).1
run_entry r (search_torrents m query profile) w = (acquire_via_torrent r m query profile w).1
run_entry r (search_nzbs m query profile) w = (acquire_via_nzb r m query profile w).1
run_entry r (resolve a d) w = (run r a d w).1
run_entry r (nzb_done n) w = (on_nzb_complete r n w).1

pub run_entry-Calm :
    {P : Shared → Type 0}
    → Closed P
    → (r : Remote) (e : Entry) (w : World) → Calm P w
    → Calm P (run_entry r e w)
unfolding run_entry
run_entry-Calm c r start w h = (reset_stuck_acquisitions-Keeps c).at w h
run_entry-Calm c r (scan polls) w h = (tick-Keeps c r polls).at w h
run_entry-Calm c r (request id kind tmdb) w h = (fulfill_request-Keeps c r id kind tmdb).at w h
run_entry-Calm c r (place library tmdb kind) w h =
    (materialize_placeholder-Keeps c r library tmdb kind).at w h
run_entry-Calm c r (get id) w h = (acquire-Keeps c id).at w h
run_entry-Calm c r (get_again polls id on_failure) w h =
    (reacquire_with-Keeps c r polls id on_failure).at w h
run_entry-Calm c r (get_season id) w h = (acquire_season_pack-Keeps c r id).at w h
run_entry-Calm c r (search_item m on_failure t x y) w h =
    (run_acquire-Keeps c r m on_failure t x y).at w h
run_entry-Calm c r (search_torrents m query profile) w h =
    (acquire_via_torrent-Keeps c r m query profile).at w h
run_entry-Calm c r (search_nzbs m query profile) w h =
    (acquire_via_nzb-Keeps c r m query profile).at w h
run_entry-Calm c r (resolve a d) w h = (run-Keeps c r a d).at w h
run_entry-Calm c r (nzb_done n) w h = (on_nzb_complete-Keeps c r n).at w h
