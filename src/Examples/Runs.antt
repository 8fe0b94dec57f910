-- ===== src/Examples/Runs.antt =====
-- The results on whole runs of acquisition at concrete inputs.
use vorn_media_server.Prelude.{◌≡◌, refl, true, false, none, [], ◌∷◌, codes}
use vorn_media_server.Quality.{ScoredRelease, ScoredNzbRelease}
use vorn_media_server.Store.{acquiring}
use vorn_media_server.Store.Prog.{
  Result, ok, not_found, quiet, to_owned, to_error, World, statement, Turn, look, pause, spawn,
}
use vorn_media_server.Store.Media.{
  set_items, has_id, with_status, with_path, get_media_item, set_acquisition_status,
  set_active_debrid_item, set_active_nzb_download,
}
use vorn_media_server.Store.Closed.Rows.{Has, has_path, is_same}
use vorn_media_server.Remote.{Remote, nowhere}
use vorn_media_server.Acquire.Entry.{run_entry, get_again, scan}
use vorn_media_server.Acquire.Safety.{run_entry-has_path, run_entry-is_same}
use vorn_media_server.Acquire.Race.{race_torrent_candidates, race_nzb_candidates, is_won, poll}
use vorn_media_server.Acquire.Wins.{
  IsOwnedNow, race_torrent_candidates-owned, race_nzb_candidates-owned,
}
use vorn_media_server.Acquire.Start.{fast_reacquire_from_debrid, reacquire_with, is_lost}
use vorn_media_server.Prelude.{length, ◌≤◌, ◌+◌}
use vorn_media_server.Store.Prog.{torrent_tier, nzb_tier, err, not_found}
use vorn_media_server.Acquire.Start.{collect_tiers}
use vorn_media_server.Acquire.Race.{race_one_account}
use vorn_media_server.Acquire.Order.{race_one_account-Starts, collect_tiers-swap}
use vorn_media_server.Acquire.Losing.{race_nzb_candidates-demotes}
use vorn_media_server.Acquire.Search.{prioritize_cached, prioritize_cached_nzb}
use vorn_media_server.Select.{dedupe, hashes_to_check, magnet_hash}
use vorn_media_server.Resolve.{add_link, add_nzb_for_item, check_cached, is_url_failed}
use vorn_media_server.Store.Debrid.{
  create_debrid_item, get_debrid_account, get_debrid_item, list_by_media_item,
}
use vorn_media_server.Store.Nzb.{create_nzb_download}
use vorn_media_server.Prelude.Sort.{sort_desc}
use vorn_media_server.Examples.Data.{
  film, owned_film, searching_film, account, with_film, busy, large,
}

run_entry-has_path_example :
    Has
      (has_path 1)
      (run_entry nowhere (get_again 2 1 to_owned) (busy (with_film owned_film))).shared
unfolding Has
run_entry-has_path_example =
    run_entry-has_path nowhere (get_again 2 1 to_owned) 1 (busy (with_film owned_film))
      (record { holds = refl; calm = (λ s h. h, (λ s h. h, tt)) })

run_entry-is_same_example :
    Has (is_same film) (run_entry nowhere (scan 2) (busy (with_film film))).shared
unfolding Has
run_entry-is_same_example =
    run_entry-is_same nowhere (scan 2) film (busy (with_film film))
      (record { holds = refl; calm = (λ s h. h, (λ s h. h, tt)) })

-- Everything is configured, and every NZB can be fetched.
abbrev configured : Remote
configured = record nowhere {
  has_debrid = true;
  has_torrent = true;
  has_nzb = true;
  fetch_nzb = λ url. ok (codes "nzb");
  nzb_name = λ content. ok (codes "Film");
}

abbrev candidate : ScoredRelease
candidate = record { result = large; resolution = codes "1080p"; codec = []; score = 205 }

abbrev nzb_candidate : ScoredNzbRelease
nzb_candidate = record {
  result = record {
    title = codes "Film";
    download_url = codes "http://n/1";
    indexer_name = [];
    size_bytes = 0;
    published_at = 0;
  };
  resolution = [];
  codec = [];
  score = 0;
}

abbrev idle : Turn
idle = record { others = λ t. t; fails = false }

-- A resolve in another goroutine makes the film owned.
abbrev won : Turn
won = record {
  others = set_items (has_id 1) (with_path (codes "http://b/film.mkv") (codes "Film 1080p"));
  fails = false;
}

abbrev torrent_world : World
torrent_world = record (quiet (with_film film)) {
  turns = idle ∷ idle ∷ idle ∷ idle ∷ idle ∷ won ∷ [];
}

race_torrent_candidates-owned_example :
    IsOwnedNow 1
      (race_torrent_candidates configured film
        (account ∷ [])
        (candidate ∷ [])
        torrent_world).1.shared
unfolding race_torrent_candidates prioritize_cached hashes_to_check dedupe magnet_hash check_cached
    get_debrid_account statement set_acquisition_status set_active_debrid_item set_items
    create_debrid_item is_won get_media_item spawn
race_torrent_candidates-owned_example =
    race_torrent_candidates-owned configured film (account ∷ []) (candidate ∷ []) torrent_world refl

abbrev nzb_world : World
nzb_world = record (quiet (with_film film)) { turns = idle ∷ idle ∷ idle ∷ idle ∷ won ∷ [] }

race_nzb_candidates-owned_example :
    IsOwnedNow 1 (race_nzb_candidates configured film (nzb_candidate ∷ []) nzb_world).1.shared
unfolding race_nzb_candidates prioritize_cached_nzb is_url_failed look pause set_acquisition_status
    statement set_active_nzb_download set_items add_nzb_for_item create_nzb_download is_won
    get_media_item spawn
race_nzb_candidates-owned_example =
    race_nzb_candidates-owned configured film (nzb_candidate ∷ []) nzb_world refl

-- A refresh whose debrid item never resolves: it reports success, starts the resolve alone, and the item
-- stays searching.
abbrev refreshed : Result (Unit {0}) × World
refreshed = reacquire_with configured 2 1 to_owned (quiet (with_film owned_film))

refresh_stranded :
    (refreshed.0 ≡ ok tt)
    × (refreshed.1.shared.media_items ≡ searching_film ∷ [])
    × (length refreshed.1.started ≡ 1)
unfolding reacquire_with fast_reacquire_from_debrid list_by_media_item statement sort_desc
    set_acquisition_status add_link get_debrid_account set_active_debrid_item set_items
    create_debrid_item poll is_won get_media_item spawn is_lost get_debrid_item pause
    vorn_media_server.Acquire.Start.start_acquire
refresh_stranded = (refl, refl, refl)

-- The cache check finds the second of two releases.
abbrev other_candidate : ScoredRelease
other_candidate = record candidate {
  result = record large { download_url = codes "magnet:?xt=urn:btih:BBBB&dn=other" };
}

abbrev second_cached : Remote
second_cached = record configured { cached_hashes = λ provider hashes. ok (codes "bbbb" ∷ []) }

second_first :
    (prioritize_cached second_cached account
      (candidate ∷ other_candidate ∷ [])
      (quiet (with_film film))).0
    ≡ other_candidate ∷ candidate ∷ []
unfolding prioritize_cached hashes_to_check dedupe magnet_hash check_cached get_debrid_account
    statement vorn_media_server.Select.cached_first
second_first = refl

race_nzb_candidates-demotes_example :
    ((race_nzb_candidates nowhere owned_film (nzb_candidate ∷ []) (quiet (with_film owned_film))).0
      ≡ false)
    × ((race_nzb_candidates nowhere owned_film
          (nzb_candidate ∷ [])
          (quiet (with_film owned_film))).1.shared.media_items
        ≡ (set_items (has_id 1) (with_status acquiring) (
            set_items
              (has_id 1)
              (λ n. record n { active_nzb_download_id = none })
              (with_film owned_film))).media_items)
race_nzb_candidates-demotes_example =
    race_nzb_candidates-demotes nowhere owned_film (nzb_candidate ∷ []) (with_film owned_film)
      (λ url. (not_found, refl))

race_one_account-Starts_example :
    length (race_one_account configured film account (candidate ∷ []) torrent_world).1.started
    ≤ length torrent_world.started + 3
race_one_account-Starts_example =
    race_one_account-Starts configured film account (candidate ∷ []) torrent_world

collect_tiers-swap_example :
    collect_tiers film to_error torrent_tier (err not_found) (ok tt) (quiet (with_film film))
    ≡ collect_tiers film to_error nzb_tier (ok tt) (err not_found) (quiet (with_film film))
collect_tiers-swap_example =
    collect_tiers-swap film to_error (err not_found) (ok tt) (with_film film)
