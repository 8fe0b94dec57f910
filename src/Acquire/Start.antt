-- ===== src/Acquire/Start.antt =====
-- Starting an acquisition, trying again, and the end of both tiers,
-- backend/internal/acquisition/service.go.
use vorn_media_server.Prelude.{
  ℕ, Bool, true, false, not, ◌&&◌, ◌||◌, Option, none, some, List, [], ◌∷◌, Text, codes, is_empty,
  if◌then◌else◌,
}
use vorn_media_server.Store.{MediaItem, DebridItem, searching}
use vorn_media_server.Store.Prog.{
  Error, Result, ok, err, Prog, ◌>>=◌, ◌>>◌, pure, check, pause, notify, spawn, OnFailure, to_error,
  to_owned, Tier, torrent_tier, nzb_tier, acquire_item, search_tier, acquisition_failed,
  fast_re_resolve,
}
use vorn_media_server.Store.Messages.{message}
use vorn_media_server.Store.Media.{
  in_flight, is_owned, get_media_item, set_active_debrid_item, set_acquisition_status,
  set_acquisition_error, set_media_item_path,
}
use vorn_media_server.Store.Lookups.{
  find_webdav_path_for_item, find_webdav_path_from_nzb, get_quality_profile,
}
use vorn_media_server.Store.Debrid.{list_by_media_item, get_debrid_item, is_failed}
use vorn_media_server.Remote.{Remote}
use vorn_media_server.Resolve.{add_link}
use vorn_media_server.Acquire.{build_search_query, fail, combine_acquire_errors}
use vorn_media_server.Acquire.Race.{poll}
use vorn_media_server.Acquire.Place.{ensure_expected_runtime}

-- One of the two lookups of a stable path: `true` where the item is set to it.
abbrev pub use_path : ℕ → Result Text → Prog Bool
use_path id (err e) = pure false
use_path id (ok path) = do
  set ← set_media_item_path id path (codes "webdav")
  check set (λ e. pure false) λ _. pure true

abbrev pub start_search : MediaItem → OnFailure → Bool → Prog (Result (Unit {0}))
start_search item on_failure true = pure (ok tt)
start_search item on_failure false = do spawn (acquire_item item on_failure); pure (ok tt)

abbrev pub try_nzb_path : MediaItem → Bool → Prog Bool
try_nzb_path item true = pure true
try_nzb_path item false = do found ← find_webdav_path_from_nzb item.id; use_path item.id found

abbrev pub begin_search : MediaItem → OnFailure → Prog (Result (Unit {0}))
begin_search item on_failure = do
  set ← set_acquisition_status item.id searching
  check set (λ e. pure (err e))
      λ _. do
        twin ←
            find_webdav_path_for_item item.library_id item.kind item.title item.season_number
              item.episode_number
        from_twin ← use_path item.id twin
        from_nzb ← try_nzb_path item from_twin
        start_search item on_failure from_nzb

unfoldable pub start_acquire : ℕ → Bool → OnFailure → Prog (Result (Unit {0}))
start_acquire id block_owned on_failure = do
  found ← get_media_item id
  check found (λ e. pure (err e))
      λ item.
        if in_flight item.acquisition_status || is_owned item.acquisition_status && block_owned
        then pure (ok tt)
        else begin_search item on_failure

unfoldable pub acquire : ℕ → Prog (Result (Unit {0}))
acquire id = start_acquire id true to_error

-- The resolve is gone or has failed.
unfoldable pub is_lost : ℕ → Prog Bool
is_lost id = do
  found ← get_debrid_item id
  check found (λ e. pure true) λ d. pure (is_failed d.status)

abbrev pub resolve_again : ℕ → MediaItem → ℕ → Text → Prog Bool
resolve_again polls item account source_ref = do
  set ← set_acquisition_status item.id searching
  check set (λ e. pure false)
      λ _. do
        set_active_debrid_item item.id none
        added ← add_link (record {
          library_id = some item.library_id;
          account_id = account;
          source_ref = source_ref;
          name = item.title;
          media_item_id = some item.id;
        })
        check added
            (λ e. do set_acquisition_error item.id (message (fast_re_resolve e)); pure false)
            λ d. poll (is_lost d.id) item.id polls

abbrev pub from_account : ℕ → MediaItem → Text → Option ℕ → Prog Bool
from_account polls item source_ref none = pure false
from_account polls item source_ref (some account) =
    if is_empty source_ref then pure false else resolve_again polls item account source_ref

abbrev pub from_previous : ℕ → MediaItem → List DebridItem → Prog Bool
from_previous polls item [] = pure false
from_previous polls item (previous ∷ older) =
    from_account polls item previous.source_ref previous.account_id

-- `polls` is how often the deadline or the caller's context lets the loop poll.
unfoldable pub fast_reacquire_from_debrid : Remote → ℕ → MediaItem → Prog Bool
fast_reacquire_from_debrid r polls item = if not r.has_debrid then pure false else do
  listed ← list_by_media_item item.id
  check listed (λ e. pure false) λ previous. from_previous polls item previous

abbrev pub unless_done : ℕ → OnFailure → Bool → Prog (Result (Unit {0}))
unless_done id on_failure true = pure (ok tt)
unless_done id on_failure false = start_acquire id false on_failure

unfoldable pub reacquire_with : Remote → ℕ → ℕ → OnFailure → Prog (Result (Unit {0}))
reacquire_with r polls id on_failure = do
  found ← get_media_item id
  check found (λ e. pure (err e))
      λ item. do done ← fast_reacquire_from_debrid r polls item; unless_done id on_failure done

unfoldable pub reacquire : Remote → ℕ → ℕ → Prog (Result (Unit {0}))
reacquire r polls id = reacquire_with r polls id to_error

unfoldable pub reacquire_soft_fail : Remote → ℕ → ℕ → Prog (Result (Unit {0}))
reacquire_soft_fail r polls id = reacquire_with r polls id to_owned

abbrev pub report : MediaItem → OnFailure → Prog (Unit {0})
report item to_owned = pure tt
report item to_error = notify (acquisition_failed item.id item.title)

-- Both tiers have failed.
abbrev pub exhausted : MediaItem → OnFailure → Error → Error → Prog (Unit {0})
exhausted item on_failure torrent_error nzb_error = do
  fail item.id (combine_acquire_errors torrent_error nzb_error) on_failure
  report item on_failure

abbrev pub errors_of : Tier → Error → Error → MediaItem → OnFailure → Prog (Unit {0})
errors_of torrent_tier first second item on_failure = exhausted item on_failure first second
errors_of nzb_tier first second item on_failure = exhausted item on_failure second first

-- The two receives of the channel, in the order sent, from the two tiers. A success returns; the other
-- tier runs on.
unfoldable pub collect_tiers :
    MediaItem → OnFailure → Tier → Result (Unit {0}) → Result (Unit {0}) → Prog (Unit {0})
collect_tiers item on_failure first_tier first second = do
  pause
  check first
      (λ e. do pause; check second (λ e'. errors_of first_tier e e' item on_failure) λ _. pure tt)
      λ _. pure tt

-- `first_tier`, `first` and `second` are what the tiers' goroutines send.
unfoldable pub run_acquire :
    Remote → MediaItem → OnFailure → Tier → Result (Unit {0}) → Result (Unit {0}) → Prog (Unit {0})
run_acquire r item on_failure first_tier first second = do
  ensure_expected_runtime r item
  built ← build_search_query item
  check built (λ e. fail item.id e on_failure)
      λ query. do
        loaded ← get_quality_profile item.library_id
        check loaded (λ e. fail item.id e on_failure)
            λ profile. do
              spawn (search_tier torrent_tier item query profile)
              spawn (search_tier nzb_tier item query profile)
              collect_tiers item on_failure first_tier first second
