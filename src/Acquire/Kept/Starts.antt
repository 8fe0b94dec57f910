-- ===== src/Acquire/Kept/Starts.antt =====
-- Starting an acquisition and trying again keep what is closed under the store.
use vorn_media_server.Prelude.{ℕ, Bool, true, false, Option, none, some, List, [], ◌∷◌, Text}
use vorn_media_server.Store.{Shared, MediaItem, DebridItem}
use vorn_media_server.Store.Prog.{
  Error, Result, ok, err, OnFailure, to_error, to_owned, Tier, torrent_tier, nzb_tier,
}
use vorn_media_server.Store.Keeps.{Keeps, keeps_rules, notify-Keeps}
use vorn_media_server.Store.Closed.{Closed}
use vorn_media_server.Remote.{Remote}
use vorn_media_server.Store.Closed.Tables.{
  find_webdav_path_for_item-Keeps, find_webdav_path_from_nzb-Keeps, get_debrid_item-Keeps,
  get_media_item-Keeps, get_quality_profile-Keeps, list_by_media_item-Keeps,
  set_acquisition_error-Keeps, set_acquisition_status-Keeps, set_active_debrid_item-Keeps,
  set_media_item_path-Keeps,
}
use vorn_media_server.Acquire.Kept.Resolves.{add_link-Keeps}
use vorn_media_server.Acquire.Kept.Searches.{build_search_query-Keeps, fail-Keeps}
use vorn_media_server.Acquire.Kept.Races.{poll-Keeps}
use vorn_media_server.Acquire.Kept.Places.{ensure_expected_runtime-Keeps}
use vorn_media_server.Store.Prog.{acquisition_failed}
use vorn_media_server.Acquire.Start.{
  use_path, start_search, try_nzb_path, begin_search, start_acquire, acquire, is_lost,
  resolve_again, from_account, from_previous, fast_reacquire_from_debrid, unless_done,
  reacquire_with, reacquire_soft_fail, report, exhausted, errors_of, collect_tiers, run_acquire,
}

module _ {P : Shared → Type 0} (c : Closed P) where
  use_path-Keeps : (id : ℕ) (o : Result Text) → Keeps P (use_path id o)
  use_path-Keeps id (err e) = record { at = λ w h. h }
  use_path-Keeps id (ok path) = search (keeps_rules, set_media_item_path-Keeps c) depth 20

  start_search-Keeps : (m : MediaItem) (f : OnFailure) (b : Bool) → Keeps P (start_search m f b)
  start_search-Keeps m f true = record { at = λ w h. h }
  start_search-Keeps m f false = search keeps_rules depth 20

  try_nzb_path-Keeps : (m : MediaItem) (b : Bool) → Keeps P (try_nzb_path m b)
  try_nzb_path-Keeps m true = record { at = λ w h. h }
  try_nzb_path-Keeps m false =
      search (keeps_rules, find_webdav_path_from_nzb-Keeps c, use_path-Keeps) depth 20

  begin_search-Keeps : (m : MediaItem) (f : OnFailure) → Keeps P (begin_search m f)
  begin_search-Keeps m f =
      search
        (
          keeps_rules,
          set_acquisition_status-Keeps c,
          find_webdav_path_for_item-Keeps c,
          use_path-Keeps,
          try_nzb_path-Keeps,
          start_search-Keeps,
        )
        depth 20

  pub start_acquire-Keeps : (id : ℕ) (b : Bool) (f : OnFailure) → Keeps P (start_acquire id b f)
  unfolding start_acquire
  start_acquire-Keeps id b f =
      search (keeps_rules, begin_search-Keeps, get_media_item-Keeps c) depth 20

  pub acquire-Keeps : (id : ℕ) → Keeps P (acquire id)
  unfolding acquire
  acquire-Keeps id = record { at = (start_acquire-Keeps id true to_error).at }

  pub is_lost-Keeps : (id : ℕ) → Keeps P (is_lost id)
  unfolding is_lost
  is_lost-Keeps id = search (keeps_rules, get_debrid_item-Keeps c) depth 20

  resolve_again-Keeps :
      (n : ℕ) (m : MediaItem) (a : ℕ) (ref : Text) → Keeps P (resolve_again n m a ref)
  resolve_again-Keeps n m a ref =
      search
        (
          keeps_rules,
          set_acquisition_status-Keeps c,
          set_active_debrid_item-Keeps c,
          add_link-Keeps c,
          set_acquisition_error-Keeps c,
          poll-Keeps c,
          is_lost-Keeps,
        )
        depth 20

  from_account-Keeps :
      (n : ℕ) (m : MediaItem) (ref : Text) (o : Option ℕ) → Keeps P (from_account n m ref o)
  from_account-Keeps n m ref none = record { at = λ w h. h }
  from_account-Keeps n m ref (some a) = search (keeps_rules, resolve_again-Keeps) depth 20

  from_previous-Keeps :
      (n : ℕ) (m : MediaItem) (ds : List DebridItem) → Keeps P (from_previous n m ds)
  from_previous-Keeps n m [] = record { at = λ w h. h }
  from_previous-Keeps n m (d ∷ ds) = record {
    at = (from_account-Keeps n m d.source_ref d.account_id).at;
  }

  pub fast_reacquire_from_debrid-Keeps :
      (r : Remote) (n : ℕ) (m : MediaItem) → Keeps P (fast_reacquire_from_debrid r n m)
  unfolding fast_reacquire_from_debrid
  fast_reacquire_from_debrid-Keeps r n m =
      search (keeps_rules, from_previous-Keeps, list_by_media_item-Keeps c) depth 20

  unless_done-Keeps : (id : ℕ) (f : OnFailure) (b : Bool) → Keeps P (unless_done id f b)
  unless_done-Keeps id f true = record { at = λ w h. h }
  unless_done-Keeps id f false = record { at = (start_acquire-Keeps id false f).at }

  pub reacquire_with-Keeps :
      (r : Remote) (n id : ℕ) (f : OnFailure) → Keeps P (reacquire_with r n id f)
  unfolding reacquire_with
  reacquire_with-Keeps r n id f =
      search
        (keeps_rules, fast_reacquire_from_debrid-Keeps, unless_done-Keeps, get_media_item-Keeps c)
        depth 20

  pub reacquire_soft_fail-Keeps : (r : Remote) (n id : ℕ) → Keeps P (reacquire_soft_fail r n id)
  unfolding reacquire_soft_fail
  reacquire_soft_fail-Keeps r n id = record { at = (reacquire_with-Keeps r n id to_owned).at }

  report-Keeps : (m : MediaItem) (f : OnFailure) → Keeps P (report m f)
  report-Keeps m to_owned = record { at = λ w h. h }
  report-Keeps m to_error = record { at = (notify-Keeps (acquisition_failed m.id m.title)).at }

  exhausted-Keeps : (m : MediaItem) (f : OnFailure) (t n : Error) → Keeps P (exhausted m f t n)
  exhausted-Keeps m f t n = search (keeps_rules, fail-Keeps c, report-Keeps) depth 20

  errors_of-Keeps :
      (t : Tier) (x y : Error) (m : MediaItem) (f : OnFailure) → Keeps P (errors_of t x y m f)
  errors_of-Keeps torrent_tier x y m f = record { at = (exhausted-Keeps m f x y).at }
  errors_of-Keeps nzb_tier x y m f = record { at = (exhausted-Keeps m f y x).at }

  pub collect_tiers-Keeps :
      (m : MediaItem) (f : OnFailure) (t : Tier) (x y : Result (Unit {0}))
      → Keeps P (collect_tiers m f t x y)
  unfolding collect_tiers
  collect_tiers-Keeps m f t x y = search (keeps_rules, errors_of-Keeps) depth 20

  pub run_acquire-Keeps :
      (r : Remote) (m : MediaItem) (f : OnFailure) (t : Tier) (x y : Result (Unit {0}))
      → Keeps P (run_acquire r m f t x y)
  unfolding run_acquire
  run_acquire-Keeps r m f t x y =
      search
        (
          keeps_rules,
          collect_tiers-Keeps,
          ensure_expected_runtime-Keeps c,
          build_search_query-Keeps c,
          fail-Keeps c,
          get_quality_profile-Keeps c,
        )
        depth 20
