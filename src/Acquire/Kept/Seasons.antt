-- ===== src/Acquire/Kept/Seasons.antt =====
-- Season packs and content requests keep what is closed under the store.
use vorn_media_server.Prelude.{
  ℕ, Bool, true, false, Option, none, some, List, [], ◌∷◌, if◌then◌else◌,
}
use vorn_media_server.Store.{
  Kind, movie, series, season, episode, Shared, MediaItem, DebridAccount, Library,
}
use vorn_media_server.Store.Prog.{Result, World, pure, ◌>>=◌, check}
use vorn_media_server.Store.Keeps.{Keeps, keeps_rules, Calm, bind-Keeps}
use vorn_media_server.Store.Closed.{Closed}
use vorn_media_server.Remote.{Remote}
use vorn_media_server.Store.Closed.Tables.{
  create_fulfillment-Keeps, get_media_item-Keeps, get_quality_profile-Keeps, list_children-Keeps,
  list_default_request_targets-Keeps, set_active_debrid_item-Keeps, set_active_nzb_download-Keeps,
  set_monitored-Keeps,
}
use vorn_media_server.Acquire.Kept.Searches.{list_enabled_debrid_accounts-Keeps}
use vorn_media_server.Acquire.Kept.Races.{race_torrent_candidates-Keeps}
use vorn_media_server.Acquire.Kept.RacesNzb.{race_nzb_candidates-Keeps}
use vorn_media_server.Acquire.Kept.Places.{
  ensure_expected_runtime-Keeps, materialize_placeholder-Keeps,
}
use vorn_media_server.Acquire.Kept.Starts.{acquire-Keeps}
use vorn_media_server.Store.{artist, album, track, audiobook, book, chapter}
use vorn_media_server.Quality.{ScoredRelease, ScoredNzbRelease}
use vorn_media_server.Acquire.Race.{race_torrent_candidates}
use vorn_media_server.Acquire.Start.{acquire}
use vorn_media_server.Acquire.Season.{
  announce, race_packs, try_season_pack_via_torrent, race_nzb_packs, try_season_pack_via_nzb,
  or_nzb, try_acquire_season_pack, is_wanted, acquire_episodes, fall_back, acquire_pack,
  acquire_season_pack, start_request, fulfill_into, fulfill_all, fulfill_request,
}

module _ {P : Shared → Type 0} (c : Closed P) where
  announce-Keeps : (m s : MediaItem) (n : ℕ) (b : Bool) → Keeps P (announce m s n b)
  announce-Keeps m s n false = record { at = λ w h. h }
  announce-Keeps m s n true = search keeps_rules depth 20

  race_listed-Keeps :
      (r : Remote) (m s : MediaItem) (n : ℕ) (o : Result (List DebridAccount))
      (rs : List ScoredRelease)
      → Keeps P (
          check o
            (λ e. pure false)
            λ as'. race_torrent_candidates r m as' rs >>= λ won. announce m s n won)
  race_listed-Keeps r m s n o rs =
      search (keeps_rules, race_torrent_candidates-Keeps c, announce-Keeps) depth 20

  race_packs-Keeps :
      (r : Remote) (m s : MediaItem) (n : ℕ) (rs : List ScoredRelease)
      → Keeps P (race_packs r m s n rs)
  race_packs-Keeps r m s n [] = record { at = λ w h. h }
  race_packs-Keeps r m s n (x ∷ rs) =
      bind-Keeps (list_enabled_debrid_accounts-Keeps c) (λ o. race_listed-Keeps r m s n o (x ∷ rs))

  try_season_pack_via_torrent-Keeps :
      (r : Remote) (m s : MediaItem) (n : ℕ) → Keeps P (try_season_pack_via_torrent r m s n)
  unfolding try_season_pack_via_torrent
  try_season_pack_via_torrent-Keeps r m s n =
      search (keeps_rules, race_packs-Keeps, get_quality_profile-Keeps c) depth 20

  race_nzb_packs-Keeps :
      (r : Remote) (m s : MediaItem) (n : ℕ) (rs : List ScoredNzbRelease)
      → Keeps P (race_nzb_packs r m s n rs)
  race_nzb_packs-Keeps r m s n [] = record { at = λ w h. h }
  race_nzb_packs-Keeps r m s n (x ∷ rs) =
      search (keeps_rules, race_nzb_candidates-Keeps c, announce-Keeps) depth 20

  try_season_pack_via_nzb-Keeps :
      (r : Remote) (m s : MediaItem) (n : ℕ) → Keeps P (try_season_pack_via_nzb r m s n)
  unfolding try_season_pack_via_nzb
  try_season_pack_via_nzb-Keeps r m s n =
      search (keeps_rules, race_nzb_packs-Keeps, get_quality_profile-Keeps c) depth 20

  or_nzb-Keeps : (r : Remote) (m s : MediaItem) (n : ℕ) (b : Bool) → Keeps P (or_nzb r m s n b)
  or_nzb-Keeps r m s n true = record { at = λ w h. h }
  or_nzb-Keeps r m s n false = record { at = (try_season_pack_via_nzb-Keeps r m s n).at }

  pub try_acquire_season_pack-Keeps :
      (r : Remote) (m s : MediaItem) (n : ℕ) → Keeps P (try_acquire_season_pack r m s n)
  unfolding try_acquire_season_pack
  try_acquire_season_pack-Keeps r m s n =
      search (keeps_rules, try_season_pack_via_torrent-Keeps, or_nzb-Keeps) depth 20

  one_episode-Calm :
      (b : Bool) (id : ℕ) (w : World) → Calm P w → Calm P (if b then (acquire id w).1 else w)
  one_episode-Calm true id w h = (acquire-Keeps c id).at w h
  one_episode-Calm false id w h = h

  acquire_episodes-Keeps : (ms : List MediaItem) → Keeps P (acquire_episodes ms)
  unfolding acquire_episodes
  acquire_episodes-Keeps [] = record { at = λ w h. h }
  acquire_episodes-Keeps (m ∷ ms) = record {
    at = λ w h.
        (acquire_episodes-Keeps ms).at _
          (one_episode-Calm (is_wanted m.acquisition_status) m.id w h);
  }

  fall_back-Keeps : (id : ℕ) (b : Bool) → Keeps P (fall_back id b)
  fall_back-Keeps id true = record { at = λ w h. h }
  fall_back-Keeps id false =
      search
        (
          keeps_rules,
          set_active_debrid_item-Keeps c,
          set_active_nzb_download-Keeps c,
          list_children-Keeps c,
          acquire_episodes-Keeps,
        )
        depth 20

  acquire_pack-Keeps :
      (r : Remote) (m : MediaItem) (p n : Option ℕ) → Keeps P (acquire_pack r m p n)
  acquire_pack-Keeps r m none n = record { at = λ w h. h }
  acquire_pack-Keeps r m (some p) none = record { at = λ w h. h }
  acquire_pack-Keeps r m (some p) (some n) =
      search
        (
          keeps_rules,
          get_media_item-Keeps c,
          ensure_expected_runtime-Keeps c,
          try_acquire_season_pack-Keeps,
          fall_back-Keeps,
        )
        depth 20

  pub acquire_season_pack-Keeps : (r : Remote) (id : ℕ) → Keeps P (acquire_season_pack r id)
  unfolding acquire_season_pack
  acquire_season_pack-Keeps r id =
      search (keeps_rules, acquire_pack-Keeps, get_media_item-Keeps c) depth 20

  start_request-Keeps : (k : Kind) (id : ℕ) → Keeps P (start_request k id)
  start_request-Keeps movie id = search (keeps_rules, acquire-Keeps c) depth 20
  start_request-Keeps series id = search (keeps_rules, set_monitored-Keeps c) depth 20
  start_request-Keeps season id = record { at = λ w h. h }
  start_request-Keeps episode id = record { at = λ w h. h }
  start_request-Keeps artist id = record { at = λ w h. h }
  start_request-Keeps album id = record { at = λ w h. h }
  start_request-Keeps track id = record { at = λ w h. h }
  start_request-Keeps audiobook id = record { at = λ w h. h }
  start_request-Keeps book id = record { at = λ w h. h }
  start_request-Keeps chapter id = record { at = λ w h. h }

  pub fulfill_into-Keeps :
      (r : Remote) (q : ℕ) (k : Kind) (tmdb : ℕ) (l : Library) → Keeps P (fulfill_into r q k tmdb l)
  unfolding fulfill_into
  fulfill_into-Keeps r q k tmdb l =
      search
        (
          keeps_rules,
          start_request-Keeps,
          materialize_placeholder-Keeps c,
          create_fulfillment-Keeps c,
        )
        depth 20

  fulfill_all-Keeps :
      (r : Remote) (q : ℕ) (k : Kind) (tmdb : ℕ) (ls : List Library)
      → Keeps P (fulfill_all r q k tmdb ls)
  unfolding fulfill_all
  fulfill_all-Keeps r q k tmdb [] = record { at = λ w h. h }
  fulfill_all-Keeps r q k tmdb (l ∷ ls) = record {
    at = λ w h. (fulfill_all-Keeps r q k tmdb ls).at _ ((fulfill_into-Keeps r q k tmdb l).at w h);
  }

  pub fulfill_request-Keeps :
      (r : Remote) (q : ℕ) (k : Kind) (tmdb : ℕ) → Keeps P (fulfill_request r q k tmdb)
  unfolding fulfill_request
  fulfill_request-Keeps r q k tmdb =
      search (keeps_rules, fulfill_all-Keeps, list_default_request_targets-Keeps c) depth 20
