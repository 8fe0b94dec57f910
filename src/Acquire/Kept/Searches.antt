-- ===== src/Acquire/Kept/Searches.antt =====
-- What a race starts from keeps what is closed under the store.
use vorn_media_server.Prelude.{ℕ, Option, none, some, List, [], ◌∷◌, Text}
use vorn_media_server.Store.{Kind, movie, series, season, episode, Shared, MediaItem, DebridAccount}
use vorn_media_server.Store.Prog.{Error, OnFailure, to_error, to_owned}
use vorn_media_server.Store.Keeps.{Keeps, keeps_rules}
use vorn_media_server.Store.Closed.{Closed}
use vorn_media_server.Remote.{Remote}
use vorn_media_server.Store.Closed.Tables.{
  get_debrid_item-Keeps, get_media_item-Keeps, get_nzb_download-Keeps, list_debrid_accounts-Keeps,
  set_acquisition_error-Keeps, set_acquisition_status-Keeps,
}
use vorn_media_server.Acquire.Kept.Resolves.{check_cached-Keeps}
use vorn_media_server.Store.{artist, album, track, audiobook, book, chapter}
use vorn_media_server.Quality.{ScoredRelease}
use vorn_media_server.Select.{hashes_to_check}
use vorn_media_server.Acquire.{
  list_enabled_debrid_accounts, episode_query, query_for, build_search_query, fail,
}
use vorn_media_server.Acquire.Search.{
  ask_about, prioritize_cached, ids_of_parents, ids_for, resolve_imdb_search_params,
  winning_debrid_item, winning_nzb_download,
}

module _ {P : Shared → Type 0} (c : Closed P) where
  pub list_enabled_debrid_accounts-Keeps : Keeps P (list_enabled_debrid_accounts)
  unfolding list_enabled_debrid_accounts
  list_enabled_debrid_accounts-Keeps = search (keeps_rules, list_debrid_accounts-Keeps c) depth 20

  episode_query-Keeps : (p s e : Option ℕ) → Keeps P (episode_query p s e)
  episode_query-Keeps (some p) (some s) (some e) =
      search (keeps_rules, get_media_item-Keeps c) depth 20
  episode_query-Keeps (some p) (some s) none = record { at = λ w h. h }
  episode_query-Keeps (some p) none e = record { at = λ w h. h }
  episode_query-Keeps none s e = record { at = λ w h. h }

  query_for-Keeps : (k : Kind) (m : MediaItem) → Keeps P (query_for k m)
  query_for-Keeps movie m = record { at = λ w h. h }
  query_for-Keeps series m = record { at = λ w h. h }
  query_for-Keeps season m = record { at = λ w h. h }
  query_for-Keeps episode m = record {
    at = (episode_query-Keeps m.parent_id m.season_number m.episode_number).at;
  }
  query_for-Keeps artist m = record { at = λ w h. h }
  query_for-Keeps album m = record { at = λ w h. h }
  query_for-Keeps track m = record { at = λ w h. h }
  query_for-Keeps audiobook m = record { at = λ w h. h }
  query_for-Keeps book m = record { at = λ w h. h }
  query_for-Keeps chapter m = record { at = λ w h. h }

  pub build_search_query-Keeps : (m : MediaItem) → Keeps P (build_search_query m)
  unfolding build_search_query
  build_search_query-Keeps m = record { at = (query_for-Keeps m.kind m).at }

  pub fail-Keeps : (id : ℕ) (e : Error) (f : OnFailure) → Keeps P (fail id e f)
  unfolding fail
  fail-Keeps id e to_owned = search (keeps_rules, set_acquisition_status-Keeps c) depth 20
  fail-Keeps id e to_error = search (keeps_rules, set_acquisition_error-Keeps c) depth 20

  ask_about-Keeps :
      (r : Remote) (id : ℕ) (hs : List Text) (rs : List ScoredRelease)
      → Keeps P (ask_about r id hs rs)
  ask_about-Keeps r id [] rs = record { at = λ w h. h }
  ask_about-Keeps r id (x ∷ hs) rs = search (keeps_rules, check_cached-Keeps c) depth 20

  pub prioritize_cached-Keeps :
      (r : Remote) (a : DebridAccount) (rs : List ScoredRelease)
      → Keeps P (prioritize_cached r a rs)
  unfolding prioritize_cached
  prioritize_cached-Keeps r a rs = record {
    at = (ask_about-Keeps r a.id (hashes_to_check rs) rs).at;
  }

  ids_of_parents-Keeps : (m : MediaItem) (o : Option ℕ) → Keeps P (ids_of_parents m o)
  ids_of_parents-Keeps m none = record { at = λ w h. h }
  ids_of_parents-Keeps m (some p) = search (keeps_rules, get_media_item-Keeps c) depth 20

  ids_for-Keeps : (k : Kind) (m : MediaItem) → Keeps P (ids_for k m)
  ids_for-Keeps movie m = record { at = λ w h. h }
  ids_for-Keeps series m = record { at = λ w h. h }
  ids_for-Keeps season m = record { at = λ w h. h }
  ids_for-Keeps episode m = record { at = (ids_of_parents-Keeps m m.parent_id).at }
  ids_for-Keeps artist m = record { at = λ w h. h }
  ids_for-Keeps album m = record { at = λ w h. h }
  ids_for-Keeps track m = record { at = λ w h. h }
  ids_for-Keeps audiobook m = record { at = λ w h. h }
  ids_for-Keeps book m = record { at = λ w h. h }
  ids_for-Keeps chapter m = record { at = λ w h. h }

  pub resolve_imdb_search_params-Keeps : (m : MediaItem) → Keeps P (resolve_imdb_search_params m)
  unfolding resolve_imdb_search_params
  resolve_imdb_search_params-Keeps m = record { at = (ids_for-Keeps m.kind m).at }

  pub winning_debrid_item-Keeps : (id : ℕ) → Keeps P (winning_debrid_item id)
  unfolding winning_debrid_item
  winning_debrid_item-Keeps id =
      search (keeps_rules, get_media_item-Keeps c, get_debrid_item-Keeps c) depth 20

  pub winning_nzb_download-Keeps : (id : ℕ) → Keeps P (winning_nzb_download id)
  unfolding winning_nzb_download
  winning_nzb_download-Keeps id =
      search (keeps_rules, get_media_item-Keeps c, get_nzb_download-Keeps c) depth 20
