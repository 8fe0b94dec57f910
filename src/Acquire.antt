-- ===== src/Acquire.antt =====
-- Acquisition, backend/internal/acquisition/service.go and monitor.go: the constants and the short
-- operations that the child modules share.
pub mod Search
pub mod Kept
pub mod Entry
pub mod Safety
pub mod Wins
pub mod Raced
pub mod Order
pub mod Losing
pub mod Race
pub mod Tiers
pub mod Tree
pub mod Place
pub mod Start
pub mod Season
pub mod Monitor
use vorn_media_server.Prelude.{
  ℕ, ◌+◌, Bool, true, false, Option, none, some, List, [], ◌∷◌, ◌++◌, Text, codes, keep, is_empty,
  if◌then◌else◌,
}
use vorn_media_server.Prelude.Digits.{itoa, pad2, trim_space}
use vorn_media_server.Store.{
  Kind, movie, series, season, episode, Date, MediaItem, DebridAccount, Status, owned,
}
use vorn_media_server.Store.Prog.{
  Error, Result, ok, err, Prog, ◌>>=◌, ◌>>◌, pure, check, when_some, OnFailure, to_error, to_owned,
  no_enabled_account, missing_numbers, loading_season, no_parent_series, loading_series,
  cannot_acquire, torrent_not_configured, nzb_not_configured, both_tiers,
}
use vorn_media_server.Store.Messages.{message}
use vorn_media_server.Store.Media.{get_media_item, set_acquisition_status, set_acquisition_error}
use vorn_media_server.Store.Debrid.{list_debrid_accounts}

abbrev pub max_candidates : ℕ
max_candidates = 5

abbrev pub race_size : ℕ
race_size = 3

abbrev pub max_nzb_candidates : ℕ
max_nzb_candidates = 2

-- candidateTimeout / outcomePoll, and candidateTimeoutNZB / outcomePoll: the polls before a deadline.
abbrev pub candidate_polls : ℕ
candidate_polls = 240

abbrev pub candidate_polls_nzb : ℕ
candidate_polls_nzb = 2400

abbrev pub enabled_only : List DebridAccount → Result (List DebridAccount)
enabled_only [] = err no_enabled_account
enabled_only (a ∷ as') = ok (a ∷ as')

unfoldable pub list_enabled_debrid_accounts : Prog (Result (List DebridAccount))
list_enabled_debrid_accounts = do
  listed ← list_debrid_accounts
  check listed (λ e. pure (err e)) λ accounts. pure (enabled_only (keep (λ a. a.enabled) accounts))

abbrev pub year_text : Option Date → Text
year_text none = []
year_text (some d) = itoa d.year

abbrev pub series_query : Text → ℕ → ℕ → Text
series_query title s e = title ++ (codes " S" ++ (pad2 s ++ (b'E' ∷ pad2 e)))

abbrev pub episode_query : Option ℕ → Option ℕ → Option ℕ → Prog (Result Text)
episode_query (some parent) (some s) (some e) = do
  found ← get_media_item parent
  check found (λ x. pure (err (loading_season x)))
      λ season_item. when_some season_item.parent_id (pure (err no_parent_series)) λ series_id. do
        got ← get_media_item series_id
        check got (λ x. pure (err (loading_series x)))
            λ series_item. pure (ok (series_query series_item.title s e))
episode_query (some parent) (some s) none = pure (err missing_numbers)
episode_query (some parent) none e = pure (err missing_numbers)
episode_query none s e = pure (err missing_numbers)

abbrev pub query_for : Kind → MediaItem → Prog (Result Text)
query_for movie item = pure (ok (trim_space (item.title ++ (b' ' ∷ year_text item.release_date))))
query_for episode item = episode_query item.parent_id item.season_number item.episode_number
query_for kind item = pure (err (cannot_acquire kind))

unfoldable pub build_search_query : MediaItem → Prog (Result Text)
build_search_query item = query_for item.kind item

unfoldable pub fail : ℕ → Error → OnFailure → Prog (Unit {0})
fail id e to_owned = do set_acquisition_status id owned; pure tt
fail id e to_error = do set_acquisition_error id (message e); pure tt

-- errors.Is finds the sentinel; no caller wraps it.
unfoldable pub combine_acquire_errors : Error → Error → Error
combine_acquire_errors torrent_not_configured nzb_error = nzb_error
combine_acquire_errors torrent_error nzb_not_configured = torrent_error
combine_acquire_errors torrent_error nzb_error = both_tiers torrent_error nzb_error
