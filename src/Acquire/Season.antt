-- ===== src/Acquire/Season.antt =====
-- Season packs and content requests, backend/internal/acquisition/service.go.
use vorn_media_server.Prelude.{
  ℕ, Bool, true, false, not, ◌&&◌, Option, none, some, List, [], ◌∷◌, ◌++◌, Text, codes, take, keep,
  if◌then◌else◌,
}
use vorn_media_server.Prelude.Digits.{itoa, pad2}
use vorn_media_server.Quality.{
  SearchResult, NzbResult, ScoredRelease, ScoredNzbRelease, score_and_rank, score_and_rank_nzb,
}
use vorn_media_server.Filename.{looks_like_single_episode}
use vorn_media_server.Store.{Kind, movie, series, MediaItem, Status, placeholder, error, Library}
use vorn_media_server.Store.Prog.{
  Result, ok, err, Prog, ◌>>=◌, ◌>>◌, pure, check, notify, season_acquired, not_a_season, loading,
  listing_episodes,
}
use vorn_media_server.Store.Media.{
  get_media_item, is_null, set_active_debrid_item, set_active_nzb_download, set_monitored,
}
use vorn_media_server.Store.Find.{list_children}
use vorn_media_server.Store.Lookups.{
  get_quality_profile, list_default_request_targets, create_fulfillment,
}
use vorn_media_server.Remote.{Remote}
use vorn_media_server.Resolve.{is_season}
use vorn_media_server.Acquire.{max_candidates, list_enabled_debrid_accounts}
use vorn_media_server.Acquire.Search.{or_nothing, text_or_empty, number_text}
use vorn_media_server.Acquire.Race.{race_torrent_candidates, race_nzb_candidates}
use vorn_media_server.Acquire.Place.{ensure_expected_runtime, materialize_placeholder}
use vorn_media_server.Acquire.Start.{acquire}

abbrev pub season_query : Text → ℕ → Text
season_query title n = title ++ (codes " S" ++ pad2 n)

abbrev pub pack_title : MediaItem → ℕ → Text
pack_title m n = m.title ++ (codes " Season " ++ itoa n)

-- A search by the series' ids, where it has one; an empty id counts as one here.
abbrev pub add_pack_ids {ℓ} :
    {A : Type ℓ} → (Text → Text → ℕ → ℕ → Result (List A)) → MediaItem → ℕ → List A → List A
add_pack_ids search m n candidates =
    if is_null m.imdb_id && is_null m.tvdb_id
    then candidates
    else candidates ++ or_nothing (search (text_or_empty m.imdb_id) (number_text m.tvdb_id) n 0)

unfoldable pub torrent_packs : List SearchResult → List SearchResult
torrent_packs candidates = keep (λ c. not (looks_like_single_episode c.title)) candidates

unfoldable pub nzb_packs : List NzbResult → List NzbResult
nzb_packs candidates = keep (λ c. not (looks_like_single_episode c.title)) candidates

abbrev pub announce : MediaItem → MediaItem → ℕ → Bool → Prog Bool
announce season_item series_item n false = pure false
announce season_item series_item n true = do
  notify (season_acquired season_item.id (pack_title series_item n))
  pure true

abbrev pub race_packs : Remote → MediaItem → MediaItem → ℕ → List ScoredRelease → Prog Bool
race_packs r season_item series_item n [] = pure false
race_packs r season_item series_item n (best ∷ ranked) = do
  listed ← list_enabled_debrid_accounts
  check listed (λ e. pure false)
      λ accounts. do
        won ← race_torrent_candidates r season_item accounts (best ∷ ranked)
        announce season_item series_item n won

unfoldable pub try_season_pack_via_torrent : Remote → MediaItem → MediaItem → ℕ → Prog Bool
try_season_pack_via_torrent r season_item series_item n =
    if not r.has_torrent
    then pure false
    else check (r.torrent_search (season_query series_item.title n)) (λ e. pure false)
        λ found. do
          loaded ← get_quality_profile season_item.library_id
          check loaded (λ e. pure false)
              λ profile. race_packs r season_item series_item n (
                take max_candidates (
                  score_and_rank (torrent_packs (add_pack_ids r.torrent_by_id series_item n found))
                    profile))

abbrev pub race_nzb_packs : Remote → MediaItem → MediaItem → ℕ → List ScoredNzbRelease → Prog Bool
race_nzb_packs r season_item series_item n [] = pure false
race_nzb_packs r season_item series_item n (best ∷ ranked) = do
  won ← race_nzb_candidates r season_item (best ∷ ranked)
  announce season_item series_item n won

unfoldable pub try_season_pack_via_nzb : Remote → MediaItem → MediaItem → ℕ → Prog Bool
try_season_pack_via_nzb r season_item series_item n =
    if not r.has_nzb
    then pure false
    else check (r.nzb_search (season_query series_item.title n)) (λ e. pure false)
        λ found. do
          loaded ← get_quality_profile season_item.library_id
          check loaded (λ e. pure false)
              λ profile. race_nzb_packs r season_item series_item n (
                score_and_rank_nzb (nzb_packs (add_pack_ids r.nzb_by_id series_item n found))
                  profile)

abbrev pub or_nzb : Remote → MediaItem → MediaItem → ℕ → Bool → Prog Bool
or_nzb r season_item series_item n true = pure true
or_nzb r season_item series_item n false = try_season_pack_via_nzb r season_item series_item n

unfoldable pub try_acquire_season_pack : Remote → MediaItem → MediaItem → ℕ → Prog Bool
try_acquire_season_pack r season_item series_item n = do
  won ← try_season_pack_via_torrent r season_item series_item n
  or_nzb r season_item series_item n won

-- A status from which an acquisition starts on its own.
abbrev pub is_wanted : Status → Bool
is_wanted placeholder = true
is_wanted error = true
is_wanted _ = false

-- The fallback loop; an error is logged.
unfoldable pub acquire_episodes : List MediaItem → Prog (Unit {0})
acquire_episodes [] w = (tt, w)
acquire_episodes (m ∷ ms) w =
    acquire_episodes ms (if is_wanted m.acquisition_status then (acquire m.id w).1 else w)

abbrev pub fall_back : ℕ → Bool → Prog (Result (Unit {0}))
fall_back id true = pure (ok tt)
fall_back id false = do
  set_active_debrid_item id none
  set_active_nzb_download id none
  listed ← list_children id
  check listed (λ e. pure (err (listing_episodes e)))
      λ episodes. do acquire_episodes episodes; pure (ok tt)

abbrev pub acquire_pack : Remote → MediaItem → Option ℕ → Option ℕ → Prog (Result (Unit {0}))
acquire_pack r season_item none n = pure (err not_a_season)
acquire_pack r season_item (some parent) none = pure (err not_a_season)
acquire_pack r season_item (some parent) (some n) = do
  found ← get_media_item parent
  check found (λ e. pure (err (loading e)))
      λ series_item. do
        ensure_expected_runtime r season_item
        won ← try_acquire_season_pack r season_item series_item n
        fall_back season_item.id won

unfoldable pub acquire_season_pack : Remote → ℕ → Prog (Result (Unit {0}))
unfolding acquire_episodes
acquire_season_pack r id = do
  found ← get_media_item id
  check found (λ e. pure (err e))
      λ m.
        if is_season m.kind
        then acquire_pack r m m.parent_id m.season_number
        else pure (err not_a_season)

abbrev pub start_request : Kind → ℕ → Prog (Unit {0})
start_request movie id = do acquire id; pure tt
start_request series id = do set_monitored id true; pure tt
start_request kind id = pure tt

-- The body of FulfillRequest's loop; the fulfillment's own error is logged.
unfoldable pub fulfill_into : Remote → ℕ → Kind → ℕ → Library → Prog (Unit {0})
fulfill_into r request kind tmdb l = do
  placed ← materialize_placeholder r l.id tmdb kind
  check placed (λ e. pure tt) λ m. do create_fulfillment request l.id m.id; start_request kind m.id

unfoldable pub fulfill_all : Remote → ℕ → Kind → ℕ → List Library → Prog (Unit {0})
fulfill_all r request kind tmdb [] w = (tt, w)
fulfill_all r request kind tmdb (l ∷ ls) w =
    fulfill_all r request kind tmdb ls (fulfill_into r request kind tmdb l w).1

unfoldable pub fulfill_request : Remote → ℕ → Kind → ℕ → Prog (Unit {0})
unfolding fulfill_all
fulfill_request r request kind tmdb = do
  listed ← list_default_request_targets kind
  check listed (λ e. pure tt) λ targets. fulfill_all r request kind tmdb targets
