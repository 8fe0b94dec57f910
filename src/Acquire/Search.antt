-- ===== src/Acquire/Search.antt =====
-- What a race starts from, backend/internal/acquisition/service.go: the releases that a provider has
-- cached go first, and a search by IMDb or TVDB id adds to the search by title.
use vorn_media_server.Prelude.{
  ℕ, ◌&&◌, Option, none, some, List, [], ◌∷◌, ◌++◌, Text, is_empty, map, if◌then◌else◌,
}
use vorn_media_server.Prelude.Digits.{itoa}
use vorn_media_server.Quality.{ScoredRelease, ScoredNzbRelease}
use vorn_media_server.Select.{
  contains, dedupe, magnet_hash, release_url, nzb_release_url, hashes_to_check, cached_first,
}
use vorn_media_server.Store.{
  Kind, movie, episode, MediaItem, DebridAccount, DebridItem, NzbDownload,
}
use vorn_media_server.Store.Prog.{Result, ok, err, Prog, ◌>>=◌, pure, check, when_some}
use vorn_media_server.Store.Media.{get_media_item}
use vorn_media_server.Store.Find.{number_or_0}
use vorn_media_server.Store.Debrid.{get_debrid_item}
use vorn_media_server.Store.Nzb.{get_nzb_download}
use vorn_media_server.Remote.{Remote}
use vorn_media_server.Resolve.{check_cached}

-- The map that a cache check returns is the list of the keys it has.
abbrev pub by_hashes : List Text → List ScoredRelease → List ScoredRelease
by_hashes [] ranked = ranked
by_hashes (h ∷ hs) ranked =
    cached_first (λ c. contains (h ∷ hs) (magnet_hash (release_url c))) ranked

abbrev pub ask_about : Remote → ℕ → List Text → List ScoredRelease → Prog (List ScoredRelease)
ask_about r account [] ranked = pure ranked
ask_about r account (h ∷ hs) ranked = do
  answered ← check_cached r account (h ∷ hs)
  check answered (λ e. pure ranked) λ cached. pure (by_hashes cached ranked)

unfoldable pub prioritize_cached :
    Remote → DebridAccount → List ScoredRelease → Prog (List ScoredRelease)
prioritize_cached r account ranked = ask_about r account.id (hashes_to_check ranked) ranked

abbrev pub by_urls : Result (List Text) → List ScoredNzbRelease → List ScoredNzbRelease
by_urls (err e) ranked = ranked
by_urls (ok []) ranked = ranked
by_urls (ok (u ∷ us)) ranked = cached_first (λ c. contains (u ∷ us) (nzb_release_url c)) ranked

-- Without the network's time this touches no shared state.
unfoldable pub prioritize_cached_nzb : Remote → List ScoredNzbRelease → List ScoredNzbRelease
prioritize_cached_nzb r ranked =
    by_urls (r.cached_urls (dedupe (λ u. u) (map nzb_release_url ranked))) ranked

-- The ids of resolveImdbSearchParams; "" and 0 where there is none.
pub record SearchIds : Type 0 where
  pub imdb_id : Text
  pub tvdb_id : Text
  pub season : ℕ
  pub episode : ℕ

abbrev pub no_ids : SearchIds
no_ids = record { imdb_id = []; tvdb_id = []; season = 0; episode = 0 }

abbrev pub text_or_empty : Option Text → Text
text_or_empty none = []
text_or_empty (some t) = t

abbrev pub number_text : Option ℕ → Text
number_text none = []
number_text (some n) = itoa n

abbrev pub series_ids : MediaItem → ℕ → ℕ → SearchIds
series_ids m s e = record {
  imdb_id = text_or_empty m.imdb_id;
  tvdb_id = number_text m.tvdb_id;
  season = s;
  episode = e;
}

abbrev pub ids_of_parents : MediaItem → Option ℕ → Prog SearchIds
ids_of_parents item none = pure no_ids
ids_of_parents item (some parent) = do
  found ← get_media_item parent
  check found (λ e. pure no_ids)
      λ season_item. when_some season_item.parent_id (pure no_ids) λ series_id. do
        got ← get_media_item series_id
        check got (λ e. pure no_ids)
            λ m.
              pure (series_ids m (number_or_0 item.season_number) (number_or_0 item.episode_number))

abbrev pub ids_for : Kind → MediaItem → Prog SearchIds
ids_for movie item =
    pure (record { imdb_id = text_or_empty item.imdb_id; tvdb_id = []; season = 0; episode = 0 })
ids_for episode item = ids_of_parents item item.parent_id
ids_for kind item = pure no_ids

unfoldable pub resolve_imdb_search_params : MediaItem → Prog SearchIds
resolve_imdb_search_params item = ids_for item.kind item

abbrev pub or_nothing {ℓ} : {A : Type ℓ} → Result (List A) → List A
or_nothing (ok xs) = xs
or_nothing (err e) = []

-- An id search that fails is logged and adds nothing.
abbrev pub add_by_id {ℓ} :
    {A : Type ℓ} → (Text → Text → ℕ → ℕ → Result (List A)) → SearchIds → List A → List A
add_by_id search ids candidates =
    if is_empty ids.imdb_id && is_empty ids.tvdb_id
    then candidates
    else candidates ++ or_nothing (search ids.imdb_id ids.tvdb_id ids.season ids.episode)

unfoldable pub winning_debrid_item : ℕ → Prog (Result (Option DebridItem))
winning_debrid_item id = do
  found ← get_media_item id
  check found (λ e. pure (err e))
      λ m. when_some m.active_debrid_item_id (pure (ok none)) λ active. do
        got ← get_debrid_item active
        check got (λ e. pure (err e)) λ d. pure (ok (some d))

unfoldable pub winning_nzb_download : ℕ → Prog (Result (Option NzbDownload))
winning_nzb_download id = do
  found ← get_media_item id
  check found (λ e. pure (err e))
      λ m. when_some m.active_nzb_download_id (pure (ok none)) λ active. do
        got ← get_nzb_download active
        check got (λ e. pure (err e)) λ n. pure (ok (some n))
