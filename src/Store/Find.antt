-- ===== src/Store/Find.antt =====
-- Queries and inserts of backend/internal/store that acquisition makes: acquisition.go,
-- media_items.go, quality_profiles.go, libraries.go, content_requests.go, acquisition_upgrades.go.
use vorn_media_server.Prelude.{
  ℕ, ◌+◌, Bool, true, false, ◌&&◌, ◌||◌, Option, none, some, List, [], ◌∷◌, ◌++◌, Text, ltb, leb,
  ◌==◌, if◌then◌else◌, is_empty, find, keep, codes, text_eq,
}
use vorn_media_server.Store.{
  Kind, movie, series, season, episode, artist, album, track, audiobook, book, chapter, placeholder,
  MediaItem,
}
use vorn_media_server.Store.Prog.{Result, ok, err, Prog, ◌>>=◌, pure, check, query, statement}
use vorn_media_server.Store.Media.{first_row, eq_id, is_owned, is_null, get_media_item}

abbrev pub kind_eq : Kind → Kind → Bool
kind_eq movie movie = true
kind_eq series series = true
kind_eq season season = true
kind_eq episode episode = true
kind_eq artist artist = true
kind_eq album album = true
kind_eq track track = true
kind_eq audiobook audiobook = true
kind_eq book book = true
kind_eq chapter chapter = true
kind_eq _ _ = false

-- IS NOT DISTINCT FROM
abbrev pub same_null : Option ℕ → Option ℕ → Bool
same_null none none = true
same_null (some a) (some b) = a == b
same_null _ _ = false

abbrev pub has_tmdb_id : ℕ → ℕ → Kind → MediaItem → Bool
has_tmdb_id library tmdb_id kind m =
    m.library_id == library
    && (kind_eq m.kind kind && (eq_id m.tmdb_id tmdb_id && is_null m.parent_id))

unfoldable pub get_by_tmdb_id : ℕ → ℕ → Kind → Prog (Result MediaItem)
get_by_tmdb_id library tmdb_id kind =
    query (λ s. first_row (find (has_tmdb_id library tmdb_id kind) s.media_items))

-- The natural identity of a season or an episode.
abbrev pub is_child : ℕ → Option ℕ → Kind → Text → Option ℕ → Option ℕ → MediaItem → Bool
is_child library parent kind title season_number episode_number m =
    m.library_id == library
    && (kind_eq m.kind kind
        && (same_null m.parent_id parent
            && (text_eq m.title title
                && (same_null m.season_number season_number
                    && same_null m.episode_number episode_number))))

unfoldable pub find_placeholder_child :
    ℕ → Option ℕ → Kind → Text → Option ℕ → Option ℕ → Prog (Result MediaItem)
find_placeholder_child library parent kind title season_number episode_number = query (λ s.
    first_row
      (find (is_child library parent kind title season_number episode_number) s.media_items))

abbrev pub is_top_level_kind : Kind → Bool
is_top_level_kind movie = true
is_top_level_kind series = true
is_top_level_kind _ = false

abbrev pub is_playable_kind : Kind → Bool
is_playable_kind movie = true
is_playable_kind episode = true
is_playable_kind _ = false

unfoldable pub list_monitored_top_level : Prog (Result (List MediaItem))
list_monitored_top_level = query (λ s.
    ok (keep (λ m. m.monitored && (is_top_level_kind m.kind && is_null m.parent_id)) s.media_items))

unfoldable pub list_monitored_owned : Prog (Result (List MediaItem))
list_monitored_owned = query (λ s. ok (
    keep (λ m. m.monitored && (is_owned m.acquisition_status && is_playable_kind m.kind))
      s.media_items))

-- SQL's LIKE: % is any text, _ any character, \ takes the next literally.
abbrev pub some_suffix : (Text → Bool) → Text → Bool
some_suffix p [] = p []
some_suffix p (c ∷ s) = p (c ∷ s) || some_suffix p s

abbrev pub step_like : (ℕ → Bool) → (Text → Bool) → Text → Bool
step_like test rest [] = false
step_like test rest (c ∷ s) = test c && rest s

abbrev pub like : Text → Text → Bool
like [] s = is_empty s
like (p ∷ []) s = if p == b'%' then true else step_like (λ c. p == b'_' || c == p) is_empty s
like (p ∷ q ∷ ps) s =
    let any_char = some_suffix (like (q ∷ ps)) s in
    let escaped = step_like (λ c. c == q) (like ps) s in
    let plain = step_like (λ c. p == b'_' || c == p) (like (q ∷ ps)) s in
    if p == b'%' then any_char else if p == b'\\' then escaped else plain

abbrev pub path_like : Text → Option Text → Bool
path_like pattern none = false
path_like pattern (some path) = like pattern path

unfoldable pub list_owned_remote_items : Prog (Result (List MediaItem))
list_owned_remote_items = query (λ s. ok (
    keep
      (λ m.
        is_owned m.acquisition_status
        && (is_playable_kind m.kind && path_like (codes "http%") m.path))
      s.media_items))

-- ORDER BY coalesce(season_number, 0), coalesce(episode_number, 0)
abbrev pub number_or_0 : Option ℕ → ℕ
number_or_0 none = 0
number_or_0 (some n) = n

abbrev pub comes_first : MediaItem → MediaItem → Bool
comes_first a b =
    ltb (number_or_0 a.season_number) (number_or_0 b.season_number)
    || number_or_0 a.season_number == number_or_0 b.season_number
      && leb (number_or_0 a.episode_number) (number_or_0 b.episode_number)

abbrev pub insert_child : MediaItem → List MediaItem → List MediaItem
insert_child m [] = m ∷ []
insert_child m (n ∷ ns) =
    let rest = insert_child m ns in if comes_first m n then m ∷ n ∷ ns else n ∷ rest

abbrev pub by_number : List MediaItem → List MediaItem
by_number [] = []
by_number (m ∷ ms) = insert_child m (by_number ms)

unfoldable pub list_children : ℕ → Prog (Result (List MediaItem))
list_children parent =
    query (λ s. ok (by_number (keep (λ m. eq_id m.parent_id parent) s.media_items)))

pub record PlaceholderInput : Type 0 where
  pub library_id : ℕ
  pub parent_id : Option ℕ
  pub kind : Kind
  pub title : Text
  pub sort_title : Text
  pub season_number : Option ℕ
  pub episode_number : Option ℕ
  pub tmdb_id : Option ℕ
  pub monitored : Bool

abbrev pub placeholder_row : ℕ → ℕ → PlaceholderInput → MediaItem
placeholder_row id now p = record {
  id = id;
  library_id = p.library_id;
  parent_id = p.parent_id;
  kind = p.kind;
  title = p.title;
  sort_title = if is_empty p.sort_title then p.title else p.sort_title;
  overview = [];
  season_number = p.season_number;
  episode_number = p.episode_number;
  release_date = none;
  path = none;
  tmdb_id = p.tmdb_id;
  updated_at = now;
  poster_url = [];
  backdrop_url = [];
  acquisition_status = placeholder;
  acquisition_error = [];
  active_debrid_item_id = none;
  active_nzb_download_id = none;
  monitored = p.monitored;
  current_release_title = [];
  runtime_minutes = none;
  imdb_id = none;
  tvdb_id = none;
  metadata_locked = false;
}

-- The INSERT … RETURNING id, and the read of the new row.
unfoldable pub create_placeholder : PlaceholderInput → Prog (Result MediaItem)
create_placeholder p = do
  inserted ← statement (λ s. (
    ok s.next_id,
    record s {
      media_items = s.media_items ++ (placeholder_row s.next_id s.now p ∷ []);
      next_id = s.next_id + 1;
    },
  ))
  check inserted (λ e. pure (err e)) λ id. get_media_item id
