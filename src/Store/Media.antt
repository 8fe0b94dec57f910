-- ===== src/Store/Media.antt =====
-- Operations on media_items, backend/internal/store/media_items.go, acquisition.go and
-- metadata_jobs.go: each is the effect of its SQL statement.
use vorn_media_server.Prelude.{
  ℕ, ◌+◌, Bool, true, false, not, ◌&&◌, ◌||◌, Option, none, some, List, [], ◌∷◌, Text, ltb, ◌==◌,
  if◌then◌else◌, is_empty, find, any, codes,
}
use vorn_media_server.Store.{
  Kind, series, Status, owned, searching, acquiring, error, MediaItem, Shared, Date,
}
use vorn_media_server.Store.Prog.{
  Result, ok, err, not_found, Prog, ◌>>=◌, pure, check, query, exec, statement,
}

abbrev pub update_where {ℓ} : {A : Type ℓ} → (A → Bool) → (A → A) → List A → List A
update_where p f [] = []
update_where p f (x ∷ xs) = (if p x then f x else x) ∷ update_where p f xs

-- UPDATE media_items SET …, updated_at = now() WHERE …
unfoldable pub set_items : (MediaItem → Bool) → (MediaItem → MediaItem) → Shared → Shared
set_items p f s = record s {
  media_items = update_where p (λ m. record (f m) { updated_at = s.now }) s.media_items;
}

abbrev pub has_id : ℕ → MediaItem → Bool
has_id id m = m.id == id

-- The first row that a query returns, or ErrNotFound.
abbrev pub first_row {ℓ} : {A : Type ℓ} → Option A → Result A
first_row none = err not_found
first_row (some a) = ok a

unfoldable pub get_media_item : ℕ → Prog (Result MediaItem)
get_media_item id = query (λ s. first_row (find (has_id id) s.media_items))

abbrev pub with_path : Text → Text → MediaItem → MediaItem
with_path path release m = record m {
  path = some path;
  acquisition_status = owned;
  acquisition_error = [];
  current_release_title = release;
}

unfoldable pub set_media_item_path : ℕ → Text → Text → Prog (Result (Unit {0}))
set_media_item_path id path release = exec (set_items (has_id id) (with_path path release))

abbrev pub with_error : Text → MediaItem → MediaItem
with_error message m = record m { acquisition_status = error; acquisition_error = message }

unfoldable pub set_acquisition_error : ℕ → Text → Prog (Result (Unit {0}))
set_acquisition_error id message = exec (set_items (has_id id) (with_error message))

abbrev pub with_status : Status → MediaItem → MediaItem
with_status status m = record m { acquisition_status = status }

unfoldable pub set_acquisition_status : ℕ → Status → Prog (Result (Unit {0}))
set_acquisition_status id status = exec (set_items (has_id id) (with_status status))

abbrev pub is_owned : Status → Bool
is_owned owned = true
is_owned _ = false

-- The states that only a running acquisition leaves an item in.
abbrev pub in_flight : Status → Bool
in_flight searching = true
in_flight acquiring = true
in_flight _ = false

abbrev pub interrupted : Text
interrupted = codes "interrupted by a server restart"

-- The rows changed are counted.
abbrev pub count_where {ℓ} : {A : Type ℓ} → (A → Bool) → List A → ℕ
count_where p [] = 0
count_where p (x ∷ xs) = (if p x then 1 else 0) + count_where p xs

abbrev pub is_stuck : MediaItem → Bool
is_stuck m = in_flight m.acquisition_status

unfoldable pub reset_stuck_acquisitions : Prog (Result ℕ)
reset_stuck_acquisitions =
    statement (λ s.
      (ok (count_where is_stuck s.media_items), set_items is_stuck (with_error interrupted) s))

-- "" clears the slot, here `none`.
unfoldable pub set_active_debrid_item : ℕ → Option ℕ → Prog (Result (Unit {0}))
set_active_debrid_item id debrid_item =
    exec (set_items (has_id id) (λ m. record m { active_debrid_item_id = debrid_item }))

unfoldable pub set_active_nzb_download : ℕ → Option ℕ → Prog (Result (Unit {0}))
set_active_nzb_download id download =
    exec (set_items (has_id id) (λ m. record m { active_nzb_download_id = download }))

abbrev pub is_null {ℓ} : {A : Type ℓ} → Option A → Bool
is_null none = true
is_null (some a) = false

-- The WHERE of a claim: this row, not owned, and its slot free.
abbrev pub debrid_claimable : ℕ → MediaItem → Bool
debrid_claimable id m =
    has_id id m && (not (is_owned m.acquisition_status) && is_null m.active_debrid_item_id)

abbrev pub nzb_claimable : ℕ → MediaItem → Bool
nzb_claimable id m =
    has_id id m && (not (is_owned m.acquisition_status) && is_null m.active_nzb_download_id)

abbrev pub with_debrid_item : ℕ → MediaItem → MediaItem
with_debrid_item d m = record m { active_debrid_item_id = some d }

abbrev pub with_nzb_download : ℕ → MediaItem → MediaItem
with_nzb_download d m = record m { active_nzb_download_id = some d }

-- RowsAffected > 0
unfoldable pub claim_for_debrid_item : ℕ → ℕ → Prog (Result Bool)
claim_for_debrid_item id d = statement (λ s. (
  ok (any (debrid_claimable id) s.media_items),
  set_items (debrid_claimable id) (with_debrid_item d) s,
))

unfoldable pub claim_for_nzb_download : ℕ → ℕ → Prog (Result Bool)
claim_for_nzb_download id d = statement (λ s. (
  ok (any (nzb_claimable id) s.media_items),
  set_items (nzb_claimable id) (with_nzb_download d) s,
))

abbrev pub is_series : Kind → Bool
is_series series = true
is_series _ = false

-- id = $2 OR parent_id = $2 OR parent_id IN (children of $2)
abbrev pub eq_id : Option ℕ → ℕ → Bool
eq_id none id = false
eq_id (some p) id = p == id

abbrev pub under : ℕ → List MediaItem → MediaItem → Bool
under id rows m =
    has_id id m
    || (eq_id m.parent_id id || any (λ c. eq_id c.parent_id id && eq_id m.parent_id c.id) rows)

unfoldable pub set_monitored : ℕ → Bool → Prog (Result (Unit {0}))
set_monitored id monitored = do
  found ← get_media_item id
  check found (λ e. pure (err e))
      λ item.
        if is_series item.kind
        then exec
            (λ s. set_items (under id s.media_items) (λ m. record m { monitored = monitored }) s)
        else exec (set_items (has_id id) (λ m. record m { monitored = monitored }))

-- MetadataUpdate: the fields that are columns, and those of the JSON that acquisition reads.
pub record MetadataUpdate : Type 0 where
  pub tmdb_id : Option ℕ
  pub title : Text
  pub overview : Text
  pub release_date : Option Date
  pub poster_url : Text
  pub backdrop_url : Text
  pub runtime_minutes : ℕ
  pub imdb_id : Text
  pub tvdb_id : ℕ

abbrev pub no_update : MetadataUpdate
no_update = record {
  tmdb_id = none;
  title = [];
  overview = [];
  release_date = none;
  poster_url = [];
  backdrop_url = [];
  runtime_minutes = 0;
  imdb_id = [];
  tvdb_id = 0;
}

abbrev pub coalesce {ℓ} : {A : Type ℓ} → Option A → Option A → Option A
coalesce none o = o
coalesce (some a) o = some a

-- CASE WHEN new = '' THEN old ELSE new END, and a JSON key that is written only when it is set.
abbrev pub unless_empty : Text → Text → Text
unless_empty new old = if is_empty new then old else new

abbrev pub positive : ℕ → Option ℕ
positive n = if ltb 0 n then some n else none

abbrev pub non_empty : Text → Option Text
non_empty t = if is_empty t then none else some t

unfoldable pub with_metadata : MetadataUpdate → Bool → MediaItem → MediaItem
with_metadata u lock m = record m {
  title = unless_empty u.title m.title;
  overview = unless_empty u.overview m.overview;
  release_date = coalesce u.release_date m.release_date;
  tmdb_id = coalesce u.tmdb_id m.tmdb_id;
  poster_url = unless_empty u.poster_url m.poster_url;
  backdrop_url = unless_empty u.backdrop_url m.backdrop_url;
  runtime_minutes = coalesce (positive u.runtime_minutes) m.runtime_minutes;
  imdb_id = coalesce (non_empty u.imdb_id) m.imdb_id;
  tvdb_id = coalesce (positive u.tvdb_id) m.tvdb_id;
  metadata_locked = m.metadata_locked || lock;
}

unfoldable pub apply_metadata : ℕ → MetadataUpdate → Bool → Prog (Result (Unit {0}))
apply_metadata id u lock = exec (set_items (has_id id) (with_metadata u lock))
