-- ===== src/Store/Promoted.antt =====
-- Rows that a scan or a manual add creates, backend/internal/store/media_items.go: each promotion is
-- one transaction, so one statement here.
use vorn_media_server.Prelude.{
  ℕ, ◌+◌, false, Option, none, some, List, [], ◌∷◌, ◌++◌, Text, is_empty, find, codes,
  if◌then◌else◌,
}
use vorn_media_server.Prelude.Digits.{itoa, pad2}
use vorn_media_server.Store.{Kind, movie, series, season, episode, owned, MediaItem, Date, Shared}
use vorn_media_server.Store.Prog.{Result, ok, Prog, statement}
use vorn_media_server.Store.Media.{set_items, has_id, is_null}
use vorn_media_server.Store.Find.{is_child, PlaceholderInput, placeholder_row}

unfoldable pub season_display_title : ℕ → Text
unfolding itoa
season_display_title n = codes "Season " ++ itoa n

unfoldable pub episode_display_title : ℕ → ℕ → Text
unfolding pad2
episode_display_title s e = (b'S' ∷ pad2 s) ++ (b'E' ∷ pad2 e)

abbrev pub path_or_null : Text → Option Text
path_or_null path = if is_empty path then none else some path

-- The INSERT leaves acquisition_status to its default, 'owned'.
abbrev pub insert_row : PlaceholderInput → Text → Shared → ℕ × Shared
insert_row p path s = (
  s.next_id,
  record s {
    media_items =
        s.media_items
        ++ (record (placeholder_row s.next_id s.now p) {
          path = path_or_null path;
          acquisition_status = owned;
        }
            ∷ []);
    next_id = s.next_id + 1;
  },
)

-- The UPDATE of a row that is found, where there is a path.
abbrev pub set_path_of : ℕ → Text → Shared → Shared
set_path_of id path s =
    if is_empty path
    then s
    else set_items (has_id id) (λ m. record m { path = some path; acquisition_status = owned }) s

abbrev pub found_or_insert : PlaceholderInput → Text → Shared → Option MediaItem → ℕ × Shared
found_or_insert p path s none = insert_row p path s
found_or_insert p path s (some m) = (m.id, set_path_of m.id path s)

-- findOrCreateMediaItem. Its SELECT has no ORDER BY: of several rows it is taken to return the first
-- of the table, whose order an UPDATE keeps.
unfoldable pub find_or_create : PlaceholderInput → Text → Shared → ℕ × Shared
unfolding set_items
find_or_create p path s = found_or_insert p path s (
    find (is_child p.library_id p.parent_id p.kind p.title p.season_number p.episode_number)
      s.media_items)

abbrev pub identity : ℕ → Option ℕ → Kind → Text → Option ℕ → Option ℕ → PlaceholderInput
identity library parent kind title season_number episode_number = record {
  library_id = library;
  parent_id = parent;
  kind = kind;
  title = title;
  sort_title = title;
  season_number = season_number;
  episode_number = episode_number;
  tmdb_id = none;
  monitored = false;
}

-- UPDATE … SET release_date = $1 WHERE id = $2 AND release_date IS NULL; updated_at stays.
abbrev pub fill_date : Option Date → MediaItem → MediaItem
fill_date date m = if is_null m.release_date then record m { release_date = date } else m

abbrev pub map_items : (MediaItem → MediaItem) → List MediaItem → List MediaItem
map_items f [] = []
map_items f (m ∷ ms) = f m ∷ map_items f ms

abbrev pub set_release_year : ℕ → Option ℕ → Shared → Shared
set_release_year id none s = s
set_release_year id (some year) s = record s {
  media_items =
      map_items
        (λ m.
          if has_id id m
          then fill_date (some (record { year = year; month = 1; day = 1 })) m
          else m)
        s.media_items;
}

unfoldable pub promote_movie : ℕ → Text → Option ℕ → Text → Prog (Result ℕ)
unfolding find_or_create
promote_movie library title year path = statement (λ s.
    let (id, t) = find_or_create (identity library none movie title none none) path s in
    (ok id, set_release_year id year t))

unfoldable pub promote_episode : ℕ → Text → ℕ → ℕ → Text → Prog (Result ℕ)
unfolding find_or_create season_display_title episode_display_title
promote_episode library title season_number episode_number path = statement (λ s.
    let (series_id, t) = find_or_create (identity library none series title none none) [] s in
    let (season_id, u) =
      find_or_create
        (identity library (some series_id) season (season_display_title season_number)
          (some season_number) none)
        [] t in
    let (episode_id, v) =
      find_or_create
        (identity library (some season_id) episode
          (episode_display_title season_number episode_number) (some season_number)
          (some episode_number))
        path u in
    (ok episode_id, v))
