-- ===== src/Store/Again.antt =====
-- Files promoted again: findOrCreateMediaItem is by identity (backend/internal/store/media_items.go).
use vorn_media_server.Prelude.{
  ℕ, Bool, true, Bool-cases, inl, inr, Option, none, some, List, [], ◌∷◌, ◌++◌, Text, ◌≡◌, refl,
  ◌∙◌, ap, arith, find, is_empty, text_eq_refl, ==_refl,
}
use vorn_media_server.Store.{
  Kind, movie, series, season, episode, artist, album, track, audiobook, book, chapter, MediaItem,
  owned, Shared,
}
use vorn_media_server.Store.Media.{update_where, set_items, has_id}
use vorn_media_server.Store.Find.{kind_eq, same_null, is_child, PlaceholderInput, placeholder_row}
use vorn_media_server.Store.Promoted.{path_or_null, found_or_insert, set_path_of, find_or_create}

kind_eq_refl : (k : Kind) → kind_eq k k ≡ true
kind_eq_refl movie = refl
kind_eq_refl series = refl
kind_eq_refl season = refl
kind_eq_refl episode = refl
kind_eq_refl artist = refl
kind_eq_refl album = refl
kind_eq_refl track = refl
kind_eq_refl audiobook = refl
kind_eq_refl book = refl
kind_eq_refl chapter = refl

same_null_refl : (o : Option ℕ) → same_null o o ≡ true
same_null_refl none = refl
same_null_refl (some n) = ==_refl n

-- Whether a row has the identity of an input.
abbrev pub matches : PlaceholderInput → MediaItem → Bool
matches p m = is_child p.library_id p.parent_id p.kind p.title p.season_number p.episode_number m

-- The row that findOrCreateMediaItem inserts.
abbrev inserted : PlaceholderInput → Text → ℕ → ℕ → MediaItem
inserted p path id now = record (placeholder_row id now p) {
  path = path_or_null path;
  acquisition_status = owned;
}

inserted-matches :
    (p : PlaceholderInput) (path : Text) (id now : ℕ) → matches p (inserted p path id now) ≡ true
inserted-matches p path id now =
    rw
      (
        ==_refl p.library_id,
        kind_eq_refl p.kind,
        same_null_refl p.parent_id,
        text_eq_refl p.title,
        same_null_refl p.season_number,
        same_null_refl p.episode_number,
      )
      refl

find-last :
    (q : MediaItem → Bool) (ms : List MediaItem) (m : MediaItem)
    → find q ms ≡ none
    → q m ≡ true
    → find q (ms ++ (m ∷ [])) ≡ some m
find-last q [] m h k = rw k refl
find-last q (n ∷ ms) m h k = ground (arith, find-last q ms m)

-- The id of the row that a test finds.
abbrev id_of : Option MediaItem → Option ℕ
id_of none = none
id_of (some m) = some m.id

find-update :
    (q p : MediaItem → Bool) (f : MediaItem → MediaItem)
    → ((m : MediaItem) → q (f m) ≡ q m)
    → ((m : MediaItem) → (f m).id ≡ m.id)
    → (ms : List MediaItem) → id_of (find q (update_where p f ms)) ≡ id_of (find q ms)
find-update q p f k j [] = refl
find-update q p f k j (m ∷ ms) = elim (Bool-cases (p m)) [
  | inl e ↦ elim (Bool-cases (q m)) [
    | inl b ↦ rw (e, k m, b, j m) refl
    | inr b ↦ rw (e, k m, b) (find-update q p f k j ms)
  ]
  | inr e ↦ elim (Bool-cases (q m)) [
    | inl b ↦ rw (e, b) refl
    | inr b ↦ rw (e, b) (find-update q p f k j ms)
  ]
]

found-id :
    (p : PlaceholderInput) (path : Text) (s : Shared) (o : Option MediaItem) (id : ℕ)
    → id_of o ≡ some id
    → (found_or_insert p path s o).0 ≡ id
found-id p path s none id h = cc
found-id p path s (some m) id h = cc

set_path_of-same :
    (p : PlaceholderInput) (id : ℕ) (path : Text) (s : Shared)
    → id_of (find (matches p) (set_path_of id path s).media_items)
      ≡ id_of (find (matches p) s.media_items)
unfolding set_items
set_path_of-same p id path s = elim (Bool-cases (is_empty path)) [
  | inl e ↦ rw e refl
  | inr e ↦ rw e (
      find-update (matches p) (has_id id)
        (λ m. record m { path = some path; acquisition_status = owned; updated_at = s.now })
        (λ m. refl) (λ m. refl) s.media_items)
]

found-again :
    (p : PlaceholderInput) (path : Text) (s : Shared) (o : Option MediaItem)
    → find (matches p) s.media_items ≡ o
    → id_of (find (matches p) (found_or_insert p path s o).1.media_items)
      ≡ some (found_or_insert p path s o).0
found-again p path s none e =
    rw
      (find-last (matches p) s.media_items (inserted p path s.next_id s.now) e
        (inserted-matches p path s.next_id s.now))
      refl
found-again p path s (some m) e = set_path_of-same p m.id path s ∙ ap id_of e

-- Promoting the same title twice, with whatever paths, gives the same item both times.
pub find_or_create-again :
    (p : PlaceholderInput) (path path' : Text) (s : Shared)
    → (find_or_create p path' (find_or_create p path s).1).0 ≡ (find_or_create p path s).0
unfolding find_or_create
find_or_create-again p path path' s =
    found-id p path' _ _ _ (found-again p path s (find (matches p) s.media_items) refl)
