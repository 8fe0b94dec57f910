-- ===== src/Store/Closed/Tables/Promotions.antt =====
-- The promotions of files keep what is closed under the store.
use vorn_media_server.Prelude.{
  ℕ, Option, none, some, [], Text, refl, is_empty, Bool-cases, inl, inr,
}
use vorn_media_server.Store.{movie, series, season, episode, MediaItem, Shared}
use vorn_media_server.Store.Keeps.{Keeps, statement-Keeps}
use vorn_media_server.Store.Closed.{Closed, own}
use vorn_media_server.Store.Media.{has_id}
use vorn_media_server.Store.Find.{PlaceholderInput}
use vorn_media_server.Store.Promoted.{
  find_or_create, found_or_insert, set_path_of, identity, promote_movie, promote_episode,
  season_display_title, episode_display_title,
}

module _ {P : Shared → Type 0} (c : Closed P) where
  set_path_of-kept : (id : ℕ) (path : Text) (s : Shared) → P s → P (set_path_of id path s)
  set_path_of-kept id path s h = elim (Bool-cases (is_empty path)) [
    | inl e ↦ rw e h
    | inr e ↦ rw e (c.rows (has_id id) (own path) s refl h)
  ]

  found_or_insert-kept :
      (p : PlaceholderInput) (path : Text) (s : Shared) (o : Option MediaItem)
      → P s
      → P (found_or_insert p path s o).1
  found_or_insert-kept p path s none h = c.insert _ s refl h
  found_or_insert-kept p path s (some m) h = set_path_of-kept m.id path s h

  find_or_create-kept :
      (p : PlaceholderInput) (path : Text) (s : Shared) → P s → P (find_or_create p path s).1
  unfolding find_or_create
  find_or_create-kept p path s h = found_or_insert-kept p path s _ h

  pub promote_movie-Keeps :
      (library : ℕ) (title : Text) (year : Option ℕ) (path : Text)
      → Keeps P (promote_movie library title year path)
  unfolding promote_movie
  promote_movie-Keeps library title year path = statement-Keeps _ (λ s h.
      c.dates _ year _ (find_or_create-kept (identity library none movie title none none) path s h))

  pub promote_episode-Keeps :
      (library : ℕ) (title : Text) (s e : ℕ) (path : Text)
      → Keeps P (promote_episode library title s e path)
  unfolding promote_episode
  promote_episode-Keeps library title s e path = statement-Keeps _ (λ t h.
      let (series_id, u) = find_or_create (identity library none series title none none) [] t in
      let to_season =
        identity library (some series_id) season (season_display_title s) (some s) none in
      let (season_id, v) = find_or_create to_season [] u in
      let to_episode =
        identity library (some season_id) episode (episode_display_title s e) (some s) (some e) in
      find_or_create-kept to_episode path v (
        find_or_create-kept to_season [] u
          (find_or_create-kept (identity library none series title none none) [] t h)))
