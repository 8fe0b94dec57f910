-- ===== src/Store/Closed/Keys.antt =====
-- The primary keys of media_items, which no update of the store changes.
use vorn_media_server.Prelude.{ℕ, List, [], ◌∷◌, ◌≡◌, ◌≢◌, refl, map, All}
use vorn_media_server.Store.{MediaItem}
use vorn_media_server.Store.Media.{with_metadata}
use vorn_media_server.Store.Closed.{
  RowUpdate, update_row, point, own, mark_error, mark, debrid_slot, nzb_slot, monitor, describe,
}

abbrev pub ids : List MediaItem → List ℕ
ids ms = map (λ m. m.id) ms

abbrev pub AreDistinct : List ℕ → Type 0
AreDistinct [] = Unit
AreDistinct (x ∷ xs) = All (λ y. x ≢ y) xs × AreDistinct xs

pub update_row-id : (u : RowUpdate) (m : MediaItem) → (update_row u m).id ≡ m.id
unfolding with_metadata
update_row-id (point path release) m = refl
update_row-id (own path) m = refl
update_row-id (mark_error message) m = refl
update_row-id (mark status) m = refl
update_row-id (debrid_slot o) m = refl
update_row-id (nzb_slot o) m = refl
update_row-id (monitor b) m = refl
update_row-id (describe u lock) m = refl
