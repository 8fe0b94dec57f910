-- ===== src/Store/Closed.antt =====
-- What a predicate on the shared state has to allow for acquisition to keep it: every way in which
-- the store changes a row of media_items, adds one, or changes another table.
pub mod Tables
pub mod Rows
pub mod Keys
use vorn_media_server.Prelude.{
  ℕ, ◌+◌, ◌≤◌, Bool, Option, none, some, List, [], ◌∷◌, ◌++◌, Text, ◌≡◌, refl, arith, is_empty,
  true,
}
use vorn_media_server.Store.{Status, owned, MediaItem, Shared}
use vorn_media_server.Store.Media.{
  MetadataUpdate, set_items, with_path, with_error, with_status, with_metadata,
}
use vorn_media_server.Store.Promoted.{set_release_year}

-- The updates of a media_items row.
pub data RowUpdate : Type 0 where
  point : Text → Text → RowUpdate
  own : Text → RowUpdate
  mark_error : Text → RowUpdate
  mark : Status → RowUpdate
  debrid_slot nzb_slot : Option ℕ → RowUpdate
  monitor : Bool → RowUpdate
  describe : MetadataUpdate → Bool → RowUpdate

abbrev pub update_row : RowUpdate → MediaItem → MediaItem
update_row (point path release) m = with_path path release m
update_row (own path) m = record m { path = some path; acquisition_status = owned }
update_row (mark_error message) m = with_error message m
update_row (mark status) m = with_status status m
update_row (debrid_slot o) m = record m { active_debrid_item_id = o }
update_row (nzb_slot o) m = record m { active_nzb_download_id = o }
update_row (monitor b) m = record m { monitored = b }
update_row (describe u lock) m = with_metadata u lock m

-- Acquisition's updates of the metadata come without a title, and the statement keeps the old one.
abbrev pub is_untitled : RowUpdate → Bool
is_untitled (describe u lock) = is_empty u.title
is_untitled _ = true

abbrev pub insert_item : MediaItem → Shared → Shared
insert_item m s = record s { media_items = s.media_items ++ (m ∷ []); next_id = s.next_id + 1 }

pub record Closed (P : Shared → Type 0) : Type 0 where
  pub rows :
      (p : MediaItem → Bool) (u : RowUpdate) (s : Shared)
      → is_untitled u ≡ true
      → P s
      → P (set_items p (update_row u) s)
  pub insert : (m : MediaItem) (s : Shared) → m.id ≡ s.next_id → P s → P (insert_item m s)
  pub dates : (id : ℕ) (year : Option ℕ) (s : Shared) → P s → P (set_release_year id year s)
  pub elsewhere : (s t : Shared) → t.media_items ≡ s.media_items → s.next_id ≤ t.next_id → P s → P t
