-- ===== src/Store/Resets.antt =====
-- The reset of what a restart interrupted, backend/internal/store/acquisition.go.
use vorn_media_server.Prelude.{ℕ, Bool-cases, inl, inr, List, [], ◌∷◌, ◌≡◌, refl, arith}
use vorn_media_server.Store.{MediaItem, Shared}
use vorn_media_server.Store.Prog.{ok, quiet, statement}
use vorn_media_server.Store.Media.{
  update_where, set_items, count_where, is_stuck, with_error, interrupted, reset_stuck_acquisitions,
}

abbrev reset_row : ℕ → MediaItem → MediaItem
reset_row now m = record (with_error interrupted m) { updated_at = now }

none-stuck :
    (now : ℕ) (ms : List MediaItem)
    → count_where is_stuck (update_where is_stuck (reset_row now) ms) ≡ 0
none-stuck now [] = refl
none-stuck now (m ∷ ms) = elim (Bool-cases (is_stuck m)) [
  | inl e ↦ ground (arith, none-stuck now ms)
  | inr e ↦ ground (arith, none-stuck now ms)
]

-- The reset reports how many items were in flight and leaves none.
pub reset_stuck_acquisitions-none_left :
    (s : Shared)
    → ((reset_stuck_acquisitions (quiet s)).0 ≡ ok (count_where is_stuck s.media_items))
      × (count_where is_stuck (reset_stuck_acquisitions (quiet s)).1.shared.media_items ≡ 0)
unfolding reset_stuck_acquisitions statement set_items
reset_stuck_acquisitions-none_left s = (refl, none-stuck s.now s.media_items)
