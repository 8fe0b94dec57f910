-- ===== src/Store/BothTiers.antt =====
-- A debrid claim beside an NZB claim of one item, backend/internal/store/media_items.go.
use vorn_media_server.Prelude.{ℕ, true, ◌≡◌, ap}
use vorn_media_server.Store.{Shared}
use vorn_media_server.Store.Prog.{ok, quiet, statement}
use vorn_media_server.Store.Media.{
  set_items, debrid_claimable, nzb_claimable, with_debrid_item, claim_for_debrid_item,
  claim_for_nzb_download,
}
use vorn_media_server.Store.Closed.Rows.{any-update}

-- A debrid claim takes nothing from the NZB tier: an NZB claim that would have succeeded before it
-- still succeeds after it, so both tiers can hold one item.
pub claim_for_nzb_download-after_debrid :
    (id d n : ℕ) (s : Shared)
    → (claim_for_nzb_download id n (quiet s)).0 ≡ ok true
    → (claim_for_nzb_download id n (quiet (claim_for_debrid_item id d (quiet s)).1.shared)).0
      ≡ ok true
unfolding claim_for_nzb_download claim_for_debrid_item statement set_items
claim_for_nzb_download-after_debrid id d n s h = ap ok (
    any-update (nzb_claimable id) (debrid_claimable id)
      (λ m. record (with_debrid_item d m) { updated_at = s.now }) (λ m k. k) s.media_items cc)
