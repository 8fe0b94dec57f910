-- ===== src/Acquire/Losing.antt =====
-- What a race that comes to nothing leaves behind, backend/internal/acquisition/service.go.
use vorn_media_server.Prelude.{
  false, Bool-cases, inl, inr, none, List, [], ◌∷◌, Text, ◌≡◌, refl, take,
}
use vorn_media_server.Quality.{ScoredNzbRelease}
use vorn_media_server.Select.{contains}
use vorn_media_server.Store.{MediaItem, Shared, acquiring}
use vorn_media_server.Store.Prog.{Error, err, World, quiet, statement, pause, look, touch}
use vorn_media_server.Store.Media.{
  set_items, has_id, with_status, set_active_nzb_download, set_acquisition_status,
}
use vorn_media_server.Remote.{Remote}
use vorn_media_server.Resolve.{is_url_failed, record_url_failure}
use vorn_media_server.Acquire.{max_nzb_candidates}
use vorn_media_server.Acquire.Search.{prioritize_cached_nzb}
use vorn_media_server.Acquire.Race.{launch_one, launch_nzb, race_nzb_candidates}

-- Every fetch of an NZB fails.
abbrev pub AllFail : Remote → Type 0
AllFail r = (url : Text) → (e : Error) × (r.fetch_nzb url ≡ err e)

launch_one-fails :
    (r : Remote) (m : MediaItem) (c : ScoredNzbRelease) (w : World)
    → AllFail r
    → ((launch_one r m c w).0 ≡ none)
      × ((launch_one r m c w).1.shared.media_items ≡ w.shared.media_items)
unfolding launch_one is_url_failed record_url_failure look touch
launch_one-fails r m c w k =
    elim (Bool-cases (contains w.shared.failed_urls c.result.download_url)) [
      | inl e ↦ rw e (refl, refl)
      | inr e ↦ rw (e, (k c.result.download_url).1) (refl, refl)
    ]

launch_nzb-fails :
    (r : Remote) (m : MediaItem) (cs : List ScoredNzbRelease) (w : World)
    → AllFail r
    → ((launch_nzb r m cs w).0 ≡ [])
      × ((launch_nzb r m cs w).1.shared.media_items ≡ w.shared.media_items)
unfolding launch_nzb
launch_nzb-fails r m [] w k = (refl, refl)
launch_nzb-fails r m (c ∷ cs) w k =
    let (none_started, same) = launch_one-fails r m c w k in
    let (ids, rest) = launch_nzb-fails r m cs (launch_one r m c w).1 k in
    rw none_started (rw (ids, rest, same) (refl, refl))

-- A race of NZB candidates whose fetches all fail loses, and leaves the item `acquiring` with its slot
-- cleared, whatever it was before: an item that the other tier has made owned is marked in flight.
pub race_nzb_candidates-demotes :
    (r : Remote) (m : MediaItem) (rs : List ScoredNzbRelease) (s : Shared)
    → AllFail r
    → ((race_nzb_candidates r m rs (quiet s)).0 ≡ false)
      × ((race_nzb_candidates r m rs (quiet s)).1.shared.media_items
          ≡ (set_items (has_id m.id) (with_status acquiring) (
              set_items
                (has_id m.id)
                (λ n. record n { active_nzb_download_id = none })
                s)).media_items)
unfolding race_nzb_candidates set_active_nzb_download set_acquisition_status statement pause
race_nzb_candidates-demotes r m rs s k =
    let cleared = set_items (has_id m.id) (λ n. record n { active_nzb_download_id = none }) s in
    let w = quiet (set_items (has_id m.id) (with_status acquiring) cleared) in
    let (ids, same) =
      launch_nzb-fails r m (take max_nzb_candidates (prioritize_cached_nzb r rs)) w k in
    rw ids (refl, same)
