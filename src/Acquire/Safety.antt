-- ===== src/Acquire/Safety.antt =====
-- What acquisition never undoes, whatever runs beside it (backend/internal/acquisition, debrid, nzb).
use vorn_media_server.Prelude.{ℕ}
use vorn_media_server.Store.{MediaItem}
use vorn_media_server.Store.Prog.{World}
use vorn_media_server.Store.Keeps.{Calm}
use vorn_media_server.Store.Closed.Rows.{
  Has, Has-Closed, has_path, has_path-Stable, is_same, is_same-Stable,
}
use vorn_media_server.Remote.{Remote}
use vorn_media_server.Acquire.Entry.{Entry, run_entry, run_entry-Calm}

-- An item that has a path still has one after any run of acquisition, if the other goroutines keep
-- paths too: no failed search, lost race, reset or refresh takes a playable path away.
pub run_entry-has_path :
    (r : Remote) (e : Entry) (id : ℕ) (w : World)
    → Calm (Has (has_path id)) w
    → Has (has_path id) (run_entry r e w).shared
run_entry-has_path r e id w h = (run_entry-Calm (Has-Closed (has_path-Stable id)) r e w h).holds

-- No run of acquisition removes an item or changes its library, kind, title, parent or season and
-- episode numbers, if the other goroutines do not either: ApplyMetadata could write a title, but no
-- update that acquisition makes carries one.
pub run_entry-is_same :
    (r : Remote) (e : Entry) (m : MediaItem) (w : World)
    → Calm (Has (is_same m)) w
    → Has (is_same m) (run_entry r e w).shared
run_entry-is_same r e m w h = (run_entry-Calm (Has-Closed (is_same-Stable m)) r e w h).holds
