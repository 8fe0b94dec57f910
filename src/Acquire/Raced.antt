-- ===== src/Acquire/Raced.antt =====
-- What the cache checks do to the candidates of a race, backend/internal/acquisition/service.go.
use mathlib.Core.List.{Perm}
use mathlib.Core.List.Perm
use vorn_media_server.Prelude.{List}
use vorn_media_server.Remote.{Remote}
