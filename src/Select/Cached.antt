-- ===== src/Select/Cached.antt =====
-- The releases that a provider has cached go first, backend/internal/acquisition/service.go.
use mathlib.Core.List.{Perm}
use vorn_media_server.Prelude.{Bool, List, keep-perm}
use vorn_media_server.Select.{cached_first}

module _ {ℓ} {A : Type ℓ} (is_cached : A → Bool) where
  -- Moving the cached releases first loses and repeats none.
  pub cached_first-perm : (ranked : List A) → Perm (cached_first is_cached ranked) ranked
  unfolding cached_first
  cached_first-perm ranked = keep-perm is_cached ranked
