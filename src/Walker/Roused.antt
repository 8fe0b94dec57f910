-- ===== src/Walker/Roused.antt =====
-- What waking workers leaves as it was.
use vorn_media_server.Prelude.{
  ℕ, zero, suc, List, [], ◌∷◌, ◌≡◌, refl, ap, any, length, Bool-cases, inl, inr,
}
use vorn_media_server.Walker.{
  Worker, idle, asleep, reading, returned, Wakes, nobody, one, everyone, signal, broadcast, wake,
  is_asleep, has_returned,
}
use Prim.Native.Nat.{ℕ}

-- Some that slept are awake.
pub data Roused : List Worker → List Worker → Type 0 where
  done : Roused [] []
  same : (w : Worker) {ws ws' : List Worker} → Roused ws ws' → Roused (w ∷ ws) (w ∷ ws')
  roused : {ws ws' : List Worker} → Roused ws ws' → Roused (asleep ∷ ws) (idle ∷ ws')

Roused-refl : (ws : List Worker) → Roused ws ws
Roused-refl [] = done
Roused-refl (w ∷ ws) = same w (Roused-refl ws)

signal-Roused : (ws : List Worker) (k : ℕ) → Roused ws (signal ws k)
unfolding signal
signal-Roused [] k = done
signal-Roused (asleep ∷ ws) zero = roused (Roused-refl ws)
signal-Roused (asleep ∷ ws) (suc k) = elim (Bool-cases (any is_asleep ws)) [
  | inl e ↦ rw e (same asleep (signal-Roused ws k))
  | inr e ↦ rw e (roused (Roused-refl ws))
]
signal-Roused (idle ∷ ws) k = same idle (signal-Roused ws k)
signal-Roused (reading dir es ∷ ws) k = same (reading dir es) (signal-Roused ws k)
signal-Roused (returned ∷ ws) k = same returned (signal-Roused ws k)

broadcast-Roused : (ws : List Worker) → Roused ws (broadcast ws)
unfolding broadcast
broadcast-Roused [] = done
broadcast-Roused (asleep ∷ ws) = roused (broadcast-Roused ws)
broadcast-Roused (idle ∷ ws) = same idle (broadcast-Roused ws)
broadcast-Roused (reading dir es ∷ ws) = same (reading dir es) (broadcast-Roused ws)
broadcast-Roused (returned ∷ ws) = same returned (broadcast-Roused ws)

pub wake-Roused : (v : Wakes) (k : ℕ) (ws : List Worker) → Roused ws (wake v k ws)
unfolding wake
wake-Roused nobody k ws = Roused-refl ws
wake-Roused one k ws = signal-Roused ws k
wake-Roused everyone k ws = broadcast-Roused ws

pub Roused-length : {ws ws' : List Worker} → Roused ws ws' → length ws' ≡ length ws
Roused-length done = refl
Roused-length (same w r) = ap (λ n. suc n) (Roused-length r)
Roused-length (roused r) = ap (λ n. suc n) (Roused-length r)

pub Roused-any_returned :
    {ws ws' : List Worker} → Roused ws ws' → any has_returned ws' ≡ any has_returned ws
Roused-any_returned done = refl
Roused-any_returned (same w r) = rw (Roused-any_returned r) refl
Roused-any_returned (roused r) = Roused-any_returned r
