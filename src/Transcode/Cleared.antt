-- ===== src/Transcode/Cleared.antt =====
-- What ClearFinished drops.
use vorn_media_server.Prelude.{
  ℕ, Bool, true, false, not, ◌&&◌, List, [], ◌∷◌, Text, Option, map, keep, All, ◌≡◌, refl, sym, ◌∙◌,
  Bool-cases, inl, inr,
}
use vorn_media_server.Transcode.{
  Session, SessionStatus, status_starting, status_running, status_stopped, status_failed, Phase,
  waiting, holding, working, releasing, leaving, over, new_manager, clear_finished,
  untrack_finished, is_finished,
}
use vorn_media_server.Transcode.Fair.{is_settled, IsSettled}
use vorn_media_server.Transcode.Pool.{Step, steps, steps-IsSound, new_manager-IsSound}

-- The goroutine has set its last status; it may still have its slot.
abbrev pub is_past : Phase → Bool
is_past releasing = true
is_past leaving = true
is_past over = true
is_past waiting = false
is_past holding = false
is_past working = false

finished_past :
    (p : Phase) (st : SessionStatus) → is_settled p st ≡ true → is_finished st ≡ is_past p
finished_past waiting status_starting h = refl
finished_past waiting status_running h = cc
finished_past waiting status_stopped h = cc
finished_past waiting status_failed h = cc
finished_past holding status_starting h = refl
finished_past holding status_running h = cc
finished_past holding status_stopped h = cc
finished_past holding status_failed h = cc
finished_past working status_starting h = cc
finished_past working status_running h = refl
finished_past working status_stopped h = cc
finished_past working status_failed h = cc
finished_past releasing st h = h
finished_past leaving st h = h
finished_past over st h = h

and_true : (b : Bool) → (b && true) ≡ b
and_true true = refl
and_true false = refl

kept_tracked :
    (ss : List Session)
    → All IsSettled ss
    → keep (λ s. s.tracked) (map untrack_finished ss)
      ≡ keep (λ s. s.tracked && not (is_past s.phase)) ss
unfolding untrack_finished
kept_tracked [] a = refl
kept_tracked (s ∷ ss) a =
    let ended = finished_past s.phase s.status a.0 in
    elim (Bool-cases (is_finished s.status)) [
      | inl x ↦ elim (Bool-cases s.tracked) [
        | inl t ↦ rw x (rw (sym ended ∙ x) (rw t (kept_tracked ss a.1)))
        | inr t ↦ rw x (rw (sym ended ∙ x) (rw t (kept_tracked ss a.1)))
      ]
      | inr x ↦ rw x (rw (sym ended ∙ x) (rw (kept_tracked ss a.1) (rw (and_true s.tracked) refl)))
    ]

-- After any history of the manager, ClearFinished drops from its map exactly the sessions whose
-- goroutines are past their last setStatus, whether they have released their slots or not, and none
-- that waits for a slot, is about to start ffmpeg or waits for it, whichever removals of output fail.
pub clear_finished-past :
    (remove : Text → Option Text) (n : ℕ) (xs : List Step)
    → keep (λ s. s.tracked) (clear_finished remove (steps xs (new_manager n))).1.sessions
      ≡ keep (λ s. s.tracked && not (is_past s.phase)) (steps xs (new_manager n)).sessions
unfolding clear_finished
clear_finished-past remove n xs =
    kept_tracked (steps xs (new_manager n)).sessions
      (steps-IsSound xs (new_manager n) (new_manager-IsSound n)).settled
