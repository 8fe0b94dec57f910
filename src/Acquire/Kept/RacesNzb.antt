-- ===== src/Acquire/Kept/RacesNzb.antt =====
-- The NZB race keeps what is closed under the store.
use vorn_media_server.Prelude.{
  ℕ, Bool, true, false, not, ◌&&◌, ◌||◌, Bool-cases, inl, inr, Option, none, some, List, [], ◌∷◌,
  if◌then◌else◌,
}
use vorn_media_server.Store.{Shared, MediaItem, NzbDownload}
use vorn_media_server.Store.Prog.{Result, ok, err, World}
use vorn_media_server.Store.Keeps.{Keeps, keeps_rules, Calm, pause-Keeps}
use vorn_media_server.Store.Closed.{Closed}
use vorn_media_server.Remote.{Remote}
use vorn_media_server.Store.Closed.Tables.{
  get_nzb_download-Keeps, set_acquisition_status-Keeps, set_active_nzb_download-Keeps,
}
use vorn_media_server.Acquire.Kept.Resolves.{
  add_nzb_for_item-Keeps, is_url_failed-Keeps, record_url_failure-Keeps,
}
use vorn_media_server.Acquire.Kept.Races.{poll-Keeps}
use vorn_media_server.Quality.{ScoredNzbRelease}
use vorn_media_server.Store.Nzb.{get_nzb_download}
use vorn_media_server.Acquire.{candidate_polls_nzb}
use vorn_media_server.Acquire.Race.{
  is_completed, is_done, all_settled, launch_one, jitter, launch_nzb, wait_for_nzb,
  race_nzb_candidates,
}

module _ {P : Shared → Type 0} (c : Closed P) where
  settled-Calm :
      (any_completed all_promoted : Bool) (ids : List ℕ) (found : Result NzbDownload) (w : World)
      → Calm P w
      → ((x y : Bool) → Keeps P (all_settled x y ids))
      → Calm P
          (elim found as (λ _. Bool × World) [
            | err e ↦ (false, w)
            | ok n ↦
                let rest =
                  all_settled
                    (any_completed || is_completed n.status)
                    (all_promoted && (not (is_completed n.status) || n.promoted))
                    ids
                    w in
                if is_done n.status then rest else (false, w)
          ]).1
  settled-Calm x y ids (err e) w h k = h
  settled-Calm x y ids (ok n) w h k = elim (Bool-cases (is_done n.status)) [
    | inl e ↦ rw e ((k _ _).at w h)
    | inr e ↦ rw e h
  ]

  all_settled-Keeps : (ids : List ℕ) (x y : Bool) → Keeps P (all_settled x y ids)
  unfolding all_settled
  all_settled-Keeps [] x y = record { at = λ w h. h }
  all_settled-Keeps (id ∷ ids) x y = record {
    at = λ w h.
        let (found, w') = get_nzb_download id w in
        settled-Calm x y ids found w' ((get_nzb_download-Keeps c id).at w h)
          (all_settled-Keeps ids);
  }

  launch_one-Keeps :
      (r : Remote) (m : MediaItem) (x : ScoredNzbRelease) → Keeps P (launch_one r m x)
  unfolding launch_one
  launch_one-Keeps r m x =
      search
        (keeps_rules, is_url_failed-Keeps c, record_url_failure-Keeps c, add_nzb_for_item-Keeps c)
        depth 20

  jitter-Keeps : (o : Option ℕ) (cs : List ScoredNzbRelease) → Keeps P (jitter o cs)
  jitter-Keeps none cs = record { at = λ w h. h }
  jitter-Keeps (some id) [] = record { at = λ w h. h }
  jitter-Keeps (some id) (x ∷ cs) = record { at = pause-Keeps.at }

  launch_nzb-Keeps :
      (r : Remote) (m : MediaItem) (cs : List ScoredNzbRelease) → Keeps P (launch_nzb r m cs)
  unfolding launch_nzb
  launch_nzb-Keeps r m [] = record { at = λ w h. h }
  launch_nzb-Keeps r m (x ∷ cs) = record {
    at = λ w h.
        let (started, w1) = launch_one r m x w in
        (launch_nzb-Keeps r m cs).at _
          ((jitter-Keeps started cs).at w1 ((launch_one-Keeps r m x).at w h));
  }

  wait_for_nzb-Keeps : (m : MediaItem) (ids : List ℕ) → Keeps P (wait_for_nzb m ids)
  wait_for_nzb-Keeps m [] = record { at = λ w h. h }
  wait_for_nzb-Keeps m (id ∷ ids) = record {
    at =
        (poll-Keeps c (all_settled false true (id ∷ ids)) m.id candidate_polls_nzb
          (all_settled-Keeps (id ∷ ids) false true)).at;
  }

  pub race_nzb_candidates-Keeps :
      (r : Remote) (m : MediaItem) (rs : List ScoredNzbRelease)
      → Keeps P (race_nzb_candidates r m rs)
  unfolding race_nzb_candidates
  race_nzb_candidates-Keeps r m rs =
      search
        (
          keeps_rules,
          launch_nzb-Keeps,
          wait_for_nzb-Keeps,
          set_active_nzb_download-Keeps c,
          set_acquisition_status-Keeps c,
        )
        depth 20
