-- ===== src/Acquire/Race.antt =====
-- The races, backend/internal/acquisition/service.go: candidates are sent off together, and the item
-- is polled until one of them has won it, all have ended, or the deadline has passed.
use vorn_media_server.Prelude.{
  ℕ, zero, suc, Bool, true, false, not, ◌&&◌, ◌||◌, Option, none, some, List, [], ◌∷◌, take,
  if◌then◌else◌,
}
use vorn_media_server.Quality.{ScoredRelease, ScoredNzbRelease}
use vorn_media_server.Store.{MediaItem, DebridAccount, NzbStatus, completed, failed, acquiring}
use vorn_media_server.Store.Prog.{ok, err, Prog, ◌>>=◌, ◌>>◌, pure, check, pause}
use vorn_media_server.Store.Media.{
  is_owned, get_media_item, set_active_debrid_item, set_active_nzb_download, set_acquisition_status,
}
use vorn_media_server.Store.Debrid.{DebridInput, get_debrid_item, is_ready, is_failed}
use vorn_media_server.Store.Nzb.{get_nzb_download}
use vorn_media_server.Remote.{Remote}
use vorn_media_server.Resolve.{add_link, is_url_failed, record_url_failure, add_nzb_for_item}
use vorn_media_server.Acquire.{race_size, max_nzb_candidates, candidate_polls, candidate_polls_nzb}
use vorn_media_server.Acquire.Search.{prioritize_cached, prioritize_cached_nzb}

-- GetMediaItem succeeds, and the item is owned.
unfoldable pub is_won : ℕ → Prog Bool
is_won id = do
  found ← get_media_item id
  check found (λ e. pure false) λ m. pure (is_owned m.acquisition_status)

-- A resolve that has ended.
unfoldable pub is_resolved : ℕ → Prog Bool
is_resolved id = do
  found ← get_debrid_item id
  check found (λ e. pure false) λ d. pure (is_ready d.status || is_failed d.status)

-- allDone, which stops at the first that has not ended.
unfoldable pub all_resolved : List ℕ → Prog Bool
all_resolved [] w = (true, w)
all_resolved (id ∷ ids) w =
    let (done, w') = is_resolved id w in
    let rest = all_resolved ids w' in if done then rest else (false, w')

-- The polls of one race, the last of them after the deadline. `done` says whether the race has ended.
module _ (done : Prog Bool) (id : ℕ) where
  unfoldable pub poll : ℕ → Prog Bool
  poll zero w = let (won, w') = is_won id w in if won then (true, w') else (false, (done w').1)
  poll (suc n) w =
      let (won, w1) = is_won id w in
      let (ended, w2) = done w1 in
      let rest = poll n (pause w2).1 in
      if won then (true, w1) else if ended then (false, w2) else rest

abbrev pub link_input : MediaItem → DebridAccount → ScoredRelease → DebridInput
link_input item account c = record {
  library_id = some item.library_id;
  account_id = account.id;
  source_ref = c.result.download_url;
  name = c.result.title;
  media_item_id = some item.id;
}

-- The launches; a candidate that cannot be sent is skipped. The ids are in the order launched.
unfoldable pub launch : MediaItem → DebridAccount → List ScoredRelease → Prog (List ℕ)
unfolding add_link
launch item account [] w = ([], w)
launch item account (c ∷ cs) w =
    let (added, w1) = add_link (link_input item account c) w in
    let (ids, w2) = launch item account cs w1 in
    (elim added [ err e ↦ ids | ok d ↦ d.id ∷ ids ], w2)

abbrev pub wait_for : MediaItem → List ℕ → Prog Bool
wait_for item [] = pure false
wait_for item (id ∷ ids) = poll (all_resolved (id ∷ ids)) item.id candidate_polls

-- The slot is cleared and the item marked `acquiring`, whatever it was.
unfoldable pub race_one_account :
    Remote → MediaItem → DebridAccount → List ScoredRelease → Prog Bool
unfolding launch poll all_resolved
race_one_account r item account ranked = do
  chosen ← prioritize_cached r account ranked
  set_active_debrid_item item.id none
  set_acquisition_status item.id acquiring
  launched ← launch item account (take race_size chosen)
  wait_for item launched

unfoldable pub race_torrent_candidates :
    Remote → MediaItem → List DebridAccount → List ScoredRelease → Prog Bool
unfolding race_one_account
race_torrent_candidates r item [] ranked w = (false, w)
race_torrent_candidates r item (a ∷ as') ranked w =
    let (won, w') = race_one_account r item a ranked w in
    let rest = race_torrent_candidates r item as' ranked w' in if won then (true, w') else rest

abbrev pub is_done : NzbStatus → Bool
is_done completed = true
is_done failed = true
is_done _ = false

abbrev pub is_completed : NzbStatus → Bool
is_completed completed = true
is_completed _ = false

-- allDone && (!anyCompleted || allCompletedPromoted), over the launched downloads in order.
unfoldable pub all_settled : Bool → Bool → List ℕ → Prog Bool
all_settled any_completed all_promoted [] w = (not any_completed || all_promoted, w)
all_settled any_completed all_promoted (id ∷ ids) w =
    let (found, w') = get_nzb_download id w in
    elim found [
      | err e ↦ (false, w')
      | ok n ↦
          let rest =
            all_settled (any_completed || is_completed n.status)
              (all_promoted && (not (is_completed n.status) || n.promoted)) ids w' in
          if is_done n.status then rest else (false, w')
    ]

-- One candidate of the launch loop: its download's id, if one was started.
unfoldable pub launch_one : Remote → MediaItem → ScoredNzbRelease → Prog (Option ℕ)
launch_one r item c = do
  skip ← is_url_failed c.result.download_url
  if skip
      then pure none
      else check (r.fetch_nzb c.result.download_url)
          (λ e. do record_url_failure c.result.download_url; pure none)
          λ content. do
            added ← add_nzb_for_item r content item.library_id item.id
            check added (λ e. pure none) λ n. pure (some n.id)

-- The jitter follows a launch that is not the last candidate's.
abbrev pub jitter : Option ℕ → List ScoredNzbRelease → Prog (Unit {0})
jitter none cs = pure tt
jitter (some id) [] = pure tt
jitter (some id) (c ∷ cs) = pause

abbrev pub cons_some : Option ℕ → List ℕ → List ℕ
cons_some none ids = ids
cons_some (some id) ids = id ∷ ids

unfoldable pub launch_nzb : Remote → MediaItem → List ScoredNzbRelease → Prog (List ℕ)
unfolding launch_one
launch_nzb r item [] w = ([], w)
launch_nzb r item (c ∷ cs) w =
    let (started, w1) = launch_one r item c w in
    let (ids, w2) = launch_nzb r item cs (jitter started cs w1).1 in (cons_some started ids, w2)

abbrev pub wait_for_nzb : MediaItem → List ℕ → Prog Bool
wait_for_nzb item [] = pure false
wait_for_nzb item (id ∷ ids) = poll (all_settled false true (id ∷ ids)) item.id candidate_polls_nzb

unfoldable pub race_nzb_candidates : Remote → MediaItem → List ScoredNzbRelease → Prog Bool
unfolding launch_nzb poll all_settled
race_nzb_candidates r item ranked = do
  set_active_nzb_download item.id none
  set_acquisition_status item.id acquiring
  pause
  launched ← launch_nzb r item (take max_nzb_candidates (prioritize_cached_nzb r ranked))
  wait_for_nzb item launched
