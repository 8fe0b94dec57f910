-- ===== src/Acquire/Order.antt =====
-- The two tiers of an acquisition send their results in either order, and a race starts few resolves,
-- backend/internal/acquisition/service.go.
use vorn_media_server.Prelude.{
  ℕ, zero, suc, ◌+◌, ◌≤◌, Bool, true, false, List, [], ◌∷◌, ◌≡◌, refl, arith, length, length-take,
  take, if◌then◌else◌, Text,
}
use vorn_media_server.Quality.{ScoredRelease}
use vorn_media_server.Store.{MediaItem, DebridAccount, Shared}
use vorn_media_server.Store.Prog.{
  Result, ok, err, World, Prog, quiet, pause, OnFailure, torrent_tier, nzb_tier,
}
use vorn_media_server.Store.Media.{get_media_item, set_active_debrid_item, set_acquisition_status}
use vorn_media_server.Store.Debrid.{
  DebridInput, get_debrid_account, create_debrid_item, get_debrid_item,
}
use vorn_media_server.Store.Starting.{Starts, Starts-le, first-Starts, pause-Starts, starts_rules}
use vorn_media_server.Select.{hashes_to_check}
use vorn_media_server.Remote.{Remote}
use vorn_media_server.Resolve.{add_link, check_cached}
use vorn_media_server.Acquire.{race_size, candidate_polls}
use vorn_media_server.Acquire.Search.{ask_about, prioritize_cached}
use vorn_media_server.Acquire.Race.{
  is_won, is_resolved, all_resolved, poll, link_input, launch, wait_for, race_one_account,
}
use vorn_media_server.Acquire.Start.{collect_tiers}

-- With nothing beside them, it makes no difference which tier's result comes first: neither to the
-- tables nor to the notices, whatever the two results are.
pub collect_tiers-swap :
    (m : MediaItem) (f : OnFailure) (torrent nzb : Result (Unit {0})) (s : Shared)
    → collect_tiers m f torrent_tier torrent nzb (quiet s)
      ≡ collect_tiers m f nzb_tier nzb torrent (quiet s)
unfolding collect_tiers pause
collect_tiers-swap m f (ok a) (ok b) s = refl
collect_tiers-swap m f (ok a) (err b) s = refl
collect_tiers-swap m f (err a) (ok b) s = refl
collect_tiers-swap m f (err a) (err b) s = refl

add_link-Starts : (input : DebridInput) → Starts 1 (add_link input)
unfolding add_link get_debrid_account create_debrid_item
add_link-Starts input = search starts_rules depth 20

check_cached-Starts :
    (r : Remote) (id : ℕ) (hashes : List Text) → Starts 0 (check_cached r id hashes)
unfolding check_cached get_debrid_account
check_cached-Starts r id hashes = search starts_rules depth 20

ask_about-Starts :
    (r : Remote) (id : ℕ) (hs : List Text) (rs : List ScoredRelease)
    → Starts 0 (ask_about r id hs rs)
ask_about-Starts r id [] rs = record { bound = λ w. omega arith }
ask_about-Starts r id (h ∷ hs) rs = search (starts_rules, check_cached-Starts) depth 20

prioritize_cached-Starts :
    (r : Remote) (a : DebridAccount) (rs : List ScoredRelease) → Starts 0 (prioritize_cached r a rs)
unfolding prioritize_cached
prioritize_cached-Starts r a rs = record {
  bound = (ask_about-Starts r a.id (hashes_to_check rs) rs).bound;
}

is_won-Starts : (id : ℕ) → Starts 0 (is_won id)
unfolding is_won get_media_item
is_won-Starts id = search starts_rules depth 20

is_resolved-Starts : (id : ℕ) → Starts 0 (is_resolved id)
unfolding is_resolved get_debrid_item
is_resolved-Starts id = search starts_rules depth 20

-- Of two ends of a program, each with the bound.
either-started :
    {A : Type 0} (b : Bool) (x y : A × World) (n : ℕ)
    → length x.1.started ≤ n
    → length y.1.started ≤ n
    → length (if b then x else y).1.started ≤ n
either-started true x y n hx hy = hx
either-started false x y n hx hy = hy

all_resolved-Starts : (ids : List ℕ) → Starts 0 (all_resolved ids)
unfolding all_resolved
all_resolved-Starts [] = record { bound = λ w. omega arith }
all_resolved-Starts (id ∷ ids) = record {
  bound = λ w.
      let (done, w') = is_resolved id w in
      let h = (is_resolved-Starts id).bound w in
      either-started done (all_resolved ids w') (false, w') (length w.started + 0)
        (omega (arith, h, (all_resolved-Starts ids).bound w')) h;
}

poll-Starts : (done : Prog Bool) (id n : ℕ) → Starts 0 done → Starts 0 (poll done id n)
unfolding poll
poll-Starts done id zero k = record {
  bound = λ w.
      let (won, w') = is_won id w in
      let h = (is_won-Starts id).bound w in
      either-started won (true, w') (false, (done w').1) (length w.started + 0) h
        (omega (arith, h, k.bound w'));
}
poll-Starts done id (suc n) k = record {
  bound = λ w.
      let (won, w1) = is_won id w in
      let (ended, w2) = done w1 in
      let rest = poll done id n (pause w2).1 in
      let h1 = (is_won-Starts id).bound w in
      let h2 = k.bound w1 in
      let h3 = (pause-Starts {n = 0}).bound w2 in
      let h4 = (poll-Starts done id n k).bound (pause w2).1 in
      either-started won (true, w1) (if ended then (false, w2) else rest) (length w.started + 0) h1
        (either-started ended (false, w2) rest (length w.started + 0) (omega (arith, h1, h2))
          (omega (arith, h1, h2, h3, h4)));
}

launch-Starts :
    (m : MediaItem) (a : DebridAccount) (cs : List ScoredRelease)
    → Starts (length cs) (launch m a cs)
unfolding launch
launch-Starts m a [] = record { bound = λ w. omega arith }
launch-Starts m a (c ∷ cs) = record {
  bound = λ w. omega (
    arith,
    (add_link-Starts (link_input m a c)).bound w,
    (launch-Starts m a cs).bound (add_link (link_input m a c) w).1,
  );
}

wait_for-Starts : (m : MediaItem) (ids : List ℕ) → Starts 0 (wait_for m ids)
wait_for-Starts m [] = record { bound = λ w. omega arith }
wait_for-Starts m (id ∷ ids) = record {
  bound =
      (poll-Starts (all_resolved (id ∷ ids)) m.id candidate_polls
        (all_resolved-Starts (id ∷ ids))).bound;
}

raced-Starts :
    (m : MediaItem) (a : DebridAccount) (chosen : List ScoredRelease)
    → Starts race_size (launch m a (take race_size chosen))
raced-Starts m a chosen =
    Starts-le (length (take race_size chosen)) race_size (launch m a (take race_size chosen))
      (omega (arith, length-take race_size chosen)) (launch-Starts m a (take race_size chosen))

-- A race on one account starts at most race_size goroutines, however many releases were ranked and
-- whatever the other goroutines and the statements' faults do.
pub race_one_account-Starts :
    (r : Remote) (m : MediaItem) (a : DebridAccount) (rs : List ScoredRelease) (w : World)
    → length (race_one_account r m a rs w).1.started ≤ length w.started + 3
unfolding race_one_account set_active_debrid_item set_acquisition_status
race_one_account-Starts r m a rs w = raced.bound w
  where
    raced : Starts 3 (race_one_account r m a rs)
    raced =
        search (starts_rules, prioritize_cached-Starts, first-Starts, raced-Starts, wait_for-Starts)
          depth 20
