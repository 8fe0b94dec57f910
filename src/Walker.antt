-- ===== src/Walker.antt =====
-- The concurrent walk of a library's folders, backend/internal/scanner/walker.go.
--
-- A directory is taken with what ReadDir finds in it, as it stands during the walk; an entry that is
-- a symbolic link is a file to ReadDir, so the directories form a finite tree. The goroutines take
-- turns: an event names the one that goes on, up to its next use of the queue. The condition variable
-- is the set of the workers asleep in its Wait: Signal wakes one of them, if there is one, and
-- Broadcast all. A push's Signal is made with the push, though the lock is released in between: a
-- turn in between could only let the woken worker find nothing and sleep again.
pub mod Roused
pub mod Tally
pub mod Pending
pub mod Complete
pub mod Measure
pub mod Progress
pub mod Early
use vorn_media_server.Prelude.{
  ℕ, zero, suc, ◌+◌, ◌-◌, Bool, true, false, Option, none, some, List, [], ◌∷◌, ◌++◌, Text, ◌==◌,
  codes, text_eq, is_empty, any, ◌||◌, if◌then◌else◌, ltb, all, ◌&&◌,
}

pub record FileInfo : Type 0 where
  pub size_bytes : ℕ
  pub modified_at : ℕ

-- What os.ReadDir answers for a directory: an error, or its entries; a file's Info may fail.
mutual
  pub data Dir : Type 0 where
    unreadable : Dir
    listing : Entries → Dir

  pub data Entries : Type 0 where
    no_more : Entries
    sub : Text → Dir → Entries → Entries
    file : Text → Option FileInfo → Entries → Entries

pub record DiscoveredFile : Type 0 where
  pub path : Text
  pub size_bytes : ℕ
  pub modified_at : ℕ

pub record Item : Type 0 where
  pub path : Text
  pub dir : Dir

-- dirQueue; its slice is kept with the end, where directories are pushed and popped, in front.
pub record DirQueue : Type 0 where
  pub items : List Item
  pub pending : ℕ
  pub closed : Bool

abbrev pub new_dir_queue : DirQueue
new_dir_queue = record { items = []; pending = 0; closed = false }

abbrev pub push : Item → DirQueue → DirQueue
push dir q = record q { pending = suc q.pending; items = dir ∷ q.items }

abbrev pub finish : DirQueue → DirQueue
finish q = record q {
  pending = q.pending - 1;
  closed = if q.pending - 1 == 0 then true else q.closed;
}

-- A worker: awake at popOrWait's test, asleep in its cond.Wait, in the loop over a directory's
-- entries, or returned.
pub data Worker : Type 0 where
  idle : Worker
  asleep : Worker
  reading : Text → Entries → Worker
  returned : Worker

-- `roots` are those that WalkConcurrent has not pushed yet; `emitted` is newest first.
pub record Walk : Type 0 where
  pub roots : List Item
  pub queue : DirQueue
  pub workers : List Worker
  pub emitted : List DiscoveredFile

-- The elements of a path between its slashes.
abbrev pub elements : Text → Text → List Text
elements acc [] = acc ∷ []
elements acc (c ∷ t) = if c == b'/' then acc ∷ elements [] t else elements (acc ++ (c ∷ [])) t

-- Clean's treatment of one element, with those kept so far, the last in front: `rooted` says that
-- the path begins with a slash.
abbrev pub up : Bool → List Text → List Text
up rooted [] = if rooted then [] else codes ".." ∷ []
up rooted (e ∷ es) = if text_eq e (codes "..") then codes ".." ∷ (e ∷ es) else es

abbrev pub element : Bool → Text → List Text → List Text
element rooted e kept =
    if is_empty e || text_eq e (codes ".")
    then kept
    else if text_eq e (codes "..")
    then up rooted kept
    else e ∷ kept

abbrev pub kept_elements : Bool → List Text → List Text → List Text
kept_elements rooted kept [] = kept
kept_elements rooted kept (e ∷ es) = kept_elements rooted (element rooted e kept) es

-- The kept elements in their order, with slashes between them.
abbrev pub slashed : List Text → Text
slashed [] = []
slashed (e ∷ []) = e
slashed (e ∷ (f ∷ es)) = slashed (f ∷ es) ++ (b'/' ∷ e)

abbrev pub is_rooted : Text → Bool
is_rooted [] = false
is_rooted (c ∷ t) = c == b'/'

-- filepath.Clean with / as separator.
unfoldable pub clean : Text → Text
clean path =
    let rooted = is_rooted path in
    let body = slashed (kept_elements rooted [] (elements [] path)) in
    if rooted then b'/' ∷ body else if is_empty body then codes "." else body

-- filepath.Join of a directory and an entry's name, which is not empty.
unfoldable pub join : Text → Text → Text
unfolding clean
join dir name = if is_empty dir then clean name else clean (dir ++ (b'/' ∷ name))

abbrev pub entries_of : Dir → Entries
entries_of unreadable = no_more
entries_of (listing es) = es

-- Whom a stretch wakes: nobody, one by Signal, or everyone by Broadcast.
pub data Wakes : Type 0 where
  nobody one everyone : Wakes

-- One stretch of a worker: where it stands then, the queue, what it emits and whom it wakes.
pub record Turn : Type 0 where
  pub worker : Worker
  pub queue : DirQueue
  pub sent : List DiscoveredFile
  pub wakes : Wakes

-- popOrWait: the last item, the end of the walk, or cond.Wait.
abbrev pub pop_or_wait : List Item → DirQueue → Turn
pop_or_wait (i ∷ is) q = record {
  worker = reading i.path (entries_of i.dir);
  queue = record q { items = is };
  sent = [];
  wakes = nobody;
}
pop_or_wait [] q = record {
  worker = if q.closed then returned else asleep;
  queue = q;
  sent = [];
  wakes = nobody;
}

abbrev pub is_asleep : Worker → Bool
is_asleep asleep = true
is_asleep idle = false
is_asleep (reading dir es) = false
is_asleep returned = false

-- Signal: of the workers asleep, the one with k of them before it, or the last.
unfoldable pub signal : List Worker → ℕ → List Worker
signal [] k = []
signal (asleep ∷ ws) zero = idle ∷ ws
signal (asleep ∷ ws) (suc k) = if any is_asleep ws then asleep ∷ signal ws k else idle ∷ ws
signal (idle ∷ ws) k = idle ∷ signal ws k
signal (reading dir es ∷ ws) k = reading dir es ∷ signal ws k
signal (returned ∷ ws) k = returned ∷ signal ws k

unfoldable pub broadcast : List Worker → List Worker
broadcast [] = []
broadcast (asleep ∷ ws) = idle ∷ broadcast ws
broadcast (idle ∷ ws) = idle ∷ broadcast ws
broadcast (reading dir es ∷ ws) = reading dir es ∷ broadcast ws
broadcast (returned ∷ ws) = returned ∷ broadcast ws

unfoldable pub wake : Wakes → ℕ → List Worker → List Worker
unfolding signal broadcast
wake nobody k ws = ws
wake one k ws = signal ws k
wake everyone k ws = broadcast ws

-- WalkConcurrent pushes its next root, or the worker at a place goes on. The last number chooses the
-- worker that a Signal wakes.
pub data Event : Type 0 where
  pushes : ℕ → Event
  works : ℕ → ℕ → Event

module _ (is_media_file : Text → Bool) where
  -- What a file's entry emits.
  abbrev pub found : Text → Text → Option FileInfo → List DiscoveredFile
  found dir name none = []
  found dir name (some info) =
      if is_media_file name
      then record {
        path = join dir name;
        size_bytes = info.size_bytes;
        modified_at = info.modified_at;
      }
        ∷ []
      else []

  unfoldable pub work : Worker → DirQueue → Turn
  work idle q = pop_or_wait q.items q
  work asleep q = record { worker = asleep; queue = q; sent = []; wakes = nobody }
  work (reading dir no_more) q = record {
    worker = idle;
    queue = finish q;
    sent = [];
    wakes = if q.pending - 1 == 0 then everyone else nobody;
  }
  work (reading dir (sub name d es)) q = record {
    worker = reading dir es;
    queue = push (record { path = join dir name; dir = d }) q;
    sent = [];
    wakes = one;
  }
  work (reading dir (file name info es)) q = record {
    worker = reading dir es;
    queue = q;
    sent = found dir name info;
    wakes = nobody;
  }
  work returned q = record { worker = returned; queue = q; sent = []; wakes = nobody }

  unfoldable pub work_at :
      ℕ → List Worker → DirQueue → List Worker × DirQueue × List DiscoveredFile × Wakes
  unfolding work
  work_at n [] q = ([], q, [], nobody)
  work_at zero (w ∷ ws) q =
      let turn = work w q in (turn.worker ∷ ws, turn.queue, turn.sent, turn.wakes)
  work_at (suc n) (w ∷ ws) q = let rest = work_at n ws q in (w ∷ rest.0, rest.1, rest.2, rest.3)

  abbrev pub push_root : ℕ → List Item → Walk → Walk
  push_root k [] w = w
  push_root k (r ∷ rs) w = record w {
    roots = rs;
    queue = push r w.queue;
    workers = wake one k w.workers;
  }

  unfoldable pub step : Event → Walk → Walk
  unfolding work_at wake
  step (pushes k) w = push_root k w.roots w
  step (works n k) w =
      let out = work_at n w.workers w.queue in
      record w { workers = wake out.3 k out.0; queue = out.1; emitted = out.2 ++ w.emitted }

  abbrev pub steps : List Event → Walk → Walk
  steps [] w = w
  steps (e ∷ es) w = steps es (step e w)

abbrev pub idle_workers : ℕ → List Worker
idle_workers zero = []
idle_workers (suc n) = idle ∷ idle_workers n

-- WalkConcurrent when its workers have been started.
unfoldable pub start : List Item → ℕ → Walk
start roots workers = record {
  roots = roots;
  queue = new_dir_queue;
  workers = idle_workers (if ltb workers 1 then 1 else workers);
  emitted = [];
}

abbrev pub has_returned : Worker → Bool
has_returned idle = false
has_returned asleep = false
has_returned (reading dir es) = false
has_returned returned = true

abbrev pub is_none : List Item → Bool
is_none [] = true
is_none (r ∷ rs) = false

-- All roots are pushed, and wg.Wait returns.
abbrev pub is_over : Walk → Bool
is_over w = is_none w.roots && all has_returned w.workers
