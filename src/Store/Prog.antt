-- ===== src/Store/Prog.antt =====
-- Programs over the shared state. Before each statement the other goroutines may have changed
-- anything, and the statement may fail: a list of turns says so, whatever it is. Past its end
-- nobody interferes and nothing fails.
use vorn_media_server.Prelude.{
  ℕ, Bool, Option, none, some, List, [], ◌∷◌, ◌++◌, Text, if◌then◌else◌,
}
use vorn_media_server.Quality.{QualityProfile}
use vorn_media_server.Store.{Shared, Kind, MediaItem, DebridAccount, DebridItem, NzbDownload}

-- The errors of the store, of acquisition and of what acquisition calls.
pub data Error : Type 0 where
  not_found db_failed : Error
  no_acceptable_release no_search_results no_nzb_search_results no_acceptable_nzb_release : Error
  torrent_not_configured nzb_not_configured : Error
  no_candidate_resolved no_nzb_candidate_resolved no_enabled_account : Error
  account_disabled unknown_provider nzb_unparsable nzb_empty : Error
  unsupported_kind cannot_acquire : Kind → Error
  no_tmdb_id missing_numbers not_a_season no_parent_series : Error
  remote : Text → Error
  searching_indexers searching_nzb_indexers fetching_movie fetching_series loading : Error → Error
  loading_season loading_series listing_episodes season_failed fast_re_resolve : Error → Error
  both_tiers : Error → Error → Error

pub data Result {ℓ} (A : Type ℓ) : Type ℓ where
  ok : A → Result A
  err : Error → Result A

pub record Turn : Type 0 where
  pub others : Shared → Shared
  pub fails : Bool

-- What notify.Service sends.
pub data Notice : Type 0 where
  acquired : ℕ → Text → Text → Notice
  season_acquired : ℕ → Text → Notice
  acquisition_failed : ℕ → Text → Notice
  upgraded : ℕ → Text → Text → Notice

-- The two sources of a release.
pub data Tier : Type 0 where
  torrent_tier nzb_tier : Tier

-- onFailureStatus, "error" or "owned".
pub data OnFailure : Type 0 where
  to_error to_owned : OnFailure

-- What a `go` statement starts.
pub data Job : Type 0 where
  acquire_item : MediaItem → OnFailure → Job
  search_tier : Tier → MediaItem → Text → QualityProfile → Job
  resolve_link : DebridAccount → DebridItem → Job
  download_nzb : NzbDownload → Job

pub record World : Type 0 where
  pub shared : Shared
  pub turns : List Turn
  pub sent : List Notice
  pub started : List Job

abbrev pub Prog {ℓ} : Type ℓ → Type ℓ
Prog A = World → A × World

abbrev pub pure {ℓ} : {A : Type ℓ} → A → Prog A
pure a w = (a, w)

infixl 5 ◌>>=◌ ◌>>◌
abbrev pub ◌>>=◌ {ℓ κ} : {A : Type ℓ} {B : Type κ} → Prog A → (A → Prog B) → Prog B
◌>>=◌ m f w = let (a, w') = m w in f a w'

abbrev pub ◌>>◌ {ℓ κ} : {A : Type ℓ} {B : Type κ} → Prog A → Prog B → Prog B
m >> k = m >>= λ _. k

-- `if err != nil { handler } rest`
abbrev pub check {ℓ κ} :
    {A : Type ℓ} {B : Type κ} → Result A → (Error → Prog B) → (A → Prog B) → Prog B
check (ok a) handler rest = rest a
check (err e) handler rest = handler e

-- A test for NULL or nil, which binds the value.
abbrev pub when_some {ℓ κ} : {A : Type ℓ} {B : Type κ} → Option A → Prog B → (A → Prog B) → Prog B
when_some none m k = m
when_some (some a) m k = k a

abbrev pub run_on {ℓ} :
    {A : Type ℓ} → (Shared → Result A × Shared) → World → List Turn → Result A × World
run_on f w [] = ((f w.shared).0, record w { shared = (f w.shared).1 })
run_on f w (t ∷ ts) =
    if t.fails
    then (err db_failed, record w { shared = t.others w.shared; turns = ts })
    else ((f (t.others w.shared)).0, record w { shared = (f (t.others w.shared)).1; turns = ts })

-- One statement: atomic, after a turn of the others.
unfoldable pub statement {ℓ} : {A : Type ℓ} → (Shared → Result A × Shared) → Prog (Result A)
statement f w = run_on f w w.turns

abbrev pub query {ℓ} : {A : Type ℓ} → (Shared → Result A) → Prog (Result A)
query f = statement (λ s. (f s, s))

abbrev pub exec : (Shared → Shared) → Prog (Result (Unit {0}))
exec f = statement (λ s. (ok tt, f s))

abbrev pub pass : World → List Turn → World
pass w [] = w
pass w (t ∷ ts) = record w { shared = t.others w.shared; turns = ts }

-- time.Sleep, and waiting on a channel: the others run.
unfoldable pub pause : Prog (Unit {0})
pause w = (tt, pass w w.turns)

-- notify.Service.Send, which reports nothing back.
unfoldable pub notify : Notice → Prog (Unit {0})
notify n w = (tt, record w { sent = w.sent ++ (n ∷ []) })

-- A `go` statement.
unfoldable pub spawn : Job → Prog (Unit {0})
spawn j w = (tt, record w { started = w.started ++ (j ∷ []) })

-- What the process remembers outside the database.
unfoldable pub touch : (Shared → Shared) → Prog (Unit {0})
touch f w = (tt, record w { shared = f w.shared })

unfoldable pub look {ℓ} : {A : Type ℓ} → (Shared → A) → Prog A
look f w = (f w.shared, w)

abbrev pub quiet : Shared → World
quiet s = record { shared = s; turns = []; sent = []; started = [] }
