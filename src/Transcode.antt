-- ===== src/Transcode.antt =====
-- How a file is played, backend/internal/transcode/decision.go, and the pool of ffmpeg sessions of
-- backend/internal/transcode/session.go.
pub mod Decision
pub mod Fair
pub mod Pool
pub mod Cleared
use vorn_media_server.Prelude.{
  ℕ, zero, suc, ◌-◌, Bool, true, false, not, ◌&&◌, ◌||◌, Option, none, some, List, [], ◌∷◌, ◌++◌,
  map, Text, codes, text_eq, is_empty, any, ltb, keep, find, if◌then◌else◌,
}

-- The part of MediaInfo that Decide reads.
pub record MediaInfo : Type 0 where
  pub video_codec : Text
  pub audio_codec : Text
  pub container_native : Bool

pub record ClientCapabilities : Type 0 where
  pub video_codecs : List Text
  pub audio_codecs : List Text

pub data PlaybackMode : Type 0 where
  mode_direct : PlaybackMode
  mode_remux : PlaybackMode
  mode_transcode : PlaybackMode

abbrev pub web_compatible_video_codecs : List Text
web_compatible_video_codecs = codes "h264" ∷ codes "vp9" ∷ codes "vp8" ∷ codes "av1" ∷ []

abbrev pub web_compatible_audio_codecs : List Text
web_compatible_audio_codecs = codes "aac" ∷ codes "opus" ∷ codes "mp3" ∷ []

abbrev pub has_codec : List Text → Text → Bool
has_codec listed codec = any (text_eq codec) listed

abbrev pub supports_video : ClientCapabilities → Text → Bool
supports_video caps codec = has_codec caps.video_codecs codec

abbrev pub supports_audio : ClientCapabilities → Text → Bool
supports_audio caps codec = has_codec caps.audio_codecs codec

-- The switch at the end of Decide.
abbrev pub mode_of : Bool → Bool → Bool → Bool → PlaybackMode
mode_of has_video video audio container =
    if video && (audio && container)
    then mode_direct
    else if has_video && video
    then mode_remux
    else mode_transcode

unfoldable pub decide : MediaInfo → ClientCapabilities → PlaybackMode
decide info caps =
    let has_video = not (is_empty info.video_codec) in
    mode_of has_video
      (not has_video
        || (has_codec web_compatible_video_codecs info.video_codec
            || supports_video caps info.video_codec))
      (has_codec web_compatible_audio_codecs info.audio_codec
        || supports_audio caps info.audio_codec)
      (not has_video || info.container_native)

pub data SessionStatus : Type 0 where
  status_starting : SessionStatus
  status_running : SessionStatus
  status_stopped : SessionStatus
  status_failed : SessionStatus

-- Where the goroutine `run` of a session stands: at its select, past it with a slot, waiting for
-- ffmpeg, past its last setStatus with the slot still to be released by the deferred function or with
-- none, or returned.
pub data Phase : Type 0 where
  waiting : Phase
  holding : Phase
  working : Phase
  releasing : Phase
  leaving : Phase
  over : Phase

-- A session with its goroutine; `tracked` says that the manager's map holds it.
pub record Session : Type 0 where
  pub id : Text
  pub source_path : Text
  pub status : SessionStatus
  pub canceled : Bool
  pub tracked : Bool
  pub phase : Phase

-- Manager. `sem` is the number of values in the channel of `capacity` places.
pub record Manager : Type 0 where
  pub capacity : ℕ
  pub sem : ℕ
  pub sessions : List Session

unfoldable pub new_manager : ℕ → Manager
new_manager max_concurrent = record {
  capacity = if ltb max_concurrent 1 then 1 else max_concurrent;
  sem = 0;
  sessions = [];
}

abbrev pub is_entry : Text → Session → Bool
is_entry id s = s.tracked && text_eq s.id id

-- What `m.sessions[id] = sess` does to the entry that was there.
unfoldable pub displace : Text → Session → Session
displace id s = if is_entry id s then record s { tracked = false } else s

-- StartSession. `made` is the error of MkdirAll; the goroutine begins at its select.
unfoldable pub start_session : Option Text → Text → Text → Manager → Option Text × Manager
unfolding displace
start_session (some e) id path m = (some e, m)
start_session none id path m = (
  none,
  record m {
    sessions =
        map (displace id) m.sessions
        ++ record {
          id = id;
          source_path = path;
          status = status_starting;
          canceled = false;
          tracked = true;
          phase = waiting;
        }
          ∷ [];
  },
)

-- What can happen next to a goroutine: a free slot, the end of its context, what Start and Wait say,
-- and, after its last status, that it goes on to its return.
pub data Event : Type 0 where
  slot_free : Event
  context_done : Event
  start_fails : Event
  start_works : Event
  exits : Bool → Event
  returns : Event

-- The last setStatus, before the way out that is left.
abbrev pub finish : SessionStatus → Phase → Session → Session
finish status next s = record s { status = status; phase = next }

-- The next stretch of `run`, with the semaphore; an event that the goroutine does not wait for
-- changes nothing.
unfoldable pub run_next : Event → ℕ → ℕ → Phase → Session → Session × ℕ
run_next slot_free capacity sem waiting s =
    if ltb sem capacity then (record s { phase = holding }, suc sem) else (s, sem)
run_next context_done capacity sem waiting s =
    if s.canceled then (finish status_stopped leaving s, sem) else (s, sem)
run_next start_fails capacity sem holding s = (finish status_failed releasing s, sem)
run_next start_works capacity sem holding s =
    (record s { status = status_running; phase = working }, sem)
run_next (exits failed) capacity sem working s =
    (finish (if failed && not s.canceled then status_failed else status_stopped) releasing s, sem)
run_next returns capacity sem releasing s = (record s { phase = over }, sem - 1)
run_next returns capacity sem leaving s = (record s { phase = over }, sem)
run_next _ capacity sem _ s = (s, sem)

-- The goroutine of the session at a place in the order of their starts.
unfoldable pub run_at : Event → ℕ → ℕ → ℕ → List Session → List Session × ℕ
unfolding run_next
run_at ev capacity sem n [] = ([], sem)
run_at ev capacity sem zero (s ∷ ss) =
    let out = run_next ev capacity sem s.phase s in (out.0 ∷ ss, out.1)
run_at ev capacity sem (suc n) (s ∷ ss) =
    let out = run_at ev capacity sem n ss in (s ∷ out.0, out.1)

unfoldable pub run : Event → ℕ → Manager → Manager
unfolding run_at
run ev n m =
    let out = run_at ev m.capacity m.sem n m.sessions in record m { sessions = out.0; sem = out.1 }

-- Get.
unfoldable pub get_session : Text → Manager → Option Session
get_session id m = find (is_entry id) m.sessions

unfoldable pub cancel : Text → Session → Session
cancel id s = if is_entry id s then record s { canceled = true; tracked = false } else s

-- Stop. `remove` is the error of RemoveAll.
unfoldable pub stop : (Text → Option Text) → Text → Manager → Option Text × Manager
unfolding cancel
stop remove id m = (
  if any (is_entry id) m.sessions then remove id else none,
  record m { sessions = map (cancel id) m.sessions },
)

abbrev pub is_finished : SessionStatus → Bool
is_finished status_stopped = true
is_finished status_failed = true
is_finished status_starting = false
is_finished status_running = false

unfoldable pub untrack_finished : Session → Session
untrack_finished s = if is_finished s.status then record s { tracked = false } else s

-- The loop of ClearFinished over the sessions it took out: how many went, and the first error.
abbrev pub removed : Option Text → ℕ × Option Text → ℕ × Option Text
removed none rest = (suc rest.0, rest.1)
removed (some e) rest = (rest.0, some e)

abbrev pub remove_all : (Text → Option Text) → List Session → ℕ × Option Text
remove_all remove [] = (0, none)
remove_all remove (s ∷ ss) = removed (remove s.id) (remove_all remove ss)

unfoldable pub clear_finished : (Text → Option Text) → Manager → (ℕ × Option Text) × Manager
unfolding untrack_finished
clear_finished remove m = (
  remove_all remove (keep (λ s. s.tracked && is_finished s.status) m.sessions),
  record m { sessions = map untrack_finished m.sessions },
)
