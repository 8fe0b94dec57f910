-- ===== src/Examples/Playback.antt =====
-- Playback decisions and the session pool at concrete inputs.
use Prim.Native.Nat.{max}
use vorn_media_server.Prelude.{
  ◌≡◌, ◌≤◌, ◌&&◌, not, refl, [], ◌∷◌, List, Text, Option, codes, none, some, true, false, keep,
  length,
}
use vorn_media_server.Transcode.{
  MediaInfo, ClientCapabilities, decide, mode_remux, mode_transcode, slot_free, start_works, exits,
  returns, clear_finished, new_manager, start_session, displace, run, run_at, run_next, get_session,
  status_running, working,
}
use vorn_media_server.Transcode.Decision.{decide-monotone, effort, with_codecs}
use vorn_media_server.Transcode.Pool.{Step, starting, going, steps, steps-working, is_working}
use vorn_media_server.Transcode.Cleared.{clear_finished-past, is_past}

abbrev film_info : MediaInfo
film_info = record {
  video_codec = codes "hevc";
  audio_codec = codes "aac";
  container_native = false;
}

abbrev no_codecs : ClientCapabilities
no_codecs = record { video_codecs = []; audio_codecs = [] }

film_transcoded : decide film_info no_codecs ≡ mode_transcode
unfolding decide
film_transcoded = refl

film_remuxed : decide film_info (with_codecs (codes "hevc" ∷ []) [] no_codecs) ≡ mode_remux
unfolding decide
film_remuxed = refl

-- Two sessions on one place: the second waits until the first has ended.
abbrev evening : List Step
evening =
    starting none (codes "a") (codes "/a.mkv")
    ∷ starting none (codes "b") (codes "/b.mkv")
    ∷ going slot_free 0
    ∷ going slot_free 1
    ∷ going start_works 0
    ∷ going (exits false) 0
    ∷ going returns 0
    ∷ going slot_free 1
    ∷ going start_works 1
    ∷ []

abbrev failing : Text → Option Text
failing id = some (codes "busy")

evening-b :
    get_session (codes "b") (steps evening (new_manager 1))
    ≡ some (record {
      id = codes "b";
      source_path = codes "/b.mkv";
      status = status_running;
      canceled = false;
      tracked = true;
      phase = working;
    })
unfolding new_manager start_session displace run run_at run_next get_session
evening-b = refl

decide-monotone_example :
    effort (decide film_info (with_codecs (codes "hevc" ∷ []) [] no_codecs))
    ≤ effort (decide film_info no_codecs)
decide-monotone_example = decide-monotone film_info no_codecs (codes "hevc" ∷ []) []

steps-working_example :
    length (keep (λ s. is_working s.phase) (steps evening (new_manager 1)).sessions) ≤ max 1 1
steps-working_example = steps-working 1 evening

clear_finished-past_example :
    keep (λ s. s.tracked) (clear_finished failing (steps evening (new_manager 1))).1.sessions
    ≡ keep (λ s. s.tracked && not (is_past s.phase)) (steps evening (new_manager 1)).sessions
clear_finished-past_example = clear_finished-past failing 1 evening
