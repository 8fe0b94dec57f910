-- ===== src/Transcode/Decision.antt =====
-- What a client can play decides how much work the server has.
use vorn_media_server.Prelude.{
  ℕ, ◌≤◌, Bool, not, ◌||◌, List, [], ◌∷◌, ◌++◌, Text, any, text_eq, ◌≡◌, refl, ap, ◌∙◌, arith,
  is_empty,
}
use vorn_media_server.Transcode.{
  MediaInfo, ClientCapabilities, PlaybackMode, mode_direct, mode_remux, mode_transcode, decide,
  mode_of, has_codec, web_compatible_video_codecs, web_compatible_audio_codecs,
}

-- The server's work for a mode.
abbrev pub effort : PlaybackMode → ℕ
effort mode_direct = 0
effort mode_remux = 1
effort mode_transcode = 2

abbrev pub with_codecs : List Text → List Text → ClientCapabilities → ClientCapabilities
with_codecs video audio caps = record {
  video_codecs = caps.video_codecs ++ video;
  audio_codecs = caps.audio_codecs ++ audio;
}

any-append : (p : Text → Bool) (xs ys : List Text) → any p (xs ++ ys) ≡ (any p xs || any p ys)
any-append p [] ys = refl
any-append p (x ∷ xs) ys = ground (arith, any-append p xs ys)

mode_of_le :
    (has_video native video more_video video' audio more_audio audio' : Bool)
    → video' ≡ (video || more_video)
    → audio' ≡ (audio || more_audio)
    → effort (mode_of has_video (not has_video || video') audio' (not has_video || native))
      ≤ effort (mode_of has_video (not has_video || video) audio (not has_video || native))
mode_of_le has_video native video more_video video' audio more_audio audio' v a =
    rw v (rw a (ground arith))

or_assoc : (a b c : Bool) → (a || (b || c)) ≡ ((a || b) || c)
or_assoc a b c = ground arith

wider :
    (base listed more : List Text) (codec : Text)
    → (has_codec base codec || has_codec (listed ++ more) codec)
      ≡ ((has_codec base codec || has_codec listed codec) || has_codec more codec)
wider base listed more codec =
    ap (λ b. has_codec base codec || b) (any-append (text_eq codec) listed more)
    ∙ or_assoc (has_codec base codec) (has_codec listed codec) (has_codec more codec)

-- A client that reports more codecs, whichever they are, never makes the server do more.
pub decide-monotone :
    (info : MediaInfo) (caps : ClientCapabilities) (video audio : List Text)
    → effort (decide info (with_codecs video audio caps)) ≤ effort (decide info caps)
unfolding decide
decide-monotone info caps video audio =
    mode_of_le (not (is_empty info.video_codec)) info.container_native _ _ _ _ _ _
      (wider web_compatible_video_codecs caps.video_codecs video info.video_codec)
      (wider web_compatible_audio_codecs caps.audio_codecs audio info.audio_codec)
