-- ===== src/Examples/Logs.antt =====
-- The log buffer at concrete inputs.
use vorn_media_server.Prelude.{◌≡◌, refl, [], ◌∷◌, List, Text, codes, map}
use vorn_media_server.Logging.{
  write, recent, new_buffer, trim_right, subscribe, clip, log_line, offer, unsubscribe, receive,
  taken,
}
use vorn_media_server.Logging.Calls.{
  Call, logging, subscribing, unsubscribing, receiving, calls, logged,
}
use vorn_media_server.Logging.Recent.{recent-calls, last}
use vorn_media_server.Logging.Fanout.{calls-sent, sent}

abbrev session : List Call
session =
    logging (codes "one\n")
    ∷ subscribing
    ∷ logging (codes "\n\n")
    ∷ logging (codes "two\n\n")
    ∷ subscribing
    ∷ receiving 0
    ∷ logging (codes "three")
    ∷ unsubscribing 0
    ∷ logging (codes "four\n")
    ∷ []

abbrev after : List Text
after = codes "five" ∷ codes "\n" ∷ codes "six\n" ∷ []

session-recent : recent (calls session (new_buffer 2)) ≡ codes "three" ∷ codes "four" ∷ []
unfolding recent new_buffer write trim_right log_line clip subscribe offer unsubscribe receive taken
session-recent = refl

session-subs :
    (calls session (new_buffer 2)).subs
    ≡ record { channel = 1; pending = codes "three" ∷ codes "four" ∷ [] } ∷ []
unfolding new_buffer write trim_right log_line clip subscribe offer unsubscribe receive taken
session-subs = refl

recent-calls_example : recent (calls session (new_buffer 2)) ≡ last 2 (logged session)
recent-calls_example = recent-calls 2 session

calls-sent_example :
    (calls (map logging after) (calls session (new_buffer 2))).subs
    ≡ map (sent (logged (map logging after))) (calls session (new_buffer 2)).subs
calls-sent_example = calls-sent 2 session after
