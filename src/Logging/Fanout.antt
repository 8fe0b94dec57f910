-- ===== src/Logging/Fanout.antt =====
-- What reaches the live subscribers.
use vorn_media_server.Prelude.{
  ℕ, ◌≤◌, zero, suc, List, [], ◌∷◌, ◌++◌, Text, is_empty, length, drop, take, take_all,
  length-append, ◌≡◌, refl, sym, ap, ◌∙◌, arith, ltb, Bool-cases, inl, inr, map, All, keep, not,
  Bool, ◌==◌,
}
use vorn_media_server.Logging.{
  Buffer, Subscriber, write, subscribe, unsubscribe, receive, new_buffer, trim_right, log_line,
  pass, offer, taken, channel_size,
}
use vorn_media_server.Logging.Calls.{
  Call, logging, subscribing, unsubscribing, receiving, call, calls, logged, append_nil,
  write_blank, write_line, add_blank, add_nonblank, append_assoc,
}

abbrev pub IsRoomy : Subscriber → Type 0
IsRoomy s = length s.pending ≤ channel_size

-- A subscriber that is sent some lines and reads none.
abbrev pub sent : List Text → Subscriber → Subscriber
sent lines s = record s { pending = take channel_size (s.pending ++ lines) }

take_full : (n : ℕ) (xs ys : List Text) → length xs ≡ n → take n (xs ++ ys) ≡ xs
take_full zero [] ys e = refl
take_full zero (x ∷ xs) ys e = absurd (omega arith)
take_full (suc n) [] ys e = absurd (omega arith)
take_full (suc n) (x ∷ xs) ys e = ap (λ t. x ∷ t) (take_full n xs ys (omega arith))

offer-sent :
    (line : Text) (lines : List Text) (s : Subscriber)
    → IsRoomy s
    → sent lines (offer line s) ≡ sent (line ∷ lines) s
unfolding offer
offer-sent line lines s h = elim (Bool-cases (ltb (length s.pending) channel_size)) [
  | inl e ↦ rw e (
      ap (λ t. record s { pending = take channel_size t })
        (append_assoc s.pending (line ∷ []) lines))
  | inr e ↦ rw e (
      ap (λ t. record s { pending = t })
        (take_full channel_size s.pending lines (ground arith)
          ∙ sym (take_full channel_size s.pending (line ∷ lines) (ground arith))))
]

offer-IsRoomy : (line : Text) (s : Subscriber) → IsRoomy s → IsRoomy (offer line s)
unfolding offer
offer-IsRoomy line s h = elim (Bool-cases (ltb (length s.pending) channel_size)) [
  | inl e ↦ rw e (ground (arith, length-append s.pending (line ∷ [])))
  | inr e ↦ rw e h
]

length-rest : (xs : List Text) → length (drop 1 xs) ≤ length xs
length-rest [] = omega arith
length-rest (x ∷ xs) = omega arith

taken-IsRoomy : (ch : ℕ) (s : Subscriber) → IsRoomy s → IsRoomy (taken ch s)
unfolding taken
taken-IsRoomy ch s h = elim (Bool-cases (s.channel == ch)) [
  | inl e ↦ rw e (omega (arith, length-rest s.pending))
  | inr e ↦ rw e h
]

module _ (f : Subscriber → Subscriber)
    (f-IsRoomy : (s : Subscriber) → IsRoomy s → IsRoomy (f s)) where
  All-map : (ss : List Subscriber) → All IsRoomy ss → All IsRoomy (map f ss)
  All-map [] h = tt
  All-map (s ∷ ss) h = (f-IsRoomy s h.0, All-map ss h.1)

All-keep : (p : Subscriber → Bool) (ss : List Subscriber) → All IsRoomy ss → All IsRoomy (keep p ss)
All-keep p [] h = tt
All-keep p (s ∷ ss) h = elim (Bool-cases (p s)) [
  | inl e ↦ rw e (h.0, All-keep p ss h.1)
  | inr e ↦ rw e (All-keep p ss h.1)
]

call-IsRoomy : (c : Call) (b : Buffer) → All IsRoomy b.subs → All IsRoomy (call c b).subs
unfolding write log_line subscribe unsubscribe receive
call-IsRoomy (logging p) b h = elim (Bool-cases (is_empty (trim_right p))) [
  | inl e ↦ rw e h
  | inr e ↦ rw e (All-map (offer (trim_right p)) (offer-IsRoomy (trim_right p)) b.subs h)
]
call-IsRoomy subscribing b h = (omega arith, h)
call-IsRoomy (unsubscribing ch) b h = All-keep (λ s. not (s.channel == ch)) b.subs h
call-IsRoomy (receiving ch) b h = All-map (taken ch) (taken-IsRoomy ch) b.subs h

calls-IsRoomy : (cs : List Call) (b : Buffer) → All IsRoomy b.subs → All IsRoomy (calls cs b).subs
calls-IsRoomy [] b h = h
calls-IsRoomy (c ∷ cs) b h = calls-IsRoomy cs (call c b) (call-IsRoomy c b h)

map-offer :
    (line : Text) (lines : List Text) (ss : List Subscriber)
    → All IsRoomy ss
    → map (sent lines) (map (offer line) ss) ≡ map (sent (line ∷ lines)) ss
map-offer line lines [] h = refl
map-offer line lines (s ∷ ss) h =
    rw (offer-sent line lines s h.0) (rw (map-offer line lines ss h.1) refl)

sent_none : (s : Subscriber) → IsRoomy s → s ≡ sent [] s
sent_none s h =
    ap (λ t. record s { pending = t })
      (sym (take_all channel_size s.pending h)
        ∙ ap (λ t. take channel_size t) (sym (append_nil s.pending)))

map-sent_none : (ss : List Subscriber) → All IsRoomy ss → ss ≡ map (sent []) ss
map-sent_none [] h = refl
map-sent_none (s ∷ ss) h =
    ap (λ t. t ∷ ss) (sent_none s h.0) ∙ ap (λ t. sent [] s ∷ t) (map-sent_none ss h.1)

-- Writes alone, on subscribers whose channels do not hold too much.
subs-writes :
    (ps : List Text) (b : Buffer)
    → All IsRoomy b.subs
    → (calls (map logging ps) b).subs ≡ map (sent (logged (map logging ps))) b.subs
unfolding log_line
subs-writes [] b h = map-sent_none b.subs h
subs-writes (p ∷ ps) b h = elim (Bool-cases (is_empty (trim_right p))) [
  | inl e ↦
      ap (λ c. (calls (map logging ps) c).subs) (write_blank p b e)
      ∙ subs-writes ps (pass p b) h
      ∙ ap (λ t. map (sent t) b.subs) (add_blank (trim_right p) (logged (map logging ps)) e)
  | inr e ↦
      ap (λ c. (calls (map logging ps) c).subs) (write_line p b e)
      ∙ subs-writes ps (log_line (trim_right p) (pass p b))
          (All-map (offer (trim_right p)) (offer-IsRoomy (trim_right p)) b.subs h)
      ∙ map-offer (trim_right p) (logged (map logging ps)) b.subs h
      ∙ ap (λ t. map (sent t) b.subs) (add_nonblank (trim_right p) (logged (map logging ps)) e)
]

-- After any sequence of calls on a new buffer, further writes that no reader interrupts leave in
-- each subscriber's channel the first 256 of what it had not read and the lines then logged, in
-- order, and drop the others.
pub calls-sent :
    (max : ℕ) (cs : List Call) (ps : List Text)
    → (calls (map logging ps) (calls cs (new_buffer max))).subs
      ≡ map (sent (logged (map logging ps))) (calls cs (new_buffer max)).subs
unfolding new_buffer
calls-sent max cs ps =
    subs-writes ps (calls cs (new_buffer max)) (calls-IsRoomy cs (new_buffer max) tt)
