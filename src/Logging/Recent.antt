-- ===== src/Logging/Recent.antt =====
-- What the log page shows after any sequence of calls.
use vorn_media_server.Prelude.{
  length-drop, ℕ, ◌+◌, ◌-◌, ◌≤◌, zero, suc, List, [], ◌∷◌, ◌++◌, Text, is_empty, length, drop,
  length-append, ◌≡◌, refl, sym, ap, ◌∙◌, arith, ltb, Bool-cases, inl, inr,
}
use vorn_media_server.Logging.{
  Buffer, subscribe, unsubscribe, receive, recent, new_buffer, trim_right, clip, log_line, pass,
}
use vorn_media_server.Logging.Calls.{
  Call, logging, subscribing, unsubscribing, receiving, call, calls, logged, append_nil,
  write_blank, write_line, add_blank, add_nonblank, append_assoc,
}

abbrev pub last : ℕ → List Text → List Text
last n xs = drop (length xs - n) xs

drop-append : (k : ℕ) (xs ys : List Text) → k ≤ length xs → drop k (xs ++ ys) ≡ drop k xs ++ ys
drop-append zero xs ys h = refl
drop-append (suc k) [] ys h = absurd (omega arith)
drop-append (suc k) (x ∷ xs) ys h = drop-append k xs ys (omega arith)

drop_eq : {j k : ℕ} (xs : List Text) → j ≡ k → drop j xs ≡ drop k xs
drop_eq xs e = ap (λ n. drop n xs) e

drop_nil : (n : ℕ) → drop {A = Text} n [] ≡ []
drop_nil zero = refl
drop_nil (suc n) = refl

drop-drop : (j k : ℕ) (xs : List Text) → drop j (drop k xs) ≡ drop (k + j) xs
drop-drop j zero xs = ap (λ n. drop n xs) (omega arith)
drop-drop zero (suc k) [] = sym (drop_nil (suc k + zero))
drop-drop (suc j) (suc k) [] = sym (drop_nil (suc k + suc j))
drop-drop j (suc k) (x ∷ xs) = drop-drop j k xs ∙ drop_eq {j = suc (k + j)} (x ∷ xs) (omega arith)

last_short : (n : ℕ) (xs : List Text) → length xs ≤ n → last n xs ≡ xs
last_short n xs h = drop_eq {k = 0} xs (omega arith)

clip-last : (n : ℕ) (xs : List Text) → clip n xs ≡ last n xs
unfolding clip
clip-last n xs = elim (Bool-cases (ltb n (length xs))) [
  | inl e ↦ rw e refl
  | inr e ↦ rw e (sym (last_short n xs (ground arith)))
]

length-last : (n : ℕ) (xs : List Text) → length (last n xs) ≤ n
length-last n xs = omega (arith, length-drop (length xs - n) xs)

length-clip : (n : ℕ) (xs : List Text) → length (clip n xs) ≤ n
length-clip n xs = rw (clip-last n xs) (length-last n xs)

-- What was clipped away before is not among the last lines later.
last-append : (n : ℕ) (xs ys : List Text) → last n (last n xs ++ ys) ≡ last n (xs ++ ys)
last-append n xs ys =
    let k = length xs - n in
    ap (λ t. last n t) (sym (drop-append k xs ys (omega arith)))
    ∙ drop-drop (length (drop k (xs ++ ys)) - n) k (xs ++ ys)
    ∙ drop_eq (xs ++ ys) (omega (arith, length-drop k (xs ++ ys), length-append xs ys))

-- One more line, clipped, and then the rest.
last-clip :
    (n : ℕ) (xs : List Text) (line : Text) (ys : List Text)
    → last n (clip n (xs ++ line ∷ []) ++ ys) ≡ last n (xs ++ line ∷ ys)
last-clip n xs line ys =
    ap (λ t. last n (t ++ ys)) (clip-last n (xs ++ line ∷ []))
    ∙ last-append n (xs ++ line ∷ []) ys
    ∙ ap (λ t. last n t) (append_assoc xs (line ∷ []) ys)

lines-calls :
    (cs : List Call) (b : Buffer)
    → length b.lines ≤ b.max
    → (calls cs b).lines ≡ last b.max (b.lines ++ logged cs)
unfolding log_line subscribe unsubscribe receive
lines-calls [] b h = rw (append_nil b.lines) (sym (last_short b.max b.lines h))
lines-calls (logging p ∷ cs) b h = elim (Bool-cases (is_empty (trim_right p))) [
  | inl e ↦
      ap (λ c. (calls cs c).lines) (write_blank p b e)
      ∙ lines-calls cs (pass p b) h
      ∙ ap (λ t. last b.max (b.lines ++ t)) (add_blank (trim_right p) (logged cs) e)
  | inr e ↦
      ap (λ c. (calls cs c).lines) (write_line p b e)
      ∙ lines-calls cs (log_line (trim_right p) (pass p b))
          (length-clip b.max (b.lines ++ trim_right p ∷ []))
      ∙ last-clip b.max b.lines (trim_right p) (logged cs)
      ∙ ap (λ t. last b.max (b.lines ++ t)) (add_nonblank (trim_right p) (logged cs) e)
]
lines-calls (subscribing ∷ cs) b h = lines-calls cs (call subscribing b) h
lines-calls (unsubscribing ch ∷ cs) b h = lines-calls cs (call (unsubscribing ch) b) h
lines-calls (receiving ch ∷ cs) b h = lines-calls cs (call (receiving ch) b) h

-- After any sequence of writes, subscriptions, their ends and receipts on a new buffer, Recent is
-- the last `max` of the lines logged, oldest first.
pub recent-calls :
    (max : ℕ) (cs : List Call) → recent (calls cs (new_buffer max)) ≡ last max (logged cs)
unfolding recent new_buffer
recent-calls max cs = lines-calls cs (new_buffer max) (omega arith)
