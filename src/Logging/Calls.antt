-- ===== src/Logging/Calls.antt =====
-- Sequences of calls on the buffer, and the lines that they log.
use vorn_media_server.Prelude.{
  ℕ, List, [], ◌∷◌, ◌++◌, Text, is_empty, length, ◌≡◌, refl, none, if◌then◌else◌, true, false,
}
use vorn_media_server.Logging.{
  Buffer, write, subscribe, unsubscribe, receive, trim_right, log_line, pass,
}

-- A call on the buffer; `logging` is Write.
pub data Call : Type 0 where
  logging : Text → Call
  subscribing : Call
  unsubscribing : ℕ → Call
  receiving : ℕ → Call

abbrev pub call : Call → Buffer → Buffer
call (logging p) b = (write (λ _ _. (length p, none)) p b).1
call subscribing b = (subscribe b).1
call (unsubscribing ch) b = unsubscribe ch b
call (receiving ch) b = receive ch b

abbrev pub calls : List Call → Buffer → Buffer
calls [] b = b
calls (c ∷ cs) b = calls cs (call c b)

-- The lines logged by a sequence of calls, oldest first.
abbrev pub add_line : Text → List Text → List Text
add_line line rest = if is_empty line then rest else line ∷ rest

abbrev pub logged : List Call → List Text
logged [] = []
logged (logging p ∷ cs) = add_line (trim_right p) (logged cs)
logged (subscribing ∷ cs) = logged cs
logged (unsubscribing ch ∷ cs) = logged cs
logged (receiving ch ∷ cs) = logged cs

pub write_blank :
    (p : Text) (b : Buffer) → is_empty (trim_right p) ≡ true → call (logging p) b ≡ pass p b
unfolding write
write_blank p b e = rw e refl

pub write_line :
    (p : Text) (b : Buffer)
    → is_empty (trim_right p) ≡ false
    → call (logging p) b ≡ log_line (trim_right p) (pass p b)
unfolding write
write_line p b e = rw e refl

pub add_blank : (line : Text) (rest : List Text) → is_empty line ≡ true → rest ≡ add_line line rest
add_blank line rest e = rw e refl

pub add_nonblank :
    (line : Text) (rest : List Text) → is_empty line ≡ false → line ∷ rest ≡ add_line line rest
add_nonblank line rest e = rw e refl

pub append_assoc : (xs ys zs : List Text) → (xs ++ ys) ++ zs ≡ xs ++ (ys ++ zs)
append_assoc [] ys zs = refl
append_assoc (x ∷ xs) ys zs = rw (append_assoc xs ys zs) refl

pub append_nil : (xs : List Text) → xs ++ [] ≡ xs
append_nil [] = refl
append_nil (x ∷ xs) = rw (append_nil xs) refl
