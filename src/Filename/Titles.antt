-- ===== src/Filename/Titles.antt =====
-- The titles and search queries that acquisition writes, read by the scanner's patterns
-- (backend/internal/scanner/parse.go, backend/internal/store/media_items.go).
use vorn_media_server.Prelude.{
  ℕ, zero, suc, ◌+◌, ◌/◌, ◌%◌, ◌<◌, true, false, Bool-cases, inl, inr, Option, none, some, [], ◌∷◌,
  ◌++◌, Text, ◌≡◌, refl, arith, is_digit, ltb, Option-cases,
}
use vorn_media_server.Prelude.Digits.{itoa, itoa_fuel, pad2}
use vorn_media_server.Titles.{is_some}
use vorn_media_server.Filename.{atoi, sxxexx_at, first_match, looks_like_single_episode}
use vorn_media_server.Store.Promoted.{episode_display_title}
use vorn_media_server.Acquire.{series_query}

-- A two-digit number, and its text.
record TwoDigits (n : ℕ) : Type 0 where
  tens : ℕ
  ones : ℕ
  text : pad2 n ≡ tens ∷ ones ∷ []
  tens_digit : is_digit tens ≡ true
  ones_digit : is_digit ones ≡ true
  value : atoi (tens ∷ ones ∷ []) ≡ n

itoa_small : (f n : ℕ) → ltb n 10 ≡ true → itoa_fuel (suc f) n ≡ (b'0' + n) ∷ []
itoa_small f n e = ground arith

itoa_step :
    (f n : ℕ)
    → ltb n 10 ≡ false
    → itoa_fuel (suc f) n ≡ itoa_fuel f (n / 10) ++ ((b'0' + n % 10) ∷ [])
itoa_step f n e = ground arith

itoa_two :
    (f n : ℕ)
    → ltb n 10 ≡ false
    → ltb (n / 10) 10 ≡ true
    → itoa_fuel (suc (suc f)) n ≡ (b'0' + n / 10) ∷ (b'0' + n % 10) ∷ []
itoa_two f n e k = rw (itoa_step (suc f) n e, itoa_small f (n / 10) k) refl

digit_of : (n : ℕ) → n < 10 → is_digit (b'0' + n) ≡ true
digit_of n l = ground arith

pad2-TwoDigits : (n : ℕ) → n < 100 → TwoDigits n
unfolding pad2 itoa
pad2-TwoDigits zero l = record {
  tens = b'0';
  ones = b'0';
  text = refl;
  tens_digit = refl;
  ones_digit = refl;
  value = refl;
}
pad2-TwoDigits (suc k) l = elim (Bool-cases (ltb (suc k) 10)) [
  | inl e ↦ record {
    tens = b'0';
    ones = b'0' + suc k;
    text = rw (e, itoa_small (suc k) (suc k) e) refl;
    tens_digit = refl;
    ones_digit = digit_of (suc k) (ground arith);
    value = omega arith;
  }
  | inr e ↦ record {
    tens = b'0' + suc k / 10;
    ones = b'0' + suc k % 10;
    text = rw (e, itoa_two k (suc k) e (ground arith)) refl;
    tens_digit = digit_of (suc k / 10) (omega arith);
    ones_digit = digit_of (suc k % 10) (omega arith);
    value = omega arith;
  }
]

-- A season marker and an episode marker of two digits each, at the end of a text.
abbrev marked : ℕ → ℕ → ℕ → ℕ → Text
marked a b c d = b'S' ∷ a ∷ b ∷ b'E' ∷ c ∷ d ∷ []

sxxexx_at-marked :
    (a b c d : ℕ)
    → is_digit a ≡ true
    → is_digit b ≡ true
    → is_digit c ≡ true
    → is_digit d ≡ true
    → sxxexx_at (marked a b c d) ≡ some (a ∷ b ∷ [], c ∷ d ∷ [])
sxxexx_at-marked a b c d ha hb hc hd = rw (ha, hb, hc, hd) refl

display-marked :
    {s e : ℕ} (x : TwoDigits s) (y : TwoDigits e)
    → episode_display_title s e ≡ marked x.tens x.ones y.tens y.ones
unfolding episode_display_title
display-marked x y = rw (x.text, y.text) refl

first_match-here {ℓ} :
    {A : Type ℓ} (at : Text → Option A) (c : ℕ) (s : Text) (a : A)
    → at (c ∷ s) ≡ some a
    → first_match at (c ∷ s) ≡ some ([], a)
first_match-here at c s a e = rw (first_match, e) refl

-- The title under which the placeholder of an episode is created is read back by the scanner's
-- pattern as the same season and episode, for numbers below 100.
pub episode_display_title-parsed :
    (s e : ℕ)
    → s < 100
    → e < 100
    → (season : Text) × (episode : Text) × (first_match sxxexx_at (episode_display_title s e)
        ≡ some ([], (season, episode)))
      × (atoi season ≡ s)
      × (atoi episode ≡ e)
episode_display_title-parsed s e ls le =
    let x = pad2-TwoDigits s ls in
    let y = pad2-TwoDigits e le in
    let at =
      sxxexx_at-marked x.tens x.ones y.tens y.ones x.tens_digit x.ones_digit y.tens_digit
        y.ones_digit in
    (
      x.tens ∷ x.ones ∷ [],
      y.tens ∷ y.ones ∷ [],
      rw (display-marked x y) (
          first_match-here sxxexx_at b'S' (x.tens ∷ x.ones ∷ b'E' ∷ y.tens ∷ y.ones ∷ [])
            (x.tens ∷ x.ones ∷ [], y.tens ∷ y.ones ∷ []) at),
      x.value,
      y.value,
    )

prepend-some {ℓ} :
    {A : Type ℓ} (x : ℕ) (o : Option (Text × A))
    → is_some o ≡ true
    → is_some (elim o as (λ _. Option (Text × A)) [ none ↦ none | some (b, a) ↦ some (x ∷ b, a) ])
      ≡ true
prepend-some x none h = h
prepend-some x (some p) h = refl

first_match-cons {ℓ} :
    {A : Type ℓ} (at : Text → Option A) (x : ℕ) (t : Text)
    → is_some (first_match at t) ≡ true
    → is_some (first_match at (x ∷ t)) ≡ true
first_match-cons at x t h = elim (Option-cases (at (x ∷ t))) [
  | inr (b, k) ↦ rw (is_some, first_match, k) refl
  | inl k ↦ rw (first_match, k) (prepend-some x (first_match at t) h)
]

first_match-append {ℓ} :
    {A : Type ℓ} (at : Text → Option A) (before t : Text)
    → is_some (first_match at t) ≡ true
    → is_some (first_match at (before ++ t)) ≡ true
first_match-append at [] t h = h
first_match-append at (x ∷ before) t h =
    first_match-cons at x (before ++ t) (first_match-append at before t h)

-- Every query that acquisition makes for an episode, whatever the title of its series, is one that a
-- season pack search would reject as naming a single episode, for numbers below 100.
pub series_query-single :
    (title : Text) (s e : ℕ)
    → s < 100
    → e < 100
    → looks_like_single_episode (series_query title s e) ≡ true
unfolding looks_like_single_episode
series_query-single title s e ls le =
    let x = pad2-TwoDigits s ls in
    let y = pad2-TwoDigits e le in
    let at =
      sxxexx_at-marked x.tens x.ones y.tens y.ones x.tens_digit x.ones_digit y.tens_digit
        y.ones_digit in
    rw
      (first_match-append sxxexx_at title (b' ' ∷ b'S' ∷ (pad2 s ++ (b'E' ∷ pad2 e))) (
        first_match-cons sxxexx_at b' ' (b'S' ∷ (pad2 s ++ (b'E' ∷ pad2 e))) (
          rw
            (
              x.text,
              y.text,
              first_match-here sxxexx_at b'S' (x.tens ∷ x.ones ∷ b'E' ∷ y.tens ∷ y.ones ∷ [])
                  (x.tens ∷ x.ones ∷ [], y.tens ∷ y.ones ∷ []) at,
            )
            refl)))
      refl

-- For season and episode numbers below 100, the title of an episode's placeholder is read back by
-- the scanner's pattern as the same numbers, and the search query for the episode, whatever the
-- title of its series, is recognised as naming a single episode.
pub episode_names :
    (title : Text) (s e : ℕ)
    → s < 100
    → e < 100
    → (season : Text) × (episode : Text) × (first_match sxxexx_at (episode_display_title s e)
        ≡ some ([], (season, episode)))
      × (atoi season ≡ s)
      × (atoi episode ≡ e)
      × (looks_like_single_episode (series_query title s e) ≡ true)
episode_names title s e ls le =
    let (season, episode, found, reads, counts) = episode_display_title-parsed s e ls le in
    (season, episode, found, reads, counts, series_query-single title s e ls le)
