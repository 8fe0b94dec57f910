-- ===== src/Filename.antt =====
-- Names of media files, backend/internal/scanner/parse.go, videofiles.go and hash_detect.go. The
-- regular expressions have one way to match at a place, so each is a function from the text there.
pub mod Titles
use vorn_media_server.Prelude.{
  ℕ, zero, suc, ◌+◌, ◌-◌, ◌*◌, Bool, true, false, not, ◌&&◌, ◌||◌, Option, none, some, List, [],
  ◌∷◌, ◌++◌, map, Text, codes, text_eq, to_lower, is_digit, is_empty, leb, ltb, any, length, ◌==◌,
  if◌then◌else◌,
}
use vorn_media_server.Prelude.Digits.{is_space, trim_left, trim_right}
use vorn_media_server.Titles.{is_some}

-- Greedy \d{0,k}: the digits taken, and the rest.
abbrev pub take_digits : ℕ → Text → Text × Text
take_digits zero s = ([], s)
take_digits (suc k) [] = ([], [])
take_digits (suc k) (c ∷ s) =
    let (d, r) = take_digits k s in if is_digit c then (c ∷ d, r) else ([], c ∷ s)

-- strconv.Atoi on digits.
abbrev pub atoi_from : ℕ → Text → ℕ
atoi_from n [] = n
atoi_from n (c ∷ s) = atoi_from (n * 10 + (c - b'0')) s

abbrev pub atoi : Text → ℕ
atoi s = atoi_from 0 s

-- [Ss] under (?i) is also U+017F, the long s.
abbrev pub is_s : ℕ → Bool
is_s c = c == b's' || (c == b'S' || c == 0x17F)

abbrev pub is_e : ℕ → Bool
is_e c = c == b'e' || c == b'E'

abbrev pub is_x : ℕ → Bool
is_x c = c == b'x' || c == b'X'

-- [._ ]?
abbrev pub skip_separator : Text → Text
skip_separator [] = []
skip_separator (c ∷ s) = if c == b'.' || (c == b'_' || c == b' ') then s else c ∷ s

-- A marker such as E or x, then \d{1,3}.
abbrev pub after_marker : (ℕ → Bool) → Text → Text → Option (Text × Text)
after_marker is_marker season [] = none
after_marker is_marker season (c ∷ s) =
    let number = (take_digits 3 s).0 in
    if is_marker c && not (is_empty number) then some (season, number) else none

-- The season's and the episode's digits of `[Ss](\d{1,2})[._ ]?[Ee](\d{1,3})`.
abbrev pub sxxexx_at : Text → Option (Text × Text)
sxxexx_at [] = none
sxxexx_at (c ∷ s) =
    let (season, rest) = take_digits 2 s in
    if is_s c && not (is_empty season) then after_marker is_e season (skip_separator rest) else none

-- `(\d{1,2})x(\d{1,3})`
abbrev pub nxn_at : Text → Option (Text × Text)
nxn_at s =
    let (season, rest) = take_digits 2 s in
    if is_empty season then none else after_marker is_x season rest

-- \s of Go's regexp.
abbrev pub is_regexp_space : ℕ → Bool
is_regexp_space c = c == b' ' || (c == 9 || (c == 10 || (c == 12 || c == 13)))

abbrev pub opens_year : ℕ → Bool
opens_year c = c == b'(' || (c == b'.' || (c == b'_' || is_regexp_space c))

abbrev pub closes_year : Text → Bool
closes_year [] = true
closes_year (c ∷ s) = c == b')' || (c == b'.' || (c == b'_' || is_regexp_space c))

abbrev pub is_year : Text → Bool
is_year (a ∷ b ∷ c ∷ d ∷ []) =
    (a == b'1' && b == b'9' || a == b'2' && b == b'0') && (is_digit c && is_digit d)
is_year s = false

-- `(?:\(|\.|_|\s)(19\d{2}|20\d{2})(?:\)|\.|_|\s|$)`
abbrev pub year_at : Text → Option Text
year_at (o ∷ a ∷ b ∷ c ∷ d ∷ s) =
    let year = a ∷ b ∷ c ∷ d ∷ [] in
    if opens_year o && (is_year year && closes_year s) then some year else none
year_at s = none

-- FindStringSubmatchIndex: the text before the first place that matches, and the match.
abbrev pub first_match {ℓ} : {A : Type ℓ} → (Text → Option A) → Text → Option (Text × A)
first_match at [] = none
first_match at (c ∷ s) = elim (at (c ∷ s)) [
  | some a ↦ some ([], a)
  | none ↦ elim (first_match at s) [ none ↦ none | some (before, a) ↦ some (c ∷ before, a) ]
]

unfoldable pub looks_like_single_episode : Text → Bool
looks_like_single_episode title =
    is_some (first_match sxxexx_at title) || is_some (first_match nxn_at title)

-- The text before and behind the last place of a character.
abbrev pub split_last : ℕ → Text → Option (Text × Text)
split_last c [] = none
split_last c (x ∷ s) = elim (split_last c s) [
  | some (before, behind) ↦ some (x ∷ before, behind)
  | none ↦ if x == c then some ([], s) else none
]

abbrev pub all_slashes : Text → Bool
all_slashes [] = true
all_slashes (c ∷ s) = c == b'/' && all_slashes s

abbrev pub strip_slashes : Text → Text
strip_slashes [] = []
strip_slashes (c ∷ s) = let rest = strip_slashes s in if all_slashes (c ∷ s) then [] else c ∷ rest

abbrev pub after_slash : Text → Text
after_slash s = elim (split_last b'/' s) [ none ↦ s | some (before, behind) ↦ behind ]

-- filepath.Base, with / as the separator.
abbrev pub base_name : Text → Text
base_name [] = codes "."
base_name (c ∷ s) =
    let stripped = strip_slashes (c ∷ s) in
    if is_empty stripped then codes "/" else after_slash stripped

-- strings.TrimSuffix(base, filepath.Ext(base))
abbrev pub stem : Text → Text
stem base = elim (split_last b'.' base) [ none ↦ base | some (before, behind) ↦ before ]

-- strings.NewReplacer(".", " ", "_", " ")
abbrev pub blank_out : ℕ → ℕ
blank_out c = if c == b'.' || c == b'_' then b' ' else c

abbrev pub flush : Text → List Text → List Text
flush [] words = words
flush (c ∷ w) words = (c ∷ w) ∷ words

-- strings.Fields, with the word read so far.
abbrev pub fields_from : Text → Text → List Text
fields_from word [] = flush word []
fields_from word (c ∷ s) =
    let ended = flush word (fields_from [] s) in
    let longer = fields_from (word ++ (c ∷ [])) s in if is_space c then ended else longer

-- strings.Join(words, " ")
abbrev pub join_words : List Text → Text
join_words [] = []
join_words (w ∷ []) = w
join_words (w ∷ v ∷ ws) = w ++ (b' ' ∷ join_words (v ∷ ws))

abbrev pub squeeze : Text → Text
squeeze s = join_words (fields_from [] s)

-- The cutset of strings.Trim(cleaned, " -._").
abbrev pub is_edge : ℕ → Bool
is_edge c = c == b' ' || (c == b'-' || (c == b'.' || c == b'_'))

abbrev pub all_edges : Text → Bool
all_edges [] = true
all_edges (c ∷ s) = is_edge c && all_edges s

abbrev pub trim_edges_right : Text → Text
trim_edges_right [] = []
trim_edges_right (c ∷ s) =
    let rest = trim_edges_right s in if all_edges (c ∷ s) then [] else c ∷ rest

abbrev pub trim_edges_left : Text → Text
trim_edges_left [] = []
trim_edges_left (c ∷ s) = let rest = trim_edges_left s in if is_edge c then rest else c ∷ s

unfoldable pub clean_title : Text → Text
clean_title raw = squeeze (trim_edges_left (trim_edges_right (map blank_out raw)))

pub data ParsedKind : Type 0 where
  movie episode : ParsedKind

pub record ParsedFile : Type 0 where
  pub kind : ParsedKind
  pub title : Text
  pub year : ℕ
  pub season_number : ℕ
  pub episode_number : ℕ

abbrev pub parsed_episode : Text → Text → Text → ParsedFile
parsed_episode before season number = record {
  kind = episode;
  title = clean_title before;
  year = 0;
  season_number = atoi season;
  episode_number = atoi number;
}

abbrev pub parsed_movie : Text → ℕ → ParsedFile
parsed_movie title year = record {
  kind = movie;
  title = title;
  year = year;
  season_number = 0;
  episode_number = 0;
}

abbrev pub parse_movie : Text → Option (Text × Text) → ParsedFile
parse_movie base none = parsed_movie (squeeze (map blank_out base)) 0
parse_movie base (some (before, year)) = parsed_movie (clean_title before) (atoi year)

abbrev pub parse_nxn : Text → Option (Text × (Text × Text)) → ParsedFile
parse_nxn base none = parse_movie base (first_match year_at base)
parse_nxn base (some (before, (season, number))) = parsed_episode before season number

abbrev pub parse_sxxexx : Text → Option (Text × (Text × Text)) → ParsedFile
parse_sxxexx base none = parse_nxn base (first_match nxn_at base)
parse_sxxexx base (some (before, (season, number))) = parsed_episode before season number

unfoldable pub parse_filename : Text → ParsedFile
parse_filename path =
    let base = stem (base_name path) in parse_sxxexx base (first_match sxxexx_at base)

abbrev pub video_extensions : List Text
video_extensions =
    codes ".mkv"
    ∷ codes ".mp4"
    ∷ codes ".avi"
    ∷ codes ".mov"
    ∷ codes ".m4v"
    ∷ codes ".wmv"
    ∷ codes ".ts"
    ∷ codes ".m2ts"
    ∷ codes ".webm"
    ∷ codes ".flv"
    ∷ codes ".mpg"
    ∷ codes ".mpeg"
    ∷ []

unfoldable pub is_video_file : Text → Bool
is_video_file name = elim (split_last b'.' name) [
  | none ↦ false
  | some (before, behind) ↦ any (text_eq (map to_lower (b'.' ∷ behind))) video_extensions
]

abbrev pub is_separator : ℕ → Bool
is_separator c = c == b' ' || (c == b'.' || (c == b'-' || c == b'_'))

unfoldable pub is_probable_hash : Text → Bool
is_probable_hash name =
    let s = stem (base_name name) in if ltb (length s) 25 then false else not (any is_separator s)
