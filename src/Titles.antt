-- ===== src/Titles.antt =====
-- Release-title tags, backend/internal/acquisition/quality.go: the regular expressions
-- `\b(a|b|...)\b` under (?i) as a scan over code points, leftmost match first and, at one place,
-- the alternatives in the order written. `\.?` is two alternatives, the longer first.
pub mod Tags
pub mod Fields
pub mod Cases
use vorn_media_server.Prelude.{
  ℕ, ◌+◌, Bool, true, false, not, ◌&&◌, ◌||◌, Option, none, some, List, [], ◌∷◌, map, Text, codes,
  text_eq, to_lower, is_digit, leb, ◌==◌, if◌then◌else◌,
}
use mathlib.Core.Bool.{xor}

-- \w of Go's regexp: ASCII only.
abbrev pub is_word : ℕ → Bool
is_word c = is_digit c || leb b'a' (to_lower c) && leb (to_lower c) b'z' || c == b'_'

-- (?i) at a lower-case pattern letter; U+212A, the Kelvin sign, folds to k.
abbrev pub fold_eq : ℕ → ℕ → Bool
fold_eq p c = to_lower c == p || p == b'k' && c == 0x212A

-- The text that a tag matches at the front, and what follows it.
abbrev pub strip : Text → Text → Option (Text × Text)
strip [] s = some ([], s)
strip (p ∷ ps) [] = none
strip (p ∷ ps) (c ∷ s) = elim (strip ps s) [
  | none ↦ none
  | some (m, rest) ↦ if fold_eq p c then some (c ∷ m, rest) else none
]

abbrev pub starts_word : Text → Bool
starts_word [] = false
starts_word (c ∷ s) = is_word c

abbrev pub ends_word : Text → Bool
ends_word [] = false
ends_word (c ∷ []) = is_word c
ends_word (c ∷ d ∷ s) = ends_word (d ∷ s)

-- `\b` after a match.
abbrev pub closed : Option (Text × Text) → Option Text
closed none = none
closed (some (m, rest)) = if xor (ends_word m) (starts_word rest) then some m else none

abbrev pub or_else {ℓ} : {A : Type ℓ} → Option A → Option A → Option A
or_else none o = o
or_else (some a) o = some a

pub match_at : List Text → Text → Option Text
match_at [] s = none
match_at (tag ∷ tags) s = or_else (closed (strip tag s)) (match_at tags s)

-- The first match in a text; `prev` says whether a word character stands before it.
pub scan : List Text → Bool → Text → Option Text
unfolding match_at
scan tags prev [] = none
scan tags prev (c ∷ s) =
    let later = scan tags (is_word c) s in
    if xor prev (is_word c) then or_else (match_at tags (c ∷ s)) later else later

-- FindStringSubmatch's m[1], MatchString.
unfoldable pub find_tag : List Text → Text → Option Text
unfolding scan
find_tag tags title = scan tags false title

-- Resolution is a Go string type.
abbrev pub Resolution : Type 0
Resolution = Text

abbrev pub res_480p : Resolution
res_480p = codes "480p"

abbrev pub res_720p : Resolution
res_720p = codes "720p"

abbrev pub res_1080p : Resolution
res_1080p = codes "1080p"

abbrev pub res_2160p : Resolution
res_2160p = codes "2160p"

abbrev pub res_unknown : Resolution
res_unknown = []

abbrev pub tag_4k : Text
tag_4k = codes "4k"

abbrev pub resolution_pattern : List Text
resolution_pattern = res_2160p ∷ tag_4k ∷ res_1080p ∷ res_720p ∷ res_480p ∷ []

abbrev pub equal_fold_4k : Text → Bool
equal_fold_4k (a ∷ b ∷ []) = a == b'4' && fold_eq b'k' b
equal_fold_4k s = false

abbrev pub resolution_of : Option Text → Resolution
resolution_of none = res_unknown
resolution_of (some m) = if equal_fold_4k m then res_2160p else map to_lower m

unfoldable pub parse_resolution : Text → Resolution
unfolding find_tag
parse_resolution title = resolution_of (find_tag resolution_pattern title)

abbrev pub codec_pattern : List Text
codec_pattern =
    codes "x265"
    ∷ codes "hevc"
    ∷ codes "h.265"
    ∷ codes "h265"
    ∷ codes "x264"
    ∷ codes "h.264"
    ∷ codes "h264"
    ∷ codes "av1"
    ∷ []

-- strings.ReplaceAll(m, ".", "")
abbrev pub drop_dots : Text → Text
drop_dots [] = []
drop_dots (c ∷ s) = let rest = drop_dots s in if c == b'.' then rest else c ∷ rest

abbrev pub codec_name : Text → Text
codec_name t =
    if text_eq t (codes "x265") || text_eq t (codes "hevc") || text_eq t (codes "h265")
    then codes "x265"
    else if text_eq t (codes "x264") || text_eq t (codes "h264")
    then codes "x264"
    else if text_eq t (codes "av1")
    then codes "av1"
    else []

abbrev pub codec_of : Option Text → Text
codec_of none = []
codec_of (some m) = codec_name (map to_lower (drop_dots m))

unfoldable pub parse_codec : Text → Text
unfolding find_tag
parse_codec title = codec_of (find_tag codec_pattern title)

abbrev pub is_some {ℓ} : {A : Type ℓ} → Option A → Bool
is_some none = false
is_some (some a) = true

unfoldable pub is_remux : Text → Bool
unfolding find_tag
is_remux title = is_some (find_tag (codes "remux" ∷ []) title)

abbrev pub resolution_order : List Resolution
resolution_order = res_480p ∷ res_720p ∷ res_1080p ∷ res_2160p ∷ []

-- The `range` loop of resolutionTier from index `i`; (0, false) where no entry is equal.
abbrev pub tier_from : ℕ → List Resolution → Resolution → ℕ × Bool
tier_from i [] r = (0, false)
tier_from i (v ∷ vs) r = if text_eq v r then (i, true) else tier_from (i + 1) vs r

unfoldable pub resolution_tier : Resolution → ℕ × Bool
resolution_tier r = tier_from 0 resolution_order r
