-- ===== src/Select.antt =====
-- Choosing among ranked releases before a race, backend/internal/acquisition/service.go: hashes of
-- magnet links, duplicates, and releases that a provider has cached.
pub mod Dedupe
pub mod Cached
use vorn_media_server.Prelude.{
  ℕ, Bool, true, false, not, ◌&&◌, ◌||◌, Option, none, some, List, [], ◌∷◌, ◌++◌, map, Text, codes,
  to_lower, is_digit, is_empty, text_eq, leb, any, keep, ◌==◌, if◌then◌else◌,
}
use vorn_media_server.Quality.{NzbResult, ScoredRelease, ScoredNzbRelease, collect}

-- [a-z0-9] under (?i): the long s and the Kelvin sign fold into it.
abbrev pub is_hash_char : ℕ → Bool
is_hash_char c =
    is_digit c || leb b'a' (to_lower c) && leb (to_lower c) b'z' || (c == 0x17F || c == 0x212A)

-- strings.ToLower, which takes the Kelvin sign to k.
abbrev pub hash_lower : ℕ → ℕ
hash_lower c = if c == 0x212A then b'k' else to_lower c

abbrev pub hash_run : Text → Text
hash_run [] = []
hash_run (c ∷ s) = let rest = hash_run s in if is_hash_char c then hash_lower c ∷ rest else []

-- What follows `btih:` at the front, in any case.
abbrev pub after_prefix : Text → Text → Option Text
after_prefix [] s = some s
after_prefix (p ∷ ps) [] = none
after_prefix (p ∷ ps) (c ∷ s) =
    let rest = after_prefix ps s in if to_lower c == p then rest else none

abbrev pub hash_at : Text → Text
hash_at s = elim (after_prefix (codes "btih:") s) [ none ↦ [] | some rest ↦ hash_run rest ]

-- magnetHash; "" where no place of the URL matches `(?i)btih:([a-z0-9]+)`.
unfoldable pub magnet_hash : Text → Text
magnet_hash [] = []
magnet_hash (c ∷ s) =
    let later = magnet_hash s in let here = hash_at (c ∷ s) in if is_empty here then later else here

abbrev pub contains : List Text → Text → Bool
contains seen t = any (text_eq t) seen

-- The loop `if !seen[key] { seen[key] = true; out = append(out, c) }`.
module _ {ℓ} {A : Type ℓ} (key : A → Text) where
  pub dedupe_from : List Text → List A → List A
  dedupe_from seen [] = []
  dedupe_from seen (c ∷ cs) =
      let skipped = dedupe_from seen cs in
      let taken = c ∷ dedupe_from (key c ∷ seen) cs in
      if contains seen (key c) then skipped else taken

  unfoldable pub dedupe : List A → List A
  unfolding dedupe_from
  dedupe cs = dedupe_from [] cs

abbrev pub nzb_url : NzbResult → Text
nzb_url c = c.download_url

unfoldable pub dedupe_nzb_by_url : List NzbResult → List NzbResult
dedupe_nzb_by_url candidates = dedupe nzb_url candidates

abbrev pub release_url : ScoredRelease → Text
release_url r = r.result.download_url

abbrev pub nzb_release_url : ScoredNzbRelease → Text
nzb_release_url r = r.result.download_url

abbrev pub hash_of : ScoredRelease → Option Text
hash_of r = let h = magnet_hash (release_url r) in if is_empty h then none else some h

-- The distinct hashes that a race asks the provider about.
unfoldable pub hashes_to_check : List ScoredRelease → List Text
hashes_to_check ranked = dedupe (λ h. h) (collect hash_of ranked)

-- append(out, rest...) of the cached and of the others, each in rank order.
unfoldable pub cached_first {ℓ} : {A : Type ℓ} → (A → Bool) → List A → List A
cached_first is_cached ranked = keep is_cached ranked ++ keep (λ c. not (is_cached c)) ranked
