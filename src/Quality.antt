-- ===== src/Quality.antt =====
-- Scoring of releases against a library's quality profile,
-- backend/internal/acquisition/quality.go; the profile is backend/internal/store/quality_profiles.go.
pub mod Accept
pub mod Rank
pub mod Nzb
use vorn_media_server.Prelude.{
  ℕ, ◌+◌, ◌*◌, min, Bool, true, false, ◌&&◌, ◌||◌, not, Option, none, some, List, [], ◌∷◌, Text,
  head?, is_empty, text_eq, codes, ltb, if◌then◌else◌,
}
use vorn_media_server.Prelude.Sort.{sort_desc}
use vorn_media_server.Titles.{Resolution, parse_resolution, parse_codec, is_remux, resolution_tier}

-- torrent.SearchResult. Times are opaque numbers.
pub record SearchResult : Type 0 where
  pub indexer_name : Text
  pub title : Text
  pub size_bytes : ℕ
  pub seeders : ℕ
  pub peers : ℕ
  pub download_url : Text
  pub published_at : ℕ

-- nzb.SearchResult
pub record NzbResult : Type 0 where
  pub indexer_name : Text
  pub title : Text
  pub size_bytes : ℕ
  pub download_url : Text
  pub published_at : ℕ

pub record QualityProfile : Type 0 where
  pub min_resolution : Text
  pub max_resolution : Text
  pub preferred_codec : Text
  pub min_seeders : ℕ
  pub prefer_remux : Bool

abbrev pub default_quality_profile : QualityProfile
default_quality_profile = record {
  min_resolution = codes "720p";
  max_resolution = codes "2160p";
  preferred_codec = [];
  min_seeders = 1;
  prefer_remux = false;
}

pub record ScoredRelease : Type 0 where
  pub result : SearchResult
  pub resolution : Resolution
  pub codec : Text
  pub score : ℕ

pub record ScoredNzbRelease : Type 0 where
  pub result : NzbResult
  pub resolution : Resolution
  pub codec : Text
  pub score : ℕ

abbrev pub seeder_score_cap : ℕ
seeder_score_cap = 500

abbrev pub resolution_bonus : ℕ → ℕ
resolution_bonus tier = tier * 100

-- The tier of a profile's bound, or a default where the bound is not a resolution.
abbrev pub bound_tier : ℕ → ℕ × Bool → ℕ
bound_tier default (tier, known) = if known then tier else default

unfoldable pub min_tier : QualityProfile → ℕ
min_tier profile = bound_tier 0 (resolution_tier profile.min_resolution)

unfoldable pub max_tier : QualityProfile → ℕ
max_tier profile = bound_tier 3 (resolution_tier profile.max_resolution)

-- known && (tier < minTier || tier > maxTier)
abbrev pub out_of_band : ℕ → ℕ → ℕ × Bool → Bool
out_of_band lo hi (tier, known) = known && (ltb tier lo || ltb hi tier)

abbrev pub tier_bonus : ℕ × Bool → ℕ
tier_bonus (tier, known) = if known then resolution_bonus tier else 0

unfoldable pub codec_bonus : QualityProfile → Text → ℕ
codec_bonus profile codec =
    if not (is_empty profile.preferred_codec) && text_eq codec profile.preferred_codec
    then 50
    else 0

unfoldable pub remux_bonus : QualityProfile → Text → ℕ
remux_bonus profile title = if profile.prefer_remux && is_remux title then 25 else 0

-- The body of ScoreAndRank's loop; `none` is `continue`.
unfoldable pub consider : QualityProfile → SearchResult → Option ScoredRelease
consider profile c =
    let res = parse_resolution c.title in
    let codec = parse_codec c.title in
    if ltb c.seeders profile.min_seeders
    then none
    else if out_of_band (min_tier profile) (max_tier profile) (resolution_tier res)
    then none
    else some (record {
      result = c;
      resolution = res;
      codec = codec;
      score =
          min c.seeders seeder_score_cap
          + tier_bonus (resolution_tier res)
          + codec_bonus profile codec
          + remux_bonus profile c.title;
    })

-- A loop that appends what its body produces.
abbrev pub collect {ℓ κ} : {A : Type ℓ} {B : Type κ} → (A → Option B) → List A → List B
collect f [] = []
collect f (x ∷ xs) = let rest = collect f xs in elim (f x) [ none ↦ rest | some y ↦ y ∷ rest ]

abbrev pub score : ScoredRelease → ℕ
score r = r.score

unfoldable pub score_and_rank : List SearchResult → QualityProfile → List ScoredRelease
score_and_rank candidates profile = sort_desc score (collect (consider profile) candidates)

-- `none` is ErrNoAcceptableRelease.
unfoldable pub score_and_pick : List SearchResult → QualityProfile → Option ScoredRelease
score_and_pick candidates profile = head? (score_and_rank candidates profile)

unfoldable pub consider_nzb : QualityProfile → NzbResult → Option ScoredNzbRelease
consider_nzb profile c =
    let res = parse_resolution c.title in
    let codec = parse_codec c.title in
    if out_of_band (min_tier profile) (max_tier profile) (resolution_tier res)
    then none
    else some (record {
      result = c;
      resolution = res;
      codec = codec;
      score =
          tier_bonus (resolution_tier res)
          + codec_bonus profile codec
          + remux_bonus profile c.title;
    })

abbrev pub nzb_score : ScoredNzbRelease → ℕ
nzb_score r = r.score

unfoldable pub score_and_rank_nzb : List NzbResult → QualityProfile → List ScoredNzbRelease
score_and_rank_nzb candidates profile =
    sort_desc nzb_score (collect (consider_nzb profile) candidates)
