-- ===== src/Quality/Accept.antt =====
-- Which candidates the scoring loop keeps, and the range of their scores.
use vorn_media_server.Prelude.{
  ℕ, ◌≤◌, ◌≡◌, refl, arith, Bool, true, false, ◌&&◌, not, some, List, [], ◌∷◌, Text, map, leb, keep,
  ◌⊎◌, ◌↔◌, none, Option-cases, inl, inr,
}
use vorn_media_server.Titles.{Resolution, parse_resolution, parse_codec, resolution_tier}
use vorn_media_server.Quality.{
  SearchResult, QualityProfile, ScoredRelease, min_tier, max_tier, consider, collect, out_of_band,
  tier_bonus, codec_bonus, remux_bonus,
}

-- What a profile asks of a release: enough seeders, and a resolution that is unknown or in its band.
pub record IsAcceptable (profile : QualityProfile) (c : SearchResult) : Type 0 where
  pub seeded : profile.min_seeders ≤ c.seeders
  pub in_band :
      ((resolution_tier (parse_resolution c.title)).1 ≡ false)
      ⊎ ((min_tier profile ≤ (resolution_tier (parse_resolution c.title)).0)
          × ((resolution_tier (parse_resolution c.title)).0 ≤ max_tier profile))

abbrev pub accepts : QualityProfile → SearchResult → Bool
accepts profile c =
    leb profile.min_seeders c.seeders
    && not (
        out_of_band (min_tier profile) (max_tier profile)
          (resolution_tier (parse_resolution c.title)))

-- A candidate is kept exactly when it has the seeders that the profile asks for and its resolution is
-- unknown or within the profile's band.
pub accepts_iff :
    (profile : QualityProfile) (c : SearchResult)
    → (accepts profile c ≡ true) ↔ IsAcceptable profile c
accepts_iff profile c = (
  λ h. record { seeded = ground arith; in_band = ground arith },
  λ h. ground (arith, h.seeded, h.in_band),
)

abbrev pub result : ScoredRelease → SearchResult
result r = r.result

pub collect-keep :
    (profile : QualityProfile) (cs : List SearchResult)
    → map result (collect (consider profile) cs) ≡ keep (accepts profile) cs
unfolding consider
collect-keep profile [] = refl
collect-keep profile (c ∷ cs) = ground (arith, collect-keep profile cs)

tier-le : (r : Resolution) → (resolution_tier r).0 ≤ 3
unfolding resolution_tier
tier-le r = ground arith

bonus-le : (t : ℕ × Bool) → t.0 ≤ 3 → tier_bonus t ≤ 300
bonus-le (t, known) h = ground arith

codec_bonus-le : (profile : QualityProfile) (codec : Text) → codec_bonus profile codec ≤ 50
unfolding codec_bonus
codec_bonus-le profile codec = ground arith

remux_bonus-le : (profile : QualityProfile) (title : Text) → remux_bonus profile title ≤ 25
unfolding remux_bonus
remux_bonus-le profile title = ground arith

-- A kept release scores at most 500 for seeders, 300 for resolution, 50 for codec and 25 for remux.
pub consider-score :
    (profile : QualityProfile) (c : SearchResult) {r : ScoredRelease}
    → consider profile c ≡ some r
    → r.score ≤ 875
unfolding consider
consider-score profile c h =
    let t = resolution_tier (parse_resolution c.title) in
    ground (
      arith,
      bonus-le (resolution_tier (parse_resolution c.title)) (tier-le (parse_resolution c.title)),
      codec_bonus-le profile (parse_codec c.title),
      remux_bonus-le profile c.title,
    )

-- A candidate is dropped and lacks what the profile asks for, or it is kept, has the profile's
-- seeders and a resolution that is unknown or within the profile's band, and scores at most 875.
pub consider_lem :
    (profile : QualityProfile) (c : SearchResult)
    → ((consider profile c ≡ none) × ¬ IsAcceptable profile c)
      ⊎ ((r : ScoredRelease) × (consider profile c ≡ some r)
          × IsAcceptable profile c
          × (r.score ≤ 875))
consider_lem profile c = elim (Option-cases (consider profile c)) [
  | inl e ↦ inl (e, λ h. unfold consider in ground (arith, (accepts_iff profile c).1 h))
  | inr (r, e) ↦ inr (
    r,
    e,
    (accepts_iff profile c).0 (unfold consider in ground arith),
    consider-score profile c e,
  )
]
