-- ===== src/Quality/Rank.antt =====
-- ScoreAndRank returns the acceptable candidates best first, and ScoreAndPick the best of them.
use mathlib.Core.List.{Perm, Memᴰ}
use mathlib.Core.List.Perm
use mathlib.Core.Logic.{∥∥₁_elim}
use native.Mathlib.Bridge.{le_prop}
use vorn_media_server.Prelude.{
  ◌≤◌, ◌≡◌, refl, ap, arith, none, some, List, [], ◌∷◌, map, keep, head?, All-mem, Option-cases,
  inl, inr, ◌↔◌,
}
use vorn_media_server.Prelude.Sort.{
  sort_desc, sort_desc-perm, head?-sort_desc, sort_desc-IsSortedDesc, IsSortedDesc,
}
use vorn_media_server.Quality.{
  SearchResult, QualityProfile, ScoredRelease, consider, collect, score, score_and_rank,
  score_and_pick,
}
use vorn_media_server.Quality.Accept.{accepts, collect-keep, result}

-- The ranking is a permutation of the acceptable candidates, with falling scores.
pub score_and_rank-perm :
    (candidates : List SearchResult) (profile : QualityProfile)
    → Perm (map result (score_and_rank candidates profile)) (keep (accepts profile) candidates)
      × IsSortedDesc score (score_and_rank candidates profile)
unfolding score_and_rank
score_and_rank-perm candidates profile = (
  rw (← collect-keep profile candidates)
      (Perm.map result (sort_desc-perm score (collect (consider profile) candidates))),
  sort_desc-IsSortedDesc score (collect (consider profile) candidates),
)

collect-mem :
    (profile : QualityProfile) {c : SearchResult} {r : ScoredRelease} {cs : List SearchResult}
    → consider profile c ≡ some r
    → Memᴰ c cs
    → Memᴰ r (collect (consider profile) cs)
collect-mem profile {cs = []} h m = elim m [ ]
collect-mem profile {cs = x ∷ cs} h (Memᴰ.head e) = rw (rw e at h, collect) (Memᴰ.head refl)
collect-mem profile {cs = x ∷ cs} h (Memᴰ.tail m) = elim (Option-cases (consider profile x)) [
  | inl e ↦ rw (e, collect) (collect-mem profile h m)
  | inr (y, e) ↦ rw (e, collect) (Memᴰ.tail (collect-mem profile h m))
]

head_is_best :
    {best r : ScoredRelease} (rs : List ScoredRelease)
    → IsSortedDesc score rs
    → head? rs ≡ some best
    → Memᴰ r rs
    → r.score ≤ best.score
head_is_best [] s h m = cc
head_is_best {best} (x ∷ rs) s h (Memᴰ.head e) =
    let k : x ≡ best = cc in omega (arith, ap score e, ap score k)
head_is_best {best} (x ∷ rs) s h (Memᴰ.tail m) =
    let k : x ≡ best = cc in omega (arith, All-mem (λ y. y.score ≤ x.score) s.0 m, ap score k)

-- No acceptable candidate scores above the one that ScoreAndPick returns.
pub score_and_pick_best :
    (candidates : List SearchResult) (profile : QualityProfile) {best r : ScoredRelease}
    (c : SearchResult)
    → score_and_pick candidates profile ≡ some best
    → Memᴰ c candidates
    → consider profile c ≡ some r
    → r.score ≤ best.score
unfolding score_and_pick score_and_rank
score_and_pick_best candidates profile c h m k =
    let found = collect (consider profile) candidates in
    ∥∥₁_elim ((Perm.mem_iff (sort_desc-perm score found)).1 ∣ collect-mem profile k m ∣₁) le_prop
      λ w. head_is_best (sort_desc score found) (sort_desc-IsSortedDesc score found) h w

-- ScoreAndPick fails exactly when no candidate is acceptable.
pub score_and_pick-none :
    (candidates : List SearchResult) (profile : QualityProfile)
    → (score_and_pick candidates profile ≡ none) ↔ (keep (accepts profile) candidates ≡ [])
unfolding score_and_pick score_and_rank sort_desc
score_and_pick-none candidates profile =
    rw (← collect-keep profile candidates) (go (collect (consider profile) candidates))
  where
    go : (rs : List ScoredRelease) → (head? (sort_desc score rs) ≡ none) ↔ (map result rs ≡ [])
    go [] = (λ _. refl, λ _. refl)
    go (r ∷ rs) = (λ e. absurd (head?-sort_desc score r rs e), λ e. cc)
