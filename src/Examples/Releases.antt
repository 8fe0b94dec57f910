-- ===== src/Examples/Releases.antt =====
-- The results on titles and releases at concrete inputs.
use mathlib.Core.List.{Perm, Memᴰ}
use vorn_media_server.Prelude.{
  ◌≤◌, ◌≡◌, refl, ◌⊎◌, arith, true, ◌||◌, none, some, [], ◌∷◌, ◌++◌, Text, codes, map, keep, length,
  is_empty, if◌then◌else◌,
}
use vorn_media_server.Prelude.Sort.{sort_desc, IsSortedDesc}
use vorn_media_server.Titles.{parse_resolution, parse_codec, is_remux, resolution_tier}
use vorn_media_server.Quality.{
  SearchResult, NzbResult, ScoredRelease, default_quality_profile, consider, score, score_and_rank,
  score_and_rank_nzb, score_and_pick,
}
use vorn_media_server.Titles.Fields.{fields-append}
use vorn_media_server.Quality.Accept.{consider_lem, IsAcceptable, accepts, result}
use vorn_media_server.Quality.Rank.{score_and_rank-perm, score_and_pick_best}
use vorn_media_server.Select.{contains, dedupe_nzb_by_url, nzb_url}
use vorn_media_server.Select.Dedupe.{IsDistinct, dedupe_nzb_by_url_lem}
use vorn_media_server.Filename.{looks_like_single_episode, sxxexx_at, first_match, atoi}
use vorn_media_server.Filename.Titles.{episode_names}
use vorn_media_server.Store.Promoted.{episode_display_title}
use vorn_media_server.Acquire.{series_query}
use vorn_media_server.Examples.Data.{small, large}

score_and_rank-perm_example :
    Perm
      (map result (score_and_rank (small ∷ large ∷ []) default_quality_profile))
      (keep (accepts default_quality_profile) (small ∷ large ∷ []))
    × IsSortedDesc score (score_and_rank (small ∷ large ∷ []) default_quality_profile)
score_and_rank-perm_example = score_and_rank-perm (small ∷ large ∷ []) default_quality_profile

abbrev small_scored : ScoredRelease
small_scored = record { result = small; resolution = codes "720p"; codec = []; score = 110 }

abbrev large_scored : ScoredRelease
large_scored = record { result = large; resolution = codes "1080p"; codec = []; score = 205 }

score_and_pick_best_example : small_scored.score ≤ large_scored.score
unfolding consider parse_resolution score_and_rank score_and_pick sort_desc resolution_tier
    mathlib.Core.Bool.xor vorn_media_server.Quality.min_tier vorn_media_server.Quality.max_tier
    vorn_media_server.Quality.codec_bonus vorn_media_server.Quality.remux_bonus parse_codec
score_and_pick_best_example =
    score_and_pick_best (small ∷ large ∷ []) default_quality_profile {best = large_scored}
      {r = small_scored} small refl (Memᴰ.head refl) refl

abbrev nzb_1 : NzbResult
nzb_1 = record {
  title = codes "Film 1080p";
  download_url = codes "http://n/1";
  indexer_name = [];
  size_bytes = 0;
  published_at = 0;
}

dedupe_nzb_by_url_lem_example :
    IsDistinct (map nzb_url (dedupe_nzb_by_url (nzb_1 ∷ nzb_1 ∷ [])))
    × ((url : Text)
        → contains (map nzb_url (dedupe_nzb_by_url (nzb_1 ∷ nzb_1 ∷ []))) url
          ≡ contains (map nzb_url (nzb_1 ∷ nzb_1 ∷ [])) url)
    × (length (dedupe_nzb_by_url (nzb_1 ∷ nzb_1 ∷ [])) ≤ length (nzb_1 ∷ nzb_1 ∷ []))
dedupe_nzb_by_url_lem_example = dedupe_nzb_by_url_lem (nzb_1 ∷ nzb_1 ∷ [])

fields-append_example :
    (parse_resolution (codes "Film" ++ (b'.' ∷ codes "1080p")) ≡ (
      if is_empty (parse_resolution (codes "Film"))
      then parse_resolution (codes "1080p")
      else parse_resolution (codes "Film")))
    × (is_remux (codes "Film" ++ (b'.' ∷ codes "1080p"))
        ≡ (is_remux (codes "Film") || is_remux (codes "1080p")))
fields-append_example = fields-append b'.' refl refl (codes "Film") (codes "1080p")

consider_lem_example :
    ((consider default_quality_profile large ≡ none) × ¬ IsAcceptable default_quality_profile large)
    ⊎ ((r : ScoredRelease) × (consider default_quality_profile large ≡ some r)
        × IsAcceptable default_quality_profile large
        × (r.score ≤ 875))
consider_lem_example = consider_lem default_quality_profile large

episode_names_example :
    (season : Text) × (episode : Text) × (first_match sxxexx_at (episode_display_title 2 13)
      ≡ some ([], (season, episode)))
    × (atoi season ≡ 2)
    × (atoi episode ≡ 13)
    × (looks_like_single_episode (series_query (codes "The Show") 2 13) ≡ true)
episode_names_example = episode_names (codes "The Show") 2 13 (omega arith) (omega arith)
