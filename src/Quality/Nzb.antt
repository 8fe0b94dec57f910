-- ===== src/Quality/Nzb.antt =====
-- ScoreAndRankNZB is ScoreAndRank without the swarm.
use vorn_media_server.Prelude.{◌≡◌, refl, arith, List, [], ◌∷◌, map}
use vorn_media_server.Prelude.Sort.{map-sort_desc}
use vorn_media_server.Quality.{
  SearchResult, NzbResult, QualityProfile, ScoredRelease, ScoredNzbRelease, consider, consider_nzb,
  collect, score, nzb_score, score_and_rank, score_and_rank_nzb, min_tier, max_tier, codec_bonus,
  remux_bonus,
}

-- An NZB result read as a torrent with an empty swarm, and back.
abbrev pub as_torrent : NzbResult → SearchResult
as_torrent c = record {
  indexer_name = c.indexer_name;
  title = c.title;
  size_bytes = c.size_bytes;
  seeders = 0;
  peers = 0;
  download_url = c.download_url;
  published_at = c.published_at;
}

abbrev pub as_nzb : ScoredRelease → ScoredNzbRelease
as_nzb r = record {
  result = record {
    indexer_name = r.result.indexer_name;
    title = r.result.title;
    size_bytes = r.result.size_bytes;
    download_url = r.result.download_url;
    published_at = r.result.published_at;
  };
  resolution = r.resolution;
  codec = r.codec;
  score = r.score;
}

abbrev pub unseeded : QualityProfile → QualityProfile
unseeded profile = record profile { min_seeders = 0 }

collect-nzb :
    (profile : QualityProfile) (cs : List NzbResult)
    → map as_nzb (collect (consider (unseeded profile)) (map as_torrent cs))
      ≡ collect (consider_nzb profile) cs
unfolding consider consider_nzb min_tier max_tier codec_bonus remux_bonus
collect-nzb profile [] = refl
collect-nzb profile (c ∷ cs) = ground (arith, collect-nzb profile cs)

-- Ranking NZB results is ranking torrents that have no seeders under a profile that asks for none.
pub score_and_rank_nzb-eq :
    (cs : List NzbResult) (profile : QualityProfile)
    → score_and_rank_nzb cs profile
      ≡ map as_nzb (score_and_rank (map as_torrent cs) (unseeded profile))
unfolding score_and_rank score_and_rank_nzb
score_and_rank_nzb-eq cs profile = rw (
  map-sort_desc as_nzb score nzb_score (λ r. refl)
      (collect (consider (unseeded profile)) (map as_torrent cs)),
  collect-nzb profile cs,
)
