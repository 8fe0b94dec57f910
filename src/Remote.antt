-- ===== src/Remote.antt =====
-- What acquisition asks of the network and of ffprobe: TMDb, the torrent and NZB indexers, the
-- debrid providers and TorBox. It answers by the arguments of a call, whatever the answers are.
use vorn_media_server.Prelude.{ℕ, Bool, true, false, List, [], Text}
use vorn_media_server.Quality.{SearchResult, NzbResult}
use vorn_media_server.Store.{Kind, Provider}
use vorn_media_server.Store.Prog.{Result, ok, err, not_found}

pub record MovieDetails : Type 0 where
  pub title : Text
  pub overview : Text
  pub release_date : Text
  pub poster_url : Text
  pub backdrop_url : Text
  pub runtime : ℕ
  pub imdb_id : Text

-- The season numbers stand for SeasonSummary rows.
pub record SeriesDetails : Type 0 where
  pub title : Text
  pub overview : Text
  pub first_air_date : Text
  pub poster_url : Text
  pub backdrop_url : Text
  pub imdb_id : Text
  pub tvdb_id : ℕ
  pub seasons : List ℕ

pub record EpisodeDetails : Type 0 where
  pub episode_number : ℕ
  pub overview : Text
  pub runtime : ℕ

-- A file that a provider resolved: its name, size and stream URL.
pub record RemoteFile : Type 0 where
  pub name : Text
  pub size_bytes : ℕ
  pub stream_url : Text

pub record Resolved : Type 0 where
  pub provider_ref : Text
  pub files : List RemoteFile

-- `has_torrent`, `has_nzb` and `has_debrid` say whether the service is configured (not nil).
pub record Remote : Type 0 where
  pub has_torrent : Bool
  pub has_nzb : Bool
  pub has_debrid : Bool
  pub movie_details : ℕ → Result MovieDetails
  pub series_details : ℕ → Result SeriesDetails
  pub season_details : ℕ → ℕ → Result (List EpisodeDetails)
  pub torrent_search : Text → Result (List SearchResult)
  pub torrent_by_id : Text → Text → ℕ → ℕ → Result (List SearchResult)
  pub nzb_search : Text → Result (List NzbResult)
  pub nzb_by_id : Text → Text → ℕ → ℕ → Result (List NzbResult)
  -- CacheChecker of a provider: the hashes that it has, among those asked.
  pub cached_hashes : Provider → List Text → Result (List Text)
  -- nzb.CheckCachedURLs
  pub cached_urls : List Text → Result (List Text)
  -- nzb.FetchNZB, and the name that nzb.addNZB takes from the file, or its parse error.
  pub fetch_nzb : Text → Result Text
  pub nzb_name : Text → Result Text
  -- Provider.Resolve
  pub resolve : Provider → Text → Result Resolved
  -- transcode.VerifyRuntime, VerifyContentDuration and ProbeWithRetry succeed.
  pub verify_runtime : Text → ℕ → Bool
  pub verify_duration : Text → Kind → Bool
  pub probe_alive : Text → Bool

-- Nothing is configured, and everything fails.
abbrev pub nowhere : Remote
nowhere = record {
  has_torrent = false;
  has_nzb = false;
  has_debrid = false;
  movie_details = λ id. err not_found;
  series_details = λ id. err not_found;
  season_details = λ id season. err not_found;
  torrent_search = λ q. ok [];
  torrent_by_id = λ imdb tvdb season episode. ok [];
  nzb_search = λ q. ok [];
  nzb_by_id = λ imdb tvdb season episode. ok [];
  cached_hashes = λ p hs. ok [];
  cached_urls = λ urls. ok [];
  fetch_nzb = λ url. err not_found;
  nzb_name = λ nzb_file. err not_found;
  resolve = λ p ref. err not_found;
  verify_runtime = λ url minutes. true;
  verify_duration = λ url kind. true;
  probe_alive = λ url. false;
}
