-- ===== src/Examples/Data.antt =====
-- A small library to run the results on.
use vorn_media_server.Prelude.{true, false, none, some, [], ◌∷◌, codes}
use vorn_media_server.Quality.{SearchResult}
use vorn_media_server.Store.{
  movie, MediaItem, owned, searching, DebridAccount, realdebrid, DebridItem, DebridFile, ready,
  Shared, empty_shared,
}
use vorn_media_server.Store.Prog.{World, quiet}
use vorn_media_server.Store.Find.{PlaceholderInput, placeholder_row}

abbrev pub small : SearchResult
small = record {
  title = codes "Film 720p";
  download_url = codes "magnet:?xt=urn:btih:AA";
  seeders = 10;
  indexer_name = [];
  size_bytes = 0;
  peers = 0;
  published_at = 0;
}

abbrev pub large : SearchResult
large = record {
  title = codes "Film 1080p";
  download_url = codes "magnet:?xt=urn:btih:BB";
  seeders = 5;
  indexer_name = [];
  size_bytes = 0;
  peers = 0;
  published_at = 0;
}

abbrev pub film_input : PlaceholderInput
film_input = record {
  library_id = 7;
  parent_id = none;
  kind = movie;
  title = codes "Film";
  sort_title = [];
  season_number = none;
  episode_number = none;
  tmdb_id = some 99;
  monitored = true;
}

-- Wanted, with a path, and with neither claim.
abbrev pub film : MediaItem
film = record (placeholder_row 1 0 film_input) { path = some (codes "http://a/film.mkv") }

abbrev pub owned_film : MediaItem
owned_film = record film { acquisition_status = owned }

abbrev pub searching_film : MediaItem
searching_film = record film { acquisition_status = searching }

abbrev pub account : DebridAccount
account = record { id = 4; provider = realdebrid; enabled = true; created_at = 0 }

abbrev pub resolve_5 : DebridItem
resolve_5 = record {
  id = 5;
  library_id = some 7;
  account_id = some 4;
  source_ref = codes "magnet:?xt=urn:btih:BB";
  name = codes "Film 1080p";
  status = ready;
  error = [];
  promoted = true;
  added_at = 0;
  media_item_id = some 1;
  provider_ref = [];
}

abbrev pub film_file : DebridFile
film_file = record {
  debrid_item_id = 5;
  name = codes "film.mkv";
  size_bytes = 900;
  stream_url = codes "http://b/film.mkv";
}

abbrev pub with_film : MediaItem → Shared
with_film m = record empty_shared {
  media_items = m ∷ [];
  debrid_accounts = account ∷ [];
  debrid_items = resolve_5 ∷ [];
  debrid_files = film_file ∷ [];
  next_id = 10;
}

-- Another goroutine sets the clock, and the first statement fails.
abbrev pub busy : Shared → World
busy s = record (quiet s) {
  turns =
      record { others = λ t. record t { now = 3 }; fails = true }
      ∷ record { others = λ t. t; fails = false }
      ∷ [];
}
