-- ===== src/Examples/Names.antt =====
-- File names read by the scanner, as tests (backend/internal/scanner/parse.go).
use vorn_media_server.Prelude.{◌≡◌, refl, codes}
use vorn_media_server.Filename.{
  parse_filename, ParsedFile, sxxexx_at, first_match, looks_like_single_episode, is_video_file,
  episode, movie,
}

parsed : parse_filename (codes "/media/The.Show.S02E13.1080p.mkv") ≡ record {
  kind = episode;
  title = codes "The Show";
  year = 0;
  season_number = 2;
  episode_number = 13;
}
unfolding parse_filename vorn_media_server.Filename.clean_title
parsed = refl

parsed_film : parse_filename (codes "Some_Film (2020) x264.mkv") ≡ record {
  kind = movie;
  title = codes "Some Film";
  year = 2020;
  season_number = 0;
  episode_number = 0;
}
unfolding parse_filename vorn_media_server.Filename.clean_title
parsed_film = refl
