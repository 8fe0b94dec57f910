-- ===== src/Examples/Syncs.antt =====
-- Metadata syncs at concrete inputs.
use vorn_media_server.Prelude.{ℕ, true, false, none, some, List, [], ◌∷◌, Text, codes, ◌≡◌, refl}
use vorn_media_server.Store.{Kind}
use vorn_media_server.Metadata.{Item, apply_metadata, blank_update}
use vorn_media_server.Metadata.Sync.{
  Answer, Match, Provider, Bundle, Turn, Sync, Course, JobStatus, each, run,
}
use vorn_media_server.Metadata.Counts.{IsBounded, run-IsBounded}
use vorn_media_server.Metadata.Locked.{rows, rows-run}

abbrev film : ℕ → Text → Item
film id title = record {
  id = id;
  library_id = 1;
  parent_id = none;
  kind = Kind.movie;
  title = title;
  overview = [];
  release_date = none;
  tmdb_id = none;
  metadata = [];
  metadata_locked = false;
}

abbrev corrected : Item
corrected = record (film 2 (codes "Corrected")) { metadata_locked = true }

abbrev a_match : ℕ → Text → Match
a_match id title = record {
  provider_id = id;
  title = title;
  overview = [];
  release_date = [];
  poster_url = [];
  backdrop_url = [];
  trailer_url = [];
  imdb_id = [];
  tvdb_id = 0;
  logo_url = [];
  rating_imdb = [];
  rating_rotten_tomatoes = [];
  cast = [];
  directors = [];
  similar = [];
  rating = [];
}

abbrev tmdb : Provider
tmdb = record {
  match_movie = λ title year. Answer.found (a_match 5 (codes "Matched"));
  match_series = λ title. Answer.nothing;
  extras = some (λ kind id. record { cast = []; directors = []; similar = []; rating = [] });
}

abbrev bundle : Bundle
bundle = record {
  provider = some tmdb;
  fallback_series_provider = none;
  fanart = none;
  omdb = none;
  music_provider = none;
  audiobook_provider = none;
}

abbrev turn : (List Item → List Item) → Turn
turn others = record {
  seen = others;
  others = others;
  bundle = bundle;
  fails_apply = false;
  fails_count = false;
}

abbrev alone : List Item → List Item
alone ms = ms

abbrev course : (List Item → List Item) → Course
course others = record {
  library_id = 1;
  before_list = alone;
  before_cast = alone;
  fails_list = false;
  fails_count = false;
  fails_cast_list = false;
  fails_cast_count = false;
  fails_finish = false;
  first = λ id. turn others;
  second = λ id. turn alone;
}

abbrev sync : List Item → Sync
sync items = record { items = items; counts = []; status = JobStatus.running }

-- A match without a cast is processed again in the second pass, and counted again.
counted_twice :
    (run (course alone) (sync (film 1 (codes "Film") ∷ []))).counts
    ≡ (2, 2) ∷ (2, 1) ∷ (1, 1) ∷ (1, 0) ∷ []
unfolding run each
counted_twice = refl

-- A correction that is made and locked after the items were listed is overwritten.
overwritten :
    (run
      (course (apply_metadata 1 (record blank_update { title = codes "By hand" }) true))
      (sync (film 1 (codes "Film") ∷ []))).items
    ≡ record (film 1 (codes "Matched")) { tmdb_id = some 5; metadata_locked = true } ∷ []
unfolding run each apply_metadata
overwritten = refl

run-IsBounded_example :
    IsBounded (run (course alone) (sync (film 1 (codes "Film") ∷ corrected ∷ [])))
run-IsBounded_example =
    run-IsBounded (course alone) (sync (film 1 (codes "Film") ∷ corrected ∷ [])) refl

rows-run_example :
    rows 2 (run (course alone) (sync (film 1 (codes "Film") ∷ corrected ∷ []))).items
    ≡ corrected ∷ []
rows-run_example =
    rows-run (course alone) 2 (sync (film 1 (codes "Film") ∷ corrected ∷ []))
      (record { list = λ ms. refl; cast = λ ms. refl; first = λ n ms. refl; second = λ n ms. refl })
      (refl, tt)
