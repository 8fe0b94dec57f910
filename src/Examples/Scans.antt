-- ===== src/Examples/Scans.antt =====
-- Walks of folders and scans at concrete inputs.
use vorn_media_server.Prelude.{
  ◌<◌, Bool, true, false, none, some, List, [], ◌∷◌, Text, codes, ◌≡◌, refl, ◌⊎◌, length,
}
use vorn_media_server.Filename.{is_video_file}
use vorn_media_server.Store.{empty_shared}
use vorn_media_server.Walker.{
  listing, sub, file, no_more, Item, DiscoveredFile, Event, pushes, works, step, steps, start,
  is_over, work, work_at, wake, signal, broadcast, join, clean,
}
use vorn_media_server.Walker.Tally.{count, files_in}
use vorn_media_server.Walker.Complete.{steps_complete}
use vorn_media_server.Walker.Measure.{remaining, step-settles}
use vorn_media_server.Walker.Progress.{steps-can_end}
use vorn_media_server.Walker.Early.{steps-misses_folder}
use vorn_media_server.Scan.{QueuedFile, Sources, video, inserts, to_insert, resolve_webdav_name}
use vorn_media_server.Scan.Stage.{
  Happening, discovered, ticked, run, flush_batch_size, upsert_all, has_duplicate,
}
use vorn_media_server.Scan.Whole.{files, run-upserts}

-- A folder with a film in a directory and a text beside it.
abbrev folder : Item
folder = record {
  path = codes "/m";
  dir = listing (
      sub (codes "Film")
        (listing
          (file (codes "film.mkv") (some (record { size_bytes = 9; modified_at = 1 })) no_more))
        (file (codes "notes.txt") (some (record { size_bytes = 1; modified_at = 1 })) no_more));
}

abbrev empty_folder : Item
empty_folder = record { path = codes "/e"; dir = listing no_more }

abbrev schedule : List Event
schedule =
    works 1 0
    ∷ pushes 0
    ∷ works 0 0
    ∷ works 0 0
    ∷ works 1 0
    ∷ works 0 0
    ∷ works 1 0
    ∷ works 1 0
    ∷ works 0 0
    ∷ works 0 0
    ∷ works 1 0
    ∷ []

abbrev any_file : DiscoveredFile → Bool
any_file f = true

walked :
    (steps is_video_file schedule (start (folder ∷ []) 2)).emitted
    ≡ record { path = codes "/m/Film/film.mkv"; size_bytes = 9; modified_at = 1 } ∷ []
unfolding step start work work_at wake signal broadcast join clean is_video_file
walked = refl

joined :
    (join (codes "/") (codes "a") ≡ codes "/a")
    × (join (codes "/m/") (codes "x") ≡ codes "/m/x")
    × (join (codes "../a//./b/..") (codes "c") ≡ codes "../a/c")
    × (join (codes "") (codes "c") ≡ codes "c")
unfolding join clean
joined = (refl, refl, refl, refl)

steps_complete_example :
    count is_video_file any_file (steps is_video_file schedule (start (folder ∷ []) 2)).emitted
    ≡ count is_video_file any_file (files_in is_video_file (codes "/m") folder.dir)
unfolding step start work work_at wake signal broadcast join clean is_video_file
steps_complete_example = steps_complete is_video_file any_file folder 2 schedule refl

step-settles_example :
    (step is_video_file (pushes 0) (start (folder ∷ []) 2) ≡ start (folder ∷ []) 2)
    ⊎ (remaining (step is_video_file (pushes 0) (start (folder ∷ []) 2))
        < remaining (start (folder ∷ []) 2))
step-settles_example = step-settles is_video_file (pushes 0) (start (folder ∷ []) 2)

steps-can_end_example :
    (es : List Event) × (is_over (
        steps is_video_file es
          (steps is_video_file (pushes 0 ∷ works 1 0 ∷ []) (start (folder ∷ empty_folder ∷ []) 2)))
      ≡ true)
steps-can_end_example =
    steps-can_end is_video_file folder (empty_folder ∷ []) 2 (pushes 0 ∷ works 1 0 ∷ [])

steps-misses_folder_example :
    (es : List Event) × (is_over (steps is_video_file es (start (empty_folder ∷ folder ∷ []) 4))
      ≡ true)
    × ((steps is_video_file es (start (empty_folder ∷ folder ∷ []) 4)).emitted ≡ [])
steps-misses_folder_example = steps-misses_folder is_video_file empty_folder folder 3 refl

abbrev no_sources : Sources
no_sources = record {
  library_id = 2;
  library_type = video;
  job_id = 1;
  tags = λ path. none;
  shared = empty_shared;
}

abbrev queued : Text → QueuedFile
queued path = record { path = path; size_bytes = 9; modified_at = 1 }

abbrev day : List Happening
day =
    discovered (queued (codes "/m/a.mkv")) false
    ∷ ticked [] true
    ∷ discovered (queued (codes "/m/b.mkv")) false
    ∷ []

run-upserts_example :
    ((run flush_batch_size no_sources day [] false false []).rows
      ≡ upsert_all (inserts no_sources (files day)) [])
    × ((run flush_batch_size no_sources day [] false false []).staged ≡ [])
    × ((run flush_batch_size no_sources day [] false false []).files_found ≡ length (files day))
    × ((run flush_batch_size no_sources day [] false false []).files_synced ≡ length (files day))
unfolding inserts to_insert has_duplicate vorn_media_server.Filename.is_probable_hash
    vorn_media_server.Filename.parse_filename resolve_webdav_name
    vorn_media_server.Filename.clean_title
run-upserts_example = run-upserts no_sources day [] (refl, (refl, (refl, tt))) refl
