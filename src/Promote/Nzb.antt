-- ===== src/Promote/Nzb.antt =====
-- Promotion of a finished NZB download, backend/internal/nzb/promote.go.
use vorn_media_server.Prelude.{
  ℕ, ◌+◌, Bool, true, false, not, ◌&&◌, Option, none, some, List, [], ◌∷◌, Text, ltb, ◌==◌,
  if◌then◌else◌, find,
}
use vorn_media_server.Filename.{
  is_video_file, is_probable_hash, parse_filename, ParsedFile, ParsedKind,
}
use vorn_media_server.Store.{Kind, MediaItem, NzbDownload, NzbFile, owned}
use vorn_media_server.Store.Prog.{Result, Prog, ◌>>=◌, ◌>>◌, pure, check, when_some}
use vorn_media_server.Store.Media.{
  claim_for_nzb_download, set_media_item_path, set_acquisition_status,
}
use vorn_media_server.Store.Find.{list_children}
use vorn_media_server.Store.Nzb.{list_nzb_files, mark_nzb_promoted}
use vorn_media_server.Store.Promoted.{promote_movie, promote_episode}
use vorn_media_server.Remote.{Remote}
use vorn_media_server.Promote.{top_video_nzb_files, nzb_size, last_numbered, keep_larger, best_path}

abbrev pub year_ptr : ℕ → Option ℕ
year_ptr y = if y == 0 then none else some y

-- verifyRuntime: the duration floor always, the expected runtime where it is known and positive.
unfoldable pub verify_runtime : Remote → Text → MediaItem → Bool
verify_runtime r path m = r.verify_duration path m.kind && elim m.runtime_minutes [
  | none ↦ true
  | some minutes ↦ if ltb 0 minutes then r.verify_runtime path minutes else true
]

unfoldable pub claim_and_point : ℕ → NzbDownload → NzbFile → Prog Bool
claim_and_point id n f = do
  claimed ← claim_for_nzb_download id n.id
  check claimed (λ e. pure false)
      λ won.
        if won
        then (do
          set ← set_media_item_path id (best_path f) n.name
          check set (λ e. pure true) λ _. do mark_nzb_promoted n.id; pure true)
        else pure false

unfoldable pub promote_to_existing_item : Remote → MediaItem → NzbDownload → Prog Bool
promote_to_existing_item r m n = do
  files ← list_nzb_files n.id
  check files (λ e. pure false)
      λ fs.
        when_some (find (λ f. verify_runtime r (best_path f) m) (top_video_nzb_files fs 2))
          (pure false) λ best. claim_and_point m.id n best

abbrev pub is_episode : ParsedFile → Bool
is_episode p = elim p.kind [
  | ParsedKind.movie ↦ false
  | ParsedKind.episode ↦ not (p.episode_number == 0)
]

abbrev pub best_per_episode : List (ℕ × NzbFile) → List NzbFile → List (ℕ × NzbFile)
best_per_episode best [] = best
best_per_episode best (f ∷ fs) =
    let p = parse_filename f.name in
    best_per_episode
      (if is_video_file f.name && is_episode p
        then keep_larger nzb_size p.episode_number f best
        else best)
      fs

unfoldable pub promote_one : Remote → NzbDownload → MediaItem → NzbFile → Prog Bool
promote_one r n episode f =
    if verify_runtime r (best_path f) episode
    then (do
      claimed ← claim_for_nzb_download episode.id n.id
      check claimed (λ e. pure false)
          λ won.
            if won
            then (do
              set ← set_media_item_path episode.id (best_path f) n.name
              check set (λ e. pure false) λ _. pure true)
            else pure false)
    else pure false

abbrev pub promote_numbered : Remote → NzbDownload → Option MediaItem → NzbFile → Prog Bool
promote_numbered r n none f = pure false
promote_numbered r n (some episode) f = promote_one r n episode f

unfoldable pub promote_pack :
    Remote → NzbDownload → List MediaItem → ℕ → List (ℕ × NzbFile) → Prog ℕ
unfolding promote_one
promote_pack r n episodes promoted [] w = (promoted, w)
promote_pack r n episodes promoted ((k, f) ∷ best) w =
    let (done, w') = promote_numbered r n (last_numbered k episodes) f w in
    promote_pack r n episodes (if done then promoted + 1 else promoted) best w'

abbrev pub settle_season : MediaItem → NzbDownload → Bool → Prog Bool
settle_season season n false = pure false
settle_season season n true = do
  set_acquisition_status season.id owned
  mark_nzb_promoted n.id
  pure true

unfoldable pub promote_season_pack : Remote → MediaItem → NzbDownload → Prog Bool
promote_season_pack r season n = do
  children ← list_children season.id
  check children (λ e. pure false)
      λ episodes. do
        files ← list_nzb_files n.id
        check files (λ e. pure false)
            λ fs. do
              promoted ← promote_pack r n episodes 0 (best_per_episode [] fs)
              settle_season season n (ltb 0 promoted)

abbrev pub kind_of : ParsedKind → Kind
kind_of ParsedKind.movie = Kind.movie
kind_of ParsedKind.episode = Kind.episode

abbrev pub promote_parsed : ℕ → NzbFile → ParsedFile → Prog (Result ℕ)
promote_parsed library f p = elim p.kind [
  | ParsedKind.movie ↦ promote_movie library p.title (year_ptr p.year) (best_path f)
  | ParsedKind.episode ↦
      promote_episode library p.title p.season_number p.episode_number (best_path f)
]

-- A file by name and duration that promoteStreamFiles promotes.
abbrev pub is_promotable : Remote → NzbFile → Bool
is_promotable r f =
    is_video_file f.name
    && (not (is_probable_hash f.name)
        && r.verify_duration (best_path f) (kind_of (parse_filename f.name).kind))

unfoldable pub promote_stream_files : Remote → ℕ → List NzbFile → Prog (Unit {0})
promote_stream_files r library [] w = (tt, w)
promote_stream_files r library (f ∷ fs) w =
    promote_stream_files r library fs
      (if is_promotable r f then (promote_parsed library f (parse_filename f.name) w).1 else w)

abbrev pub promote_into : Remote → Option ℕ → NzbDownload → Prog (Unit {0})
promote_into r none n = pure tt
promote_into r (some library) n = if n.promoted then pure tt else do
  files ← list_nzb_files n.id
  check files (λ e. pure tt)
      λ fs. do promote_stream_files r library fs; mark_nzb_promoted n.id; pure tt

unfoldable pub promote_completed : Remote → NzbDownload → Prog (Unit {0})
unfolding promote_stream_files
promote_completed r n = promote_into r n.library_id n
