-- ===== src/Promote/Debrid.antt =====
-- Promotion of a debrid resolve, backend/internal/debrid/promote.go.
pub mod Outcome
use vorn_media_server.Prelude.{
  ℕ, zero, suc, ◌+◌, Bool, true, false, not, ◌&&◌, Option, none, some, List, [], ◌∷◌, Text, ltb,
  ◌==◌, if◌then◌else◌, find,
}
use vorn_media_server.Filename.{is_video_file, parse_filename, ParsedFile, ParsedKind}
use vorn_media_server.Store.{MediaItem, DebridItem, DebridFile, owned}
use vorn_media_server.Store.Prog.{Result, ok, err, Prog, ◌>>=◌, ◌>>◌, pure, check, when_some}
use vorn_media_server.Store.Media.{
  claim_for_debrid_item, set_media_item_path, set_acquisition_status,
}
use vorn_media_server.Store.Find.{list_children}
use vorn_media_server.Store.Debrid.{list_debrid_files, mark_debrid_item_promoted}
use vorn_media_server.Store.Promoted.{promote_movie, promote_episode}
use vorn_media_server.Remote.{Remote}
use vorn_media_server.Promote.{top_video_files, debrid_size, last_numbered, keep_larger}

abbrev pub year_ptr : ℕ → Option ℕ
year_ptr y = if y == 0 then none else some y

-- Content verification, where the item's runtime is known.
abbrev pub verified : Remote → MediaItem → DebridFile → Bool
verified r m f = elim m.runtime_minutes [
  | none ↦ true
  | some minutes ↦ r.verify_runtime f.stream_url minutes
]

-- Claim the row, then point it at the file: `true` once it is claimed.
unfoldable pub claim_and_point : ℕ → DebridItem → DebridFile → Prog Bool
claim_and_point id d f = do
  claimed ← claim_for_debrid_item id d.id
  check claimed (λ e. pure false)
      λ won.
        if won
        then (do
          set ← set_media_item_path id f.stream_url d.name
          check set (λ e. pure true) λ _. do mark_debrid_item_promoted d.id; pure true)
        else pure false

unfoldable pub promote_to_existing_item : Remote → MediaItem → DebridItem → Prog Bool
promote_to_existing_item r m d = do
  files ← list_debrid_files d.id
  check files (λ e. pure false)
      λ fs.
        when_some (find (verified r m) (top_video_files fs 2)) (pure false)
          λ best. claim_and_point m.id d best

abbrev pub is_episode : ParsedFile → Bool
is_episode p = elim p.kind [
  | ParsedKind.movie ↦ false
  | ParsedKind.episode ↦ not (p.episode_number == 0)
]

abbrev pub best_per_episode : List (ℕ × DebridFile) → List DebridFile → List (ℕ × DebridFile)
best_per_episode best [] = best
best_per_episode best (f ∷ fs) =
    let p = parse_filename f.name in
    best_per_episode
      (if is_video_file f.name && is_episode p
        then keep_larger debrid_size p.episode_number f best
        else best)
      fs

-- One episode of a pack; `true` counts as promoted.
unfoldable pub promote_one : Remote → DebridItem → MediaItem → DebridFile → Prog Bool
promote_one r d episode f =
    if verified r episode f
    then (do
      claimed ← claim_for_debrid_item episode.id d.id
      check claimed (λ e. pure false)
          λ won.
            if won
            then (do
              set ← set_media_item_path episode.id f.stream_url d.name
              check set (λ e. pure false) λ _. pure true)
            else pure false)
    else pure false

abbrev pub promote_numbered : Remote → DebridItem → Option MediaItem → DebridFile → Prog Bool
promote_numbered r d none f = pure false
promote_numbered r d (some episode) f = promote_one r d episode f

-- The loop over bestPerEpisode, which counts the episodes promoted.
unfoldable pub promote_pack :
    Remote → DebridItem → List MediaItem → ℕ → List (ℕ × DebridFile) → Prog ℕ
unfolding promote_one
promote_pack r d episodes promoted [] w = (promoted, w)
promote_pack r d episodes promoted ((n, f) ∷ best) w =
    let (done, w') = promote_numbered r d (last_numbered n episodes) f w in
    promote_pack r d episodes (if done then promoted + 1 else promoted) best w'

-- A season that got an episode is marked owned, so that it is not tried again.
abbrev pub settle_season : MediaItem → DebridItem → Bool → Prog Bool
settle_season season d false = pure false
settle_season season d true = do
  set_acquisition_status season.id owned
  mark_debrid_item_promoted d.id
  pure true

unfoldable pub promote_season_pack : Remote → MediaItem → DebridItem → Prog Bool
promote_season_pack r season d = do
  children ← list_children season.id
  check children (λ e. pure false)
      λ episodes. do
        files ← list_debrid_files d.id
        check files (λ e. pure false)
            λ fs. do
              promoted ← promote_pack r d episodes 0 (best_per_episode [] fs)
              settle_season season d (ltb 0 promoted)

abbrev pub promote_parsed : ℕ → DebridFile → ParsedFile → Prog (Result ℕ)
promote_parsed library f p = elim p.kind [
  | ParsedKind.movie ↦ promote_movie library p.title (year_ptr p.year) f.stream_url
  | ParsedKind.episode ↦
      promote_episode library p.title p.season_number p.episode_number f.stream_url
]

unfoldable pub promote_files : ℕ → List DebridFile → Prog (Unit {0})
promote_files library [] w = (tt, w)
promote_files library (f ∷ fs) w =
    promote_files library fs
      (if is_video_file f.name then (promote_parsed library f (parse_filename f.name) w).1 else w)

abbrev pub promote_into : Option ℕ → DebridItem → Prog (Unit {0})
promote_into none d = pure tt
promote_into (some library) d = if d.promoted then pure tt else do
  files ← list_debrid_files d.id
  check files (λ e. pure tt)
      λ fs. do promote_files library fs; mark_debrid_item_promoted d.id; pure tt

-- PromoteCompleted, for links added by hand.
unfoldable pub promote_completed : DebridItem → Prog (Unit {0})
unfolding promote_files
promote_completed d = promote_into d.library_id d
