-- ===== src/Acquire/Kept/Scanned.antt =====
-- Promotion of the files of a link added by hand keeps what is closed under the store.
use vorn_media_server.Prelude.{
  ℕ, Bool, true, false, Option, none, some, List, [], ◌∷◌, if◌then◌else◌,
}
use vorn_media_server.Store.{Shared, DebridItem, DebridFile}
use vorn_media_server.Store.Prog.{World, pure, ◌>>=◌, ◌>>◌, check}
use vorn_media_server.Store.Keeps.{Keeps, keeps_rules, Calm, if-Keeps, pure-Keeps}
use vorn_media_server.Store.Closed.{Closed}
use vorn_media_server.Store.Closed.Tables.{
  list_debrid_files-Keeps, mark_debrid_item_promoted-Keeps, promote_episode-Keeps,
  promote_movie-Keeps,
}
use vorn_media_server.Filename.{parse_filename, ParsedFile, ParsedKind, is_video_file}
use vorn_media_server.Store.Promoted.{promote_movie, promote_episode}
use vorn_media_server.Store.Debrid.{list_debrid_files, mark_debrid_item_promoted}
use vorn_media_server.Promote.Debrid

module _ {P : Shared → Type 0} (c : Closed P) where
  by_kind-Keeps :
      (library : ℕ) (f : DebridFile) (p : ParsedFile) → Keeps P (Debrid.promote_parsed library f p)
  by_kind-Keeps library f p = parsed-Keeps p.kind
    where
      parsed-Keeps :
          (k : ParsedKind)
          → Keeps P (elim k [
            | ParsedKind.movie ↦ promote_movie library p.title (Debrid.year_ptr p.year) f.stream_url
            | ParsedKind.episode ↦
                promote_episode library p.title p.season_number p.episode_number f.stream_url
          ])
      parsed-Keeps ParsedKind.movie =
          promote_movie-Keeps c library p.title (Debrid.year_ptr p.year) f.stream_url
      parsed-Keeps ParsedKind.episode =
          promote_episode-Keeps c library p.title p.season_number p.episode_number f.stream_url

  one_file-Calm :
      (b : Bool) (library : ℕ) (f : DebridFile) (w : World)
      → Calm P w
      → Calm P (if b then (Debrid.promote_parsed library f (parse_filename f.name) w).1 else w)
  one_file-Calm true library f w h = (by_kind-Keeps library f (parse_filename f.name)).at w h
  one_file-Calm false library f w h = h

  promote_files-Keeps :
      (library : ℕ) (fs : List DebridFile) → Keeps P (Debrid.promote_files library fs)
  unfolding Debrid.promote_files
  promote_files-Keeps library [] = record { at = λ w h. h }
  promote_files-Keeps library (f ∷ fs) = record {
    at = λ w h.
        (promote_files-Keeps library fs).at _ (one_file-Calm (is_video_file f.name) library f w h);
  }

  then_mark-Keeps :
      (library : ℕ) (d : DebridItem)
      → Keeps {A = Unit {0}} P (
          list_debrid_files d.id >>= λ files.
          check files
            (λ e. pure tt)
            λ fs. Debrid.promote_files library fs >> (mark_debrid_item_promoted d.id >> pure tt))
  then_mark-Keeps library d =
      search
        (
          keeps_rules,
          promote_files-Keeps,
          list_debrid_files-Keeps c,
          mark_debrid_item_promoted-Keeps c,
        )
        depth 20

  promote_into-Keeps : (o : Option ℕ) (d : DebridItem) → Keeps P (Debrid.promote_into o d)
  promote_into-Keeps none d = record { at = λ w h. h }
  promote_into-Keeps (some library) d = record {
    at = (if-Keeps d.promoted (pure-Keeps tt) (then_mark-Keeps library d)).at;
  }

  pub promote_completed-Keeps : (d : DebridItem) → Keeps P (Debrid.promote_completed d)
  unfolding Debrid.promote_completed
  promote_completed-Keeps d = record { at = (promote_into-Keeps d.library_id d).at }
