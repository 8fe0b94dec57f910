-- ===== src/Acquire/Kept/ScannedNzb.antt =====
-- Promotion of the files of an NZB added by hand keeps what is closed under the store.
use vorn_media_server.Prelude.{
  ℕ, Bool, true, false, Option, none, some, List, [], ◌∷◌, if◌then◌else◌,
}
use vorn_media_server.Store.{Shared, NzbDownload, NzbFile}
use vorn_media_server.Store.Prog.{World, pure, ◌>>=◌, ◌>>◌, check}
use vorn_media_server.Store.Keeps.{Keeps, keeps_rules, Calm, if-Keeps, pure-Keeps}
use vorn_media_server.Store.Closed.{Closed}
use vorn_media_server.Remote.{Remote}
use vorn_media_server.Store.Closed.Tables.{
  list_nzb_files-Keeps, mark_nzb_promoted-Keeps, promote_episode-Keeps, promote_movie-Keeps,
}
use vorn_media_server.Filename.{parse_filename, ParsedFile, ParsedKind}
use vorn_media_server.Store.Promoted.{promote_movie, promote_episode}
use vorn_media_server.Store.Nzb.{list_nzb_files, mark_nzb_promoted}
use vorn_media_server.Promote.{best_path}
use vorn_media_server.Promote.Nzb

module _ {P : Shared → Type 0} (c : Closed P) where
  by_kind-Keeps :
      (library : ℕ) (f : NzbFile) (p : ParsedFile) → Keeps P (Nzb.promote_parsed library f p)
  by_kind-Keeps library f p = parsed-Keeps p.kind
    where
      parsed-Keeps :
          (k : ParsedKind)
          → Keeps P (elim k [
            | ParsedKind.movie ↦ promote_movie library p.title (Nzb.year_ptr p.year) (best_path f)
            | ParsedKind.episode ↦
                promote_episode library p.title p.season_number p.episode_number (best_path f)
          ])
      parsed-Keeps ParsedKind.movie =
          promote_movie-Keeps c library p.title (Nzb.year_ptr p.year) (best_path f)
      parsed-Keeps ParsedKind.episode =
          promote_episode-Keeps c library p.title p.season_number p.episode_number (best_path f)

  one_file-Calm :
      (b : Bool) (library : ℕ) (f : NzbFile) (w : World)
      → Calm P w
      → Calm P (if b then (Nzb.promote_parsed library f (parse_filename f.name) w).1 else w)
  one_file-Calm true library f w h = (by_kind-Keeps library f (parse_filename f.name)).at w h
  one_file-Calm false library f w h = h

  promote_stream_files-Keeps :
      (r : Remote) (library : ℕ) (fs : List NzbFile)
      → Keeps P (Nzb.promote_stream_files r library fs)
  unfolding Nzb.promote_stream_files
  promote_stream_files-Keeps r library [] = record { at = λ w h. h }
  promote_stream_files-Keeps r library (f ∷ fs) = record {
    at = λ w h.
        (promote_stream_files-Keeps r library fs).at _
          (one_file-Calm (Nzb.is_promotable r f) library f w h);
  }

  then_mark-Keeps :
      (r : Remote) (library : ℕ) (d : NzbDownload)
      → Keeps {A = Unit {0}} P (
          list_nzb_files d.id >>= λ files.
          check files
            (λ e. pure tt)
            λ fs. Nzb.promote_stream_files r library fs >> (mark_nzb_promoted d.id >> pure tt))
  then_mark-Keeps r library d =
      search
        (keeps_rules, promote_stream_files-Keeps, list_nzb_files-Keeps c, mark_nzb_promoted-Keeps c)
        depth 20

  promote_into-Keeps :
      (r : Remote) (o : Option ℕ) (d : NzbDownload) → Keeps P (Nzb.promote_into r o d)
  promote_into-Keeps r none d = record { at = λ w h. h }
  promote_into-Keeps r (some library) d = record {
    at = (if-Keeps d.promoted (pure-Keeps tt) (then_mark-Keeps r library d)).at;
  }

  pub promote_completed-Keeps : (r : Remote) (d : NzbDownload) → Keeps P (Nzb.promote_completed r d)
  unfolding Nzb.promote_completed
  promote_completed-Keeps r d = record { at = (promote_into-Keeps r d.library_id d).at }
