-- ===== src/Acquire/Kept/CompletionNzb.antt =====
-- Promotion of an NZB download keeps what is closed under the store.
use vorn_media_server.Prelude.{ℕ, Bool, true, false, Option, none, some, List, [], ◌∷◌}
use vorn_media_server.Store.{Shared, MediaItem, NzbDownload, NzbFile}
use vorn_media_server.Store.Keeps.{Keeps, keeps_rules, pure-Keeps, then-Keeps}
use vorn_media_server.Store.Closed.{Closed}
use vorn_media_server.Remote.{Remote}
use vorn_media_server.Store.Closed.Tables.{
  claim_for_nzb_download-Keeps, list_children-Keeps, list_nzb_files-Keeps, mark_nzb_promoted-Keeps,
  set_acquisition_status-Keeps, set_media_item_path-Keeps,
}
use vorn_media_server.Promote.{last_numbered}
use vorn_media_server.Store.{owned}
use vorn_media_server.Promote.Nzb.{
  claim_and_point, promote_to_existing_item, promote_one, promote_numbered, promote_pack,
  settle_season, promote_season_pack,
}

module _ {P : Shared → Type 0} (c : Closed P) where
  pub claim_and_point-Keeps :
      (id : ℕ) (d : NzbDownload) (f : NzbFile) → Keeps P (claim_and_point id d f)
  unfolding claim_and_point
  claim_and_point-Keeps id d f =
      search
        (
          keeps_rules,
          claim_for_nzb_download-Keeps c,
          set_media_item_path-Keeps c,
          mark_nzb_promoted-Keeps c,
        )
        depth 20

  pub promote_to_existing_item-Keeps :
      (r : Remote) (m : MediaItem) (d : NzbDownload) → Keeps P (promote_to_existing_item r m d)
  unfolding promote_to_existing_item
  promote_to_existing_item-Keeps r m d =
      search (keeps_rules, claim_and_point-Keeps, list_nzb_files-Keeps c) depth 20

  pub promote_one-Keeps :
      (r : Remote) (d : NzbDownload) (m : MediaItem) (f : NzbFile) → Keeps P (promote_one r d m f)
  unfolding promote_one
  promote_one-Keeps r d m f =
      search (keeps_rules, claim_for_nzb_download-Keeps c, set_media_item_path-Keeps c) depth 20

  promote_numbered-Keeps :
      (r : Remote) (d : NzbDownload) (o : Option MediaItem) (f : NzbFile)
      → Keeps P (promote_numbered r d o f)
  promote_numbered-Keeps r d none f = record { at = λ w h. h }
  promote_numbered-Keeps r d (some m) f = record { at = (promote_one-Keeps r d m f).at }

  promote_pack-Keeps :
      (r : Remote) (d : NzbDownload) (ms : List MediaItem) (best : List (ℕ × NzbFile)) (n : ℕ)
      → Keeps P (promote_pack r d ms n best)
  unfolding promote_pack
  promote_pack-Keeps r d ms [] n = record { at = λ w h. h }
  promote_pack-Keeps r d ms ((k, f) ∷ best) n = record {
    at = λ w h.
        (promote_pack-Keeps r d ms best _).at _
          ((promote_numbered-Keeps r d (last_numbered k ms) f).at w h);
  }

  settle_season-Keeps : (m : MediaItem) (d : NzbDownload) (b : Bool) → Keeps P (settle_season m d b)
  settle_season-Keeps m d false = record { at = λ w h. h }
  settle_season-Keeps m d true = record {
    at =
        (then-Keeps (set_acquisition_status-Keeps c m.id owned)
          (then-Keeps (mark_nzb_promoted-Keeps c d.id) (pure-Keeps true))).at;
  }

  pub promote_season_pack-Keeps :
      (r : Remote) (m : MediaItem) (d : NzbDownload) → Keeps P (promote_season_pack r m d)
  unfolding promote_season_pack
  promote_season_pack-Keeps r m d =
      search
        (
          keeps_rules,
          promote_pack-Keeps,
          settle_season-Keeps,
          list_children-Keeps c,
          list_nzb_files-Keeps c,
        )
        depth 20
