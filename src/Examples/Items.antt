-- ===== src/Examples/Items.antt =====
-- The results on claims, promotions and resets at concrete inputs.
use vorn_media_server.Prelude.{◌≡◌, refl, ◌⊎◌, true, false, some, [], ◌∷◌, codes, keep, take, any}
use vorn_media_server.Prelude.Sort.{sort_desc}
use vorn_media_server.Filename.{is_video_file}
use vorn_media_server.Store.{Shared, DebridFile, NzbFile}
use vorn_media_server.Store.Prog.{ok, quiet, statement}
use vorn_media_server.Store.Media.{
  set_items, claim_for_debrid_item, debrid_claimable, has_id, with_path,
}
use vorn_media_server.Store.Promoted.{find_or_create}
use vorn_media_server.Store.Closed.{point}
use vorn_media_server.Store.Claims.{Racing, claim_for_debrid_item-once}
use vorn_media_server.Store.Media.{claim_for_nzb_download}
use vorn_media_server.Store.BothTiers.{claim_for_nzb_download-after_debrid}
use vorn_media_server.Store.Again.{find_or_create-again}
use vorn_media_server.Remote.{nowhere}
use vorn_media_server.Promote.{top_video_files, top_video_nzb_files, debrid_size, nzb_size}
use vorn_media_server.Promote.Top.{top_files-eq}
use vorn_media_server.Promote.Debrid.{promote_to_existing_item}
use vorn_media_server.Promote.Debrid.Outcome.{chosen, pointed, promote_to_existing_item-outcome}
use vorn_media_server.Examples.Data.{film, film_input, film_file, resolve_5, with_film}

-- The claim of resolve 5, and then its path.
abbrev raced : Shared
raced =
    set_items (has_id 1) (with_path (codes "http://b/film.mkv") (codes "Film 1080p"))
      (claim_for_debrid_item 1 5 (quiet (with_film film))).1.shared

claim_for_debrid_item-once_example : (claim_for_debrid_item 1 6 (quiet raced)).0 ≡ ok false
unfolding claim_for_debrid_item statement set_items
claim_for_debrid_item-once_example =
    claim_for_debrid_item-once 1 5 6 (with_film film) raced (tt, tt) refl
      (Racing.changes (has_id 1) (point (codes "http://b/film.mkv") (codes "Film 1080p")) refl
        Racing.done)

promote_to_existing_item-outcome_example :
    (promote_to_existing_item nowhere film resolve_5 (quiet (with_film film))
      ≡ (false, quiet (with_film film)))
    ⊎ ((f : DebridFile) × (chosen nowhere film resolve_5 (with_film film) ≡ some f)
        × (any (debrid_claimable 1) (with_film film).media_items ≡ true)
        × (promote_to_existing_item nowhere film resolve_5 (quiet (with_film film))
            ≡ (true, quiet (pointed 1 resolve_5 f (with_film film)))))
promote_to_existing_item-outcome_example =
    promote_to_existing_item-outcome nowhere film resolve_5 (with_film film)

find_or_create-again_example :
    (find_or_create film_input
      (codes "/b.mkv")
      (find_or_create film_input (codes "/a.mkv") (with_film film)).1).0
    ≡ (find_or_create film_input (codes "/a.mkv") (with_film film)).0
find_or_create-again_example =
    find_or_create-again film_input (codes "/a.mkv") (codes "/b.mkv") (with_film film)

abbrev sample : DebridFile
sample = record film_file { name = codes "sample.mkv"; size_bytes = 9 }

abbrev nzb_file : NzbFile
nzb_file = record {
  nzb_download_id = 6;
  name = codes "film.mkv";
  size_bytes = 900;
  stream_url = [];
  webdav_url = [];
}

claim_for_nzb_download-after_debrid_example :
    (claim_for_nzb_download 1 8
      (quiet (claim_for_debrid_item 1 5 (quiet (with_film film))).1.shared)).0
    ≡ ok true
unfolding claim_for_nzb_download statement
claim_for_nzb_download-after_debrid_example =
    claim_for_nzb_download-after_debrid 1 5 8 (with_film film) refl

top_files-eq_example :
    (top_video_files (sample ∷ film_file ∷ []) 1
      ≡ take 1 (sort_desc debrid_size (keep (λ f. is_video_file f.name) (sample ∷ film_file ∷ []))))
    × (top_video_nzb_files (nzb_file ∷ []) 1
        ≡ take 1 (sort_desc nzb_size (keep (λ f. is_video_file f.name) (nzb_file ∷ []))))
top_files-eq_example = top_files-eq (sample ∷ film_file ∷ []) (nzb_file ∷ []) 1
