-- ===== src/Store/Lookups.antt =====
-- Stable paths found before a search, and the records of requests and upgrades:
-- backend/internal/store/acquisition.go, quality_profiles.go, libraries.go, content_requests.go,
-- acquisition_upgrades.go.
use vorn_media_server.Prelude.{
  ℕ, Bool, not, ◌&&◌, Option, none, some, List, [], ◌∷◌, ◌++◌, Text, ◌==◌, is_empty, find, any,
  keep, codes, text_eq, head?,
}
use vorn_media_server.Prelude.Sort.{sort_desc}
use vorn_media_server.Quality.{QualityProfile, default_quality_profile}
use vorn_media_server.Store.{Kind, MediaItem, NzbFile, WebdavFolder, Library, Source}
use vorn_media_server.Store.Prog.{
  Result, ok, err, not_found, Prog, ◌>>=◌, pure, check, when_some, query, exec,
}
use vorn_media_server.Store.Media.{has_id, is_owned}
use vorn_media_server.Store.Find.{kind_eq, same_null, path_like}

-- The row has a path under one of its library's enabled WebDAV folders.
abbrev pub under_folder : List WebdavFolder → MediaItem → Bool
under_folder folders m =
    any (λ f. f.library_id == m.library_id && (f.enabled && path_like (f.url ++ codes "%") m.path))
      folders

abbrev pub webdav_twin : Kind → Text → Option ℕ → Option ℕ → ℕ → MediaItem → Bool
webdav_twin kind title season_number episode_number library m =
    m.library_id == library
    && (kind_eq m.kind kind
        && (text_eq m.title title
            && (same_null m.season_number season_number
                && (same_null m.episode_number episode_number && is_owned m.acquisition_status))))

abbrev pub updated_at : MediaItem → ℕ
updated_at m = m.updated_at

abbrev pub path_of : Option MediaItem → Result Text
path_of none = err not_found
path_of (some m) = elim m.path [ none ↦ err not_found | some path ↦ ok path ]

unfoldable pub find_webdav_path_for_item :
    ℕ → Kind → Text → Option ℕ → Option ℕ → Prog (Result Text)
find_webdav_path_for_item library kind title season_number episode_number = query (λ s. path_of (
    head? (
      sort_desc updated_at (
        keep
          (λ m.
            webdav_twin kind title season_number episode_number library m
            && under_folder s.webdav_folders m)
          s.media_items))))

-- coalesce(active_nzb_download_id, '') of the row, where there is one.
abbrev pub active_download : Option MediaItem → Option ℕ
active_download none = none
active_download (some m) = m.active_nzb_download_id

abbrev pub size_bytes : NzbFile → ℕ
size_bytes f = f.size_bytes

abbrev pub webdav_url_of : Option NzbFile → Result Text
webdav_url_of none = err not_found
webdav_url_of (some f) = ok f.webdav_url

-- FindWebDAVPathFromNZB. Its first statement coalesces a UUID column with '', which Postgres refuses to
-- read as a UUID; the model lets it fail or answer, as every statement, and the code answers not found
-- when it fails.
unfoldable pub find_webdav_path_from_nzb : ℕ → Prog (Result Text)
find_webdav_path_from_nzb id = do
  active ← query (λ s. ok (active_download (find (has_id id) s.media_items)))
  check active (λ e. pure (err not_found))
      λ found. when_some found (pure (err not_found)) λ download. query (λ s. webdav_url_of (
        head? (
          sort_desc size_bytes (
            keep (λ f. f.nzb_download_id == download && not (is_empty f.webdav_url)) s.nzb_files))))

abbrev pub profile_of : Option (ℕ × QualityProfile) → QualityProfile
profile_of none = default_quality_profile
profile_of (some (library, profile)) = profile

unfoldable pub get_quality_profile : ℕ → Prog (Result QualityProfile)
get_quality_profile library =
    query (λ s. ok (profile_of (find (λ p. p.0 == library) s.quality_profiles)))

-- ORDER BY is_4k: the standard libraries before the 4K ones.
unfoldable pub list_default_request_targets : Kind → Prog (Result (List Library))
list_default_request_targets kind = query (λ s.
    let targets = keep (λ l. kind_eq l.kind kind && l.default_request_target) s.libraries in
    ok (keep (λ l. not l.is_4k) targets ++ keep (λ l. l.is_4k) targets))

unfoldable pub create_fulfillment : ℕ → ℕ → ℕ → Prog (Result (Unit {0}))
create_fulfillment request library item = exec (λ s. record s {
  fulfillments =
      s.fulfillments
      ++ (record { request_id = request; library_id = library; media_item_id = item } ∷ []);
})

unfoldable pub record_upgrade : ℕ → Text → Text → Text → Source → Prog (Result (Unit {0}))
record_upgrade item title old new source = exec (λ s. record s {
  upgrades =
      s.upgrades
      ++ (record {
        item_id = item;
        title = title;
        old_release = old;
        new_release = new;
        source = source;
      }
          ∷ []);
})
