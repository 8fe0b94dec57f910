-- ===== src/Store/Nzb.antt =====
-- NZB downloads and their files, backend/internal/store/nzb.go.
use vorn_media_server.Prelude.{
  ℕ, ◌+◌, Bool, true, false, Option, none, some, List, [], ◌∷◌, ◌++◌, Text, ◌==◌, find, keep,
}
use vorn_media_server.Store.{NzbDownload, NzbFile, downloading, completed, failed, removed, Shared}
use vorn_media_server.Store.Prog.{Result, ok, Prog, query, exec, statement}
use vorn_media_server.Store.Media.{update_where, first_row}

abbrev pub nzb_has_id : ℕ → NzbDownload → Bool
nzb_has_id id n = n.id == id

abbrev pub nzb_row : ℕ → Option ℕ → Option ℕ → Text → NzbDownload
nzb_row id library item name = record {
  id = id;
  library_id = library;
  media_item_id = item;
  name = name;
  status = downloading;
  error = [];
  promoted = false;
}

unfoldable pub create_nzb_download : Option ℕ → Option ℕ → Text → Prog (Result NzbDownload)
create_nzb_download library item name = statement (λ s. (
  ok (nzb_row s.next_id library item name),
  record s {
    nzb_downloads = s.nzb_downloads ++ (nzb_row s.next_id library item name ∷ []);
    next_id = s.next_id + 1;
  },
))

unfoldable pub get_nzb_download : ℕ → Prog (Result NzbDownload)
get_nzb_download id = query (λ s. first_row (find (nzb_has_id id) s.nzb_downloads))

unfoldable pub set_nzb : ℕ → (NzbDownload → NzbDownload) → Shared → Shared
set_nzb id f s = record s { nzb_downloads = update_where (nzb_has_id id) f s.nzb_downloads }

abbrev pub with_nzb_outcome : Option Text → NzbDownload → NzbDownload
with_nzb_outcome none n = record n { status = completed }
with_nzb_outcome (some message) n = record n { status = failed; error = message }

unfoldable pub finish_nzb_download : ℕ → Option Text → Prog (Result (Unit {0}))
finish_nzb_download id outcome = exec (set_nzb id (with_nzb_outcome outcome))

unfoldable pub mark_nzb_promoted : ℕ → Prog (Result (Unit {0}))
mark_nzb_promoted id = exec (set_nzb id (λ n. record n { promoted = true }))

unfoldable pub remove_nzb_download : ℕ → Prog (Result (Unit {0}))
remove_nzb_download id = exec (set_nzb id (λ n. record n { status = removed }))

unfoldable pub add_nzb_file : NzbFile → Prog (Result (Unit {0}))
add_nzb_file f = exec (λ s. record s { nzb_files = s.nzb_files ++ (f ∷ []) })

unfoldable pub list_nzb_files : ℕ → Prog (Result (List NzbFile))
list_nzb_files download = query (λ s. ok (keep (λ f. f.nzb_download_id == download) s.nzb_files))
