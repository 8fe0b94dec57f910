-- ===== src/Resolve.antt =====
-- Background resolves, backend/internal/debrid/service.go, and the intake and completion of NZB
-- downloads, backend/internal/nzb/service.go.
use vorn_media_server.Prelude.{
  ℕ, Bool, true, false, not, none, some, List, [], ◌∷◌, Text, is_empty, if◌then◌else◌,
}
use vorn_media_server.Store.{
  Kind, season, Provider, realdebrid, torbox, alldebrid, premiumize, debridlink, DebridAccount,
  DebridItem, NzbDownload,
}
use vorn_media_server.Store.Prog.{
  Error, account_disabled, Result, ok, err, Prog, ◌>>=◌, ◌>>◌, pure, check, when_some, look, touch,
  spawn, resolve_link, download_nzb,
}
use vorn_media_server.Store.Messages.{message}
use vorn_media_server.Store.Media.{get_media_item}
use vorn_media_server.Store.Debrid.{
  get_debrid_account, DebridInput, create_debrid_item, get_debrid_item, set_provider_ref,
  finish_debrid_item, add_debrid_file,
}
use vorn_media_server.Store.Nzb.{create_nzb_download}
use vorn_media_server.Select.{contains}
use vorn_media_server.Remote.{Remote, RemoteFile, Resolved}
use vorn_media_server.Promote.Debrid.{
  promote_to_existing_item, promote_season_pack, promote_completed,
}
use vorn_media_server.Promote.Nzb

-- The providers map of NewService.
abbrev pub is_known : Provider → Bool
is_known realdebrid = true
is_known torbox = true
is_known alldebrid = true
is_known premiumize = true
is_known debridlink = true
is_known Provider.unknown_provider = false

-- AddLink; `go svc.run` starts the resolve, `run` below.
unfoldable pub add_link : DebridInput → Prog (Result DebridItem)
add_link input = do
  found ← get_debrid_account input.account_id
  check found (λ e. pure (err e))
      λ account.
        if not account.enabled
        then pure (err account_disabled)
        else if not (is_known account.provider)
        then pure (err Error.unknown_provider)
        else do
          created ← create_debrid_item input
          check created (λ e. pure (err e))
              λ item. do spawn (resolve_link account item); pure (ok item)

-- Saving the resolved files; a failed insert is logged. They are saved concurrently.
unfoldable pub save_files : ℕ → List RemoteFile → Prog (Unit {0})
save_files id [] w = (tt, w)
save_files id (f ∷ fs) w =
    save_files id fs
      (add_debrid_file
        (record {
          debrid_item_id = id;
          name = f.name;
          size_bytes = f.size_bytes;
          stream_url = f.stream_url;
        })
        w).1

abbrev pub is_season : Kind → Bool
is_season season = true
is_season _ = false

-- onComplete: whether the resolve's files are used.
unfoldable pub on_complete : Remote → DebridItem → Prog Bool
on_complete r d =
    when_some d.media_item_id (do promote_completed d; pure true)
      λ id. do
        found ← get_media_item id
        check found (λ e. pure false)
            λ m.
              if is_season m.kind then promote_season_pack r m d else promote_to_existing_item r m d

abbrev pub record_ref : ℕ → Text → Prog (Unit {0})
record_ref id ref = if is_empty ref then pure tt else do set_provider_ref id ref; pure tt

abbrev pub complete : Remote → DebridItem → Result Resolved → Prog (Unit {0})
complete r d (err e) = do finish_debrid_item d.id (some (message e)); pure tt
complete r d (ok resolved) = do
  record_ref d.id resolved.provider_ref
  save_files d.id resolved.files
  finished ← finish_debrid_item d.id none
  check finished (λ e. pure tt)
      λ _. do
        fresh ← get_debrid_item d.id
        check fresh (λ e. pure tt) λ item. do on_complete r item; pure tt

-- run, the goroutine of one resolve. What it deletes from the provider is outside.
unfoldable pub run : Remote → DebridAccount → DebridItem → Prog (Unit {0})
unfolding save_files
run r account d = complete r d (r.resolve account.provider d.source_ref)

-- CacheChecker is implemented by Real-Debrid and TorBox.
abbrev pub checks_cache : Provider → Bool
checks_cache realdebrid = true
checks_cache torbox = true
checks_cache _ = false

unfoldable pub check_cached : Remote → ℕ → List Text → Prog (Result (List Text))
check_cached r account_id hashes = do
  found ← get_debrid_account account_id
  check found (λ e. pure (err e))
      λ account.
        if not (is_known account.provider)
        then pure (err Error.unknown_provider)
        else if checks_cache account.provider
        then pure (r.cached_hashes account.provider hashes)
        else pure (ok [])

unfoldable pub is_url_failed : Text → Prog Bool
is_url_failed url = look (λ s. contains s.failed_urls url)

unfoldable pub record_url_failure : Text → Prog (Unit {0})
record_url_failure url = touch (λ s. record s { failed_urls = url ∷ s.failed_urls })

abbrev pub add_parsed : ℕ → ℕ → Text → Prog (Result NzbDownload)
add_parsed library item name = do
  created ← create_nzb_download (some library) (some item) name
  check created (λ e. pure (err e)) λ n. do spawn (download_nzb n); pure (ok n)

-- AddNZBForItem
unfoldable pub add_nzb_for_item : Remote → Text → ℕ → ℕ → Prog (Result NzbDownload)
add_nzb_for_item r content library item =
    check (r.nzb_name content) (λ e. pure (err e)) λ name. add_parsed library item name

-- nzb.NewService's onComplete.
unfoldable pub on_nzb_complete : Remote → NzbDownload → Prog Bool
on_nzb_complete r n =
    when_some n.media_item_id (do Nzb.promote_completed r n; pure true)
      λ id. do
        found ← get_media_item id
        check found (λ e. pure false)
            λ m.
              if is_season m.kind
              then Nzb.promote_season_pack r m n
              else Nzb.promote_to_existing_item r m n
