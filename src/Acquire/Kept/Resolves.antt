-- ===== src/Acquire/Kept/Resolves.antt =====
-- Background resolves and the intake of NZB downloads keep what is closed under the store.
use vorn_media_server.Prelude.{ℕ, none, some, List, [], ◌∷◌, Text, refl}
use vorn_media_server.Store.{Shared, DebridAccount, DebridItem, NzbDownload}
use vorn_media_server.Store.Prog.{Result, ok, err, pure, ◌>>=◌, ◌>>◌, check}
use vorn_media_server.Store.Keeps.{Keeps, keeps_rules, touch-Keeps}
use vorn_media_server.Store.Closed.{Closed}
use vorn_media_server.Remote.{Remote, RemoteFile, Resolved}
use vorn_media_server.Store.Closed.Tables.{
  add_debrid_file-Keeps, create_debrid_item-Keeps, create_nzb_download-Keeps,
  finish_debrid_item-Keeps, get_debrid_account-Keeps, get_debrid_item-Keeps, get_media_item-Keeps,
  set_provider_ref-Keeps,
}
use vorn_media_server.Prelude.{arith}
use vorn_media_server.Acquire.Kept.Completion
use vorn_media_server.Acquire.Kept.CompletionNzb
use vorn_media_server.Acquire.Kept.Scanned
use vorn_media_server.Acquire.Kept.ScannedNzb
use vorn_media_server.Store.Messages.{message}
use vorn_media_server.Store.Debrid.{DebridInput, finish_debrid_item, get_debrid_item}
use vorn_media_server.Resolve.{
  save_files, record_ref, on_complete, complete, run, add_link, check_cached, is_url_failed,
  record_url_failure, add_parsed, add_nzb_for_item, on_nzb_complete,
}

module _ {P : Shared → Type 0} (c : Closed P) where
  save_files-Keeps : (id : ℕ) (fs : List RemoteFile) → Keeps P (save_files id fs)
  unfolding save_files
  save_files-Keeps id [] = record { at = λ w h. h }
  save_files-Keeps id (f ∷ fs) = record {
    at = λ w h. (save_files-Keeps id fs).at _ ((add_debrid_file-Keeps c _).at w h);
  }

  record_ref-Keeps : (id : ℕ) (ref : Text) → Keeps P (record_ref id ref)
  record_ref-Keeps id ref = search (keeps_rules, set_provider_ref-Keeps c) depth 20

  on_complete-Keeps : (r : Remote) (d : DebridItem) → Keeps P (on_complete r d)
  unfolding on_complete
  on_complete-Keeps r d =
      search
        (
          keeps_rules,
          Completion.promote_season_pack-Keeps c,
          Completion.promote_to_existing_item-Keeps c,
          Scanned.promote_completed-Keeps c,
          get_media_item-Keeps c,
        )
        depth 20

  finished-Keeps :
      (r : Remote) (d : DebridItem)
      → Keeps {A = Unit {0}} P (
          finish_debrid_item d.id none >>= λ finished.
          check finished
            (λ e. pure tt)
            λ _. get_debrid_item d.id >>= λ fresh.
              check fresh (λ e. pure tt) λ item. on_complete r item >> pure tt)
  finished-Keeps r d =
      search (keeps_rules, finish_debrid_item-Keeps c, get_debrid_item-Keeps c, on_complete-Keeps)
        depth 20

  complete-Keeps : (r : Remote) (d : DebridItem) (o : Result Resolved) → Keeps P (complete r d o)
  complete-Keeps r d (err e) = record {
    at = λ w h. (finish_debrid_item-Keeps c d.id (some (message e))).at w h;
  }
  complete-Keeps r d (ok resolved) = record {
    at = λ w h. (finished-Keeps r d).at _ (
        (save_files-Keeps d.id resolved.files).at _
          ((record_ref-Keeps d.id resolved.provider_ref).at w h));
  }

  pub run-Keeps : (r : Remote) (a : DebridAccount) (d : DebridItem) → Keeps P (run r a d)
  unfolding run
  run-Keeps r a d = record { at = (complete-Keeps r d (r.resolve a.provider d.source_ref)).at }

  pub add_link-Keeps : (input : DebridInput) → Keeps P (add_link input)
  unfolding add_link
  add_link-Keeps input =
      search (keeps_rules, get_debrid_account-Keeps c, create_debrid_item-Keeps c) depth 20

  pub check_cached-Keeps :
      (r : Remote) (id : ℕ) (hashes : List Text) → Keeps P (check_cached r id hashes)
  unfolding check_cached
  check_cached-Keeps r id hashes = search (keeps_rules, get_debrid_account-Keeps c) depth 20

  pub is_url_failed-Keeps : (url : Text) → Keeps P (is_url_failed url)
  unfolding is_url_failed
  is_url_failed-Keeps url = search keeps_rules

  pub record_url_failure-Keeps : (url : Text) → Keeps P (record_url_failure url)
  unfolding record_url_failure
  record_url_failure-Keeps url = touch-Keeps _ (λ s h. c.elsewhere s _ refl (omega arith) h)

  add_parsed-Keeps : (library item : ℕ) (name : Text) → Keeps P (add_parsed library item name)
  add_parsed-Keeps library item name = search (keeps_rules, create_nzb_download-Keeps c) depth 20

  pub add_nzb_for_item-Keeps :
      (r : Remote) (content : Text) (library item : ℕ)
      → Keeps P (add_nzb_for_item r content library item)
  unfolding add_nzb_for_item
  add_nzb_for_item-Keeps r content library item = search (keeps_rules, add_parsed-Keeps) depth 20

  pub on_nzb_complete-Keeps : (r : Remote) (n : NzbDownload) → Keeps P (on_nzb_complete r n)
  unfolding on_nzb_complete
  on_nzb_complete-Keeps r n =
      search
        (
          keeps_rules,
          CompletionNzb.promote_season_pack-Keeps c,
          CompletionNzb.promote_to_existing_item-Keeps c,
          ScannedNzb.promote_completed-Keeps c,
          get_media_item-Keeps c,
        )
        depth 20
