-- ===== src/Store/Closed/Tables/Items.antt =====
-- The operations on media_items keep what is closed under them.
use vorn_media_server.Prelude.{ℕ, Bool, true, Option, some, Text, ◌≡◌, refl, is_empty}
use vorn_media_server.Store.{Kind, Status, Shared}
use vorn_media_server.Store.Prog.{statement, exec, ok}
use vorn_media_server.Store.Keeps.{Keeps, exec-Keeps, statement-Keeps, keeps_rules}
use vorn_media_server.Store.Closed.{
  Closed, insert_item, point, mark_error, mark, debrid_slot, nzb_slot, monitor, describe,
}
use vorn_media_server.Store.Media.{
  get_media_item, set_media_item_path, set_acquisition_error, set_acquisition_status,
  reset_stuck_acquisitions, set_active_debrid_item, set_active_nzb_download, claim_for_debrid_item,
  claim_for_nzb_download, set_monitored, MetadataUpdate, apply_metadata, has_id, debrid_claimable,
  nzb_claimable, is_stuck, interrupted, under, set_items,
}
use vorn_media_server.Store.Find.{
  PlaceholderInput, create_placeholder, placeholder_row, get_by_tmdb_id, find_placeholder_child,
  list_monitored_top_level, list_monitored_owned, list_owned_remote_items, list_children,
}
use vorn_media_server.Store.Lookups.{
  find_webdav_path_for_item, find_webdav_path_from_nzb, get_quality_profile,
  list_default_request_targets,
}
use vorn_media_server.Store.Debrid.{
  list_debrid_accounts, get_debrid_account, get_debrid_item, list_by_media_item, list_debrid_files,
}
use vorn_media_server.Store.Nzb.{get_nzb_download, list_nzb_files}

module _ {P : Shared → Type 0} (c : Closed P) where
  pub get_media_item-Keeps : (id : ℕ) → Keeps P (get_media_item id)
  unfolding get_media_item
  get_media_item-Keeps id = search keeps_rules

  pub set_media_item_path-Keeps :
      (id : ℕ) (path release : Text) → Keeps P (set_media_item_path id path release)
  unfolding set_media_item_path
  set_media_item_path-Keeps id path release =
      exec-Keeps _ (λ s. c.rows (has_id id) (point path release) s refl)

  pub set_acquisition_error-Keeps :
      (id : ℕ) (message : Text) → Keeps P (set_acquisition_error id message)
  unfolding set_acquisition_error
  set_acquisition_error-Keeps id message =
      exec-Keeps _ (λ s. c.rows (has_id id) (mark_error message) s refl)

  pub set_acquisition_status-Keeps :
      (id : ℕ) (status : Status) → Keeps P (set_acquisition_status id status)
  unfolding set_acquisition_status
  set_acquisition_status-Keeps id status =
      exec-Keeps _ (λ s. c.rows (has_id id) (mark status) s refl)

  pub reset_stuck_acquisitions-Keeps : Keeps P (reset_stuck_acquisitions)
  unfolding reset_stuck_acquisitions
  reset_stuck_acquisitions-Keeps =
      statement-Keeps _ (λ s. c.rows is_stuck (mark_error interrupted) s refl)

  pub set_active_debrid_item-Keeps : (id : ℕ) (o : Option ℕ) → Keeps P (set_active_debrid_item id o)
  unfolding set_active_debrid_item
  set_active_debrid_item-Keeps id o = exec-Keeps _ (λ s. c.rows (has_id id) (debrid_slot o) s refl)

  pub set_active_nzb_download-Keeps :
      (id : ℕ) (o : Option ℕ) → Keeps P (set_active_nzb_download id o)
  unfolding set_active_nzb_download
  set_active_nzb_download-Keeps id o = exec-Keeps _ (λ s. c.rows (has_id id) (nzb_slot o) s refl)

  pub claim_for_debrid_item-Keeps : (id d : ℕ) → Keeps P (claim_for_debrid_item id d)
  unfolding claim_for_debrid_item
  claim_for_debrid_item-Keeps id d =
      statement-Keeps _ (λ s. c.rows (debrid_claimable id) (debrid_slot (some d)) s refl)

  pub claim_for_nzb_download-Keeps : (id d : ℕ) → Keeps P (claim_for_nzb_download id d)
  unfolding claim_for_nzb_download
  claim_for_nzb_download-Keeps id d =
      statement-Keeps _ (λ s. c.rows (nzb_claimable id) (nzb_slot (some d)) s refl)

  under-Keeps :
      (id : ℕ) (monitored : Bool)
      → Keeps P (
          exec
            (λ s. set_items (under id s.media_items) (λ m. record m { monitored = monitored }) s))
  under-Keeps id monitored =
      exec-Keeps _ (λ s. c.rows (under id s.media_items) (monitor monitored) s refl)

  one-Keeps :
      (id : ℕ) (monitored : Bool)
      → Keeps P (exec (set_items (has_id id) (λ m. record m { monitored = monitored })))
  one-Keeps id monitored = exec-Keeps _ (λ s. c.rows (has_id id) (monitor monitored) s refl)

  pub set_monitored-Keeps : (id : ℕ) (monitored : Bool) → Keeps P (set_monitored id monitored)
  unfolding set_monitored
  set_monitored-Keeps id monitored =
      search (keeps_rules, get_media_item-Keeps, under-Keeps, one-Keeps)

  pub apply_metadata-Keeps :
      (id : ℕ) (u : MetadataUpdate) (lock : Bool)
      → is_empty u.title ≡ true
      → Keeps P (apply_metadata id u lock)
  unfolding apply_metadata
  apply_metadata-Keeps id u lock h = exec-Keeps _ (λ s. c.rows (has_id id) (describe u lock) s h)

  pub get_by_tmdb_id-Keeps :
      (library tmdb : ℕ) (kind : Kind) → Keeps P (get_by_tmdb_id library tmdb kind)
  unfolding get_by_tmdb_id
  get_by_tmdb_id-Keeps library tmdb kind = search keeps_rules

  pub find_placeholder_child-Keeps :
      (library : ℕ) (parent : Option ℕ) (kind : Kind) (title : Text) (s e : Option ℕ)
      → Keeps P (find_placeholder_child library parent kind title s e)
  unfolding find_placeholder_child
  find_placeholder_child-Keeps library parent kind title s e = search keeps_rules

  pub list_monitored_top_level-Keeps : Keeps P (list_monitored_top_level)
  unfolding list_monitored_top_level
  list_monitored_top_level-Keeps = search keeps_rules

  pub list_monitored_owned-Keeps : Keeps P (list_monitored_owned)
  unfolding list_monitored_owned
  list_monitored_owned-Keeps = search keeps_rules

  pub list_owned_remote_items-Keeps : Keeps P (list_owned_remote_items)
  unfolding list_owned_remote_items
  list_owned_remote_items-Keeps = search keeps_rules

  pub list_children-Keeps : (id : ℕ) → Keeps P (list_children id)
  unfolding list_children
  list_children-Keeps id = search keeps_rules

  pub find_webdav_path_for_item-Keeps :
      (library : ℕ) (kind : Kind) (title : Text) (s e : Option ℕ)
      → Keeps P (find_webdav_path_for_item library kind title s e)
  unfolding find_webdav_path_for_item
  find_webdav_path_for_item-Keeps library kind title s e = search keeps_rules

  pub get_quality_profile-Keeps : (library : ℕ) → Keeps P (get_quality_profile library)
  unfolding get_quality_profile
  get_quality_profile-Keeps library = search keeps_rules

  pub list_default_request_targets-Keeps :
      (kind : Kind) → Keeps P (list_default_request_targets kind)
  unfolding list_default_request_targets
  list_default_request_targets-Keeps kind = search keeps_rules

  pub list_debrid_accounts-Keeps : Keeps P (list_debrid_accounts)
  unfolding list_debrid_accounts
  list_debrid_accounts-Keeps = search keeps_rules

  pub get_debrid_account-Keeps : (id : ℕ) → Keeps P (get_debrid_account id)
  unfolding get_debrid_account
  get_debrid_account-Keeps id = search keeps_rules

  pub get_debrid_item-Keeps : (id : ℕ) → Keeps P (get_debrid_item id)
  unfolding get_debrid_item
  get_debrid_item-Keeps id = search keeps_rules

  pub list_by_media_item-Keeps : (id : ℕ) → Keeps P (list_by_media_item id)
  unfolding list_by_media_item
  list_by_media_item-Keeps id = search keeps_rules

  pub list_debrid_files-Keeps : (id : ℕ) → Keeps P (list_debrid_files id)
  unfolding list_debrid_files
  list_debrid_files-Keeps id = search keeps_rules

  pub get_nzb_download-Keeps : (id : ℕ) → Keeps P (get_nzb_download id)
  unfolding get_nzb_download
  get_nzb_download-Keeps id = search keeps_rules

  pub list_nzb_files-Keeps : (id : ℕ) → Keeps P (list_nzb_files id)
  unfolding list_nzb_files
  list_nzb_files-Keeps id = search keeps_rules

  pub find_webdav_path_from_nzb-Keeps : (id : ℕ) → Keeps P (find_webdav_path_from_nzb id)
  unfolding find_webdav_path_from_nzb
  find_webdav_path_from_nzb-Keeps id = search keeps_rules

  insert-Keeps :
      (p : PlaceholderInput)
      → Keeps P (statement (λ s. (ok s.next_id, insert_item (placeholder_row s.next_id s.now p) s)))
  insert-Keeps p = statement-Keeps _ (λ s h. c.insert (placeholder_row s.next_id s.now p) s refl h)

  pub create_placeholder-Keeps : (p : PlaceholderInput) → Keeps P (create_placeholder p)
  unfolding create_placeholder
  create_placeholder-Keeps p = search (keeps_rules, insert-Keeps, get_media_item-Keeps)
