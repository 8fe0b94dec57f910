-- ===== src/Store/Closed/Tables/Downloads.antt =====
-- The operations on resolves, downloads and requests keep what is closed under the store.
use vorn_media_server.Prelude.{ℕ, Option, Text, refl, arith}
use vorn_media_server.Store.{DebridFile, NzbFile, Source, Shared}
use vorn_media_server.Store.Keeps.{Keeps, exec-Keeps, statement-Keeps}
use vorn_media_server.Store.Closed.{Closed}
use vorn_media_server.Store.Lookups.{create_fulfillment, record_upgrade}
use vorn_media_server.Store.Debrid.{
  DebridInput, create_debrid_item, set_debrid, set_provider_ref, finish_debrid_item,
  mark_debrid_item_promoted, remove_debrid_item, add_debrid_file,
}
use vorn_media_server.Store.Nzb.{
  create_nzb_download, set_nzb, finish_nzb_download, mark_nzb_promoted, remove_nzb_download,
  add_nzb_file,
}

module _ {P : Shared → Type 0} (c : Closed P) where
  pub create_fulfillment-Keeps :
      (request library item : ℕ) → Keeps P (create_fulfillment request library item)
  unfolding create_fulfillment
  create_fulfillment-Keeps request library item =
      exec-Keeps _ (λ s h. c.elsewhere s _ refl (omega arith) h)

  pub record_upgrade-Keeps :
      (item : ℕ) (title old new : Text) (source : Source)
      → Keeps P (record_upgrade item title old new source)
  unfolding record_upgrade
  record_upgrade-Keeps item title old new source =
      exec-Keeps _ (λ s h. c.elsewhere s _ refl (omega arith) h)

  pub create_debrid_item-Keeps : (d : DebridInput) → Keeps P (create_debrid_item d)
  unfolding create_debrid_item
  create_debrid_item-Keeps d = statement-Keeps _ (λ s h. c.elsewhere s _ refl (omega arith) h)

  pub set_provider_ref-Keeps : (id : ℕ) (ref : Text) → Keeps P (set_provider_ref id ref)
  unfolding set_provider_ref set_debrid
  set_provider_ref-Keeps id ref = exec-Keeps _ (λ s h. c.elsewhere s _ refl (omega arith) h)

  pub finish_debrid_item-Keeps :
      (id : ℕ) (outcome : Option Text) → Keeps P (finish_debrid_item id outcome)
  unfolding finish_debrid_item set_debrid
  finish_debrid_item-Keeps id outcome = exec-Keeps _ (λ s h. c.elsewhere s _ refl (omega arith) h)

  pub mark_debrid_item_promoted-Keeps : (id : ℕ) → Keeps P (mark_debrid_item_promoted id)
  unfolding mark_debrid_item_promoted set_debrid
  mark_debrid_item_promoted-Keeps id = exec-Keeps _ (λ s h. c.elsewhere s _ refl (omega arith) h)

  pub remove_debrid_item-Keeps : (id : ℕ) → Keeps P (remove_debrid_item id)
  unfolding remove_debrid_item set_debrid
  remove_debrid_item-Keeps id = exec-Keeps _ (λ s h. c.elsewhere s _ refl (omega arith) h)

  pub add_debrid_file-Keeps : (f : DebridFile) → Keeps P (add_debrid_file f)
  unfolding add_debrid_file
  add_debrid_file-Keeps f = exec-Keeps _ (λ s h. c.elsewhere s _ refl (omega arith) h)

  pub create_nzb_download-Keeps :
      (library item : Option ℕ) (name : Text) → Keeps P (create_nzb_download library item name)
  unfolding create_nzb_download
  create_nzb_download-Keeps library item name =
      statement-Keeps _ (λ s h. c.elsewhere s _ refl (omega arith) h)

  pub finish_nzb_download-Keeps :
      (id : ℕ) (outcome : Option Text) → Keeps P (finish_nzb_download id outcome)
  unfolding finish_nzb_download set_nzb
  finish_nzb_download-Keeps id outcome = exec-Keeps _ (λ s h. c.elsewhere s _ refl (omega arith) h)

  pub mark_nzb_promoted-Keeps : (id : ℕ) → Keeps P (mark_nzb_promoted id)
  unfolding mark_nzb_promoted set_nzb
  mark_nzb_promoted-Keeps id = exec-Keeps _ (λ s h. c.elsewhere s _ refl (omega arith) h)

  pub remove_nzb_download-Keeps : (id : ℕ) → Keeps P (remove_nzb_download id)
  unfolding remove_nzb_download set_nzb
  remove_nzb_download-Keeps id = exec-Keeps _ (λ s h. c.elsewhere s _ refl (omega arith) h)

  pub add_nzb_file-Keeps : (f : NzbFile) → Keeps P (add_nzb_file f)
  unfolding add_nzb_file
  add_nzb_file-Keeps f = exec-Keeps _ (λ s h. c.elsewhere s _ refl (omega arith) h)
