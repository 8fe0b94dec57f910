-- ===== src/Store/Debrid.antt =====
-- Debrid accounts, resolves and their files, backend/internal/store/debrid.go.
use vorn_media_server.Prelude.{
  ℕ, ◌+◌, Bool, true, false, ◌&&◌, Option, none, some, List, [], ◌∷◌, ◌++◌, Text, leb, ◌==◌,
  if◌then◌else◌, find, keep,
}
use vorn_media_server.Prelude.Sort.{sort_desc}
use vorn_media_server.Store.{
  DebridAccount, DebridItem, DebridFile, DebridStatus, resolving, ready, failed, removed, Shared,
}
use vorn_media_server.Store.Prog.{Result, ok, Prog, query, exec, statement}
use vorn_media_server.Store.Media.{update_where, first_row, eq_id}

abbrev pub insert_account : DebridAccount → List DebridAccount → List DebridAccount
insert_account a [] = a ∷ []
insert_account a (b ∷ bs) =
    let rest = insert_account a bs in if leb a.created_at b.created_at then a ∷ b ∷ bs else b ∷ rest

-- ORDER BY created_at
abbrev pub by_created : List DebridAccount → List DebridAccount
by_created [] = []
by_created (a ∷ as') = insert_account a (by_created as')

unfoldable pub list_debrid_accounts : Prog (Result (List DebridAccount))
list_debrid_accounts = query (λ s. ok (by_created s.debrid_accounts))

unfoldable pub get_debrid_account : ℕ → Prog (Result DebridAccount)
get_debrid_account id = query (λ s. first_row (find (λ a. a.id == id) s.debrid_accounts))

-- CreateDebridItemInput
pub record DebridInput : Type 0 where
  pub library_id : Option ℕ
  pub account_id : ℕ
  pub source_ref : Text
  pub name : Text
  pub media_item_id : Option ℕ

abbrev pub debrid_row : ℕ → ℕ → DebridInput → DebridItem
debrid_row id now d = record {
  id = id;
  library_id = d.library_id;
  account_id = some d.account_id;
  source_ref = d.source_ref;
  name = d.name;
  status = resolving;
  error = [];
  promoted = false;
  added_at = now;
  media_item_id = d.media_item_id;
  provider_ref = [];
}

unfoldable pub create_debrid_item : DebridInput → Prog (Result DebridItem)
create_debrid_item d = statement (λ s. (
  ok (debrid_row s.next_id s.now d),
  record s {
    debrid_items = s.debrid_items ++ (debrid_row s.next_id s.now d ∷ []);
    next_id = s.next_id + 1;
  },
))

abbrev pub debrid_has_id : ℕ → DebridItem → Bool
debrid_has_id id d = d.id == id

unfoldable pub get_debrid_item : ℕ → Prog (Result DebridItem)
get_debrid_item id = query (λ s. first_row (find (debrid_has_id id) s.debrid_items))

abbrev pub is_ready : DebridStatus → Bool
is_ready ready = true
is_ready _ = false

abbrev pub is_failed : DebridStatus → Bool
is_failed failed = true
is_failed _ = false

abbrev pub added_at : DebridItem → ℕ
added_at d = d.added_at

-- Newest first.
unfoldable pub list_by_media_item : ℕ → Prog (Result (List DebridItem))
list_by_media_item item = query (λ s. ok (
    sort_desc added_at
      (keep (λ d. eq_id d.media_item_id item && (is_ready d.status && d.promoted)) s.debrid_items)))

unfoldable pub set_debrid : ℕ → (DebridItem → DebridItem) → Shared → Shared
set_debrid id f s = record s { debrid_items = update_where (debrid_has_id id) f s.debrid_items }

unfoldable pub set_provider_ref : ℕ → Text → Prog (Result (Unit {0}))
set_provider_ref id ref = exec (set_debrid id (λ d. record d { provider_ref = ref }))

abbrev pub with_outcome : Option Text → DebridItem → DebridItem
with_outcome none d = record d { status = ready }
with_outcome (some message) d = record d { status = failed; error = message }

-- FinishDebridItem, with the error's text if there was one.
unfoldable pub finish_debrid_item : ℕ → Option Text → Prog (Result (Unit {0}))
finish_debrid_item id outcome = exec (set_debrid id (with_outcome outcome))

unfoldable pub mark_debrid_item_promoted : ℕ → Prog (Result (Unit {0}))
mark_debrid_item_promoted id = exec (set_debrid id (λ d. record d { promoted = true }))

unfoldable pub remove_debrid_item : ℕ → Prog (Result (Unit {0}))
remove_debrid_item id = exec (set_debrid id (λ d. record d { status = removed }))

unfoldable pub add_debrid_file : DebridFile → Prog (Result (Unit {0}))
add_debrid_file f = exec (λ s. record s { debrid_files = s.debrid_files ++ (f ∷ []) })

unfoldable pub list_debrid_files : ℕ → Prog (Result (List DebridFile))
list_debrid_files item = query (λ s. ok (keep (λ f. f.debrid_item_id == item) s.debrid_files))
