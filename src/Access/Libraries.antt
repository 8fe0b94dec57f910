-- ===== src/Access/Libraries.antt =====
-- Who sees which library, backend/internal/httpapi/libraries.go.
use vorn_media_server.Prelude.{ℕ, Bool, true, List, any, keep, ◌==◌, if◌then◌else◌}
use vorn_media_server.Access.{
  User, Library, Accounts, Result, ok, err, get_user_library_permissions, list_libraries,
  get_library,
}
use vorn_media_server.Access.Auth.{
  Faults, Response, one_library, all_libraries, write_error, write_json, write_store_err,
}

abbrev pub names : ℕ → Result (List ℕ) → Result Bool
names library_id (err e) = err e
names library_id (ok ids) = ok (any (λ id. id == library_id) ids)

unfoldable pub can_access_library : Faults → User → ℕ → Accounts → Result Bool
unfolding get_user_library_permissions
can_access_library fault u library_id s =
    if u.is_admin
    then ok true
    else names library_id (get_user_library_permissions fault.reads_permissions u.id s)

abbrev pub visible : Result (List ℕ) → List Library → Response
visible (err _) libs = write_error 500
visible (ok ids) libs = write_json 200 (all_libraries (keep (λ l. any (λ id. id == l.id) ids) libs))

abbrev pub libraries_listed : Faults → User → Result (List Library) → Accounts → Response
libraries_listed fault u (err _) s = write_error 500
libraries_listed fault u (ok libs) s =
    if u.is_admin
    then write_json 200 (all_libraries libs)
    else visible (get_user_library_permissions fault.reads_permissions u.id s) libs

unfoldable pub handle_list_libraries : Faults → User → Accounts → Response × Accounts
unfolding list_libraries get_user_library_permissions
handle_list_libraries fault u s = (libraries_listed fault u (list_libraries fault.lists s) s, s)

abbrev pub library_loaded : Result Library → Response
library_loaded (err e) = write_store_err e
library_loaded (ok l) = write_json 200 (one_library l)

abbrev pub access_checked : Result Bool → Result Library → Response
access_checked (err _) lib = write_error 500
access_checked (ok allowed) lib = if allowed then library_loaded lib else write_error 403

unfoldable pub handle_get_library : Faults → ℕ → User → Accounts → Response × Accounts
unfolding can_access_library get_library
handle_get_library fault id u s =
    (access_checked (can_access_library fault u id s) (get_library fault.lists id s), s)
