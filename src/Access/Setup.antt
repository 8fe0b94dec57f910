-- ===== src/Access/Setup.antt =====
-- The first-launch wizard, backend/internal/httpapi/setup.go.
use vorn_media_server.Prelude.{
  ℕ, Bool, true, Option, none, some, [], ◌∷◌, Text, codes, is_empty, ltb, ◌||◌, false,
  if◌then◌else◌,
}
use vorn_media_server.Access.{
  User, Library, Accounts, Result, ok, err, create_user, count_users, create_library,
}
use vorn_media_server.Access.Auth.{
  Crypto, Faults, Response, setup_status, setup_done, write_error, write_json,
}
use vorn_media_server.Access.Users.{is_too_short}

abbrev pub some_users : Result ℕ → Result Bool
some_users (err e) = err e
some_users (ok n) = ok (ltb 0 n)

unfoldable pub is_setup_complete : Faults → Accounts → Result Bool
unfolding count_users
is_setup_complete fault s = some_users (count_users fault.counts_users s)

abbrev pub status_read : Result Bool → Response
status_read (err _) = write_error 500
status_read (ok completed) = write_json 200 (setup_status completed)

unfoldable pub handle_setup_status : Faults → Accounts → Response × Accounts
unfolding is_setup_complete
handle_setup_status fault s = (status_read (is_setup_complete fault s), s)

pub record SetupInitRequest : Type 0 where
  pub admin_username : Text
  pub admin_password : Text
  pub library_name : Text
  pub library_type : Text
  pub library_path : Text

abbrev pub library_created : Text → Result Library × Accounts → Response × Accounts
library_created username (err _, s) = (write_error 500, s)
library_created username (ok l, s) = (write_json 201 (setup_done username (some l.id)), s)

abbrev pub or_movie : Text → Text
or_movie kind = if is_empty kind then codes "movie" else kind

abbrev pub admin_created : Faults → SetupInitRequest → Result User × Accounts → Response × Accounts
admin_created fault req (err _, s) = (write_error 500, s)
admin_created fault req (ok admin, s) =
    if is_empty req.library_name || is_empty req.library_path
    then (write_json 201 (setup_done admin.username none), s)
    else library_created admin.username (
        create_library fault.writes_library req.library_name (or_movie req.library_type)
          (req.library_path ∷ []) false s)

abbrev pub admin_hashed : Faults → SetupInitRequest → Option Text → Accounts → Response × Accounts
admin_hashed fault req none s = (write_error 500, s)
admin_hashed fault req (some hash) s =
    admin_created fault req (create_user fault.writes_user req.admin_username hash true s)

-- What handleSetupInit does once it has found that no user exists.
unfoldable pub init_first :
    Crypto → Faults → ℕ → Option SetupInitRequest → Accounts → Response × Accounts
unfolding create_user create_library
init_first c fault salt none s = (write_error 400, s)
init_first c fault salt (some req) s =
    if is_too_short req.admin_username req.admin_password
    then (write_error 400, s)
    else admin_hashed fault req (c.generate_from_password salt req.admin_password) s

abbrev pub init_checked :
    Crypto → Faults → ℕ → Option SetupInitRequest → Result Bool → Accounts → Response × Accounts
init_checked c fault salt req (err _) s = (write_error 500, s)
init_checked c fault salt req (ok completed) s =
    if completed then (write_error 409, s) else init_first c fault salt req s

unfoldable pub handle_setup_init :
    Crypto → Faults → ℕ → Option SetupInitRequest → Accounts → Response × Accounts
unfolding is_setup_complete init_first
handle_setup_init c fault salt req s = init_checked c fault salt req (is_setup_complete fault s) s
