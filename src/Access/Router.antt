-- ===== src/Access/Router.antt =====
-- The routes of backend/internal/httpapi/server.go with their guards, and histories of requests, each
-- handled to its end before the next. The handlers for setup, log-in, users, the reading of libraries
-- and the restoring of backups are modelled. A handler of any other route is arbitrary, but it leaves
-- users, sessions and the clock alone: only users.go and sessions.go of backend/internal/store have
-- statements that write those tables, and only the modelled handlers call them.
use vorn_media_server.Prelude.{ℕ, ◌+◌, Bool, Option, none, some, List, [], ◌∷◌, Text}
use vorn_media_server.Access.{User, Library, Permission, Accounts}
use vorn_media_server.Access.Auth.{
  Crypto, Faults, Response, LoginRequest, handle_login, handle_logout,
  handle_jf_authenticate_by_name, handle_plex_sign_in, handle_me, authenticate, with_auth,
  with_admin, with_client_auth,
}
use vorn_media_server.Access.Users.{
  CreateUserRequest, UpdateUserRequest, handle_list_users, handle_create_user, handle_update_user,
  handle_delete_user, handle_set_user_permissions,
}
use vorn_media_server.Access.Paths.{
  Guard, auth, admin, AdminPath, admin_guard, UserPath, user_guard,
}
use vorn_media_server.Access.Restore.{Psql, handle_restore_backup, handle_restore_auto_backup}
use vorn_media_server.Access.Setup.{SetupInitRequest, handle_setup_status, handle_setup_init}
use vorn_media_server.Access.Libraries.{handle_list_libraries, handle_get_library}

-- What a handler that is not modelled may change, and such a handler: what it answers and leaves, with
-- the user that its guard found.
pub record Left : Type 0 where
  pub libraries : List Library
  pub permissions : List Permission
  pub next_id : ℕ

abbrev pub Rest : Type 0
Rest = Option User → Accounts → Response × Left

abbrev pub leave : Left → Accounts → Accounts
leave left s = record s {
  libraries = left.libraries;
  permissions = left.permissions;
  next_id = left.next_id;
}

abbrev pub handle_rest : Rest → Option User → Accounts → Response × Accounts
handle_rest rest u s = let out = rest u s in (out.0, leave out.1 s)

-- The routes that anyone may call, those of a user, and those of an admin. A body that does not
-- decode is `none`.
pub data OpenRoute : Type 0 where
  setup_status logout : OpenRoute
  setup_init : Option SetupInitRequest → OpenRoute
  login jf_authenticate_by_name : Option LoginRequest → OpenRoute
  plex_sign_in : LoginRequest → OpenRoute
  other_open : Rest → OpenRoute

pub data UserRoute : Type 0 where
  me list_libraries : UserRoute
  get_library : ℕ → UserRoute
  other_user : UserPath → Rest → UserRoute

pub data AdminRoute : Type 0 where
  list_users : AdminRoute
  create_user : Option CreateUserRequest → AdminRoute
  update_user : ℕ → Option UpdateUserRequest → AdminRoute
  delete_user : ℕ → AdminRoute
  set_permissions : ℕ → Option (List ℕ) → AdminRoute
  restore_backup : Psql → AdminRoute
  restore_auto_backup : Text → Bool → Psql → AdminRoute
  other_admin : AdminPath → Rest → AdminRoute

-- A client of Jellyfin or Plex sends its token along.
pub data Route : Type 0 where
  open_route : OpenRoute → Route
  user_route : UserRoute → Route
  admin_route : AdminRoute → Route
  client_route : Text → Rest → Route

-- A request with what the server draws while it handles it.
pub record Request : Type 0 where
  pub cookie : Option Text
  pub route : Route
  pub random : Option Text
  pub salt : ℕ
  pub faults : Faults

unfoldable pub handle_open : Crypto → Request → OpenRoute → Accounts → Response × Accounts
unfolding handle_setup_status handle_setup_init handle_login handle_logout
    handle_jf_authenticate_by_name handle_plex_sign_in
handle_open c q setup_status s = handle_setup_status q.faults s
handle_open c q (setup_init req) s = handle_setup_init c q.faults q.salt req s
handle_open c q (login req) s = handle_login c q.faults q.random req s
handle_open c q (jf_authenticate_by_name req) s =
    handle_jf_authenticate_by_name c q.faults q.random req s
handle_open c q (plex_sign_in req) s = handle_plex_sign_in c q.faults q.random req s
handle_open c q logout s = handle_logout c q.faults q.cookie s
handle_open c q (other_open rest) s = handle_rest rest none s

abbrev pub guarded :
    Guard
    → Crypto
    → Request
    → (User → Accounts → Response × Accounts)
    → Accounts
    → Response × Accounts
guarded auth c q next s = with_auth c q.faults q.cookie next s
guarded admin c q next s = with_admin c q.faults q.cookie next s

unfoldable pub handle_user : Crypto → Request → UserRoute → Accounts → Response × Accounts
unfolding authenticate handle_me handle_list_libraries handle_get_library user_guard
handle_user c q me s = with_auth c q.faults q.cookie handle_me s
handle_user c q list_libraries s = with_auth c q.faults q.cookie (handle_list_libraries q.faults) s
handle_user c q (get_library id) s =
    with_auth c q.faults q.cookie (handle_get_library q.faults id) s
handle_user c q (other_user path rest) s =
    guarded (user_guard path) c q (λ u. handle_rest rest (some u)) s

unfoldable pub handle_admin : Crypto → Request → AdminRoute → Accounts → Response × Accounts
unfolding authenticate handle_list_users handle_create_user handle_update_user handle_delete_user
    handle_set_user_permissions handle_restore_backup handle_restore_auto_backup admin_guard
handle_admin c q list_users s = with_admin c q.faults q.cookie (λ u. handle_list_users q.faults) s
handle_admin c q (create_user req) s =
    with_admin c q.faults q.cookie (λ u. handle_create_user c q.faults q.salt req) s
handle_admin c q (update_user id req) s =
    with_admin c q.faults q.cookie (λ u. handle_update_user c q.faults q.salt id req) s
handle_admin c q (delete_user id) s =
    with_admin c q.faults q.cookie (handle_delete_user q.faults id) s
handle_admin c q (set_permissions id ids) s =
    with_admin c q.faults q.cookie (λ u. handle_set_user_permissions q.faults id ids) s
handle_admin c q (restore_backup psql) s =
    with_admin c q.faults q.cookie (λ u. handle_restore_backup psql) s
handle_admin c q (restore_auto_backup filename opened psql) s =
    with_admin c q.faults q.cookie (λ u. handle_restore_auto_backup filename opened psql) s
handle_admin c q (other_admin path rest) s =
    guarded (admin_guard path) c q (λ u. handle_rest rest (some u)) s

abbrev pub dispatch : Crypto → Request → Route → Accounts → Response × Accounts
dispatch c q (open_route r) s = handle_open c q r s
dispatch c q (user_route r) s = handle_user c q r s
dispatch c q (admin_route r) s = handle_admin c q r s
dispatch c q (client_route token rest) s =
    with_client_auth c q.faults token (λ u. handle_rest rest (some u)) s

abbrev pub handle : Crypto → Request → Accounts → Response × Accounts
handle c q s = dispatch c q q.route s

pub data Event : Type 0 where
  arrives : Request → Event
  passes : ℕ → Event

abbrev pub happen : Crypto → Event → Accounts → Accounts
happen c (arrives q) s = (handle c q s).1
happen c (passes seconds) s = record s { now = s.now + seconds }

abbrev pub run : Crypto → List Event → Accounts → Accounts
run c [] s = s
run c (e ∷ es) s = run c es (happen c e s)
