-- ===== src/Access/Users.antt =====
-- The administration of users, backend/internal/httpapi/users.go.
use vorn_media_server.Prelude.{
  ℕ, Bool, Option, none, some, List, [], ◌∷◌, map, Text, ltb, length, ◌==◌, ◌||◌, if◌then◌else◌,
}
use vorn_media_server.Access.{
  User, Accounts, StoreError, Result, ok, err, create_user, get_user_by_id, list_users, update_user,
  update_user_password, update_user_admin, delete_user, set_user_library_permissions,
}
use vorn_media_server.Access.Auth.{
  Crypto, Faults, Response, no_body, one_user, all_users, write_error, write_json, write_store_err,
  to_user_response,
}

abbrev pub users_listed : Result (List User) → Response
users_listed (err _) = write_error 500
users_listed (ok users) = write_json 200 (all_users (map to_user_response users))

unfoldable pub handle_list_users : Faults → Accounts → Response × Accounts
unfolding list_users
handle_list_users fault s = (users_listed (list_users fault.lists s), s)

pub record CreateUserRequest : Type 0 where
  pub username : Text
  pub password : Text
  pub is_admin : Bool
  pub library_ids : List ℕ

abbrev pub granted : User → Result (Unit {0}) × Accounts → Response × Accounts
granted u (ok _, s) = (write_json 201 (one_user (to_user_response u)), s)
granted u (err _, s) = (write_error 500, s)

abbrev pub user_created : Faults → List ℕ → Result User × Accounts → Response × Accounts
user_created fault ids (err StoreError.conflict, s) = (write_error 409, s)
user_created fault ids (err StoreError.not_found, s) = (write_error 500, s)
user_created fault ids (err StoreError.db_failed, s) = (write_error 500, s)
user_created fault ids (err StoreError.invalid_credentials, s) = (write_error 500, s)
user_created fault [] (ok u, s) = (write_json 201 (one_user (to_user_response u)), s)
user_created fault (id ∷ ids) (ok u, s) =
    granted u (set_user_library_permissions fault.writes_permissions u.id (id ∷ ids) s)

abbrev pub hashed : Faults → CreateUserRequest → Option Text → Accounts → Response × Accounts
hashed fault req none s = (write_error 500, s)
hashed fault req (some hash) s =
    user_created fault req.library_ids
      (create_user fault.writes_user req.username hash req.is_admin s)

-- A length is one of bytes.
abbrev pub is_too_short : Text → Text → Bool
is_too_short username password = ltb (length username) 3 || ltb (length password) 8

unfoldable pub handle_create_user :
    Crypto → Faults → ℕ → Option CreateUserRequest → Accounts → Response × Accounts
unfolding create_user set_user_library_permissions
handle_create_user c fault salt none s = (write_error 400, s)
handle_create_user c fault salt (some req) s =
    if is_too_short req.username req.password
    then (write_error 400, s)
    else hashed fault req (c.generate_from_password salt req.password) s

pub record UpdateUserRequest : Type 0 where
  pub password : Option Text
  pub is_admin : Option Bool

abbrev pub user_fetched : Result User → Response
user_fetched (err e) = write_store_err e
user_fetched (ok u) = write_json 200 (one_user (to_user_response u))

abbrev pub admin_updated : Faults → ℕ → Result (Unit {0}) × Accounts → Response × Accounts
admin_updated fault id (err e, s) = (write_store_err e, s)
admin_updated fault id (ok _, s) = (user_fetched (get_user_by_id fault.reads_user id s), s)

abbrev pub update_admin : Faults → ℕ → Option Bool → Accounts → Response × Accounts
update_admin fault id none s = admin_updated fault id (ok tt, s)
update_admin fault id (some is_admin) s =
    admin_updated fault id (update_user_admin fault.writes_admin id is_admin s)

abbrev pub password_updated :
    Faults → ℕ → Option Bool → Result (Unit {0}) × Accounts → Response × Accounts
password_updated fault id is_admin (err e, s) = (write_store_err e, s)
password_updated fault id is_admin (ok _, s) = update_admin fault id is_admin s

abbrev pub password_hashed : Faults → ℕ → Option Bool → Option Text → Accounts → Response × Accounts
password_hashed fault id is_admin none s = (write_error 500, s)
password_hashed fault id is_admin (some hash) s =
    password_updated fault id is_admin (update_user_password fault.writes_user id hash s)

abbrev pub update_password :
    Crypto → Faults → ℕ → ℕ → Option Bool → Option Text → Accounts → Response × Accounts
update_password c fault salt id is_admin none s = update_admin fault id is_admin s
update_password c fault salt id is_admin (some password) s =
    if ltb (length password) 8
    then (write_error 400, s)
    else password_hashed fault id is_admin (c.generate_from_password salt password) s

unfoldable pub handle_update_user :
    Crypto → Faults → ℕ → ℕ → Option UpdateUserRequest → Accounts → Response × Accounts
unfolding update_user get_user_by_id
handle_update_user c fault salt id none s = (write_error 400, s)
handle_update_user c fault salt id (some req) s =
    update_password c fault salt id req.is_admin req.password s

abbrev pub store_done : Result (Unit {0}) × Accounts → Response × Accounts
store_done (ok _, s) = (write_json 204 no_body, s)
store_done (err e, s) = (write_store_err e, s)

unfoldable pub handle_delete_user : Faults → ℕ → User → Accounts → Response × Accounts
unfolding delete_user
handle_delete_user fault id requester s =
    if requester.id == id
    then (write_error 400, s)
    else store_done (delete_user fault.writes_user id s)

unfoldable pub handle_set_user_permissions :
    Faults → ℕ → Option (List ℕ) → Accounts → Response × Accounts
unfolding set_user_library_permissions
handle_set_user_permissions fault id none s = (write_error 400, s)
handle_set_user_permissions fault id (some ids) s =
    store_done (set_user_library_permissions fault.writes_permissions id ids s)
