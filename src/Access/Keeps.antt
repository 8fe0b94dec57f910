-- ===== src/Access/Keeps.antt =====
-- What every request keeps: a predicate on the tables that the store's statements keep, and the
-- deletion of a user under its guard, is kept by the handlers of backend/internal/httpapi/users.go.
pub mod Logins
pub mod Requests
use vorn_media_server.Prelude.{
  ℕ, zero, suc, ◌+◌, ◌<◌, Bool, true, false, not, Option, none, some, List, [], ◌∷◌, ◌++◌, map,
  Text, any, keep, find, ltb, length, length-append, Bool-cases, ◌==◌, if◌then◌else◌, ◌≡◌, refl,
  ◌⊎◌, inl, inr, ap, arith,
}
use vorn_media_server.Access.{
  Library, User, Session, Accounts, StoreError, Result, ok, err, has_id, has_name, create_user,
  count_users, update_user, delete_user, create_session, delete_session,
  set_user_library_permissions, create_library,
}
use vorn_media_server.Access.Auth.{
  Crypto, Faults, Response, write_error, authenticate, with_admin, authorized, hash_token, verify,
  start_session, session_created, new_session_token, handle_login, handle_logout, handle_me,
}
use vorn_media_server.Access.Users.{
  CreateUserRequest, UpdateUserRequest, handle_list_users, handle_create_user, handle_update_user,
  handle_delete_user, handle_set_user_permissions, user_created, granted, hashed, is_too_short,
  password_updated, update_admin, admin_updated, update_password, password_hashed, store_done,
}
use vorn_media_server.Access.Setup.{
  SetupInitRequest, handle_setup_init, handle_setup_status, is_setup_complete, init_first,
  init_checked, admin_created, admin_hashed, library_created,
}
use vorn_media_server.Access.Libraries.{handle_list_libraries, handle_get_library}
use vorn_media_server.Access.Router
use vorn_media_server.Access.Router.{
  Request, OpenRoute, UserRoute, AdminRoute, Route, Event, handle, handle_open, handle_user,
  handle_admin, run, happen, dispatch, Left, leave,
}
use vorn_media_server.Access.Restore.{
  Psql, restore, handle_restore_backup, handle_restore_auto_backup, restore_opened, valid_filename,
}
use vorn_media_server.Access.Guarded.{Result-cases, authenticate-ok}

-- `Mint` says of a token's hash that it may be minted, `Back` of a backup that it may be restored.
pub record Kept (Mint : Text → Type 0) (Back : Accounts → Type 0) (P : Accounts → Type 0)
    : Type 0 where
  pub user_created :
      (b : Bool) (n p : Text) (a : Bool) (s : Accounts) → P s → P (create_user b n p a s).1
  pub user_updated :
      (b : Bool) (id : ℕ) (f : User → User) (s : Accounts) → P s → P (update_user b id f s).1
  pub user_deleted :
      (b : Bool) (id : ℕ) (u : User) (p : User → Bool) (s : Accounts)
      → find p s.users ≡ some u
      → (u.id == id) ≡ false
      → P s
      → P (delete_user b id s).1
  pub permissions_set :
      (b : Bool) (id : ℕ) (ids : List ℕ) (s : Accounts)
      → P s
      → P (set_user_library_permissions b id ids s).1
  pub library_created :
      (b : Bool) (n k : Text) (fs : List Text) (h : Bool) (s : Accounts)
      → P s
      → P (create_library b n k fs h s).1
  pub session_created :
      (b : Bool) (t : Text) (id e : ℕ) (s : Accounts)
      → Mint t
      → P s
      → P (create_session b t id e s).1
  pub session_deleted : (b : Bool) (t : Text) (s : Accounts) → P s → P (delete_session b t s)
  pub restored : (b s : Accounts) → Back b → P s → P (restore b s)
  pub left : (l : Left) (s : Accounts) → P s → P (leave l s)
  pub time_passed : (n : ℕ) (s : Accounts) → P s → P (record s { now = s.now + n })

-- What a request may mint.
abbrev pub Mints : (Text → Type 0) → Option (Text × Text) → Type 0
Mints Mint none = Unit
Mints Mint (some (token, hash)) = Mint hash

-- What psql may bring back.
abbrev pub Restores : (Accounts → Type 0) → Psql → Type 0
Restores Back Psql.not_installed = Unit
Restores Back Psql.refused = Unit
Restores Back (Psql.leaves b) = Back b

abbrev pub AdminRestores : (Accounts → Type 0) → AdminRoute → Type 0
AdminRestores Back (AdminRoute.restore_backup psql) = Restores Back psql
AdminRestores Back (AdminRoute.restore_auto_backup filename opened psql) = Restores Back psql
AdminRestores Back _ = Unit

abbrev pub RouteRestores : (Accounts → Type 0) → Route → Type 0
RouteRestores Back (Route.admin_route r) = AdminRestores Back r
RouteRestores Back _ = Unit

abbrev pub EventAllowed : Crypto → (Text → Type 0) → (Accounts → Type 0) → Event → Type 0
EventAllowed c Mint Back (Event.arrives q) =
    Mints Mint (new_session_token c q.random) × RouteRestores Back q.route
EventAllowed c Mint Back (Event.passes n) = Unit

module _ {Mint : Text → Type 0} {Back : Accounts → Type 0} {P : Accounts → Type 0}
    (kept : Kept Mint Back P) (fault : Faults) where
  granted-keeps : (u : User) (r : Result (Unit {0}) × Accounts) → P r.1 → P (granted u r).1
  granted-keeps u (ok _, s) h = h
  granted-keeps u (err _, s) h = h

  user_created-keeps :
      (ids : List ℕ) (r : Result User × Accounts) → P r.1 → P (user_created fault ids r).1
  user_created-keeps ids (err StoreError.conflict, s) h = h
  user_created-keeps ids (err StoreError.not_found, s) h = h
  user_created-keeps ids (err StoreError.db_failed, s) h = h
  user_created-keeps ids (err StoreError.invalid_credentials, s) h = h
  user_created-keeps [] (ok u, s) h = h
  user_created-keeps (id ∷ ids) (ok u, s) h =
      granted-keeps u _ (kept.permissions_set fault.writes_permissions u.id (id ∷ ids) s h)

  hashed-keeps :
      (req : CreateUserRequest) (o : Option Text) (s : Accounts) → P s → P (hashed fault req o s).1
  hashed-keeps req none s h = h
  hashed-keeps req (some t) s h =
      user_created-keeps req.library_ids _
        (kept.user_created fault.writes_user req.username t req.is_admin s h)

  admin_updated-keeps :
      (id : ℕ) (r : Result (Unit {0}) × Accounts) → P r.1 → P (admin_updated fault id r).1
  admin_updated-keeps id (ok _, s) h = h
  admin_updated-keeps id (err _, s) h = h

  update_admin-keeps :
      (id : ℕ) (o : Option Bool) (s : Accounts) → P s → P (update_admin fault id o s).1
  update_admin-keeps id none s h = h
  update_admin-keeps id (some b) s h =
      admin_updated-keeps id _ (kept.user_updated fault.writes_admin id _ s h)

  password_updated-keeps :
      (id : ℕ) (o : Option Bool) (r : Result (Unit {0}) × Accounts)
      → P r.1
      → P (password_updated fault id o r).1
  password_updated-keeps id o (ok _, s) h = update_admin-keeps id o s h
  password_updated-keeps id o (err _, s) h = h

  password_hashed-keeps :
      (id : ℕ) (o : Option Bool) (t : Option Text) (s : Accounts)
      → P s
      → P (password_hashed fault id o t s).1
  password_hashed-keeps id o none s h = h
  password_hashed-keeps id o (some t) s h =
      password_updated-keeps id o _ (kept.user_updated fault.writes_user id _ s h)

  store_done-keeps : (r : Result (Unit {0}) × Accounts) → P r.1 → P (store_done r).1
  store_done-keeps (ok _, s) h = h
  store_done-keeps (err _, s) h = h

  -- A deletion spares the requester, whom its authentication has just read.
  pub handle_delete_user-keeps :
      (id : ℕ) (u : User) (p : User → Bool) (s : Accounts)
      → find p s.users ≡ some u
      → P s
      → P (handle_delete_user fault id u s).1
  unfolding handle_delete_user
  handle_delete_user-keeps id u p s found h = elim (Bool-cases (u.id == id)) [
    | inl own ↦ rw own h
    | inr other ↦ rw other (
        store_done-keeps (delete_user fault.writes_user id s)
          (kept.user_deleted fault.writes_user id u p s found other h))
  ]

  update_password-keeps :
      (c : Crypto) (salt id : ℕ) (o : Option Bool) (t : Option Text) (s : Accounts)
      → P s
      → P (update_password c fault salt id o t s).1
  update_password-keeps c salt id o none s h = update_admin-keeps id o s h
  update_password-keeps c salt id o (some t) s h = elim (Bool-cases (ltb (length t) 8)) [
    | inl short ↦ rw short h
    | inr long ↦ rw long (password_hashed-keeps id o (c.generate_from_password salt t) s h)
  ]

  pub handle_create_user-keeps :
      (c : Crypto) (salt : ℕ) (req : Option CreateUserRequest) (s : Accounts)
      → P s
      → P (handle_create_user c fault salt req s).1
  unfolding handle_create_user
  handle_create_user-keeps c salt none s h = h
  handle_create_user-keeps c salt (some req) s h =
      elim (Bool-cases (is_too_short req.username req.password)) [
        | inl short ↦ rw short h
        | inr long ↦ rw long (hashed-keeps req (c.generate_from_password salt req.password) s h)
      ]

  pub handle_update_user-keeps :
      (c : Crypto) (salt id : ℕ) (req : Option UpdateUserRequest) (s : Accounts)
      → P s
      → P (handle_update_user c fault salt id req s).1
  unfolding handle_update_user
  handle_update_user-keeps c salt id none s h = h
  handle_update_user-keeps c salt id (some req) s h =
      update_password-keeps c salt id req.is_admin req.password s h

  pub handle_set_user_permissions-keeps :
      (id : ℕ) (ids : Option (List ℕ)) (s : Accounts)
      → P s
      → P (handle_set_user_permissions fault id ids s).1
  unfolding handle_set_user_permissions
  handle_set_user_permissions-keeps id none s h = h
  handle_set_user_permissions-keeps id (some ids) s h =
      store_done-keeps _ (kept.permissions_set fault.writes_permissions id ids s h)

  pub handle_restore_backup-keeps :
      (psql : Psql) (s : Accounts) → Restores Back psql → P s → P (handle_restore_backup psql s).1
  unfolding handle_restore_backup
  handle_restore_backup-keeps Psql.not_installed s b h = h
  handle_restore_backup-keeps Psql.refused s b h = h
  handle_restore_backup-keeps (Psql.leaves backup) s b h = kept.restored backup s b h

  restore_opened-keeps :
      (opened : Bool) (psql : Psql) (s : Accounts)
      → Restores Back psql
      → P s
      → P (restore_opened opened psql s).1
  restore_opened-keeps opened Psql.not_installed s b h = h
  restore_opened-keeps opened Psql.refused s b h = h
  restore_opened-keeps true (Psql.leaves backup) s b h =
      handle_restore_backup-keeps (Psql.leaves backup) s b h
  restore_opened-keeps false (Psql.leaves backup) s b h = h

  pub handle_restore_auto_backup-keeps :
      (filename : Text) (opened : Bool) (psql : Psql) (s : Accounts)
      → Restores Back psql
      → P s
      → P (handle_restore_auto_backup filename opened psql s).1
  unfolding handle_restore_auto_backup
  handle_restore_auto_backup-keeps filename opened psql s b h =
      elim (Bool-cases (valid_filename filename)) [
        | inl e ↦ rw e (restore_opened-keeps opened psql s b h)
        | inr e ↦ rw e h
      ]
