-- ===== src/Access.antt =====
-- Accounts: backend/internal/store/users.go, sessions.go and the permissions of libraries.go, with
-- backend/internal/auth and the handlers of backend/internal/httpapi that stand on them
-- (auth_handlers.go, middleware.go, users.go, setup.go, and the reads of libraries.go).
--
-- This file has the tables and the store's statements. The argument `fails` of a statement says
-- whether the database refuses it; one that it refuses has written nothing. An id is a number, a
-- time a number of seconds on the one clock of server and database.
pub mod Auth
pub mod Users
pub mod Setup
pub mod Libraries
pub mod Paths
pub mod Restore
pub mod Behind
pub mod Router
pub mod Guarded
pub mod Listed
pub mod Keeps
pub mod Populated
pub mod Ended
pub mod Races
use vorn_media_server.Prelude.{
  ℕ, ◌+◌, Bool, true, false, not, ◌&&◌, ◌||◌, Option, none, some, List, [], ◌∷◌, ◌++◌, map, Text,
  codes, text_eq, ltb, any, all, keep, length, find, ◌==◌, if◌then◌else◌,
}

pub record User : Type 0 where
  pub id : ℕ
  pub username : Text
  pub password_hash : Text
  pub is_admin : Bool
  pub created_at : ℕ

pub record Session : Type 0 where
  pub token_hash : Text
  pub user_id : ℕ
  pub expires_at : ℕ

pub record Library : Type 0 where
  pub id : ℕ
  pub name : Text
  pub kind : Text
  pub is_4k : Bool
  pub folders : List Text

pub record Permission : Type 0 where
  pub user_id : ℕ
  pub library_id : ℕ

pub record Accounts : Type 0 where
  pub users : List User
  pub sessions : List Session
  pub libraries : List Library
  pub permissions : List Permission
  pub next_id : ℕ
  pub now : ℕ

pub data StoreError : Type 0 where
  not_found conflict db_failed invalid_credentials : StoreError

pub data Result {ℓ} (A : Type ℓ) : Type ℓ where
  ok : A → Result A
  err : StoreError → Result A

abbrev pub or_not_found {ℓ} : {A : Type ℓ} → Option A → Result A
or_not_found none = err not_found
or_not_found (some a) = ok a

abbrev pub has_id : ℕ → User → Bool
has_id id u = u.id == id

abbrev pub has_name : Text → User → Bool
has_name username u = text_eq u.username username

abbrev pub is_library : ℕ → Library → Bool
is_library id l = l.id == id

-- CreateUser: the username is unique.
unfoldable pub create_user : Bool → Text → Text → Bool → Accounts → Result User × Accounts
create_user fails username password_hash is_admin s =
    let u : User = record {
      id = s.next_id;
      username = username;
      password_hash = password_hash;
      is_admin = is_admin;
      created_at = s.now;
    } in
    if fails
    then (err db_failed, s)
    else if any (has_name username) s.users
    then (err conflict, s)
    else (ok u, record s { users = s.users ++ (u ∷ []); next_id = s.next_id + 1 })

unfoldable pub get_user_by_username : Bool → Text → Accounts → Result User
get_user_by_username fails username s =
    if fails then err db_failed else or_not_found (find (has_name username) s.users)

unfoldable pub get_user_by_id : Bool → ℕ → Accounts → Result User
get_user_by_id fails id s = if fails then err db_failed else or_not_found (find (has_id id) s.users)

unfoldable pub list_users : Bool → Accounts → Result (List User)
list_users fails s = if fails then err db_failed else ok s.users

unfoldable pub count_users : Bool → Accounts → Result ℕ
count_users fails s = if fails then err db_failed else ok (length s.users)

-- An UPDATE of the row with this id; checkRowsAffected makes no row an error.
unfoldable pub update_user : Bool → ℕ → (User → User) → Accounts → Result (Unit {0}) × Accounts
update_user fails id change s =
    if fails
    then (err db_failed, s)
    else if any (has_id id) s.users
    then (ok tt, record s { users = map (λ u. if has_id id u then change u else u) s.users })
    else (err not_found, s)

abbrev pub update_user_password : Bool → ℕ → Text → Accounts → Result (Unit {0}) × Accounts
update_user_password fails id hash = update_user fails id (λ u. record u { password_hash = hash })

abbrev pub update_user_admin : Bool → ℕ → Bool → Accounts → Result (Unit {0}) × Accounts
update_user_admin fails id is_admin = update_user fails id (λ u. record u { is_admin = is_admin })

-- DeleteUser: the sessions and permissions of the user go with the row.
unfoldable pub delete_user : Bool → ℕ → Accounts → Result (Unit {0}) × Accounts
delete_user fails id s =
    if fails
    then (err db_failed, s)
    else if any (has_id id) s.users
    then (
      ok tt,
      record s {
        users = keep (λ u. not (has_id id u)) s.users;
        sessions = keep (λ x. not (x.user_id == id)) s.sessions;
        permissions = keep (λ p. not (p.user_id == id)) s.permissions;
      },
    )
    else (err not_found, s)

abbrev pub is_live : Text → ℕ → Session → Bool
is_live token_hash now x = text_eq x.token_hash token_hash && ltb now x.expires_at

-- CreateSession: the hash is the key, and the user has to exist.
unfoldable pub create_session : Bool → Text → ℕ → ℕ → Accounts → Result (Unit {0}) × Accounts
create_session fails token_hash user_id expires_at s =
    let x : Session = record {
      token_hash = token_hash;
      user_id = user_id;
      expires_at = expires_at;
    } in
    if fails
      || any (λ y. text_eq y.token_hash token_hash) s.sessions
      || not (any (has_id user_id) s.users)
    then (err db_failed, s)
    else (ok tt, record s { sessions = x ∷ s.sessions })

unfoldable pub get_session : Bool → Text → Accounts → Result Session
get_session fails token_hash s =
    if fails then err db_failed else or_not_found (find (is_live token_hash s.now) s.sessions)

unfoldable pub delete_session : Bool → Text → Accounts → Accounts
delete_session fails token_hash s =
    if fails
    then s
    else record s { sessions = keep (λ x. not (text_eq x.token_hash token_hash)) s.sessions }

abbrev pub has_repeat : List ℕ → Bool
has_repeat [] = false
has_repeat (id ∷ ids) = any (λ j. id == j) ids || has_repeat ids

-- Whether the keys of library_permissions allow these rows.
abbrev pub can_grant : ℕ → List ℕ → Accounts → Bool
can_grant user_id [] s = true
can_grant user_id (id ∷ ids) s =
    any (has_id user_id) s.users
    && (all (λ j. any (is_library j) s.libraries) (id ∷ ids) && not (has_repeat (id ∷ ids)))

-- SetUserLibraryPermissions, one transaction.
unfoldable pub set_user_library_permissions :
    Bool → ℕ → List ℕ → Accounts → Result (Unit {0}) × Accounts
set_user_library_permissions fails user_id ids s =
    if fails || not (can_grant user_id ids s) then (err db_failed, s) else (
      ok tt,
      record s {
        permissions =
            keep (λ p. not (p.user_id == user_id)) s.permissions
            ++ map (λ id. record { user_id = user_id; library_id = id }) ids;
      },
    )

unfoldable pub get_user_library_permissions : Bool → ℕ → Accounts → Result (List ℕ)
get_user_library_permissions fails user_id s =
    if fails
    then err db_failed
    else ok (map (λ p. p.library_id) (keep (λ p. p.user_id == user_id) s.permissions))

abbrev pub has_repeat_text : List Text → Bool
has_repeat_text [] = false
has_repeat_text (t ∷ ts) = any (text_eq t) ts || has_repeat_text ts

-- The types that the table's constraint allows.
abbrev pub is_library_type : Text → Bool
is_library_type kind =
    any (text_eq kind) (codes "movie" ∷ codes "series" ∷ codes "music" ∷ codes "audiobook" ∷ [])

-- CreateLibrary, one transaction; the folders of a library are distinct.
unfoldable pub create_library :
    Bool → Text → Text → List Text → Bool → Accounts → Result Library × Accounts
create_library fails name kind folders is_4k s =
    let l : Library = record {
      id = s.next_id;
      name = name;
      kind = kind;
      is_4k = is_4k;
      folders = folders;
    } in
    if fails || not (is_library_type kind) || has_repeat_text folders
    then (err db_failed, s)
    else (ok l, record s { libraries = s.libraries ++ (l ∷ []); next_id = s.next_id + 1 })

unfoldable pub list_libraries : Bool → Accounts → Result (List Library)
list_libraries fails s = if fails then err db_failed else ok s.libraries

unfoldable pub get_library : Bool → ℕ → Accounts → Result Library
get_library fails id s =
    if fails then err db_failed else or_not_found (find (is_library id) s.libraries)
