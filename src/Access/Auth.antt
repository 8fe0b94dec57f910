-- ===== src/Access/Auth.antt =====
-- Sessions: backend/internal/auth/auth.go, and the log-in, log-out and middleware of
-- backend/internal/httpapi (auth_handlers.go, middleware.go). The texts of error messages are left
-- out.
use vorn_media_server.Prelude.{
  ℕ, ◌+◌, Bool, Option, none, some, List, Text, is_empty, if◌then◌else◌,
}
use vorn_media_server.Access.{
  User, Session, Library, Accounts, StoreError, Result, ok, err, invalid_credentials,
  get_user_by_username, get_user_by_id, create_session, get_session, delete_session,
}

-- What bcrypt, SHA-256 and hex encoding compute; the number is bcrypt's salt.
pub record Crypto : Type 0 where
  pub generate_from_password : ℕ → Text → Option Text
  pub compare_hash_and_password : Text → Text → Bool
  pub sum256 : Text → Text
  pub encode_to_string : Text → Text

-- SessionTTL in seconds, thirty days.
abbrev pub session_ttl : ℕ
session_ttl = 2592000

unfoldable pub hash_token : Crypto → Text → Text
hash_token c token = c.encode_to_string (c.sum256 token)

-- The token and its hash, from the bytes of rand.Read, if it gives any.
unfoldable pub new_session_token : Crypto → Option Text → Option (Text × Text)
new_session_token c none = none
new_session_token c (some buf) =
    some (c.encode_to_string buf, hash_token c (c.encode_to_string buf))

pub record UserResponse : Type 0 where
  pub id : ℕ
  pub username : Text
  pub is_admin : Bool
  pub created_at : ℕ

abbrev pub to_user_response : User → UserResponse
to_user_response u = record {
  id = u.id;
  username = u.username;
  is_admin = u.is_admin;
  created_at = u.created_at;
}

pub data Body : Type 0 where
  no_body failure : Body
  setup_status : Bool → Body
  setup_done : Text → Option ℕ → Body
  one_user : UserResponse → Body
  all_users : List UserResponse → Body
  one_library : Library → Body
  all_libraries : List Library → Body
  access_token : Text → ℕ → Body
  other_body : Text → Body

pub data Cookie : Type 0 where
  unchanged cleared : Cookie
  sets : Text → ℕ → Cookie

pub record Response : Type 0 where
  pub status : ℕ
  pub body : Body
  pub cookie : Cookie

abbrev pub write_error : ℕ → Response
write_error status = record { status = status; body = failure; cookie = unchanged }

abbrev pub write_json : ℕ → Body → Response
write_json status body = record { status = status; body = body; cookie = unchanged }

abbrev pub write_store_err : StoreError → Response
write_store_err StoreError.not_found = write_error 404
write_store_err StoreError.conflict = write_error 500
write_store_err StoreError.db_failed = write_error 500
write_store_err StoreError.invalid_credentials = write_error 500

-- Which of a request's statements the database refuses.
pub record Faults : Type 0 where
  pub reads_session : Bool
  pub reads_requester : Bool
  pub counts_users : Bool
  pub reads_user : Bool
  pub writes_session : Bool
  pub writes_user : Bool
  pub writes_admin : Bool
  pub writes_permissions : Bool
  pub writes_library : Bool
  pub lists : Bool
  pub reads_permissions : Bool

pub record LoginRequest : Type 0 where
  pub username : Text
  pub password : Text

abbrev pub session_created : Text → ℕ → User → Result (Unit {0}) × Accounts → Response × Accounts
session_created token expires_at u (ok _, s) = (
  record { status = 200; body = one_user (to_user_response u); cookie = sets token expires_at },
  s,
)
session_created token expires_at u (err _, s) = (write_error 500, s)

abbrev pub start_session : Faults → User → Option (Text × Text) → Accounts → Response × Accounts
start_session fault u none s = (write_error 500, s)
start_session fault u (some (token, token_hash)) s =
    let expires_at = s.now + session_ttl in
    session_created token expires_at u
      (create_session fault.writes_session token_hash u.id expires_at s)

abbrev pub verify :
    Crypto → Faults → Option Text → Text → Result User → Accounts → Response × Accounts
verify c fault random password (err StoreError.not_found) s = (write_error 401, s)
verify c fault random password (err StoreError.conflict) s = (write_error 500, s)
verify c fault random password (err StoreError.db_failed) s = (write_error 500, s)
verify c fault random password (err StoreError.invalid_credentials) s = (write_error 500, s)
verify c fault random password (ok u) s =
    if c.compare_hash_and_password u.password_hash password
    then start_session fault u (new_session_token c random) s
    else (write_error 401, s)

-- The last argument but one is the body, if it decodes.
unfoldable pub handle_login :
    Crypto → Faults → Option Text → Option LoginRequest → Accounts → Response × Accounts
unfolding create_session get_user_by_username new_session_token hash_token
handle_login c fault random none s = (write_error 400, s)
handle_login c fault random (some req) s =
    verify c fault random req.password (get_user_by_username fault.reads_user req.username s) s

abbrev pub logged_out : Response
logged_out = record { status = 204; body = no_body; cookie = cleared }

-- An error of the statement is dropped.
unfoldable pub handle_logout : Crypto → Faults → Option Text → Accounts → Response × Accounts
unfolding delete_session hash_token
handle_logout c fault none s = (logged_out, s)
handle_logout c fault (some token) s =
    (logged_out, delete_session fault.writes_session (hash_token c token) s)

unfoldable pub handle_me : User → Accounts → Response × Accounts
handle_me u s = (write_json 200 (one_user (to_user_response u)), s)

abbrev pub requester : Faults → Result Session → Accounts → Result User
requester fault (err StoreError.not_found) s = err invalid_credentials
requester fault (err StoreError.conflict) s = err StoreError.conflict
requester fault (err StoreError.db_failed) s = err StoreError.db_failed
requester fault (err StoreError.invalid_credentials) s = err invalid_credentials
requester fault (ok x) s = get_user_by_id fault.reads_requester x.user_id s

unfoldable pub authenticate : Crypto → Faults → Option Text → Accounts → Result User
unfolding get_session hash_token get_user_by_id
authenticate c fault none s = err invalid_credentials
authenticate c fault (some token) s =
    requester fault (get_session fault.reads_session (hash_token c token) s) s

abbrev pub authorized :
    (User → Accounts → Response × Accounts) → Result User → Accounts → Response × Accounts
authorized next (err e) s = (write_error 401, s)
authorized next (ok u) s = next u s

-- withAuth, and withAdmin upon it.
abbrev pub with_auth :
    Crypto
    → Faults
    → Option Text
    → (User → Accounts → Response × Accounts)
    → Accounts
    → Response × Accounts
with_auth c fault cookie next s = authorized next (authenticate c fault cookie s) s

abbrev pub only_admin :
    (User → Accounts → Response × Accounts) → User → Accounts → Response × Accounts
only_admin next u s = if u.is_admin then next u s else (write_error 403, s)

abbrev pub with_admin :
    Crypto
    → Faults
    → Option Text
    → (User → Accounts → Response × Accounts)
    → Accounts
    → Response × Accounts
with_admin c fault cookie next s = with_auth c fault cookie (only_admin next) s

-- The log-ins of the Jellyfin and Plex clients (jellyfin.go and plex.go): any error of the look-up
-- is a wrong name, and the token goes into the body, with this status.
abbrev pub token_created : ℕ → Text → User → Result (Unit {0}) × Accounts → Response × Accounts
token_created status token u (ok _, s) = (write_json status (access_token token u.id), s)
token_created status token u (err _, s) = (write_error 500, s)

abbrev pub start_client : ℕ → Faults → User → Option (Text × Text) → Accounts → Response × Accounts
start_client status fault u none s = (write_error 500, s)
start_client status fault u (some (token, token_hash)) s =
    token_created status token u
      (create_session fault.writes_session token_hash u.id (s.now + session_ttl) s)

abbrev pub verify_client :
    ℕ → Crypto → Faults → Option Text → Text → Result User → Accounts → Response × Accounts
verify_client status c fault random password (err _) s = (write_error 401, s)
verify_client status c fault random password (ok u) s =
    if c.compare_hash_and_password u.password_hash password
    then start_client status fault u (new_session_token c random) s
    else (write_error 401, s)

unfoldable pub handle_jf_authenticate_by_name :
    Crypto → Faults → Option Text → Option LoginRequest → Accounts → Response × Accounts
unfolding create_session get_user_by_username new_session_token hash_token
handle_jf_authenticate_by_name c fault random none s = (write_error 400, s)
handle_jf_authenticate_by_name c fault random (some req) s =
    verify_client 200 c fault random req.password
      (get_user_by_username fault.reads_user req.username s) s

-- The credentials, from wherever the client puts them, are an argument.
unfoldable pub handle_plex_sign_in :
    Crypto → Faults → Option Text → LoginRequest → Accounts → Response × Accounts
unfolding create_session get_user_by_username new_session_token hash_token
handle_plex_sign_in c fault random req s =
    if is_empty req.username
    then (write_error 400, s)
    else verify_client 201 c fault random req.password
        (get_user_by_username fault.reads_user req.username s) s

-- authenticateJellyfin and authenticatePlex: the token comes from a header or the query, empty where
-- there is none.
unfoldable pub authenticate_client : Crypto → Faults → Text → Accounts → Result User
unfolding get_session hash_token get_user_by_id
authenticate_client c fault token s =
    if is_empty token
    then err invalid_credentials
    else requester fault (get_session fault.reads_session (hash_token c token) s) s

-- withJellyfinAuth and withPlexAuth.
abbrev pub with_client_auth :
    Crypto
    → Faults
    → Text
    → (User → Accounts → Response × Accounts)
    → Accounts
    → Response × Accounts
with_client_auth c fault token next s = authorized next (authenticate_client c fault token s) s
