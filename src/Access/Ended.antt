-- ===== src/Access/Ended.antt =====
-- A session that has ended, by log-out or by its time, never lets anyone in again
-- (backend/internal/httpapi/middleware.go and auth_handlers.go).
use vorn_media_server.Prelude.{
  is_empty, ℕ, ◌+◌, Bool, true, false, not, none, some, List, [], ◌∷◌, Text, text_eq, any, keep,
  find, All, Bool-cases, ◌==◌, ◌≡◌, refl, inl, inr, arith,
}
use vorn_media_server.Access.{
  User, Session, Accounts, StoreError, err, has_id, has_name, is_live, can_grant, create_user,
  update_user, delete_user, create_session, delete_session, get_session,
  set_user_library_permissions, create_library,
}
use vorn_media_server.Access.Auth.{
  Response, authenticate_client, with_client_auth, Crypto, Faults, write_error, hash_token,
  authenticate, handle_logout,
}
use vorn_media_server.Access.Router.{
  Request, UserRoute, AdminRoute, Event, handle_user, handle_admin, run,
}
use vorn_media_server.Access.Behind.{admin_guard-admin, user_guard-auth}
use vorn_media_server.Access.Keeps.{Kept, EventAllowed}
use vorn_media_server.Access.Keeps.Requests.{run-keeps}

-- No unexpired session has this hash.
abbrev pub IsDead : Text → Accounts → Type 0
IsDead hash s = any (is_live hash s.now) s.sessions ≡ false

abbrev pub IsNot : Text → Text → Type 0
IsNot hash minted = text_eq minted hash ≡ false

-- A backup without a session of this hash.
abbrev pub IsWithout : Text → Accounts → Type 0
IsWithout hash backup = any (λ x. text_eq x.token_hash hash) backup.sessions ≡ false

-- No request of the history draws a token of this hash, and no backup that it restores has a session of
-- this hash.
abbrev pub NeverMints : Crypto → Text → List Event → Type 0
NeverMints c hash es = All (EventAllowed c (IsNot hash) (IsWithout hash)) es

any-keep {ℓ} :
    {A : Type ℓ} (p q : A → Bool) (xs : List A) → any p xs ≡ false → any p (keep q xs) ≡ false
any-keep p q [] h = refl
any-keep p q (x ∷ xs) h = ground (arith, any-keep p q xs)

any-later :
    (hash : Text) (now n : ℕ) (xs : List Session)
    → any (is_live hash now) xs ≡ false
    → any (is_live hash (now + n)) xs ≡ false
any-later hash now n [] h = refl
any-later hash now n (x ∷ xs) h = ground (arith, any-later hash now n xs)

module _ (hash : Text) where
  create_user-IsDead :
      (b : Bool) (n p : Text) (a : Bool) (s : Accounts)
      → IsDead hash s
      → IsDead hash (create_user b n p a s).1
  unfolding create_user
  create_user-IsDead true n p a s h = h
  create_user-IsDead false n p a s h = elim (Bool-cases (any (has_name n) s.users)) [
    | inl e ↦ rw e h
    | inr e ↦ rw e h
  ]

  update_user-IsDead :
      (b : Bool) (id : ℕ) (f : User → User) (s : Accounts)
      → IsDead hash s
      → IsDead hash (update_user b id f s).1
  unfolding update_user
  update_user-IsDead true id f s h = h
  update_user-IsDead false id f s h = elim (Bool-cases (any (has_id id) s.users)) [
    | inl e ↦ rw e h
    | inr e ↦ rw e h
  ]

  delete_user-IsDead :
      (b : Bool) (id : ℕ) (s : Accounts) → IsDead hash s → IsDead hash (delete_user b id s).1
  unfolding delete_user
  delete_user-IsDead true id s h = h
  delete_user-IsDead false id s h = elim (Bool-cases (any (has_id id) s.users)) [
    | inl e ↦ rw e (any-keep (is_live hash s.now) (λ x. not (x.user_id == id)) s.sessions h)
    | inr e ↦ rw e h
  ]

  permissions-IsDead :
      (b : Bool) (id : ℕ) (ids : List ℕ) (s : Accounts)
      → IsDead hash s
      → IsDead hash (set_user_library_permissions b id ids s).1
  unfolding set_user_library_permissions
  permissions-IsDead true id ids s h = h
  permissions-IsDead false id ids s h = elim (Bool-cases (can_grant id ids s)) [
    | inl e ↦ rw e h
    | inr e ↦ rw e h
  ]

  create_library-IsDead :
      (b : Bool) (n k : Text) (fs : List Text) (f : Bool) (s : Accounts)
      → IsDead hash s
      → IsDead hash (create_library b n k fs f s).1
  unfolding create_library
  create_library-IsDead b n k fs f s h = ground arith

  create_session-IsDead :
      (b : Bool) (t : Text) (id e : ℕ) (s : Accounts)
      → IsNot hash t
      → IsDead hash s
      → IsDead hash (create_session b t id e s).1
  unfolding create_session
  create_session-IsDead b t id e s m h = ground arith

  delete_session-IsDead :
      (b : Bool) (t : Text) (s : Accounts) → IsDead hash s → IsDead hash (delete_session b t s)
  unfolding delete_session
  delete_session-IsDead true t s h = h
  delete_session-IsDead false t s h =
      any-keep (is_live hash s.now) (λ x. not (text_eq x.token_hash t)) s.sessions h

  without_live :
      (now : ℕ) (xs : List Session)
      → any (λ x. text_eq x.token_hash hash) xs ≡ false
      → any (is_live hash now) xs ≡ false
  without_live now [] h = refl
  without_live now (x ∷ xs) h = ground (arith, without_live now xs)

  IsDead-kept : Kept (IsNot hash) (IsWithout hash) (IsDead hash)
  IsDead-kept = record {
    user_created = create_user-IsDead;
    user_updated = update_user-IsDead;
    user_deleted = λ b id u p s f o h. delete_user-IsDead b id s h;
    permissions_set = permissions-IsDead;
    library_created = create_library-IsDead;
    session_created = create_session-IsDead;
    session_deleted = delete_session-IsDead;
    restored = λ b s w h. without_live s.now b.sessions w;
    left = λ l s h. h;
    time_passed = λ n s h. any-later hash s.now n s.sessions h;
  }

any-keep_other :
    (hash : Text) (now : ℕ) (xs : List Session)
    → any (is_live hash now) (keep (λ x. not (text_eq x.token_hash hash)) xs) ≡ false
any-keep_other hash now [] = refl
any-keep_other hash now (x ∷ xs) = ground (arith, any-keep_other hash now xs)

logout-IsDead :
    (c : Crypto) (fault : Faults) (token : Text) (s : Accounts)
    → fault.writes_session ≡ false
    → IsDead (hash_token c token) (handle_logout c fault (some token) s).1
unfolding handle_logout delete_session
logout-IsDead c fault token s e = rw e (any-keep_other (hash_token c token) s.now s.sessions)

find-none {ℓ} : {A : Type ℓ} (p : A → Bool) (xs : List A) → any p xs ≡ false → find p xs ≡ none
find-none p [] h = refl
find-none p (x ∷ xs) h = ground (arith, find-none p xs)

dead-err :
    (c : Crypto) (fault : Faults) (token : Text) (s : Accounts)
    → IsDead (hash_token c token) s
    → (e : StoreError) × (authenticate c fault (some token) s ≡ err e)
unfolding authenticate get_session
dead-err c fault token s h =
    let none_found = find-none (is_live (hash_token c token) s.now) s.sessions h in
    elim (Bool-cases fault.reads_session) [
      | inl e ↦ (StoreError.db_failed, rw e refl)
      | inr e ↦ (StoreError.invalid_credentials, rw (e, none_found) refl)
    ]

module _ (c : Crypto) (q : Request) (s : Accounts) {e : StoreError}
    (h : authenticate c q.faults q.cookie s ≡ err e) where
  handle_user-out : (r : UserRoute) → handle_user c q r s ≡ (write_error 401, s)
  unfolding handle_user
  handle_user-out UserRoute.me = rw h refl
  handle_user-out UserRoute.list_libraries = rw h refl
  handle_user-out (UserRoute.get_library id) = rw h refl
  handle_user-out (UserRoute.other_user path rest) = rw (user_guard-auth path, h) refl

  handle_admin-out : (r : AdminRoute) → handle_admin c q r s ≡ (write_error 401, s)
  unfolding handle_admin
  handle_admin-out AdminRoute.list_users = rw h refl
  handle_admin-out (AdminRoute.create_user req) = rw h refl
  handle_admin-out (AdminRoute.update_user id req) = rw h refl
  handle_admin-out (AdminRoute.delete_user id) = rw h refl
  handle_admin-out (AdminRoute.set_permissions id ids) = rw h refl
  handle_admin-out (AdminRoute.restore_backup psql) = rw h refl
  handle_admin-out (AdminRoute.restore_auto_backup filename opened psql) = rw h refl
  handle_admin-out (AdminRoute.other_admin path rest) = rw (admin_guard-admin path, h) refl

client_dead-err :
    (c : Crypto) (fault : Faults) (token : Text) (s : Accounts)
    → IsDead (hash_token c token) s
    → (e : StoreError) × (authenticate_client c fault token s ≡ err e)
unfolding authenticate_client get_session
client_dead-err c fault token s h =
    let none_found = find-none (is_live (hash_token c token) s.now) s.sessions h in
    elim (Bool-cases (is_empty token)) [
      | inl e ↦ (StoreError.invalid_credentials, rw e refl)
      | inr e ↦ elim (Bool-cases fault.reads_session) [
        | inl f ↦ (StoreError.db_failed, rw (e, f) refl)
        | inr f ↦ (StoreError.invalid_credentials, rw (e, f, none_found) refl)
      ]
    ]

-- After a log-out whose statement the database does not refuse, and after any history of requests to
-- any routes, each handled to its end before the next, in which none draws a token of the same hash
-- and no restored backup has a session of that hash, a request with the old token gets 401 on each of
-- the 24 routes for users and the 87 for admins, and on whatever lies behind the guard for clients of
-- Jellyfin and Plex, and leaves the tables as they are.
pub run-stays_out :
    (c : Crypto) (fault : Faults) (token : Text) (es : List Event) (q : Request) (r : UserRoute)
    (a : AdminRoute) (next : User → Accounts → Response × Accounts) (s : Accounts)
    → fault.writes_session ≡ false
    → NeverMints c (hash_token c token) es
    → q.cookie ≡ some token
    → let s' = run c es (handle_logout c fault (some token) s).1 in
      (handle_user c q r s' ≡ (write_error 401, s'))
      × (handle_admin c q a s' ≡ (write_error 401, s'))
      × (with_client_auth c q.faults token next s' ≡ (write_error 401, s'))
run-stays_out c fault token es q r a next s allowed never own =
    let hash = hash_token c token in
    let s' = run c es (handle_logout c fault (some token) s).1 in
    let dead = run-keeps (IsDead-kept hash) c es _ never (logout-IsDead c fault token s allowed) in
    let (e, h) = dead-err c q.faults token s' dead in
    let (e', k) = client_dead-err c q.faults token s' dead in
    let h' : authenticate c q.faults q.cookie s' ≡ err e = simp own h in
    (handle_user-out c q s' h' r, handle_admin-out c q s' h' a, rw k refl)
