-- ===== src/Access/Guarded.antt =====
-- Who may use the routes of an admin (backend/internal/httpapi/middleware.go), said by the tables
-- alone.
use vorn_media_server.Prelude.{
  Bool, true, false, ◌&&◌, Option, none, some, List, [], ◌∷◌, Text, any, find, Bool-cases,
  if◌then◌else◌, ◌≡◌, refl, ◌⊎◌, inl, inr, arith,
}
use vorn_media_server.Access.{
  User, Session, Accounts, StoreError, Result, ok, err, has_id, is_live, or_not_found, get_session,
  get_user_by_id,
}
use vorn_media_server.Access.Auth.{
  Crypto, Faults, Response, write_error, hash_token, authenticate, requester, with_admin,
}
use vorn_media_server.Access.Behind.{admin_guard-admin}
use vorn_media_server.Access.Router.{
  Request, AdminRoute, list_users, create_user, update_user, delete_user, set_permissions,
  restore_backup, restore_auto_backup, other_admin, handle_admin,
}

-- The cookie is the token of an unexpired session of an admin.
abbrev pub holds_admin : Crypto → Option Text → Accounts → Bool
holds_admin c none s = false
holds_admin c (some token) s =
    any
      (λ x.
        is_live (hash_token c token) s.now x && any (λ u. has_id x.user_id u && u.is_admin) s.users)
      s.sessions

module _ {ℓ} {A : Type ℓ} (p q : A → Bool) where
  pub any-find :
      (xs : List A) (a : A) → find p xs ≡ some a → q a ≡ true → any (λ x. p x && q x) xs ≡ true
  any-find [] a h k = cc
  any-find (x ∷ xs) a h k = ground (arith, any-find xs a)

module _ {ℓ} {A : Type ℓ} (p : A → Bool) where
  pub find-passes : (xs : List A) (a : A) → find p xs ≡ some a → p a ≡ true
  find-passes [] a h = cc
  find-passes (x ∷ xs) a h = ground (arith, find-passes xs a)

pub Result-cases {ℓ} :
    {A : Type ℓ} (r : Result A) → ((a : A) × (r ≡ ok a)) ⊎ ((e : StoreError) × (r ≡ err e))
Result-cases (ok a) = inl (a, refl)
Result-cases (err e) = inr (e, refl)

or_not_found-ok {ℓ} :
    {A : Type ℓ} (fails : Bool) (o : Option A) (a : A)
    → (if fails then err StoreError.db_failed else or_not_found o) ≡ ok a
    → o ≡ some a
or_not_found-ok true o a h = cc
or_not_found-ok false none a h = cc
or_not_found-ok false (some b) a h = cc

requester-ok :
    (fault : Faults) (r : Result Session) (s : Accounts) (u : User)
    → requester fault r s ≡ ok u
    → (x : Session) × (r ≡ ok x) × (find (has_id x.user_id) s.users ≡ some u)
unfolding get_user_by_id
requester-ok fault (ok x) s u h = (x, refl, or_not_found-ok fault.reads_requester _ u h)
requester-ok fault (err StoreError.not_found) s u h = cc
requester-ok fault (err StoreError.conflict) s u h = cc
requester-ok fault (err StoreError.db_failed) s u h = cc
requester-ok fault (err StoreError.invalid_credentials) s u h = cc

-- What an authentication that succeeds has read.
pub authenticate-ok :
    (c : Crypto) (fault : Faults) (token : Text) (s : Accounts) (u : User)
    → authenticate c fault (some token) s ≡ ok u
    → (x : Session) × (find (is_live (hash_token c token) s.now) s.sessions ≡ some x)
      × (find (has_id x.user_id) s.users ≡ some u)
unfolding authenticate get_session
authenticate-ok c fault token s u h =
    let (x, e, f) = requester-ok fault _ s u h in (x, or_not_found-ok fault.reads_session _ x e, f)

authenticate-holds :
    (c : Crypto) (fault : Faults) (cookie : Option Text) (s : Accounts) (u : User)
    → authenticate c fault cookie s ≡ ok u
    → u.is_admin ≡ true
    → holds_admin c cookie s ≡ true
authenticate-holds c fault none s u h k = unfold authenticate in cc
authenticate-holds c fault (some token) s u h k =
    let (x, e, f) = authenticate-ok c fault token s u h in
    any-find (is_live (hash_token c token) s.now)
      (λ y. any (λ v. has_id y.user_id v && v.is_admin) s.users) s.sessions x e
      (any-find (has_id x.user_id) (λ v. v.is_admin) s.users u f k)

-- Nothing of `next` is run.
abbrev IsRefused : Response × Accounts → Accounts → Type 0
IsRefused r s = (r ≡ (write_error 401, s)) ⊎ (r ≡ (write_error 403, s))

refused :
    (c : Crypto) (fault : Faults) (cookie : Option Text) (s : Accounts)
    (next : User → Accounts → Response × Accounts)
    → holds_admin c cookie s ≡ false
    → IsRefused (with_admin c fault cookie next s) s
refused c fault cookie s next h = elim (Result-cases (authenticate c fault cookie s)) [
  | inr (e, a) ↦ inl (rw a refl)
  | inl (u, a) ↦ elim (Bool-cases u.is_admin) [
    | inl k ↦ absurd (let p = authenticate-holds c fault cookie s u a k in cc)
    | inr k ↦ inr (rw (a, k) refl)
  ]
]

-- Without a cookie that is the token of an unexpired session of an admin, each of the 87 routes for
-- admins answers 401 or 403 and leaves the tables as they were, whichever statements fail and
-- whatever the handlers that are not modelled would do.
pub handle_admin-refuses :
    (c : Crypto) (q : Request) (r : AdminRoute) (s : Accounts)
    → holds_admin c q.cookie s ≡ false
    → (handle_admin c q r s ≡ (write_error 401, s)) ⊎ (handle_admin c q r s ≡ (write_error 403, s))
unfolding handle_admin
handle_admin-refuses c q list_users s h = refused c q.faults q.cookie s _ h
handle_admin-refuses c q (create_user req) s h = refused c q.faults q.cookie s _ h
handle_admin-refuses c q (update_user id req) s h = refused c q.faults q.cookie s _ h
handle_admin-refuses c q (delete_user id) s h = refused c q.faults q.cookie s _ h
handle_admin-refuses c q (set_permissions id ids) s h = refused c q.faults q.cookie s _ h
handle_admin-refuses c q (restore_backup psql) s h = refused c q.faults q.cookie s _ h
handle_admin-refuses c q (restore_auto_backup filename opened psql) s h =
    refused c q.faults q.cookie s _ h
handle_admin-refuses c q (other_admin path rest) s h =
    rw (admin_guard-admin path) (refused c q.faults q.cookie s _ h)
