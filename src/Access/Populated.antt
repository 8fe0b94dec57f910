-- ===== src/Access/Populated.antt =====
-- Once a user exists the server never loses its last one, so that setup
-- (backend/internal/httpapi/setup.go) stays closed.
use vorn_media_server.Prelude.{
  ℕ, suc, ◌<◌, Bool, true, false, not, Option, none, some, List, [], ◌∷◌, map, Text, any, keep,
  find, ltb, length, length-append, All, Bool-cases, ◌==◌, if◌then◌else◌, ◌≡◌, refl, ◌⊎◌, inl, inr,
  ap, arith,
}
use vorn_media_server.Access.{
  User, Accounts, has_id, has_name, create_user, count_users, update_user, delete_user,
  create_session, delete_session, set_user_library_permissions, create_library,
}
use vorn_media_server.Access.Auth.{Crypto, Faults, write_error, new_session_token}
use vorn_media_server.Access.Setup.{SetupInitRequest, handle_setup_init, is_setup_complete}
use vorn_media_server.Access.Router.{Event, run}
use vorn_media_server.Access.Keeps.{Kept, Mints, EventAllowed, RouteRestores}
use vorn_media_server.Access.Keeps.Requests.{run-keeps}

abbrev pub HasUser : Accounts → Type 0
HasUser s = 0 < length s.users

length-map {ℓ κ} :
    {A : Type ℓ} {B : Type κ} (f : A → B) (xs : List A) → length (map f xs) ≡ length xs
length-map f [] = refl
length-map f (x ∷ xs) = ap (λ n. suc n) (length-map f xs)

keep-not_empty {ℓ} :
    {A : Type ℓ} (p q : A → Bool) (xs : List A) (a : A)
    → find p xs ≡ some a
    → q a ≡ true
    → 0 < length (keep q xs)
keep-not_empty p q [] a h k = cc
keep-not_empty p q (x ∷ xs) a h k = ground (arith, keep-not_empty p q xs a)

-- The store's statements.
create_user-HasUser :
    (fails : Bool) (n p : Text) (a : Bool) (s : Accounts)
    → HasUser s
    → HasUser (create_user fails n p a s).1
unfolding create_user
create_user-HasUser true n p a s h = h
create_user-HasUser false n p a s h = elim (Bool-cases (any (has_name n) s.users)) [
  | inl e ↦ rw e h
  | inr e ↦ rw e (omega (arith, length-append {0}))
]

update_user-HasUser :
    (fails : Bool) (id : ℕ) (f : User → User) (s : Accounts)
    → HasUser s
    → HasUser (update_user fails id f s).1
unfolding update_user
update_user-HasUser fails id f s h =
    ground (arith, length-map (λ u. if has_id id u then f u else u) s.users)

permissions-HasUser :
    (fails : Bool) (id : ℕ) (ids : List ℕ) (s : Accounts)
    → HasUser s
    → HasUser (set_user_library_permissions fails id ids s).1
unfolding set_user_library_permissions
permissions-HasUser fails id ids s h = ground arith

create_session-HasUser :
    (fails : Bool) (t : Text) (id e : ℕ) (s : Accounts)
    → HasUser s
    → HasUser (create_session fails t id e s).1
unfolding create_session
create_session-HasUser fails t id e s h = ground arith

delete_session-HasUser :
    (fails : Bool) (t : Text) (s : Accounts) → HasUser s → HasUser (delete_session fails t s)
unfolding delete_session
delete_session-HasUser fails t s h = ground arith

delete_user-HasUser :
    (fails : Bool) (id : ℕ) (u : User) (p : User → Bool) (s : Accounts)
    → find p s.users ≡ some u
    → (u.id == id) ≡ false
    → HasUser s
    → HasUser (delete_user fails id s).1
unfolding delete_user
delete_user-HasUser fails id u p s found other h =
    ground (arith, keep-not_empty p (λ v. not (has_id id v)) s.users u)

create_library-HasUser :
    (fails : Bool) (n k : Text) (fs : List Text) (b : Bool) (s : Accounts)
    → HasUser s
    → HasUser (create_library fails n k fs b s).1
unfolding create_library
create_library-HasUser fails n k fs b s h = ground arith

abbrev Anything : Text → Type 0
Anything t = Unit

HasUser-kept : Kept Anything HasUser HasUser
HasUser-kept = record {
  user_created = create_user-HasUser;
  user_updated = update_user-HasUser;
  user_deleted = delete_user-HasUser;
  permissions_set = permissions-HasUser;
  library_created = create_library-HasUser;
  session_created = λ b t id e s m h. create_session-HasUser b t id e s h;
  session_deleted = delete_session-HasUser;
  restored = λ b s k h. k;
  left = λ l s h. h;
  time_passed = λ n s h. h;
}

Mints-Anything : (o : Option (Text × Text)) → Mints Anything o
Mints-Anything none = tt
Mints-Anything (some (t, h)) = tt

-- Every backup that the history restores has a user.
abbrev EventBackup : Event → Type 0
EventBackup (Event.arrives q) = RouteRestores HasUser q.route
EventBackup (Event.passes n) = Unit

abbrev pub BackupsHaveUsers : List Event → Type 0
BackupsHaveUsers es = All EventBackup es

All-allowed :
    (c : Crypto) (es : List Event) → BackupsHaveUsers es → All (EventAllowed c Anything HasUser) es
All-allowed c [] b = tt
All-allowed c (Event.arrives q ∷ es) b =
    ((Mints-Anything (new_session_token c q.random), b.0), All-allowed c es b.1)
All-allowed c (Event.passes n ∷ es) b = (tt, All-allowed c es b.1)

setup_init-closed :
    (c : Crypto) (fault : Faults) (salt : ℕ) (req : Option SetupInitRequest) (s : Accounts)
    → HasUser s
    → (handle_setup_init c fault salt req s ≡ (write_error 409, s))
      ⊎ (handle_setup_init c fault salt req s ≡ (write_error 500, s))
unfolding handle_setup_init is_setup_complete count_users
setup_init-closed c fault salt req s h = elim (Bool-cases fault.counts_users) [
  | inl e ↦ inr (rw e refl)
  | inr e ↦ rw e (let p : ltb 0 (length s.users) ≡ true = ground arith in inl (rw p refl))
]

-- Once a user exists, a user exists after any history of requests to any routes, each handled to its
-- end before the next, in which every backup that is restored has a user, whoever sends them and
-- whichever statements fail, and a request for setup then answers 409, or 500 where it cannot count
-- the users, and leaves the tables as they were.
pub run-setup_closed :
    (c : Crypto) (es : List Event) (fault : Faults) (salt : ℕ) (req : Option SetupInitRequest)
    (s : Accounts)
    → 0 < length s.users
    → BackupsHaveUsers es
    → (0 < length (run c es s).users)
      × ((handle_setup_init c fault salt req (run c es s) ≡ (write_error 409, run c es s))
          ⊎ (handle_setup_init c fault salt req (run c es s) ≡ (write_error 500, run c es s)))
run-setup_closed c es fault salt req s h b =
    let k = run-keeps HasUser-kept c es s (All-allowed c es b) h in
    (k, setup_init-closed c fault salt req (run c es s) k)
