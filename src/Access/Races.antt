-- ===== src/Access/Races.antt =====
-- Two requests at once: what the guards of backend/internal/httpapi/users.go and setup.go read may
-- be stale when the handlers write.
use vorn_media_server.Prelude.{
  ℕ, ◌+◌, Bool, true, false, not, Option, none, some, [], ◌∷◌, ◌++◌, map, Text, text_eq, is_empty,
  any, keep, ◌||◌, ◌==◌, ◌≡◌, refl, arith,
}
use vorn_media_server.Access.{
  User, Accounts, Result, ok, has_id, has_name, create_user, delete_user, count_users,
}
use vorn_media_server.Access.Auth.{
  Crypto, Faults, Response, write_json, no_body, setup_done, authenticate, authorized, only_admin,
}
use vorn_media_server.Access.Users.{handle_delete_user, is_too_short}
use vorn_media_server.Access.Setup.{
  SetupInitRequest, is_setup_complete, init_first, init_checked, handle_setup_init,
}

-- What is left of a request for a user's deletion once its session has been read.
abbrev pub deletes : Faults → ℕ → Result User → Accounts → Response × Accounts
deletes fault id requester s = authorized (only_admin (handle_delete_user fault id)) requester s

-- The tables without the user.
abbrev without : ℕ → Accounts → Accounts
without id s = record s {
  users = keep (λ u. not (has_id id u)) s.users;
  sessions = keep (λ x. not (x.user_id == id)) s.sessions;
  permissions = keep (λ p. not (p.user_id == id)) s.permissions;
}

deletes-without :
    (f : Faults) (id : ℕ) (u : User) (s : Accounts)
    → u.is_admin ≡ true
    → (u.id == id) ≡ false
    → f.writes_user ≡ false
    → any (has_id id) s.users ≡ true
    → deletes f id (ok u) s ≡ (write_json 204 no_body, without id s)
unfolding handle_delete_user delete_user
deletes-without f id u s admin other allowed there = ground arith

-- Where two admins are the only users and each has been authenticated before the other's deletion,
-- each deletes the other: both requests answer 204, no user is left, and a request for setup, if
-- it can count the users, goes on to create an admin.
pub deletes-each_other :
    (c : Crypto) (f g k : Faults) (x y : Option Text) (salt : ℕ) (req : Option SetupInitRequest)
    (a b : User) (s : Accounts)
    → s.users ≡ a ∷ b ∷ []
    → (a.id == b.id) ≡ false
    → a.is_admin ≡ true
    → b.is_admin ≡ true
    → authenticate c f x s ≡ ok a
    → authenticate c g y s ≡ ok b
    → f.writes_user ≡ false
    → g.writes_user ≡ false
    → k.counts_users ≡ false
    → let first = deletes f b.id (authenticate c f x s) s in
      let second = deletes g a.id (authenticate c g y s) first.1 in
      (first.0 ≡ write_json 204 no_body)
      × (second.0 ≡ write_json 204 no_body)
      × (second.1.users ≡ [])
      × (handle_setup_init c k salt req second.1 ≡ init_first c k salt req second.1)
unfolding handle_delete_user delete_user handle_setup_init is_setup_complete count_users
deletes-each_other c f g k x y salt req a b s us ne ha hb xa yb fw gw kc =
    let b_there : any (has_id b.id) s.users ≡ true = rw us (ground arith) in
    let one = deletes-without f b.id a s ha ne fw b_there in
    let left : (without b.id s).users ≡ a ∷ [] = rw us (ground arith) in
    let a_there : any (has_id a.id) (without b.id s).users ≡ true = rw left (ground arith) in
    let two = deletes-without g a.id b (without b.id s) hb (ground arith) gw a_there in
    let gone : (without a.id (without b.id s)).users ≡ [] = rw left (ground arith) in
    rw (xa, yb, one, two) (refl, refl, gone, rw (kc, gone) refl)

setup_open :
    (f : Faults) (s : Accounts)
    → s.users ≡ []
    → f.counts_users ≡ false
    → is_setup_complete f s ≡ ok false
unfolding is_setup_complete count_users
setup_open f s us fc = rw (us, fc) refl

-- A wizard's request without a library.
abbrev pub IsPlain : SetupInitRequest → Type 0
IsPlain r =
    (is_too_short r.admin_username r.admin_password ≡ false)
    × (is_empty r.library_name || is_empty r.library_path ≡ true)

-- The tables with one admin more.
abbrev with_admin_user : Text → Text → Accounts → Accounts
with_admin_user name hash s = record s {
  users =
      s.users
      ++ (record {
        id = s.next_id;
        username = name;
        password_hash = hash;
        is_admin = true;
        created_at = s.now;
      }
          ∷ []);
  next_id = s.next_id + 1;
}

init_first-creates :
    (c : Crypto) (f : Faults) (salt : ℕ) (r : SetupInitRequest) (hash : Text) (s : Accounts)
    → IsPlain r
    → c.generate_from_password salt r.admin_password ≡ some hash
    → f.writes_user ≡ false
    → any (has_name r.admin_username) s.users ≡ false
    → init_first c f salt (some r) s
      ≡ (write_json 201 (setup_done r.admin_username none), with_admin_user r.admin_username hash s)
unfolding init_first create_user
init_first-creates c f salt r hash s plain hashed allowed free =
    rw (plain.0, hashed, allowed, free, plain.1) refl

abbrev pub name_and_rank : User → Text × Bool
name_and_rank u = (u.username, u.is_admin)

-- Two requests for setup that both count the users before either has created one, with different
-- usernames, no library and nothing that fails, both answer 201, and two admins exist.
pub init_checked-twice :
    (c : Crypto) (f g : Faults) (m n : ℕ) (r t : SetupInitRequest) (p q : Text) (s : Accounts)
    → s.users ≡ []
    → IsPlain r
    → IsPlain t
    → text_eq r.admin_username t.admin_username ≡ false
    → c.generate_from_password m r.admin_password ≡ some p
    → c.generate_from_password n t.admin_password ≡ some q
    → f.counts_users ≡ false
    → g.counts_users ≡ false
    → f.writes_user ≡ false
    → g.writes_user ≡ false
    → let first = init_checked c f m (some r) (is_setup_complete f s) s in
      let second = init_checked c g n (some t) (is_setup_complete g s) first.1 in
      (first.0.status ≡ 201)
      × (second.0.status ≡ 201)
      × (map name_and_rank second.1.users
          ≡ (r.admin_username, true) ∷ (t.admin_username, true) ∷ [])
init_checked-twice c f g m n r t p q s us plain plain' ne hp hq fc gc fw gw =
    let free : any (has_name r.admin_username) s.users ≡ false = rw us refl in
    let one = init_first-creates c f m r p s plain hp fw free in
    let s' = with_admin_user r.admin_username p s in
    let free' : any (has_name t.admin_username) s'.users ≡ false = rw us (ground arith) in
    let two = init_first-creates c g n t q s' plain' hq gw free' in
    let names : map name_and_rank (with_admin_user t.admin_username q s').users
        ≡ (r.admin_username, true) ∷ (t.admin_username, true) ∷ [] =
      rw us refl in
    rw (setup_open f s us fc, setup_open g s us gc, one, two) (refl, refl, names)
