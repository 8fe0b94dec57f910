-- ===== src/Access/Keeps/Requests.antt =====
-- A predicate that the store's statements keep is kept by every request and by whole histories of
-- them.
use vorn_media_server.Prelude.{
  All, is_empty, Bool, true, false, Option, none, some, List, [], ◌∷◌, Text, find, Bool-cases,
  if◌then◌else◌, ◌≡◌, refl, inl, inr,
}
use vorn_media_server.Access.{User, Accounts, Result, ok, err}
use vorn_media_server.Access.Auth.{
  handle_jf_authenticate_by_name, handle_plex_sign_in, Crypto, Faults, Response, write_error,
  authenticate, authenticate_client, with_admin, authorized, hash_token, new_session_token,
  handle_login, handle_logout, handle_me,
}
use vorn_media_server.Access.Users.{handle_list_users}
use vorn_media_server.Access.Setup.{handle_setup_init, handle_setup_status}
use vorn_media_server.Access.Libraries.{handle_list_libraries, handle_get_library}
use vorn_media_server.Access.Router.{
  Request, OpenRoute, UserRoute, AdminRoute, Route, Event, handle_open, handle_user, handle_admin,
  run, happen, dispatch, Rest, handle_rest,
}
use vorn_media_server.Access.Behind.{admin_guard-admin, user_guard-auth}
use vorn_media_server.Access.Guarded.{Result-cases, authenticate-ok}
use vorn_media_server.Access.Keeps.{
  Kept, Mints, EventAllowed, AdminRestores, RouteRestores, handle_restore_backup-keeps,
  handle_restore_auto_backup-keeps, handle_create_user-keeps, handle_update_user-keeps,
  handle_delete_user-keeps, handle_set_user_permissions-keeps,
}
use vorn_media_server.Access.Keeps.Logins.{verify-keeps, verify_client-keeps, init_checked-keeps}

authorized-reads :
    (r : Result User) (next : User → Accounts → Response × Accounts) (s : Accounts)
    → ((u : User) → (next u s).1 ≡ s)
    → (authorized next r s).1 ≡ s
authorized-reads (ok u) next s h = h u
authorized-reads (err e) next s h = refl

module _ {Mint : Text → Type 0} {Back : Accounts → Type 0} {P : Accounts → Type 0}
    (kept : Kept Mint Back P) where
  either-keeps : (b : Bool) (x y : Response × Accounts) → P x.1 → P y.1 → P (if b then x else y).1
  either-keeps true x y hx hy = hx
  either-keeps false x y hx hy = hy

  with_admin-keeps :
      (c : Crypto) (fault : Faults) (cookie : Option Text)
      (next : User → Accounts → Response × Accounts) (s : Accounts)
      → ((u : User) (p : User → Bool) → find p s.users ≡ some u → P (next u s).1)
      → P s
      → P (with_admin c fault cookie next s).1
  with_admin-keeps c fault none next s keeps h = unfold authenticate in h
  with_admin-keeps c fault (some t) next s keeps h =
      elim (Result-cases (authenticate c fault (some t) s)) [
        | inr (e, a) ↦ rw a h
        | inl (u, a) ↦ rw a (
            let (x, e, f) = authenticate-ok c fault t s u a in
            either-keeps u.is_admin (next u s) (write_error 403, s) (keeps u _ f) h)
      ]

  authorized-keeps :
      (r : Result User) (next : User → Accounts → Response × Accounts) (s : Accounts)
      → ((u : User) → P (next u s).1)
      → P s
      → P (authorized next r s).1
  authorized-keeps (ok u) next s k h = k u
  authorized-keeps (err e) next s k h = h

  rest-keeps : (rest : Rest) (u : Option User) (s : Accounts) → P s → P (handle_rest rest u s).1
  rest-keeps rest u s h = kept.left (rest u s).1 s h

  -- Of the routes of a user only those that are not modelled may change anything.
  handle_user-keeps :
      (c : Crypto) (q : Request) (r : UserRoute) (s : Accounts) → P s → P (handle_user c q r s).1
  unfolding handle_user
  handle_user-keeps c q UserRoute.me s h =
      authorized-keeps (authenticate c q.faults q.cookie s) _ s (λ u. unfold handle_me in h) h
  handle_user-keeps c q UserRoute.list_libraries s h =
      authorized-keeps (authenticate c q.faults q.cookie s) _ s
        (λ u. unfold handle_list_libraries in h) h
  handle_user-keeps c q (UserRoute.get_library id) s h =
      authorized-keeps (authenticate c q.faults q.cookie s) _ s
        (λ u. unfold handle_get_library in h) h
  handle_user-keeps c q (UserRoute.other_user path rest) s h = rw (user_guard-auth path) (
      authorized-keeps (authenticate c q.faults q.cookie s) _ s (λ u. rest-keeps rest (some u) s h)
        h)

  handle_admin-keeps :
      (c : Crypto) (q : Request) (r : AdminRoute) (s : Accounts)
      → AdminRestores Back r
      → P s
      → P (handle_admin c q r s).1
  unfolding handle_admin
  handle_admin-keeps c q AdminRoute.list_users s b h =
      with_admin-keeps c q.faults q.cookie _ s (λ u p f. unfold handle_list_users in h) h
  handle_admin-keeps c q (AdminRoute.create_user req) s b h =
      with_admin-keeps c q.faults q.cookie _ s
        (λ u p f. handle_create_user-keeps kept q.faults c q.salt req s h) h
  handle_admin-keeps c q (AdminRoute.update_user id req) s b h =
      with_admin-keeps c q.faults q.cookie _ s
        (λ u p f. handle_update_user-keeps kept q.faults c q.salt id req s h) h
  handle_admin-keeps c q (AdminRoute.delete_user id) s b h =
      with_admin-keeps c q.faults q.cookie _ s
        (λ u p f. handle_delete_user-keeps kept q.faults id u p s f h) h
  handle_admin-keeps c q (AdminRoute.set_permissions id ids) s b h =
      with_admin-keeps c q.faults q.cookie _ s
        (λ u p f. handle_set_user_permissions-keeps kept q.faults id ids s h) h
  handle_admin-keeps c q (AdminRoute.restore_backup psql) s b h =
      with_admin-keeps c q.faults q.cookie _ s
        (λ u p f. handle_restore_backup-keeps kept q.faults psql s b h) h
  handle_admin-keeps c q (AdminRoute.restore_auto_backup filename opened psql) s b h =
      with_admin-keeps c q.faults q.cookie _ s
        (λ u p f. handle_restore_auto_backup-keeps kept q.faults filename opened psql s b h) h
  handle_admin-keeps c q (AdminRoute.other_admin path rest) s b h =
      rw (admin_guard-admin path)
        (with_admin-keeps c q.faults q.cookie _ s (λ u p f. rest-keeps rest (some u) s h) h)

  logout-keeps :
      (c : Crypto) (fault : Faults) (cookie : Option Text) (s : Accounts)
      → P s
      → P (handle_logout c fault cookie s).1
  unfolding handle_logout
  logout-keeps c fault none s h = h
  logout-keeps c fault (some t) s h = kept.session_deleted fault.writes_session (hash_token c t) s h

  handle_open-keeps :
      (c : Crypto) (q : Request) (r : OpenRoute) (s : Accounts)
      → Mints Mint (new_session_token c q.random)
      → P s
      → P (handle_open c q r s).1
  unfolding handle_open handle_setup_status handle_login handle_logout
  handle_open-keeps c q OpenRoute.setup_status s m h = h
  handle_open-keeps c q (OpenRoute.setup_init req) s m h =
      unfold handle_setup_init in init_checked-keeps kept q.faults c q.salt req _ s h
  handle_open-keeps c q (OpenRoute.login none) s m h = h
  handle_open-keeps c q (OpenRoute.login (some req)) s m h =
      verify-keeps kept q.faults c q.random req.password _ s m h
  handle_open-keeps c q (OpenRoute.jf_authenticate_by_name none) s m h =
      unfold handle_jf_authenticate_by_name in h
  handle_open-keeps c q (OpenRoute.jf_authenticate_by_name (some req)) s m h =
      unfold handle_jf_authenticate_by_name in
      verify_client-keeps kept q.faults 200 c q.random req.password _ s m h
  handle_open-keeps c q (OpenRoute.plex_sign_in req) s m h =
      unfold handle_plex_sign_in in
      elim (Bool-cases (is_empty req.username)) [
        | inl e ↦ rw e h
        | inr e ↦ rw e (verify_client-keeps kept q.faults 201 c q.random req.password _ s m h)
      ]
  handle_open-keeps c q OpenRoute.logout s m h = logout-keeps c q.faults q.cookie s h
  handle_open-keeps c q (OpenRoute.other_open rest) s m h = rest-keeps rest none s h

  dispatch-keeps :
      (c : Crypto) (q : Request) (r : Route) (s : Accounts)
      → Mints Mint (new_session_token c q.random)
      → RouteRestores Back r
      → P s
      → P (dispatch c q r s).1
  dispatch-keeps c q (Route.open_route r) s m b h = handle_open-keeps c q r s m h
  dispatch-keeps c q (Route.user_route r) s m b h = handle_user-keeps c q r s h
  dispatch-keeps c q (Route.admin_route r) s m b h = handle_admin-keeps c q r s b h
  dispatch-keeps c q (Route.client_route token rest) s m b h =
      authorized-keeps (authenticate_client c q.faults token s) _ s
        (λ u. rest-keeps rest (some u) s h) h

  happen-keeps :
      (c : Crypto) (e : Event) (s : Accounts) → EventAllowed c Mint Back e → P s → P (happen c e s)
  happen-keeps c (Event.arrives q) s m h = dispatch-keeps c q q.route s m.0 m.1 h
  happen-keeps c (Event.passes n) s m h = kept.time_passed n s h

  pub run-keeps :
      (c : Crypto) (es : List Event) (s : Accounts)
      → All (EventAllowed c Mint Back) es
      → P s
      → P (run c es s)
  run-keeps c [] s m h = h
  run-keeps c (e ∷ es) s m h = run-keeps c es (happen c e s) m.1 (happen-keeps c e s m.0 h)
