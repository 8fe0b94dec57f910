-- ===== src/Access/Keeps/Logins.antt =====
-- What log-ins and setup keep.
use vorn_media_server.Prelude.{
  is_empty, ◌||◌, ℕ, Bool, true, false, Option, none, some, [], ◌∷◌, Text, Bool-cases, inl, inr,
}
use vorn_media_server.Access.{Library, User, Accounts, StoreError, Result, ok, err}
use vorn_media_server.Access.Auth.{
  token_created, start_client, verify_client, Crypto, Faults, verify, start_session,
  session_created, new_session_token,
}
use vorn_media_server.Access.Users.{is_too_short}
use vorn_media_server.Access.Setup.{
  SetupInitRequest, init_first, init_checked, admin_created, admin_hashed, library_created,
  or_movie,
}
use vorn_media_server.Access.Keeps.{Kept, Mints}

module _ {Mint : Text → Type 0} {Back : Accounts → Type 0} {P : Accounts → Type 0}
    (kept : Kept Mint Back P) (fault : Faults) where
  session_created-keeps :
      (t : Text) (e : ℕ) (u : User) (r : Result (Unit {0}) × Accounts)
      → P r.1
      → P (session_created t e u r).1
  session_created-keeps t e u (ok _, s) h = h
  session_created-keeps t e u (err _, s) h = h

  start_session-keeps :
      (u : User) (t : Option (Text × Text)) (s : Accounts)
      → Mints Mint t
      → P s
      → P (start_session fault u t s).1
  start_session-keeps u none s m h = h
  start_session-keeps u (some (t, hash)) s m h =
      session_created-keeps t _ u _ (kept.session_created fault.writes_session hash u.id _ s m h)

  pub verify-keeps :
      (c : Crypto) (random : Option Text) (password : Text) (r : Result User) (s : Accounts)
      → Mints Mint (new_session_token c random)
      → P s
      → P (verify c fault random password r s).1
  verify-keeps c random password (err StoreError.not_found) s m h = h
  verify-keeps c random password (err StoreError.conflict) s m h = h
  verify-keeps c random password (err StoreError.db_failed) s m h = h
  verify-keeps c random password (err StoreError.invalid_credentials) s m h = h
  verify-keeps c random password (ok u) s m h =
      elim (Bool-cases (c.compare_hash_and_password u.password_hash password)) [
        | inl e ↦ rw e (start_session-keeps u (new_session_token c random) s m h)
        | inr e ↦ rw e h
      ]

  token_created-keeps :
      (status : ℕ) (t : Text) (u : User) (r : Result (Unit {0}) × Accounts)
      → P r.1
      → P (token_created status t u r).1
  token_created-keeps status t u (ok _, s) h = h
  token_created-keeps status t u (err _, s) h = h

  start_client-keeps :
      (status : ℕ) (u : User) (t : Option (Text × Text)) (s : Accounts)
      → Mints Mint t
      → P s
      → P (start_client status fault u t s).1
  start_client-keeps status u none s m h = h
  start_client-keeps status u (some (t, hash)) s m h =
      token_created-keeps status t u _ (kept.session_created fault.writes_session hash u.id _ s m h)

  pub verify_client-keeps :
      (status : ℕ) (c : Crypto) (random : Option Text) (password : Text) (r : Result User)
      (s : Accounts)
      → Mints Mint (new_session_token c random)
      → P s
      → P (verify_client status c fault random password r s).1
  verify_client-keeps status c random password (err _) s m h = h
  verify_client-keeps status c random password (ok u) s m h =
      elim (Bool-cases (c.compare_hash_and_password u.password_hash password)) [
        | inl e ↦ rw e (start_client-keeps status u (new_session_token c random) s m h)
        | inr e ↦ rw e h
      ]

  library_created-keeps :
      (name : Text) (r : Result Library × Accounts) → P r.1 → P (library_created name r).1
  library_created-keeps name (err _, s) h = h
  library_created-keeps name (ok l, s) h = h

  admin_created-keeps :
      (req : SetupInitRequest) (r : Result User × Accounts)
      → P r.1
      → P (admin_created fault req r).1
  admin_created-keeps req (err _, s) h = h
  admin_created-keeps req (ok u, s) h =
      elim (Bool-cases (is_empty req.library_name || is_empty req.library_path)) [
        | inl e ↦ rw e h
        | inr e ↦ rw e (
            library_created-keeps u.username _ (
              kept.library_created fault.writes_library req.library_name (or_movie req.library_type)
                (req.library_path ∷ []) false s h))
      ]

  admin_hashed-keeps :
      (req : SetupInitRequest) (o : Option Text) (s : Accounts)
      → P s
      → P (admin_hashed fault req o s).1
  admin_hashed-keeps req none s h = h
  admin_hashed-keeps req (some t) s h =
      admin_created-keeps req _ (kept.user_created fault.writes_user req.admin_username t true s h)

  init_first-keeps :
      (c : Crypto) (salt : ℕ) (req : Option SetupInitRequest) (s : Accounts)
      → P s
      → P (init_first c fault salt req s).1
  unfolding init_first
  init_first-keeps c salt none s h = h
  init_first-keeps c salt (some req) s h =
      elim (Bool-cases (is_too_short req.admin_username req.admin_password)) [
        | inl short ↦ rw short h
        | inr long ↦
            rw long (admin_hashed-keeps req (c.generate_from_password salt req.admin_password) s h)
      ]

  pub init_checked-keeps :
      (c : Crypto) (salt : ℕ) (req : Option SetupInitRequest) (r : Result Bool) (s : Accounts)
      → P s
      → P (init_checked c fault salt req r s).1
  init_checked-keeps c salt req (err _) s h = h
  init_checked-keeps c salt req (ok true) s h = h
  init_checked-keeps c salt req (ok false) s h = init_first-keeps c salt req s h
