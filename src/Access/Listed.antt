-- ===== src/Access/Listed.antt =====
-- The list of libraries and the look-up of one, backend/internal/httpapi/libraries.go, agree on who
-- sees what.
use vorn_media_server.Prelude.{
  ℕ, map, Bool, true, false, not, List, [], ◌∷◌, any, keep, Bool-cases, ◌==◌, ◌≡◌, refl, inl, inr,
  ap, arith,
}
use vorn_media_server.Access.{
  User, Library, Accounts, StoreError, Result, ok, err, get_library, list_libraries,
  get_user_library_permissions,
}
use vorn_media_server.Access.Auth.{Faults, all_libraries, write_json}
use vorn_media_server.Access.Libraries.{
  can_access_library, handle_list_libraries, handle_get_library, library_loaded, access_checked,
}

-- The look-up of a library is not forbidden.
abbrev pub is_shown : Faults → User → Accounts → Library → Bool
is_shown fault u s l = not ((handle_get_library fault l.id u s).0.status == 403)

keep_all {ℓ} : {A : Type ℓ} (p : A → Bool) (xs : List A) → ((x : A) → p x ≡ true) → keep p xs ≡ xs
keep_all p [] h = refl
keep_all p (x ∷ xs) h = rw (h x) (ap (λ t. x ∷ t) (keep_all p xs h))

keep-cong {ℓ} :
    {A : Type ℓ} (p q : A → Bool) (xs : List A) → ((x : A) → p x ≡ q x) → keep p xs ≡ keep q xs
keep-cong p q [] h = refl
keep-cong p q (x ∷ xs) h = ground (arith, h x, keep-cong p q xs h)

loaded-shown : (r : Result Library) → not ((library_loaded r).status == 403) ≡ true
loaded-shown (ok l) = refl
loaded-shown (err StoreError.not_found) = refl
loaded-shown (err StoreError.conflict) = refl
loaded-shown (err StoreError.db_failed) = refl
loaded-shown (err StoreError.invalid_credentials) = refl

checked-shown : (b : Bool) (r : Result Library) → not ((access_checked (ok b) r).status == 403) ≡ b
checked-shown true r = loaded-shown r
checked-shown false r = refl

admin-shown :
    (fault : Faults) (u : User) (s : Accounts) (l : Library)
    → u.is_admin ≡ true
    → is_shown fault u s l ≡ true
unfolding handle_get_library can_access_library
admin-shown fault u s l admin = simp admin (loaded-shown (get_library fault.lists l.id s))

granted-shown :
    (fault : Faults) (u : User) (s : Accounts) (l : Library) (ids : List ℕ)
    → u.is_admin ≡ false
    → get_user_library_permissions fault.reads_permissions u.id s ≡ ok ids
    → is_shown fault u s l ≡ any (λ id. id == l.id) ids
unfolding handle_get_library can_access_library
granted-shown fault u s l ids other read =
    simp (other, read) (checked-shown (any (λ id. id == l.id) ids) (get_library fault.lists l.id s))

-- Where the database refuses neither the list nor the user's permissions, the list of libraries
-- that a user is given has status 200 and is made of exactly those whose look-up does not answer
-- the user with 403, in the list's order.
pub handle_list_libraries-eq :
    (fault : Faults) (u : User) (s : Accounts)
    → fault.lists ≡ false
    → fault.reads_permissions ≡ false
    → handle_list_libraries fault u s
      ≡ (write_json 200 (all_libraries (keep (is_shown fault u s) s.libraries)), s)
unfolding handle_list_libraries list_libraries get_user_library_permissions
handle_list_libraries-eq fault u s listed read = elim (Bool-cases u.is_admin) [
  | inl admin ↦ simp (listed, admin, keep_all _ s.libraries (λ l. admin-shown fault u s l admin))
  | inr other ↦
      let ids : List ℕ = map (λ p. p.library_id) (keep (λ p. p.user_id == u.id) s.permissions) in
      let granted : get_user_library_permissions fault.reads_permissions u.id s ≡ ok ids =
        simp read in
      simp (
        listed,
        read,
        other,
        keep-cong (is_shown fault u s) (λ l. any (λ id. id == l.id) ids) s.libraries
            (λ l. granted-shown fault u s l ids other granted),
      )
]
