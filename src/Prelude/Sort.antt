-- ===== src/Prelude/Sort.antt =====
-- Go's sort.SliceStable with `less(i, j) = key(i) > key(j)`: a stable sort by falling key.
use mathlib.Core.List.{Perm}
use mathlib.Core.List.Perm
use vorn_media_server.Prelude.Tests.{leb, ◌==◌, if◌then◌else◌, Bool-cases, leb→le, leb-false}
use vorn_media_server.Prelude.Lists.{keep, All, head?}
use Prim.Native.Nat.{ℕ, ◌≤◌, ◌<◌}
use mathlib.Core.Path.{◌≡◌, refl}
use mathlib.Core.Option.{none}
use mathlib.Core.Logic.{◌≢◌, inl, inr}
use mathlib.Core.List.{List, [], ◌∷◌, map}
use native.Mathlib.Omega.{arith}

module _ {ℓ} {A : Type ℓ} (key : A → ℕ) where
  unfoldable pub insert_desc : A → List A → List A
  insert_desc x [] = x ∷ []
  insert_desc x (y ∷ ys) =
      let rest = insert_desc x ys in if leb (key y) (key x) then x ∷ y ∷ ys else y ∷ rest

  unfoldable pub sort_desc : List A → List A
  unfolding insert_desc
  sort_desc [] = []
  sort_desc (x ∷ xs) = insert_desc x (sort_desc xs)

  -- Every element is followed by smaller or equal keys only.
  abbrev pub IsSortedDesc : List A → Type 0
  IsSortedDesc [] = Unit
  IsSortedDesc (x ∷ xs) = All (λ y. key y ≤ key x) xs × IsSortedDesc xs

module _ {ℓ} {A : Type ℓ} (key : A → ℕ) where
  insert_desc-perm : (x : A) (xs : List A) → Perm (insert_desc key x xs) (x ∷ xs)
  unfolding insert_desc
  insert_desc-perm x [] = Perm.refl (x ∷ [])
  insert_desc-perm x (y ∷ ys) = elim (Bool-cases (leb (key y) (key x))) [
    | inl e ↦ rw e (Perm.refl (x ∷ y ∷ ys))
    | inr e ↦ rw e (Perm.trans (Perm.cons y (insert_desc-perm x ys)) (Perm.swap x y ys))
  ]

  pub sort_desc-perm : (xs : List A) → Perm (sort_desc key xs) xs
  unfolding sort_desc
  sort_desc-perm [] = Perm.refl []
  sort_desc-perm (x ∷ xs) =
      Perm.trans (insert_desc-perm x (sort_desc key xs)) (Perm.cons x (sort_desc-perm xs))

  All-le_trans : (a b : ℕ) (xs : List A) → a ≤ b → All (λ y. key y ≤ a) xs → All (λ y. key y ≤ b) xs
  All-le_trans a b [] h k = tt
  All-le_trans a b (x ∷ xs) h k = (omega arith, All-le_trans a b xs h k.1)

  All-insert_desc :
      (b : ℕ) (x : A) (xs : List A)
      → key x ≤ b
      → All (λ y. key y ≤ b) xs
      → All (λ y. key y ≤ b) (insert_desc key x xs)
  unfolding insert_desc
  All-insert_desc b x [] h k = (h, tt)
  All-insert_desc b x (y ∷ ys) h k = elim (Bool-cases (leb (key y) (key x))) [
    | inl e ↦ rw e (h, k)
    | inr e ↦ rw e (k.0, All-insert_desc b x ys h k.1)
  ]

  insert_desc-IsSortedDesc :
      (x : A) (xs : List A) → IsSortedDesc key xs → IsSortedDesc key (insert_desc key x xs)
  unfolding insert_desc
  insert_desc-IsSortedDesc x [] h = (tt, tt)
  insert_desc-IsSortedDesc x (y ∷ ys) h = elim (Bool-cases (leb (key y) (key x))) [
    | inl e ↦
        let le : key y ≤ key x = leb→le _ _ e in
        rw e ((le, All-le_trans (key y) (key x) ys le h.0), h)
    | inr e ↦
        let lt : key x < key y = leb-false _ _ e in
        rw e (All-insert_desc (key y) x ys (omega arith) h.0, insert_desc-IsSortedDesc x ys h.1)
  ]

  pub sort_desc-IsSortedDesc : (xs : List A) → IsSortedDesc key (sort_desc key xs)
  unfolding sort_desc
  sort_desc-IsSortedDesc [] = tt
  sort_desc-IsSortedDesc (x ∷ xs) =
      insert_desc-IsSortedDesc x (sort_desc key xs) (sort_desc-IsSortedDesc xs)

  keep-insert_desc :
      (k : ℕ) (x : A) (xs : List A)
      → keep (λ y. key y == k) (insert_desc key x xs) ≡ keep (λ y. key y == k) (x ∷ xs)
  unfolding insert_desc
  keep-insert_desc k x [] = refl
  keep-insert_desc k x (y ∷ ys) = ground (arith, keep-insert_desc k x ys)

  -- Elements of one key keep their order.
  pub sort_desc_stable :
      (k : ℕ) (xs : List A) → keep (λ y. key y == k) (sort_desc key xs) ≡ keep (λ y. key y == k) xs
  unfolding sort_desc
  sort_desc_stable k [] = refl
  sort_desc_stable k (x ∷ xs) =
      ground (arith, keep-insert_desc k x (sort_desc key xs), sort_desc_stable k xs)

module _ {ℓ κ} {A : Type ℓ} {B : Type κ} (f : A → B) (key : A → ℕ) (key' : B → ℕ) where
  map-insert_desc :
      ((x : A) → key' (f x) ≡ key x)
      → (x : A) (xs : List A) → map f (insert_desc key x xs) ≡ insert_desc key' (f x) (map f xs)
  unfolding insert_desc
  map-insert_desc h x [] = refl
  map-insert_desc h x (y ∷ ys) = ground (arith, h x, h y, map-insert_desc h x ys)

  -- Sorting commutes with a map that keeps the key.
  pub map-sort_desc :
      ((x : A) → key' (f x) ≡ key x)
      → (xs : List A) → map f (sort_desc key xs) ≡ sort_desc key' (map f xs)
  unfolding sort_desc
  map-sort_desc h [] = refl
  map-sort_desc h (x ∷ xs) = rw (map-insert_desc h x (sort_desc key xs), map-sort_desc h xs)

module _ {ℓ} {A : Type ℓ} (key : A → ℕ) where
  head?-insert_desc : (x : A) (xs : List A) → head? (insert_desc key x xs) ≢ none
  unfolding insert_desc
  head?-insert_desc x [] = λ e. cc
  head?-insert_desc x (y ∷ ys) = elim (Bool-cases (leb (key y) (key x))) [
    | inl e ↦ rw e (λ h. cc)
    | inr e ↦ rw e (λ h. cc)
  ]

  -- Sorting makes nothing vanish.
  pub head?-sort_desc : (x : A) (xs : List A) → head? (sort_desc key (x ∷ xs)) ≢ none
  unfolding sort_desc
  head?-sort_desc x xs = head?-insert_desc x (sort_desc key xs)
