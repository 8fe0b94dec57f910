-- ===== src/Promote/Top.antt =====
-- The hand-written insertion sort is the stable sort by falling size.
use mathlib.Core.List.{reverse, reverse-append, append-nil, append_assoc}
use vorn_media_server.Prelude.{
  ℕ, ◌≤◌, true, List, [], ◌∷◌, ◌++◌, leb, ltb, if◌then◌else◌, keep, take, All, ◌≡◌, refl, sym, ◌∙◌,
  arith, Bool-cases, inl, inr, All-append,
}
use vorn_media_server.Prelude.Sort.{sort_desc, insert_desc}
use vorn_media_server.Filename.{is_video_file}
use vorn_media_server.Store.{DebridFile, NzbFile}
use vorn_media_server.Promote.{
  move_left, insertion_loop, insertion_sort, top_video_files, top_video_nzb_files, debrid_size,
  nzb_size,
}

module _ {ℓ} {A : Type ℓ} (size : A → ℕ) where
  -- Inserting behind what is at least as large.
  insert_late : A → List A → List A
  insert_late x [] = x ∷ []
  insert_late x (y ∷ ys) =
      let rest = insert_late x ys in if leb (size x) (size y) then y ∷ rest else x ∷ y ∷ ys

  insert_late-insert_desc :
      (x y : A) (l : List A)
      → insert_late x (insert_desc size y l) ≡ insert_desc size y (insert_late x l)
  unfolding insert_late insert_desc
  insert_late-insert_desc x y [] = ground arith
  insert_late-insert_desc x y (h ∷ t) = ground (arith, insert_late-insert_desc x y t)

  insert_late_small :
      (x y : A) (l : List A)
      → ltb (size y) (size x) ≡ true
      → insert_late x (l ++ (y ∷ [])) ≡ insert_late x l ++ (y ∷ [])
  unfolding insert_late
  insert_late_small x y [] h = ground arith
  insert_late_small x y (z ∷ l) h = ground (arith, insert_late_small x y l)

  insert_late_last :
      (x : A) (l : List A) → All (λ z. size x ≤ size z) l → insert_late x l ≡ l ++ (x ∷ [])
  unfolding insert_late
  insert_late_last x [] h = refl
  insert_late_last x (z ∷ l) h = ground (arith, h.0, insert_late_last x l h.1)

  -- A prefix kept nearest first, each element at most as large as those behind it.
  abbrev IsRising : List A → Type 0
  IsRising [] = Unit
  IsRising (y ∷ r) = All (λ z. size y ≤ size z) r × IsRising r

  All-weaken : (a b : ℕ) (r : List A) → a ≤ b → All (λ z. b ≤ size z) r → All (λ z. a ≤ size z) r
  All-weaken a b [] h k = tt
  All-weaken a b (z ∷ r) h k = (omega (arith, k.0), All-weaken a b r h k.1)

  All-move_left :
      (a : ℕ) (x : A) (r : List A)
      → a ≤ size x
      → All (λ z. a ≤ size z) r
      → All (λ z. a ≤ size z) (move_left size x r)
  unfolding move_left
  All-move_left a x [] h k = (h, tt)
  All-move_left a x (y ∷ r) h k = elim (Bool-cases (ltb (size y) (size x))) [
    | inl e ↦ rw e (k.0, All-move_left a x r h k.1)
    | inr e ↦ rw e (h, k)
  ]

  move_left-IsRising : (x : A) (r : List A) → IsRising r → IsRising (move_left size x r)
  unfolding move_left
  move_left-IsRising x [] h = (tt, tt)
  move_left-IsRising x (y ∷ r) h = elim (Bool-cases (ltb (size y) (size x))) [
    | inl e ↦
        let lt : size y ≤ size x = ground arith in
        rw e (All-move_left (size y) x r lt h.0, move_left-IsRising x r h.1)
    | inr e ↦
        let le : size x ≤ size y = ground arith in
        rw e ((le, All-weaken (size x) (size y) r le h.0), h)
  ]

  All-reverse : (a : ℕ) (r : List A) → All (λ z. a ≤ size z) r → All (λ z. a ≤ size z) (reverse r)
  All-reverse a [] h = tt
  All-reverse a (y ∷ r) h =
      rw (reverse-append (y ∷ []) r)
        (All-append (λ z. a ≤ size z) (reverse r) (y ∷ []) (All-reverse a r h.1) (h.0, tt))

  reverse-move_left :
      (x : A) (r : List A) → IsRising r → reverse (move_left size x r) ≡ insert_late x (reverse r)
  unfolding move_left insert_late
  reverse-move_left x [] h = refl
  reverse-move_left x (y ∷ r) h = elim (Bool-cases (ltb (size y) (size x))) [
    | inl e ↦
        rw
          (
            e,
            reverse-append (y ∷ []) (move_left size x r),
            reverse-move_left x r h.1,
            reverse-append (y ∷ []) r,
          )
          (sym (insert_late_small x y (reverse r) e))
    | inr e ↦
        let le : size x ≤ size y = ground arith in
        rw (e, reverse-append (x ∷ []) (y ∷ r))
          (sym (
            insert_late_last x (reverse (y ∷ r))
              (All-reverse (size x) (y ∷ r) (le, All-weaken (size x) (size y) r le h.0))))
  ]

  late_from : List A → List A → List A
  late_from l [] = l
  late_from l (x ∷ xs) = late_from (insert_late x l) xs

  reverse-insertion_loop :
      (r xs : List A) → IsRising r → reverse (insertion_loop size r xs) ≡ late_from (reverse r) xs
  unfolding insertion_loop late_from
  reverse-insertion_loop r [] h = refl
  reverse-insertion_loop r (x ∷ xs) h = rw (
    reverse-insertion_loop (move_left size x r) xs (move_left-IsRising x r h),
    reverse-move_left x r h,
  )

  insert_late-sort_desc :
      (x : A) (ys : List A) → insert_late x (sort_desc size ys) ≡ sort_desc size (ys ++ (x ∷ []))
  unfolding sort_desc insert_late
  insert_late-sort_desc x [] = refl
  insert_late-sort_desc x (y ∷ ys) =
      rw (← insert_late-sort_desc x ys) (insert_late-insert_desc x y (sort_desc size ys))

  late_from-sort_desc :
      (ys xs : List A) → late_from (sort_desc size ys) xs ≡ sort_desc size (ys ++ xs)
  unfolding late_from
  late_from-sort_desc ys [] = rw append-nil
  late_from-sort_desc ys (x ∷ xs) =
      rw (insert_late-sort_desc x ys, late_from-sort_desc (ys ++ (x ∷ [])) xs, append_assoc)

  pub insertion_sort-eq : (xs : List A) → insertion_sort size xs ≡ sort_desc size xs
  unfolding insertion_sort sort_desc
  insertion_sort-eq xs = reverse-insertion_loop [] xs tt ∙ late_from-sort_desc [] xs

-- topVideoFiles returns the first n of the video files in the stable order of falling size.
pub top_video_files-eq :
    (files : List DebridFile) (n : ℕ)
    → top_video_files files n
      ≡ take n (sort_desc debrid_size (keep (λ f. is_video_file f.name) files))
unfolding top_video_files
top_video_files-eq files n =
    rw (insertion_sort-eq debrid_size (keep (λ f. is_video_file f.name) files))

-- topVideoNZBFiles returns the first n of the video files in the stable order of falling size.
pub top_video_nzb_files-eq :
    (files : List NzbFile) (n : ℕ)
    → top_video_nzb_files files n
      ≡ take n (sort_desc nzb_size (keep (λ f. is_video_file f.name) files))
unfolding top_video_nzb_files
top_video_nzb_files-eq files n =
    rw (insertion_sort-eq nzb_size (keep (λ f. is_video_file f.name) files))

-- topVideoFiles and topVideoNZBFiles, with their insertion sort in place, are the first n of the
-- video files in the stable order of falling size.
pub top_files-eq :
    (files : List DebridFile) (nzbs : List NzbFile) (n : ℕ)
    → (top_video_files files n
        ≡ take n (sort_desc debrid_size (keep (λ f. is_video_file f.name) files)))
      × (top_video_nzb_files nzbs n
          ≡ take n (sort_desc nzb_size (keep (λ f. is_video_file f.name) nzbs)))
top_files-eq files nzbs n = (top_video_files-eq files n, top_video_nzb_files-eq nzbs n)
