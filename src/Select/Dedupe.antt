-- ===== src/Select/Dedupe.antt =====
-- Dropping repeats keeps one entry for each key.
use vorn_media_server.Prelude.{
  true, false, ◌||◌, List, [], ◌∷◌, map, Text, text_eq_refl, text_eq_iff, ◌≡◌, refl, arith,
  Bool-cases, inl, inr, length, ◌≤◌,
}
use vorn_media_server.Quality.{NzbResult}
use vorn_media_server.Select.{contains, dedupe_from, dedupe, dedupe_nzb_by_url, nzb_url}

-- No text stands twice.
abbrev pub IsDistinct : List Text → Type 0
IsDistinct [] = Unit
IsDistinct (t ∷ ts) = (contains ts t ≡ false) × IsDistinct ts

module _ {ℓ} {A : Type ℓ} (key : A → Text) where
  -- A key that was seen is not in the result.
  seen_is_gone :
      (seen : List Text) (cs : List A) (t : Text)
      → contains seen t ≡ true
      → contains (map key (dedupe_from key seen cs)) t ≡ false
  unfolding dedupe_from
  seen_is_gone seen [] t h = refl
  seen_is_gone seen (c ∷ cs) t h =
      ground
        (arith, text_eq_iff t (key c), seen_is_gone seen cs t, seen_is_gone (key c ∷ seen) cs t)

  dedupe_from-IsDistinct :
      (seen : List Text) (cs : List A) → IsDistinct (map key (dedupe_from key seen cs))
  unfolding dedupe_from
  dedupe_from-IsDistinct seen [] = tt
  dedupe_from-IsDistinct seen (c ∷ cs) = elim (Bool-cases (contains seen (key c))) [
    | inl e ↦ rw e (dedupe_from-IsDistinct seen cs)
    | inr e ↦ rw e (
      seen_is_gone (key c ∷ seen) cs (key c) (rw (text_eq_refl (key c))),
      dedupe_from-IsDistinct (key c ∷ seen) cs,
    )
  ]

  -- A key is kept or was seen.
  dedupe_from-contains :
      (seen : List Text) (cs : List A) (t : Text)
      → (contains seen t || contains (map key (dedupe_from key seen cs)) t)
        ≡ (contains seen t || contains (map key cs) t)
  unfolding dedupe_from
  dedupe_from-contains seen [] t = refl
  dedupe_from-contains seen (c ∷ cs) t = ground (
    arith,
    text_eq_iff t (key c),
    dedupe_from-contains seen cs t,
    dedupe_from-contains (key c ∷ seen) cs t,
  )

  dedupe_from-length :
      (seen : List Text) (cs : List A) → length (dedupe_from key seen cs) ≤ length cs
  unfolding dedupe_from
  dedupe_from-length seen [] = ground arith
  dedupe_from-length seen (c ∷ cs) =
      ground (arith, dedupe_from-length seen cs, dedupe_from-length (key c ∷ seen) cs)

-- After dedupeNZBByURL no two results have one URL, no URL is lost and the list is no longer.
pub dedupe_nzb_by_url_lem :
    (candidates : List NzbResult)
    → IsDistinct (map nzb_url (dedupe_nzb_by_url candidates))
      × ((url : Text)
          → contains (map nzb_url (dedupe_nzb_by_url candidates)) url
            ≡ contains (map nzb_url candidates) url)
      × (length (dedupe_nzb_by_url candidates) ≤ length candidates)
unfolding dedupe_nzb_by_url dedupe
dedupe_nzb_by_url_lem candidates = (
  dedupe_from-IsDistinct nzb_url [] candidates,
  dedupe_from-contains nzb_url [] candidates,
  dedupe_from-length nzb_url [] candidates,
)
