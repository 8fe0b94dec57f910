-- ===== src/Titles/Tags.antt =====
-- A match is one of the pattern's tags up to case, so a parsed resolution is one that is ranked.
use vorn_media_server.Prelude.{
  ℕ, Bool, true, false, not, Option, none, some, List, [], ◌∷◌, ◌≡◌, refl, arith, Text, map, codes,
  ◌==◌, if◌then◌else◌, all, is_empty, Bool-cases, ◌⊎◌, inl, inr, to_lower,
}
use mathlib.Core.Bool.{xor}
use vorn_media_server.Titles.{
  is_word, fold_eq, strip, starts_word, ends_word, closed, or_else, match_at, scan, find_tag,
  Resolution, res_unknown, resolution_pattern, resolution_of, parse_resolution, resolution_tier,
  equal_fold_4k,
}

-- A text spells a tag, up to case.
abbrev pub Folds : Text → Text → Type 0
Folds [] [] = Unit
Folds [] (c ∷ m) = ⊥
Folds (p ∷ ps) [] = ⊥
Folds (p ∷ ps) (c ∷ m) = (fold_eq p c ≡ true) × Folds ps m

abbrev pub OneOf : List Text → Text → Type 0
OneOf [] m = ⊥
OneOf (tag ∷ tags) m = Folds tag m ⊎ OneOf tags m

abbrev Stripped : Text → Option (Text × Text) → Type 0
Stripped tag none = Unit
Stripped tag (some (m, rest)) = Folds tag m

Stripped-cons :
    (p c : ℕ) (ps : Text) (o : Option (Text × Text))
    → Stripped ps o
    → Stripped
        (p ∷ ps)
        (elim o [ none ↦ none | some (m, rest) ↦ if fold_eq p c then some (c ∷ m, rest) else none ])
Stripped-cons p c ps none h = tt
Stripped-cons p c ps (some (m, rest)) h = elim (Bool-cases (fold_eq p c)) [
  | inl e ↦ rw e (e, h)
  | inr e ↦ rw e tt
]

strip-Stripped : (tag s : Text) → Stripped tag (strip tag s)
strip-Stripped [] s = tt
strip-Stripped (p ∷ ps) [] = tt
strip-Stripped (p ∷ ps) (c ∷ s) = Stripped-cons p c ps (strip ps s) (strip-Stripped ps s)

abbrev Found : List Text → Option Text → Type 0
Found tags none = Unit
Found tags (some m) = OneOf tags m

closed-Found :
    (tag : Text) (tags : List Text) (o : Option (Text × Text))
    → Stripped tag o
    → Found (tag ∷ tags) (closed o)
closed-Found tag tags none h = tt
closed-Found tag tags (some (m, rest)) h =
    elim (Bool-cases (xor (ends_word m) (starts_word rest))) [
      | inl e ↦ rw e (inl h)
      | inr e ↦ rw e tt
    ]

Found-weaken :
    (tag : Text) (tags : List Text) (o : Option Text) → Found tags o → Found (tag ∷ tags) o
Found-weaken tag tags none h = tt
Found-weaken tag tags (some m) h = inr h

or_else-Found :
    (tags : List Text) (a b : Option Text) → Found tags a → Found tags b → Found tags (or_else a b)
or_else-Found tags none b ha hb = hb
or_else-Found tags (some m) b ha hb = ha

match_at-Found : (tags : List Text) (s : Text) → Found tags (match_at tags s)
unfolding match_at
match_at-Found [] s = tt
match_at-Found (tag ∷ tags) s =
    or_else-Found (tag ∷ tags) (closed (strip tag s)) (match_at tags s)
      (closed-Found tag tags (strip tag s) (strip-Stripped tag s))
      (Found-weaken tag tags (match_at tags s) (match_at-Found tags s))

scan-Found : (tags : List Text) (prev : Bool) (s : Text) → Found tags (scan tags prev s)
unfolding scan
scan-Found tags prev [] = tt
scan-Found tags prev (c ∷ s) = elim (Bool-cases (xor prev (is_word c))) [
  | inl e ↦ rw e (
      or_else-Found tags (match_at tags (c ∷ s)) (scan tags (is_word c) s)
        (match_at-Found tags (c ∷ s)) (scan-Found tags (is_word c) s))
  | inr e ↦ rw e (scan-Found tags (is_word c) s)
]

pub find_tag-Found :
    (tags : List Text) (title : Text) {m : Text} → find_tag tags title ≡ some m → OneOf tags m
unfolding find_tag
find_tag-Found tags title {m} e = rw e at (scan-Found tags false title)

-- Away from k, a spelled tag is the tag once lower-cased.
Folds-lower :
    (tag m : Text) → all (λ p. not (p == b'k')) tag ≡ true → Folds tag m → map to_lower m ≡ tag
Folds-lower [] [] n h = refl
Folds-lower [] (c ∷ m) n h = elim h [ ]
Folds-lower (p ∷ ps) [] n h = elim h [ ]
Folds-lower (p ∷ ps) (c ∷ m) n h = ground (arith, Folds-lower ps m)

abbrev IsRanked : Resolution → Type 0
IsRanked r = (resolution_tier r).1 ≡ true

Folds-4k : (m : Text) → Folds (codes "4k") m → equal_fold_4k m ≡ true
Folds-4k [] h = elim h [ ]
Folds-4k (a ∷ []) h = elim h.1 [ ]
Folds-4k (a ∷ b ∷ []) h = ground (arith, h.0, h.1.0)
Folds-4k (a ∷ b ∷ c ∷ m) h = elim h.1.1 [ ]

resolution_of_lower : (m : Text) → IsRanked (map to_lower m) → IsRanked (resolution_of (some m))
unfolding resolution_tier
resolution_of_lower m h = elim (Bool-cases (equal_fold_4k m)) [ inl e ↦ rw e | inr e ↦ rw e h ]

resolution_of-IsRanked : (m : Text) → OneOf resolution_pattern m → IsRanked (resolution_of (some m))
unfolding resolution_tier
resolution_of-IsRanked m (inl h) = resolution_of_lower m (rw (Folds-lower (codes "2160p") m refl h))
resolution_of-IsRanked m (inr (inl h)) = rw (Folds-4k m h)
resolution_of-IsRanked m (inr (inr (inl h))) =
    resolution_of_lower m (rw (Folds-lower (codes "1080p") m refl h))
resolution_of-IsRanked m (inr (inr (inr (inl h)))) =
    resolution_of_lower m (rw (Folds-lower (codes "720p") m refl h))
resolution_of-IsRanked m (inr (inr (inr (inr (inl h))))) =
    resolution_of_lower m (rw (Folds-lower (codes "480p") m refl h))
resolution_of-IsRanked m (inr (inr (inr (inr (inr h))))) = elim h [ ]

resolution-Found-IsRanked :
    (o : Option Text)
    → Found resolution_pattern o
    → (resolution_of o ≡ res_unknown) ⊎ IsRanked (resolution_of o)
resolution-Found-IsRanked none h = inl refl
resolution-Found-IsRanked (some m) h = inr (resolution_of-IsRanked m h)

-- ParseResolution returns the empty resolution or one that resolutionTier ranks, whatever the title.
pub parse_resolution-IsRanked :
    (title : Text)
    → (parse_resolution title ≡ res_unknown) ⊎ ((resolution_tier (parse_resolution title)).1 ≡ true)
unfolding parse_resolution
parse_resolution-IsRanked title =
    resolution-Found-IsRanked (find_tag resolution_pattern title)
      (scan-Found resolution_pattern false title)

-- What a match parses to is not empty.
pub resolution_of-ne_unknown :
    (m : Text) → OneOf resolution_pattern m → is_empty (resolution_of (some m)) ≡ false
unfolding resolution_tier
resolution_of-ne_unknown m h =
    ranked_not_empty (resolution_of (some m)) (resolution_of-IsRanked m h)
  where
    ranked_not_empty : (r : Resolution) → IsRanked r → is_empty r ≡ false
    ranked_not_empty [] k = cc
    ranked_not_empty (c ∷ r) k = refl
