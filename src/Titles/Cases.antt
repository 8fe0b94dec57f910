-- ===== src/Titles/Cases.antt =====
-- Tags are found whatever the case of the title's letters.
use vorn_media_server.Prelude.{
  ℕ, Bool, false, Option, none, some, List, [], ◌∷◌, ◌≡◌, refl, arith, Text, map, codes, to_lower,
}
use vorn_media_server.Titles.{
  is_word, fold_eq, strip, starts_word, ends_word, closed, match_at, scan, resolution_pattern,
  resolution_of, parse_resolution, is_some, codec_pattern, codec_of, parse_codec, equal_fold_4k,
  is_remux, drop_dots,
}

abbrev lower : Text → Text
lower = map to_lower

abbrev lower_pair : Option (Text × Text) → Option (Text × Text)
lower_pair none = none
lower_pair (some (m, rest)) = some (lower m, lower rest)

abbrev lower_found : Option Text → Option Text
lower_found none = none
lower_found (some m) = some (lower m)

is_word-lower : (c : ℕ) → is_word (to_lower c) ≡ is_word c
is_word-lower c = ground arith

fold_eq-lower : (p c : ℕ) → fold_eq p (to_lower c) ≡ fold_eq p c
fold_eq-lower p c = ground arith

to_lower_idem : (c : ℕ) → to_lower (to_lower c) ≡ to_lower c
to_lower_idem c = ground arith

lower_idem : (s : Text) → lower (lower s) ≡ lower s
lower_idem [] = refl
lower_idem (c ∷ s) = cc (to_lower_idem c, lower_idem s)

strip-lower : (tag s : Text) → strip tag (lower s) ≡ lower_pair (strip tag s)
strip-lower [] s = refl
strip-lower (p ∷ ps) [] = refl
strip-lower (p ∷ ps) (c ∷ s) = ground (arith, strip-lower ps s, fold_eq-lower p c)

starts_word-lower : (s : Text) → starts_word (lower s) ≡ starts_word s
starts_word-lower [] = refl
starts_word-lower (c ∷ s) = is_word-lower c

ends_word-lower : (s : Text) → ends_word (lower s) ≡ ends_word s
ends_word-lower [] = refl
ends_word-lower (c ∷ []) = is_word-lower c
ends_word-lower (c ∷ d ∷ s) = ends_word-lower (d ∷ s)

closed-lower : (o : Option (Text × Text)) → closed (lower_pair o) ≡ lower_found (closed o)
closed-lower none = refl
closed-lower (some (m, rest)) = ground (arith, starts_word-lower rest, ends_word-lower m)

match_at-lower :
    (tags : List Text) (s : Text) → match_at tags (lower s) ≡ lower_found (match_at tags s)
unfolding match_at
match_at-lower [] s = refl
match_at-lower (tag ∷ tags) s =
    ground (arith, strip-lower tag s, closed-lower (strip tag s), match_at-lower tags s)

scan-lower :
    (tags : List Text) (prev : Bool) (s : Text)
    → scan tags prev (lower s) ≡ lower_found (scan tags prev s)
unfolding scan
scan-lower tags prev [] = refl
scan-lower tags prev (c ∷ s) =
    ground (arith, is_word-lower c, match_at-lower tags (c ∷ s), scan-lower tags (is_word c) s)

equal_fold_4k-lower : (m : Text) → equal_fold_4k (lower m) ≡ equal_fold_4k m
equal_fold_4k-lower [] = refl
equal_fold_4k-lower (a ∷ []) = refl
equal_fold_4k-lower (a ∷ b ∷ []) = ground (arith, fold_eq-lower b'k' b)
equal_fold_4k-lower (a ∷ b ∷ c ∷ m) = refl

resolution_of-lower : (o : Option Text) → resolution_of (lower_found o) ≡ resolution_of o
resolution_of-lower none = refl
resolution_of-lower (some m) = rw (equal_fold_4k-lower m, lower_idem m)

drop_dots-lower : (m : Text) → map to_lower (drop_dots (lower m)) ≡ map to_lower (drop_dots m)
drop_dots-lower [] = refl
drop_dots-lower (c ∷ m) = ground (arith, drop_dots-lower m)

codec_of-lower : (o : Option Text) → codec_of (lower_found o) ≡ codec_of o
codec_of-lower none = refl
codec_of-lower (some m) = rw (drop_dots-lower m)

is_some-lower : (o : Option Text) → is_some (lower_found o) ≡ is_some o
is_some-lower none = refl
is_some-lower (some m) = refl

-- The case of a title's letters changes neither its resolution nor its codec nor its remux tag.
pub tags-lower :
    (title : Text)
    → (parse_resolution (map to_lower title) ≡ parse_resolution title)
      × (parse_codec (map to_lower title) ≡ parse_codec title)
      × (is_remux (map to_lower title) ≡ is_remux title)
unfolding parse_resolution parse_codec is_remux
tags-lower title = (
  rw (scan-lower resolution_pattern false title)
      (resolution_of-lower (scan resolution_pattern false title)),
  rw (scan-lower codec_pattern false title) (codec_of-lower (scan codec_pattern false title)),
  rw (scan-lower (codes "remux" ∷ []) false title)
      (is_some-lower (scan (codes "remux" ∷ []) false title)),
)
