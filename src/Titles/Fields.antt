-- ===== src/Titles/Fields.antt =====
-- A release title is a row of fields between separators: a tag is looked for field by field.
use vorn_media_server.Prelude.{
  ℕ, Bool, true, false, Option, none, some, List, [], ◌∷◌, ◌++◌, ◌≡◌, refl, arith, Text, codes,
  ◌==◌, if◌then◌else◌, All, all, ◌&&◌, ◌||◌, is_empty, Bool-cases, inl, inr,
}
use vorn_media_server.Titles.Tags.{find_tag-Found, resolution_of-ne_unknown}
use vorn_media_server.Titles.{
  is_word, fold_eq, strip, starts_word, closed, or_else, match_at, scan, find_tag,
  resolution_pattern, resolution_of, parse_resolution, is_remux,
}

-- No place of a tag matches the separator.
abbrev Avoids : ℕ → Text → Type 0
Avoids d tag = All (λ p. fold_eq p d ≡ false) tag

abbrev extend : Text → Option (Text × Text) → Option (Text × Text)
extend r none = none
extend r (some (m, rest)) = some (m, rest ++ r)

strip-append :
    (d : ℕ) (tag s r : Text)
    → Avoids d tag
    → strip tag (s ++ (d ∷ r)) ≡ extend (d ∷ r) (strip tag s)
strip-append d [] s r h = refl
strip-append d (p ∷ ps) [] r h = ground (arith, h.0)
strip-append d (p ∷ ps) (c ∷ s) r h = ground (arith, strip-append d ps s r h.1)

starts_word-append :
    (d : ℕ) (s r : Text) → is_word d ≡ false → starts_word (s ++ (d ∷ r)) ≡ starts_word s
starts_word-append d [] r h = h
starts_word-append d (c ∷ s) r h = refl

closed-extend :
    (d : ℕ) (r : Text) (o : Option (Text × Text))
    → is_word d ≡ false
    → closed (extend (d ∷ r) o) ≡ closed o
closed-extend d r none h = refl
closed-extend d r (some (m, rest)) h = rw (starts_word-append d rest r h)

match_at-append :
    (d : ℕ) (tags : List Text) (s r : Text)
    → is_word d ≡ false
    → All (Avoids d) tags
    → match_at tags (s ++ (d ∷ r)) ≡ match_at tags s
unfolding match_at
match_at-append d [] s r w h = refl
match_at-append d (tag ∷ tags) s r w h = rw (
  strip-append d tag s r h.0,
  closed-extend d r (strip tag s) w,
  match_at-append d tags s r w h.1,
)

scan_sep :
    (d : ℕ) (tags : List Text) (prev : Bool) (r : Text)
    → is_word d ≡ false
    → match_at tags (d ∷ r) ≡ none
    → scan tags prev (d ∷ r) ≡ scan tags false r
unfolding scan
scan_sep d tags prev r w m = rw (w, m) (ground arith)

scan-append :
    (d : ℕ) (tags : List Text) (prev : Bool) (s r : Text)
    → is_word d ≡ false
    → All (Avoids d) tags
    → match_at tags (d ∷ r) ≡ none
    → scan tags prev (s ++ (d ∷ r)) ≡ or_else (scan tags prev s) (scan tags false r)
unfolding scan
scan-append d tags prev [] r w h m = scan_sep d tags prev r w m
scan-append d tags prev (c ∷ s) r w h m =
    ground (arith, match_at-append d tags (c ∷ s) r w h, scan-append d tags (is_word c) s r w h m)

-- A separator is no word character, and not the sign that folds to k.
fold_eq_sep :
    (d p : ℕ) → is_word d ≡ false → (d == 0x212A) ≡ false → is_word p ≡ true → fold_eq p d ≡ false
fold_eq_sep d p w k h = ground arith

Avoids-sep :
    (d : ℕ) (tag : Text)
    → is_word d ≡ false
    → (d == 0x212A) ≡ false
    → all is_word tag ≡ true
    → Avoids d tag
Avoids-sep d [] w k h = tt
Avoids-sep d (p ∷ ps) w k h = elim (Bool-cases (is_word p)) [
  | inl e ↦ (fold_eq_sep d p w k e, Avoids-sep d ps w k (rw e at h))
  | inr e ↦ cc (rw e at h)
]

abbrev is_tag : Text → Bool
is_tag [] = false
is_tag (p ∷ ps) = is_word p && all is_word ps

module _ (d : ℕ) (w : is_word d ≡ false) (k : (d == 0x212A) ≡ false) where
  tags_avoid : (tags : List Text) → all is_tag tags ≡ true → All (Avoids d) tags
  tags_avoid [] h = tt
  tags_avoid ([] ∷ tags) h = cc
  tags_avoid ((p ∷ ps) ∷ tags) h = elim (Bool-cases (is_word p && all is_word ps)) [
    | inl e ↦ (Avoids-sep d (p ∷ ps) w k e, tags_avoid tags (rw e at h))
    | inr e ↦ cc (rw e at h)
  ]

  match_at_sep :
      (tags : List Text) (r : Text) → all is_tag tags ≡ true → match_at tags (d ∷ r) ≡ none
  unfolding match_at
  match_at_sep [] r h = refl
  match_at_sep ([] ∷ tags) r h = cc
  match_at_sep ((p ∷ ps) ∷ tags) r h =
      ground (arith, (tags_avoid ((p ∷ ps) ∷ tags) h).0.0, match_at_sep tags r)

  -- A tag is found in the first field that has one.
  pub find_tag-append :
      (tags : List Text) (s r : Text)
      → all is_tag tags ≡ true
      → find_tag tags (s ++ (d ∷ r)) ≡ or_else (find_tag tags s) (find_tag tags r)
  unfolding find_tag
  find_tag-append tags s r h =
      scan-append d tags false s r w (tags_avoid tags h) (match_at_sep tags r h)

  -- A separator splits a title: its resolution is that of the part before it, and that of the part
  -- behind it where the first part has none.
  pub parse_resolution-append :
      (s r : Text)
      → parse_resolution (s ++ (d ∷ r))
        ≡ (if is_empty (parse_resolution s) then parse_resolution r else parse_resolution s)
  unfolding parse_resolution
  parse_resolution-append s r =
      rw (find_tag-append resolution_pattern s r refl) (go (find_tag resolution_pattern s) refl)
    where
      go :
          (o : Option Text)
          → find_tag resolution_pattern s ≡ o
          → resolution_of (or_else o (find_tag resolution_pattern r)) ≡ (
              if is_empty (resolution_of o)
              then resolution_of (find_tag resolution_pattern r)
              else resolution_of o)
      go none e = refl
      go (some m) e = rw (resolution_of-ne_unknown m (find_tag-Found resolution_pattern s e))

  -- A remux tag is found exactly where one of the two parts has it.
  pub is_remux-append : (s r : Text) → is_remux (s ++ (d ∷ r)) ≡ (is_remux s || is_remux r)
  unfolding is_remux
  is_remux-append s r = rw (find_tag-append (codes "remux" ∷ []) s r refl) (ground arith)

  -- Around a separator, a character that belongs to no word and is not the Kelvin sign, a title's
  -- resolution is that of the part before it, or that of the part behind it where the first has
  -- none, and the title is a remux exactly when one of its two parts is.
  pub fields-append :
      (s r : Text)
      → (parse_resolution (s ++ (d ∷ r))
          ≡ (if is_empty (parse_resolution s) then parse_resolution r else parse_resolution s))
        × (is_remux (s ++ (d ∷ r)) ≡ (is_remux s || is_remux r))
  fields-append s r = (parse_resolution-append s r, is_remux-append s r)
