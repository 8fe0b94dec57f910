-- ===== src/Store/Closed/Rows.antt =====
-- Predicates of one row that no update of the store makes false: a row that has one keeps it.
use vorn_media_server.Prelude.{
  ℕ, Bool, true, false, not, ◌&&◌, ◌||◌, Bool-cases, inl, inr, Option, none, some, List, [], ◌∷◌,
  ◌++◌, ◌≡◌, refl, arith, any, ◌==◌, if◌then◌else◌, text_eq,
}
use vorn_media_server.Store.{Date, MediaItem, Shared}
use vorn_media_server.Store.Media.{update_where, set_items, has_id, is_null, with_metadata}
use vorn_media_server.Store.Find.{kind_eq, same_null}
use vorn_media_server.Store.Promoted.{map_items, fill_date, set_release_year}
use vorn_media_server.Store.Closed.{
  RowUpdate, update_row, point, own, mark_error, mark, debrid_slot, nzb_slot, monitor, describe,
  Closed, is_untitled,
}

pub record Stable (q : MediaItem → Bool) : Type 0 where
  pub update :
      (u : RowUpdate) (now : ℕ) (m : MediaItem)
      → is_untitled u ≡ true
      → q m ≡ true
      → q (record (update_row u m) { updated_at = now }) ≡ true
  pub date : (d : Option Date) (m : MediaItem) → q m ≡ true → q (fill_date d m) ≡ true

-- Some row of media_items has `q`.
unfoldable pub Has : (MediaItem → Bool) → Shared → Type 0
Has q s = any q s.media_items ≡ true

or_true : (b c : Bool) → (c ≡ true) → (b || c) ≡ true
or_true true c h = refl
or_true false c h = h

pub any-update :
    (q p : MediaItem → Bool) (f : MediaItem → MediaItem)
    → ((m : MediaItem) → q m ≡ true → q (f m) ≡ true)
    → (ms : List MediaItem) → any q ms ≡ true
    → any q (update_where p f ms) ≡ true
any-update q p f k [] h = h
any-update q p f k (m ∷ ms) h = ground (arith, any-update q p f k ms, k m)

any-append :
    (q : MediaItem → Bool) (ms ns : List MediaItem) → any q ms ≡ true → any q (ms ++ ns) ≡ true
any-append q [] ns h = cc
any-append q (m ∷ ms) ns h = ground (arith, any-append q ms ns)

any-map :
    (q : MediaItem → Bool) (f : MediaItem → MediaItem)
    → ((m : MediaItem) → q m ≡ true → q (f m) ≡ true)
    → (ms : List MediaItem) → any q ms ≡ true
    → any q (map_items f ms) ≡ true
any-map q f k [] h = h
any-map q f k (m ∷ ms) h = ground (arith, any-map q f k ms, k m)

module _ {q : MediaItem → Bool} (k : Stable q) where
  at_row-kept :
      (id : ℕ) (d : Option Date) (m : MediaItem)
      → q m ≡ true
      → q (if has_id id m then fill_date d m else m) ≡ true
  at_row-kept id d m h = elim (Bool-cases (has_id id m)) [
    | inl e ↦ rw e (k.date d m h)
    | inr e ↦ rw e h
  ]

  dates-Has : (id : ℕ) (year : Option ℕ) (s : Shared) → Has q s → Has q (set_release_year id year s)
  unfolding Has
  dates-Has id none s h = h
  dates-Has id (some year) s h =
      any-map q _ (at_row-kept id (some (record { year = year; month = 1; day = 1 }))) s.media_items
        h

  pub Has-Closed : Closed (Has q)
  unfolding Has set_items
  Has-Closed = record {
    rows = λ p u s l h.
        any-update q p (λ m. record (update_row u m) { updated_at = s.now })
          (λ m. k.update u s.now m l) s.media_items h;
    insert = λ m s e h. any-append q s.media_items (m ∷ []) h;
    dates = dates-Has;
    elsewhere = λ s t e n h. rw e h;
  }

-- The row of an id, with the path that it has.
abbrev pub has_path : ℕ → MediaItem → Bool
has_path id m = m.id == id && not (is_null m.path)

pub has_path-Stable : (id : ℕ) → Stable (has_path id)
unfolding with_metadata
has_path-Stable id = record { update = updated; date = dated }
  where
    updated :
        (u : RowUpdate) (now : ℕ) (m : MediaItem)
        → is_untitled u ≡ true
        → has_path id m ≡ true
        → has_path id (record (update_row u m) { updated_at = now }) ≡ true
    updated (point path release) now m l h = ground arith
    updated (own path) now m l h = ground arith
    updated (mark_error message) now m l h = h
    updated (mark status) now m l h = h
    updated (debrid_slot o) now m l h = h
    updated (nzb_slot o) now m l h = h
    updated (monitor b) now m l h = h
    updated (describe u lock) now m l h = h

    dated :
        (d : Option Date) (m : MediaItem)
        → has_path id m ≡ true
        → has_path id (fill_date d m) ≡ true
    dated d m h = elim (Bool-cases (is_null m.release_date)) [ inl e ↦ rw e h | inr e ↦ rw e h ]

-- The row of an id, with the place in its library and the title that it was created with.
abbrev pub is_same : MediaItem → MediaItem → Bool
is_same o m =
    m.id == o.id
    && (m.library_id == o.library_id
        && (kind_eq m.kind o.kind
            && (text_eq m.title o.title
                && (same_null m.parent_id o.parent_id
                    && (same_null m.season_number o.season_number
                        && same_null m.episode_number o.episode_number)))))

pub is_same-Stable : (o : MediaItem) → Stable (is_same o)
unfolding with_metadata
is_same-Stable o = record { update = updated; date = dated }
  where
    updated :
        (u : RowUpdate) (now : ℕ) (m : MediaItem)
        → is_untitled u ≡ true
        → is_same o m ≡ true
        → is_same o (record (update_row u m) { updated_at = now }) ≡ true
    updated (point path release) now m l h = h
    updated (own path) now m l h = h
    updated (mark_error message) now m l h = h
    updated (mark status) now m l h = h
    updated (debrid_slot x) now m l h = h
    updated (nzb_slot x) now m l h = h
    updated (monitor b) now m l h = h
    updated (describe u lock) now m l h = rw l h

    dated :
        (d : Option Date) (m : MediaItem) → is_same o m ≡ true → is_same o (fill_date d m) ≡ true
    dated d m h = elim (Bool-cases (is_null m.release_date)) [ inl e ↦ rw e h | inr e ↦ rw e h ]
