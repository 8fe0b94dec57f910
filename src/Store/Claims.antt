-- ===== src/Store/Claims.antt =====
-- Claims of a media item, backend/internal/store/media_items.go: each of the two tiers has a slot of
-- its own on the row, and a claim of it is exclusive until the slot is cleared.
use vorn_media_server.Prelude.{
  ℕ, Bool, true, false, not, ◌&&◌, Bool-cases, inl, inr, Option, none, some, List, [], ◌∷◌, ◌++◌,
  ◌≡◌, ◌≢◌, refl, arith, any, All, ◌==◌, ==_iff, ap,
}
use vorn_media_server.Store.{MediaItem, Shared}
use vorn_media_server.Store.Prog.{ok, quiet, statement}
use vorn_media_server.Store.Media.{
  update_where, set_items, has_id, is_owned, is_null, with_debrid_item, claim_for_debrid_item,
  with_nzb_download, claim_for_nzb_download, with_metadata,
}
use vorn_media_server.Store.Closed.{
  RowUpdate, update_row, point, own, mark_error, mark, debrid_slot, nzb_slot, monitor, describe,
  insert_item,
}
use vorn_media_server.Store.Closed.Keys.{ids, AreDistinct, update_row-id}

-- A slot of a row, how a claim fills it, and which updates leave a filled slot filled.
pub record Slot : Type 0 where
  pub held : MediaItem → Option ℕ
  pub fill : ℕ → MediaItem → MediaItem
  pub leaves : RowUpdate → Bool
  pub fill-held :
      (d now : ℕ) (m : MediaItem) → is_null (held (record (fill d m) { updated_at = now })) ≡ false
  pub leaves-held :
      (u : RowUpdate) (now : ℕ) (m : MediaItem)
      → leaves u ≡ true
      → is_null (held m) ≡ false
      → is_null (held (record (update_row u m) { updated_at = now })) ≡ false

-- What runs beside a race for a slot: any change of rows that leaves it filled, and new rows.
pub data Racing (leaves : RowUpdate → Bool) (id : ℕ) : Shared → Shared → Type 0 where
  done : {s : Shared} → Racing leaves id s s
  changes :
      {s t : Shared} (p : MediaItem → Bool) (u : RowUpdate)
      → leaves u ≡ true
      → Racing leaves id (set_items p (update_row u) s) t
      → Racing leaves id s t
  inserts :
      {s t : Shared} (m : MediaItem)
      → (m.id == id) ≡ false
      → Racing leaves id (insert_item m s) t
      → Racing leaves id s t

module _ (S : Slot) where
  -- The WHERE of a claim of the slot.
  abbrev claimable : ℕ → MediaItem → Bool
  claimable id m = has_id id m && (not (is_owned m.acquisition_status) && is_null (S.held m))

  abbrev claimed_row : ℕ → ℕ → MediaItem → MediaItem
  claimed_row d now m = record (S.fill d m) { updated_at = now }

  -- The row of the id has the slot filled.
  abbrev IsTaken : ℕ → List MediaItem → Type 0
  IsTaken id ms = All (λ m. (m.id == id) ≡ true → is_null (S.held m) ≡ false) ms

  changed-IsTaken :
      (id now : ℕ) (p : MediaItem → Bool) (u : RowUpdate) (ms : List MediaItem)
      → S.leaves u ≡ true
      → IsTaken id ms
      → IsTaken id (update_where p (λ m. record (update_row u m) { updated_at = now }) ms)
  changed-IsTaken id now p u [] l t = t
  changed-IsTaken id now p u (m ∷ ms) l (h, t) = elim (Bool-cases (p m)) [
    | inl e ↦ rw e (
      λ k. S.leaves-held u now m l (h (rw (update_row-id u m) at k)),
      changed-IsTaken id now p u ms l t,
    )
    | inr e ↦ rw e (h, changed-IsTaken id now p u ms l t)
  ]

  append-IsTaken :
      (id : ℕ) (ms : List MediaItem) (m : MediaItem)
      → (m.id == id) ≡ false
      → IsTaken id ms
      → IsTaken id (ms ++ (m ∷ []))
  append-IsTaken id [] m e t = (λ k. cc, tt)
  append-IsTaken id (n ∷ ms) m e (h, t) = (h, append-IsTaken id ms m e t)

  Racing-IsTaken :
      {id : ℕ} {s t : Shared}
      → Racing S.leaves id s t
      → IsTaken id s.media_items
      → IsTaken id t.media_items
  unfolding set_items
  Racing-IsTaken done k = k
  Racing-IsTaken {id = id} {s} (changes p u l steps) k =
      Racing-IsTaken steps (changed-IsTaken id s.now p u s.media_items l k)
  Racing-IsTaken {id = id} {s} (inserts m e steps) k =
      Racing-IsTaken steps (append-IsTaken id s.media_items m e k)

  taken_unclaimable : (id : ℕ) (ms : List MediaItem) → IsTaken id ms → any (claimable id) ms ≡ false
  taken_unclaimable id [] t = refl
  taken_unclaimable id (m ∷ ms) (h, t) = ground (arith, taken_unclaimable id ms t)

  others-IsTaken :
      (id d now : ℕ) (ms : List MediaItem)
      → ((m : MediaItem) → (S.fill d m).id ≡ m.id)
      → All (λ y. id ≢ y) (ids ms)
      → IsTaken id (update_where (claimable id) (claimed_row d now) ms)
  others-IsTaken id d now [] f a = tt
  others-IsTaken id d now (m ∷ ms) f (ne, a) = elim (Bool-cases (claimable id m)) [
    | inl e ↦ rw e (λ k. S.fill-held d now m, others-IsTaken id d now ms f a)
    | inr e ↦ rw e (λ k. ground arith, others-IsTaken id d now ms f a)
  ]

  others_unclaimable :
      (id : ℕ) (ms : List MediaItem) → All (λ y. id ≢ y) (ids ms) → any (claimable id) ms ≡ false
  others_unclaimable id [] a = refl
  others_unclaimable id (m ∷ ms) (ne, a) = ground (arith, others_unclaimable id ms a)

  claimable-id : (id : ℕ) (m : MediaItem) → claimable id m ≡ true → m.id ≡ id
  claimable-id id m e = ground arith

  claimed-IsTaken :
      (id d now : ℕ) (ms : List MediaItem)
      → ((m : MediaItem) → (S.fill d m).id ≡ m.id)
      → AreDistinct (ids ms)
      → any (claimable id) ms ≡ true
      → IsTaken id (update_where (claimable id) (claimed_row d now) ms)
  claimed-IsTaken id d now [] f a h = tt
  claimed-IsTaken id d now (m ∷ ms) f (ne, a) h = elim (Bool-cases (claimable id m)) [
    | inl e ↦ rw e (
      λ _. S.fill-held d now m,
      others-IsTaken id d now ms f (apart m.id id (ids ms) (claimable-id id m e) ne),
    )
    | inr e ↦ rw e (
      λ k.
          ground
            (arith, others_unclaimable id ms (apart m.id id (ids ms) ((==_iff m.id id).0 k) ne)),
      claimed-IsTaken id d now ms f a (ground arith),
    )
  ]
    where
      apart : (a b : ℕ) (xs : List ℕ) → a ≡ b → All (λ y. a ≢ y) xs → All (λ y. b ≢ y) xs
      apart a b xs e h = rw (← e) h

  -- After a claim and what raced, no row is claimable.
  once :
      (id d : ℕ) (s t : Shared)
      → ((m : MediaItem) → (S.fill d m).id ≡ m.id)
      → AreDistinct (ids s.media_items)
      → any (claimable id) s.media_items ≡ true
      → Racing S.leaves id (set_items (claimable id) (S.fill d) s) t
      → any (claimable id) t.media_items ≡ false
  unfolding set_items
  once id d s t f a h steps =
      taken_unclaimable id t.media_items
        (Racing-IsTaken steps (claimed-IsTaken id d s.now s.media_items f a h))

abbrev pub debrid_leaves : RowUpdate → Bool
debrid_leaves (debrid_slot none) = false
debrid_leaves _ = true

abbrev pub nzb_leaves : RowUpdate → Bool
nzb_leaves (nzb_slot none) = false
nzb_leaves _ = true

debrid-leaves :
    (u : RowUpdate) (now : ℕ) (m : MediaItem)
    → debrid_leaves u ≡ true
    → is_null m.active_debrid_item_id ≡ false
    → is_null (record (update_row u m) { updated_at = now }).active_debrid_item_id ≡ false
unfolding with_metadata
debrid-leaves (point path release) now m l h = h
debrid-leaves (own path) now m l h = h
debrid-leaves (mark_error message) now m l h = h
debrid-leaves (mark status) now m l h = h
debrid-leaves (debrid_slot none) now m l h = cc
debrid-leaves (debrid_slot (some x)) now m l h = refl
debrid-leaves (nzb_slot none) now m l h = h
debrid-leaves (nzb_slot (some x)) now m l h = h
debrid-leaves (monitor b) now m l h = h
debrid-leaves (describe x lock) now m l h = h

abbrev debrid_held : Slot
debrid_held = record {
  held = λ m. m.active_debrid_item_id;
  fill = with_debrid_item;
  leaves = debrid_leaves;
  fill-held = λ d now m. refl;
  leaves-held = debrid-leaves;
}

nzb-leaves :
    (u : RowUpdate) (now : ℕ) (m : MediaItem)
    → nzb_leaves u ≡ true
    → is_null m.active_nzb_download_id ≡ false
    → is_null (record (update_row u m) { updated_at = now }).active_nzb_download_id ≡ false
unfolding with_metadata
nzb-leaves (point path release) now m l h = h
nzb-leaves (own path) now m l h = h
nzb-leaves (mark_error message) now m l h = h
nzb-leaves (mark status) now m l h = h
nzb-leaves (debrid_slot none) now m l h = h
nzb-leaves (debrid_slot (some x)) now m l h = h
nzb-leaves (nzb_slot none) now m l h = cc
nzb-leaves (nzb_slot (some x)) now m l h = refl
nzb-leaves (monitor b) now m l h = h
nzb-leaves (describe x lock) now m l h = h

abbrev nzb_held : Slot
nzb_held = record {
  held = λ m. m.active_nzb_download_id;
  fill = with_nzb_download;
  leaves = nzb_leaves;
  fill-held = λ d now m. refl;
  leaves-held = nzb-leaves;
}

-- When a debrid resolve has claimed an item, every other debrid claim of the item fails, whatever path, status, error,
-- metadata and NZB slot are written in between, until the slot is cleared.
pub claim_for_debrid_item-once :
    (id d e : ℕ) (s t : Shared)
    → AreDistinct (ids s.media_items)
    → (claim_for_debrid_item id d (quiet s)).0 ≡ ok true
    → Racing debrid_leaves id (claim_for_debrid_item id d (quiet s)).1.shared t
    → (claim_for_debrid_item id e (quiet t)).0 ≡ ok false
unfolding claim_for_debrid_item statement
claim_for_debrid_item-once id d e s t a won steps =
    ap ok (once debrid_held id d s t (λ m. refl) a (cc) steps)

-- When a NZB download has claimed an item, every other NZB claim of the item fails, whatever path, status, error,
-- metadata and debrid slot are written in between, until the slot is cleared.
pub claim_for_nzb_download-once :
    (id d e : ℕ) (s t : Shared)
    → AreDistinct (ids s.media_items)
    → (claim_for_nzb_download id d (quiet s)).0 ≡ ok true
    → Racing nzb_leaves id (claim_for_nzb_download id d (quiet s)).1.shared t
    → (claim_for_nzb_download id e (quiet t)).0 ≡ ok false
unfolding claim_for_nzb_download statement
claim_for_nzb_download-once id d e s t a won steps =
    ap ok (once nzb_held id d s t (λ m. refl) a (cc) steps)
