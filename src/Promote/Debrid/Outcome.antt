-- ===== src/Promote/Debrid/Outcome.antt =====
-- What promoting a resolve onto an item comes to, backend/internal/debrid/promote.go.
use vorn_media_server.Prelude.{
  ℕ, Bool, true, false, Bool-cases, Option-cases, ◌⊎◌, inl, inr, Option, some, List, [], ◌∷◌, ◌≡◌,
  refl, ap, find, keep, any, ◌==◌, if◌then◌else◌, arith,
}
use vorn_media_server.Store.{MediaItem, DebridItem, DebridFile, Shared}
use vorn_media_server.Store.Prog.{quiet, statement}
use vorn_media_server.Store.Media.{
  update_where, set_items, has_id, with_path, debrid_claimable, with_debrid_item,
  claim_for_debrid_item, set_media_item_path,
}
use vorn_media_server.Store.Debrid.{set_debrid, mark_debrid_item_promoted, list_debrid_files}
use vorn_media_server.Remote.{Remote}
use vorn_media_server.Promote.{top_video_files}
use vorn_media_server.Promote.Debrid.{verified, claim_and_point, promote_to_existing_item}

-- The tables after a resolve took the row of an id and pointed it at a file.
abbrev pub pointed : ℕ → DebridItem → DebridFile → Shared → Shared
pointed id d f s =
    set_debrid d.id (λ x. record x { promoted = true })
      (set_items (has_id id) (with_path f.stream_url d.name)
        (set_items (debrid_claimable id) (with_debrid_item d.id) s))

-- The first of the two largest video files of the resolve whose content is verified.
abbrev pub chosen : Remote → MediaItem → DebridItem → Shared → Option DebridFile
chosen r m d s =
    find (verified r m) (top_video_files (keep (λ f. f.debrid_item_id == d.id) s.debrid_files) 2)

update_where-none :
    (p : MediaItem → Bool) (f : MediaItem → MediaItem) (ms : List MediaItem)
    → any p ms ≡ false
    → update_where p f ms ≡ ms
update_where-none p f [] h = refl
update_where-none p f (m ∷ ms) h = ground (arith, update_where-none p f ms)

lost-unchanged :
    (id d : ℕ) (s : Shared)
    → any (debrid_claimable id) s.media_items ≡ false
    → set_items (debrid_claimable id) (with_debrid_item d) s ≡ s
unfolding set_items
lost-unchanged id d s h =
    ap (λ ms. record s { media_items = ms }) (update_where-none _ _ s.media_items h)

claim_and_point-quiet :
    (id : ℕ) (d : DebridItem) (f : DebridFile) (s : Shared)
    → claim_and_point id d f (quiet s) ≡ (
        if any (debrid_claimable id) s.media_items
        then (true, quiet (pointed id d f s))
        else (false, quiet s))
unfolding claim_and_point claim_for_debrid_item set_media_item_path mark_debrid_item_promoted
    statement
claim_and_point-quiet id d f s = elim (Bool-cases (any (debrid_claimable id) s.media_items)) [
  | inl e ↦ rw e refl
  | inr e ↦ rw (e, lost-unchanged id d.id s e) refl
]

-- With nothing beside it, promotion either reports `false` and has changed nothing, or reports `true`
-- and its verified file became the path of the row, which was claimable: not owned, its slot free.
pub promote_to_existing_item-outcome :
    (r : Remote) (m : MediaItem) (d : DebridItem) (s : Shared)
    → (promote_to_existing_item r m d (quiet s) ≡ (false, quiet s))
      ⊎ ((f : DebridFile) × (chosen r m d s ≡ some f)
          × (any (debrid_claimable m.id) s.media_items ≡ true)
          × (promote_to_existing_item r m d (quiet s) ≡ (true, quiet (pointed m.id d f s))))
unfolding promote_to_existing_item list_debrid_files statement
promote_to_existing_item-outcome r m d s = elim (Option-cases (chosen r m d s)) [
  | inl e ↦ inl (rw e refl)
  | inr (f, e) ↦ elim (Bool-cases (any (debrid_claimable m.id) s.media_items)) [
    | inl k ↦ inr (f, e, k, rw (e, claim_and_point-quiet m.id d f s, k) refl)
    | inr k ↦ inl (rw (e, claim_and_point-quiet m.id d f s, k) refl)
  ]
]
