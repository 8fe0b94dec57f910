-- ===== src/Scan/Flushed.antt =====
-- A scan in which nothing goes wrong writes every file's row and leaves nothing staged.
use vorn_media_server.Prelude.{
  ℕ, zero, suc, ◌+◌, ◌≤◌, ◌<◌, false, some, [], ◌≡◌, refl, ap, ◌∙◌, sym, arith, length, take, drop,
  take_all, drop_all, length-take, length-drop, Bool-cases, inl, inr, ltb,
}
use vorn_media_server.Scan.{Sources, inserts}
use vorn_media_server.Scan.Stage.{
  upsert_all, has_duplicate, Scan, flush_batch, flushed, no_fault, drain_rest, add_synced,
}
use vorn_media_server.Scan.Upserts.{
  upsert_all-append, has_duplicate-append, upsert_distinct, inserts-split,
}

-- All staged files are in the table, and counted.
pub record IsDrained (src : Sources) (s s' : Scan) : Type 0 where
  pub rows : s'.rows ≡ upsert_all (inserts src s.staged) s.rows
  pub staged : s'.staged ≡ []
  pub synced : s'.synced ≡ s.synced + length s.staged
  pub found : s'.found ≡ s.found

module _ (size : ℕ) (src : Sources) where
  abbrev flushed_once : Scan → Scan
  flushed_once s = record s {
    staged = drop size s.staged;
    rows = upsert_all (inserts src (take size s.staged)) s.rows;
  }

  split_distinct :
      (s : Scan)
      → has_duplicate (inserts src s.staged) ≡ false
      → (has_duplicate (inserts src (take size s.staged)) ≡ false)
        × (has_duplicate (inserts src (drop size s.staged)) ≡ false)
  split_distinct s h =
      has_duplicate-append (inserts src (take size s.staged)) (inserts src (drop size s.staged))
        (ap has_duplicate (inserts-split src size s.staged) ∙ h)

  flush_batch-ok :
      (s : Scan)
      → has_duplicate (inserts src s.staged) ≡ false
      → flush_batch size src no_fault s ≡ (some (length (take size s.staged)), flushed_once s)
  unfolding flush_batch
  flush_batch-ok s h =
      ap (λ o. flushed (length (take size s.staged)) (record s { staged = drop size s.staged }) o)
        (upsert_distinct (inserts src (take size s.staged)) s.rows (split_distinct s h).0)

  last_round :
      (s : Scan)
      → length s.staged ≤ size
      → IsDrained src s (add_synced (length (take size s.staged)) (flushed_once s))
  last_round s l = record {
    rows = ap (λ t. upsert_all (inserts src t) s.rows) (take_all size s.staged l);
    staged = drop_all size s.staged l;
    synced = omega (arith, length-take size s.staged);
    found = refl;
  }

  more_rounds :
      (s s' : Scan)
      → IsDrained src (add_synced (length (take size s.staged)) (flushed_once s)) s'
      → IsDrained src s s'
  more_rounds s s' d = record {
    rows =
        d.rows
        ∙ sym (
            upsert_all-append (inserts src (take size s.staged)) (inserts src (drop size s.staged))
              s.rows)
        ∙ ap (λ t. upsert_all t s.rows) (inserts-split src size s.staged);
    staged = d.staged;
    synced = omega (arith, d.synced, length-take size s.staged, length-drop size s.staged);
    found = d.found;
  }

  full_shorter :
      (s : Scan) (fuel : ℕ)
      → 0 < size
      → length s.staged < suc fuel
      → ltb (length (take size s.staged)) size ≡ false
      → length (drop size s.staged) < fuel
  full_shorter s fuel p l e = ground (arith, length-take size s.staged, length-drop size s.staged)

  pub drain_rest-IsDrained :
      (fuel : ℕ) (s : Scan)
      → 0 < size
      → length s.staged < fuel
      → has_duplicate (inserts src s.staged) ≡ false
      → IsDrained src s (drain_rest size src fuel s)
  unfolding drain_rest
  drain_rest-IsDrained zero s p l h = absurd (omega arith)
  drain_rest-IsDrained (suc fuel) s p l h =
      let once = add_synced (length (take size s.staged)) (flushed_once s) in
      rw (flush_batch-ok s h) (elim (Bool-cases (ltb (length (take size s.staged)) size)) [
        | inl e ↦ rw e (last_round s (ground (arith, length-take size s.staged)))
        | inr e ↦ rw e (
            more_rounds s (drain_rest size src fuel once)
              (drain_rest-IsDrained fuel once p (full_shorter s fuel p l e) (split_distinct s h).1))
      ])
