-- ===== src/Scan/Upserts.antt =====
-- Upserts of rows with distinct keys, in one statement or in several.
use vorn_media_server.Prelude.{
  ℕ, Bool, false, Option, none, some, List, [], ◌∷◌, ◌++◌, ◌≡◌, refl, ap, ◌∙◌, sym, arith, any,
  take, drop, take-append-drop,
}
use vorn_media_server.Scan.{QueuedFile, ScanFile, Sources, inserts, keep_some, to_insert}
use vorn_media_server.Scan.Stage.{same_key, upsert, upsert_all, has_duplicate, upsert_scan_files}

pub upsert_all-append :
    (bs cs rows : List ScanFile) → upsert_all (bs ++ cs) rows ≡ upsert_all cs (upsert_all bs rows)
unfolding upsert_all
upsert_all-append [] cs rows = refl
upsert_all-append (b ∷ bs) cs rows = upsert_all-append bs cs (upsert b rows)

keep_some-append :
    (o : Option ScanFile) (xs ys : List ScanFile) → keep_some o (xs ++ ys) ≡ keep_some o xs ++ ys
keep_some-append none xs ys = refl
keep_some-append (some row) xs ys = refl

pub inserts-append :
    (src : Sources) (fs gs : List QueuedFile)
    → inserts src (fs ++ gs) ≡ inserts src fs ++ inserts src gs
unfolding inserts
inserts-append src [] gs = refl
inserts-append src (f ∷ fs) gs =
    ap (λ t. keep_some (to_insert src f) t) (inserts-append src fs gs)
    ∙ keep_some-append (to_insert src f) (inserts src fs) (inserts src gs)

any-append_false :
    (p : ScanFile → Bool) (bs cs : List ScanFile)
    → any p (bs ++ cs) ≡ false
    → (any p bs ≡ false) × (any p cs ≡ false)
any-append_false p [] cs h = (refl, h)
any-append_false p (b ∷ bs) cs h = ground (arith, any-append_false p bs cs)

-- Neither part of a list without duplicates has any.
pub has_duplicate-append :
    (bs cs : List ScanFile)
    → has_duplicate (bs ++ cs) ≡ false
    → (has_duplicate bs ≡ false) × (has_duplicate cs ≡ false)
unfolding has_duplicate
has_duplicate-append [] cs h = (refl, h)
has_duplicate-append (b ∷ bs) cs h =
    ground (arith, has_duplicate-append bs cs, any-append_false (same_key b) bs cs)

pub upsert_distinct :
    (bs rows : List ScanFile)
    → has_duplicate bs ≡ false
    → upsert_scan_files false bs rows ≡ some (upsert_all bs rows)
unfolding upsert_scan_files upsert_all
upsert_distinct [] rows h = refl
upsert_distinct (b ∷ bs) rows h = rw h refl

-- The rows of the files at the front of the list and of those behind them.
pub inserts-split :
    (src : Sources) (n : ℕ) (fs : List QueuedFile)
    → inserts src (take n fs) ++ inserts src (drop n fs) ≡ inserts src fs
inserts-split src n fs =
    sym (inserts-append src (take n fs) (drop n fs))
    ∙ ap (λ t. inserts src t) (take-append-drop n fs)
