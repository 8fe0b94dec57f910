-- ===== src/Store/Starting.antt =====
-- How many goroutines a program starts: a rule for each way to build a program.
use vorn_media_server.Prelude.{
  ℕ, ◌+◌, ◌≤◌, Bool, true, false, Bool-cases, inl, inr, List, [], ◌∷◌, ◌≡◌, refl, arith, length,
  length-append, if◌then◌else◌,
}
use vorn_media_server.Store.{Shared}
use vorn_media_server.Store.Prog.{
  Error, Result, ok, err, Turn, World, Prog, pure, ◌>>=◌, ◌>>◌, check, run_on, statement, query,
  exec, pause, pass, Job, spawn,
}

-- The program starts at most `n`, in any interleaving and with any faults.
pub record Starts {ℓ} {A : Type ℓ} (n : ℕ) (m : Prog A) : Type ℓ where
  pub bound : (w : World) → length (m w).1.started ≤ length w.started + n

pub Starts-le {ℓ} : {A : Type ℓ} (k n : ℕ) (m : Prog A) → k ≤ n → Starts k m → Starts n m
Starts-le k n m le s = record { bound = λ w. omega (arith, s.bound w) }

run_on-started {ℓ} :
    {A : Type ℓ} (f : Shared → Result A × Shared) (w : World) (ts : List Turn)
    → (run_on f w ts).1.started ≡ w.started
run_on-started f w [] = refl
run_on-started f w (t ∷ ts) = elim (Bool-cases t.fails) [ inl e ↦ rw e refl | inr e ↦ rw e refl ]

pass-started : (w : World) (ts : List Turn) → (pass w ts).started ≡ w.started
pass-started w [] = refl
pass-started w (t ∷ ts) = refl

module _ {n : ℕ} where
  pub pure-Starts {ℓ} : {A : Type ℓ} (a : A) → Starts n (pure a)
  pure-Starts a = record { bound = λ w. omega arith }

  -- Only what follows starts anything.
  pub bind-Starts {ℓ κ} :
      {A : Type ℓ} {B : Type κ} {m : Prog A} {f : A → Prog B}
      → Starts 0 m
      → ((a : A) → Starts n (f a))
      → Starts n (m >>= f)
  bind-Starts {m = m} {f} sm sf = record {
    bound = λ w. omega (arith, sm.bound w, (sf (m w).0).bound (m w).1);
  }

  -- Only what comes first starts anything.
  pub first-Starts {ℓ κ} :
      {A : Type ℓ} {B : Type κ} {m : Prog A} {f : A → Prog B}
      → Starts n m
      → ((a : A) → Starts 0 (f a))
      → Starts n (m >>= f)
  first-Starts {m = m} {f} sm sf = record {
    bound = λ w. omega (arith, sm.bound w, (sf (m w).0).bound (m w).1);
  }

  pub then-Starts {ℓ κ} :
      {A : Type ℓ} {B : Type κ} {m : Prog A} {k : Prog B}
      → Starts 0 m
      → Starts n k
      → Starts n (m >> k)
  then-Starts {m = m} {k} sm sk = record {
    bound = λ w. omega (arith, sm.bound w, sk.bound (m w).1);
  }

  pub check-Starts {ℓ κ} :
      {A : Type ℓ} {B : Type κ} (a : Result A) {h : Error → Prog B} {k : A → Prog B}
      → ((e : Error) → Starts n (h e))
      → ((x : A) → Starts n (k x))
      → Starts n (check a h k)
  check-Starts (ok a) sh sk = record { bound = (sk a).bound }
  check-Starts (err e) sh sk = record { bound = (sh e).bound }

  pub if-Starts {ℓ} :
      {A : Type ℓ} (b : Bool) {m k : Prog A}
      → Starts n m
      → Starts n k
      → Starts n (if b then m else k)
  if-Starts true sm sk = sm
  if-Starts false sm sk = sk

  pub statement-Starts {ℓ} : {A : Type ℓ} (f : Shared → Result A × Shared) → Starts n (statement f)
  unfolding statement
  statement-Starts f = record { bound = λ w. rw (run_on-started f w w.turns) (omega arith) }

  pub query-Starts {ℓ} : {A : Type ℓ} (f : Shared → Result A) → Starts n (query f)
  query-Starts f = record { bound = (statement-Starts (λ s. (f s, s))).bound }

  pub exec-Starts : (f : Shared → Shared) → Starts n (exec f)
  exec-Starts f = record { bound = (statement-Starts (λ s. (ok tt, f s))).bound }

  pub pause-Starts : Starts n pause
  unfolding pause
  pause-Starts = record { bound = λ w. rw (pass-started w w.turns) (omega arith) }

-- A `go` statement, and what returns after it.
pub spawn-Starts {ℓ} : {A : Type ℓ} (j : Job) (a : A) → Starts 1 (spawn j >> pure a)
unfolding spawn
spawn-Starts j a = record { bound = λ w. omega (arith, length-append w.started (j ∷ [])) }

pub ruleset starts_rules = (
  pure-Starts, bind-Starts, then-Starts, check-Starts, if-Starts, statement-Starts, query-Starts,
  exec-Starts, pause-Starts, spawn-Starts,
)
