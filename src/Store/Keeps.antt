-- ===== src/Store/Keeps.antt =====
-- Predicates on the shared state that a program keeps, whatever the others do between its statements
-- as long as they keep it too: a rule for each way to build a program.
use vorn_media_server.Prelude.{
  Bool, true, false, Bool-cases, Option, none, some, List, [], ◌∷◌, inl, inr, All, if◌then◌else◌,
}
use vorn_media_server.Store.{Shared}
use vorn_media_server.Store.Prog.{
  Error, Result, ok, err, Turn, World, Prog, pure, ◌>>=◌, ◌>>◌, check, when_some, run_on, statement,
  query, exec, pause, pass, Notice, notify, Job, spawn, touch, look,
}

-- The others keep `P` in each turn that is left.
abbrev pub AreCalm : (Shared → Type 0) → List Turn → Type 0
AreCalm P turns = All (λ t. (s : Shared) → P s → P (t.others s)) turns

-- `P` holds now, and the others keep it.
pub record Calm (P : Shared → Type 0) (w : World) : Type 0 where
  pub holds : P w.shared
  pub calm : AreCalm P w.turns

pub record Keeps {ℓ} {A : Type ℓ} (P : Shared → Type 0) (m : Prog A) : Type ℓ where
  pub at : (w : World) → Calm P w → Calm P (m w).1

module _ {P : Shared → Type 0} where
  pub pure-Keeps {ℓ} : {A : Type ℓ} (a : A) → Keeps P (pure a)
  pure-Keeps a = record { at = λ w c. c }

  pub bind-Keeps {ℓ κ} :
      {A : Type ℓ} {B : Type κ} {m : Prog A} {f : A → Prog B}
      → Keeps P m
      → ((a : A) → Keeps P (f a))
      → Keeps P (m >>= f)
  bind-Keeps {m = m} {f} km kf = record { at = λ w c. (kf (m w).0).at (m w).1 (km.at w c) }

  pub then-Keeps {ℓ κ} :
      {A : Type ℓ} {B : Type κ} {m : Prog A} {k : Prog B} → Keeps P m → Keeps P k → Keeps P (m >> k)
  then-Keeps {m = m} {k} km kk = record { at = λ w c. kk.at (m w).1 (km.at w c) }

  pub check-Keeps {ℓ κ} :
      {A : Type ℓ} {B : Type κ} (a : Result A) {h : Error → Prog B} {k : A → Prog B}
      → ((e : Error) → Keeps P (h e))
      → ((x : A) → Keeps P (k x))
      → Keeps P (check a h k)
  check-Keeps (ok a) kh kk = record { at = (kk a).at }
  check-Keeps (err e) kh kk = record { at = (kh e).at }

  pub if-Keeps {ℓ} :
      {A : Type ℓ} (b : Bool) {m n : Prog A} → Keeps P m → Keeps P n → Keeps P (if b then m else n)
  if-Keeps true km kn = km
  if-Keeps false km kn = kn

  pub when_some-Keeps {ℓ κ} :
      {A : Type ℓ} {B : Type κ} (o : Option A) {m : Prog B} {f : A → Prog B}
      → Keeps P m
      → ((a : A) → Keeps P (f a))
      → Keeps P (when_some o m f)
  when_some-Keeps none km kf = km
  when_some-Keeps (some a) km kf = kf a

  run_on-Calm {ℓ} :
      {A : Type ℓ} (f : Shared → Result A × Shared) (w : World) (ts : List Turn)
      → ((s : Shared) → P s → P (f s).1)
      → Calm P w
      → AreCalm P ts
      → Calm P (run_on f w ts).1
  run_on-Calm f w [] kf c _ = record { holds = kf w.shared c.holds; calm = c.calm }
  run_on-Calm f w (t ∷ ts) kf now (k, c) = elim (Bool-cases t.fails) [
    | inl e ↦ rw e (record { holds = k w.shared now.holds; calm = c })
    | inr e ↦ rw e (record { holds = kf (t.others w.shared) (k w.shared now.holds); calm = c })
  ]

  pub statement-Keeps {ℓ} :
      {A : Type ℓ} (f : Shared → Result A × Shared)
      → ((s : Shared) → P s → P (f s).1)
      → Keeps P (statement f)
  unfolding statement
  statement-Keeps f kf = record { at = λ w c. run_on-Calm f w w.turns kf c c.calm }

  pub query-Keeps {ℓ} : {A : Type ℓ} (f : Shared → Result A) → Keeps P (query f)
  query-Keeps f = record { at = (statement-Keeps (λ s. (f s, s)) (λ s p. p)).at }

  pub exec-Keeps : (f : Shared → Shared) → ((s : Shared) → P s → P (f s)) → Keeps P (exec f)
  exec-Keeps f kf = record { at = (statement-Keeps (λ s. (ok tt, f s)) kf).at }

  pass-Calm : (w : World) (ts : List Turn) → AreCalm P ts → Calm P w → Calm P (pass w ts)
  pass-Calm w [] c now = now
  pass-Calm w (t ∷ ts) (k, c) now = record { holds = k w.shared now.holds; calm = c }

  pub pause-Keeps : Keeps P pause
  unfolding pause
  pause-Keeps = record { at = λ w c. pass-Calm w w.turns c.calm c }

  pub notify-Keeps : (n : Notice) → Keeps P (notify n)
  unfolding notify
  notify-Keeps n = record { at = λ w c. record { holds = c.holds; calm = c.calm } }

  pub spawn-Keeps : (j : Job) → Keeps P (spawn j)
  unfolding spawn
  spawn-Keeps j = record { at = λ w c. record { holds = c.holds; calm = c.calm } }

  pub touch-Keeps : (f : Shared → Shared) → ((s : Shared) → P s → P (f s)) → Keeps P (touch f)
  unfolding touch
  touch-Keeps f kf = record { at = λ w c. record { holds = kf w.shared c.holds; calm = c.calm } }

  pub look-Keeps {ℓ} : {A : Type ℓ} (f : Shared → A) → Keeps P (look f)
  unfolding look
  look-Keeps f = record { at = λ w c. c }

pub ruleset keeps_rules = (
  pure-Keeps, bind-Keeps, then-Keeps, check-Keeps, if-Keeps, when_some-Keeps, query-Keeps,
  pause-Keeps, notify-Keeps, spawn-Keeps, look-Keeps,
)
