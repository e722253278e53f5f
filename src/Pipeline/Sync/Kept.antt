-- ===== src/Pipeline/Sync/Kept.antt =====
-- What every part of a run keeps, the run keeps, whether it ends or fails.
use gh_audit.Prelude.{
  ℕ, zero, suc, ◌≡◌, refl, ap, Option, none, some, List, [], ◌∷◌, ◌++◌, nat_eq, text_eq, Outcome,
  ok, failed,
}
use gh_audit.Store.Rows.{Store}
use gh_audit.Pipeline.Batch.{Statement, perform}
use gh_audit.Pipeline.Sync.{Sync, then_run, ◌>>=◌, ask, write, try_write, counted, logged}

-- A relation of the tables before and after.
pub record Lasting : Type 1 where
  pub Kept : Store → Store → Type 0
  pub same : (s : Store) → Kept s s
  pub chain : (s t u : Store) → Kept s t → Kept t u → Kept s u

module _ (l : Lasting) where
  abbrev pub Keeps : {A : Type 0} → Sync A → Type 0
  Keeps m = (reach : ℕ) (s : Store) → l.Kept s (m reach s).0

  then_run-Kept :
      {A B : Type 0} (s : Store) (x : Store × Option (ℕ × A)) (k : A → Sync B)
      → l.Kept s x.0
      → ((a : A) → Keeps (k a))
      → l.Kept s (then_run x k).0
  then_run-Kept s (t, none) k h g = h
  then_run-Kept s (t, some (reach, a)) k h g = l.chain s t (k a reach t).0 h (g a reach t)

  pub bind-Keeps :
      {A B : Type 0} (m : Sync A) (k : A → Sync B)
      → Keeps m
      → ((a : A) → Keeps (k a))
      → Keeps (m >>= k)
  bind-Keeps m k h g reach s = then_run-Kept s (m reach s) k (h reach s) g

  pub ask-Keeps : {A : Type 0} (o : Outcome A) → Keeps (ask o)
  ask-Keeps failed reach s = l.same s
  ask-Keeps (ok a) reach s = l.same s

  abbrev pub AllKeep : List Statement → Type 0
  AllKeep [] = Unit {0}
  AllKeep (w ∷ ws) = ((s : Store) → l.Kept s (w s)) × AllKeep ws

  pub perform-Kept :
      (ws : List Statement) (reach : ℕ) (s : Store) → AllKeep ws → l.Kept s (perform reach ws s).0
  unfolding perform
  perform-Kept [] reach s h = l.same s
  perform-Kept (w ∷ ws) zero s h = l.same s
  perform-Kept (w ∷ ws) (suc reach) s h =
      l.chain s (w s) (perform reach ws (w s)).0 (h.0 s) (perform-Kept ws reach (w s) h.1)

  counted-Kept : (s : Store) (x : Store × Option ℕ) → l.Kept s x.0 → l.Kept s (counted x).0
  counted-Kept s (t, none) h = h
  counted-Kept s (t, some reach) h = h

  logged-Kept : (s : Store) (x : Store × Option ℕ) → l.Kept s x.0 → l.Kept s (logged x).0
  logged-Kept s (t, none) h = h
  logged-Kept s (t, some reach) h = h

  pub counted-Keeps :
      (f : ℕ → Store → Store × Option ℕ)
      → ((reach : ℕ) (s : Store) → l.Kept s (f reach s).0)
      → Keeps (λ reach s. counted (f reach s))
  counted-Keeps f h reach s = counted-Kept s (f reach s) (h reach s)

  pub write-Keeps : (ws : List Statement) → AllKeep ws → Keeps (write ws)
  write-Keeps ws h reach s = counted-Kept s (perform reach ws s) (perform-Kept ws reach s h)

  pub try_write-Keeps : (ws : List Statement) → AllKeep ws → Keeps (try_write ws)
  try_write-Keeps ws h reach s = logged-Kept s (perform reach ws s) (perform-Kept ws reach s h)

pub append-AllKeep :
    (l : Lasting) (ws vs : List Statement) → AllKeep l ws → AllKeep l vs → AllKeep l (ws ++ vs)
append-AllKeep l [] vs h g = g
append-AllKeep l (w ∷ ws) vs h g = (h.0, append-AllKeep l ws vs h.1 g)

-- A run that ends has ended each of its parts.
pub then_run-some :
    {A B : Type 0} (x : Store × Option (ℕ × A)) (k : A → Sync B) {t : Store} {out : ℕ × B}
    → then_run x k ≡ (t, some out)
    → (s : Store) × (reach : ℕ) × (a : A) × (x ≡ (s, some (reach, a)))
      × (k a reach s ≡ (t, some out))
then_run-some (s, none) k h = absurd (cc (ap (λ x. x.1) h))
then_run-some (s, some (reach, a)) k h = (s, reach, a, refl, h)
