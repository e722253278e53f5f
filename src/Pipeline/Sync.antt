-- ===== src/Pipeline/Sync.antt =====
-- How a run proceeds: its reads, its statements and its calls, up to the first error.
pub mod Kept
pub mod Total
use gh_audit.Prelude.{ℕ, Option, none, some, List, nat_eq, text_eq, Outcome, ok, failed}
use gh_audit.Store.Rows.{Store}
use gh_audit.Pipeline.Batch.{Statement, perform}

-- A part of a run, over the number of statements that can still take effect and the tables. It gives
-- the tables that it leaves, and a value where it meets no error.
abbrev pub Sync : Type 0 → Type 0
Sync A = ℕ → Store → Store × Option (ℕ × A)

abbrev pub then_run :
    {A B : Type 0} → Store × Option (ℕ × A) → (A → Sync B) → Store × Option (ℕ × B)
then_run (s, none) k = (s, none)
then_run (s, some (reach, a)) k = k a reach s

infixl 5 ◌>>=◌ ◌>>◌
abbrev pub ◌>>=◌ : {A B : Type 0} → Sync A → (A → Sync B) → Sync B
◌>>=◌ m k reach s = then_run (m reach s) k

abbrev pub ◌>>◌ : {A B : Type 0} → Sync A → Sync B → Sync B
◌>>◌ m k reach s = then_run (m reach s) (λ a. k)

abbrev pub pure : {A : Type 0} → A → Sync A
pure a reach s = (s, some (reach, a))

-- A query. Where one fails the run ends, and changes nothing, as it does where a call fails.
abbrev pub read : {A : Type 0} → (Store → A) → Sync A
read f reach s = (s, some (reach, f s))

abbrev pub ask : {A : Type 0} → Outcome A → Sync A
ask failed reach s = (s, none)
ask (ok a) reach s = (s, some (reach, a))

abbrev pub counted : Store × Option ℕ → Store × Option (ℕ × Unit {0})
counted (s, none) = (s, none)
counted (s, some reach) = (s, some (reach, tt))

-- DBWriter.Write of a function with these statements.
abbrev pub write : List Statement → Sync (Unit {0})
write ws reach s = counted (perform reach ws s)

-- A write whose error is logged only.
abbrev pub logged : Store × Option ℕ → Store × Option (ℕ × Unit {0})
logged (s, none) = (s, some (0, tt))
logged (s, some reach) = (s, some (reach, tt))

abbrev pub try_write : List Statement → Sync (Unit {0})
try_write ws reach s = logged (perform reach ws s)
