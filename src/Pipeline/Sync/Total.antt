-- ===== src/Pipeline/Sync/Total.antt =====
-- Parts of a run that end, when enough of their statements can take effect.
use gh_audit.Prelude.{
  ℕ, suc, ◌+◌, ◌≡◌, refl, ap, ◌∙◌, Option, some, List, [], ◌∷◌, arith, nat_eq, text_eq, length,
}
use gh_audit.Store.Rows.{Store}
use gh_audit.Pipeline.Batch.{Statement, perform}
use gh_audit.Pipeline.Batch.Crash.{run_all}
use gh_audit.Pipeline.Sync.{Sync, then_run, ◌>>=◌, pure, try_write, counted, logged}

-- From these tables the part ends, with the tables that it leaves and its value, after a number of
-- statements.
pub record Ends {A : Type 0} (m : Sync A) (s : Store) : Type 0 where
  pub cost : ℕ
  pub left : Store
  pub value : A
  pub ends : (reach : ℕ) → m (reach + cost) s ≡ (left, some (reach, value))

pub pure-Ends : {A : Type 0} (a : A) (s : Store) → Ends (pure a) s
pure-Ends a s = record {
  cost = 0;
  left = s;
  value = a;
  ends = λ reach. ap (λ n. (s, some (n, a))) (omega arith);
}

then_run_ended :
    {A B : Type 0} (x : Store × Option (ℕ × A)) (k : A → Sync B) (t : Store) (reach : ℕ) (a : A)
    → x ≡ (t, some (reach, a))
    → then_run x k ≡ k a reach t
then_run_ended x k t reach a e = rw e refl

pub bind-Ends :
    {A B : Type 0} (m : Sync A) (k : A → Sync B) (s : Store)
    → (first : Ends m s) → Ends (k first.value) first.left
    → Ends (m >>= k) s
bind-Ends m k s first next = record {
  cost = next.cost + first.cost;
  left = next.left;
  value = next.value;
  ends = λ reach.
      ap (λ n. then_run (m n s) k) (omega arith)
      ∙ then_run_ended (m (reach + next.cost + first.cost) s) k first.left (reach + next.cost)
          first.value (first.ends (reach + next.cost))
      ∙ next.ends reach;
}

perform-ends :
    (ws : List Statement) (reach : ℕ) (s : Store)
    → perform (reach + length ws) ws s ≡ (run_all ws s, some reach)
unfolding perform run_all
perform-ends [] reach s = ap (λ n. (s, some n)) (omega arith)
perform-ends (w ∷ ws) reach s =
    ap (λ n. perform n (w ∷ ws) s) (more reach (length ws)) ∙ perform-ends ws reach (w s)
  where
    more : (a b : ℕ) → a + suc b ≡ suc (a + b)
    more a b = omega arith

pub perform-Ends :
    (ws : List Statement) (s : Store) → Ends (λ reach s. counted (perform reach ws s)) s
perform-Ends ws s = record {
  cost = length ws;
  left = run_all ws s;
  value = tt;
  ends = λ reach. ap counted (perform-ends ws reach s);
}

pub try_write-Ends : (ws : List Statement) (s : Store) → Ends (try_write ws) s
try_write-Ends ws s = record {
  cost = length ws;
  left = run_all ws s;
  value = tt;
  ends = λ reach. ap logged (perform-ends ws reach s);
}
