-- ===== src/Store/Table.antt =====
-- internal/db/appender.go: batches of rows merged into a table with a primary key. The order of the
-- rows of a table has no meaning in SQL: a list of rows stands for the rows that `row_at` finds.
pub mod Merge
pub mod Keys
pub mod Present
pub mod Order
use gh_audit.Prelude.{
  ◌+◌, ◌≡◌, ◌↔◌, Bool, true, not, ◌&&◌, Option, none, some, List, [], ◌∷◌, ◌++◌, map, arith,
  if◌then◌else◌, Equality, ◌==◌, nat_eq, text_eq, any, select,
}

-- The columns of a primary key, compared one by one.
pub record Columns (A B : Type 0) : Type 0 where
  pub first : A
  pub others : B

infixr 66 ◌&◌
abbrev pub ◌&◌ : {A B : Type 0} → A → B → Columns A B
a & b = record { first = a; others = b }

abbrev pub same_columns :
    {A B : Type 0} → Equality A → Equality B → Columns A B → Columns A B → Bool
same_columns p q x y = p.same x.first y.first && q.same x.others y.others

pub same_columns_iff :
    {A B : Type 0} (p : Equality A) (q : Equality B) (x y : Columns A B)
    → (same_columns p q x y ≡ true) ↔ (x ≡ y)
same_columns_iff p q x y = ground (arith, p.same_iff x.first y.first, q.same_iff x.others y.others)

instance abbrev pub columns_eq :
    {A B : Type 0} ⦃p : Equality A⦄ ⦃q : Equality B⦄ → Equality (Columns A B)
columns_eq ⦃p⦄ ⦃q⦄ = record { same = same_columns p q; same_iff = same_columns_iff p q }

abbrev pub or_row : {A : Type 0} → Option A → Option A → Option A
or_row none later = later
or_row (some a) later = some a

module _ {R K : Type 0} ⦃keys : Equality K⦄ (key : R → K) where
  -- SELECT … WHERE key = k
  unfoldable pub row_at : K → List R → Option R
  row_at k [] = none
  row_at k (r ∷ rows) = let rest = row_at k rows in if key r == k then some r else rest

  -- INSERT OR REPLACE of one row.
  unfoldable pub put_row : R → List R → List R
  put_row r [] = r ∷ []
  put_row r (x ∷ rows) = let rest = put_row r rows in if key x == key r then r ∷ rows else x ∷ rest

  unfoldable pub put_rows : List R → List R → List R
  unfolding put_row
  put_rows [] table = table
  put_rows (r ∷ rows) table = put_rows rows (put_row r table)

  -- QUALIFY ROW_NUMBER() OVER (PARTITION BY key ORDER BY rowid DESC) = 1
  unfoldable pub last_wins : List R → List R
  last_wins [] = []
  last_wins (r ∷ rows) =
      let rest = last_wins rows in if any (λ x. key x == key r) rows then rest else r ∷ rest

  -- NOT EXISTS (SELECT 1 FROM table WHERE key = the row's key)
  unfoldable pub is_absent : List R → R → Bool
  is_absent table r = not (any (λ x. key x == key r) table)

  -- bulkUpsert; `pre_merge` is what the statement before the merge does to a staged row.
  unfoldable pub bulk_upsert : (List R → R → R) → List R → List R → List R
  unfolding put_rows last_wins
  bulk_upsert pre_merge rows table = put_rows (last_wins (map (pre_merge table) rows)) table

  -- bulkInsertIfAbsent
  unfoldable pub bulk_insert_if_absent : List R → List R → List R
  unfolding is_absent last_wins
  bulk_insert_if_absent rows table = table ++ last_wins (select (is_absent table) rows)

-- No statement before the merge.
abbrev pub as_staged : {R : Type 0} → List R → R → R
as_staged table r = r

-- ORDER BY, where rows that the order does not tell apart keep their places.
module _ {R : Type 0} (leq : R → R → Bool) where
  unfoldable pub insert_by : R → List R → List R
  insert_by r [] = r ∷ []
  insert_by r (x ∷ rows) = let rest = insert_by r rows in if leq r x then r ∷ x ∷ rows else x ∷ rest

  unfoldable pub order_by : List R → List R
  unfolding insert_by
  order_by [] = []
  order_by (r ∷ rows) = insert_by r (order_by rows)
