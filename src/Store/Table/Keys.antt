-- ===== src/Store/Table/Keys.antt =====
-- Keys stay unique under the merges.
use gh_audit.Prelude.{
  ◌≡◌, refl, ◌∙◌, subst, ◌≢◌, inl, inr, false, none, List, [], ◌∷◌, ◌++◌, map, arith, Bool-cases,
  Equality, ◌==◌, nat_eq, text_eq, any, select,
}
use gh_audit.Store.Table.{
  row_at, put_row, put_rows, last_wins, is_absent, bulk_upsert, bulk_insert_if_absent,
}
use gh_audit.Store.Table.Merge.{
  last_at, same_self, row_at-put_row, row_at-append, row_at-none_of_any, last_at-none_of_any,
  row_at-last_wins,
}

module _ {R K : Type 0} ⦃keys : Equality K⦄ (key : R → K) where
  -- PRIMARY KEY: no two rows with one key.
  abbrev pub IsKeyed : List R → Type 0
  IsKeyed [] = Unit {0}
  IsKeyed (r ∷ rows) = (row_at key (key r) rows ≡ none) × IsKeyed rows

  put_row-IsKeyed : (r : R) (rows : List R) → IsKeyed rows → IsKeyed (put_row key r rows)
  unfolding put_row
  put_row-IsKeyed r [] h = (unfold row_at in refl, tt)
  put_row-IsKeyed r (x ∷ rows) h = elim (Bool-cases (key x == key r)) [
    | inl same ↦
        rw same (subst (λ k. row_at key k rows ≡ none) ((keys.same_iff _ _).0 same) h.0, h.1)
    | inr other ↦ rw other (
      row_at-put_row key (key x) r rows
          ∙ ground
              (arith, other, h.0, keys.same_iff (key x) (key r), keys.same_iff (key r) (key x)),
      put_row-IsKeyed r rows h.1,
    )
  ]

  put_rows-IsKeyed : (rows table : List R) → IsKeyed table → IsKeyed (put_rows key rows table)
  unfolding put_rows
  put_rows-IsKeyed [] table h = h
  put_rows-IsKeyed (r ∷ rows) table h =
      put_rows-IsKeyed rows (put_row key r table) (put_row-IsKeyed r table h)

  bulk_upsert-IsKeyed :
      (pre_merge : List R → R → R) (rows table : List R)
      → IsKeyed table
      → IsKeyed (bulk_upsert key pre_merge rows table)
  unfolding bulk_upsert
  bulk_upsert-IsKeyed pre_merge rows table h =
      put_rows-IsKeyed (last_wins key (map (pre_merge table) rows)) table h

  last_wins-IsKeyed : (rows : List R) → IsKeyed (last_wins key rows)
  unfolding last_wins
  last_wins-IsKeyed [] = tt
  last_wins-IsKeyed (r ∷ rows) = elim (Bool-cases (any (λ x. key x == key r) rows)) [
    | inl later ↦ rw later (last_wins-IsKeyed rows)
    | inr last ↦ rw last (
      row_at-last_wins key (key r) rows ∙ last_at-none_of_any key (key r) rows last,
      last_wins-IsKeyed rows,
    )
  ]

  append-IsKeyed :
      (xs ys : List R)
      → IsKeyed xs
      → IsKeyed ys
      → ((k : K) → row_at key k xs ≢ none → row_at key k ys ≡ none)
      → IsKeyed (xs ++ ys)
  append-IsKeyed [] ys h g apart = g
  append-IsKeyed (x ∷ xs) ys h g apart = (
    row_at-append key (key x) xs ys
        ∙ rw h.0 (apart (key x) (unfold row_at in ground (arith, same_self key (key x)))),
    append-IsKeyed xs ys h.1 g (λ k there. apart k (unfold row_at in ground (arith, there))),
  )

  last_at-select-none :
      (k : K) (table rows : List R)
      → row_at key k table ≢ none
      → last_at key k (select (is_absent key table) rows) ≡ none
  unfolding last_at is_absent
  last_at-select-none k table [] h = refl
  last_at-select-none k table (r ∷ rows) h = elim (Bool-cases (key r == k)) [
    | inr other ↦ ground (arith, other, last_at-select-none k table rows h)
    | inl here ↦ elim (Bool-cases (any (λ x. key x == key r) table)) [
      | inl there ↦ rw there (last_at-select-none k table rows h)
      | inr absent ↦ absurd (
          h (
            row_at-none_of_any key k table (
              subst (λ j. any (λ x. key x == j) table ≡ false) ((keys.same_iff _ _).0 here)
                absent)))
    ]
  ]

  bulk_insert_if_absent-IsKeyed :
      (rows table : List R) → IsKeyed table → IsKeyed (bulk_insert_if_absent key rows table)
  unfolding bulk_insert_if_absent
  bulk_insert_if_absent-IsKeyed rows table h =
      append-IsKeyed table _ h (last_wins-IsKeyed (select (is_absent key table) rows))
        (λ k there. row_at-last_wins key k _ ∙ last_at-select-none k table rows there)
