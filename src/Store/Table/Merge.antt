-- ===== src/Store/Table/Merge.antt =====
-- What the merges leave under each key, and that keys stay unique.
use gh_audit.Prelude.{
  ap, ◌≡◌, refl, sym, ◌∙◌, subst, ◌≢◌, inl, inr, true, false, Option, none, some, List, [], ◌∷◌,
  ◌++◌, map, Memᴰ, arith, if◌then◌else◌, Bool-cases, Option-cases, Equality, ◌==◌, nat_eq, text_eq,
  any, select, any_intro,
}
use gh_audit.Store.Table.{
  row_at, put_row, put_rows, last_wins, is_absent, bulk_upsert, bulk_insert_if_absent, or_row,
}

module _ {R K : Type 0} ⦃keys : Equality K⦄ (key : R → K) where
  -- The last of the rows with a key.
  unfoldable pub last_at : K → List R → Option R
  last_at k [] = none
  last_at k (r ∷ rows) = or_row (last_at k rows) (if key r == k then some r else none)

  pub same_self : (k : K) → keys.same k k ≡ true
  same_self k = (keys.same_iff k k).1 refl

  pub row_at-put_row :
      (k : K) (r : R) (rows : List R)
      → row_at key k (put_row key r rows) ≡ (if key r == k then some r else row_at key k rows)
  unfolding row_at put_row
  row_at-put_row k r [] = refl
  row_at-put_row k r (x ∷ rows) = ground (
    arith,
    keys.same_iff (key x) (key r),
    keys.same_iff (key x) k,
    keys.same_iff (key r) k,
    row_at-put_row k r rows,
  )

  row_at-put_rows :
      (k : K) (rows table : List R)
      → row_at key k (put_rows key rows table) ≡ or_row (last_at k rows) (row_at key k table)
  unfolding put_rows last_at
  row_at-put_rows k [] table = refl
  row_at-put_rows k (r ∷ rows) table =
      ground (arith, row_at-put_rows k rows (put_row key r table), row_at-put_row k r table)

  last_at-any : (k : K) (rows : List R) → any (λ x. key x == k) rows ≡ true → last_at k rows ≢ none
  unfolding last_at
  last_at-any k [] h e = cc
  last_at-any k (r ∷ rows) h e = ground (arith, last_at-any k rows)

  last_at-replaced :
      (k : K) (r : R) (rows : List R)
      → any (λ x. key x == key r) rows ≡ true
      → last_at k (r ∷ rows) ≡ last_at k rows
  unfolding last_at
  last_at-replaced k r rows h = elim (Bool-cases (key r == k)) [
    | inr other ↦ ground (arith, other)
    | inl here ↦ ground (
      arith,
      here,
      subst (λ j. last_at j rows ≢ none) ((keys.same_iff _ _).0 here) (last_at-any (key r) rows h),
    )
  ]

  last_at-same :
      (k : K) (r : R) (xs ys : List R)
      → last_at k xs ≡ last_at k ys
      → last_at k (r ∷ xs) ≡ last_at k (r ∷ ys)
  unfolding last_at
  last_at-same k r xs ys e = rw e refl

  last_at-last_wins : (k : K) (rows : List R) → last_at k (last_wins key rows) ≡ last_at k rows
  unfolding last_wins
  last_at-last_wins k [] = refl
  last_at-last_wins k (r ∷ rows) = elim (Bool-cases (any (λ x. key x == key r) rows)) [
    | inl later ↦ rw later (last_at-last_wins k rows ∙ sym (last_at-replaced k r rows later))
    | inr last ↦ rw last (last_at-same k r _ rows (last_at-last_wins k rows))
  ]

  -- After an upsert a key has the last of its staged rows, or else the row it had.
  pub row_at-bulk_upsert :
      (pre_merge : List R → R → R) (k : K) (rows table : List R)
      → row_at key k (bulk_upsert key pre_merge rows table)
        ≡ or_row (last_at k (map (pre_merge table) rows)) (row_at key k table)
  unfolding bulk_upsert
  row_at-bulk_upsert pre_merge k rows table = rw (row_at-put_rows k, last_at-last_wins k) refl

  pub row_at-append :
      (k : K) (xs ys : List R)
      → row_at key k (xs ++ ys) ≡ or_row (row_at key k xs) (row_at key k ys)
  unfolding row_at
  row_at-append k [] ys = refl
  row_at-append k (x ∷ xs) ys = ground (arith, row_at-append k xs ys)

  pub row_at-none_of_any :
      (k : K) (rows : List R) → any (λ x. key x == k) rows ≡ false → row_at key k rows ≡ none
  unfolding row_at
  row_at-none_of_any k [] h = refl
  row_at-none_of_any k (r ∷ rows) h = ground (arith, row_at-none_of_any k rows)

  any_of_row_at :
      (k : K) (rows : List R) → row_at key k rows ≡ none → any (λ x. key x == k) rows ≡ false
  unfolding row_at
  any_of_row_at k [] h = refl
  any_of_row_at k (r ∷ rows) h = ground (arith, any_of_row_at k rows)

  pub last_at-none_of_any :
      (k : K) (rows : List R) → any (λ x. key x == k) rows ≡ false → last_at k rows ≡ none
  unfolding last_at
  last_at-none_of_any k [] h = refl
  last_at-none_of_any k (r ∷ rows) h = ground (arith, last_at-none_of_any k rows)

  row_at-empty : (k : K) → row_at key k [] ≡ last_at k []
  unfolding row_at last_at
  row_at-empty k = refl

  row_at-lone :
      (k : K) (r : R) (xs rows : List R)
      → any (λ x. key x == key r) rows ≡ false
      → row_at key k xs ≡ last_at k rows
      → row_at key k (r ∷ xs) ≡ last_at k (r ∷ rows)
  unfolding row_at last_at
  row_at-lone k r xs rows h e = elim (Bool-cases (key r == k)) [
    | inr other ↦ ground (arith, other, e)
    | inl here ↦ ground (
      arith,
      here,
      subst (λ j. last_at j rows ≡ none) ((keys.same_iff _ _).0 here)
          (last_at-none_of_any (key r) rows h),
    )
  ]

  -- Of rows without a second one of a key, the first found is the last.
  pub row_at-last_wins :
      (k : K) (rows : List R) → row_at key k (last_wins key rows) ≡ last_at k rows
  unfolding last_wins
  row_at-last_wins k [] = row_at-empty k
  row_at-last_wins k (r ∷ rows) = elim (Bool-cases (any (λ x. key x == key r) rows)) [
    | inl later ↦ rw later (row_at-last_wins k rows ∙ sym (last_at-replaced k r rows later))
    | inr last ↦ rw last (row_at-lone k r _ rows last (row_at-last_wins k rows))
  ]

  last_at-select :
      (k : K) (table rows : List R)
      → row_at key k table ≡ none
      → last_at k (select (is_absent key table) rows) ≡ last_at k rows
  unfolding last_at is_absent
  last_at-select k table [] h = refl
  last_at-select k table (r ∷ rows) h = elim (Bool-cases (key r == k)) [
    | inl here ↦ ground (
      arith,
      here,
      last_at-select k table rows h,
      subst (λ j. any (λ x. key x == j) table ≡ false) (sym ((keys.same_iff _ _).0 here))
          (any_of_row_at k table h),
    )
    | inr other ↦ ground (arith, other, last_at-select k table rows h)
  ]

  -- After an insertion of absent rows a key has the row it had, or else the last of the new rows.
  pub row_at-bulk_insert_if_absent :
      (k : K) (rows table : List R)
      → row_at key k (bulk_insert_if_absent key rows table)
        ≡ or_row (row_at key k table) (last_at k rows)
  unfolding bulk_insert_if_absent
  row_at-bulk_insert_if_absent k rows table = elim (Option-cases (row_at key k table)) [
    | inl none_there ↦
        rw (row_at-append k, row_at-last_wins k, none_there, last_at-select k table rows none_there)
          refl
    | inr (old, there) ↦ rw (row_at-append k, there) refl
  ]

  -- Every row of a batch leaves a row under its key.
  pub last_at-Memᴰ : {r : R} {rows : List R} → Memᴰ r rows → last_at (key r) rows ≢ none
  last_at-Memᴰ {r} {rows} m =
      last_at-any (key r) rows (any_intro (λ x. key x == key r) m (same_self (key r)))

  -- The last row with a key, of rows that a function makes, is made of one of them and has the key.
  pub last_at-map :
      {X : Type 0} (f : X → R) (k : K) (xs : List X) {r : R}
      → last_at k (map f xs) ≡ some r
      → (x : X) × Memᴰ x xs × (f x ≡ r) × (key r ≡ k)
  unfolding last_at
  last_at-map f k [] h = absurd cc
  last_at-map f k (x ∷ xs) {r} h = elim (Option-cases (last_at k (map f xs))) [
    | inr (y, e) ↦
        let (z, m, same, at) = last_at-map f k xs {r = r} (e ∙ ap some (ground (arith, h, e))) in
        (z, Memᴰ.tail m, same, at)
    | inl e ↦ elim (Bool-cases (key (f x) == k)) [
      | inl here ↦
          let same : f x ≡ r = ground (arith, h, e, here) in
          (x, Memᴰ.head refl, same, ap key (sym same) ∙ (keys.same_iff _ _).0 here)
      | inr other ↦ absurd (ground (arith, h, e, other))
    ]
  ]
