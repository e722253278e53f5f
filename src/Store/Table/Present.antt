-- ===== src/Store/Table/Present.antt =====
-- Which keys have a row after a merge.
use gh_audit.Prelude.{
  subst, ◌≡◌, refl, sym, ap, ◌∙◌, ◌≢◌, inl, inr, Option, none, some, List, [], ◌∷◌, map, Memᴰ,
  arith, Bool-cases, Equality, ◌==◌, nat_eq, text_eq,
}
use gh_audit.Store.Table.{row_at, or_row, bulk_upsert, bulk_insert_if_absent, as_staged}
use gh_audit.Store.Table.Merge.{
  last_at, row_at-bulk_upsert, row_at-bulk_insert_if_absent, last_at-Memᴰ,
}

pub map-Memᴰ : {A B : Type 0} (f : A → B) {a : A} {xs : List A} → Memᴰ a xs → Memᴰ (f a) (map f xs)
map-Memᴰ f (Memᴰ.head e) = Memᴰ.head (ap f e)
map-Memᴰ f (Memᴰ.tail m) = Memᴰ.tail (map-Memᴰ f m)

or_row-left : {A : Type 0} (x y : Option A) → x ≢ none → or_row x y ≢ none
or_row-left none y h e = h refl
or_row-left (some a) y h e = cc

or_row-right : {A : Type 0} (x y : Option A) → y ≢ none → or_row x y ≢ none
or_row-right none y h e = h e
or_row-right (some a) y h e = cc

module _ {R K : Type 0} ⦃keys : Equality K⦄ (key : R → K) where
  abbrev pub IsThere : K → List R → Type 0
  IsThere k table = row_at key k table ≢ none

  pub bulk_upsert-IsThere :
      (pre_merge : List R → R → R) (rows table : List R) (k : K)
      → IsThere k table
      → IsThere k (bulk_upsert key pre_merge rows table)
  bulk_upsert-IsThere pre_merge rows table k h e =
      or_row-right (last_at key k (map (pre_merge table) rows)) (row_at key k table) h
        (sym (row_at-bulk_upsert key pre_merge k rows table) ∙ e)

  pub bulk_upsert-adds :
      (rows table : List R) (r : R)
      → Memᴰ r rows
      → IsThere (key r) (bulk_upsert key as_staged rows table)
  bulk_upsert-adds rows table r m e =
      or_row-left (last_at key (key r) (map (as_staged table) rows)) (row_at key (key r) table)
        (last_at-Memᴰ key (map-Memᴰ (as_staged table) m))
        (sym (row_at-bulk_upsert key as_staged (key r) rows table) ∙ e)

  pub bulk_insert_if_absent-IsThere :
      (rows table : List R) (k : K)
      → IsThere k table
      → IsThere k (bulk_insert_if_absent key rows table)
  bulk_insert_if_absent-IsThere rows table k h e =
      or_row-left (row_at key k table) (last_at key k rows) h
        (sym (row_at-bulk_insert_if_absent key k rows table) ∙ e)

  pub bulk_insert_if_absent-adds :
      (rows table : List R) (r : R)
      → Memᴰ r rows
      → IsThere (key r) (bulk_insert_if_absent key rows table)
  bulk_insert_if_absent-adds rows table r m e =
      or_row-right (row_at key (key r) table) (last_at key (key r) rows) (last_at-Memᴰ key m)
        (sym (row_at-bulk_insert_if_absent key (key r) rows table) ∙ e)

  pub map-IsThere :
      (f : R → R)
      → ((r : R) → key (f r) ≡ key r)
      → (k : K) (table : List R) → IsThere k table
      → IsThere k (map f table)
  unfolding row_at
  map-IsThere f same k [] h = h
  map-IsThere f same k (r ∷ table) h = elim (Bool-cases (key r == k)) [
    | inl here ↦ rw (same r, here) (λ e. cc)
    | inr other ↦ rw (same r, other) (map-IsThere f same k table (ground (arith, h, other)))
  ]

  -- The same where a statement before the merge changes the staged rows, but no key.
  pub bulk_upsert-adds_merged :
      (pre_merge : List R → R → R) (rows table : List R) (r : R)
      → key (pre_merge table r) ≡ key r
      → Memᴰ r rows
      → IsThere (key r) (bulk_upsert key pre_merge rows table)
  bulk_upsert-adds_merged pre_merge rows table r same m e =
      or_row-left (last_at key (key r) (map (pre_merge table) rows)) (row_at key (key r) table)
        (subst (λ k. last_at key k (map (pre_merge table) rows) ≢ none) same
          (last_at-Memᴰ key (map-Memᴰ (pre_merge table) m)))
        (sym (row_at-bulk_upsert key pre_merge (key r) rows table) ∙ e)
