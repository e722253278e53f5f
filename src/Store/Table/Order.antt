-- ===== src/Store/Table/Order.antt =====
-- What a query finds of the rows of a table.
use gh_audit.Prelude.{
  on_if, ◌≡◌, refl, sym, subst, inl, inr, Bool, true, List, [], ◌∷◌, Memᴰ, arith, Bool-cases,
  Equality, ◌==◌, nat_eq, text_eq, any,
}
use gh_audit.Store.Table.{row_at, insert_by, order_by}
use gh_audit.Store.Table.Present.{IsThere}

module _ {R : Type 0} (leq : R → R → Bool) where
  insert_by-here : (r : R) (rows : List R) → Memᴰ r (insert_by leq r rows)
  unfolding insert_by
  insert_by-here r [] = Memᴰ.head refl
  insert_by-here r (x ∷ rows) =
      on_if (λ l. Memᴰ r l) _ (Memᴰ.head refl) (Memᴰ.tail (insert_by-here r rows))

  insert_by-Memᴰ : {x : R} (r : R) (rows : List R) → Memᴰ x rows → Memᴰ x (insert_by leq r rows)
  unfolding insert_by
  insert_by-Memᴰ r [] m = elim m [ ]
  insert_by-Memᴰ {x} r (y ∷ rows) (Memᴰ.head e) =
      on_if (λ l. Memᴰ x l) _ (Memᴰ.tail (Memᴰ.head e)) (Memᴰ.head e)
  insert_by-Memᴰ {x} r (y ∷ rows) (Memᴰ.tail m) =
      on_if (λ l. Memᴰ x l) _ (Memᴰ.tail (Memᴰ.tail m)) (Memᴰ.tail (insert_by-Memᴰ r rows m))

  pub order_by-Memᴰ : {x : R} (rows : List R) → Memᴰ x rows → Memᴰ x (order_by leq rows)
  unfolding order_by
  order_by-Memᴰ [] m = elim m [ ]
  order_by-Memᴰ {x} (y ∷ rows) (Memᴰ.head e) =
      subst (λ z. Memᴰ z (insert_by leq y (order_by leq rows))) (sym e)
        (insert_by-here y (order_by leq rows))
  order_by-Memᴰ (y ∷ rows) (Memᴰ.tail m) =
      insert_by-Memᴰ y (order_by leq rows) (order_by-Memᴰ rows m)

module _ {R K : Type 0} ⦃keys : Equality K⦄ (key : R → K) where
  pub row_of : (k : K) (table : List R) → IsThere key k table → (r : R) × Memᴰ r table × (key r ≡ k)
  unfolding row_at
  row_of k [] there = absurd (there refl)
  row_of k (r ∷ table) there = elim (Bool-cases (key r == k)) [
    | inl here ↦ (r, Memᴰ.head refl, (keys.same_iff (key r) k).0 here)
    | inr other ↦
        let (x, m, e) = row_of k table (ground (arith, there, other)) in (x, Memᴰ.tail m, e)
  ]

  pub any-IsThere :
      (k : K) (table : List R) → any (λ r. key r == k) table ≡ true → IsThere key k table
  unfolding row_at
  any-IsThere k [] h = absurd (cc)
  any-IsThere k (r ∷ table) h = elim (Bool-cases (key r == k)) [
    | inl here ↦ rw here (λ e. cc)
    | inr other ↦ rw other (any-IsThere k table (ground (arith, h, other)))
  ]
