-- ===== src/Audit/Contributors/Groups.antt =====
-- The groups of filterNonEmptyContributors: each commit is filed under its author's key.
use gh_audit.Text.{Text}
use gh_audit.Model.{Commit}
use gh_audit.Audit.Contributors.{
  is_anonymous, author_key, group_by_author, add_to_group, AuthorGroup,
}
use gh_audit.Prelude.{
  ◌≡◌, refl, ◌⊎◌, inl, inr, false, List, [], ◌∷◌, ◌++◌, Memᴰ, if◌then◌else◌, Bool-cases, ◌==◌,
  nat_eq, text_beq_iff, text_eq,
}

-- The commit `c` is in the group of its key.
abbrev pub Filed : Text → Commit → List AuthorGroup → Type 0
Filed key c groups = (g : AuthorGroup) × Memᴰ g groups × (g.key ≡ key) × Memᴰ c g.commits

Filed-tail :
    {key : Text} {c : Commit} {gs : List AuthorGroup} (g : AuthorGroup)
    → Filed key c gs
    → Filed key c (g ∷ gs)
Filed-tail g (h, m, e, n) = (h, Memᴰ.tail m, e, n)

mem-snoc : {A : Type 0} {x y : A} (xs : List A) → (x ≡ y) ⊎ Memᴰ x xs → Memᴰ x (xs ++ y ∷ [])
mem-snoc [] (inl e) = Memᴰ.head e
mem-snoc [] (inr m) = elim m [ ]
mem-snoc (z ∷ xs) (inl e) = Memᴰ.tail (mem-snoc xs (inl e))
mem-snoc (z ∷ xs) (inr (Memᴰ.head e)) = Memᴰ.head e
mem-snoc (z ∷ xs) (inr (Memᴰ.tail m)) = Memᴰ.tail (mem-snoc xs (inr m))

add_to_group-Filed :
    (key : Text) (c : Commit) (gs : List AuthorGroup) → Filed key c (add_to_group key c gs)
unfolding add_to_group
add_to_group-Filed key c [] = (_, Memᴰ.head refl, refl, Memᴰ.head refl)
add_to_group-Filed key c (g ∷ gs) = elim (Bool-cases (g.key == key)) [
  | inl e ↦ rw e (_, Memᴰ.head refl, (text_beq_iff g.key key).0 e, mem-snoc g.commits (inl refl))
  | inr e ↦ rw e (Filed-tail g (add_to_group-Filed key c gs))
]

add_to_group-keeps :
    (key : Text) (c : Commit) (gs : List AuthorGroup) {k : Text} {x : Commit}
    → Filed k x gs
    → Filed k x (add_to_group key c gs)
unfolding add_to_group
add_to_group-keeps key c [] (h, m, e, n) = elim m [ ]
add_to_group-keeps key c (g ∷ gs) (h, Memᴰ.head p, e, n) = elim (Bool-cases (g.key == key)) [
  | inl hit ↦ rw hit (
    record g { commits = g.commits ++ c ∷ [] },
    Memᴰ.head refl,
    rw (← p) e,
    mem-snoc g.commits (inr (rw p at n)),
  )
  | inr miss ↦ rw miss (h, Memᴰ.head p, e, n)
]
add_to_group-keeps key c (g ∷ gs) (h, Memᴰ.tail m, e, n) = elim (Bool-cases (g.key == key)) [
  | inl hit ↦ rw hit (h, Memᴰ.tail m, e, n)
  | inr miss ↦ rw miss (Filed-tail g (add_to_group-keeps key c gs (h, m, e, n)))
]

-- Every group's representative has the group's key, and `Q` holds of it.
abbrev pub Led : (Commit → Type 0) → List AuthorGroup → Type 0
Led Q groups =
    (g : AuthorGroup) → Memᴰ g groups → (author_key g.representative ≡ g.key) × Q g.representative

add_to_group-Led :
    (Q : Commit → Type 0) (c : Commit) (gs : List AuthorGroup)
    → Q c
    → Led Q gs
    → Led Q (add_to_group (author_key c) c gs)
unfolding add_to_group
add_to_group-Led Q c [] q led g (Memᴰ.head p) = rw p (refl, q)
add_to_group-Led Q c [] q led g (Memᴰ.tail m) = elim m [ ]
add_to_group-Led Q c (h ∷ gs) q led g m = elim (Bool-cases (h.key == author_key c)) [
  | inl hit ↦ same (rw hit at m)
  | inr miss ↦ other (add_to_group-Led Q c gs q (λ x n. led x (Memᴰ.tail n)) g) (rw miss at m)
]
  where
    same :
        Memᴰ g (record h { commits = h.commits ++ c ∷ [] } ∷ gs)
        → (author_key g.representative ≡ g.key) × Q g.representative
    same (Memᴰ.head p) = rw p (led h (Memᴰ.head refl))
    same (Memᴰ.tail n) = led g (Memᴰ.tail n)

    other :
        (Memᴰ g (add_to_group (author_key c) c gs)
          → (author_key g.representative ≡ g.key) × Q g.representative)
        → Memᴰ g (h ∷ add_to_group (author_key c) c gs)
        → (author_key g.representative ≡ g.key) × Q g.representative
    other ih (Memᴰ.head p) = rw p (led h (Memᴰ.head refl))
    other ih (Memᴰ.tail n) = ih n

abbrev filed_next : List AuthorGroup → Commit → List AuthorGroup
filed_next groups c = if is_anonymous c then groups else add_to_group (author_key c) c groups

filed_next-keeps :
    {k : Text} {x : Commit} (groups : List AuthorGroup) (c : Commit)
    → Filed k x groups
    → Filed k x (filed_next groups c)
filed_next-keeps groups c f = elim (Bool-cases (is_anonymous c)) [
  | inl e ↦ rw e f
  | inr e ↦ rw e (add_to_group-keeps (author_key c) c groups f)
]

group_by_author-keeps :
    {k : Text} {x : Commit} (groups : List AuthorGroup) (cs : List Commit)
    → Filed k x groups
    → Filed k x (group_by_author groups cs)
unfolding group_by_author
group_by_author-keeps groups [] f = f
group_by_author-keeps groups (c ∷ cs) f =
    group_by_author-keeps (filed_next groups c) cs (filed_next-keeps groups c f)

-- Every commit with an author is in the group of its key.
pub group_by_author-Filed :
    (groups : List AuthorGroup) (cs : List Commit) (x : Commit)
    → is_anonymous x ≡ false
    → Memᴰ x cs
    → Filed (author_key x) x (group_by_author groups cs)
unfolding group_by_author
group_by_author-Filed groups [] x named m = elim m [ ]
group_by_author-Filed groups (c ∷ cs) x named (Memᴰ.head p) =
    group_by_author-keeps (filed_next groups c) cs
      (rw (← p, named) (add_to_group-Filed (author_key x) x groups))
group_by_author-Filed groups (c ∷ cs) x named (Memᴰ.tail m) =
    group_by_author-Filed (filed_next groups c) cs x named m

pub group_by_author-Led :
    (Q : Commit → Type 0) (groups : List AuthorGroup) (cs : List Commit)
    → ((c : Commit) → Memᴰ c cs → Q c)
    → Led Q groups
    → Led Q (group_by_author groups cs)
unfolding group_by_author
group_by_author-Led Q groups [] q led = led
group_by_author-Led Q groups (c ∷ cs) q led =
    group_by_author-Led Q (filed_next groups c) cs (λ x m. q x (Memᴰ.tail m))
      (elim (Bool-cases (is_anonymous c)) [
        | inl e ↦ rw e led
        | inr e ↦ rw e (add_to_group-Led Q c groups (q c (Memᴰ.head refl)) led)
      ])
