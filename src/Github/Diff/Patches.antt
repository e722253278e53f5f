-- ===== src/Github/Diff/Patches.antt =====
-- The maps from file names to patches that IsCleanRevertDiff builds.
use gh_audit.Prelude.{
  suc, Apart, ◌≡◌, refl, ap, inl, inr, Option, none, some, List, [], ◌∷◌, map, Memᴰ, arith,
  if◌then◌else◌, Bool-cases, ◌==◌, nat_eq, text_beq_iff, text_eq,
}
use gh_audit.Text.{Text}
use gh_audit.Model.{FileDiff}
use gh_audit.Github.Diff.{length, PatchMap, put_patch, get_patch, patch_map}

get_patch-put_patch :
    (k n p : Text) (m : PatchMap)
    → get_patch k (put_patch n p m) ≡ (if n == k then some p else get_patch k m)
unfolding get_patch put_patch
get_patch-put_patch k n p [] = refl
get_patch-put_patch k n p ((j, q) ∷ m) =
    ground
      (arith, get_patch-put_patch k n p m, text_beq_iff j n, text_beq_iff j k, text_beq_iff n k)

-- The patch of the last file of a name, or what was found before.
unfoldable pub last_patch : Text → Option Text → List FileDiff → Option Text
last_patch name found [] = found
last_patch name found (f ∷ fs) =
    last_patch name (if f.filename == name then some f.patch else found) fs

pub get_patch-patch_map :
    (name : Text) (m : PatchMap) (fs : List FileDiff)
    → get_patch name (patch_map m fs) ≡ last_patch name (get_patch name m) fs
unfolding patch_map last_patch
get_patch-patch_map name m [] = refl
get_patch-patch_map name m (f ∷ fs) =
    rw (← get_patch-put_patch name f.filename f.patch m)
      (get_patch-patch_map name (put_patch f.filename f.patch m) fs)

pub mem_of_get : (name p : Text) (m : PatchMap) → get_patch name m ≡ some p → Memᴰ (name, p) m
unfolding get_patch
mem_of_get name p [] h = absurd (ground arith)
mem_of_get name p ((j, q) ∷ m) h = elim (Bool-cases (j == name)) [
  | inl e ↦
      let same : q ≡ p = ground (arith, h, e) in
      Memᴰ.head (rw ((text_beq_iff j name).0 e, same) refl)
  | inr e ↦ Memᴰ.tail (mem_of_get name p m (ground (arith, h, e)))
]

abbrev pub names : PatchMap → List Text
names = map (λ (e : Text × Text). e.0)

pub length-names : (m : PatchMap) → length (names m) ≡ length m
length-names [] = refl
length-names (e ∷ m) = ap suc (length-names m)

pub mem-names :
    (name : Text) (m : PatchMap) → Memᴰ name (names m) → (p : Text) × (get_patch name m ≡ some p)
unfolding get_patch
mem-names name [] h = elim h [ ]
mem-names name ((j, q) ∷ m) (Memᴰ.head e) = (q, ground (arith, text_beq_iff j name, e))
mem-names name ((j, q) ∷ m) (Memᴰ.tail h) =
    let (p, found) = mem-names name m h in
    elim (Bool-cases (j == name)) [
      | inl e ↦ (q, ground (arith, e))
      | inr e ↦ (p, ground (arith, e, found))
    ]

pub names-mem : (name p : Text) (m : PatchMap) → Memᴰ (name, p) m → Memᴰ name (names m)
names-mem name p [] h = elim h [ ]
names-mem name p (e ∷ m) (Memᴰ.head h) = Memᴰ.head (ap (λ (x : Text × Text). x.0) h)
names-mem name p (e ∷ m) (Memᴰ.tail h) = Memᴰ.tail (names-mem name p m h)

-- No name comes twice.
abbrev pub Distinct : PatchMap → Type 0
Distinct [] = Unit
Distinct ((n, p) ∷ m) = (get_patch n m ≡ none) × Distinct m

put_patch-Distinct : (n p : Text) (m : PatchMap) → Distinct m → Distinct (put_patch n p m)
unfolding put_patch
put_patch-Distinct n p [] d = (unfold get_patch in refl, tt)
put_patch-Distinct n p ((j, q) ∷ m) d = elim (Bool-cases (j == n)) [
  | inl e ↦ rw e (ground (arith, text_beq_iff j n, d.0), d.1)
  | inr e ↦ rw e (
    ground (arith, get_patch-put_patch j n p m, text_beq_iff j n, text_beq_iff n j, d.0),
    put_patch-Distinct n p m d.1,
  )
]

pub patch_map-Distinct :
    (m : PatchMap) (fs : List FileDiff) → Distinct m → Distinct (patch_map m fs)
unfolding patch_map
patch_map-Distinct m [] d = d
patch_map-Distinct m (f ∷ fs) d =
    patch_map-Distinct (put_patch f.filename f.patch m) fs
      (put_patch-Distinct f.filename f.patch m d)

pub names-Apart : (m : PatchMap) → Distinct m → Apart (λ (n : Text). n) (names m)
names-Apart [] d = tt
names-Apart ((n, p) ∷ m) d = (
  λ y h same. let (q, found) = mem-names y m h in absurd (ground (arith, found, d.0, same)),
  names-Apart m d.1,
)
