-- ===== src/Github/Diff/Inverse.antt =====
-- What a revert undoes where IsCleanRevertDiff calls it clean.
use gh_audit.Prelude.{
  length-Apart, ◌≤◌, ◌≡◌, ◌≢◌, inl, inr, true, none, some, List, [], ◌∷◌, Memᴰ, arith, Option-cases,
  nat_eq, text_beq_iff, text_eq, length, all, all_elim,
}
use gh_audit.Text.{Text}
use gh_audit.Model.{FileDiff}
use gh_audit.Github.Diff.{
  Option, PatchMap, get_patch, patch_map, extract_diff_lines, inverse_patches, file_inverse,
  multiset_equal, is_clean_revert_diff,
}
use gh_audit.Github.Diff.Order.{count}
use gh_audit.Github.Diff.Multiset.{multiset_equal_iff}
use gh_audit.Github.Diff.Patches.{
  length-names, last_patch, get_patch-patch_map, mem_of_get, names, mem-names, names-mem,
  patch_map-Distinct, names-Apart,
}

-- Both patches are there, and what one adds the other removes, line for line in some order.
pub record Undoes (r_patch a_patch : Text) : Type 0 where
  pub there : (r_patch ≢ []) × (a_patch ≢ [])
  pub added :
      (line : Text)
      → count line (extract_diff_lines r_patch).added
        ≡ count line (extract_diff_lines a_patch).removed
  pub removed :
      (line : Text)
      → count line (extract_diff_lines r_patch).removed
        ≡ count line (extract_diff_lines a_patch).added

-- What stands under one name in the revert and in the reverted: nothing in both, or two patches.
pub data Undone : Option Text → Option Text → Type 0 where
  neither : Undone none none
  both : {r_patch a_patch : Text} → Undoes r_patch a_patch → Undone (some r_patch) (some a_patch)

inverse_patches-Undoes :
    (r_patch a_patch : Text) → inverse_patches r_patch a_patch ≡ true → Undoes r_patch a_patch
unfolding inverse_patches
inverse_patches-Undoes r a h =
    let adds : multiset_equal (extract_diff_lines r).added (extract_diff_lines a).removed ≡ true =
      ground arith in
    let dels : multiset_equal (extract_diff_lines r).removed (extract_diff_lines a).added ≡ true =
      ground arith in
    record {
      there = (
        λ e. absurd (ground (arith, h, text_beq_iff r [], e)),
        λ e. absurd (ground (arith, h, text_beq_iff a [], e)),
      );
      added = (multiset_equal_iff _ _).0 adds;
      removed = (multiset_equal_iff _ _).0 dels;
    }

file_inverse-Undoes :
    (m : PatchMap) (name r_patch : Text)
    → file_inverse m (name, r_patch) ≡ true
    → (a_patch : Text) × (get_patch name m ≡ some a_patch) × Undoes r_patch a_patch
unfolding file_inverse
file_inverse-Undoes m name r_patch h = elim (Option-cases (get_patch name m)) [
  | inl gone ↦ absurd (ground (arith, h, gone))
  | inr (a, found) ↦ (a, found, inverse_patches-Undoes r_patch a (rw (found, file_inverse) at h))
]

module _ (revert_files reverted_files : List FileDiff)
    (clean : is_clean_revert_diff revert_files reverted_files ≡ true) where
  abbrev r_map : PatchMap
  r_map = patch_map [] revert_files

  abbrev a_map : PatchMap
  a_map = patch_map [] reverted_files

  undone :
      (name r_patch : Text)
      → get_patch name r_map ≡ some r_patch
      → (a_patch : Text) × (get_patch name a_map ≡ some a_patch) × Undoes r_patch a_patch
  undone name r_patch h =
      let each : all (file_inverse a_map) r_map ≡ true =
        unfold is_clean_revert_diff in ground (arith, clean) in
      file_inverse-Undoes a_map name r_patch
        (all_elim (file_inverse a_map) each (mem_of_get name r_patch r_map h))

  no_more_names : length (names a_map) ≤ length (names r_map)
  no_more_names =
      let sizes : length r_map ≡ length a_map =
        unfold is_clean_revert_diff in ground (arith, clean) in
      omega (arith, length-names r_map, length-names a_map, sizes)

  -- The names of the one map are among those of the other, which has no more.
  named :
      (name a_patch : Text)
      → get_patch name a_map ≡ some a_patch
      → (r_patch : Text) × (get_patch name r_map ≡ some r_patch)
  named name a_patch h = elim (Option-cases (get_patch name r_map)) [
    | inr found ↦ found
    | inl gone ↦ absurd (
        omega (
          arith,
          no_more_names,
          length-Apart (λ (n : Text). n) (name ∷ names r_map) (names a_map)
              (fresh gone, names-Apart r_map (patch_map-Distinct [] revert_files tt)) among,
        ))
  ]
    where
      fresh : get_patch name r_map ≡ none → (n : Text) → Memᴰ n (names r_map) → n ≢ name
      fresh gone n m same =
          let (p, found) = mem-names n r_map m in absurd (ground (arith, gone, found, same))

      among : (n : Text) → Memᴰ n (name ∷ names r_map) → Memᴰ n (names a_map)
      among n (Memᴰ.head e) = rw e (names-mem name a_patch a_map (mem_of_get name a_patch a_map h))
      among n (Memᴰ.tail m) =
          let (r_patch, found) = mem-names n r_map m in
          let (q, there, how) = undone n r_patch found in
          names-mem n q a_map (mem_of_get n q a_map there)

  abbrev in_reverts : Text → Option Text
  in_reverts name = last_patch name none revert_files

  abbrev in_reverted : Text → Option Text
  in_reverted name = last_patch name none reverted_files

  r_last : (name : Text) → get_patch name r_map ≡ in_reverts name
  unfolding get_patch
  r_last name = get_patch-patch_map name [] revert_files

  a_last : (name : Text) → get_patch name a_map ≡ in_reverted name
  unfolding get_patch
  a_last name = get_patch-patch_map name [] reverted_files

  maps-Undone : (name : Text) → Undone (get_patch name r_map) (get_patch name a_map)
  maps-Undone name = elim (Option-cases (get_patch name r_map)) [
    | inr (r_patch, here) ↦
        let (a_patch, there, how) = undone name r_patch here in rw (here, there) (both how)
    | inl gone ↦ elim (Option-cases (get_patch name a_map)) [
      | inl absent ↦ rw (gone, absent) neither
      | inr (a_patch, there) ↦
          let (r_patch, here) = named name a_patch there in absurd (ground (arith, gone, here))
    ]
  ]

  -- A clean revert undoes every file: a name stands in neither diff, or in both, and there the
  -- patch of the one undoes the patch of the other.
  pub is_clean_revert_diff-Undone : (name : Text) → Undone (in_reverts name) (in_reverted name)
  is_clean_revert_diff-Undone name = rw (← r_last name, ← a_last name) (maps-Undone name)
