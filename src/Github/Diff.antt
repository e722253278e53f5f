-- ===== src/Github/Diff.antt =====
-- IsCleanRevertDiff of internal/github/revert.go: the diff of a revert is the inverse of another.
pub mod Order
pub mod Multiset
pub mod Patches
pub mod Inverse
use gh_audit.Prelude.{
  Bool, true, false, not, ◌&&◌, ◌||◌, Option, none, some, List, [], ◌∷◌, ◌++◌, ltb, ◌==◌, ◌/=◌,
  nat_eq, text_eq, if◌then◌else◌, all, length,
}
use gh_audit.Text.{Text, text, has_prefix, split_at}
use gh_audit.Model.{FileDiff}

-- strings.Split(s, "\n"): what stands before the first newline is the first line.
unfoldable pub split_lines : Text → List Text
unfolding split_at
split_lines = split_at 10

-- The variables of the loop of extractDiffLines.
pub record DiffLines : Type 0 where
  pub seen_hunk : Bool
  pub added : List Text
  pub removed : List Text

abbrev pub no_lines : DiffLines
no_lines = record { seen_hunk = false; added = []; removed = [] }

-- The `switch` on the line's first byte.
unfoldable pub content_line : DiffLines → Text → DiffLines
content_line d [] = d
content_line d (c ∷ rest) =
    if c == b'+'
    then record d { added = d.added ++ rest ∷ [] }
    else if c == b'-'
    then record d { removed = d.removed ++ rest ∷ [] }
    else d

unfoldable pub diff_line : DiffLines → Text → DiffLines
unfolding content_line
diff_line d line =
    if has_prefix line (text "@@")
    then record d { seen_hunk = true }
    else if not d.seen_hunk && (has_prefix line (text "+++ ") || has_prefix line (text "--- "))
    then d
    else content_line d line

unfoldable pub diff_lines : DiffLines → List Text → DiffLines
unfolding diff_line
diff_lines d [] = d
diff_lines d (line ∷ lines) = diff_lines (diff_line d line) lines

-- extractDiffLines
unfoldable pub extract_diff_lines : Text → DiffLines
unfolding diff_lines split_lines
extract_diff_lines patch = diff_lines no_lines (split_lines patch)

-- Go's order of strings, by bytes.
unfoldable pub text_leb : Text → Text → Bool
text_leb [] t = true
text_leb (c ∷ s) [] = false
text_leb (c ∷ s) (d ∷ t) = ltb c d || c == d && text_leb s t

-- sort.Strings
unfoldable pub insert_sorted : Text → List Text → List Text
unfolding text_leb
insert_sorted s [] = s ∷ []
insert_sorted s (t ∷ ts) = if text_leb s t then s ∷ t ∷ ts else t ∷ insert_sorted s ts

unfoldable pub sort_texts : List Text → List Text
unfolding insert_sorted
sort_texts [] = []
sort_texts (s ∷ ss) = insert_sorted s (sort_texts ss)

-- The loop that compares two slices of one length.
unfoldable pub same_texts : List Text → List Text → Bool
same_texts [] b = true
same_texts (s ∷ a) [] = true
same_texts (s ∷ a) (t ∷ b) = s == t && same_texts a b

-- multisetEqual
unfoldable pub multiset_equal : List Text → List Text → Bool
unfolding sort_texts same_texts
multiset_equal a b =
    if length a /= length b then false else same_texts (sort_texts a) (sort_texts b)

-- `map[string]string` from file names to patches: a later entry of one name replaces the former.
abbrev pub PatchMap : Type 0
PatchMap = List (Text × Text)

unfoldable pub put_patch : Text → Text → PatchMap → PatchMap
put_patch name patch [] = (name, patch) ∷ []
put_patch name patch ((n, p) ∷ m) =
    let rest = put_patch name patch m in if n == name then (name, patch) ∷ m else (n, p) ∷ rest

unfoldable pub get_patch : Text → PatchMap → Option Text
get_patch name [] = none
get_patch name ((n, p) ∷ m) = if n == name then some p else get_patch name m

unfoldable pub patch_map : PatchMap → List FileDiff → PatchMap
unfolding put_patch
patch_map m [] = m
patch_map m (f ∷ fs) = patch_map (put_patch f.filename f.patch m) fs

-- The body of the loop over the revert's files, once both patches are there.
unfoldable pub inverse_patches : Text → Text → Bool
unfolding extract_diff_lines multiset_equal
inverse_patches r_patch a_patch =
    if r_patch == [] || a_patch == []
    then false
    else (let r = extract_diff_lines r_patch in
        let a = extract_diff_lines a_patch in
        multiset_equal r.added a.removed && multiset_equal r.removed a.added)

unfoldable pub file_inverse : PatchMap → Text × Text → Bool
unfolding inverse_patches
file_inverse a_map (name, r_patch) = elim (get_patch name a_map) [
  | none ↦ false
  | some a_patch ↦ inverse_patches r_patch a_patch
]

-- IsCleanRevertDiff
unfoldable pub is_clean_revert_diff : List FileDiff → List FileDiff → Bool
unfolding patch_map file_inverse
is_clean_revert_diff revert_files reverted_files =
    if length revert_files /= length reverted_files
    then false
    else (let r_map = patch_map [] revert_files in
        let a_map = patch_map [] reverted_files in
        if length r_map /= length a_map then false else all (file_inverse a_map) r_map)
