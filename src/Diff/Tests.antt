-- ===== src/Diff/Tests.antt =====
-- Runs of the builder and of the applier.
use mathlib.Core.Option
use autoforge.Common.Decimal
use autoforge.Common.Texts.{Text, codes}
use autoforge.Common.Result.{ok, err}
use autoforge.Diff.{
  apply_unified_diff, context_mismatch, ParsedHunk, apply_hunk, place_of, parse_unified_hunks,
  matches_at, begins_with, sort_hunks, find_block, split_lines, join_lines, ends_with_newline,
}
use autoforge.Diff.Builder.{build_unified_diff}
use autoforge.Common.{◌≡◌, ◌∷◌, ◌++◌, String, refl, [], ◌≢◌, ◌↔◌, List}
use autoforge.Diff.Occurs.{Occurs}
use autoforge.Diff.Apply.{apply_hunk-err, Replaced, apply_unified_diff-Replaced}

nl : String → Text
nl s = codes s ++ 10 ∷ []

round_trip_test :
    apply_unified_diff (nl "a" ++ (nl "b" ++ codes "c")) (
      build_unified_diff
        (codes "/x.ts")
        (nl "a" ++ (nl "b" ++ codes "c"))
        (nl "a" ++ (nl "z" ++ codes "c")))
    ≡ ok (nl "a" ++ (nl "z" ++ codes "c"))
unfolding nl apply_unified_diff build_unified_diff mathlib.Core.Option.bind
    autoforge.Common.Decimal.read_ℕ
round_trip_test = refl

-- A text that ends in a newline, and an edit near both of its ends.
trailing_newline_test :
    apply_unified_diff
      (nl "a" ++ nl "b")
      (build_unified_diff (codes "x.ts") (nl "a" ++ nl "b") (nl "a" ++ nl "z"))
    ≡ err (context_mismatch 1)
unfolding nl apply_unified_diff build_unified_diff mathlib.Core.Option.bind
    autoforge.Common.Decimal.read_ℕ
trailing_newline_test = refl

abbrev a_base : Text
a_base = nl "a" ++ codes "c"

abbrev a_diff : Text
a_diff = nl "@@ -1,2 +1,2 @@" ++ (nl " a" ++ (nl "-c" ++ codes "+d"))

-- The hunk of that diff, at a line where its old lines do not stand.
abbrev a_hunk : ParsedHunk
a_hunk = record {
  old_start = 9;
  old_count = 1;
  new_start = 9;
  new_count = 1;
  old_ordered = codes "c" ∷ [];
  new_ordered = codes "d" ∷ [];
}

apply_hunk-err_example :
    (apply_hunk (codes "a" ∷ []) a_hunk ≡ err (context_mismatch 9))
    ↔ ¬ Occurs (codes "c" ∷ []) (codes "a" ∷ [])
apply_hunk-err_example = apply_hunk-err (codes "a" ∷ []) a_hunk

-- The declared line is wrong, and the hunk is applied where its old lines stand.
apply_elsewhere_test :
    apply_hunk (codes "a" ∷ codes "c" ∷ []) a_hunk ≡ ok (codes "a" ∷ codes "d" ∷ [])
unfolding apply_hunk place_of matches_at begins_with find_block
apply_elsewhere_test = refl

apply_unified_diff-Replaced_example :
    (hunks : List ParsedHunk) × (lines : List Text) × (parse_unified_hunks a_diff ≡ ok hunks)
    × (hunks ≢ [])
    × Replaced (sort_hunks hunks) (split_lines a_base) lines
    × (nl "a" ++ codes "d" ≡ join_lines lines (ends_with_newline a_base))
unfolding nl apply_unified_diff mathlib.Core.Option.bind autoforge.Common.Decimal.read_ℕ
apply_unified_diff-Replaced_example =
    apply_unified_diff-Replaced a_base a_diff (nl "a" ++ codes "d") refl
