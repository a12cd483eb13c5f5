-- ===== src/Diff/Builder.antt =====
-- backend/src/engineer/application/services/diff-builder.ts. The loop over the common suffix counts
-- from the ends: it is the common prefix of the two reversed rests.
use mathlib.Core.List.{reverse}
use autoforge.Common.Texts.{Text, codes, text_eq}
use autoforge.Common.Decimal.{show_ℕ}
use autoforge.Diff.{split_on_newline, join}
use autoforge.Common.{
  ◌+◌, ◌-◌, ◌&&◌, ◌∷◌, ◌++◌, ◌==◌, if◌then◌else◌, ℕ, suc, min, max, List, [], map, nat_eqb, length,
  take, drop,
}

unfoldable pub common_prefix : List Text → List Text → ℕ
common_prefix [] patched = 0
common_prefix (x ∷ original) [] = 0
common_prefix (x ∷ original) (y ∷ patched) =
    if x == y then suc (common_prefix original patched) else 0

-- `xs.slice(from, to)`.
abbrev pub slice {ℓ} : {A : Type ℓ} → List A → ℕ → ℕ → List A
slice xs from to = drop from (take to xs)

-- `filePath.replace(/^\/+/, '')`.
unfoldable pub drop_slashes : Text → Text
drop_slashes [] = []
drop_slashes (c ∷ s) = if nat_eqb c 47 then drop_slashes s else c ∷ s

unfoldable pub lines_of : Text → List Text
unfolding split_on_newline
lines_of code = if nat_eqb (length code) 0 then [] else split_on_newline code

-- What the builder computes before it prints.
pub record Change : Type 0 where
  pub start_line : ℕ
  pub before : List Text
  pub removed : List Text
  pub added : List Text
  pub after : List Text

unfoldable pub change_of : List Text → List Text → Change
unfolding common_prefix
change_of original patched =
    let prefix = common_prefix original patched in
    let suffix = common_prefix (reverse (drop prefix original)) (reverse (drop prefix patched)) in
    let original_end = length original - suffix in
    let patched_end = length patched - suffix in
    record {
      start_line = max 1 (prefix - 3 + 1);
      before = slice original (prefix - 3) prefix;
      removed = slice original prefix original_end;
      added = slice patched prefix patched_end;
      after = slice original original_end (min (length original) (original_end + 3));
    }

abbrev pub mark : ℕ → List Text → List Text
mark marker lines = map (λ line. marker ∷ line) lines

unfoldable pub header_line : ℕ → ℕ → ℕ → Text
unfolding show_ℕ
header_line start old_count new_count =
    codes "@@ -"
    ++ (show_ℕ start
        ++ (44
            ∷ (show_ℕ old_count
                ++ (codes " +" ++ (show_ℕ start ++ (44 ∷ (show_ℕ new_count ++ codes " @@")))))))

unfoldable pub body_lines : Change → List Text
body_lines c = mark 32 c.before ++ (mark 45 c.removed ++ (mark 43 c.added ++ mark 32 c.after))

unfoldable pub diff_lines : Text → Change → List Text
unfolding header_line body_lines
diff_lines norm_path c =
    (codes "--- a/" ++ norm_path)
    ∷ (codes "+++ b/" ++ norm_path)
    ∷ header_line c.start_line (length c.before + length c.removed + length c.after)
        (length c.before + length c.added + length c.after)
    ∷ body_lines c

unfoldable pub build_unified_diff : Text → Text → Text → Text
unfolding lines_of change_of diff_lines join drop_slashes
build_unified_diff file_path original_code patched_code =
    let original = lines_of original_code in
    let patched = lines_of patched_code in
    if nat_eqb (length original) 0 && nat_eqb (length patched) 0
    then []
    else join (diff_lines (drop_slashes file_path) (change_of original patched))
