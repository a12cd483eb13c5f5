-- ===== src/Diff.antt =====
-- Unified diffs as data: backend/src/critic/application/services/apply-unified-diff.ts, which the
-- Critic applies patches with, and backend/src/engineer/application/services/diff-builder.ts, which
-- the Engineer writes them with. A text is a list of UTF-16 units and a line is a text with no line
-- feed. `Number` is exact here; the source's is exact up to 2 ^ 53.
pub mod Builder
pub mod Apply
pub mod Occurs
mod Tests
use mathlib.Core.Option
use mathlib.Core.List.{reverse}
use autoforge.Common.Result.{Result, ok, err, ◌>>=◌}
use autoforge.Common.Texts.{Text, codes, text_eq, starts_with}
use autoforge.Common.Decimal.{read_ℕ}
use autoforge.Common.{
  ◌+◌, ◌&&◌, ◌||◌, ◌∷◌, ◌++◌, if◌then◌else◌, ℕ, Bool, Option, none, some, List, [], map, ltb,
  nat_eqb, length, take, drop, ◌-◌, ◌==◌, suc, true, false, leb,
}

-- `text.replace(/\r\n/g, '\n')`.
unfoldable pub drop_cr : Text → Text
drop_cr [] = []
drop_cr (c ∷ []) = c ∷ []
drop_cr (c ∷ d ∷ s) =
    let rest = drop_cr (d ∷ s) in if nat_eqb c 13 && nat_eqb d 10 then rest else c ∷ rest

-- Put a unit in front of the first line.
abbrev pub extend : ℕ → List Text → List Text
extend c [] = (c ∷ []) ∷ []
extend c (line ∷ lines) = (c ∷ line) ∷ lines

-- `text.split('\n')`.
unfoldable pub split_on_newline : Text → List Text
split_on_newline [] = [] ∷ []
split_on_newline (c ∷ s) =
    if nat_eqb c 10 then [] ∷ split_on_newline s else extend c (split_on_newline s)

-- `lines.join('\n')`.
unfoldable pub join : List Text → Text
join [] = []
join (line ∷ []) = line
join (line ∷ next ∷ lines) = line ++ 10 ∷ join (next ∷ lines)

pub record ParsedHunk : Type 0 where
  pub old_start : ℕ
  pub old_count : ℕ
  pub new_start : ℕ
  pub new_count : ℕ
  pub old_ordered : List Text
  pub new_ordered : List Text

pub data DiffError : Type 0 where
  unexpected_line : Text → DiffError
  counts_mismatch : ℕ → DiffError
  no_hunks : DiffError
  context_mismatch : ℕ → DiffError

-- A literal at the front of a text.
unfoldable pub expect : Text → Text → Option Text
expect [] s = some s
expect (p ∷ ps) [] = none
expect (p ∷ ps) (c ∷ s) = if nat_eqb c p then expect ps s else none

-- `(?:,(\d+))?` with the default 1.
unfoldable pub read_count : Text → ℕ × Text
read_count [] = (1, [])
read_count (c ∷ s) =
    if nat_eqb c 44
    then elim (read_ℕ s) [ none ↦ (1, c ∷ s) | some (n, rest) ↦ (n, rest) ]
    else (1, c ∷ s)

pub record Header : Type 0 where
  pub old_start : ℕ
  pub old_count : ℕ
  pub new_start : ℕ
  pub new_count : ℕ

abbrev header_of : ℕ → ℕ → ℕ → ℕ → Header
header_of a b c d = record { old_start = a; old_count = b; new_start = c; new_count = d }

-- `HUNK_HEADER.exec(line)`: `^@@ -(\d+)(?:,(\d+))? \+(\d+)(?:,(\d+))? @@`.
unfoldable pub read_header : Text → Option Header
unfolding expect read_count
read_header line = Option.bind (expect (codes "@@ -") line) λ s. Option.bind (read_ℕ s) λ old.
    let old_count = read_count old.1 in
    Option.bind (expect (codes " +") old_count.1) λ t. Option.bind (read_ℕ t) λ new.
      let new_count = read_count new.1 in
      Option.map (λ _. header_of old.0 old_count.0 new.0 new_count.0)
        (expect (codes " @@") new_count.1)

-- The loop of `parseUnifiedHunks`: between hunks, or in the body of one.
pub data Mode : Type 0 where
  between : Mode
  body : Header → List Text → List Text → Mode

-- The test of the inner loop: is a side short of its declared count?
abbrev pub is_short : Header → List Text → List Text → Bool
is_short h old new = ltb (length old) h.old_count || ltb (length new) h.new_count

-- What follows the inner loop: the counts must be exact, and the hunk is pushed.
unfoldable pub close_hunk :
    Header → List Text → List Text → List ParsedHunk → Result DiffError (List ParsedHunk)
close_hunk h old new hunks =
    if nat_eqb (length old) h.old_count && nat_eqb (length new) h.new_count
    then ok (
        hunks
        ++ record {
          old_start = h.old_start;
          old_count = h.old_count;
          new_start = h.new_start;
          new_count = h.new_count;
          old_ordered = old;
          new_ordered = new;
        }
          ∷ [])
    else err (counts_mismatch (length hunks + 1))

-- One line in the body of a hunk: the text after the marker goes to one side, or to both.
unfoldable pub read_body : Header → List Text → List Text → Text → Mode
read_body h old new line =
    if nat_eqb (length line) 0
    then body h old new
    else if starts_with line (codes "\\ No newline")
    then body h old new
    else if starts_with line (codes "-")
    then body h (old ++ drop 1 line ∷ []) new
    else if starts_with line (codes "+")
    then body h old (new ++ drop 1 line ∷ [])
    else body h (old ++ drop 1 line ∷ []) (new ++ drop 1 line ∷ [])

-- One line between hunks.
unfoldable pub read_between : Text → Result DiffError Mode
unfolding read_header
read_between line =
    if nat_eqb (length line) 0
      || starts_with line (codes "diff --git")
      || starts_with line (codes "index ")
    then ok between
    else if starts_with line (codes "---") || starts_with line (codes "+++")
    then ok between
    else elim (read_header line) [
      | none ↦ err (unexpected_line (take 60 line))
      | some h ↦ ok (body h [] [])
    ]

-- One line: a body that is complete is closed first, and then the line stands between hunks.
unfoldable pub read_line : Mode → List ParsedHunk → Text → Result DiffError (Mode × List ParsedHunk)
unfolding read_between read_body close_hunk
read_line between hunks line = do mode ← read_between line; ok (mode, hunks)
read_line (body h old new) hunks line =
    if is_short h old new
    then ok (read_body h old new line, hunks)
    else (do hunks' ← close_hunk h old new hunks; mode ← read_between line; ok (mode, hunks'))

unfoldable pub read_end : Mode → List ParsedHunk → Result DiffError (List ParsedHunk)
unfolding close_hunk
read_end between hunks = ok hunks
read_end (body h old new) hunks = close_hunk h old new hunks

unfoldable pub read_lines : Mode → List ParsedHunk → List Text → Result DiffError (List ParsedHunk)
unfolding read_line read_end
read_lines mode hunks [] = read_end mode hunks
read_lines mode hunks (line ∷ lines) = do
  next ← read_line mode hunks line
  read_lines next.0 next.1 lines

unfoldable pub parse_unified_hunks : Text → Result DiffError (List ParsedHunk)
unfolding drop_cr split_on_newline read_lines
parse_unified_hunks diff = read_lines between [] (split_on_newline (drop_cr diff))

-- Do the lines begin with these?
unfoldable pub begins_with : List Text → List Text → Bool
begins_with lines [] = true
begins_with [] (l ∷ block) = false
begins_with (x ∷ lines) (l ∷ block) = x == l && begins_with lines block

-- The declared place: `pos >= 0`, within the lines, and every old line equal there.
unfoldable pub matches_at : List Text → ℕ → List Text → Bool
matches_at lines pos block =
    leb (pos + length block) (length lines) && begins_with (drop pos lines) block

-- The search over all places, from the first.
unfoldable pub find_block : List Text → List Text → Option ℕ
find_block [] block = if begins_with [] block then some 0 else none
find_block (x ∷ lines) block =
    let rest = Option.map suc (find_block lines block) in
    if begins_with (x ∷ lines) block then some 0 else rest

-- Where the hunk goes: its declared place, or else the first place where its old lines stand. The
-- source counts the old lines by `oldCount`, which the parser has made their number.
unfoldable pub place_of : List Text → ParsedHunk → Option ℕ
unfolding matches_at find_block begins_with
place_of lines hunk =
    if leb 1 hunk.old_start && matches_at lines (hunk.old_start - 1) hunk.old_ordered
    then some (hunk.old_start - 1)
    else find_block lines hunk.old_ordered

abbrev pub splice : List Text → ℕ → ParsedHunk → List Text
splice lines pos hunk = take pos lines ++ (hunk.new_ordered ++ drop (pos + hunk.old_count) lines)

unfoldable pub apply_hunk : List Text → ParsedHunk → Result DiffError (List Text)
unfolding place_of
apply_hunk lines hunk = elim (place_of lines hunk) [
  | none ↦ err (context_mismatch hunk.old_start)
  | some pos ↦ ok (splice lines pos hunk)
]

unfoldable pub apply_hunks : List Text → List ParsedHunk → Result DiffError (List Text)
unfolding apply_hunk
apply_hunks lines [] = ok lines
apply_hunks lines (hunk ∷ hunks) = do next ← apply_hunk lines hunk; apply_hunks next hunks

-- `sort((a, b) => b.oldStart - a.oldStart)`: stable, the highest start first.
unfoldable pub insert_hunk : ParsedHunk → List ParsedHunk → List ParsedHunk
insert_hunk hunk [] = hunk ∷ []
insert_hunk hunk (other ∷ others) =
    if ltb hunk.old_start other.old_start
    then other ∷ insert_hunk hunk others
    else hunk ∷ other ∷ others

unfoldable pub sort_hunks : List ParsedHunk → List ParsedHunk
unfolding insert_hunk
sort_hunks [] = []
sort_hunks (hunk ∷ hunks) = insert_hunk hunk (sort_hunks hunks)

-- `lines.pop()` when the last is empty.
unfoldable pub pop_empty : List Text → List Text
pop_empty [] = []
pop_empty (line ∷ []) = if nat_eqb (length line) 0 then [] else line ∷ []
pop_empty (line ∷ next ∷ lines) = line ∷ pop_empty (next ∷ lines)

unfoldable pub split_lines : Text → List Text
unfolding drop_cr split_on_newline pop_empty
split_lines text =
    if nat_eqb (length text) 0 then [] else pop_empty (split_on_newline (drop_cr text))

unfoldable pub ends_with_newline : Text → Bool
ends_with_newline [] = false
ends_with_newline (c ∷ []) = nat_eqb c 10
ends_with_newline (c ∷ d ∷ s) = ends_with_newline (d ∷ s)

unfoldable pub join_lines : List Text → Bool → Text
unfolding join
join_lines lines trailing_newline = if trailing_newline then join lines ++ 10 ∷ [] else join lines

-- `applyUnifiedDiff` once the diff is parsed.
unfoldable pub apply_parsed : Text → List ParsedHunk → Result DiffError Text
unfolding split_lines ends_with_newline join_lines apply_hunks sort_hunks
apply_parsed base [] = err no_hunks
apply_parsed base (hunk ∷ hunks) = do
  lines ← apply_hunks (split_lines base) (sort_hunks (hunk ∷ hunks))
  ok (join_lines lines (ends_with_newline base))

unfoldable pub apply_unified_diff : Text → Text → Result DiffError Text
unfolding parse_unified_hunks apply_parsed
apply_unified_diff base diff = do hunks ← parse_unified_hunks diff; apply_parsed base hunks
