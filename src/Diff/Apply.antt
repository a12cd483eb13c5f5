-- ===== src/Diff/Apply.antt =====
-- `applyUnifiedDiff`: what an application that succeeds has done, and when one hunk is refused.
use autoforge.Common.{
  ◌+◌, ◌≡◌, ◌↔◌, ◌∙◌, ◌∷◌, ◌++◌, refl, sym, ap, subst, inl, inr, List, [], Option-cases, length,
  take, drop, All, ◌≢◌, ltb, nat_eqb, Bool-cases, nat_eqb_iff,
}
use autoforge.Diff.{
  ParsedHunk, apply_hunk, apply_hunks, Text, ok, place_of, splice, context_mismatch, insert_hunk,
  sort_hunks, close_hunk, read_line, read_lines, parse_unified_hunks, apply_unified_diff, Header,
  Mode, read_end, split_on_newline, apply_parsed, read_between, body, drop_cr, split_lines,
  is_short, between, join_lines, ends_with_newline,
}
use autoforge.Common.Texts.{Text}
use autoforge.Diff.Occurs.{StandsAt, Occurs, place_of-StandsAt, place_of-finds}
use autoforge.Common.Result.{ok, ok-injective, bind-ok, err, ◌>>=◌}

-- One block of the old lines is replaced by the new lines, and nothing else changes.
pub Replaces : ParsedHunk → List Text → List Text → Type 0
Replaces hunk lines result =
    (before : List Text) × (after : List Text) × (lines ≡ before ++ (hunk.old_ordered ++ after))
    × (result ≡ before ++ (hunk.new_ordered ++ after))

-- The hunks replace their blocks one after the other.
pub data Replaced : List ParsedHunk → List Text → List Text → Type 0 where
  nothing_left : (lines : List Text) → Replaced [] lines lines
  replaced :
      {hunk : ParsedHunk} {hunks : List ParsedHunk} {lines next result : List Text}
      → Replaces hunk lines next
      → Replaced hunks next result
      → Replaced (hunk ∷ hunks) lines result

-- The declared count is the number of old lines.
pub IsExact : ParsedHunk → Type 0
IsExact hunk = hunk.old_count ≡ length hunk.old_ordered

apply_hunk-Replaces :
    (lines result : List Text) (hunk : ParsedHunk)
    → IsExact hunk
    → apply_hunk lines hunk ≡ ok result
    → Replaces hunk lines result
unfolding apply_hunk Replaces StandsAt IsExact
apply_hunk-Replaces lines result hunk exact h = elim (Option-cases (place_of lines hunk)) [
  | inl e ↦ absurd (cc (rw (apply_hunk, e) at h))
  | inr (p, e) ↦
      let done : splice lines p hunk ≡ result = ok-injective (rw (apply_hunk, e) at h) in
      (
        take p lines,
        drop (p + length hunk.old_ordered) lines,
        place_of-StandsAt lines hunk p e,
        sym done ∙ ap (λ n. take p lines ++ (hunk.new_ordered ++ drop (p + n) lines)) exact,
      )
]

-- One hunk is refused, with its declared start, exactly when its old lines stand nowhere in the
-- file as one block. The declared start does not matter.
pub apply_hunk-err :
    (lines : List Text) (hunk : ParsedHunk)
    → (apply_hunk lines hunk ≡ err (context_mismatch hunk.old_start))
      ↔ ¬ Occurs hunk.old_ordered lines
unfolding apply_hunk StandsAt Occurs
apply_hunk-err lines hunk = elim (Option-cases (place_of lines hunk)) [
  | inl e ↦ (λ h occurs. place_of-finds lines hunk occurs e, λ _. rw (apply_hunk, e) refl)
  | inr (p, e) ↦ (
    λ h. absurd (cc (rw (apply_hunk, e) at h)),
    λ never. absurd (
        never (
          take p lines,
          drop (p + length hunk.old_ordered) lines,
          place_of-StandsAt lines hunk p e,
        )),
  )
]

apply_hunks-Replaced :
    (hunks : List ParsedHunk) (lines result : List Text)
    → All IsExact hunks
    → apply_hunks lines hunks ≡ ok result
    → Replaced hunks lines result
unfolding apply_hunks
apply_hunks-Replaced [] lines result exact h =
    subst (λ r. Replaced [] lines r) (ok-injective h) (nothing_left lines)
apply_hunks-Replaced (hunk ∷ hunks) lines result (e, exact) h =
    let (next, step, rest) = bind-ok (apply_hunk lines hunk) (λ n. apply_hunks n hunks) h in
    replaced (apply_hunk-Replaces lines next hunk e step)
      (apply_hunks-Replaced hunks next result exact rest)

-- Sorting keeps what holds of every hunk.
insert_hunk-All :
    (P : ParsedHunk → Type 0) (hunk : ParsedHunk) (hunks : List ParsedHunk)
    → P hunk
    → All P hunks
    → All P (insert_hunk hunk hunks)
unfolding insert_hunk
insert_hunk-All P hunk [] p ps = (p, ps)
insert_hunk-All P hunk (other ∷ others) p (q, qs) =
    elim (Bool-cases (ltb hunk.old_start other.old_start)) [
      | inl b ↦ rw b (q, insert_hunk-All P hunk others p qs)
      | inr b ↦ rw b (p, (q, qs))
    ]

sort_hunks-All :
    (P : ParsedHunk → Type 0) (hunks : List ParsedHunk) → All P hunks → All P (sort_hunks hunks)
unfolding sort_hunks
sort_hunks-All P [] ps = ps
sort_hunks-All P (hunk ∷ hunks) (p, ps) =
    insert_hunk-All P hunk (sort_hunks hunks) p (sort_hunks-All P hunks ps)

All-append :
    (P : ParsedHunk → Type 0) (xs ys : List ParsedHunk) → All P xs → All P ys → All P (xs ++ ys)
All-append P [] ys ps qs = qs
All-append P (x ∷ xs) ys (p, ps) qs = (p, All-append P xs ys ps qs)

-- The parser pushes only hunks whose sides have their declared lengths.
close_hunk-IsExact :
    (h : Header) (old new : List Text) (hunks result : List ParsedHunk)
    → All IsExact hunks
    → close_hunk h old new hunks ≡ ok result
    → All IsExact result
unfolding close_hunk IsExact
close_hunk-IsExact h old new hunks result exact e =
    elim (Bool-cases (nat_eqb (length old) h.old_count)) [
      | inl b ↦ elim (Bool-cases (nat_eqb (length new) h.new_count)) [
        | inl c ↦
            subst (λ r. All IsExact r) (ok-injective (rw (close_hunk, b, c) at e))
              (All-append IsExact hunks _ exact
                (sym ((nat_eqb_iff (length old) h.old_count).0 b), tt))
        | inr c ↦ absurd (cc (rw (close_hunk, b, c) at e))
      ]
      | inr b ↦ absurd (cc (rw (close_hunk, b) at e))
    ]

read_line-IsExact :
    (mode : Mode) (hunks : List ParsedHunk) (line : Text) (next : Mode × List ParsedHunk)
    → All IsExact hunks
    → read_line mode hunks line ≡ ok next
    → All IsExact next.1
unfolding read_line
read_line-IsExact between hunks line next exact e =
    let (mode, _, done) = bind-ok (read_between line) (λ mode. ok (mode, hunks)) e in
    subst (λ n. All IsExact n.1) (ok-injective done) exact
read_line-IsExact (body h old new) hunks line next exact e =
    elim (Bool-cases (is_short h old new)) [
      | inl b ↦ subst (λ n. All IsExact n.1) (ok-injective (rw b at e)) exact
      | inr b ↦
          let (hunks', closed, rest) =
            bind-ok (close_hunk h old new hunks)
              (λ hs. read_between line >>= (λ mode. ok (mode, hs))) (rw b at e) in
          let (mode, _, done) = bind-ok (read_between line) (λ mode. ok (mode, hunks')) rest in
          subst (λ n. All IsExact n.1) (ok-injective done)
            (close_hunk-IsExact h old new hunks hunks' exact closed)
    ]

read_lines-IsExact :
    (lines : List Text) (mode : Mode) (hunks result : List ParsedHunk)
    → All IsExact hunks
    → read_lines mode hunks lines ≡ ok result
    → All IsExact result
unfolding read_lines read_end
read_lines-IsExact [] between hunks result exact e =
    subst (λ r. All IsExact r) (ok-injective e) exact
read_lines-IsExact [] (body h old new) hunks result exact e =
    close_hunk-IsExact h old new hunks result exact e
read_lines-IsExact (line ∷ lines) mode hunks result exact e =
    let (next, step, rest) =
      bind-ok (read_line mode hunks line) (λ n. read_lines n.0 n.1 lines) e in
    read_lines-IsExact lines next.0 next.1 result
      (read_line-IsExact mode hunks line next exact step) rest

parse_unified_hunks-IsExact :
    (diff : Text) (hunks : List ParsedHunk)
    → parse_unified_hunks diff ≡ ok hunks
    → All IsExact hunks
unfolding parse_unified_hunks
parse_unified_hunks-IsExact diff hunks e =
    read_lines-IsExact (split_on_newline (drop_cr diff)) between [] hunks tt e

apply_parsed-Replaced :
    (base result : Text) (hunks : List ParsedHunk)
    → All IsExact hunks
    → apply_parsed base hunks ≡ ok result
    → (lines : List Text) × (hunks ≢ [])
      × Replaced (sort_hunks hunks) (split_lines base) lines
      × (result ≡ join_lines lines (ends_with_newline base))
unfolding apply_parsed
apply_parsed-Replaced base result [] exact e = absurd (cc e)
apply_parsed-Replaced base result (hunk ∷ hunks) exact e =
    let (lines, step, done) =
      bind-ok (apply_hunks (split_lines base) (sort_hunks (hunk ∷ hunks)))
        (λ ls. ok (join_lines ls (ends_with_newline base))) e in
    (
      lines,
      (λ same. absurd (cc same)),
      apply_hunks-Replaced (sort_hunks (hunk ∷ hunks)) (split_lines base) lines
          (sort_hunks-All IsExact (hunk ∷ hunks) exact) step,
      sym (ok-injective done),
    )

-- When a diff applies, it has at least one hunk, and the result is the file in which the hunks,
-- from the highest start down, have each replaced one whole block equal to their old lines by
-- their new lines, with a final newline just when the file had one.
pub apply_unified_diff-Replaced :
    (base diff result : Text)
    → apply_unified_diff base diff ≡ ok result
    → (hunks : List ParsedHunk) × (lines : List Text) × (parse_unified_hunks diff ≡ ok hunks)
      × (hunks ≢ [])
      × Replaced (sort_hunks hunks) (split_lines base) lines
      × (result ≡ join_lines lines (ends_with_newline base))
unfolding apply_unified_diff
apply_unified_diff-Replaced base diff result h =
    let (hunks, parsed, rest) = bind-ok (parse_unified_hunks diff) (apply_parsed base) h in
    let (lines, some_hunk, chain, same) =
      apply_parsed-Replaced base result hunks (parse_unified_hunks-IsExact diff hunks parsed)
        rest in
    (hunks, lines, parsed, some_hunk, chain, same)
