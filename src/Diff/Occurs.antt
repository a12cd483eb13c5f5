-- ===== src/Diff/Occurs.antt =====
-- Where the old lines of a hunk stand in a file: the tests and the search of
-- `applyUnifiedDiff`, against a description that is independent of positions.
use autoforge.Diff.{begins_with, find_block, Text, matches_at, place_of, ParsedHunk}
use autoforge.Common.{
  ◌+◌, ◌≡◌, ◌≢◌, ◌∙◌, ◌∷◌, ◌++◌, ◌==◌, ℕ, zero, suc, refl, sym, ap, subst, inl, inr, true, none,
  some, List, [], Bool-cases, Option-cases, length, take, drop, take-append-drop, ==_iff, ==_self,
  ◌-◌, ◌&&◌, arith, leb,
}
use autoforge.Common.Texts.{Text, text_eq}

-- The block stands in the lines.
unfoldable pub Occurs : List Text → List Text → Type 0
Occurs block lines =
    (before : List Text) × (after : List Text) × (lines ≡ before ++ (block ++ after))

begins_with-split :
    (lines block : List Text)
    → begins_with lines block ≡ true
    → lines ≡ block ++ drop (length block) lines
unfolding begins_with
begins_with-split lines [] h = refl
begins_with-split [] (l ∷ block) h = absurd (cc h)
begins_with-split (x ∷ lines) (l ∷ block) h = elim (Bool-cases (x == l)) [
  | inl same ↦
      let e : x ≡ l = (==_iff x l).0 same in
      let r : begins_with lines block ≡ true = (rw same at h) in
      cc (e, begins_with-split lines block r)
  | inr differs ↦ absurd (cc (rw differs at h))
]

begins_with-append : (block after : List Text) → begins_with (block ++ after) block ≡ true
unfolding begins_with
begins_with-append [] after = refl
begins_with-append (l ∷ block) after = rw (==_self l) (begins_with-append block after)

drop-nil {ℓ} : {A : Type ℓ} (n : ℕ) → drop {A = A} n [] ≡ []
drop-nil zero = refl
drop-nil (suc n) = refl

drop-drop {ℓ} : {A : Type ℓ} (m n : ℕ) (xs : List A) → drop n (drop m xs) ≡ drop (m + n) xs
drop-drop zero n xs = let e : n ≡ 0 + n = omega arith in ap (λ k. drop k xs) e
drop-drop (suc m) n [] = drop-nil n ∙ sym (drop-nil (suc m + n))
drop-drop (suc m) n (x ∷ xs) =
    let e : suc (m + n) ≡ suc m + n = omega arith in drop-drop m n xs ∙ ap (λ k. drop k (x ∷ xs)) e

-- A position at which the block stands.
unfoldable pub StandsAt : ℕ → List Text → List Text → Type 0
StandsAt p block lines = lines ≡ take p lines ++ (block ++ drop (p + length block) lines)

at_drop :
    (p : ℕ) (block lines : List Text)
    → begins_with (drop p lines) block ≡ true
    → StandsAt p block lines
unfolding StandsAt
at_drop p block lines h =
    sym (take-append-drop p lines)
    ∙ ap (λ r. take p lines ++ r)
        (begins_with-split (drop p lines) block h
          ∙ ap (λ r. block ++ r) (drop-drop p (length block) lines))

find_block-begins :
    (lines block : List Text) (p : ℕ)
    → find_block lines block ≡ some p
    → begins_with (drop p lines) block ≡ true
unfolding find_block
find_block-begins [] block p h = elim (Bool-cases (begins_with [] block)) [
  | inl b ↦
      let same : 0 ≡ p = cc (rw b at h) in subst (λ q. begins_with (drop q []) block ≡ true) same b
  | inr b ↦ absurd (cc (rw b at h))
]
find_block-begins (x ∷ lines) block p h = elim (Bool-cases (begins_with (x ∷ lines) block)) [
  | inl b ↦
      let same : 0 ≡ p = cc (rw b at h) in
      subst (λ q. begins_with (drop q (x ∷ lines)) block ≡ true) same b
  | inr b ↦ elim (Option-cases (find_block lines block)) [
    | inl e ↦ absurd (cc (rw (b, e) at h))
    | inr (q, e) ↦
        let same : suc q ≡ p = cc (rw (b, e) at h) in
        subst (λ r. begins_with (drop r (x ∷ lines)) block ≡ true) same
          (find_block-begins lines block q e)
  ]
]

find_block-here :
    (lines block : List Text) → begins_with lines block ≡ true → find_block lines block ≢ none
unfolding find_block
find_block-here [] block b h = absurd (cc (rw b at h))
find_block-here (x ∷ lines) block b h = absurd (cc (rw b at h))

find_block-finds :
    (before block after : List Text) → find_block (before ++ (block ++ after)) block ≢ none
unfolding find_block
find_block-finds [] block after h =
    find_block-here (block ++ after) block (begins_with-append block after) h
find_block-finds (x ∷ before) block after h =
    elim (Bool-cases (begins_with (x ∷ (before ++ (block ++ after))) block)) [
      | inl b ↦ absurd (cc (rw b at h))
      | inr b ↦ elim (Option-cases (find_block (before ++ (block ++ after)) block)) [
        | inl e ↦ find_block-finds before block after e
        | inr (q, e) ↦ absurd (cc (rw (b, e) at h))
      ]
    ]

matches_at-begins :
    (lines block : List Text) (p : ℕ)
    → matches_at lines p block ≡ true
    → begins_with (drop p lines) block ≡ true
unfolding matches_at
matches_at-begins lines block p h = elim (Bool-cases (leb (p + length block) (length lines))) [
  | inl b ↦ rw b at h
  | inr b ↦ absurd (cc (rw b at h))
]

-- The place that is chosen is one where the old lines stand.
pub place_of-StandsAt :
    (lines : List Text) (hunk : ParsedHunk) (p : ℕ)
    → place_of lines hunk ≡ some p
    → StandsAt p hunk.old_ordered lines
unfolding place_of
place_of-StandsAt lines hunk p h =
    elim (Bool-cases
      (leb 1 hunk.old_start && matches_at lines (hunk.old_start - 1) hunk.old_ordered)) [
        | inl declared ↦
            let same : hunk.old_start - 1 ≡ p = cc (rw declared at h) in
            let stands : matches_at lines (hunk.old_start - 1) hunk.old_ordered ≡ true =
              elim (Bool-cases (leb 1 hunk.old_start)) [
                | inl b ↦ rw b at declared
                | inr b ↦ absurd (cc (rw b at declared))
              ] in
            at_drop p hunk.old_ordered lines (
              matches_at-begins lines hunk.old_ordered p
                (subst (λ q. matches_at lines q hunk.old_ordered ≡ true) same stands))
        | inr other ↦
            at_drop p hunk.old_ordered lines
              (find_block-begins lines hunk.old_ordered p (rw other at h))
      ]

-- A place is found for every hunk whose old lines stand somewhere.
pub place_of-finds :
    (lines : List Text) (hunk : ParsedHunk)
    → Occurs hunk.old_ordered lines
    → place_of lines hunk ≢ none
unfolding place_of Occurs
place_of-finds lines hunk (before, after, e) h =
    elim (Bool-cases
      (leb 1 hunk.old_start && matches_at lines (hunk.old_start - 1) hunk.old_ordered)) [
        | inl declared ↦ absurd (cc (rw declared at h))
        | inr other ↦
            find_block-finds before hunk.old_ordered after
              (subst (λ l. find_block l hunk.old_ordered ≡ none) e (rw other at h))
      ]
