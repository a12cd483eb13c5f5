-- ===== src/Deduplicator/Winners.antt =====
-- What deduplicator.ts keeps of the findings that it is given.
use autoforge.Common.{
  ◌≤◌, ◌≡◌, ◌⊎◌, ◌∙◌, ◌||◌, ◌∷◌, ◌++◌, ◌==◌, refl, inl, inr, Bool, true, false, not, List, [],
  Bool-cases, filter, any, ==_iff, ℕ, sym, arith, ltb, nat_eqb, nat_eqb_iff, ltb→lt,
}
use autoforge.Common.Texts.{Text, text_eq}
use autoforge.Deduplicator.{UnifiedFinding, unique, key_of, should_replace, settle}

abbrev pub refers : Text → List Text → Bool
refers r items = any (λ item. item == r) items

-- A finding that stands for another one.
pub record Covers (winner finding : UnifiedFinding) : Type 0 where
  pub same_key : key_of winner ≡ key_of finding
  pub is_confident : finding.confidence ≤ winner.confidence
  pub has_references :
      (r : Text) → (refers r finding.references ≡ false) ⊎ (refers r winner.references ≡ true)

refers-filter :
    (r item : Text) (items : List Text)
    → (item == r) ≡ false
    → refers r (filter (λ other. not (item == other)) items) ≡ refers r items
refers-filter r item [] miss = refl
refers-filter r item (other ∷ items) miss = elim (Bool-cases (item == other)) [
  | inl hit ↦
      let same : (other == r) ≡ false = rw⁻¹ ((==_iff item other).0 hit) miss in
      rw (hit, same) (refers-filter r item items miss)
  | inr kept ↦ rw (kept, refers-filter r item items miss) refl
]

refers-unique : (r : Text) (items : List Text) → refers r (unique items) ≡ refers r items
unfolding unique
refers-unique r [] = refl
refers-unique r (item ∷ items) = elim (Bool-cases (item == r)) [
  | inl hit ↦ rw hit refl
  | inr miss ↦ rw (miss, refers-filter r item (unique items) miss, refers-unique r items) refl
]

refers-append : (r : Text) (xs ys : List Text) → refers r (xs ++ ys) ≡ (refers r xs || refers r ys)
refers-append r [] ys = refl
refers-append r (x ∷ xs) ys = elim (Bool-cases (x == r)) [
  | inl hit ↦ rw hit refl
  | inr miss ↦ rw (miss, refers-append r xs ys) refl
]

refers-merged :
    (r : Text) (xs ys : List Text) → refers r (unique (xs ++ ys)) ≡ (refers r xs || refers r ys)
refers-merged r xs ys = refers-unique r (xs ++ ys) ∙ refers-append r xs ys

merged-left :
    (r : Text) (xs ys : List Text) → (refers r xs ≡ false) ⊎ (refers r (unique (xs ++ ys)) ≡ true)
merged-left r xs ys = elim (Bool-cases (refers r xs)) [
  | inl hit ↦ inr (refers-merged r xs ys ∙ rw hit refl)
  | inr miss ↦ inl miss
]

or_true : (b : Bool) → (b || true) ≡ true
or_true true = refl
or_true false = refl

merged-right :
    (r : Text) (xs ys : List Text) → (refers r ys ≡ false) ⊎ (refers r (unique (xs ++ ys)) ≡ true)
merged-right r xs ys = elim (Bool-cases (refers r ys)) [
  | inl hit ↦ inr (refers-merged r xs ys ∙ rw hit (or_true (refers r xs)))
  | inr miss ↦ inl miss
]

replaced-confident :
    (existing finding : UnifiedFinding)
    → should_replace existing finding ≡ true
    → existing.confidence ≤ finding.confidence
replaced-confident existing finding e =
    elim (Bool-cases (nat_eqb finding.confidence existing.confidence)) [
      | inl same ↦
          let eq = (nat_eqb_iff finding.confidence existing.confidence).0 same in omega arith
      | inr other ↦
          let lt = ltb→lt existing.confidence finding.confidence (rw other at e) in omega arith
    ]

kept-confident :
    (existing finding : UnifiedFinding)
    → should_replace existing finding ≡ false
    → finding.confidence ≤ existing.confidence
kept-confident existing finding e =
    elim (Bool-cases (nat_eqb finding.confidence existing.confidence)) [
      | inl same ↦
          let eq = (nat_eqb_iff finding.confidence existing.confidence).0 same in omega arith
      | inr other ↦ not_less existing.confidence finding.confidence (rw other at e)
    ]
  where
    not_less : (a b : ℕ) → ltb a b ≡ false → b ≤ a
    not_less a b h = ground arith

-- What stays under a key stands for both the finding that was there and the one that came.
pub settle-Covers :
    (existing finding : UnifiedFinding)
    → key_of existing ≡ key_of finding
    → Covers (settle existing finding) existing × Covers (settle existing finding) finding
unfolding key_of
settle-Covers existing finding same = elim (Bool-cases (should_replace existing finding)) [
  | inl new ↦ rw new (
    record {
      same_key = sym same;
      is_confident = replaced-confident existing finding new;
      has_references = λ r. merged-left r existing.references finding.references;
    },
    record {
      same_key = refl;
      is_confident = omega arith;
      has_references = λ r. merged-right r existing.references finding.references;
    },
  )
  | inr old ↦ rw old (
    record {
      same_key = refl;
      is_confident = omega arith;
      has_references = λ r. merged-left r existing.references finding.references;
    },
    record {
      same_key = same;
      is_confident = kept-confident existing finding old;
      has_references = λ r. merged-right r existing.references finding.references;
    },
  )
]

pub Covers-self : (finding : UnifiedFinding) → Covers finding finding
Covers-self finding = record {
  same_key = refl;
  is_confident = omega arith;
  has_references = λ r. elim (Bool-cases (refers r finding.references)) [
    | inl hit ↦ inr hit
    | inr miss ↦ inl miss
  ];
}

pub Covers-chain : (a b c : UnifiedFinding) → Covers a b → Covers b c → Covers a c
Covers-chain a b c first second = record {
  same_key = first.same_key ∙ second.same_key;
  is_confident = (let x = first.is_confident in let y = second.is_confident in omega arith);
  has_references = λ r. elim (second.has_references r) [
    | inl miss ↦ inl miss
    | inr hit ↦ elim (first.has_references r) [
      | inl miss ↦ absurd (cc (hit, miss))
      | inr found ↦ inr found
    ]
  ];
}
