-- ===== src/Deduplicator/Output.antt =====
-- The output of deduplicator.ts: what it holds for each finding of its input.
use autoforge.Common.{
  ◌≡◌, ◌⊎◌, ◌∙◌, ◌∷◌, ◌==◌, refl, sym, ap, inl, inr, Bool, Option, none, some, List, [], map,
  Bool-cases, ==_iff,
}
use autoforge.Deduplicator.{
  UnifiedFinding, winners_from, key_of, winner_of, insert_finding, sort_findings, deduplicate,
  settle,
}
use autoforge.Common.JsMap.{JsMap, get, set, get-set, get-set_self}
use autoforge.Common.Texts.{Text, text_eq}
use autoforge.Deduplicator.Winners.{Covers, Covers-self, settle-Covers, Covers-chain}

-- A finding of a list.
unfoldable pub IsIn : UnifiedFinding → List UnifiedFinding → Type 0
IsIn finding [] = ⊥
IsIn finding (other ∷ others) = (finding ≡ other) ⊎ IsIn finding others

-- Every winner stands under its own key.
unfoldable IsKeyed : JsMap Text UnifiedFinding → Type 0
IsKeyed winners = (key : Text) (w : UnifiedFinding) → get winners key ≡ some w → key_of w ≡ key

-- The winner under the key of a finding stands for it.
unfoldable Kept : JsMap Text UnifiedFinding → UnifiedFinding → Type 0
Kept winners finding =
    (w : UnifiedFinding) × (get winners (key_of finding) ≡ some w) × Covers w finding

winner_of-Covers :
    (stored : Option UnifiedFinding) (finding : UnifiedFinding)
    → ((w : UnifiedFinding) → stored ≡ some w → key_of w ≡ key_of finding)
    → Covers (winner_of stored finding) finding
winner_of-Covers none finding keyed = Covers-self finding
winner_of-Covers (some w) finding keyed = (settle-Covers w finding (keyed w refl)).1

abbrev step : JsMap Text UnifiedFinding → UnifiedFinding → JsMap Text UnifiedFinding
step winners finding =
    set winners (key_of finding) (winner_of (get winners (key_of finding)) finding)

step-IsKeyed :
    (winners : JsMap Text UnifiedFinding) (finding : UnifiedFinding)
    → IsKeyed winners
    → IsKeyed (step winners finding)
unfolding IsKeyed
step-IsKeyed winners finding keyed key w e =
    let winner = winner_of (get winners (key_of finding)) finding in
    let read = get-set winners (key_of finding) key winner in
    elim (Bool-cases (key_of finding == key)) [
      | inl hit ↦
          let same : some winner ≡ some w = rw (read, hit) at e in
          let eq : winner ≡ w = cc same in
          let covers =
            winner_of-Covers (get winners (key_of finding)) finding (keyed (key_of finding)) in
          ap key_of (sym eq) ∙ covers.same_key ∙ (==_iff (key_of finding) key).0 hit
      | inr miss ↦ keyed key w (rw (read, miss) at e)
    ]

step-Kept-new :
    (winners : JsMap Text UnifiedFinding) (finding : UnifiedFinding)
    → IsKeyed winners
    → Kept (step winners finding) finding
unfolding Kept IsKeyed
step-Kept-new winners finding keyed = (
  winner_of (get winners (key_of finding)) finding,
  get-set_self winners (key_of finding) (winner_of (get winners (key_of finding)) finding),
  winner_of-Covers (get winners (key_of finding)) finding (keyed (key_of finding)),
)

step-Kept-old :
    (winners : JsMap Text UnifiedFinding) (finding old : UnifiedFinding)
    → IsKeyed winners
    → Kept winners old
    → Kept (step winners finding) old
unfolding Kept IsKeyed
step-Kept-old winners finding old keyed (w, e, covers) =
    let winner = winner_of (get winners (key_of finding)) finding in
    let read = get-set winners (key_of finding) (key_of old) winner in
    elim (Bool-cases (key_of finding == key_of old)) [
      | inl hit ↦
          let same : key_of finding ≡ key_of old = (==_iff (key_of finding) (key_of old)).0 hit in
          let found : get winners (key_of finding) ≡ some w = ap (get winners) same ∙ e in
          let now : winner ≡ settle w finding = ap (λ stored. winner_of stored finding) found in
          (
            settle w finding,
            read ∙ rw hit (ap some now),
            Covers-chain (settle w finding) w old
                (settle-Covers w finding (keyed (key_of finding) w found)).0 covers,
          )
      | inr miss ↦ (w, read ∙ rw miss e, covers)
    ]

winners-Kept-old :
    (findings : List UnifiedFinding) (winners : JsMap Text UnifiedFinding) (old : UnifiedFinding)
    → IsKeyed winners
    → Kept winners old
    → Kept (winners_from winners findings) old
unfolding winners_from
winners-Kept-old [] winners old keyed kept = kept
winners-Kept-old (finding ∷ findings) winners old keyed kept =
    winners-Kept-old findings (step winners finding) old (step-IsKeyed winners finding keyed)
      (step-Kept-old winners finding old keyed kept)

winners-Kept :
    (findings : List UnifiedFinding) (winners : JsMap Text UnifiedFinding)
    (finding : UnifiedFinding)
    → IsKeyed winners
    → IsIn finding findings
    → Kept (winners_from winners findings) finding
unfolding winners_from IsIn
winners-Kept [] winners finding keyed never = absurd never
winners-Kept (other ∷ findings) winners finding keyed (inl same) =
    winners-Kept-old findings (step winners other) finding (step-IsKeyed winners other keyed)
      (rw same (step-Kept-new winners other keyed))
winners-Kept (other ∷ findings) winners finding keyed (inr more) =
    winners-Kept findings (step winners other) finding (step-IsKeyed winners other keyed) more

values-IsIn :
    (winners : JsMap Text UnifiedFinding) (key : Text) (w : UnifiedFinding)
    → get winners key ≡ some w
    → IsIn w (map (λ entry. entry.1) winners)
unfolding get IsIn
values-IsIn [] key w e = absurd (cc e)
values-IsIn ((k, v) ∷ winners) key w e = elim (Bool-cases (k == key)) [
  | inl hit ↦ inl (let same : some v ≡ some w = rw hit at e in sym (cc same))
  | inr miss ↦ inr (values-IsIn winners key w (rw miss at e))
]

module _ (comes_first : Text → Text → Bool) where
  insert-IsIn :
      (w finding : UnifiedFinding) (findings : List UnifiedFinding)
      → (w ≡ finding) ⊎ IsIn w findings
      → IsIn w (insert_finding comes_first finding findings)
  unfolding insert_finding IsIn
  insert-IsIn w finding [] given = given
  insert-IsIn w finding (other ∷ others) given =
      elim (Bool-cases (comes_first other.id finding.id)) [
        | inl before ↦ rw before (elim given [
          | inl new ↦ inr (insert-IsIn w finding others (inl new))
          | inr (inl head) ↦ inl head
          | inr (inr tail) ↦ inr (insert-IsIn w finding others (inr tail))
        ])
        | inr after ↦ rw after given
      ]

  sort-IsIn :
      (w : UnifiedFinding) (findings : List UnifiedFinding)
      → IsIn w findings
      → IsIn w (sort_findings comes_first findings)
  unfolding sort_findings IsIn
  sort-IsIn w [] never = never
  sort-IsIn w (finding ∷ findings) (inl head) =
      insert-IsIn w finding (sort_findings comes_first findings) (inl head)
  sort-IsIn w (finding ∷ findings) (inr tail) =
      insert-IsIn w finding (sort_findings comes_first findings) (inr (sort-IsIn w findings tail))

  empty-IsKeyed : IsKeyed []
  unfolding IsKeyed get
  empty-IsKeyed key w e = absurd (cc e)

  -- No finding is lost: for every finding of the input the output holds one of the same key (file,
  -- line, type and severity) that is at least as confident and has all its references.
  pub deduplicate-Covers :
      (findings : List UnifiedFinding) (finding : UnifiedFinding)
      → IsIn finding findings
      → (w : UnifiedFinding) × IsIn w (deduplicate comes_first findings) × Covers w finding
  unfolding Kept
  deduplicate-Covers findings finding given =
      let (w, e, covers) = winners-Kept findings [] finding empty-IsKeyed given in
      (
        w,
        sort-IsIn w (map (λ entry. entry.1) (winners_from [] findings))
            (values-IsIn (winners_from [] findings) (key_of finding) w e),
        covers,
      )
