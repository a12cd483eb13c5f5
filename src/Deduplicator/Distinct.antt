-- ===== src/Deduplicator/Distinct.antt =====
-- The output of deduplicator.ts holds one finding for each key of its input.
use autoforge.Common.{
  ◌+◌, ◌≡◌, ◌∙◌, ◌&&◌, ◌||◌, ◌∷◌, ◌==◌, if◌then◌else◌, ℕ, suc, refl, ap, inl, inr, Bool, true, not,
  Option, none, some, List, [], map, arith, ltb, Bool-cases, ==_iff,
}
use autoforge.Common.Texts.{Text, text_eq}
use autoforge.Common.JsMap.{JsMap, set, get, has, has-set}
use autoforge.Deduplicator.{
  UnifiedFinding, winners_from, key_of, insert_finding, sort_findings, winner_of, deduplicate,
}
use autoforge.Deduplicator.Winners.{settle-Covers}

abbrev at_key : Text → UnifiedFinding → ℕ
at_key key finding = if key_of finding == key then 1 else 0

-- How many findings have a key.
abbrev pub count_key : Text → List UnifiedFinding → ℕ
count_key key [] = 0
count_key key (finding ∷ findings) = at_key key finding + count_key key findings

abbrev count_winners : Text → JsMap Text UnifiedFinding → ℕ
count_winners key winners = count_key key (map (λ entry. entry.1) winners)

-- Every entry stands under the key of its finding.
abbrev is_sound : JsMap Text UnifiedFinding → Bool
is_sound [] = true
is_sound ((key, w) ∷ winners) = key_of w == key && is_sound winners

set-is_sound :
    (winners : JsMap Text UnifiedFinding) (key : Text) (w : UnifiedFinding)
    → key_of w ≡ key
    → is_sound winners ≡ true
    → is_sound (set winners key w) ≡ true
unfolding set
set-is_sound [] key w same sound = ground (arith, ==_iff (key_of w) key)
set-is_sound ((j, v) ∷ winners) key w same sound =
    ground
      (arith, ==_iff (key_of w) key, ==_iff j key, ==_iff (key_of w) j, set-is_sound winners key w)

count-set :
    (winners : JsMap Text UnifiedFinding) (k key : Text) (w : UnifiedFinding)
    → key_of w ≡ k
    → is_sound winners ≡ true
    → count_winners key (set winners k w) ≡ (
        if k == key && not (has winners k)
        then suc (count_winners key winners)
        else count_winners key winners)
unfolding set has get
count-set [] k key w same sound = rw same (ground arith)
count-set ((j, v) ∷ winners) k key w same sound =
    ground
      (arith, ==_iff (key_of v) j, ==_iff j k, ap (λ t. t == key) same, count-set winners k key w)

get-is_sound :
    (winners : JsMap Text UnifiedFinding) (key : Text) (w : UnifiedFinding)
    → is_sound winners ≡ true
    → get winners key ≡ some w
    → key_of w ≡ key
unfolding get
get-is_sound [] key w sound e = absurd (cc e)
get-is_sound ((j, v) ∷ winners) key w sound e =
    ground (arith, ==_iff (key_of v) j, ==_iff j key, get-is_sound winners key w)

winner_of-key :
    (stored : Option UnifiedFinding) (finding : UnifiedFinding)
    → ((w : UnifiedFinding) → stored ≡ some w → key_of w ≡ key_of finding)
    → key_of (winner_of stored finding) ≡ key_of finding
winner_of-key none finding keyed = refl
winner_of-key (some w) finding keyed = (settle-Covers w finding (keyed w refl)).1.same_key

winners-count :
    (findings : List UnifiedFinding) (winners : JsMap Text UnifiedFinding) (key : Text)
    → is_sound winners ≡ true
    → count_winners key winners ≡ (if has winners key then 1 else 0)
    → count_winners key (winners_from winners findings)
      ≡ (if has winners key || ltb 0 (count_key key findings) then 1 else 0)
unfolding winners_from
winners-count [] winners key sound single = ground arith
winners-count (finding ∷ findings) winners key sound single =
    let k = key_of finding in
    let w = winner_of (get winners k) finding in
    let same : key_of w ≡ k =
      winner_of-key (get winners k) finding (λ v e. get-is_sound winners k v sound e) in
    let now = count-set winners k key w same sound in
    let held = has-set winners k key w in
    elim (Bool-cases (k == key)) [
      | inl hit ↦
          let here : has winners k ≡ has winners key = ap (has winners) ((==_iff k key).0 hit) in
          winners-count findings (set winners k w) key (set-is_sound winners k w same sound)
            (ground arith)
          ∙ ground arith
      | inr miss ↦
          winners-count findings (set winners k w) key (set-is_sound winners k w same sound)
            (ground arith)
          ∙ ground arith
    ]

module _ (comes_first : Text → Text → Bool) where
  count-insert :
      (key : Text) (finding : UnifiedFinding) (findings : List UnifiedFinding)
      → count_key key (insert_finding comes_first finding findings)
        ≡ at_key key finding + count_key key findings
  unfolding insert_finding
  count-insert key finding [] = refl
  count-insert key finding (other ∷ others) = elim (Bool-cases (comes_first other.id finding.id)) [
    | inl before ↦ rw before (omega (arith, count-insert key finding others))
    | inr after ↦ rw after refl
  ]

  count-sort :
      (key : Text) (findings : List UnifiedFinding)
      → count_key key (sort_findings comes_first findings) ≡ count_key key findings
  unfolding sort_findings
  count-sort key [] = refl
  count-sort key (finding ∷ findings) =
      count-insert key finding (sort_findings comes_first findings)
      ∙ ap (λ n. at_key key finding + n) (count-sort key findings)

  -- The output holds exactly one finding of every key that occurs in the input, and none of another
  -- key.
  pub count_key-deduplicate :
      (findings : List UnifiedFinding) (key : Text)
      → count_key key (deduplicate comes_first findings)
        ≡ (if ltb 0 (count_key key findings) then 1 else 0)
  unfolding has get
  count_key-deduplicate findings key =
      count-sort key (map (λ entry. entry.1) (winners_from [] findings))
      ∙ winners-count findings [] key refl refl
