-- ===== src/Deduplicator.antt =====
-- The deduplication of findings of several scanners:
-- backend/src/static-scanner/infrastructure/scanning/deduplicator/deduplicator.ts, over the finding of
-- domain/models/finding.ts. Confidences are only compared, so they are natural numbers here; the
-- order of `localeCompare` is a parameter.
pub mod Winners
pub mod Output
pub mod Distinct
mod Tests
use mathlib.Core.Option
use autoforge.Common.{
  ◌∷◌, ◌++◌, ◌==◌, if◌then◌else◌, ℕ, Bool, true, false, not, Option, none, some, List, [], map, ltb,
  nat_eqb, filter,
}
use autoforge.Common.Texts.{Text, text_eq, codes}
use autoforge.Common.JsMap.{JsMap, set, get}
use autoforge.Common.Decimal.{show_ℕ}

pub record UnifiedFinding : Type 0 where
  pub id : Text
  pub scanner : Text
  pub type : Text
  pub severity : Text
  pub confidence : ℕ
  pub file : Option Text
  pub line : Option ℕ
  pub message : Text
  pub cwe : Option Text
  pub cve : Option Text
  pub references : List Text
  pub evidence : Option Text
  pub created_at : Text

abbrev line_text : Option ℕ → Text
line_text none = []
line_text (some line) = show_ℕ line

-- `keyOf`.
unfoldable pub key_of : UnifiedFinding → Text
key_of finding =
    Option.get_or finding.file []
    ++ (codes "|"
        ++ (line_text finding.line
            ++ (codes "|" ++ (finding.type ++ (codes "|" ++ finding.severity)))))

-- `<` on strings, by their code units.
abbrev text_ltb : Text → Text → Bool
text_ltb s [] = false
text_ltb [] (d ∷ t) = true
text_ltb (c ∷ s) (d ∷ t) = if nat_eqb c d then text_ltb s t else ltb c d

abbrev pub should_replace : UnifiedFinding → UnifiedFinding → Bool
should_replace existing candidate =
    if nat_eqb candidate.confidence existing.confidence
    then text_ltb candidate.scanner existing.scanner
    else ltb existing.confidence candidate.confidence

-- `[...new Set(items)]`: the first of equal items is kept.
unfoldable pub unique : List Text → List Text
unique [] = []
unique (item ∷ items) = item ∷ filter (λ other. not (item == other)) (unique items)

abbrev first_some {ℓ} : {A : Type ℓ} → Option A → Option A → Option A
first_some (some a) other = some a
first_some none other = other

-- `merge`: the candidate, with what it lacks of the existing one.
abbrev pub merge : UnifiedFinding → UnifiedFinding → UnifiedFinding
merge existing candidate = record candidate {
  references = unique (existing.references ++ candidate.references);
  cwe = first_some candidate.cwe existing.cwe;
  cve = first_some candidate.cve existing.cve;
  evidence = first_some candidate.evidence existing.evidence;
}

-- What stays under a key when another finding of that key comes.
abbrev pub settle : UnifiedFinding → UnifiedFinding → UnifiedFinding
settle existing finding =
    if should_replace existing finding
    then merge existing finding
    else record existing { references = unique (existing.references ++ finding.references) }

abbrev pub winner_of : Option UnifiedFinding → UnifiedFinding → UnifiedFinding
winner_of none finding = finding
winner_of (some existing) finding = settle existing finding

-- The loop of `deduplicate`.
unfoldable pub winners_from :
    JsMap Text UnifiedFinding → List UnifiedFinding → JsMap Text UnifiedFinding
winners_from winners [] = winners
winners_from winners (finding ∷ findings) =
    winners_from (set winners (key_of finding) (winner_of (get winners (key_of finding)) finding))
      findings

module _ (comes_first : Text → Text → Bool) where
  -- `sort`, which is stable, by `localeCompare` of the ids.
  unfoldable pub insert_finding : UnifiedFinding → List UnifiedFinding → List UnifiedFinding
  insert_finding finding [] = finding ∷ []
  insert_finding finding (other ∷ others) =
      let rest = insert_finding finding others in
      if comes_first other.id finding.id then other ∷ rest else finding ∷ other ∷ others

  unfoldable pub sort_findings : List UnifiedFinding → List UnifiedFinding
  sort_findings [] = []
  sort_findings (finding ∷ findings) = insert_finding finding (sort_findings findings)

  abbrev pub deduplicate : List UnifiedFinding → List UnifiedFinding
  deduplicate findings = sort_findings (map (λ entry. entry.1) (winners_from [] findings))
