-- ===== src/Deduplicator/Tests.antt =====
-- Two scanners report one weakness; a third finding is of another line.
use autoforge.Common.{◌≡◌, ◌∷◌, ℕ, refl, inl, Bool, none, some, List, [], map, if◌then◌else◌, ltb}
use autoforge.Common.Texts.{Text, codes}
use autoforge.Deduplicator.{
  UnifiedFinding, winners_from, text_ltb, key_of, deduplicate, unique, insert_finding,
  sort_findings, get, show_ℕ,
}
use autoforge.Deduplicator.Output.{IsIn, deduplicate-Covers}
use autoforge.Deduplicator.Winners.{Covers}
use autoforge.Common.JsMap.{get, set}
use autoforge.Deduplicator.Distinct.{count_key, count_key-deduplicate}
use autoforge.Common.Decimal.{show_ℕ}

abbrev comes_first : Text → Text → Bool
comes_first a b = text_ltb a b

abbrev sample : Text → Text → ℕ → ℕ → List Text → UnifiedFinding
sample id scanner confidence line references = record {
  id = id;
  scanner = scanner;
  type = codes "sqli";
  severity = codes "high";
  confidence = confidence;
  file = some (codes "app.py");
  line = some line;
  message = codes "query";
  cwe = none;
  cve = none;
  references = references;
  evidence = none;
  created_at = codes "now";
}

abbrev bandit : UnifiedFinding
bandit = sample (codes "b") (codes "Bandit") 7 12 (codes "r1" ∷ [])

abbrev semgrep : UnifiedFinding
semgrep = sample (codes "c") (codes "Semgrep") 9 12 (codes "r2" ∷ codes "r1" ∷ [])

abbrev other_line : UnifiedFinding
other_line = sample (codes "a") (codes "Bandit") 5 30 []

deduplicate_test :
    map {B = Text × List Text}
      (λ f. (f.id, f.references))
      (deduplicate comes_first (bandit ∷ semgrep ∷ other_line ∷ []))
    ≡ (codes "a", []) ∷ (codes "c", codes "r1" ∷ codes "r2" ∷ []) ∷ []
unfolding winners_from key_of unique insert_finding sort_findings get set show_ℕ
deduplicate_test = refl

deduplicate-Covers_example :
    (w : UnifiedFinding) × IsIn w (deduplicate comes_first (bandit ∷ semgrep ∷ other_line ∷ []))
    × Covers w bandit
unfolding IsIn
deduplicate-Covers_example =
    deduplicate-Covers comes_first (bandit ∷ semgrep ∷ other_line ∷ []) bandit (inl refl)

count_key-deduplicate_example :
    count_key (key_of bandit) (deduplicate comes_first (bandit ∷ semgrep ∷ other_line ∷ []))
    ≡ (if ltb 0 (count_key (key_of bandit) (bandit ∷ semgrep ∷ other_line ∷ [])) then 1 else 0)
count_key-deduplicate_example =
    count_key-deduplicate comes_first (bandit ∷ semgrep ∷ other_line ∷ []) (key_of bandit)
