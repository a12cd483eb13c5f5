-- ===== src/Sniper/Tests.antt =====
-- Runs of the Sniper on small data: a platform that reads a few addresses, and a verifier that fails
-- until its world has grown to two.
use autoforge.Common.{
  ◌≤◌, ◌≡◌, ◌↔◌, ◌∷◌, ◌++◌, ◌==◌, if◌then◌else◌, ℕ, suc, refl, Bool, true, false, Option, none,
  some, [], map, arith, nat_eqb,
}
use autoforge.Sniper.Origin.{Url, resolve_same_origin_endpoint}
use autoforge.Common.Texts.{Text, codes, text_eq}
use autoforge.Sniper.Origin.Same.{
  ReadsPaths, HasAbsolutePath, IsSameOrigin, is_absolute, resolve_same_origin_endpoint-IsSameOrigin,
}
use autoforge.Sniper.Labels.{resolve_vulnerability_type}
use autoforge.Sniper.Confidence.{
  ConfidenceSignals, score_confidence, partial, full, score_confidence_full,
}
use autoforge.Sniper.{
  VerificationStatus, VulnerabilityVerifier, PlannedTargetSnapshot, RunSniperInput, SniperRun,
  type_index, VerificationOutcome, SniperError, message_of, same_type, SniperRunDeps,
  TargetRunOutcome, testing, failed, other_error, sql_injection, confirmed, not_tested,
}
use autoforge.Common.Result.{Result, ok, err}
use autoforge.Sniper.Target.{
  run_target, pick_candidate_vulnerability, parts_of, refusal_record, mismatch,
}
use autoforge.Sniper.Admission.{Guarded, run_target-Guarded}
use autoforge.Sniper.DryRun.{DryEnds, run_target-DryEnds}
use autoforge.Sniper.Attempts.{
  AttemptParts, run_attempts, failed_outcome, attempts_from, retry_allowed, mentions_timeout,
}
use autoforge.Sniper.Tries.{LoopEnds, run_attempts-LoopEnds}
use autoforge.Sniper.Registry.{get_verifier, new_registry}
use autoforge.Sniper.Records.{in_memory_poc, best_finding_for}
use autoforge.Common.JsMap.{get, set, has}

abbrev app : Url
app = record {
  href = codes "http://app/";
  protocol = codes "http:";
  username = [];
  password = [];
  origin = codes "http://app";
  host = codes "app";
  hostname = codes "app";
  pathname = codes "/";
  search = [];
  hash = [];
}

abbrev elsewhere : Url
elsewhere = record app {
  href = codes "http://evil.com/x";
  origin = codes "http://evil.com";
  host = codes "evil.com";
  hostname = codes "evil.com";
}

abbrev by_number : Url
by_number = record app {
  href = codes "http://1.2.3.4//evil.com/x";
  origin = codes "http://1.2.3.4";
  host = codes "1.2.3.4";
  hostname = codes "1.2.3.4";
  pathname = codes "//evil.com/x";
}

abbrev parse_url : Text → Option Url → Option Url
parse_url text none = if text == codes "http://app" then some app else none
parse_url text (some base) =
    if is_absolute text
    then some (record base { pathname = text; href = base.origin ++ text; search = []; hash = [] })
    else if text == codes "http://1.2.3.4//evil.com/x"
    then some by_number
    else if text == codes "//evil.com/x"
    then some elsewhere
    else none

parse_url-ReadsPaths : ReadsPaths parse_url
parse_url-ReadsPaths = record { same_origin = λ path base url web absolute e. ground arith }

-- An address by number with two slashes in its path is resolved to another host.
escape_test :
    resolve_same_origin_endpoint parse_url (codes "http://1.2.3.4//evil.com/x") (codes "http://app")
    ≡ ok (record { url = codes "http://evil.com/x"; origin = codes "http://app" })
unfolding resolve_same_origin_endpoint
escape_test = refl

login_path : HasAbsolutePath parse_url (codes "/login") (codes "http://app")
login_path base url b u = let e : some app ≡ some base = b in ground arith

resolve_same_origin_endpoint-IsSameOrigin_example :
    IsSameOrigin parse_url
      (codes "http://app")
      (record { url = codes "http://app/login"; origin = codes "http://app" })
unfolding resolve_same_origin_endpoint
resolve_same_origin_endpoint-IsSameOrigin_example =
    resolve_same_origin_endpoint-IsSameOrigin parse_url parse_url-ReadsPaths (codes "/login")
      (codes "http://app") login_path refl

label_test :
    map
      (λ l. type_index (resolve_vulnerability_type (codes l)))
      ("SQL Injection" ∷ " NoSQL injection" ∷ "CWE-79" ∷ "cross-site scripting" ∷ "cwe_160" ∷ "rce"
        ∷ [])
    ≡ 0 ∷ 1 ∷ 3 ∷ 3 ∷ 10 ∷ 11 ∷ []
unfolding resolve_vulnerability_type
label_test = refl

abbrev signals : ConfidenceSignals
signals = record {
  tool_confirmed = true;
  technique_count = 1;
  response_matched = true;
  endpoint_reachable = true;
  static_correlation_level = partial;
}

score_test : (score_confidence signals).score ≡ 800
unfolding score_confidence
score_test = refl

score_confidence_full_example :
    ((score_confidence signals).score ≤ 1_000)
    × (((score_confidence signals).score ≡ 1_000)
        ↔ ((true ≡ true) × (2 ≤ 1) × (true ≡ true) × (partial ≡ full) × (true ≡ true)))
score_confidence_full_example = score_confidence_full signals

abbrev outcome_with : VerificationStatus → VerificationOutcome
outcome_with status = record (failed_outcome (codes "Timeout reached") true) { status = status }

-- It throws once, fails once, and confirms then.
abbrev verifier : VulnerabilityVerifier ℕ
verifier = record {
  id = codes "sql-injection";
  tool = codes "sqlmap";
  supports = λ type. same_type type sql_injection;
  verify = λ target context w. (
    if nat_eqb w 0
        then err (other_error (codes "no tool"))
        else ok (outcome_with (if nat_eqb w 1 then failed else confirmed)),
    suc w,
  );
}

abbrev target : PlannedTargetSnapshot
target = record {
  target_id = codes "t1";
  scan_id = codes "s1";
  vulnerability_id = none;
  endpoint = codes "/login";
  method = codes "POST";
  candidate_vulnerabilities = codes "something" ∷ codes "SQL Injection" ∷ [];
  requires_authentication = false;
  verification_hints = none;
}

abbrev deps : Result SniperError (Unit {0}) → SniperRunDeps ℕ
deps stored = record {
  load_planned_target = λ id w. (ok (some target), w);
  save_exploit = λ payload w. (ok (in_memory_poc payload []), w);
  save_attempt = λ payload w. (stored, w);
  get_verifier = get_verifier (new_registry (verifier ∷ []));
  config = record {
    max_attempts = 3;
    attempt_timeout_ms = 500;
    concurrency = 1;
    retry_delay_ms = 5;
  };
  now = λ w. w;
  sleep = λ ms w. w;
}

abbrev input : Bool → RunSniperInput
input persist = record {
  scan_id = codes "s1";
  sandbox_id = codes "box";
  base_url = codes "http://app";
  target_ids = codes "t1" ∷ [];
  credentials = none;
  timeout_ms = none;
  concurrency = none;
  max_attempts = none;
  persist = some persist;
}

abbrev start : SniperRun ℕ
start = record {
  world = 0;
  saved = [];
  saved_attempts = [];
  tried = [];
  published = [];
  planned = none;
}

abbrev ended :
    Result SniperError (Unit {0}) → Bool → Result SniperError TargetRunOutcome × SniperRun ℕ
ended stored persist = run_target (deps stored) parse_url (input persist) (codes "t1") [] start

all : Unit {0}
unfolding run_target resolve_same_origin_endpoint pick_candidate_vulnerability refusal_record
    best_finding_for attempts_from retry_allowed get set has resolve_vulnerability_type
    mentions_timeout message_of
all = tt

run_test :
    map {B = VerificationStatus × ℕ} (λ p. (p.status, p.attacks)) (ended (ok tt) true).1.saved
    ≡ (testing, 0) ∷ (confirmed, 3) ∷ []
unfolding all
run_test = refl

attempts_test :
    map {B = ℕ × VerificationStatus × Bool}
      (λ p. (p.attempt_number, p.status, p.timed_out))
      (ended (ok tt) true).1.saved_attempts
    ≡ (1, failed, false) ∷ (2, failed, true) ∷ (3, confirmed, false) ∷ []
unfolding all
attempts_test = refl

-- An attempt that cannot be stored: the refusal is stored under another type, the first label of the
-- candidates, so that the reserved row stays TESTING.
stale_test :
    map {B = Text × VerificationStatus}
      (λ p. (p.type, p.status))
      (ended (err (other_error (codes "no database"))) true).1.saved
    ≡ (codes "SQL_INJECTION", testing) ∷ (codes "something", not_tested) ∷ []
unfolding all
stale_test = refl

-- The target of scan s1, asked for by a sandbox of scan s2: the message has the scans the other way
-- round.
mismatch_test :
    message_of (
      mismatch
        (deps (ok tt))
        parse_url
        (record (input true) { scan_id = codes "s2" })
        (codes "t1")
        target)
    ≡ codes "Sandbox box is scoped to scan 's1' but target 't1' belongs to scan 's2'"
unfolding message_of
mismatch_test = refl

run_target-Guarded_example :
    Guarded (deps (ok tt)) parse_url (input true) (codes "t1") start (ended (ok tt) true)
run_target-Guarded_example =
    run_target-Guarded (deps (ok tt)) parse_url (input true) (codes "t1") [] start

run_target-DryEnds_example :
    DryEnds (deps (ok tt)) parse_url (input false) start (ended (ok tt) false)
run_target-DryEnds_example =
    run_target-DryEnds (deps (ok tt)) parse_url (input false) (codes "t1") refl [] start

abbrev parts : AttemptParts ℕ
parts =
    parts_of (deps (ok tt)) (input true) target (codes "t1") (codes "http://app/login")
      sql_injection verifier [] (codes "e1")

run_attempts-LoopEnds_example : LoopEnds true 3 0 start (run_attempts (deps (ok tt)) parts start)
run_attempts-LoopEnds_example = run_attempts-LoopEnds (deps (ok tt)) parts start (omega arith)
