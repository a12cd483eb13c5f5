-- ===== src/Sniper/Labels.antt =====
-- resolveVulnerabilityType of backend/src/sniper/domain/models/vulnerability-type.ts. Its regular
-- expressions look for words, in some of them with one optional character between two words.
use autoforge.Common.{
  ◌+◌, ◌&&◌, ◌||◌, ◌∷◌, ◌==◌, if◌then◌else◌, String, Bool, true, List, [], leb, nat_eqb, length,
  drop, any,
}
use autoforge.Common.Texts.{Text, trim, starts_with, codes, text_eq}
use autoforge.Sniper.{
  VulnerabilityType, unknown, sql_injection, security_misconfiguration, nosql_injection,
  file_upload, xss, ssrf, idor, path_traversal, broken_access_control, command_injection,
  auth_bypass,
}

-- `toLowerCase`, as far as it gives ASCII: the letters A to Z, the Kelvin sign, and I with a dot,
-- which gives i and a combining dot. Any other unit has no ASCII letter under it, and the code asks
-- for none.
unfoldable pub to_lower_case : Text → Text
to_lower_case [] = []
to_lower_case (c ∷ s) =
    let rest = to_lower_case s in
    if leb 65 c && leb c 90
    then (c + 32) ∷ rest
    else if nat_eqb c 8_490
    then 107 ∷ rest
    else if nat_eqb c 304
    then 105 ∷ 775 ∷ rest
    else c ∷ rest

-- The optional character: one of the given ones is skipped.
abbrev skip_one : Text → Text → Text
skip_one separators [] = []
skip_one separators (c ∷ s) = if any (λ d. nat_eqb c d) separators then s else c ∷ s

-- The words stand at the start, each two of them next to each other or with a separator between.
unfoldable words_at : Text → List Text → Text → Bool
words_at separators [] s = true
words_at separators (word ∷ words) s =
    starts_with s word
    && (words_at separators words (drop (length word) s)
        || words_at separators words (skip_one separators (drop (length word) s)))

-- `/word[separators]?word/.test(s)`.
unfoldable pub has_words : Text → List Text → Text → Bool
unfolding words_at
has_words separators words [] = words_at separators words []
has_words separators words (c ∷ s) =
    words_at separators words (c ∷ s) || has_words separators words s

abbrev pub has_word : String → Text → Bool
has_word word key = has_words [] (codes word ∷ []) key

abbrev has_cwe : String → Text → Bool
has_cwe number key = has_words (codes "-_") (codes "cwe" ∷ codes number ∷ []) key

abbrev loose : Text
loose = codes "-_ "

abbrev is_misconfiguration : Text → Bool
is_misconfiguration key =
    has_word "misconfig" key
    || has_words loose (codes "security" ∷ codes "misconfig" ∷ []) key
    || has_word "debug" key
    || has_cwe "16" key
    || has_cwe "200" key

abbrev is_sql_injection : Text → Bool
is_sql_injection key =
    (has_word "sql" key && has_word "inject" key)
    || has_word "sqli" key
    || has_cwe "89" key
    || key == codes "sql_injection"

abbrev is_xss : Text → Bool
is_xss key =
    has_word "xss" key
    || has_words loose (codes "cross" ∷ codes "site" ∷ codes "scripting" ∷ []) key
    || has_cwe "79" key

abbrev is_ssrf : Text → Bool
is_ssrf key =
    has_word "ssrf" key
    || has_words loose (codes "server" ∷ codes "side" ∷ codes "request" ∷ codes "forgery" ∷ []) key
    || has_cwe "918" key

abbrev is_idor : Text → Bool
is_idor key =
    has_word "idor" key
    || has_words loose (codes "direct" ∷ codes "object" ∷ codes "reference" ∷ []) key
    || has_cwe "639" key

abbrev is_path_traversal : Text → Bool
is_path_traversal key =
    (has_word "path" key && has_word "traversal" key)
    || has_words loose (codes "directory" ∷ codes "traversal" ∷ []) key
    || has_cwe "22" key

abbrev is_command_injection : Text → Bool
is_command_injection key =
    (has_word "command" key && has_word "inject" key)
    || has_words loose (codes "os" ∷ codes "command" ∷ []) key
    || has_cwe "78" key

abbrev is_auth_bypass : Text → Bool
is_auth_bypass key =
    (has_word "auth" key && has_word "bypass" key)
    || has_words loose (codes "authentication" ∷ codes "bypass" ∷ []) key
    || has_cwe "287" key

abbrev is_access_control : Text → Bool
is_access_control key =
    has_words loose (codes "access" ∷ codes "control" ∷ []) key || has_cwe "284" key

-- The chain of tests, on the trimmed key in lower case.
unfoldable pub type_of_key : Text → VulnerabilityType
unfolding has_words
type_of_key key =
    if nat_eqb (length key) 0
    then unknown
    else if is_misconfiguration key
    then security_misconfiguration
    else if has_word "nosql" key || has_cwe "943" key
    then nosql_injection
    else if is_sql_injection key
    then sql_injection
    else if (has_word "file" key && has_word "upload" key) || has_cwe "434" key
    then file_upload
    else if is_xss key
    then xss
    else if is_ssrf key
    then ssrf
    else if is_idor key
    then idor
    else if is_path_traversal key
    then path_traversal
    else if is_command_injection key
    then command_injection
    else if is_auth_bypass key
    then auth_bypass
    else if is_access_control key
    then broken_access_control
    else unknown

unfoldable pub resolve_vulnerability_type : Text → VulnerabilityType
unfolding to_lower_case type_of_key trim
resolve_vulnerability_type label = type_of_key (to_lower_case (trim label))

-- `SUPPORTED_VULNERABILITY_TYPES`.
abbrev pub supported_vulnerability_types : List VulnerabilityType
supported_vulnerability_types =
    sql_injection ∷ nosql_injection ∷ file_upload ∷ ssrf ∷ xss ∷ idor ∷ broken_access_control
    ∷ security_misconfiguration ∷ []
