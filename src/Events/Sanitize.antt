-- ===== src/Events/Sanitize.antt =====
-- The private sanitizers of backend/src/observability/application/in-memory-event-bus.ts: what the
-- bus does to an event's message and metadata before it keeps them. `redactSensitive` (in
-- backend/src/llm/infrastructure/redact/redactor.ts) is the parameter `redact`.
pub mod Bounds
use autoforge.Common.{
  ℕ, suc, ◌+◌, ◌-◌, Bool, true, false, ◌&&◌, ◌||◌, not, Option, none, some, List, [], ◌∷◌, ◌++◌,
  ltb, leb, nat_eqb, if◌then◌else◌, length, take,
}
use autoforge.Common.Texts.{Text, codes}
use autoforge.Common.Decimal.{show_ℕ}
use autoforge.Events.{Value, nothing, str, num, boolean, object, Node, empty, entry}

abbrev pub max_scan_id_chars : ℕ
max_scan_id_chars = 64

abbrev pub max_metadata_depth : ℕ
max_metadata_depth = 2

abbrev pub max_string_value_chars : ℕ
max_string_value_chars = 240

abbrev pub ellipsis : Text
ellipsis = 8230 ∷ []

-- UTF-8 bytes of a text inside JSON quotes. The flag says that the unit is the second half of a
-- surrogate pair, which was counted with the first; a half alone is escaped.
abbrev is_high : ℕ → Bool
is_high c = leb 55296 c && leb c 56319

abbrev is_low : ℕ → Bool
is_low c = leb 56320 c && leb c 57343

abbrev next_is_low : Text → Bool
next_is_low [] = false
next_is_low (c ∷ _) = is_low c

abbrev has_short_escape : ℕ → Bool
has_short_escape c =
    nat_eqb c 34
    || nat_eqb c 92
    || nat_eqb c 8
    || nat_eqb c 9
    || nat_eqb c 10
    || nat_eqb c 12
    || nat_eqb c 13

unit_bytes : ℕ → Bool → ℕ
unit_bytes c paired =
    if has_short_escape c
    then 2
    else if ltb c 32
    then 6
    else if ltb c 128
    then 1
    else if ltb c 2048
    then 2
    else if paired
    then 4
    else if is_high c || is_low c
    then 6
    else 3

text_bytes : Bool → Text → ℕ
text_bytes second [] = 0
text_bytes second (c ∷ s) =
    let paired = is_high c && next_is_low s in
    (if second then 0 else unit_bytes c paired) + text_bytes (not second && paired) s

mutual
  value_bytes : Value → ℕ
  value_bytes nothing = 4
  value_bytes (str s) = 2 + text_bytes false s
  value_bytes (num n) = length (show_ℕ n)
  value_bytes (boolean b) = if b then 4 else 5
  value_bytes (object node) = 2 + node_bytes node

  -- The entries with a comma between two.
  node_bytes : Node → ℕ
  node_bytes empty = 0
  node_bytes (entry key v rest) =
      2
      + text_bytes false key
      + 1
      + value_bytes v
      + elim rest [ empty ↦ 0 | entry _ _ _ ↦ 1 ]
      + node_bytes rest

-- `Buffer.byteLength(JSON.stringify(node), 'utf8')`.
unfoldable pub payload_bytes : Node → ℕ
unfolding node_bytes value_bytes text_bytes unit_bytes show_ℕ
payload_bytes node = 2 + node_bytes node

abbrev is_num : Value → Bool
is_num (num _) = true
is_num _ = false

flat_counts : Node → Bool
flat_counts empty = true
flat_counts (entry key v rest) = is_num v && flat_counts rest

abbrev pub is_empty : Node → Bool
is_empty empty = true
is_empty (entry _ _ _) = false

abbrev pub or_null : Node → Option Node
or_null empty = none
or_null (entry key v rest) = some (entry key v rest)

abbrev node_value : Option Node → Value
node_value none = nothing
node_value (some node) = object node

-- The last step of `sanitizeMetadata`: a payload over the cap is dropped whole.
within : ℕ → Option Node → Option Node
unfolding payload_bytes
within metadata_max_bytes none = none
within metadata_max_bytes (some sanitized) =
    if ltb metadata_max_bytes (payload_bytes sanitized) then none else some sanitized

abbrev keep : Text → Option Value → Node → Node
keep key none rest = rest
keep key (some v) rest = entry key v rest

module _ (redact : Text → Text) where
  unfoldable pub sanitize_message : ℕ → Text → Text
  sanitize_message message_max_chars message =
      let redacted = redact message in
      if ltb message_max_chars (length redacted)
      then take message_max_chars redacted
        ++ (ellipsis
            ++ (codes "[+" ++ (show_ℕ (length redacted - message_max_chars) ++ codes " chars]")))
      else redacted

  sanitize_string : Text → Text
  sanitize_string value =
      let redacted = redact value in
      if ltb max_string_value_chars (length redacted)
      then take max_string_value_chars redacted ++ ellipsis
      else redacted

  mutual
    -- The entries that `sanitizeNode` writes to `out`.
    unfolding sanitize_string flat_counts

    sanitize_entries : Node → ℕ → Node
    sanitize_entries empty depth = empty
    sanitize_entries (entry key v rest) depth =
        keep key (sanitize_value v depth) (sanitize_entries rest depth)

    -- `none` is `undefined`; a null value is skipped by the caller, which comes to the same.
    sanitize_value : Value → ℕ → Option Value
    sanitize_value nothing depth = none
    sanitize_value (str s) depth = some (str (sanitize_string s))
    sanitize_value (num n) depth = some (num n)
    sanitize_value (boolean b) depth = some (boolean b)
    sanitize_value (object counts) depth =
        let cleaned = sanitize_entries counts (suc depth) in
        if leb max_metadata_depth depth
        then none
        else if flat_counts counts && not (is_empty counts)
        then some (node_value (or_null cleaned))
        else none

  sanitize_node : Node → ℕ → Option Node
  unfolding sanitize_entries
  sanitize_node node depth = or_null (sanitize_entries node depth)

  unfoldable pub sanitize_metadata : ℕ → Option Node → Option Node
  unfolding sanitize_node within
  sanitize_metadata metadata_max_bytes none = none
  sanitize_metadata metadata_max_bytes (some metadata) =
      if is_empty metadata then none else within metadata_max_bytes (sanitize_node metadata 0)
