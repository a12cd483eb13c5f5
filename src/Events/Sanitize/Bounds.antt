-- ===== src/Events/Sanitize/Bounds.antt =====
-- What the bus guarantees of a message and of metadata once it has sanitized them.
use autoforge.Common.Texts.{Text, codes}
use autoforge.Events.{Value, Node, entry, str, num, object, empty, nothing, boolean}
use autoforge.Common.{
  ◌+◌, ◌-◌, ◌≤◌, ◌<◌, ◌≡◌, ◌∙◌, ◌∷◌, ◌++◌, ℕ, zero, suc, refl, ap, inl, inr, true, List, [], arith,
  ltb, Bool-cases, length, take, length-append, length-take, ltb→lt, subst, Option, none, some, leb,
}
use autoforge.Events.Sanitize.{
  sanitize_message, ellipsis, keep, or_null, sanitize_string, flat_counts, sanitize_entries,
  sanitize_metadata, node_value, sanitize_value, sanitize_node, payload_bytes, within, is_empty,
}
use autoforge.Common.Decimal.{show_ℕ}

take-append_short {ℓ} :
    {A : Type ℓ} (n : ℕ) (xs ys : List A) → n ≤ length xs → take n (xs ++ ys) ≡ take n xs
take-append_short zero xs ys h = refl
take-append_short (suc n) [] ys h = elim h [ ]
take-append_short (suc n) (x ∷ xs) ys h = ap (λ l. x ∷ l) (take-append_short n xs ys (omega arith))

take-take {ℓ} : {A : Type ℓ} (n : ℕ) (xs : List A) → take n (take n xs) ≡ take n xs
take-take zero xs = refl
take-take (suc n) [] = refl
take-take (suc n) (x ∷ xs) = ap (λ l. x ∷ l) (take-take n xs)

-- A message whose redaction fits the cap is kept whole; of a longer one the cap's worth is kept,
-- and the note of how much was cut comes on top, so that what is kept is longer than the cap.
pub sanitize_message_lem :
    (redact : Text → Text) (most : ℕ) (message : Text)
    → let kept = sanitize_message redact most message in
      (length (redact message) ≤ most → kept ≡ redact message)
      × (most < length (redact message)
          → (take most kept ≡ take most (redact message)) × (most + 10 ≤ length kept))
unfolding sanitize_message
sanitize_message_lem redact most message = elim (Bool-cases (ltb most (length (redact message)))) [
  | inl long ↦
      let p : most < length (redact message) = ltb→lt most (length (redact message)) long in
      let head = take most (redact message) in
      let note =
        ellipsis ++ (codes "[+" ++ (show_ℕ (length (redact message) - most) ++ codes " chars]")) in
      let full : length head ≡ most = omega (arith, length-take most (redact message)) in
      rw long (
        λ q. absurd (omega arith),
        λ _. (
          take-append_short most head note (omega arith) ∙ take-take most (redact message),
          omega (
            arith,
            length-append head note,
            length-append (show_ℕ (length (redact message) - most)) (codes " chars]"),
          ),
        ),
      )
  | inr short ↦ rw short (λ _. refl, λ q. absurd (ground arith))
]

-- The values that leave the sanitizer: no null, texts of at most 241 units, and no object but a
-- flat one of numbers.
abbrev pub IsCounts : Node → Type 0
IsCounts empty = Unit
IsCounts (entry key (num n) rest) = IsCounts rest
IsCounts (entry key _ rest) = ⊥

abbrev pub IsCleanValue : Value → Type 0
IsCleanValue nothing = ⊥
IsCleanValue (str s) = length s ≤ 241
IsCleanValue (object counts) = IsCounts counts
IsCleanValue _ = Unit

abbrev pub IsClean : Node → Type 0
IsClean empty = Unit
IsClean (entry key v rest) = IsCleanValue v × IsClean rest

abbrev IsCleanOption : Option Value → Type 0
IsCleanOption none = Unit
IsCleanOption (some v) = IsCleanValue v

keep-IsClean :
    (key : Text) (v : Option Value) (rest : Node)
    → IsCleanOption v
    → IsClean rest
    → IsClean (keep key v rest)
keep-IsClean key none rest h r = r
keep-IsClean key (some v) rest h r = (h, r)

abbrev IsCleanNode : Option Node → Type 0
IsCleanNode none = Unit
IsCleanNode (some node) = IsClean node

or_null-IsClean : (node : Node) → IsClean node → IsCleanNode (or_null node)
or_null-IsClean empty h = tt
or_null-IsClean (entry key v rest) h = h

module _ (redact : Text → Text) where
  sanitize_string_bound : (s : Text) → length (sanitize_string redact s) ≤ 241
  unfolding sanitize_string
  sanitize_string_bound s = elim (Bool-cases (ltb 240 (length (redact s)))) [
    | inl long ↦
        rw long
          (omega (arith, length-append (take 240 (redact s)) ellipsis, length-take 240 (redact s)))
    | inr short ↦ rw short (ground arith)
  ]

  -- Flat counts pass unchanged.
  sanitize_entries-IsCounts :
      (counts : Node) (depth : ℕ)
      → flat_counts counts ≡ true
      → IsCounts (sanitize_entries redact counts depth)
  unfolding flat_counts sanitize_entries
  sanitize_entries-IsCounts empty depth h = tt
  sanitize_entries-IsCounts (entry key (num n) rest) depth h =
      sanitize_entries-IsCounts rest depth h
  sanitize_entries-IsCounts (entry key v rest) depth h = absurd (cc h)

  -- A flat object that is not empty stays so, and is no null.
  node_value-IsClean :
      (key : Text) (v : Value) (rest : Node) (depth : ℕ)
      → flat_counts (entry key v rest) ≡ true
      → IsCleanValue (node_value (or_null (sanitize_entries redact (entry key v rest) depth)))
  unfolding flat_counts sanitize_entries
  node_value-IsClean key (num n) rest depth h = sanitize_entries-IsCounts rest depth h
  node_value-IsClean key v rest depth h = absurd (cc h)

  object-IsClean :
      (counts : Node) (depth : ℕ) → IsCleanOption (sanitize_value redact (object counts) depth)
  unfolding sanitize_entries
  object-IsClean empty depth = elim (Bool-cases (leb 2 depth)) [
    | inl deep ↦ rw deep tt
    | inr flat ↦ rw flat tt
  ]
  object-IsClean (entry key v rest) depth = elim (Bool-cases (leb 2 depth)) [
    | inl deep ↦ rw deep tt
    | inr flat ↦ elim (Bool-cases (flat_counts (entry key v rest))) [
      | inl f ↦ rw flat (rw f (node_value-IsClean key v rest (suc depth) f))
      | inr f ↦ rw flat (rw f tt)
    ]
  ]

  mutual
    unfolding sanitize_entries sanitize_string flat_counts

    sanitize_entries-IsClean :
        (node : Node) (depth : ℕ) → IsClean (sanitize_entries redact node depth)
    sanitize_entries-IsClean empty depth = tt
    sanitize_entries-IsClean (entry key v rest) depth =
        keep-IsClean key (sanitize_value redact v depth) (sanitize_entries redact rest depth)
          (sanitize_value-IsClean v depth) (sanitize_entries-IsClean rest depth)

    sanitize_value-IsClean : (v : Value) (depth : ℕ) → IsCleanOption (sanitize_value redact v depth)
    sanitize_value-IsClean nothing depth = tt
    sanitize_value-IsClean (str s) depth = sanitize_string_bound s
    sanitize_value-IsClean (num n) depth = tt
    sanitize_value-IsClean (boolean b) depth = tt
    sanitize_value-IsClean (object counts) depth = object-IsClean counts depth

within-bounds :
    (most : ℕ) (o : Option Node) {kept : Node}
    → IsCleanNode o
    → within most o ≡ some kept
    → (payload_bytes kept ≤ most) × IsClean kept
unfolding within
within-bounds most none c h = absurd (cc h)
within-bounds most (some s) {kept} c h = elim (Bool-cases (ltb most (payload_bytes s))) [
  | inl over ↦ absurd (cc (rw over at h))
  | inr fits ↦
      let same : s ≡ kept = cc (rw fits at h) in
      subst (λ n. (payload_bytes n ≤ most) × IsClean n) same (ground arith, c)
]

-- Metadata that the bus keeps is within the byte cap, and all that stands in it is clean. Whatever
-- comes in, what is over the cap is dropped whole.
pub sanitize_metadata_bounds :
    (redact : Text → Text) (most : ℕ) (metadata : Option Node) {kept : Node}
    → sanitize_metadata redact most metadata ≡ some kept
    → (payload_bytes kept ≤ most) × IsClean kept
unfolding sanitize_metadata
sanitize_metadata_bounds redact most none h = absurd (cc h)
sanitize_metadata_bounds redact most (some metadata) h = elim (Bool-cases (is_empty metadata)) [
  | inl blank ↦ absurd (cc (rw blank at h))
  | inr full ↦
      within-bounds most (sanitize_node redact metadata 0)
        (or_null-IsClean (sanitize_entries redact metadata 0)
          (sanitize_entries-IsClean redact metadata 0))
        (rw full at h)
]
