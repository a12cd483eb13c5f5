-- ===== src/Sandbox/Runtime/Environment.antt =====
-- The environment of a runtime container: application/services/runtime-env-builder.ts. A record of
-- strings is a `Map`: entries in insertion order, one for each key.
use mathlib.Core.Option
use autoforge.Common.{
  ◌≡◌, ◌∙◌, ◌∷◌, ◌==◌, if◌then◌else◌, ℕ, refl, inl, inr, Bool, false, Option, List, [], Bool-cases,
  any, ap, true, none, ==_iff,
}
use autoforge.Common.Texts.{Text, codes, text_eq}
use autoforge.Common.JsMap.{JsMap, set, get, get-set_ne}
use autoforge.Common.Decimal.{show_ℕ}

abbrev pub allowed_keys : List Text
allowed_keys =
    codes "HOST"
    ∷ codes "PORT"
    ∷ codes "NODE_ENV"
    ∷ codes "PYTHONDONTWRITEBYTECODE"
    ∷ codes "PYTHONUNBUFFERED"
    ∷ codes "PATH"
    ∷ codes "HOME"
    ∷ codes "LANG"
    ∷ codes "TZ"
    ∷ codes "PGHOST"
    ∷ codes "MONGODB_URI"
    ∷ codes "GITHUB_WEBHOOK_SECRET"
    ∷ codes "SUPABASE_URL"
    ∷ codes "SUPABASE_SERVICE_ROLE_KEY"
    ∷ codes "REDIS_URL"
    ∷ codes "GEMINI_API_KEY"
    ∷ []

abbrev env_defaults : List (Text × Text)
env_defaults =
    (codes "HOST", codes "0.0.0.0")
    ∷ (codes "NODE_ENV", codes "production")
    ∷ (codes "PYTHONDONTWRITEBYTECODE", codes "1")
    ∷ (codes "PYTHONUNBUFFERED", codes "1")
    ∷ (codes "PATH", codes "/usr/local/bin:/usr/bin:/bin")
    ∷ (codes "HOME", codes "/tmp")
    ∷ (codes "LANG", codes "C.UTF-8")
    ∷ []

-- `allowed.has(key)`.
abbrev pub is_allowed : List Text → Text → Bool
is_allowed allowed key = any (λ other. other == key) allowed

-- Entries are written into a record, those of keys that are not allowed passed over.
unfoldable pub add_allowed : List Text → JsMap Text Text → List (Text × Text) → JsMap Text Text
add_allowed allowed seed [] = seed
add_allowed allowed seed ((key, value) ∷ entries) =
    add_allowed allowed (if is_allowed allowed key then set seed key value else seed) entries

unfoldable pub build_runtime_container :
    ℕ → Option (List Text) → List (Text × Text) → JsMap Text Text
build_runtime_container port allowlist extra =
    let allowed = Option.get_or allowlist allowed_keys in
    let seed = set env_defaults (codes "PORT") (show_ℕ port) in
    add_allowed allowed [] (add_allowed allowed seed extra)

-- A key that is not allowed is not another one that is.
allowed-ne :
    (allowed : List Text) (other key : Text)
    → is_allowed allowed other ≡ true
    → is_allowed allowed key ≡ false
    → (other == key) ≡ false
allowed-ne allowed other key hit skip = elim (Bool-cases (other == key)) [
  | inl e ↦ absurd (cc (hit, skip, ap (is_allowed allowed) ((==_iff other key).0 e)))
  | inr miss ↦ miss
]

get-add_allowed :
    (allowed : List Text) (seed : JsMap Text Text) (entries : List (Text × Text)) (key : Text)
    → is_allowed allowed key ≡ false
    → get (add_allowed allowed seed entries) key ≡ get seed key
unfolding add_allowed
get-add_allowed allowed seed [] key skip = refl
get-add_allowed allowed seed ((other, value) ∷ entries) key skip =
    elim (Bool-cases (is_allowed allowed other)) [
      | inl hit ↦ rw hit (
          get-add_allowed allowed (set seed other value) entries key skip
          ∙ get-set_ne seed other key value (allowed-ne allowed other key hit skip))
      | inr miss ↦ rw miss (get-add_allowed allowed seed entries key skip)
    ]

-- A variable whose name is not on the allowlist is not in the environment of the container, whatever
-- the caller passes; the allowlist is the built-in one, or the one that the caller gives.
pub build_runtime_container-allowed :
    (port : ℕ) (allowlist : Option (List Text)) (extra : List (Text × Text)) (key : Text)
    → is_allowed (Option.get_or allowlist allowed_keys) key ≡ false
    → get (build_runtime_container port allowlist extra) key ≡ none
unfolding build_runtime_container get
build_runtime_container-allowed port allowlist extra key skip =
    get-add_allowed (Option.get_or allowlist allowed_keys) [] _ key skip
