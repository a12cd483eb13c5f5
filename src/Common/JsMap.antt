-- ===== src/Common/JsMap.antt =====
-- `Map` of the language: entries in insertion order, and writing a present key keeps its place.
use Prim.Native.Nat.{ℕ, suc, ◌≤◌, ◌<◌}
use mathlib.Core.Logic.{inl, inr}
use mathlib.Core.Path.{◌≡◌, refl, ◌∙◌}
use mathlib.Core.Bool.{Bool, true, false, not, ◌&&◌, ◌||◌}
use mathlib.Core.List.{List, [], ◌∷◌}
use mathlib.Core.Option.{Option, none, some}
use native.Mathlib.Omega.{arith}
use autoforge.Common.Tests.{Bool-cases, Eq, ◌==◌, ==_iff, ==_self, if◌then◌else◌}
use autoforge.Common.Lists.{length}

abbrev pub JsMap {ℓ κ} : Type ℓ → Type κ → Type (ℓ ⊔ κ)
JsMap K V = List (K × V)

abbrev pub is_some {ℓ} : {A : Type ℓ} → Option A → Bool
is_some none = false
is_some (some _) = true

module _ {ℓ κ} {K : Type ℓ} {V : Type κ} ⦃e : Eq K⦄ where
  unfoldable pub get : JsMap K V → K → Option V
  get [] k = none
  get ((j, v) ∷ m) k = if j == k then some v else get m k

  unfoldable pub has : JsMap K V → K → Bool
  has m k = is_some (get m k)

  unfoldable pub set : JsMap K V → K → V → JsMap K V
  set [] k v = (k, v) ∷ []
  set ((j, w) ∷ m) k v = if j == k then (j, v) ∷ m else (j, w) ∷ set m k v

  -- Every entry of the key goes; a map made by `set` has at most one.
  unfoldable pub remove : JsMap K V → K → JsMap K V
  remove [] k = []
  remove ((j, w) ∷ m) k = if j == k then remove m k else (j, w) ∷ remove m k

  abbrev pub size : JsMap K V → ℕ
  size m = length m

module _ {ℓ κ} {K : Type ℓ} {V : Type κ} ⦃e : Eq K⦄ where
  pub get-set :
      (m : JsMap K V) (k j : K) (v : V) → get (set m k v) j ≡ (if k == j then some v else get m j)
  unfolding get set
  get-set [] k j v = refl
  get-set ((i, w) ∷ m) k j v = ground (arith, ==_iff k j, ==_iff i k, ==_iff i j, get-set m k j v)

  pub get-remove :
      (m : JsMap K V) (k j : K) → get (remove m k) j ≡ (if k == j then none else get m j)
  unfolding get remove
  get-remove [] k j = ground arith
  get-remove ((i, w) ∷ m) k j = ground (arith, ==_iff k j, ==_iff i k, ==_iff i j, get-remove m k j)

  pub get-set_self : (m : JsMap K V) (k : K) (v : V) → get (set m k v) k ≡ some v
  get-set_self m k v = simp (get-set, ==_self)

  pub get-set_ne :
      (m : JsMap K V) (k j : K) (v : V) → (k == j) ≡ false → get (set m k v) j ≡ get m j
  get-set_ne m k j v other = get-set m k j v ∙ rw other refl

  pub get-set_at : (m : JsMap K V) (key k : K) (v : V) → key ≡ k → get (set m key v) k ≡ some v
  get-set_at m key k v e = rw e (get-set_self m k v)

  pub get-remove_self : (m : JsMap K V) (k : K) → get (remove m k) k ≡ none
  get-remove_self m k = get-remove m k k ∙ rw (==_self k) refl

  pub get-remove_at : (m : JsMap K V) (key k : K) → key ≡ k → get (remove m key) k ≡ none
  get-remove_at m key k e = rw e (get-remove_self m k)

  pub get-remove_ne : (m : JsMap K V) (k j : K) → (k == j) ≡ false → get (remove m k) j ≡ get m j
  get-remove_ne m k j other = get-remove m k j ∙ rw other refl

  pub has-set : (m : JsMap K V) (k j : K) (v : V) → has (set m k v) j ≡ (k == j || has m j)
  unfolding has
  has-set m k j v = ground (arith, get-set m k j v)

  pub has-remove : (m : JsMap K V) (k j : K) → has (remove m k) j ≡ (not (k == j) && has m j)
  unfolding has
  has-remove m k j = ground (arith, get-remove m k j)

  pub size-set :
      (m : JsMap K V) (k : K) (v : V)
      → size (set m k v) ≡ (if has m k then size m else suc (size m))
  unfolding has get set
  size-set [] k v = refl
  size-set ((i, w) ∷ m) k v = ground (arith, size-set m k v)

  pub size-set-le : (m : JsMap K V) (k : K) (v : V) → size (set m k v) ≤ suc (size m)
  size-set-le m k v = elim (Bool-cases (has m k)) [
    | inl h ↦ rw (size-set m k v, h) (omega arith)
    | inr h ↦ rw (size-set m k v, h) (omega arith)
  ]

  pub size-remove-le : (m : JsMap K V) (k : K) → size (remove m k) ≤ size m
  unfolding remove
  size-remove-le [] k = omega arith
  size-remove-le ((i, w) ∷ m) k = ground (arith, size-remove-le m k)

  pub size-remove-lt : (m : JsMap K V) (k : K) → has m k ≡ true → size (remove m k) < size m
  unfolding has get remove
  size-remove-lt [] k h = cc
  size-remove-lt ((i, w) ∷ m) k h = ground (arith, size-remove-lt m k, size-remove-le m k)
