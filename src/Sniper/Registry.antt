-- ===== src/Sniper/Registry.antt =====
-- backend/src/sniper/infrastructure/verifiers/verifier-registry.ts: the class DefaultVerifierRegistry.
-- Its map is a list of entries by type.
use autoforge.Common.{◌∷◌, ℕ, Bool, Option, List, [], filter, nat_eq}
use autoforge.Sniper.{VulnerabilityVerifier, VulnerabilityType, type_index}
use autoforge.Common.JsMap.{JsMap, set, has, get}
use autoforge.Sniper.Labels.{supported_vulnerability_types}

module _ {W : Type 0} where
  abbrev pub supported_types : VulnerabilityVerifier W → List VulnerabilityType
  supported_types verifier = filter verifier.supports supported_vulnerability_types

  abbrev put_types :
      JsMap ℕ (VulnerabilityVerifier W)
      → VulnerabilityVerifier W
      → List VulnerabilityType
      → JsMap ℕ (VulnerabilityVerifier W)
  put_types by_type verifier [] = by_type
  put_types by_type verifier (type ∷ types) =
      put_types (set by_type (type_index type) verifier) verifier types

  -- The constructor.
  abbrev registry_from :
      JsMap ℕ (VulnerabilityVerifier W)
      → List (VulnerabilityVerifier W)
      → JsMap ℕ (VulnerabilityVerifier W)
  registry_from by_type [] = by_type
  registry_from by_type (verifier ∷ verifiers) =
      registry_from (put_types by_type verifier (supported_types verifier)) verifiers

  abbrev pub new_registry : List (VulnerabilityVerifier W) → JsMap ℕ (VulnerabilityVerifier W)
  new_registry verifiers = registry_from [] verifiers

  abbrev pub supports_type : JsMap ℕ (VulnerabilityVerifier W) → VulnerabilityType → Bool
  supports_type by_type type = has by_type (type_index type)

  abbrev pub get_verifier :
      JsMap ℕ (VulnerabilityVerifier W) → VulnerabilityType → Option (VulnerabilityVerifier W)
  get_verifier by_type type = get by_type (type_index type)
