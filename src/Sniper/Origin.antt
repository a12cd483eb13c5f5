-- ===== src/Sniper/Origin.antt =====
-- backend/src/sniper/application/services/target-origin.ts: the endpoint of a target, resolved against
-- the base URL of the sandboxed application. The class `URL` of the platform is the parameter
-- `parse_url`: a text, read against a base if one is given, or nothing where the constructor throws.
pub mod Same
use autoforge.Common.Result.{◌>>=◌}
use autoforge.Common.{
  ◌&&◌, ◌||◌, ◌∷◌, ◌++◌, ◌==◌, if◌then◌else◌, ℕ, Bool, true, false, not, Option, none, some, [],
  leb, nat_eqb, length, any,
}
use autoforge.Common.Texts.{Text, codes, text_eq}
use autoforge.Common.Decimal.{is_digit}
use autoforge.Sniper.{SniperError, Result, other_error, cross_origin_target, invalid_base_url}
use autoforge.Common.Result.{Result, err, ok}

pub record Url : Type 0 where
  pub href : Text
  pub protocol : Text
  pub username : Text
  pub password : Text
  pub origin : Text
  pub host : Text
  pub hostname : Text
  pub pathname : Text
  pub search : Text
  pub hash : Text

pub record ResolvedTargetEndpoint : Type 0 where
  pub url : Text
  pub origin : Text

abbrev pub is_web : Url → Bool
is_web url = url.protocol == codes "http:" || url.protocol == codes "https:"

abbrev pub has_credentials : Url → Bool
has_credentials url = leb 1 (length url.username) || leb 1 (length url.password)

abbrev is_ip_unit : ℕ → Bool
is_ip_unit c = is_digit c || nat_eqb c 46 || nat_eqb c 58

-- `/^[\d.:]+$/.test(host)`.
abbrev pub is_ip_host : Text → Bool
is_ip_host host = leb 1 (length host) && not (any (λ c. not (is_ip_unit c)) host)

-- `resolved.pathname + resolved.search + resolved.hash`.
abbrev pub path_of : Url → Text
path_of url = url.pathname ++ (url.search ++ url.hash)

abbrev pub or_throw : {A : Type 0} → SniperError → Option A → Result SniperError A
or_throw thrown none = err thrown
or_throw thrown (some value) = ok value

-- A guard: the error is thrown unless the test holds.
abbrev pub require : Bool → SniperError → Result SniperError (Unit {0})
require true thrown = ok tt
require false thrown = err thrown

abbrev pub answer : Text → Url → ResolvedTargetEndpoint
answer origin url = record { url = url.href; origin = origin }

module _ (parse_url : Text → Option Url → Option Url) where
  abbrev pub parse_base_url : Text → Result SniperError Url
  parse_base_url base_url = do
    parsed ← or_throw (invalid_base_url base_url) (parse_url base_url none)
    _ ← require (is_web parsed) (invalid_base_url base_url)
    _ ← require (not (has_credentials parsed)) (invalid_base_url base_url)
    ok parsed

  -- The branch for an endpoint of another origin.
  abbrev pub rebase : Text → Url → Url → Result SniperError Url
  rebase endpoint base resolved =
      if is_ip_host resolved.host || is_ip_host base.host || resolved.hostname == base.hostname
      then or_throw (other_error (codes "Invalid URL")) (parse_url (path_of resolved) (some base))
      else err (cross_origin_target endpoint base.origin)

  abbrev pub settle_origin : Text → Url → Url → Result SniperError Url
  settle_origin endpoint base resolved =
      if resolved.origin == base.origin then ok resolved else rebase endpoint base resolved

  abbrev pub answer_for : Text → Url → Url → Result SniperError ResolvedTargetEndpoint
  answer_for endpoint base resolved = do
    _ ← require (is_web resolved) (invalid_base_url resolved.href)
    url ← settle_origin endpoint base resolved
    ok (answer base.origin url)

  abbrev pub resolve_against : Text → Url → Result SniperError ResolvedTargetEndpoint
  resolve_against endpoint base = do
    resolved ← or_throw (other_error (codes "Invalid URL")) (parse_url endpoint (some base))
    answer_for endpoint base resolved

  unfoldable pub resolve_same_origin_endpoint :
      Text → Text → Result SniperError ResolvedTargetEndpoint
  resolve_same_origin_endpoint endpoint base_url = do
    base ← parse_base_url base_url
    resolve_against endpoint base
