-- ===== src/Sniper/Origin/Same.antt =====
-- The scope of target-origin.ts: the origin of what it resolves.
use autoforge.Common.{
  ◌≡◌, ◌&&◌, ◌||◌, ◌∷◌, ap, Bool, true, false, not, Option, none, some, [], leb, nat_eqb, any,
  arith, ==_iff, sym,
}
use autoforge.Common.Texts.{Text, text_eq, codes}
use autoforge.Sniper.{ok, other_error, invalid_base_url}
use autoforge.Sniper.Origin.{
  Url, or_throw, is_web, path_of, ResolvedTargetEndpoint, require, parse_base_url, has_credentials,
  resolve_same_origin_endpoint, settle_origin, resolve_against, answer, answer_for,
}
use autoforge.Common.Result.{◌>>=◌, ok, ok-injective, bind-ok}

abbrev is_absolute_tail : Text → Bool
is_absolute_tail [] = true
is_absolute_tail (c ∷ path) = not (nat_eqb c 47 || nat_eqb c 92)

-- A path that starts with one slash only, and holds no unit that a parser of URLs strips.
abbrev pub is_absolute : Text → Bool
is_absolute [] = false
is_absolute (c ∷ path) =
    nat_eqb c 47 && (is_absolute_tail path && not (any (λ d. leb d 32) (c ∷ path)))

-- What the platform documents of such a path: it is read as a path of the base.
pub record ReadsPaths (parse_url : Text → Option Url → Option Url) : Type 0 where
  pub same_origin :
      (path : Text) (base url : Url)
      → is_web base ≡ true
      → is_absolute path ≡ true
      → parse_url path (some base) ≡ some url
      → url.origin ≡ base.origin

-- The endpoint, read against the base, has such a path.
abbrev pub HasAbsolutePath : (Text → Option Url → Option Url) → Text → Text → Type 0
HasAbsolutePath parse_url endpoint base_url =
    (base url : Url)
    → parse_url base_url none ≡ some base
    → parse_url endpoint (some base) ≡ some url
    → is_absolute (path_of url) ≡ true

-- A resolved endpoint is the text of a URL of the base's origin.
pub record IsSameOrigin (parse_url : Text → Option Url → Option Url) (base_url : Text)
    (resolved : ResolvedTargetEndpoint) : Type 0 where
  pub base : Url
  pub url : Url
  pub base_read : parse_url base_url none ≡ some base
  pub base_is_web : is_web base ≡ true
  pub base_is_bare : has_credentials base ≡ false
  pub is_text : resolved.url ≡ url.href
  pub of_base : resolved.origin ≡ base.origin
  pub is_same : url.origin ≡ base.origin

module _ (parse_url : Text → Option Url → Option Url) where
  parse_base_url-ok :
      (base_url : Text) {base : Url}
      → parse_base_url parse_url base_url ≡ ok base
      → (parse_url base_url none ≡ some base)
        × (is_web base ≡ true)
        × (has_credentials base ≡ false)
  parse_base_url-ok base_url h = ground arith

  settle_origin-ok :
      ReadsPaths parse_url
      → (endpoint : Text) (base resolved : Url) {url : Url} → is_web base ≡ true
      → is_absolute (path_of resolved) ≡ true
      → settle_origin parse_url endpoint base resolved ≡ ok url
      → url.origin ≡ base.origin
  settle_origin-ok reads endpoint base resolved {url} web absolute h =
      ground
        (arith, ==_iff resolved.origin base.origin, reads.same_origin (path_of resolved) base url)

  resolve_against-ok :
      (endpoint : Text) (base : Url) {answered : ResolvedTargetEndpoint}
      → resolve_against parse_url endpoint base ≡ ok answered
      → (resolved url : Url) × (parse_url endpoint (some base) ≡ some resolved)
        × (settle_origin parse_url endpoint base resolved ≡ ok url)
        × (answered ≡ answer base.origin url)
  resolve_against-ok endpoint base h =
      let (resolved, found, rest) =
        bind-ok (or_throw (other_error (codes "Invalid URL")) (parse_url endpoint (some base)))
          (answer_for parse_url endpoint base) h in
      let (_, _, more) =
        bind-ok (require (is_web resolved) (invalid_base_url resolved.href))
          (λ _.
            settle_origin parse_url endpoint base resolved >>= λ url. ok (answer base.origin url))
          rest in
      let (url, settled, same) =
        bind-ok (settle_origin parse_url endpoint base resolved)
          (λ url. ok (answer base.origin url)) more in
      (resolved, url, ground (arith, found), settled, sym (ok-injective same))

  -- Whatever the endpoint says, a target is resolved to a URL of the origin of the base, which is a web
  -- address without credentials, provided that the path of the endpoint, read against the base, starts
  -- with a single slash, and that the platform reads such a path as a path of the base.
  pub resolve_same_origin_endpoint-IsSameOrigin :
      ReadsPaths parse_url
      → (endpoint base_url : Text) {resolved : ResolvedTargetEndpoint}
      → HasAbsolutePath parse_url endpoint base_url
      → resolve_same_origin_endpoint parse_url endpoint base_url ≡ ok resolved
      → IsSameOrigin parse_url base_url resolved
  unfolding resolve_same_origin_endpoint
  resolve_same_origin_endpoint-IsSameOrigin reads endpoint base_url absolute h =
      let (base, read, rest) =
        bind-ok (parse_base_url parse_url base_url) (resolve_against parse_url endpoint) h in
      let (is_read, web, bare) = parse_base_url-ok base_url read in
      let (found, url, parsed, settled, same) = resolve_against-ok endpoint base rest in
      record {
        base = base;
        url = url;
        base_read = is_read;
        base_is_web = web;
        base_is_bare = bare;
        is_text = ap (λ r. r.url) same;
        of_base = ap (λ r. r.origin) same;
        is_same =
            settle_origin-ok reads endpoint base found web (absolute base found is_read parsed)
              settled;
      }
