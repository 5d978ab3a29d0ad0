-- ===== src/Providers/Endpoints.antt =====
-- internal/providers/endpoints.go: normalising an operator's base URL and joining a route to it.
-- net/url is Go's: a parameter that parses a text into the fields read here and prints them.
use Prim.Native.Char.{code}
use Prim.Native.String
use Prim.Native.String.{String, [], ◌∷◌}
use code_guda_gateway.Prelude.{
  Bool, true, false, not, ◌&&◌, ◌||◌, Option, some, ◌≡◌, refl, ◌==◌, if◌then◌else◌, ◌=ₜ◌,
  Bool-cases, inl, inr, >>=-eq-ok, ap, Result, ok, ◌>>=◌, ◌>>◌, require, or_fail, trim_space,
  strip_prefix, is_some, arith,
}
use code_guda_gateway.Providers.Names.{Error, invalid_base_url, bad_endpoint_path}

-- The fields of `url.URL` that the source reads or writes.
pub record Url : Type 0 where
  pub scheme : String
  pub opaque_part : String
  pub has_user : Bool
  pub hostname : String
  pub host : String
  pub path : String
  pub raw_path : String
  pub force_query : Bool
  pub raw_query : String
  pub fragment : String

-- `to_lower` is strings.ToLower.
pub record Urls : Type 0 where
  pub parse : String → Option Url
  pub print : Url → String
  pub to_lower : String → String

-- strings.TrimRight(s, "/")
unfoldable pub trim_right_slashes : String → String
trim_right_slashes [] = []
trim_right_slashes (c ∷ s) =
    let rest = trim_right_slashes s in if code c == b'/' && rest =ₜ "" then "" else c ∷ rest

-- strings.TrimLeft(s, "/")
unfoldable pub trim_left_slashes : String → String
trim_left_slashes [] = []
trim_left_slashes (c ∷ s) = if code c == b'/' then trim_left_slashes s else c ∷ s

abbrev pub normalized_url : Urls → Url → Url
normalized_url urls u = record u {
  scheme = urls.to_lower u.scheme;
  path = trim_right_slashes u.path;
  raw_path = trim_right_slashes u.raw_path;
}

-- The checks of NormalizeBaseURL on a parsed URL, in the order of the source; each fails with
-- ErrInvalidBaseURL.
unfoldable pub check_base_url : Urls → Url → Bool
check_base_url urls u =
    (urls.to_lower u.scheme =ₜ "http" || urls.to_lower u.scheme =ₜ "https")
    && not (u.hostname =ₜ "" || not (u.opaque_part =ₜ ""))
    && not u.has_user
    && not (not (u.raw_query =ₜ "") || u.force_query)
    && u.fragment =ₜ ""

unfoldable pub normalize_base_url : Urls → String → Result Error String
unfolding trim_right_slashes check_base_url
normalize_base_url urls raw = do
  require (not (trim_space raw =ₜ "")) invalid_base_url
  u ← or_fail (urls.parse (trim_space raw)) invalid_base_url
  require (check_base_url urls u) invalid_base_url
  ok (urls.print (normalized_url urls u))

abbrev joined_url : Url → String → String → Url
joined_url u suffix raw_query = record u {
  path = String.◌++◌ (trim_right_slashes u.path) (String.◌++◌ "/" (trim_left_slashes suffix));
  raw_path = "";
  raw_query = raw_query;
}

unfoldable pub join_endpoint_url : Urls → String → String → String → Result Error String
unfolding trim_right_slashes trim_left_slashes
join_endpoint_url urls base_url suffix raw_query = do
  normalized ← normalize_base_url urls base_url
  require (is_some (strip_prefix "/" suffix)) bad_endpoint_path
  u ← or_fail (urls.parse normalized) invalid_base_url
  ok (urls.print (joined_url u suffix raw_query))

-- net/url reads back what it has printed; a printed URL has no outer space and is not empty.
pub record PrintsBack (urls : Urls) (u : Url) : Type 0 where
  pub parse-print : urls.parse (urls.print u) ≡ some u
  pub trimmed : trim_space (urls.print u) ≡ urls.print u
  pub nonempty : (urls.print u =ₜ "") ≡ false
  pub lowered : urls.to_lower u.scheme ≡ u.scheme

trim_right_slashes_idem :
    (s : String) → trim_right_slashes (trim_right_slashes s) ≡ trim_right_slashes s
unfolding trim_right_slashes
trim_right_slashes_idem [] = refl
trim_right_slashes_idem (c ∷ s) = elim (Bool-cases (code c == b'/' && trim_right_slashes s =ₜ "")) [
  | inl e ↦ rw e
  | inr e ↦ rw e (rw (trim_right_slashes_idem s) (rw e))
]

normalize_base_url_inv :
    (urls : Urls) (raw : String) (u : Url) {normalized : String}
    → urls.parse (trim_space raw) ≡ some u
    → normalize_base_url urls raw ≡ ok normalized
    → (check_base_url urls u ≡ true) × (normalized ≡ urls.print (normalized_url urls u))
unfolding normalize_base_url
normalize_base_url_inv urls raw u parsed h = (ground arith, ground arith)

-- Normalising is idempotent: what is stored is accepted again and stays as it is.
pub normalize_base_url_idem :
    (urls : Urls) (raw : String) (u : Url) {normalized : String}
    → urls.parse (trim_space raw) ≡ some u
    → PrintsBack urls (normalized_url urls u)
    → normalize_base_url urls raw ≡ ok normalized
    → normalize_base_url urls normalized ≡ ok normalized
unfolding normalize_base_url check_base_url
normalize_base_url_idem urls raw u {normalized} parsed back h =
    let inv = normalize_base_url_inv urls raw u parsed h in
    ground (arith, inv.0, inv.1, trim_right_slashes_idem u.path, trim_right_slashes_idem u.raw_path)

check_base_url-has_user :
    (urls : Urls) (u : Url) → check_base_url urls u ≡ true → u.has_user ≡ false
unfolding check_base_url
check_base_url-has_user urls u h = ground arith

-- A joined URL is that of the normalised base with the route appended to its path and the given
-- query: its scheme, its host and its absence of user information are the endpoint's.
pub join_endpoint_url_host :
    (urls : Urls) (base suffix raw_query : String) (u : Url) {joined : String}
    → urls.parse (trim_space base) ≡ some u
    → PrintsBack urls (normalized_url urls u)
    → join_endpoint_url urls base suffix raw_query ≡ ok joined
    → (v : Url) × (joined ≡ urls.print v)
      × (v.scheme ≡ urls.to_lower u.scheme)
      × (v.host ≡ u.host)
      × (v.has_user ≡ false)
      × (v.raw_query ≡ raw_query)
      × (v.path
          ≡ String.◌++◌ (trim_right_slashes u.path) (String.◌++◌ "/" (trim_left_slashes suffix)))
unfolding join_endpoint_url
join_endpoint_url_host urls base suffix raw_query u parsed back h =
    let (n, normal, rest) = >>=-eq-ok (normalize_base_url urls base) _ h in
    let (checked, printed) = normalize_base_url_inv urls base u parsed normal in
    (
      joined_url (normalized_url urls u) suffix raw_query,
      ground (arith, rest, printed),
      refl,
      refl,
      check_base_url-has_user urls u checked,
      refl,
      ap (λ p. String.◌++◌ p (String.◌++◌ "/" (trim_left_slashes suffix)))
          (trim_right_slashes_idem u.path),
    )
