-- ===== src/Proxy/Headers.antt =====
-- http.Header with canonical names, and the request that `do` sends upstream.
use Prim.Native.String
use Prim.Native.String.{String}
use code_guda_gateway.Prelude.{
  ◌≡◌, Option, List, [], ◌∷◌, ◌=ₜ◌, if◌then◌else◌, arith, eq_iff, Result, ok, ◌>>=◌, >>=-eq-ok, ap,
  sym, ◌∙◌,
}
use code_guda_gateway.Providers.Names.{Error}
use code_guda_gateway.Providers.Endpoints.{Urls, join_endpoint_url}
use code_guda_gateway.Providers.Keys.{SelectedEndpoint}

abbrev pub Header : Type 0
Header = List (String × String)

-- Header.Get: the first value, or the empty text.
unfoldable pub header_get : String → Header → String
header_get k [] = ""
header_get k ((j, v) ∷ h) = if j =ₜ k then v else header_get k h

-- Header.Del
unfoldable pub header_del : String → Header → Header
header_del k [] = []
header_del k ((j, v) ∷ h) = if j =ₜ k then header_del k h else (j, v) ∷ header_del k h

-- Header.Set: one value in place of all.
unfoldable pub header_set : String → String → Header → Header
header_set k v h = (k, v) ∷ header_del k h

-- The parts of an incoming request that the proxy reads; `body` is `none` where reading it fails.
pub record Request : Type 0 where
  pub method : String
  pub path : String
  pub raw_query : String
  pub header : Header
  pub body : Option String

pub record Target : Type 0 where
  pub path : String
  pub provider : String

pub record Upstream : Type 0 where
  pub method : String
  pub url : String
  pub header : Header
  pub body : String

-- The request that `do` builds, or the error of an endpoint URL that cannot be joined.
unfoldable pub upstream_request :
    Urls → Request → Target → SelectedEndpoint → String → Result Error Upstream
upstream_request urls r target endpoint body =
    join_endpoint_url urls endpoint.base_url target.path r.raw_query >>= λ url. ok (record {
      method = r.method;
      url = url;
      header = header_set "Authorization" (String.◌++◌ "Bearer " endpoint.api_key) r.header;
      body = body;
    })

-- All values that a header has under a name, in their order.
abbrev pub header_values : String → Header → List String
header_values k [] = []
header_values k ((j, v) ∷ h) = let rest = header_values k h in if j =ₜ k then v ∷ rest else rest

header_values-del :
    (k j : String) (h : Header)
    → header_values j (header_del k h) ≡ (if j =ₜ k then [] else header_values j h)
unfolding header_del
header_values-del k j [] = ground arith
header_values-del k j ((i, v) ∷ h) =
    ground (arith, header_values-del k j h, eq_iff i k, eq_iff i j, eq_iff j k)

header_values-set :
    (k j v : String) (h : Header)
    → header_values j (header_set k v h) ≡ (if j =ₜ k then v ∷ [] else header_values j h)
unfolding header_set
header_values-set k j v h = ground (arith, header_values-del k j h, eq_iff j k, eq_iff k j)

-- The request sent upstream has the endpoint's key as its one value of Authorization, all values of
-- any other header as the client's request has them, and that request's method and body, at the URL
-- that the endpoint's URL, the target's path and the query make.
pub upstream_request_authorization :
    (urls : Urls) (r : Request) (target : Target) (endpoint : SelectedEndpoint) (body : String)
    {up : Upstream} (name : String)
    → upstream_request urls r target endpoint body ≡ ok up
    → (up.method ≡ r.method)
      × (up.body ≡ body)
      × (join_endpoint_url urls endpoint.base_url target.path r.raw_query ≡ ok up.url)
      × (header_values name up.header ≡ (
          if name =ₜ "Authorization"
          then String.◌++◌ "Bearer " endpoint.api_key ∷ []
          else header_values name r.header))
unfolding upstream_request
upstream_request_authorization urls r target endpoint body {up} name h =
    let (url, joined, e) =
      >>=-eq-ok (join_endpoint_url urls endpoint.base_url target.path r.raw_query) _ h in
    let headers : header_set "Authorization" (String.◌++◌ "Bearer " endpoint.api_key) r.header
        ≡ up.header =
      ground arith in
    (
      ground arith,
      ground arith,
      ground (arith, joined),
      ap (header_values name) (sym headers) ∙ header_values-set _ name _ r.header,
    )
