-- ===== src/Oauth/Routes.antt =====
-- `IsOAuthRoute` and the dispatch of `ServeHTTP` of internal/mcpoauth/server.go.
use code_guda_gateway.Prelude.{
  ◌≡◌, String, Bool, ◌&&◌, ◌||◌, Option, none, some, is_some, ◌=ₜ◌, if◌then◌else◌, arith,
}

pub data Endpoint : Type 0 where
  github_callback protected_resource auth_server_meta register : Endpoint
  authorize_get authorize_post token : Endpoint

abbrev pub callback_path : String
callback_path = "/authorize/github/callback"

abbrev pub reads : String → Bool
reads method = method =ₜ "GET" || method =ₜ "HEAD"

abbrev pub names_resource : String → Bool
names_resource path =
    path =ₜ "/.well-known/oauth-protected-resource"
    || path =ₜ "/.well-known/oauth-protected-resource/mcp"

-- The tests of IsOAuthRoute, in its order.
unfoldable pub is_oauth_route : String → String → Bool
is_oauth_route method path =
    (reads method && names_resource path)
    || (reads method && path =ₜ "/.well-known/oauth-authorization-server")
    || (method =ₜ "GET" && path =ₜ callback_path)
    || (method =ₜ "POST" && path =ₜ "/register")
    || ((method =ₜ "GET" || method =ₜ "POST") && path =ₜ "/authorize")
    || (method =ₜ "POST" && path =ₜ "/token")

-- The cases of ServeHTTP, in its order; the default answers 404.
unfoldable pub endpoint_of_route : String → String → Option Endpoint
endpoint_of_route method path =
    if method =ₜ "GET" && path =ₜ callback_path
    then some github_callback
    else if reads method && names_resource path
    then some protected_resource
    else if reads method && path =ₜ "/.well-known/oauth-authorization-server"
    then some auth_server_meta
    else if method =ₜ "POST" && path =ₜ "/register"
    then some register
    else if method =ₜ "GET" && path =ₜ "/authorize"
    then some authorize_get
    else if method =ₜ "POST" && path =ₜ "/authorize"
    then some authorize_post
    else if method =ₜ "POST" && path =ₜ "/token"
    then some token
    else none

-- The routes that the gateway hands to the OAuth server are exactly those it dispatches.
pub is_oauth_route-is_some :
    (method path : String) → is_oauth_route method path ≡ is_some (endpoint_of_route method path)
unfolding is_oauth_route endpoint_of_route
is_oauth_route-is_some method path = ground arith
