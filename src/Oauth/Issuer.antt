-- ===== src/Oauth/Issuer.antt =====
-- internal/mcpoauth/issuer.go: the issuer and redirect URIs. net/url is the parameter `Urls`, with
-- its EscapedPath.
use Prim.Native.String
use code_guda_gateway.Prelude.{
  String, Bool, true, false, not, ◌&&◌, ◌||◌, Option, none, some, ◌=ₜ◌, if◌then◌else◌, trim_space,
  contains_text,
}
use code_guda_gateway.Providers.Endpoints.{Url, Urls}

unfoldable pub is_loopback_host : Urls → String → Bool
is_loopback_host urls host =
    let h = urls.to_lower (trim_space host) in
    h =ₜ "127.0.0.1" || h =ₜ "localhost" || h =ₜ "::1" || h =ₜ "[::1]"

-- The host is given, without a user, a fragment or a wildcard.
abbrev is_plain_host : Url → Bool
is_plain_host u =
    not (u.host =ₜ "" || u.has_user || not (u.fragment =ₜ "") || contains_text u.host "*")

-- https, or http on a loopback host.
abbrev pub is_safe_scheme : Urls → Url → Bool
is_safe_scheme urls u =
    if u.scheme =ₜ "https"
    then true
    else if u.scheme =ₜ "http"
    then is_loopback_host urls u.hostname
    else false

abbrev issuer_of : Urls → Option Url → Option String
issuer_of urls none = none
issuer_of urls (some u) =
    if not (u.raw_query =ₜ "") || not (u.fragment =ₜ "")
    then none
    else if not (u.path =ₜ "") && not (u.path =ₜ "/")
    then none
    else if not (is_plain_host u)
    then none
    else if is_safe_scheme urls u
    then some (String.◌++◌ u.scheme (String.◌++◌ "://" u.host))
    else none

unfoldable pub validate_issuer : Urls → String → Option String
validate_issuer urls raw =
    if trim_space raw =ₜ "" then none else issuer_of urls (urls.parse (trim_space raw))

abbrev pub is_redirect : Urls → Option Url → Bool
is_redirect urls none = false
is_redirect urls (some u) = is_plain_host u && is_safe_scheme urls u

unfoldable pub validate_redirect_uri : Urls → String → Bool
validate_redirect_uri urls raw =
    if trim_space raw =ₜ "" then false else is_redirect urls (urls.parse (trim_space raw))

abbrev is_literal : String → Bool
is_literal host = host =ₜ "127.0.0.1" || host =ₜ "::1"

-- The ports of two loopback URLs of an IP literal may differ.
abbrev pub same_but_port : (Url → String) → Option Url → Option Url → Bool
same_but_port escaped_path none _ = false
same_but_port escaped_path (some a) none = false
same_but_port escaped_path (some a) (some b) =
    a.scheme =ₜ "http"
    && b.scheme =ₜ "http"
    && is_literal a.hostname
    && a.hostname =ₜ b.hostname
    && escaped_path a =ₜ escaped_path b
    && a.raw_query =ₜ b.raw_query

unfoldable pub redirect_matches : Urls → (Url → String) → String → String → Bool
redirect_matches urls escaped_path registered actual =
    if registered =ₜ actual
    then true
    else validate_redirect_uri urls actual
      && same_but_port escaped_path (urls.parse registered) (urls.parse actual)
