-- ===== src/Examples/World.antt =====
-- Concrete instances of the libraries that the gateway calls: a calendar, a cipher, a URL parser.
use Prim.Native.Nat.{Ordering, compare}
use Prim.Native.Char.{Char, char, code, IsLt}
use Prim.Native.String
use Prim.Native.String.{String, [], ◌∷◌}
use code_guda_gateway.Prelude.{
  ℕ, zero, suc, ◌<◌, ◌≡◌, refl, true, false, Option, none, some, [], ◌∷◌, arith,
}
use code_guda_gateway.Timestamp.{Calendar, lt_bytes}
use code_guda_gateway.Secrets.{Bytes, Aead}
use code_guda_gateway.Providers.Endpoints.{Url, Urls}
use code_guda_gateway.Providers.Redact.{Patterns}
use code_guda_gateway.Providers.Keys.{KeyRepo}

pub one_byte_increasing : (s t : ℕ) → s < t → lt_bytes (s ∷ []) (t ∷ []) ≡ true
unfolding lt_bytes
one_byte_increasing s t h = ground arith

-- A clock whose date is one number.
abbrev pub calendar : Calendar
calendar = record { date_time = λ n. n ∷ []; width = λ s t. refl; increasing = one_byte_increasing }

abbrev Both : Ordering → Ordering → Type 0
Both Ordering.lt o = IsLt o
Both Ordering.eq _ = ⊥
Both Ordering.gt _ = ⊥

abbrev Scalar : Ordering → Ordering → Ordering → Type 0
Scalar Ordering.lt _ _ = Unit
Scalar Ordering.eq o p = Both o p
Scalar Ordering.gt o p = Both o p

abbrev last_some : (o : Ordering) → (IsLt o → Char) → Option Char
last_some Ordering.lt f = some (f tt)
last_some Ordering.eq f = none
last_some Ordering.gt f = none

abbrev both_some : (o p : Ordering) → (Both o p → Char) → Option Char
both_some Ordering.lt p f = last_some p f
both_some Ordering.eq p f = none
both_some Ordering.gt p f = none

abbrev scalar_some : (o p q : Ordering) → (Scalar o p q → Char) → Option Char
scalar_some Ordering.lt p q f = some (f tt)
scalar_some Ordering.eq p q f = both_some p q f
scalar_some Ordering.gt p q f = both_some p q f

IsLt-found : (o : Ordering) (f : IsLt o → Char) (x : IsLt o) → last_some o f ≡ some (f x)
IsLt-found Ordering.lt f x = refl
IsLt-found Ordering.eq f x = absurd x
IsLt-found Ordering.gt f x = absurd x

Both-found : (o p : Ordering) (f : Both o p → Char) (x : Both o p) → both_some o p f ≡ some (f x)
Both-found Ordering.lt p f x = IsLt-found p f x
Both-found Ordering.eq p f x = absurd x
Both-found Ordering.gt p f x = absurd x

Scalar-found :
    (o p q : Ordering) (f : Scalar o p q → Char) (x : Scalar o p q)
    → scalar_some o p q f ≡ some (f x)
Scalar-found Ordering.lt p q f x = refl
Scalar-found Ordering.eq p q f x = Both-found p q f x
Scalar-found Ordering.gt p q f x = Both-found p q f x

abbrev char_of : ℕ → Option Char
char_of n = scalar_some (compare n 55296) (compare 57343 n) (compare n 1114112) (char n)

-- A text as its code points, and back.
unfoldable pub encode : String → Bytes
encode [] = []
encode (c ∷ s) = code c ∷ encode s

abbrev joined : Option Char → Option String → Option String
joined (some c) (some s) = some (String.◌∷◌ c s)
joined none _ = none
joined (some c) none = none

unfoldable pub decode : Bytes → Option String
decode [] = some ""
decode (n ∷ ns) = joined (char_of n) (decode ns)

pub decode-encode : (s : String) → decode (encode s) ≡ some s
unfolding encode decode
decode-encode [] = refl
decode-encode (c ∷ s) = rw (found c) (rw (decode-encode s))
  where
    found : (c : Char) → char_of (code c) ≡ some c
    found (char n p) =
        Scalar-found (compare n 55296) (compare 57343 n) (compare n 1114112) (char n) p

-- A cipher that hides nothing.
abbrev pub aead : Aead
aead = record {
  seal = λ key nonce plain. encode plain;
  unseal = λ key nonce sealed. decode sealed;
  unseal-seal = λ key nonce plain. decode-encode plain;
}

abbrev pub host_url : Url
host_url = record {
  scheme = "https";
  opaque_part = "";
  has_user = false;
  hostname = "h";
  host = "h";
  path = "";
  raw_path = "";
  force_query = false;
  raw_query = "";
  fragment = "";
}

-- Every text is the URL https://h.
abbrev pub urls : Urls
urls = record {
  parse = λ text. some host_url;
  print = λ u. String.◌++◌ "https://h" u.path;
  to_lower = λ text. text;
}

abbrev pub patterns : Patterns
patterns = record { hide_bearer = λ s. s; hide_api_key = λ s. s; hide_sk_like = λ s. s }

abbrev pub zeros : ℕ → Bytes
zeros zero = []
zeros (suc n) = 0 ∷ zeros n

abbrev pub repo : KeyRepo
repo = record {
  calendar = calendar;
  aead = aead;
  sha256_hex = λ s. s;
  urls = urls;
  patterns = patterns;
  master_key = zeros 32;
}
