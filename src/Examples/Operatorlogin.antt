-- ===== src/Examples/Operatorlogin.antt =====
-- Runs of the operator's login: an approval, its use, and a second use.
use Prim.Native.Char.{code}
use Prim.Native.String.{[], ◌∷◌}
use code_guda_gateway.Prelude.{
  ℕ, zero, suc, ◌*◌, ◌≡◌, ◌≢◌, refl, ap, String, true, some, List, [], ◌∷◌, ◌++◌, ◌==◌, ◌=ₜ◌,
  if◌then◌else◌, ok, require,
}
use code_guda_gateway.Timestamp.{second}
use code_guda_gateway.Secrets.{encrypt, decrypt}
use code_guda_gateway.Operatorlogin.{
  denied, Configuration, Values, Codec, Service, Tables, enabled_config, allowed,
}
use code_guda_gateway.Operatorlogin.Flows.{
  find_flow, delete_flows, delete_expired, opened, put, take,
}
use code_guda_gateway.Operatorlogin.Github.{
  Browser, Callback, Github, Approval, identify, request, approve, finish, consume,
}
use code_guda_gateway.Operatorlogin.Approval.{finish_then_consume}
use code_guda_gateway.Operatorlogin.Consent.{
  IsConsented, IsDistinct, consume-IsConsented, consume_once,
}
use code_guda_gateway.Examples.World
use code_guda_gateway.Examples.World.{aead, zeros}

-- A list of numbers as a text: a `b` and as many `a`s for each.
abbrev unary : ℕ → String → String
unary zero s = s
unary (suc n) s = String.◌∷◌ "a" (unary n s)

unfoldable encode_numbers : List ℕ → String
encode_numbers [] = ""
encode_numbers (n ∷ ns) = String.◌∷◌ "b" (unary n (encode_numbers ns))

unfoldable split_numbers : String → ℕ × List ℕ
split_numbers [] = (0, [])
split_numbers (c ∷ s) =
    let (n, ns) = split_numbers s in if code c == b'a' then (suc n, ns) else (0, n ∷ ns)

split-unary :
    (n : ℕ) (ns : List ℕ) (s : String)
    → split_numbers s ≡ (0, ns)
    → split_numbers (unary n s) ≡ (n, ns)
unfolding split_numbers
split-unary zero ns s e = e
split-unary (suc n) ns s e = rw (split-unary n ns s e) refl

split-encode : (ns : List ℕ) → split_numbers (encode_numbers ns) ≡ (0, ns)
unfolding split_numbers encode_numbers
split-encode [] = refl
split-encode (n ∷ ns) = rw (split-unary n ns (encode_numbers ns) (split-encode ns)) refl

abbrev form : Values
form = ("client_id", "app" ∷ []) ∷ []

abbrev codec : Codec
codec = record {
  encode_flow = λ f. f.user_id;
  decode_flow =
      λ text. some (record { form = form; verifier = ""; user_id = text; login = "octo" });
  encode_base64 = encode_numbers;
  decode_base64 = λ text. some (split_numbers text).1;
  decode-encode_base64 = λ b. ap (λ p. some p.1) (split-encode b);
  encode_values = λ v. elim v [ [] ↦ "" | ◌∷◌ x _ ↦ x.0 ];
  sha256_hex = λ s. s;
}

abbrev s : Service
s = record { codec = codec; aead = aead; key = zeros 32; issuer = "https://g" }

abbrev browser : String
browser = "bbbbbbbbbbbbbbbbbbbbbbbbbbbbbbbbbbbbbbbbbbb"

abbrev state : String
state = "sssssssssssssssssssssssssssssssssssssssssss"

abbrev proof : String
proof = "ppppppppppppppppppppppppppppppppppppppppppp"

abbrev config : Configuration
config = record {
  enabled = true;
  client_id = "app";
  secret = encode_numbers (zeros 13);
  allowed_ids = "7" ∷ [];
  revision = "r1";
}

abbrev tables : Tables
tables = record {
  config = some config;
  flows =
      record {
        token_hash = state;
        browser_hash = browser;
        revision = "r1";
        phase = "github";
        payload = encode_numbers (zeros 13);
        expires_at = 600;
      }
      ∷ [];
}

-- GitHub answers with the token, and then with the user 7.
abbrev github : Github
github = record {
  send = λ a. some (record { status = 200; body = some a.method });
  decode_token = λ text. some (record { access_token = "t"; token_type = "bearer"; error = "" });
  decode_user = λ text. some (record { id = "7"; login = "octo" });
  equal_fold = λ a b. a =ₜ b;
}

abbrev coming : Browser
coming = record { origin = ""; fetch_site = "same-origin"; cookie = some browser }

abbrev callback : Callback
callback = record { states = state ∷ []; codes = "code" ∷ []; error = "" }

abbrev approval : Approval
approval = record { form = form; proof = proof; login = "octo" }

abbrev approved : Tables
approved = record {
  config = some config;
  flows =
      record {
        token_hash = proof;
        browser_hash = browser;
        revision = "r1";
        phase = "consent";
        payload = encode_numbers (zeros 12 ++ 55 ∷ []);
        expires_at = 620;
      }
      ∷ [];
}

finishes :
    finish s github
      (10 * second)
      (20 * second)
      (some (zeros 12))
      proof
      (λ t. t)
      coming
      callback
      tables
    ≡ (ok approval, approved)
unfolding finish enabled_config take find_flow delete_flows opened decrypt encode_numbers
    split_numbers identify request allowed approve put encrypt delete_expired World.decode
    World.encode
finishes = refl

finish_then_consume_example :
    (consume s (30 * second) coming proof (("state", []) ∷ []) approved).0
    ≡ require ("client_id" =ₜ "state") denied
finish_then_consume_example =
    finish_then_consume s github (10 * second) (20 * second) (zeros 12) proof (λ t. t) coming coming
      callback tables approved approval browser (30 * second) (("state", []) ∷ []) finishes
      (λ i. refl) refl refl refl refl refl refl refl

abbrev used : Tables
used = record { config = some config; flows = [] }

consumes : consume s (30 * second) coming proof form approved ≡ (ok tt, used)
unfolding consume enabled_config take find_flow delete_flows opened decrypt encode_numbers
    split_numbers allowed World.decode
consumes = refl

consume-IsConsented_example : IsConsented s (30 * second) coming proof form approved used
consume-IsConsented_example =
    consume-IsConsented s (30 * second) coming proof form approved used consumes

distinct : IsDistinct approved.flows
unfolding IsDistinct find_flow
distinct = (refl, tt)

consume_once_example : (consume s (40 * second) coming proof form used).0 ≢ ok tt
consume_once_example =
    consume_once s (30 * second) (40 * second) coming coming proof form form approved used distinct
      consumes
