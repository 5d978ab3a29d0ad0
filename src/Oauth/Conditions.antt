-- ===== src/Oauth/Conditions.antt =====
-- What a code exchange that succeeds tells of the code, and what it gives.
use code_guda_gateway.Prelude.{
  ℕ, ◌≡◌, sym, subst, inl, inr, String, true, Option, none, some, List, Result, ok, err, ◌>>◌,
  >>=-eq-ok, arith, eq_iff, Bool-cases, Option-cases,
}
use code_guda_gateway.GatewayKeys
use code_guda_gateway.GatewayKeys.{DisplayKey, find_hash, lookup}
use code_guda_gateway.GatewayKeys.Create.{lookup-insert_key_details}
use code_guda_gateway.Oauth.Tables.{
  Server, Store, Code, Tokens, TokenError, find_code, is_current, resource_url,
}
use code_guda_gateway.Oauth.Exchange.{CodeForm, check_code, mint, committed, exchange, is_complete}
use code_guda_gateway.Oauth.Outcomes.{without_code, mint-IsIssued}

-- The code's row, and what was checked of it.
pub record IsChecked (o : Server) (now : ℕ) (f : CodeForm) (row : Code) : Type 0 where
  pub unexpired : is_current (o.parse_time row.expires_at) now ≡ true
  pub same_resource : row.resource ≡ resource_url o
  pub same_client : row.client_id ≡ f.client_id
  pub same_redirect : row.redirect_uri ≡ f.redirect_uri
  pub method : row.code_challenge_method ≡ "S256"
  pub verified : o.challenge f.code_verifier ≡ row.code_challenge

check_code-IsChecked :
    (o : Server) (now : ℕ) (f : CodeForm) (row : Code)
    → check_code o now f row ≡ ok tt
    → IsChecked o now f row
unfolding check_code
check_code-IsChecked o now f row h = record {
  unexpired = ground arith;
  same_resource = (eq_iff row.resource (resource_url o)).0 (ground arith);
  same_client = (eq_iff row.client_id f.client_id).0 (ground arith);
  same_redirect = (eq_iff row.redirect_uri f.redirect_uri).0 (ground arith);
  method = (eq_iff row.code_challenge_method "S256").0 (ground arith);
  verified = (eq_iff (o.challenge f.code_verifier) row.code_challenge).0 (ground arith);
}

pub committed-eq-ok :
    (st : Store) (r : Result TokenError (Tokens × Store)) {tokens : Tokens} {st' : Store}
    → committed st r ≡ (ok tokens, st')
    → r ≡ ok (tokens, st')
committed-eq-ok st (ok (tokens, s)) h = ground arith
committed-eq-ok st (err e) h = absurd (ground arith)

found_in_store :
    (o : Server) (raw : String) (t t' : GatewayKeys.Table) (k : DisplayKey)
    → t ≡ t'
    → lookup o.service raw t ≡ ok (some k)
    → lookup o.service raw t' ≡ ok (some k)
found_in_store o raw t t' k same e = subst (λ x. lookup o.service raw x ≡ ok (some k)) same e

-- A token exchange that succeeds had a code's row in the store, unexpired, for this resource, this
-- client and this redirect URI, with the S256 challenge of the verifier; the tokens have the row's
-- scope, and the access token is at once a usable key owned by OAuth, as no row had its hash before.
pub exchange_conditions :
    (o : Server) (now : ℕ) (kb : List ℕ) (rb : Option (List ℕ)) (f : CodeForm) (st st' : Store)
    (tokens : Tokens)
    → exchange o now kb rb f st ≡ (ok tokens, st')
    → find_hash (o.service.sha256_hex tokens.access_token) st.keys.rows ≡ none
    → (row : Code) × (find_code (o.service.sha256_hex f.code) st.codes ≡ some row)
      × IsChecked o now f row
      × (tokens.scope ≡ row.scope)
      × ((d : DisplayKey) × (lookup o.service tokens.access_token st'.keys ≡ ok (some d))
          × (d.oauth_owned ≡ true))
unfolding exchange
exchange_conditions o now kb rb f st st' tokens h fresh = elim (Bool-cases (is_complete f)) [
  | inr partial ↦ absurd (ground (arith, partial, h))
  | inl full ↦ elim (Option-cases (find_code (o.service.sha256_hex f.code) st.codes)) [
    | inl missing ↦ absurd (ground (arith, full, missing, h))
    | inr (row, found) ↦
        let made : committed (without_code o now f st)
              (check_code o now f row >> mint o now kb rb f row (without_code o now f st))
            ≡ (ok tokens, st') =
          ground (arith, full, found, h) in
        let (_, checked, minted) =
          >>=-eq-ok (check_code o now f row) _ (committed-eq-ok _ _ made) in
        let (d, i) = mint-IsIssued o now kb rb f row (without_code o now f st) st' tokens minted in
        let (k, looked, _, _, owned) =
          lookup-insert_key_details o.service now kb d.name d.issued_via d.agent_label
            tokens.access_token true d.ref_code_id st.keys i.keys i.id i.made fresh in
        (
          row,
          found,
          check_code-IsChecked o now f row checked,
          i.scope,
          (
            k,
            found_in_store o tokens.access_token i.keys st'.keys k (sym i.stored.keys) looked,
            owned,
          ),
        )
  ]
]
