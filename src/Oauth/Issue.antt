-- ===== src/Oauth/Issue.antt =====
-- What a transaction that issues a key and a grant leaves behind.
use code_guda_gateway.Prelude.{
  ℕ, ◌≡◌, subst, inl, inr, String, true, Option, none, List, [], ◌∷◌, ◌++◌, ok, arith, Option-cases,
  Result-cases,
}
use code_guda_gateway.GatewayKeys
use code_guda_gateway.GatewayKeys.{insert_key_details}
use code_guda_gateway.Oauth.Tables.{
  Server, Store, Grant, Tokens, find_grant, find_grant_of_key, find_refreshed, insert_grant,
  refreshed_of,
}
use code_guda_gateway.Oauth.Exchange.{KeyDetails, issue}

-- The new grant stands last among the grants, and its hash last in the history; both were free.
pub record IsStored (g : Grant) (st st' : Store) : Type 0 where
  pub free_hash : find_grant g.refresh_hash st.grants ≡ none
  pub free_key : find_grant_of_key g.gateway_key_id st.grants ≡ none
  pub unseen : find_refreshed g.refresh_hash st.history ≡ none
  pub grants : st'.grants ≡ st.grants ++ g ∷ []
  pub history : st'.history ≡ st.history ++ refreshed_of g ∷ []
  pub keys : st'.keys ≡ st.keys
  pub codes : st'.codes ≡ st.codes

insert_grant-IsStored :
    (g : Grant) (st : Store) {st' : Store} → insert_grant g st ≡ ok st' → IsStored g st st'
unfolding insert_grant
insert_grant-IsStored g st h = record {
  free_hash = ground arith;
  free_key = ground arith;
  unseen = ground arith;
  grants = ground arith;
  history = ground arith;
  keys = ground arith;
  codes = ground arith;
}

-- An issued key, with its grant.
pub record IsIssued (o : Server) (now : ℕ) (key_bytes : List ℕ) (d : KeyDetails)
    (grant_of : String → ℕ → Grant) (st st' : Store) (tokens : Tokens) : Type 0 where
  pub hash : String
  pub id : ℕ
  pub keys : GatewayKeys.Table
  pub made :
      insert_key_details o.service now key_bytes d.name true d.issued_via d.agent_label
        d.ref_code_id st.keys
      ≡ ok (tokens.access_token, id, keys)
  pub stored : IsStored (grant_of hash id) (record st { keys = keys }) st'
  pub scope : tokens.scope ≡ (grant_of hash id).scope

pub issue-IsIssued :
    (o : Server) (now : ℕ) (key_bytes : List ℕ) (refresh_bytes : Option (List ℕ)) (d : KeyDetails)
    (grant_of : String → ℕ → Grant) (st st' : Store) (tokens : Tokens)
    → issue o now key_bytes refresh_bytes d grant_of st ≡ ok (tokens, st')
    → IsIssued o now key_bytes d grant_of st st' tokens
unfolding issue
issue-IsIssued o now key_bytes refresh_bytes d grant_of st st' tokens h =
    elim (Result-cases (
      insert_key_details o.service now key_bytes d.name true d.issued_via d.agent_label
        d.ref_code_id st.keys)) [
          | inr (e, failed) ↦ absurd (ground (arith, failed, h))
          | inl ((raw, id, keys), made) ↦ elim (Option-cases refresh_bytes) [
            | inl out ↦ absurd (ground (arith, made, out, h))
            | inr (bytes, drawn) ↦
                let hash = o.service.sha256_hex (o.base64 bytes) in
                elim (Result-cases (insert_grant (grant_of hash id) (record st { keys = keys }))) [
                  | inr (e, refused) ↦ absurd (ground (arith, made, drawn, refused, h))
                  | inl (st'', stored) ↦
                      let same : st'' ≡ st' = ground (arith, made, drawn, stored, h) in
                      let access : raw ≡ tokens.access_token =
                        ground (arith, made, drawn, stored, h) in
                      record {
                        hash = hash;
                        id = id;
                        keys = keys;
                        made =
                            subst
                              (λ x.
                                insert_key_details o.service now key_bytes d.name true d.issued_via
                                  d.agent_label d.ref_code_id st.keys
                                ≡ ok (x, id, keys))
                              access made;
                        stored =
                            insert_grant-IsStored (grant_of hash id) (record st { keys = keys })
                              (subst
                                (λ x.
                                  insert_grant (grant_of hash id) (record st { keys = keys })
                                  ≡ ok x)
                                same stored);
                        scope = ground (arith, made, drawn, stored, h);
                      }
                ]
          ]
        ]
