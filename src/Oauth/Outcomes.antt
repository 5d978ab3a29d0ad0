-- ===== src/Oauth/Outcomes.antt =====
-- The stores that the two grant types can leave behind, for any property of them.
use code_guda_gateway.Prelude.{
  ℕ, ◌≡◌, refl, inl, inr, String, true, Option, none, some, List, Result, ok, err, arith,
  Bool-cases, Option-cases, ◌=ₜ◌, ◌>>◌, >>=-eq-ok,
}
use code_guda_gateway.GatewayKeys
use code_guda_gateway.GatewayKeys.{is_usable}
use code_guda_gateway.Oauth.Tables.{
  Server, Store, Code, Grant, Refreshed, Tokens, TokenError, find_code, delete_code, find_grant,
  find_refreshed, is_current,
}
use code_guda_gateway.Oauth.Exchange.{
  CodeForm, KeyDetails, exchange, exchange_found, check_code, mint, committed, is_complete,
  grant_of_code,
}
use code_guda_gateway.Oauth.Refresh.{
  refresh, refresh_found, find_key, check_grant, rotate, replay, revoke_family, spent_on, is_before,
  details_of, successor_of,
}
use code_guda_gateway.Oauth.Issue.{IsIssued, issue-IsIssued}

module _ (o : Server) (now : ℕ) where
  abbrev pub without_code : CodeForm → Store → Store
  without_code f st = record st { codes = delete_code (o.service.sha256_hex f.code) st.codes }

  pub mint-IsIssued :
      (kb : List ℕ) (rb : Option (List ℕ)) (f : CodeForm) (row : Code) (st st' : Store)
      (tokens : Tokens)
      → mint o now kb rb f row st ≡ ok (tokens, st')
      → (d : KeyDetails) × IsIssued o now kb d (grant_of_code o now f row) st st' tokens
  unfolding mint
  mint-IsIssued kb rb f row st st' tokens h =
      (_, issue-IsIssued o now kb rb _ (grant_of_code o now f row) st st' tokens h)

  -- What a rotation that succeeds tells of the grant and its key, and what it issues.
  pub record IsRotated (kb : List ℕ) (client : String) (g : Grant) (st st' : Store)
      (tokens : Tokens) : Type 0 where
    pub old : GatewayKeys.KeyRow
    pub checked : check_grant o now client g ≡ ok tt
    pub unexpired : is_current (o.parse_time g.refresh_expires_at) now ≡ true
    pub found : find_key g.gateway_key_id st.keys.rows ≡ some old
    pub usable : is_usable old ≡ true
    pub issued :
        IsIssued o now kb (details_of old) (successor_of o now g) (spent_on g st) st' tokens

  pub rotate-IsRotated :
      (kb : List ℕ) (rb : Option (List ℕ)) (client : String) (g : Grant) (st st' : Store)
      (tokens : Tokens)
      → rotate o now kb rb client g st ≡ ok (tokens, st')
      → IsRotated kb client g st st' tokens
  unfolding rotate
  rotate-IsRotated kb rb client g st st' tokens h =
      let (_, checked, h₁) = >>=-eq-ok (check_grant o now client g) _ h in
      elim (Option-cases (find_key g.gateway_key_id st.keys.rows)) [
        | inl missing ↦ absurd (ground (arith, missing, h₁))
        | inr (old, found) ↦ record {
          old = old;
          checked = checked;
          unexpired = ground (arith, h₁);
          found = found;
          usable = ground (arith, found, h₁);
          issued =
              issue-IsIssued o now kb rb (details_of old) (successor_of o now g) (spent_on g st) st'
                tokens (ground (arith, found, h₁));
        }
      ]

  -- After an exchange the store is the old one, the old one without the code, or that with an issue.
  pub exchange-outcome :
      (Q : Store → Type 0) (kb : List ℕ) (rb : Option (List ℕ)) (f : CodeForm) (st : Store)
      → ((is_complete f ≡ true → find_code (o.service.sha256_hex f.code) st.codes ≡ none) → Q st)
      → ((row : Code)
          → find_code (o.service.sha256_hex f.code) st.codes ≡ some row
          → Q (without_code f st))
      → ((row : Code) (d : KeyDetails) (s : Store) (tokens : Tokens)
          → IsIssued o now kb d (grant_of_code o now f row) (without_code f st) s tokens
          → Q s)
      → Q (exchange o now kb rb f st).1
  unfolding exchange
  exchange-outcome Q kb rb f st same spent issued = elim (Bool-cases (is_complete f)) [
    | inr partial ↦ rw (partial, exchange) (same (λ full. cc (full, partial)))
    | inl full ↦ rw (full, exchange) (found _ refl)
  ]
    where
      settled :
          (row : Code) (r : Result TokenError (Tokens × Store))
          → Q (without_code f st)
          → ((tokens : Tokens) (s : Store) → r ≡ ok (tokens, s) → Q s)
          → Q (committed (without_code f st) r).1
      settled row (ok (tokens, s)) q k = k tokens s refl
      settled row (err e) q k = q

      found :
          (c : Option Code)
          → find_code (o.service.sha256_hex f.code) st.codes ≡ c
          → Q (exchange_found o now kb rb f c st).1
      found none e = same (λ _. e)
      found (some row) e =
          settled row (check_code o now f row >> mint o now kb rb f row (without_code f st))
            (spent row e)
            (λ tokens s made.
              let (_, _, minted) =
                >>=-eq-ok (check_code o now f row) (λ _. mint o now kb rb f row (without_code f st))
                  made in
              let (d, i) = mint-IsIssued kb rb f row (without_code f st) s tokens minted in
              issued row d s tokens i)

  -- After a refresh the store is the old one, that with a family revoked, or that with a rotation.
  pub refresh-outcome :
      (Q : Store → Type 0) (kb : List ℕ) (rb : Option (List ℕ)) (token client : String) (st : Store)
      → Q st
      → ((x : Refreshed) → Q (revoke_family x.family_id st))
      → ((g : Grant) (s : Store) (tokens : Tokens)
          → find_grant (o.service.sha256_hex token) st.grants ≡ some g
          → IsRotated kb client g st s tokens
          → Q s)
      → Q (refresh o now kb rb token client st).1
  unfolding refresh replay
  refresh-outcome Q kb rb token client st same revoked rotated = elim (Bool-cases (token =ₜ "")) [
    | inl blank ↦ rw (blank, refresh) same
    | inr given ↦ rw (given, refresh) (found _ refl)
  ]
    where
      replayed : (x : Option Refreshed) → Q (replay o now x st)
      replayed none = same
      replayed (some x) = elim (Bool-cases (is_before now (o.parse_time x.expires_at))) [
        | inl early ↦ rw early (revoked x)
        | inr late ↦ rw late same
      ]

      settled :
          (r : Result TokenError (Tokens × Store))
          → ((tokens : Tokens) (s : Store) → r ≡ ok (tokens, s) → Q s)
          → Q (committed st r).1
      settled (ok (tokens, s)) k = k tokens s refl
      settled (err e) k = same

      found :
          (g : Option Grant)
          → find_grant (o.service.sha256_hex token) st.grants ≡ g
          → Q (refresh_found o now kb rb (o.service.sha256_hex token) client g st).1
      found none e = replayed (find_refreshed (o.service.sha256_hex token) st.history)
      found (some g) e =
          settled (rotate o now kb rb client g st) (λ tokens s made.
            rotated g s tokens e (rotate-IsRotated kb rb client g st s tokens made))
