-- ===== src/Oauth/Replay.antt =====
-- A refresh token that is presented again.
use code_guda_gateway.Prelude.{
  ℕ, ◌≡◌, ◌≢◌, refl, ap, sym, subst, ◌∙◌, inl, inr, String, true, false, Option, none, some, List,
  [], ◌∷◌, ◌++◌, ◌==◌, ==_iff, ok, err, All, Result, arith, eq_iff, Bool-cases, Option-cases, ◌=ₜ◌,
}
use code_guda_gateway.GatewayKeys
use code_guda_gateway.GatewayKeys.{DisplayKey, find_hash, lookup, is_usable, update, disable}
use code_guda_gateway.GatewayKeys.Create.{lookup-insert_key_details}
use code_guda_gateway.Oauth.Tables.{
  Server, Store, Grant, Refreshed, Tokens, invalid_grant, refreshed_of, find_grant, delete_grant,
  find_refreshed, in_family, disable_family,
}
use code_guda_gateway.Oauth.Refresh.{
  refresh, replay, rotate, revoke_family, is_before, successor_of, details_of,
}
use code_guda_gateway.Oauth.Outcomes.{IsRotated, rotate-IsRotated}
use code_guda_gateway.Oauth.Linked.{IsLinked, find_grant-All, find_refreshed-append}
use code_guda_gateway.Oauth.Conditions.{committed-eq-ok}

none_is_not_some : (h : Refreshed) → ◌≡◌ {A = Option Refreshed} none (some h) → ⊥
none_is_not_some h e = cc

-- No lookup returns the key: every row with the id is unusable.
abbrev IsUnusable : ℕ → GatewayKeys.KeyRow → Type 0
IsUnusable i r = (r.id ≡ i) → is_usable r ≡ false

disable_family-IsUnusable :
    (family : String) (i : ℕ) (hs : List Refreshed) (rs : List GatewayKeys.KeyRow)
    → in_family family i hs ≡ true
    → All (IsUnusable i) (disable_family family hs rs)
unfolding disable_family
disable_family-IsUnusable family i hs [] m = tt
disable_family-IsUnusable family i hs (r ∷ rs) m = elim (Bool-cases (in_family family r.id hs)) [
  | inl hit ↦ rw hit ((λ e. refl), disable_family-IsUnusable family i hs rs m)
  | inr miss ↦ rw miss ((λ e. cc (miss, m, e)), disable_family-IsUnusable family i hs rs m)
]

find_hash-All :
    (P : GatewayKeys.KeyRow → Type 0) (hash : String) (rs : List GatewayKeys.KeyRow)
    (r : GatewayKeys.KeyRow)
    → All P rs
    → find_hash hash rs ≡ some r
    → P r
unfolding find_hash
find_hash-All P hash [] r h e = absurd (cc)
find_hash-All P hash (x ∷ rs) r h e = elim (Bool-cases (x.key_hash =ₜ hash)) [
  | inl hit ↦ let same : x ≡ r = ground (arith, hit, e) in subst P same h.0
  | inr miss ↦ find_hash-All P hash rs r h.1 (ground (arith, miss, e))
]

lookup-IsUnusable :
    (svc : GatewayKeys.Service) (raw : String) (i : ℕ) (t : GatewayKeys.Table) (d : DisplayKey)
    → All (IsUnusable i) t.rows
    → lookup svc raw t ≡ ok (some d)
    → d.id ≢ i
unfolding lookup
lookup-IsUnusable svc raw i t d h e same =
    elim (Option-cases (find_hash (svc.sha256_hex raw) t.rows)) [
      | inl missing ↦ ground (arith, e, missing)
      | inr (r, found) ↦ ground (
        arith,
        e,
        same,
        found,
        find_hash-All (IsUnusable i) (svc.sha256_hex raw) t.rows r h found,
      )
    ]

-- A hash that has no grant any more but stands in the history, within its lifetime: the request is
-- refused, and no lookup returns a key that the history has under its family.
pub replay_revokes_family :
    (o : Server) (now : ℕ) (kb : List ℕ) (rb : Option (List ℕ)) (token client raw : String)
    (st : Store) (h : Refreshed) (d : DisplayKey) (i : ℕ)
    → (token =ₜ "") ≡ false
    → find_grant (o.service.sha256_hex token) st.grants ≡ none
    → find_refreshed (o.service.sha256_hex token) st.history ≡ some h
    → is_before now (o.parse_time h.expires_at) ≡ true
    → in_family h.family_id i st.history ≡ true
    → ((refresh o now kb rb token client st).0 ≡ err (invalid_grant "invalid refresh token"))
      × (lookup o.service raw (refresh o now kb rb token client st).1.keys ≡ ok (some d) → d.id ≢ i)
unfolding refresh replay
replay_revokes_family o now kb rb token client raw st h d i given gone known early member =
    let after : refresh o now kb rb token client st
        ≡ (err (invalid_grant "invalid refresh token"), revoke_family h.family_id st) =
      rw (given, refresh) (rw gone (rw known (rw early refl))) in
    (
      ap (λ p. p.0) after,
      λ e.
          lookup-IsUnusable o.service raw i (revoke_family h.family_id st).keys d
            (disable_family-IsUnusable h.family_id i st.history st.keys.rows member)
            (subst (λ p. lookup o.service raw p.1.keys ≡ ok (some d)) after e),
    )

find_grant-delete_append :
    (hash : String) (gs : List Grant) (x : Grant)
    → (x.refresh_hash =ₜ hash) ≡ false
    → find_grant hash (delete_grant hash gs ++ x ∷ []) ≡ none
unfolding find_grant delete_grant
find_grant-delete_append hash [] x n = ground (arith, n)
find_grant-delete_append hash (g ∷ gs) x n = ground (arith, find_grant-delete_append hash gs x n)

in_family-last :
    (hs : List Refreshed) (h : Refreshed)
    → in_family h.family_id h.gateway_key_id (hs ++ h ∷ []) ≡ true
unfolding in_family
in_family-last [] h =
    ground (arith, eq_iff h.family_id h.family_id, ==_iff h.gateway_key_id h.gateway_key_id)
in_family-last (x ∷ hs) h = ground (arith, in_family-last hs h)

find_hash-disable :
    (hash : String) (i : ℕ) (t : GatewayKeys.Table)
    → find_hash hash t.rows ≡ none
    → find_hash hash (disable i t).rows ≡ none
unfolding disable update find_hash
find_hash-disable hash i t = kept t.rows
  where
    kept :
        (rs : List GatewayKeys.KeyRow)
        → find_hash hash rs ≡ none
        → find_hash hash (update i (λ r. record r { enabled = false }) rs) ≡ none
    kept [] e = e
    kept (r ∷ rs) e = elim (Bool-cases (r.id == i)) [
      | inl hit ↦ rw hit (ground (arith, e, kept rs))
      | inr miss ↦ rw miss (ground (arith, e, kept rs))
    ]

refresh-IsRotated :
    (o : Server) (now : ℕ) (kb : List ℕ) (rb : Option (List ℕ)) (token client : String)
    (st st' : Store) (g : Grant) (tokens : Tokens)
    → (token =ₜ "") ≡ false
    → find_grant (o.service.sha256_hex token) st.grants ≡ some g
    → refresh o now kb rb token client st ≡ (ok tokens, st')
    → IsRotated o now kb client g st st' tokens
unfolding refresh
refresh-IsRotated o now kb rb token client st st' g tokens given found h =
    rotate-IsRotated o now kb rb client g st st' tokens
      (committed-eq-ok st (rotate o now kb rb client g st) (ground (arith, given, found, h)))

new_hash_differs :
    (hash n : String) (hs : List Refreshed) (h : Refreshed)
    → find_refreshed hash hs ≡ some h
    → find_refreshed n hs ≡ none
    → (n =ₜ hash) ≡ false
new_hash_differs hash n hs h known unseen = elim (Bool-cases (n =ₜ hash)) [
  | inr differs ↦ differs
  | inl equal ↦ absurd (
      none_is_not_some h
        (sym unseen ∙ ap (λ k. find_refreshed k hs) ((eq_iff n hash).0 equal) ∙ known))
]

-- The new access token looks up to the issued key.
successor_key :
    (o : Server) (now : ℕ) (kb : List ℕ) (client : String) (g : Grant) (st st' : Store)
    (tokens : Tokens) (r : IsRotated o now kb client g st st' tokens)
    → find_hash (o.service.sha256_hex tokens.access_token) st.keys.rows ≡ none
    → (d : DisplayKey) × (lookup o.service tokens.access_token st'.keys ≡ ok (some d))
      × (d.id ≡ r.issued.id)
successor_key o now kb client g st st' tokens r fresh =
    let i = r.issued in
    let a = details_of r.old in
    let (k, found, id, _, _) =
      lookup-insert_key_details o.service now kb a.name a.issued_via a.agent_label
        tokens.access_token true a.ref_code_id (disable g.gateway_key_id st.keys) i.keys i.id i.made
        (find_hash-disable (o.service.sha256_hex tokens.access_token) g.gateway_key_id st.keys
          fresh) in
    (
      k,
      subst (λ t. lookup o.service tokens.access_token t ≡ ok (some k)) (sym i.stored.keys) found,
      id,
    )

-- A refresh that gives tokens was asked for with a refresh token.
refresh-given :
    (o : Server) (now : ℕ) (kb : List ℕ) (rb : Option (List ℕ)) (token client : String)
    (st st' : Store) (tokens : Tokens)
    → refresh o now kb rb token client st ≡ (ok tokens, st')
    → (token =ₜ "") ≡ false
unfolding refresh
refresh-given o now kb rb token client st st' tokens h = elim (Bool-cases (token =ₜ "")) [
  | inr given ↦ given
  | inl blank ↦ absurd (ground (arith, h, blank))
]

-- A lookup that does not give the key of this id: it fails, finds none, or gives another key.
abbrev pub Avoids : ℕ → Result GatewayKeys.Error (Option DisplayKey) → Type 0
Avoids i (err e) = Unit {0}
Avoids i (ok none) = Unit {0}
Avoids i (ok (some d)) = d.id ≢ i

Avoids-of_ne :
    (i : ℕ) (x : Result GatewayKeys.Error (Option DisplayKey))
    → ((d : DisplayKey) → x ≡ ok (some d) → d.id ≢ i)
    → Avoids i x
Avoids-of_ne i (err e) k = tt
Avoids-of_ne i (ok none) k = tt
Avoids-of_ne i (ok (some d)) k = k d refl

-- A refresh token is good once, and a second use undoes the first: a refresh that gives new tokens
-- makes a key that the new access token looks up to; presenting the old refresh token again, before
-- the grant's last day, is refused, and after it no bearer text looks up to that key. The store's
-- history tells of its grants, and no row had the new access token's hash.
pub replay_revokes_successor :
    (o : Server) (now now' : ℕ) (kb kb' : List ℕ) (rb rb' : Option (List ℕ))
    (token client client' raw : String) (st st' : Store) (g : Grant) (tokens : Tokens)
    → IsLinked st
    → find_grant (o.service.sha256_hex token) st.grants ≡ some g
    → refresh o now kb rb token client st ≡ (ok tokens, st')
    → find_hash (o.service.sha256_hex tokens.access_token) st.keys.rows ≡ none
    → is_before now' (o.parse_time g.refresh_expires_at) ≡ true
    → (d : DisplayKey) × (lookup o.service tokens.access_token st'.keys ≡ ok (some d))
      × ((refresh o now' kb' rb' token client' st').0 ≡ err (invalid_grant "invalid refresh token"))
      × Avoids d.id (lookup o.service raw (refresh o now' kb' rb' token client' st').1.keys)
replay_revokes_successor o now now' kb kb' rb rb' token client client' raw st st' g tokens linked
      found h fresh early =
    let given = refresh-given o now kb rb token client st st' tokens h in
    let hash = o.service.sha256_hex token in
    let r = refresh-IsRotated o now kb rb token client st st' g tokens given found h in
    let s = r.issued.stored in
    let (told, same) =
      find_grant-All (λ x. find_refreshed x.refresh_hash st.history ≡ some (refreshed_of x)) hash
        st.grants g linked found in
    let known : find_refreshed hash st.history ≡ some (refreshed_of g) =
      subst (λ k. find_refreshed k st.history ≡ some (refreshed_of g)) same told in
    let other : (r.issued.hash =ₜ hash) ≡ false =
      new_hash_differs hash r.issued.hash st.history (refreshed_of g) known s.unseen in
    let gone : find_grant hash st'.grants ≡ none =
      subst (λ gs. find_grant hash gs ≡ none) (sym s.grants)
        (subst
          (λ k.
            find_grant hash
              (delete_grant k st.grants ++ successor_of o now g r.issued.hash r.issued.id ∷ [])
            ≡ none)
          (sym same)
          (find_grant-delete_append hash st.grants (successor_of o now g r.issued.hash r.issued.id)
            other)) in
    let known' : find_refreshed hash st'.history ≡ some (refreshed_of g) =
      subst (λ hs. find_refreshed hash hs ≡ some (refreshed_of g)) (sym s.history)
        (find_refreshed-append hash st.history _ (refreshed_of g) known) in
    let member : in_family g.family_id r.issued.id st'.history ≡ true =
      subst (λ hs. in_family g.family_id r.issued.id hs ≡ true) (sym s.history)
        (in_family-last st.history
          (refreshed_of (successor_of o now g r.issued.hash r.issued.id))) in
    let (d, looked, issued) = successor_key o now kb client g st st' tokens r fresh in
    let twice : (d' : DisplayKey) → _ = λ d'.
      replay_revokes_family o now' kb' rb' token client' raw st' (refreshed_of g) d' r.issued.id
        given gone known' early member in
    (
      d,
      looked,
      (twice d).0,
      Avoids-of_ne d.id _ (λ d' later same_id. (twice d').1 later (same_id ∙ issued)),
    )
