-- ===== src/Oauth/Linked.antt =====
-- The history of refresh tokens and the grants, through any sequence of token requests.
use code_guda_gateway.Prelude.{
  ℕ, ◌≡◌, ap, sym, subst, ◌∙◌, inl, inr, String, Option, none, some, List, [], ◌∷◌, ◌++◌, All,
  arith, eq_iff, Bool-cases, ◌=ₜ◌,
}
use code_guda_gateway.Oauth.Tables.{
  Server, Store, Grant, Refreshed, refreshed_of, find_grant, delete_grant, delete_family,
  find_refreshed,
}
use code_guda_gateway.Oauth.Exchange.{CodeForm, exchange}
use code_guda_gateway.Oauth.Refresh.{refresh}
use code_guda_gateway.Oauth.Outcomes.{exchange-outcome, refresh-outcome}
use code_guda_gateway.Oauth.Issue.{IsStored}

-- The history tells of the grant: its hash stands there with its family, its key and its last day.
abbrev pub IsTold : List Refreshed → Grant → Type 0
IsTold history g = find_refreshed g.refresh_hash history ≡ some (refreshed_of g)

-- It tells of every grant.
abbrev pub IsLinked : Store → Type 0
IsLinked st = All (IsTold st.history) st.grants

pub find_refreshed-append :
    (hash : String) (hs : List Refreshed) (h x : Refreshed)
    → find_refreshed hash hs ≡ some x
    → find_refreshed hash (hs ++ h ∷ []) ≡ some x
unfolding find_refreshed
find_refreshed-append hash [] h x e = cc
find_refreshed-append hash (y ∷ hs) h x e = ground (arith, find_refreshed-append hash hs h x)

pub find_refreshed-append_new :
    (hs : List Refreshed) (h : Refreshed)
    → find_refreshed h.refresh_hash hs ≡ none
    → find_refreshed h.refresh_hash (hs ++ h ∷ []) ≡ some h
unfolding find_refreshed
find_refreshed-append_new [] h e = ground (arith, eq_iff h.refresh_hash h.refresh_hash)
find_refreshed-append_new (y ∷ hs) h e = ground (arith, find_refreshed-append_new hs h)

IsTold-append :
    (gs : List Grant) (hs : List Refreshed) (h : Refreshed)
    → All (IsTold hs) gs
    → All (IsTold (hs ++ h ∷ [])) gs
IsTold-append [] hs h k = tt
IsTold-append (g ∷ gs) hs h k =
    (find_refreshed-append g.refresh_hash hs h (refreshed_of g) k.0, IsTold-append gs hs h k.1)

All-append :
    (P : Grant → Type 0) (gs : List Grant) (g : Grant) → All P gs → P g → All P (gs ++ g ∷ [])
All-append P [] g h p = (p, tt)
All-append P (x ∷ gs) g h p = (h.0, All-append P gs g h.1 p)

All-delete_grant :
    (P : Grant → Type 0) (hash : String) (gs : List Grant) → All P gs → All P (delete_grant hash gs)
unfolding delete_grant
All-delete_grant P hash [] h = tt
All-delete_grant P hash (g ∷ gs) h = elim (Bool-cases (g.refresh_hash =ₜ hash)) [
  | inl e ↦ rw e (All-delete_grant P hash gs h.1)
  | inr e ↦ rw e (h.0, All-delete_grant P hash gs h.1)
]

All-delete_family :
    (P : Grant → Type 0) (family : String) (gs : List Grant)
    → All P gs
    → All P (delete_family family gs)
unfolding delete_family
All-delete_family P family [] h = tt
All-delete_family P family (g ∷ gs) h = elim (Bool-cases (g.family_id =ₜ family)) [
  | inl e ↦ rw e (All-delete_family P family gs h.1)
  | inr e ↦ rw e (h.0, All-delete_family P family gs h.1)
]

-- A grant that is found has the property of them all.
pub find_grant-All :
    (P : Grant → Type 0) (hash : String) (gs : List Grant) (g : Grant)
    → All P gs
    → find_grant hash gs ≡ some g
    → P g × (g.refresh_hash ≡ hash)
unfolding find_grant
find_grant-All P hash [] g h e = absurd (cc)
find_grant-All P hash (x ∷ gs) g h e = elim (Bool-cases (x.refresh_hash =ₜ hash)) [
  | inl hit ↦
      let same : x ≡ g = ground (arith, hit, e) in
      (
        subst P same h.0,
        ap (λ (y : Grant). y.refresh_hash) (sym same) ∙ (eq_iff x.refresh_hash hash).0 hit,
      )
  | inr miss ↦ find_grant-All P hash gs g h.1 (ground (arith, miss, e))
]

IsStored-IsLinked : (g : Grant) (st st' : Store) → IsStored g st st' → IsLinked st → IsLinked st'
IsStored-IsLinked g st st' s h =
    subst (λ gs. All (IsTold st'.history) gs) (sym s.grants)
      (subst (λ hs. All (IsTold hs) (st.grants ++ g ∷ [])) (sym s.history)
        (All-append (IsTold _) st.grants g (IsTold-append st.grants st.history (refreshed_of g) h)
          (find_refreshed-append_new st.history (refreshed_of g) s.unseen)))

module _ (o : Server) (now : ℕ) (kb : List ℕ) (rb : Option (List ℕ)) (st : Store)
    (linked : IsLinked st) where
  pub exchange-IsLinked : (f : CodeForm) → IsLinked (exchange o now kb rb f st).1
  exchange-IsLinked f =
      exchange-outcome o now IsLinked kb rb f st (λ _. linked) (λ row e. linked)
        (λ row d s tokens i. IsStored-IsLinked _ _ s i.stored linked)

  pub refresh-IsLinked : (token client : String) → IsLinked (refresh o now kb rb token client st).1
  refresh-IsLinked token client =
      refresh-outcome o now IsLinked kb rb token client st linked
        (λ x. All-delete_family (IsTold st.history) x.family_id st.grants linked)
        (λ g s tokens e r.
          IsStored-IsLinked _ _ s r.issued.stored
            (All-delete_grant (IsTold st.history) g.refresh_hash st.grants linked))
