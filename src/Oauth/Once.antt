-- ===== src/Oauth/Once.antt =====
-- Histories of token requests, and the authorization codes through them.
use code_guda_gateway.Prelude.{
  ℕ, ◌≡◌, refl, sym, subst, String, true, Option, none, List, [], ◌∷◌, err, arith,
}
use code_guda_gateway.Oauth.Tables.{Server, Store, Code, invalid_grant, find_code, delete_code}
use code_guda_gateway.Oauth.Exchange.{CodeForm, exchange, is_complete}
use code_guda_gateway.Oauth.Refresh.{refresh}
use code_guda_gateway.Oauth.Outcomes.{exchange-outcome, refresh-outcome}
use code_guda_gateway.Oauth.Linked.{IsLinked, exchange-IsLinked, refresh-IsLinked}

-- A token request, with its time and what the random source gives.
pub data Op : Type 0 where
  exchanges : ℕ → List ℕ → Option (List ℕ) → CodeForm → Op
  refreshes : ℕ → List ℕ → Option (List ℕ) → String → String → Op

module _ (o : Server) where
  unfoldable pub step : Op → Store → Store
  step (exchanges now kb rb f) st = (exchange o now kb rb f st).1
  step (refreshes now kb rb token client) st = (refresh o now kb rb token client st).1

  unfoldable pub run : List Op → Store → Store
  unfolding step
  run [] st = st
  run (op ∷ ops) st = run ops (step op st)

  -- The history of refresh tokens tells of every grant, with its family, its key and its last day,
  -- after any sequence of token requests if it does before.
  pub run-IsLinked : (ops : List Op) (st : Store) → IsLinked st → IsLinked (run ops st)
  unfolding run step
  run-IsLinked [] st h = h
  run-IsLinked (exchanges now kb rb f ∷ ops) st h =
      run-IsLinked ops _ (exchange-IsLinked o now kb rb st h f)
  run-IsLinked (refreshes now kb rb token client ∷ ops) st h =
      run-IsLinked ops _ (refresh-IsLinked o now kb rb st h token client)

find_code-delete_code :
    (h k : String) (cs : List Code) → find_code h cs ≡ none → find_code h (delete_code k cs) ≡ none
unfolding find_code delete_code
find_code-delete_code h k [] e = refl
find_code-delete_code h k (c ∷ cs) e = ground (arith, find_code-delete_code h k cs)

find_code-delete_code_same : (h : String) (cs : List Code) → find_code h (delete_code h cs) ≡ none
unfolding find_code delete_code
find_code-delete_code_same h [] = refl
find_code-delete_code_same h (c ∷ cs) = ground (arith, find_code-delete_code_same h cs)

-- No code has the hash.
abbrev IsSpent : String → Store → Type 0
IsSpent h st = find_code h st.codes ≡ none

module _ (o : Server) (h : String) where
  step-IsSpent : (op : Op) (st : Store) → IsSpent h st → IsSpent h (step o op st)
  unfolding step
  step-IsSpent (exchanges now kb rb f) st e =
      let left = find_code-delete_code h (o.service.sha256_hex f.code) st.codes e in
      exchange-outcome o now (IsSpent h) kb rb f st (λ _. e) (λ row _. left)
        (λ row d s tokens i. subst (λ cs. find_code h cs ≡ none) (sym i.stored.codes) left)
  step-IsSpent (refreshes now kb rb token client) st e =
      refresh-outcome o now (IsSpent h) kb rb token client st e (λ x. e)
        (λ g s tokens _ r. subst (λ cs. find_code h cs ≡ none) (sym r.issued.stored.codes) e)

  run-IsSpent : (ops : List Op) (st : Store) → IsSpent h st → IsSpent h (run o ops st)
  unfolding run
  run-IsSpent [] st e = e
  run-IsSpent (op ∷ ops) st e = run-IsSpent ops (step o op st) (step-IsSpent op st e)

exchange-spends :
    (o : Server) (now : ℕ) (kb : List ℕ) (rb : Option (List ℕ)) (f : CodeForm) (st : Store)
    → is_complete f ≡ true
    → IsSpent (o.service.sha256_hex f.code) (exchange o now kb rb f st).1
exchange-spends o now kb rb f st full =
    let left = find_code-delete_code_same (o.service.sha256_hex f.code) st.codes in
    exchange-outcome o now (IsSpent (o.service.sha256_hex f.code)) kb rb f st (λ e. e full)
      (λ row _. left)
      (λ row d s tokens i.
        subst (λ cs. find_code (o.service.sha256_hex f.code) cs ≡ none) (sym i.stored.codes) left)

exchange_of_spent :
    (o : Server) (now : ℕ) (kb : List ℕ) (rb : Option (List ℕ)) (f : CodeForm) (st : Store)
    → is_complete f ≡ true
    → IsSpent (o.service.sha256_hex f.code) st
    → exchange o now kb rb f st ≡ (err (invalid_grant "invalid or expired code"), st)
unfolding exchange
exchange_of_spent o now kb rb f st full e = rw (full, exchange) (rw e)

-- A code is good for one complete exchange, whether that succeeds or fails: after it and any
-- further token requests, a complete exchange of the same code is refused and changes nothing.
pub code_is_single_use :
    (o : Server) (now now' : ℕ) (kb kb' : List ℕ) (rb rb' : Option (List ℕ)) (f f' : CodeForm)
    (ops : List Op) (st : Store)
    → is_complete f ≡ true
    → is_complete f' ≡ true
    → f'.code ≡ f.code
    → exchange o now' kb' rb' f' (run o ops (exchange o now kb rb f st).1)
      ≡ (err (invalid_grant "invalid or expired code"), run o ops (exchange o now kb rb f st).1)
code_is_single_use o now now' kb kb' rb rb' f f' ops st full full' same =
    exchange_of_spent o now' kb' rb' f' _ full' (
      subst (λ c. IsSpent (o.service.sha256_hex c) (run o ops (exchange o now kb rb f st).1))
        (sym same)
        (run-IsSpent o (o.service.sha256_hex f.code) ops _ (exchange-spends o now kb rb f st full)))
