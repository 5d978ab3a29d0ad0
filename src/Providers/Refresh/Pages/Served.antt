-- ===== src/Providers/Refresh/Pages/Served.antt =====
-- internal/providers/quota_refresh.go: a server of up to 5000 accounts is read in full.
use code_guda_gateway.Prelude.{
  ℕ, zero, suc, ◌+◌, ◌*◌, ◌≤◌, ◌≡◌, refl, ◌∙◌, sym, ap, subst, String, Bool, true, false, Option,
  some, List, [], ◌∷◌, ltb_int, pos, length, ok, arith, inl, inr,
}
use native.Mathlib.Decide.{dec_lt}
use code_guda_gateway.Providers.Keys.{KeyRepo}
use code_guda_gateway.Providers.QuotaTables.{QuotaCache, Detail}
use code_guda_gateway.Providers.Refresh.{
  QuotaClient, Fetched, World, Times, get_json, quota_cache_shell,
}
use code_guda_gateway.Providers.Refresh.Accounts.{
  Account, AccountsJson, Progress, finished, take_page, page_step, fetch_pages, accounts_url,
  page_size, advance, start_progress, fetch_logged_in, conclude_pages, quota_of_totals,
}
use code_guda_gateway.Providers.Refresh.Pages.Counts.{count_routable, length-drop}
use code_guda_gateway.Providers.Refresh.Pages.Steps.{
  after_pages, page_after, IsAsked, ServesAccounts, IsAt, IsComplete, advance-IsAt, take_page-more,
  take_page-last, page_step-page,
}

-- A snapshot of all accounts.
pub record CountsAccounts (all : List Account) (q : QuotaCache) : Type 0 where
  pub available : q.available ≡ true
  pub windows : ℕ
  pub details :
      q.details
      ≡ some (
          ("account_count", Detail.whole (some (pos (count_routable all))))
          ∷ ("window_count", Detail.whole (some (pos windows)))
          ∷ ("remaining_basis", Detail.text "quota_windows")
          ∷ [])

-- Without a shortfall the snapshot is that of the totals.
conclude_pages-all :
    (repo : KeyRepo) (times : Times) (i : Option ℕ) (p : Progress)
    → ltb_int (pos p.fetched) p.declared ≡ false
    → (conclude_pages repo times i (finished p)).0 ≡ quota_of_totals times i p.totals
unfolding conclude_pages
conclude_pages-all repo times i p enough = rw enough refl

conclude_pages-CountsAccounts :
    (repo : KeyRepo) (times : Times) (i : Option ℕ) (all : List Account) (p : Progress)
    → IsComplete all p
    → CountsAccounts all (conclude_pages repo times i (finished p)).0
unfolding quota_cache_shell
conclude_pages-CountsAccounts repo times i all p complete =
    let enough : ltb_int (pos p.fetched) p.declared ≡ false =
      ground (arith, complete.fetched, complete.declared) in
    subst (CountsAccounts all) (sym (conclude_pages-all repo times i p enough)) (record {
      available = refl;
      windows = p.totals.window_count;
      details = rw complete.counted refl;
    })

module _ {N : Type 0} (client : QuotaClient N) (json : AccountsJson) (base token : String)
    (all : List Account) (served : ServesAccounts client json base token all) where
  module _ (left n : ℕ) (p : Progress) (w : World N) (asked : IsAsked n all) where
    abbrev called : Fetched × World N
    called = get_json client (accounts_url base (suc n)) token w

    abbrev taken : Bool × Progress
    taken = take_page (page_after n all) called.0.status p

    stepped : page_step json called.0 p ≡ (finished taken.1, taken.0)
    stepped =
        page_step-page json called.0 p (page_after n all) (served.answers n w asked)
          (served.pages n w asked)

    fetch_pages-stop :
        taken.0 ≡ false
        → (fetch_pages client json base token (suc left) (suc n) p w).0 ≡ finished taken.1
    unfolding fetch_pages
    fetch_pages-stop stops = rw (stepped, fetch_pages) (rw stops refl)

    fetch_pages-more :
        (q : Progress)
        → taken ≡ (true, q)
        → fetch_pages client json base token (suc left) (suc n) p w
          ≡ fetch_pages client json base token left (suc (suc n)) q called.1
    unfolding fetch_pages
    fetch_pages-more q goes_on = rw (stepped, fetch_pages) (rw goes_on refl)

  fetch_pages-last :
      (left n : ℕ) (p : Progress) (w : World N)
      → IsAsked n all
      → IsAt all (after_pages n all) p
      → length (after_pages n all) ≤ page_size
      → (q : Progress) × ((fetch_pages client json base token (suc left) (suc n) p w).0
          ≡ finished q)
        × IsComplete all q
  fetch_pages-last left n p w asked at_page last =
      let (stops, complete) =
        take_page-last n (called left n p w asked).0.status all p at_page last in
      ((taken left n p w asked).1, fetch_pages-stop left n p w asked stops, complete)

  -- The loop reads what is left, if that is no more than the pages left can hold.
  fetch_pages-IsComplete :
      (left n : ℕ) (p : Progress) (w : World N)
      → IsAsked n all
      → IsAt all (after_pages n all) p
      → length (after_pages n all) ≤ left * page_size + page_size
      → (q : Progress) × ((fetch_pages client json base token (suc left) (suc n) p w).0
          ≡ finished q)
        × IsComplete all q
  fetch_pages-IsComplete zero n p w asked at_page few =
      fetch_pages-last zero n p w asked at_page (omega (arith, few))
  fetch_pages-IsComplete (suc left) n p w asked at_page few =
      elim (dec_lt page_size (length (after_pages n all))) [
        | no last ↦ fetch_pages-last (suc left) n p w asked at_page (omega (arith, last))
        | yes more ↦
            let status = (called left n p w asked).0.status in
            let next = advance (page_after n all) status p in
            let (q, found, complete) =
              fetch_pages-IsComplete left (suc n) next (called left n p w asked).1
                (inr (omega (arith, more, length-drop page_size (after_pages n all))))
                (advance-IsAt n status all p at_page)
                (omega (arith, few, length-drop page_size (after_pages n all))) in
            (
              q,
              ap (λ run. run.0)
                    (fetch_pages-more (suc left) n p w asked next
                      (take_page-more n status all p at_page more))
                  ∙ found,
              complete,
            )
      ]

  -- A refresh against a server that serves up to 5000 accounts in pages of 100 ends in an available
  -- snapshot that counts every account which can be used.
  pub fetch_logged_in-CountsAccounts :
      (repo : KeyRepo) (now : ℕ) (times : Times) (i : Option ℕ) (recorded : Bool) (w : World N)
      → length all ≤ 5000
      → CountsAccounts all
          (fetch_logged_in repo now client json times base i recorded (ok token, w)).0
  fetch_logged_in-CountsAccounts repo now times i recorded w few =
      let (p, found, complete) =
        fetch_pages-IsComplete 49 0 (start_progress 200) w (inl refl)
          (record { fetched = omega arith; counted = omega arith }) (omega (arith, few)) in
      subst (λ paged. CountsAccounts all (conclude_pages repo times i paged).0) (sym found)
        (conclude_pages-CountsAccounts repo times i all p complete)
