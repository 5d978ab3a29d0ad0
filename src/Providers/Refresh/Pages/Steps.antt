-- ===== src/Providers/Refresh/Pages/Steps.antt =====
-- internal/providers/quota_refresh.go: one page of a server that serves its accounts in order.
use code_guda_gateway.Prelude.{
  ℕ, zero, suc, ◌+◌, ◌-◌, ◌≤◌, ◌<◌, ◌≡◌, refl, ◌∙◌, sym, ap, subst, String, Bool, true, false, not,
  ◌⊎◌, none, List, [], ◌∷◌, pos, length, take, drop, ok, arith, inl, inr,
}
use code_guda_gateway.Providers.Refresh.{QuotaClient, Fetched, World, get_json}
use code_guda_gateway.Providers.Refresh.Accounts.{
  Account, AccountsJson, AccountsPage, Progress, finished, normalize_accounts, take_page, page_step,
  accounts_url, page_size, is_empty, is_last_page, advance, no_totals,
}
use code_guda_gateway.Providers.Refresh.Pages.Counts.{
  count_routable, add_accounts-count, count-take-drop, length-take-drop, length-drop,
}

-- What stands behind the first `n` pages.
abbrev pub after_pages : ℕ → List Account → List Account
after_pages zero all = all
after_pages (suc n) all = drop page_size (after_pages n all)

abbrev pub page_after : ℕ → List Account → AccountsPage
page_after n all = record { items = take page_size (after_pages n all); total = pos (length all) }

-- The first page, or one that has accounts.
abbrev pub IsAsked : ℕ → List Account → Type 0
IsAsked n all = (n ≡ 0) ⊎ (0 < length (after_pages n all))

-- A server that answers a request for the first page, and for every page that has accounts, with
-- that page of `all`.
pub record ServesAccounts {N : Type 0} (client : QuotaClient N) (json : AccountsJson)
    (base token : String) (all : List Account) : Type 0 where
  pub answers :
      (n : ℕ) (w : World N)
      → IsAsked n all
      → (get_json client (accounts_url base (suc n)) token w).0.error ≡ none
  pub pages :
      (n : ℕ) (w : World N)
      → IsAsked n all
      → json.decode_page (get_json client (accounts_url base (suc n)) token w).0.body
        ≡ ok (page_after n all)

-- The progress after the accounts that `rest` follows.
pub record IsAt (all rest : List Account) (p : Progress) : Type 0 where
  pub fetched : p.fetched + length rest ≡ length all
  pub counted : p.totals.account_count + count_routable rest ≡ count_routable all

-- All accounts are read.
pub record IsComplete (all : List Account) (p : Progress) : Type 0 where
  pub fetched : p.fetched ≡ length all
  pub declared : p.declared ≡ pos (length all)
  pub counted : p.totals.account_count ≡ count_routable all

zero_or_more : (n : ℕ) → (n ≡ 0) ⊎ (0 < n)
zero_or_more zero = inl refl
zero_or_more (suc n) = inr (omega arith)

count_le : (xs : List Account) → count_routable xs ≤ length xs
count_le [] = omega arith
count_le (x ∷ xs) = ground (arith, count_le xs)

is_empty-nonempty : (xs : List Account) → 0 < length xs → is_empty xs ≡ false
is_empty-nonempty [] h = ground (arith, h)
is_empty-nonempty (x ∷ xs) h = refl

is_empty-empty : (xs : List Account) → length xs ≡ 0 → is_empty xs ≡ true
is_empty-empty [] h = refl
is_empty-empty (x ∷ xs) h = ground (arith, h)

normalize_accounts-count :
    (xs : List Account) → (normalize_accounts xs).account_count ≡ count_routable xs
unfolding normalize_accounts
normalize_accounts-count xs = omega (arith, add_accounts-count xs no_totals)

is_last_page-false :
    (page : AccountsPage) (fetched total : ℕ)
    → page.total ≡ pos total
    → fetched < total
    → page_size ≤ length page.items
    → is_last_page page fetched ≡ false
is_last_page-false page fetched total t f l = ground (arith, t, f, l)

is_last_page-true :
    (page : AccountsPage) (fetched total : ℕ)
    → page.total ≡ pos total
    → 0 < total
    → total ≤ fetched
    → is_last_page page fetched ≡ true
is_last_page-true page fetched total t z f = ground (arith, t, z, f)

take_page-nonempty :
    (page : AccountsPage) (status : ℕ) (p : Progress)
    → 0 < length page.items
    → take_page page status p
      ≡ (not (is_last_page page (p.fetched + length page.items)), advance page status p)
unfolding take_page
take_page-nonempty page status p h = rw (is_empty-nonempty page.items h) refl

take_page-empty :
    (page : AccountsPage) (status : ℕ) (p : Progress)
    → length page.items ≡ 0
    → take_page page status p ≡ (false, record p { declared = page.total; status = status })
unfolding take_page
take_page-empty page status p h = rw (is_empty-empty page.items h) refl

module _ (n status : ℕ) (all : List Account) (p : Progress)
    (at_page : IsAt all (after_pages n all) p) where
  abbrev rest : List Account
  rest = after_pages n all

  pub advance-IsAt : IsAt all (after_pages (suc n) all) (advance (page_after n all) status p)
  advance-IsAt = record {
    fetched = omega (arith, at_page.fetched, length-take-drop page_size rest);
    counted = omega (
      arith,
      at_page.counted,
      count-take-drop page_size rest,
      normalize_accounts-count (take page_size rest),
    );
  }

  -- A page that is not the last, and one that is.
  pub take_page-more :
      page_size < length rest
      → take_page (page_after n all) status p ≡ (true, advance (page_after n all) status p)
  take_page-more more =
      let cut = length-take-drop page_size rest in
      let left = length-drop page_size rest in
      take_page-nonempty (page_after n all) status p (omega (arith, more, cut, left))
      ∙ ap (λ last. (not last, advance (page_after n all) status p))
          (is_last_page-false (page_after n all) _ (length all) refl
            (omega (arith, more, cut, left, at_page.fetched)) (omega (arith, more, cut, left)))

  pub take_page-last :
      length rest ≤ page_size
      → ((take_page (page_after n all) status p).0 ≡ false)
        × IsComplete all (take_page (page_after n all) status p).1
  take_page-last last = elim (zero_or_more (length rest)) [
    | inl none_left ↦
        subst Ends
          (sym (take_page-empty (page_after n all) status p (omega (arith, cut, none_left))))
          (
            refl,
            record {
              fetched = omega (arith, at_page.fetched, none_left);
              declared = refl;
              counted = omega (arith, at_page.counted, none_left, count_le rest);
            },
          )
    | inr some_left ↦
        subst Ends
          (sym (
            take_page-nonempty (page_after n all) status p
              (omega (arith, cut, left, last, some_left))))
          (
            ap not (
                is_last_page-true (page_after n all) _ (length all) refl
                  (omega (arith, at_page.fetched, some_left))
                  (omega (arith, cut, left, last, at_page.fetched))),
            record {
              fetched = omega (arith, cut, left, last, at_page.fetched);
              declared = refl;
              counted = omega (
                arith,
                at_page.counted,
                cut,
                left,
                last,
                count-take-drop page_size rest,
                count_le (drop page_size rest),
                normalize_accounts-count (take page_size rest),
              );
            },
          )
  ]
    where
      Ends : Bool × Progress → Type 0
      Ends q = (q.0 ≡ false) × IsComplete all q.1

      cut : length (take page_size rest) + length (drop page_size rest) ≡ length rest
      cut = length-take-drop page_size rest

      left : length (drop page_size rest) ≡ length rest - page_size
      left = length-drop page_size rest

pub page_step-page :
    (json : AccountsJson) (f : Fetched) (p : Progress) (page : AccountsPage)
    → f.error ≡ none
    → json.decode_page f.body ≡ ok page
    → page_step json f p ≡ (finished (take_page page f.status p).1, (take_page page f.status p).0)
unfolding page_step
page_step-page json f p page answered decoded = rw (answered, decoded, page_step) refl
