-- ===== src/Providers/Refresh/Pages/Counts.antt =====
-- internal/providers/quota_refresh.go: the accounts that the totals of a page count.
use code_guda_gateway.Prelude.{
  ℕ, zero, suc, ◌+◌, ◌-◌, ◌≡◌, refl, List, [], ◌∷◌, length, take, drop, if◌then◌else◌, arith,
}
use code_guda_gateway.Providers.Refresh.Accounts.{
  Account, QuotaTotals, QuotaWindow, add_windows, add_account, add_accounts, is_routable,
  add_capacity,
}

-- How many accounts the totals count.
abbrev pub count_routable : List Account → ℕ
count_routable [] = 0
count_routable (a ∷ rest) = (if is_routable a then 1 else 0) + count_routable rest

add_windows-count :
    (ws : List QuotaWindow) (t : QuotaTotals) → (add_windows ws t).account_count ≡ t.account_count
unfolding add_windows
add_windows-count [] t = refl
add_windows-count (w ∷ ws) t = add_windows-count ws _

add_capacity-count :
    (a : Account) (t : QuotaTotals) → (add_capacity a t).account_count ≡ t.account_count
add_capacity-count a t = ground (arith, add_windows-count a.quota_windows t)

add_account-count :
    (a : Account) (t : QuotaTotals)
    → (add_account a t).account_count ≡ t.account_count + (if is_routable a then 1 else 0)
unfolding add_account
add_account-count a t =
    ground (arith, add_capacity-count a (record t { account_count = suc t.account_count }))

pub add_accounts-count :
    (xs : List Account) (t : QuotaTotals)
    → (add_accounts xs t).account_count ≡ t.account_count + count_routable xs
unfolding add_accounts
add_accounts-count [] t = omega arith
add_accounts-count (a ∷ xs) t =
    omega (arith, add_accounts-count xs (add_account a t), add_account-count a t)

pub count-take-drop :
    (n : ℕ) (xs : List Account)
    → count_routable (take n xs) + count_routable (drop n xs) ≡ count_routable xs
count-take-drop zero xs = omega arith
count-take-drop (suc n) [] = omega arith
count-take-drop (suc n) (x ∷ xs) = omega (arith, count-take-drop n xs)

pub length-take-drop :
    (n : ℕ) (xs : List Account) → length (take n xs) + length (drop n xs) ≡ length xs
length-take-drop zero xs = omega arith
length-take-drop (suc n) [] = omega arith
length-take-drop (suc n) (x ∷ xs) = omega (arith, length-take-drop n xs)

pub length-drop : (n : ℕ) (xs : List Account) → length (drop n xs) ≡ length xs - n
length-drop zero xs = omega arith
length-drop (suc n) [] = omega arith
length-drop (suc n) (x ∷ xs) = omega (arith, length-drop n xs)
