-- ===== src/Server/Serve/Classes.antt =====
-- The status classes of internal/usage/usage.go, for the results of the proxy.
use code_guda_gateway.Prelude.{
  ℕ, ◌≤◌, ◌<◌, ◌≡◌, ◌≢◌, refl, inl, inr, String, Bool, true, false, some, ◌=ₜ◌, ◌==◌, ◌&&◌, leb,
  ltb, if◌then◌else◌, arith, Bool-cases, ==_iff,
}
use code_guda_gateway.Usage.{
  route_family_from_path, status_class_from_http, status_class_from_network_error,
}
use code_guda_gateway.Proxy.Forward.{ForwardResult}
use code_guda_gateway.Server.Access.{status_class_of}

pub record IsGiven (text : String) : Type 0 where
  pub given : (text =ₜ "") ≡ false

-- Texts that are given, by the proof that they compute to.
text : (x : String) → (x =ₜ "") ≡ false → IsGiven x
text x e = record { given = e }

if_IsGiven : (c : Bool) (x y : String) → IsGiven x → IsGiven y → IsGiven (if c then x else y)
if_IsGiven true x y p q = p
if_IsGiven false x y p q = q

pub route_family-IsGiven : (path : String) → IsGiven (route_family_from_path path)
unfolding route_family_from_path
route_family-IsGiven path = if_IsGiven _ _ _ (text "grok" refl) (
    if_IsGiven _ _ _ (text "tavily" refl)
      (if_IsGiven _ _ _ (text "firecrawl" refl) (text "unknown" refl)))

status_class-IsGiven : (status : ℕ) → IsGiven (status_class_from_http status)
unfolding status_class_from_http
status_class-IsGiven status = if_IsGiven _ _ _ (text "429" refl) (
    if_IsGiven _ _ _ (text "2xx" refl) (
      if_IsGiven (leb 300 status && ltb status 400) _ _ (text "4xx" refl) (
        if_IsGiven (leb 400 status && ltb status 500) _ _ (text "4xx" refl)
          (if_IsGiven (leb 500 status) _ _ (text "5xx" refl) (text "other" refl)))))

-- The class of a result: a failed connection, a rate limit, a success, a redirection or a client
-- error, a server error, or a status below 200.
pub data IsClassOf (res : ForwardResult) : String → Type 0 where
  unreached : res.network_error ≡ true → IsClassOf res "network_error"
  limited : res.network_error ≡ false → res.status_code ≡ 429 → IsClassOf res "429"
  success :
      res.network_error ≡ false
      → 200 ≤ res.status_code
      → res.status_code < 300
      → IsClassOf res "2xx"
  client_error :
      res.network_error ≡ false
      → 300 ≤ res.status_code
      → res.status_code < 500
      → res.status_code ≢ 429
      → IsClassOf res "4xx"
  server_error : res.network_error ≡ false → 500 ≤ res.status_code → IsClassOf res "5xx"
  informational : res.network_error ≡ false → res.status_code < 200 → IsClassOf res "other"

chosen :
    (P : String → Type 0) (c : Bool) (x y : String)
    → (c ≡ true → P x)
    → (c ≡ false → P y)
    → P (if c then x else y)
chosen P true x y p q = p refl
chosen P false x y p q = q refl

within : (lo hi n : ℕ) → (leb lo n && ltb n hi) ≡ true → (lo ≤ n) × (n < hi)
within lo hi n h = ground (arith, h)

beyond : (lo hi n : ℕ) → (leb lo n && ltb n hi) ≡ false → lo ≤ n → hi ≤ n
beyond lo hi n h p = ground (arith, h, p)

below : (lo n : ℕ) → leb lo n ≡ false → n < lo
below lo n h = ground (arith, h)

reached_from : (lo n : ℕ) → leb lo n ≡ true → lo ≤ n
reached_from lo n h = ground (arith, h)

small :
    (n : ℕ)
    → (leb 200 n && ltb n 300) ≡ false
    → (leb 300 n && ltb n 400) ≡ false
    → (leb 400 n && ltb n 500) ≡ false
    → leb 500 n ≡ false
    → n < 200
small n a b c d = elim (Bool-cases (leb 200 n)) [
  | inr under ↦ below 200 n under
  | inl p ↦
      let top =
        beyond 400 500 n c (beyond 300 400 n b (beyond 200 300 n a (reached_from 200 n p))) in
      let under = below 500 n d in absurd (omega (arith, top, under))
]

http_class :
    (res : ForwardResult)
    → res.network_error ≡ false
    → IsClassOf res (status_class_from_http res.status_code)
unfolding status_class_from_http
http_class res reached =
    let n = res.status_code in
    let P = IsClassOf res in
    chosen P (n == 429) _ _ (λ limit. limited reached ((==_iff n 429).0 limit))
      (λ other.
        let not_429 : n ≢ 429 = λ e. ground (arith, other, e) in
        chosen P (leb 200 n && ltb n 300) _ _
          (λ h. let (p, q) = within 200 300 n h in success reached p q)
          (λ no_2xx.
            chosen P (leb 300 n && ltb n 400) _ _
              (λ h.
                let (p, q) = within 300 400 n h in
                client_error reached p (omega (arith, q)) not_429)
              (λ no_3xx.
                chosen P (leb 400 n && ltb n 500) _ _
                  (λ h.
                    let (p, q) = within 400 500 n h in
                    client_error reached (omega (arith, p)) q not_429)
                  (λ no_4xx.
                    chosen P (leb 500 n) _ _ (λ h. server_error reached (reached_from 500 n h))
                      (λ no_5xx. informational reached (small n no_2xx no_3xx no_4xx no_5xx))))))

-- A result with a status has the class that describes it, which is not empty.
pub class_of_status :
    (res : ForwardResult)
    → res.status_code ≢ 0
    → (class : String) × IsClassOf res class
      × (status_class_of res ≡ some class)
      × ((class =ₜ "") ≡ false)
unfolding status_class_of
class_of_status res n = elim (Bool-cases res.network_error) [
  | inl net ↦ (status_class_from_network_error, unreached net, rw net refl, refl)
  | inr answered ↦ elim (Bool-cases (res.status_code == 0)) [
    | inl zero ↦ absurd (n ((==_iff res.status_code 0).0 zero))
    | inr status ↦ (
      status_class_from_http res.status_code,
      http_class res answered,
      rw answered (rw status refl),
      (status_class-IsGiven res.status_code).given,
    )
  ]
]
