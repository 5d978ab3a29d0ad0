-- ===== src/GatewayKeys/Create.antt =====
-- Creation of a key and its lookup, of internal/gatewaykeys/keys.go.
use Prim.Native.String
use Prim.Native.String.{String, [], ◌∷◌, count}
use text.Mathlib.TextLemmas.{cons-append, nil-append, cons-ne-nil}
use code_guda_gateway.Prelude.{
  ℕ, ◌≡◌, refl, ap, sym, subst, ◌∙◌, inl, inr, Bool, true, false, Option, none, some, List, [], ◌∷◌,
  ◌++◌, ◌=ₜ◌, strip_prefix, arith, eq_iff, ok, Bool-cases, Option-cases,
}
use code_guda_gateway.Idgen.{random_base62, all_alnum, random_base62_lem}
use code_guda_gateway.GatewayKeys.{
  Service, KeyRow, Table, DisplayKey, display, is_usable, new_row, insert, is_raw_key,
  insert_key_details, find_hash, lookup,
}

labelled :
    (s : String)
    → String.◌++◌ "gsk_" s ≡ String.◌∷◌ "g" (String.◌∷◌ "s" (String.◌∷◌ "k" (String.◌∷◌ "_" s)))
labelled s =
    cons-append "g" "sk_" s
    ∙ ap (String.◌∷◌ "g") (
        cons-append "s" "k_" s
        ∙ ap (String.◌∷◌ "s") (
            cons-append "k" "_" s
            ∙ ap (String.◌∷◌ "k") (cons-append "_" "" s ∙ ap (String.◌∷◌ "_") (nil-append s))))

is_raw_key-label :
    (s : String) → count s ≡ 32 → all_alnum s ≡ true → is_raw_key (String.◌++◌ "gsk_" s) ≡ true
unfolding is_raw_key strip_prefix
is_raw_key-label s n a = rw (labelled s) (ground (arith, n, a))

find_hash-append :
    (hash : String) (rs : List KeyRow) (r : KeyRow)
    → find_hash hash rs ≡ none
    → r.key_hash ≡ hash
    → find_hash hash (rs ++ r ∷ []) ≡ some r
unfolding find_hash
find_hash-append hash [] r h e = ground (arith, eq_iff r.key_hash hash)
find_hash-append hash (x ∷ rs) r h e =
    ground (arith, find_hash-append hash rs r, eq_iff x.key_hash hash)

lookup_new :
    (svc : Service) (raw : String) (t : Table) (row : KeyRow)
    → is_raw_key raw ≡ true
    → (raw =ₜ "") ≡ false
    → find_hash (svc.sha256_hex raw) t.rows ≡ some row
    → is_usable row ≡ true
    → lookup svc raw t ≡ ok (some (display row))
unfolding lookup
lookup_new svc raw t row shape nonempty found usable =
    ground (arith, shape, nonempty, found, usable)

nonempty_label : (s : String) → (String.◌++◌ "gsk_" s =ₜ "") ≡ false
nonempty_label s = elim (Bool-cases (String.◌++◌ "gsk_" s =ₜ "")) [
  | inl e ↦ absurd (cons-ne-nil _ _ (sym (labelled s) ∙ (eq_iff (String.◌++◌ "gsk_" s) "").0 e))
  | inr e ↦ e
]

-- A created key is found under its raw text at once, unless another row has its hash already: with
-- the given name and ownership, under the id returned.
pub lookup-insert_key_details :
    (svc : Service) (now : ℕ) (bytes : List ℕ) (name via label raw : String) (owned : Bool)
    (ref : Option ℕ) (t t' : Table) (id : ℕ)
    → insert_key_details svc now bytes name owned via label ref t ≡ ok (raw, id, t')
    → find_hash (svc.sha256_hex raw) t.rows ≡ none
    → (d : DisplayKey) × (lookup svc raw t' ≡ ok (some d))
      × (d.id ≡ id)
      × (d.name ≡ name)
      × (d.oauth_owned ≡ owned)
unfolding insert_key_details
lookup-insert_key_details svc now bytes name via label raw owned ref t t' id h fresh =
    elim (Option-cases (random_base62 bytes 32)) [
      | inl out ↦ absurd (ground (arith, h, out))
      | inr (suffix, drawn) ↦
          let shape = random_base62_lem bytes 32 suffix drawn in
          let same : String.◌++◌ "gsk_" suffix ≡ raw = ground (arith, h, drawn) in
          let row = new_row svc now t.next_id raw name owned via label ref in
          let stored : t' ≡ insert t row = ground (arith, h, drawn) in
          (
            display row,
            rw stored (
                lookup_new svc raw (insert t row) row
                  (subst (λ x. is_raw_key x ≡ true) same (is_raw_key-label suffix shape.0 shape.1))
                  (subst (λ x. (x =ₜ "") ≡ false) same (nonempty_label suffix))
                  (find_hash-append (svc.sha256_hex raw) t.rows row fresh refl) refl),
            ground (arith, h, drawn),
            refl,
            refl,
          )
    ]
