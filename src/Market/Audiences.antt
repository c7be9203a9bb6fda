-- ===== src/Market/Audiences.antt =====
-- The audiences that `verifyMarketServiceAuth` accepts, of src/typescript/lib/market/auth.ts.
use compute_contract_referen.Base.{
  arith, refl, sym, ◌≡◌, ◌⊎◌, inl, inr, Bool-cases, Option, none, some, List, [], ◌∷◌, Memᴰ, Text,
  text_eq, text_eq_iff, Dict, lookup, put, lookup-put,
}
use compute_contract_referen.Market.{service_ref, add_refs, acceptable_audiences}

-- The audience is one of the DIDs, bare or with one of the service ids.
pub data Accepts (dids ids : List Text) (aud : Text) (service_id : Option Text) : Type 0 where
  bare : Memᴰ aud dids → service_id ≡ none → Accepts dids ids aud service_id
  referred :
      (did id : Text)
      → Memᴰ did dids
      → Memᴰ id ids
      → aud ≡ service_ref did id
      → service_id ≡ some id
      → Accepts dids ids aud service_id

add_refs_sound :
    (did : Text) (ids : List Text) (d : Dict (Option Text)) (aud : Text) (s : Option Text)
    → lookup aud (add_refs did ids d) ≡ some s
    → ((id : Text) × Memᴰ id ids × (aud ≡ service_ref did id) × (s ≡ some id))
      ⊎ (lookup aud d ≡ some s)
unfolding add_refs
add_refs_sound did [] d aud s h = inr h
add_refs_sound did (id ∷ ids) d aud s h =
    elim (add_refs_sound did ids (put (service_ref did id) (some id) d) aud s h) [
      | inl (i, m, e, k) ↦ inl (i, Memᴰ.tail m, e, k)
      | inr found ↦ elim (Bool-cases (text_eq (service_ref did id) aud)) [
        | inl same ↦
            let looks = lookup-put (service_ref did id) aud (some id) d in
            inl (
              id,
              Memᴰ.head refl,
              sym ((text_eq_iff (service_ref did id) aud).0 same),
              ground arith,
            )
        | inr other ↦
            let looks = lookup-put (service_ref did id) aud (some id) d in inr (ground arith)
      ]
    ]

later_did :
    {dids ids : List Text} {aud : Text} {s : Option Text} (did : Text)
    → Accepts dids ids aud s
    → Accepts (did ∷ dids) ids aud s
later_did did (bare m e) = bare (Memᴰ.tail m) e
later_did did (referred other id m n e k) = referred other id (Memᴰ.tail m) n e k

pub acceptable_sound :
    (dids ids : List Text) (d : Dict (Option Text)) (aud : Text) (s : Option Text)
    → lookup aud (acceptable_audiences dids ids d) ≡ some s
    → Accepts dids ids aud s ⊎ (lookup aud d ≡ some s)
unfolding acceptable_audiences
acceptable_sound [] ids d aud s h = inr h
acceptable_sound (did ∷ dids) ids d aud s h =
    elim (acceptable_sound dids ids (add_refs did ids (put did none d)) aud s h) [
      | inl a ↦ inl (later_did did a)
      | inr found ↦ elim (add_refs_sound did ids (put did none d) aud s found) [
        | inl (id, m, e, k) ↦ inl (referred did id (Memᴰ.head refl) m e k)
        | inr before ↦
            let looks = lookup-put did aud none d in
            elim (Bool-cases (text_eq did aud)) [
              | inl same ↦
                  inl (bare (Memᴰ.head (sym ((text_eq_iff did aud).0 same))) (ground arith))
              | inr other ↦ inr (ground arith)
            ]
      ]
    ]
