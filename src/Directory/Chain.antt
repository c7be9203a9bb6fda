-- ===== src/Directory/Chain.antt =====
-- The log of a DID as a chain, under `handleCreateOp` of
-- src/typescript/lib/hono-factory-did-plc-directory/handlers.ts.
use compute_contract_referen.Base.{
  arith, refl, ap, sym, ◌≡◌, ◌≢◌, ◌∙◌, inl, inr, ℕ, ◌+◌, true, false, ◌||◌, Bool-cases, Option,
  none, some, List, [], ◌∷◌, ◌++◌, if◌then◌else◌, length, length-append, append_assoc, ltb, All,
  All-append, All-left, Text, text_eq, text_eq_iff, includes,
}
use compute_contract_referen.Json.{Json, null, string, is_text}
use compute_contract_referen.Directory.{
  DirectoryDeps, LogEntry, prev_of, type_of, plc_operation, compute_operation_cid,
  validate_prev_chain,
}
use compute_contract_referen.Directory.Store.{current, nullify}
use compute_contract_referen.Directory.Create.{cids_of, find_index, last, overridden}
use compute_contract_referen.Directory.Links.{
  Links, Distinct, unlisted, current-nullify, current-append, prev_checked, current_live,
  found_index, drop_split, cids_of-append, includes-append_false, unlisted_rest,
}

current_none : current [] ≡ []
unfolding current
current_none = refl

Links-start :
    (prev : Option Json) (xs : List LogEntry) (p : LogEntry) (ys : List LogEntry)
    → Links prev (xs ++ p ∷ ys)
    → Links prev (xs ++ p ∷ [])
Links-start prev [] p ys (named, links) = (named, tt)
Links-start prev (x ∷ xs) p ys (named, links) =
    (named, Links-start (some (string x.cid)) xs p ys links)

Links-extended :
    (prev : Option Json) (xs : List LogEntry) (p e : LogEntry)
    → Links prev (xs ++ p ∷ [])
    → prev_of e.operation ≡ some (string p.cid)
    → Links prev ((xs ++ p ∷ []) ++ e ∷ [])
Links-extended prev [] p e (named, links) next = (named, (next, tt))
Links-extended prev (x ∷ xs) p e (named, links) next =
    (named, Links-extended (some (string x.cid)) xs p e links next)

includes_snoc :
    (xs : List LogEntry) (e : LogEntry) (c : Text)
    → includes (cids_of (xs ++ e ∷ [])) c ≡ (includes (cids_of xs) c || text_eq e.cid c)
unfolding includes
includes_snoc [] e c = ground arith
includes_snoc (x ∷ xs) e c = ground (arith, includes_snoc xs e c)

Distinct-left : (xs ys : List LogEntry) → Distinct (cids_of (xs ++ ys)) → Distinct (cids_of xs)
Distinct-left [] ys d = tt
Distinct-left (x ∷ xs) ys (fresh, d) = (
  (includes-append_false (cids_of xs) (cids_of ys) x.cid (rw (← cids_of-append xs ys) fresh)).0,
  Distinct-left xs ys d,
)

Distinct-extended :
    (xs : List LogEntry) (e : LogEntry)
    → Distinct (cids_of xs)
    → includes (cids_of xs) e.cid ≡ false
    → Distinct (cids_of (xs ++ e ∷ []))
unfolding includes
Distinct-extended [] e d fresh = (refl, tt)
Distinct-extended (x ∷ xs) e (apart, d) fresh = (
  ground (arith, includes_snoc xs e x.cid, text_eq_iff x.cid e.cid, text_eq_iff e.cid x.cid),
  Distinct-extended xs e d (ground arith),
)

overridden_genesis :
    (op : Json) (ops : List LogEntry) → prev_of op ≡ some null → overridden op ops ≡ []
unfolding overridden
overridden_genesis op ops h = elim (Bool-cases (is_text plc_operation (type_of op))) [
  | inl update ↦ rw (update, h) refl
  | inr other ↦ rw other refl
]

pub overridden_other :
    (op : Json) (ops : List LogEntry)
    → is_text plc_operation (type_of op) ≡ false
    → overridden op ops ≡ []
unfolding overridden
overridden_other op ops h = rw h refl

cids_of_rest :
    (n : ℕ) (xs : List LogEntry) (p : LogEntry) (ys : List LogEntry)
    → n ≡ length xs
    → (if ltb (n + 1) (length (xs ++ p ∷ ys)) then cids_of ys else []) ≡ cids_of ys
cids_of_rest n xs p [] h = ground arith
cids_of_rest n xs p (y ∷ ys) h = ground (arith, length-append xs (p ∷ (y ∷ ys)))

overridden_update :
    (op : Json) (c : Text) (xs : List LogEntry) (p : LogEntry) (ys : List LogEntry)
    → is_text plc_operation (type_of op) ≡ true
    → prev_of op ≡ some (string c)
    → find_index (some (string c)) (xs ++ p ∷ ys) ≡ some (length xs)
    → overridden op (xs ++ p ∷ ys) ≡ cids_of ys
unfolding overridden
overridden_update op c xs p ys update named i =
    let found : find_index (prev_of op) (xs ++ p ∷ ys) ≡ some (length xs) =
      ap (λ v. find_index v (xs ++ p ∷ ys)) named ∙ i in
    rw (found, update, named, drop_split xs p ys) (cids_of_rest (length xs) xs p ys refl)

last_split :
    (ops : List LogEntry) (p : LogEntry)
    → last ops ≡ some p
    → (xs : List LogEntry) × (ops ≡ xs ++ p ∷ [])
last_split [] p h = cc
last_split (e ∷ []) p h = ([], cc)
last_split (e ∷ f ∷ ops) p h = let (xs, split) = last_split (f ∷ ops) p h in (e ∷ xs, rw split refl)

not_last :
    (x p : LogEntry) (xs : List LogEntry)
    → includes (cids_of (xs ++ p ∷ [])) x.cid ≡ false
    → ◌≢◌ {A = Option Json} (some (string x.cid)) (some (string p.cid))
not_last x p xs apart e =
    let same : x.cid ≡ p.cid = cc in
    ground (arith, includes_snoc xs p x.cid, text_eq_iff p.cid x.cid)

module _ (deps : DirectoryDeps) where
  abbrev pub Identified : LogEntry → Type 0
  Identified e = compute_operation_cid deps e.operation ≡ some e.cid

  -- The operations that count: a chain from a genesis operation, without repetition, each under the
  -- CID that is computed of it.
  pub record IsChain (ops : List LogEntry) : Type 0 where
    pub links : Links (some null) (current ops)
    pub distinct : Distinct (cids_of (current ops))
    pub identified : All Identified (current ops)

  -- Operations with one CID have one prev: CIDs do not collide.
  abbrev pub BindsPrev : Type 0
  BindsPrev =
      (a b : Json) (cid : Text)
      → compute_operation_cid deps a ≡ some cid
      → compute_operation_cid deps b ≡ some cid
      → prev_of a ≡ prev_of b

  module _ (binds : BindsPrev) where
    fresh_after :
        (prev : Option Json) (xs : List LogEntry) (p : LogEntry) (op : Json) (cid : Text)
        → Links prev (xs ++ p ∷ [])
        → Distinct (cids_of (xs ++ p ∷ []))
        → All Identified (xs ++ p ∷ [])
        → prev ≢ some (string p.cid)
        → compute_operation_cid deps op ≡ some cid
        → prev_of op ≡ some (string p.cid)
        → includes (cids_of (xs ++ p ∷ [])) cid ≡ false
    unfolding includes
    fresh_after prev [] p op cid (named, links) d (known, tt) other computed next =
        elim (Bool-cases (text_eq p.cid cid)) [
          | inl same ↦
              let e : p.cid ≡ cid = (text_eq_iff p.cid cid).0 same in
              let agree = binds p.operation op cid (known ∙ ap some e) computed in
              absurd (other (sym named ∙ agree ∙ next))
          | inr apart ↦ rw apart refl
        ]
    fresh_after prev (x ∷ xs) p op cid (named, links) (apart, d) (known, all) other computed next =
        elim (Bool-cases (text_eq x.cid cid)) [
          | inl same ↦
              let e : x.cid ≡ cid = (text_eq_iff x.cid cid).0 same in
              let agree = binds x.operation op cid (known ∙ ap some e) computed in
              absurd (other (sym named ∙ agree ∙ next))
          | inr differs ↦ rw differs (
              fresh_after (some (string x.cid)) xs p op cid links d all (not_last x p xs apart)
                computed next)
        ]

    -- What stands up to `p`, with an operation put after it.
    extended :
        (ops left : List LogEntry) (xs : List LogEntry) (p e : LogEntry) (ys : List LogEntry)
        → IsChain ops
        → current ops ≡ xs ++ p ∷ ys
        → current left ≡ xs ++ p ∷ []
        → e.nullified ≡ false
        → Identified e
        → prev_of e.operation ≡ some (string p.cid)
        → IsChain (left ++ e ∷ [])
    extended ops left xs p e ys chain split stays live known next =
        let links = Links-start (some null) xs p ys (rw split at (chain.links)) in
        let whole : current ops ≡ (xs ++ p ∷ []) ++ ys =
          split ∙ sym (append_assoc xs (p ∷ []) ys) in
        let distinct = Distinct-left (xs ++ p ∷ []) ys (rw whole at (chain.distinct)) in
        let all = All-left Identified (xs ++ p ∷ []) ys (rw whole at (chain.identified)) in
        let other : ◌≢◌ {A = Option Json} (some null) (some (string p.cid)) = λ h. cc in
        let fresh =
          fresh_after (some null) xs p e.operation e.cid links distinct all other known next in
        let after : current (left ++ e ∷ []) ≡ (xs ++ p ∷ []) ++ e ∷ [] =
          current-append left e live ∙ ap (λ l. l ++ e ∷ []) stays in
        record {
          links = rw after (Links-extended (some null) xs p e links next);
          distinct = rw after (Distinct-extended (xs ++ p ∷ []) e distinct fresh);
          identified = rw after (All-append Identified (xs ++ p ∷ []) (e ∷ []) all (known, tt));
        }

    genesis-IsChain :
        (e : LogEntry)
        → e.nullified ≡ false
        → Identified e
        → prev_of e.operation ≡ some null
        → IsChain (nullify [] [] ++ e ∷ [])
    unfolding nullify
    genesis-IsChain e live known first =
        let alone = current_live e [] live ∙ ap (λ l. e ∷ l) current_none in
        record {
          links = rw alone (first, tt);
          distinct = rw alone (unfold includes in (refl, tt));
          identified = rw alone (known, tt);
        }

    -- An update, which may override a part of the chain.
    pub updated-IsChain :
        (ops : List LogEntry) (e : LogEntry)
        → IsChain ops
        → e.nullified ≡ false
        → Identified e
        → is_text plc_operation (type_of e.operation) ≡ true
        → validate_prev_chain (prev_of e.operation) ops ≡ none
        → IsChain (nullify (overridden e.operation (current ops)) ops ++ e ∷ [])
    updated-IsChain ops e chain live known update checked =
        elim (prev_checked (prev_of e.operation) ops checked) [
          | inl (first, empty) ↦
              rw (overridden_genesis e.operation (current ops) first, empty)
                (genesis-IsChain e live known first)
          | inr (q, m, named) ↦
              let (xs, p, ys, split, at_q, i) = found_index q.cid (current ops) q m refl in
              let rest : overridden e.operation (current ops) ≡ cids_of ys =
                rw split
                  (overridden_update e.operation q.cid xs p ys update named (rw split at i)) in
              let distinct : Distinct (cids_of (xs ++ p ∷ ys)) = rw split at (chain.distinct) in
              let left : current (nullify (cids_of ys) ops) ≡ xs ++ p ∷ [] =
                current-nullify (cids_of ys) ops
                ∙ ap (unlisted (cids_of ys)) split
                ∙ unlisted_rest xs p ys distinct in
              rw rest (
                extended ops (nullify (cids_of ys) ops) xs p e ys chain split left live known
                  (named ∙ ap (λ c. some (string c)) (sym at_q)))
        ]

    -- An operation that names the last one of the chain.
    pub appended-IsChain :
        (ops : List LogEntry) (e p : LogEntry)
        → IsChain ops
        → e.nullified ≡ false
        → Identified e
        → last (current ops) ≡ some p
        → prev_of e.operation ≡ some (string p.cid)
        → IsChain (ops ++ e ∷ [])
    appended-IsChain ops e p chain live known standing next =
        let (xs, split) = last_split (current ops) p standing in
        extended ops ops xs p e [] chain split split live known next
