-- ===== src/Car/Collected.antt =====
-- What `collectAllBlocks` collects, and the fuel that it needs.
use compute_contract_referen.Base.{
  arith, refl, sym, subst, ◌≡◌, ◌⊎◌, ℕ, zero, suc, ◌+◌, ◌<◌, ◌≤◌, true, false, inl, inr, Bool-cases,
  Option-cases, Option, none, some, List, [], ◌∷◌, ◌++◌, All, All-append, Text, text_eq,
  text_eq_iff, includes, length, Result, ok, err, ◌>>=◌, if◌then◌else◌,
}
use compute_contract_referen.Car.{CarError, block_not_found, CarBlock}
use compute_contract_referen.Car.Collecting.{
  Child, child, throws, children, Walked, is_fuel, after_child, walk, collect,
}

-- Everything seen before is seen after.
abbrev Grows : List Text → List Text → Type 0
Grows seen later = (cid : Text) → includes seen cid ≡ true → includes later cid ≡ true

-- The blocks are the store's, under their CIDs.
abbrev AreStored : (Text → Option (List ℕ)) → Result CarError (List CarBlock) → Type 0
AreStored get (err e) = Unit {0}
AreStored get (ok blocks) = All (λ block. get block.cid ≡ some block.bytes) blocks

-- The fuel has not run out.
abbrev Returns : Result CarError (List CarBlock) → Type 0
Returns (err e) = is_fuel e ≡ false
Returns (ok blocks) = Unit {0}

unfoldable unseen : List Text → List Text → ℕ
unfolding includes
unseen [] seen = 0
unseen (key ∷ keys) seen = (if includes seen key then 0 else 1) + unseen keys seen

unseen_le : (keys seen later : List Text) → Grows seen later → unseen keys later ≤ unseen keys seen
unfolding unseen
unseen_le [] seen later grows = omega arith
unseen_le (key ∷ keys) seen later grows =
    let rest = unseen_le keys seen later grows in let this = grows key in ground (arith, rest, this)

seen_later : (seen : List Text) (cid : Text) → Grows seen (cid ∷ seen)
unfolding includes
seen_later seen cid c h = ground (arith, h)

unseen_lt :
    (keys seen : List Text) (cid : Text)
    → includes keys cid ≡ true
    → includes seen cid ≡ false
    → unseen keys (cid ∷ seen) < unseen keys seen
unfolding unseen includes
unseen_lt [] seen cid known new = absurd (ground arith)
unseen_lt (key ∷ keys) seen cid known new =
    let le = unseen_le keys seen (cid ∷ seen) (seen_later seen cid) in
    elim (Bool-cases (text_eq key cid)) [
      | inl this ↦
          let same = (text_eq_iff key cid).0 this in
          let back : text_eq cid key ≡ true = (text_eq_iff cid key).1 (sym same) in
          let new_key : includes seen key ≡ false = rw same new in ground (arith, back, new_key, le)
      | inr other ↦
          let rest = unseen_lt keys seen cid (ground (arith, known, other)) new in
          ground (arith, rest)
    ]

-- What holds of every call with enough fuel.
record Holds (get : Text → Option (List ℕ)) (seen : List Text) (outcome : Walked) : Type 0 where
  grows : Grows seen (outcome.1)
  returns : Returns (outcome.0)
  stored : AreStored get (outcome.0)

joined-Holds :
    (get : Text → Option (List ℕ)) (seen later : List Text) (blocks : List CarBlock)
    (outcome : Walked)
    → Grows seen later
    → AreStored get (ok blocks)
    → Holds get later outcome
    → Holds get seen (outcome.0 >>= (λ others. ok (blocks ++ others)), outcome.1)
joined-Holds get seen later blocks (err e, last) grows stored h = record {
  grows = λ cid seen_before. h.grows cid (grows cid seen_before);
  returns = h.returns;
  stored = tt;
}
joined-Holds get seen later blocks (ok others, last) grows stored h = record {
  grows = λ cid seen_before. h.grows cid (grows cid seen_before);
  returns = tt;
  stored = All-append (λ block. get block.cid ≡ some block.bytes) blocks others stored (h.stored);
}

after_child-Holds :
    (get : Text → Option (List ℕ)) (rest : List Text → Walked) (seen : List Text) (outcome : Walked)
    → Holds get seen outcome
    → ((later : List Text) → Grows seen later → Holds get later (rest later))
    → Holds get seen (after_child rest outcome)
unfolding after_child
after_child-Holds get rest seen (err e, later) h more = elim (Bool-cases (is_fuel e)) [
  | inl fuel ↦ absurd (ground (arith, fuel, h.returns))
  | inr thrown ↦ rw thrown (record { grows = h.grows; returns = tt; stored = tt })
]
after_child-Holds get rest seen (ok blocks, later) h more =
    joined-Holds get seen later blocks (rest later) (h.grows) (h.stored) (more later (h.grows))

walk-Holds :
    (get : Text → Option (List ℕ)) (step : Text → List Text → Walked) (Bound : List Text → Type 0)
    → ((seen later : List Text) → Grows seen later → Bound seen → Bound later)
    → ((cid : Text) (seen : List Text) → Bound seen → Holds get seen (step cid seen))
    → (links : List Child) (seen : List Text) → Bound seen
    → Holds get seen (walk step links seen)
unfolding walk
walk-Holds get step Bound mono each [] seen b = record {
  grows = λ cid h. h;
  returns = tt;
  stored = tt;
}
walk-Holds get step Bound mono each (throws ∷ rest) seen b = record {
  grows = λ cid h. h;
  returns = tt;
  stored = tt;
}
walk-Holds get step Bound mono each (child cid ∷ rest) seen b =
    after_child-Holds get (walk step rest) seen (step cid seen) (each cid seen b)
      (λ later grows. walk-Holds get step Bound mono each rest later (mono seen later grows b))

module _ (get : Text → Option (List ℕ)) (keys : List Text) where
  -- The store holds blocks under these CIDs alone.
  abbrev HasKeys : Type 0
  HasKeys = (cid : Text) (bytes : List ℕ) → get cid ≡ some bytes → includes keys cid ≡ true

  collect-Holds :
      HasKeys
      → (fuel : ℕ) (cid : Text) (seen : List Text) → unseen keys seen < fuel
      → Holds get seen (collect get fuel cid seen)
  unfolding collect
  collect-Holds held zero cid seen enough = absurd (omega (arith, enough))
  collect-Holds held (suc fuel) cid seen enough = elim (Bool-cases (includes seen cid)) [
    | inl known ↦ rw (known, collect) (record { grows = λ c h. h; returns = tt; stored = tt })
    | inr new ↦ elim (Option-cases (get cid)) [
      | inl missing ↦
          rw (new, collect, missing)
            (record { grows = seen_later seen cid; returns = unfold is_fuel in refl; stored = tt })
      | inr (bytes, found) ↦
          let less = unseen_lt keys seen cid (held cid bytes found) new in
          let walked : Holds get (cid ∷ seen)
              (walk (collect get fuel) (children bytes) (cid ∷ seen)) =
            walk-Holds get (collect get fuel) (λ s. unseen keys s < fuel)
              (λ s later grows b. omega (arith, unseen_le keys s later grows, b))
              (λ c s b. collect-Holds held fuel c s b) (children bytes) (cid ∷ seen)
              (omega (arith, less, enough)) in
          rw (new, collect, found)
            (joined-Holds get seen (cid ∷ seen) (record { cid = cid; bytes = bytes } ∷ [])
              (walk (collect get fuel) (children bytes) (cid ∷ seen)) (seen_later seen cid)
              (found, tt) walked)
    ]
  ]

-- A walk throws nothing but the end of the fuel.
abbrev IsCaught : Result CarError (List CarBlock) → Type 0
IsCaught (err e) = is_fuel e ≡ true
IsCaught (ok blocks) = Unit {0}

joined-IsCaught :
    (blocks : List CarBlock) (result : Result CarError (List CarBlock))
    → IsCaught result
    → IsCaught (result >>= (λ others. ok (blocks ++ others)))
joined-IsCaught blocks (err e) h = h
joined-IsCaught blocks (ok others) h = tt

after_child-IsCaught :
    (rest : List Text → Walked) (outcome : Walked)
    → ((later : List Text) → IsCaught ((rest later).0))
    → IsCaught ((after_child rest outcome).0)
unfolding after_child
after_child-IsCaught rest (err e, later) more = elim (Bool-cases (is_fuel e)) [
  | inl fuel ↦ rw fuel fuel
  | inr thrown ↦ rw thrown tt
]
after_child-IsCaught rest (ok blocks, later) more =
    joined-IsCaught blocks ((rest later).0) (more later)

walk-IsCaught :
    (step : Text → List Text → Walked) (links : List Child) (seen : List Text)
    → IsCaught ((walk step links seen).0)
unfolding walk
walk-IsCaught step [] seen = tt
walk-IsCaught step (throws ∷ rest) seen = tt
walk-IsCaught step (child cid ∷ rest) seen =
    after_child-IsCaught (walk step rest) (step cid seen) (λ later. walk-IsCaught step rest later)

all_unseen : (keys : List Text) → unseen keys [] ≡ length keys
unfolding unseen includes
all_unseen [] = refl
all_unseen (key ∷ keys) = omega (arith, all_unseen keys)

module _ (get : Text → Option (List ℕ)) (keys : List Text) where
  -- What a collection from a root comes to: the root's block and others that the store has under their
  -- CIDs, or an error that names the root, which the store does not have.
  abbrev pub IsCollection : Text → Result CarError (List CarBlock) → Type 0
  IsCollection root result =
      ((bytes : List ℕ) × (others : List CarBlock) × (get root ≡ some bytes)
        × (result ≡ ok (record { cid = root; bytes = bytes } ∷ others))
        × All (λ block. get block.cid ≡ some block.bytes) others)
      ⊎ ((get root ≡ none) × (result ≡ err (block_not_found root)))

  collected_ok :
      (root : Text) (bytes : List ℕ)
      → get root ≡ some bytes
      → (result : Result CarError (List CarBlock)) → IsCaught result
      → Returns result
      → AreStored get result
      → IsCollection root
          (result >>= (λ blocks. ok (record { cid = root; bytes = bytes } ∷ blocks)))
  collected_ok root bytes found (err e) caught returns stored =
      absurd (ground (arith, caught, returns))
  collected_ok root bytes found (ok blocks) caught returns stored =
      inl (bytes, blocks, found, refl, stored)

  -- With a unit of fuel for each CID of the store and one more, a collection returns: with the block of the
  -- root first, and only blocks that the store has under their CIDs, or with an error exactly when the
  -- store has no block for the root.
  pub collect-IsCollection :
      HasKeys get keys
      → (fuel : ℕ) (root : Text) → length keys < fuel
      → IsCollection root ((collect get fuel root []).0)
  unfolding collect includes
  collect-IsCollection held zero root enough = absurd (omega (arith, enough))
  collect-IsCollection held (suc fuel) root enough = elim (Option-cases (get root)) [
    | inl missing ↦ inr (missing, rw missing refl)
    | inr (bytes, found) ↦
        let less = unseen_lt keys [] root (held root bytes found) refl in
        let walked : Holds get (root ∷ []) (walk (collect get fuel) (children bytes) (root ∷ [])) =
          walk-Holds get (collect get fuel) (λ s. unseen keys s < fuel)
            (λ s later grows b. omega (arith, unseen_le keys s later grows, b))
            (λ c s b. collect-Holds get keys held fuel c s b) (children bytes) (root ∷ [])
            (omega (arith, less, all_unseen keys, enough)) in
        let result = (walk (collect get fuel) (children bytes) (root ∷ [])).0 in
        let opened : (collect get (suc fuel) root []).0
            ≡ (result >>= (λ blocks. ok (record { cid = root; bytes = bytes } ∷ blocks))) =
          rw found refl in
        subst (IsCollection root) (sym opened) (
          collected_ok root bytes found result
            (walk-IsCaught (collect get fuel) (children bytes) (root ∷ [])) (walked.returns)
            (walked.stored))
  ]
