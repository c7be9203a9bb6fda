-- ===== src/Directory/Links.antt =====
-- A chain of operations, each naming the one before it, and what nullifying a part of it leaves.
use compute_contract_referen.Base.{
  arith, refl, ap, sym, ◌≡◌, ◌⊎◌, inl, inr, suc, ◌+◌, true, false, not, ◌&&◌, Bool-cases, Option,
  Option-cases, none, some, List, [], ◌∷◌, ◌++◌, if◌then◌else◌, length, drop, All, Memᴰ, Text,
  text_eq, text_eq_iff, includes,
}
use compute_contract_referen.Json.{Json, null, string, is_null, is_text}
use compute_contract_referen.Directory.{LogEntry, prev_of, find_op, validate_prev_chain}
use compute_contract_referen.Directory.Store.{current, nullify}
use compute_contract_referen.Directory.Create.{cids_of, find_index}

-- Each operation names the CID of the one before it, the first one `prev`.
abbrev pub Links : Option Json → List LogEntry → Type 0
Links prev [] = Unit
Links prev (e ∷ ops) = (prev_of e.operation ≡ prev) × Links (some (string e.cid)) ops

-- No CID stands twice.
abbrev pub Distinct : List Text → Type 0
Distinct [] = Unit
Distinct (c ∷ cids) = (includes cids c ≡ false) × Distinct cids

-- The entries whose CID is not listed.
unfoldable pub unlisted : List Text → List LogEntry → List LogEntry
unfolding includes
unlisted cids [] = []
unlisted cids (e ∷ ops) =
    let rest = unlisted cids ops in if includes cids e.cid then rest else e ∷ rest

pub current-nullify :
    (cids : List Text) (ops : List LogEntry)
    → current (nullify cids ops) ≡ unlisted cids (current ops)
unfolding current nullify unlisted
current-nullify cids [] = refl
current-nullify cids (e ∷ ops) = ground (arith, current-nullify cids ops)

pub nullify_none : (ops : List LogEntry) → nullify [] ops ≡ ops
unfolding nullify includes
nullify_none [] = refl
nullify_none (e ∷ ops) = rw (nullify_none ops) refl

pub current-append :
    (ops : List LogEntry) (e : LogEntry)
    → e.nullified ≡ false
    → current (ops ++ e ∷ []) ≡ current ops ++ e ∷ []
unfolding current
current-append [] e h = ground arith
current-append (f ∷ ops) e h = ground (arith, current-append ops e)

is_text_iff : (c : Text) (v : Option Json) → is_text c v ≡ true → v ≡ some (string c)
unfolding is_text
is_text_iff c none h = cc
is_text_iff c (some (string d)) h = rw ((text_eq_iff d c).0 h)
is_text_iff c (some _) h = cc

current_later :
    {e : LogEntry} (f : LogEntry) (ops : List LogEntry)
    → Memᴰ e (current ops)
    → Memᴰ e (current (f ∷ ops))
unfolding current
current_later f ops m = elim (Bool-cases f.nullified) [
  | inl void ↦ rw void m
  | inr live ↦ rw live (Memᴰ.tail m)
]

pub current_live :
    (f : LogEntry) (ops : List LogEntry) → f.nullified ≡ false → current (f ∷ ops) ≡ f ∷ current ops
unfolding current
current_live f ops live = ground arith

find_op_current :
    (prev : Option Json) (ops : List LogEntry) (e : LogEntry)
    → find_op prev ops ≡ some e
    → Memᴰ e (current ops) × (prev ≡ some (string e.cid))
unfolding find_op
find_op_current prev [] e h = absurd (ground arith)
find_op_current prev (f ∷ ops) e h = elim (Bool-cases (is_text f.cid prev && not f.nullified)) [
  | inl here ↦
      let live : f.nullified ≡ false = ground arith in
      let same : f ≡ e = ground arith in
      let named : is_text f.cid prev ≡ true = ground arith in
      (
        rw (current_live f ops live) (Memᴰ.head (sym same)),
        rw (← same) (is_text_iff f.cid prev named),
      )
  | inr other ↦
      let (m, named) = find_op_current prev ops e (rw other at h) in (current_later f ops m, named)
]

is_null_iff : (v : Option Json) → is_null v ≡ true → v ≡ some null
is_null_iff none h = cc
is_null_iff (some null) h = refl
is_null_iff (some _) h = cc

-- What the check of prev has found.
pub prev_checked :
    (prev : Option Json) (ops : List LogEntry)
    → validate_prev_chain prev ops ≡ none
    → ((prev ≡ some null) × (ops ≡ []))
      ⊎ ((e : LogEntry) × Memᴰ e (current ops) × (prev ≡ some (string e.cid)))
unfolding validate_prev_chain
prev_checked prev [] h = elim (Bool-cases (is_null prev)) [
  | inl first ↦ inl (is_null_iff prev first, refl)
  | inr later ↦ elim (Option-cases (find_op prev [])) [
    | inl missed ↦ absurd (ground arith)
    | inr (e, found) ↦ let (m, named) = find_op_current prev [] e found in inr (e, m, named)
  ]
]
prev_checked prev (f ∷ ops) h = elim (Bool-cases (is_null prev)) [
  | inl first ↦ absurd (ground arith)
  | inr later ↦ elim (Option-cases (find_op prev (f ∷ ops))) [
    | inl missed ↦ absurd (ground arith)
    | inr (e, found) ↦ let (m, named) = find_op_current prev (f ∷ ops) e found in inr (e, m, named)
  ]
]

is_text_self : (c : Text) → is_text c (some (string c)) ≡ true
unfolding is_text
is_text_self c = (text_eq_iff c c).1 refl

-- The search for the index of an entry of the list stops at an entry with its CID.
pub found_index :
    (c : Text) (ops : List LogEntry) (e : LogEntry)
    → Memᴰ e ops
    → e.cid ≡ c
    → (xs : List LogEntry) × (p : LogEntry) × (ys : List LogEntry) × (ops ≡ xs ++ p ∷ ys)
      × (p.cid ≡ c)
      × (find_index (some (string c)) ops ≡ some (length xs))
unfolding find_index is_text
found_index c [] e m named = elim m [ ]
found_index c (f ∷ ops) e m named = elim (Bool-cases (text_eq c f.cid)) [
  | inl here ↦ ([], f, ops, refl, sym ((text_eq_iff c f.cid).0 here), rw here)
  | inr other ↦ elim m [
    | Memᴰ.head same ↦
        let hit : text_eq c f.cid ≡ true = (text_eq_iff c f.cid).1 (rw (← same) (sym named)) in
        absurd (ground arith)
    | Memᴰ.tail m' ↦
        let (xs, p, ys, split, at_c, i) = found_index c ops e m' named in
        (f ∷ xs, p, ys, rw split refl, at_c, rw (other, i) (ap some (omega arith)))
  ]
]

pub drop_split :
    (xs : List LogEntry) (p : LogEntry) (ys : List LogEntry)
    → drop (length xs + 1) (xs ++ p ∷ ys) ≡ ys
drop_split [] p ys = refl
drop_split (x ∷ xs) p ys =
    let step : length (x ∷ xs) + 1 ≡ suc (length xs + 1) = omega arith in
    rw step (drop_split xs p ys)

pub cids_of-append : (xs ys : List LogEntry) → cids_of (xs ++ ys) ≡ cids_of xs ++ cids_of ys
cids_of-append [] ys = refl
cids_of-append (x ∷ xs) ys = ap (λ l. x.cid ∷ l) (cids_of-append xs ys)

pub includes-append_false :
    (a b : List Text) (c : Text)
    → includes (a ++ b) c ≡ false
    → (includes a c ≡ false) × (includes b c ≡ false)
unfolding includes
includes-append_false [] b c h = (refl, h)
includes-append_false (d ∷ a) b c h = ground (arith, includes-append_false a b c)

unlisted-All :
    (cids : List Text) (ops : List LogEntry)
    → All (λ e. includes cids e.cid ≡ true) ops
    → unlisted cids ops ≡ []
unfolding unlisted
unlisted-All cids [] h = refl
unlisted-All cids (e ∷ ops) (here, rest) = rw here (unlisted-All cids ops rest)

listed_later :
    (c : Text) (cids : List Text) (ops : List LogEntry)
    → All (λ e. includes cids e.cid ≡ true) ops
    → All (λ e. includes (c ∷ cids) e.cid ≡ true) ops
unfolding includes
listed_later c cids [] h = tt
listed_later c cids (e ∷ ops) (here, rest) = (ground arith, listed_later c cids ops rest)

listed_self : (ops : List LogEntry) → All (λ e. includes (cids_of ops) e.cid ≡ true) ops
unfolding includes
listed_self [] = tt
listed_self (e ∷ ops) = (
  ground (arith, text_eq_iff e.cid e.cid),
  listed_later e.cid (cids_of ops) ops (listed_self ops),
)

includes_not_head :
    (c : Text) (e : LogEntry) (ys : List LogEntry)
    → includes (cids_of (e ∷ ys)) c ≡ false
    → includes (cids_of ys) c ≡ false
unfolding includes
includes_not_head c e ys h = ground arith

-- Nullifying what follows `p` leaves what stands up to `p`.
pub unlisted_rest :
    (xs : List LogEntry) (p : LogEntry) (ys : List LogEntry)
    → Distinct (cids_of (xs ++ p ∷ ys))
    → unlisted (cids_of ys) (xs ++ p ∷ ys) ≡ xs ++ p ∷ []
unfolding unlisted
unlisted_rest [] p ys (fresh, distinct) =
    rw fresh (ap (λ l. p ∷ l) (unlisted-All (cids_of ys) ys (listed_self ys)))
unlisted_rest (x ∷ xs) p ys (fresh, distinct) =
    let apart =
      includes-append_false (cids_of xs) (cids_of (p ∷ ys)) x.cid
        (rw (← cids_of-append xs (p ∷ ys)) fresh) in
    let away = includes_not_head x.cid p ys (apart.1) in
    rw away (ap (λ l. x ∷ l) (unlisted_rest xs p ys distinct))
