-- ===== src/Tid/Clock.antt =====
-- What nextTid gives, call after call.
use compute_contract_referen.Base.{
  arith, refl, sym, subst, ◌≡◌, ℕ, suc, ◌+◌, ◌^◌, ◌<◌, ◌≤◌, true, inl, inr, List, [], ◌∷◌, length,
  Option-cases, Text, text_lt,
}
use compute_contract_referen.Tid.{
  TidClock, get_clock_id, next_micros, pack_tid, next_tid, issue_tids,
}
use compute_contract_referen.Tid.Ordered.{pack_tid_order}

-- Each string comes before the next.
abbrev pub IsIncreasing : List Text → Type 0
IsIncreasing [] = Unit {0}
IsIncreasing (_ ∷ []) = Unit {0}
IsIncreasing (s ∷ t ∷ rest) = (text_lt s t ≡ true) × IsIncreasing (t ∷ rest)

-- The times that a machine gives stay at or below a limit.
abbrev pub AreUpTo : ℕ → List (ℕ × ℕ) → Type 0
AreUpTo limit [] = Unit {0}
AreUpTo limit ((_, now) ∷ calls) = (now ≤ limit) × AreUpTo limit calls

AreUpTo-suc : (limit : ℕ) (calls : List (ℕ × ℕ)) → AreUpTo limit calls → AreUpTo (suc limit) calls
AreUpTo-suc limit [] h = tt
AreUpTo-suc limit ((random, now) ∷ calls) (le, h) = (omega arith, AreUpTo-suc limit calls h)

next_micros_later : (now last : ℕ) → last < next_micros now last
unfolding next_micros
next_micros_later now last = ground arith

next_micros_bound :
    (now last limit : ℕ) → now ≤ limit → last ≤ limit → next_micros now last ≤ suc limit
unfolding next_micros
next_micros_bound now last limit h h' = ground arith

-- A TID is packed of the time that the clock is left with, which is later than the one it had.
record IsIssued (random now : ℕ) (clock : TidClock) : Type 0 where
  id : ℕ
  packed : (next_tid random now clock).0 ≡ pack_tid (next_micros now clock.last_micros) id
  left : (next_tid random now clock).1.last_micros ≡ next_micros now clock.last_micros

next_tid-IsIssued : (random now : ℕ) (clock : TidClock) → IsIssued random now clock
unfolding next_tid get_clock_id
next_tid-IsIssued random now clock = elim (Option-cases (clock.clock_id)) [
  | inl none_yet ↦ record { id = random; packed = rw none_yet refl; left = rw none_yet refl }
  | inr (id, has) ↦ record { id = id; packed = rw has refl; left = rw has refl }
]

issued_after :
    (calls : List (ℕ × ℕ)) (clock : TidClock) (id limit : ℕ)
    → clock.last_micros ≤ limit
    → AreUpTo limit calls
    → limit + length calls < 2 ^ 53
    → IsIncreasing (pack_tid clock.last_micros id ∷ issue_tids calls clock)
unfolding issue_tids
issued_after [] clock id limit h up small = tt
issued_after ((random, now) ∷ calls) clock id limit h (le, up) small =
    let issued = next_tid-IsIssued random now clock in
    let later = next_micros_later now clock.last_micros in
    let bound = next_micros_bound now clock.last_micros limit le h in
    let rest =
      issued_after calls ((next_tid random now clock).1) issued.id (suc limit)
        (rw (issued.left) bound) (AreUpTo-suc limit calls up) (omega (arith, small)) in
    (
      rw (issued.packed) (
          pack_tid_order clock.last_micros id (next_micros now clock.last_micros) issued.id later
            (omega (arith, bound, small))),
      subst (λ t. IsIncreasing (t ∷ issue_tids calls ((next_tid random now clock).1)))
          (sym (issued.packed))
          (subst
            (λ m.
              IsIncreasing
                (pack_tid m issued.id ∷ issue_tids calls ((next_tid random now clock).1)))
            (issued.left) rest),
    )

tail-IsIncreasing : (s : Text) (l : List Text) → IsIncreasing (s ∷ l) → IsIncreasing l
tail-IsIncreasing s [] h = tt
tail-IsIncreasing s (t ∷ l) (less, h) = h

-- The TIDs that a clock issues come in the order in which they were asked for, also when the machine's
-- time stands still or goes back: as long as that time, the clock's own and the number of TIDs together
-- stay below 2^53 microseconds, where a double is exact.
pub issue_tids-IsIncreasing :
    (calls : List (ℕ × ℕ)) (clock : TidClock) (limit : ℕ)
    → clock.last_micros ≤ limit
    → AreUpTo limit calls
    → limit + length calls < 2 ^ 53
    → IsIncreasing (issue_tids calls clock)
issue_tids-IsIncreasing calls clock limit h up small =
    tail-IsIncreasing (pack_tid clock.last_micros 0) (issue_tids calls clock)
      (issued_after calls clock 0 limit h up small)
