-- ===== src/Tid.antt =====
-- Record keys: src/typescript/lib/hono-factory-atproto-repo/util/tid.ts. The clock's module variables are
-- a record; `Math.random` and the time are arguments. The shifts of `packTid` are divisions: `micros`
-- is below 2^53, so that its upper word is one that JavaScript's integers hold.
pub mod Packed
pub mod Ordered
pub mod Clock
mod Tests
use compute_contract_referen.Base.{
  ℕ, zero, suc, ◌+◌, ◌-◌, ◌*◌, ◌/◌, ◌%◌, ◌^◌, Bool, true, false, not, ◌&&◌, Option, none, some,
  List, [], ◌∷◌, ◌++◌, leb, ◌==◌, if◌then◌else◌, length, take, Text, codes, index_of, Result, ok,
  err,
}
use compute_contract_referen.Base32.{Base32Error, b32, encode, decode}

abbrev pub tid_len : ℕ
tid_len = 13

pub record TidClock : Type 0 where
  pub clock_id : Option ℕ
  pub last_micros : ℕ

pub record ParsedTid : Type 0 where
  pub micros : ℕ
  pub clock_id : ℕ

pub data TidError : Type 0 where
  bad_symbol : Base32Error → TidError
  too_short : TidError
  bad_clock_id : TidError

-- `resetClockId`: a clock id that is not given is drawn anew. The time is reset before the id is
-- looked at.
unfoldable pub reset_clock_id : Option ℕ → TidClock → Result TidError (Unit {0}) × TidClock
reset_clock_id none clock = (ok tt, record { clock_id = none; last_micros = 0 })
reset_clock_id (some id) clock =
    if leb id 255
    then (ok tt, record { clock_id = some id; last_micros = 0 })
    else (err bad_clock_id, record clock { last_micros = 0 })

-- `getClockId`, for what `(Math.random() * 256) | 0` would give
unfoldable pub get_clock_id : ℕ → TidClock → ℕ × TidClock
get_clock_id random clock = elim clock.clock_id [
  | some id ↦ (id, clock)
  | none ↦ (random, record clock { clock_id = some random })
]

-- The eight bytes of a TID.
unfoldable pub tid_bytes : ℕ → ℕ → List ℕ
tid_bytes micros clock =
    let hi = micros / 2 ^ 32 in
    let lo = micros % 2 ^ 32 in
    (hi / 2 ^ 16 % 256)
    ∷ (hi / 2 ^ 8 % 256)
    ∷ (hi % 256)
    ∷ (lo / 2 ^ 24 % 256)
    ∷ (lo / 2 ^ 16 % 256)
    ∷ (lo / 2 ^ 8 % 256)
    ∷ (lo % 256)
    ∷ (clock % 256)
    ∷ []

-- `s.padEnd(n, c)`, of the characters that are missing
unfoldable pub pad_end : ℕ → ℕ → Text → Text
pad_end zero c s = s
pad_end (suc n) c s = pad_end n c (s ++ c ∷ [])

-- `packTid`
unfoldable pub pack_tid : ℕ → ℕ → Text
unfolding tid_bytes encode pad_end
pack_tid micros clock =
    let encoded = encode b32 (tid_bytes micros clock) in
    take tid_len (pad_end (tid_len - length encoded) b'2' encoded)

-- The words of a decoded TID.
unfoldable pub read_words : List ℕ → Result TidError ParsedTid
read_words (b0 ∷ b1 ∷ b2 ∷ b3 ∷ b4 ∷ b5 ∷ b6 ∷ b7 ∷ rest) =
    let hi = b0 * 2 ^ 16 + b1 * 2 ^ 8 + b2 in
    let lo = b3 * 2 ^ 24 + b4 * 2 ^ 16 + b5 * 2 ^ 8 + b6 in
    ok (record { micros = hi * 2 ^ 32 + lo; clock_id = b7 })
read_words _ = err too_short

-- `parseTid`
unfoldable pub parse_tid : Text → Result TidError ParsedTid
unfolding decode read_words
parse_tid tid = elim (decode b32 tid) [ err e ↦ err (bad_symbol e) | ok buf ↦ read_words buf ]

-- Every character is one of the alphabet's.
unfoldable pub all_symbols : Text → Bool
unfolding index_of
all_symbols [] = true
all_symbols (c ∷ s) = elim (index_of b32 (c ∷ [])) [ none ↦ false | some i ↦ true ] && all_symbols s

-- `isValidTid`
unfoldable pub is_valid_tid : Text → Bool
unfolding all_symbols
is_valid_tid s = length s == tid_len && all_symbols s

-- The microseconds of the next TID. They are a double, whose `+ 1` is this one below 2^53.
unfoldable pub next_micros : ℕ → ℕ → ℕ
next_micros now last = if leb now last then last + 1 else now

-- `nextTid`
unfoldable pub next_tid : ℕ → ℕ → TidClock → Text × TidClock
unfolding get_clock_id next_micros pack_tid
next_tid random now clock =
    let (id, drawn) = get_clock_id random clock in
    let micros = next_micros now drawn.last_micros in
    (pack_tid micros id, record drawn { last_micros = micros })

-- `tidFromTime`
unfoldable pub tid_from_time : ℕ → ℕ → Option ℕ → TidClock → Text × TidClock
unfolding get_clock_id pack_tid
tid_from_time random micros (some id) clock = (pack_tid micros id, clock)
tid_from_time random micros none clock =
    let (id, drawn) = get_clock_id random clock in (pack_tid micros id, drawn)

-- Calls of nextTid in turn, each with what `Math.random` and the clock of the machine would give.
unfoldable pub issue_tids : List (ℕ × ℕ) → TidClock → List Text
unfolding next_tid
issue_tids [] clock = []
issue_tids ((random, now) ∷ calls) clock =
    let (tid, later) = next_tid random now clock in tid ∷ issue_tids calls later
