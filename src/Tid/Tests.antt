-- ===== src/Tid/Tests.antt =====
-- Runs of the record keys.
use compute_contract_referen.Base.{arith, refl, ◌≡◌, ℕ, true, [], ◌∷◌, none, some, codes, ok, err}
use compute_contract_referen.Tid.{
  pack_tid, parse_tid, is_valid_tid, issue_tids, reset_clock_id, bad_clock_id, too_short,
}
use compute_contract_referen.Tid.Packed.{parse_tid-pack_tid}
use compute_contract_referen.Tid.Clock.{IsIncreasing, issue_tids-IsIncreasing}

-- The time of a TID of 2024.
abbrev some_time : ℕ
some_time = 1718000000000000

packed : pack_tid some_time 7 ≡ codes "2shca4xtg222i"
unfolding pack_tid
packed = refl

short : parse_tid (codes "2222") ≡ err too_short
unfolding parse_tid
short = refl

-- A clock id that is refused leaves the old one, with the time at 0.
refused :
    reset_clock_id (some 256) (record { clock_id = some 3; last_micros = 9 })
    ≡ (err bad_clock_id, record { clock_id = some 3; last_micros = 0 })
unfolding reset_clock_id
refused = refl

parse_tid-pack_tid_example :
    (is_valid_tid (pack_tid some_time 7) ≡ true)
    × (parse_tid (pack_tid some_time 7) ≡ ok (record { micros = some_time; clock_id = 7 }))
parse_tid-pack_tid_example = parse_tid-pack_tid some_time 7 (omega arith) (omega arith)

-- The machine's time stands still, and then goes back.
issue_tids-IsIncreasing_example :
    IsIncreasing (
      issue_tids ((5, 100) ∷ (6, 100) ∷ (7, 40) ∷ []) (record { clock_id = none; last_micros = 0 }))
issue_tids-IsIncreasing_example =
    issue_tids-IsIncreasing ((5, 100) ∷ (6, 100) ∷ (7, 40) ∷ [])
      (record { clock_id = none; last_micros = 0 }) 100 (omega arith)
      (omega arith, (omega arith, (omega arith, tt))) (omega arith)
