-- ===== src/Firehose/Tests.antt =====
-- A sequencer that has seen two events.
use compute_contract_referen.Base.{arith, refl, ◌≡◌, ℕ, ◌+◌, some, [], ◌∷◌, length}
use compute_contract_referen.Firehose.{Sequencer, new_sequencer, backfill}
use compute_contract_referen.Firehose.Emitted.{HasEmitted, append_all, append_all-HasEmitted}
use compute_contract_referen.Firehose.Backlog.{Follows, IsBacklog, backfill-Follows}

abbrev fresh : Sequencer ℕ
fresh = new_sequencer

fresh-IsBacklog : IsBacklog fresh
fresh-IsBacklog = record { bounded = omega arith; evicted = 0; counted = refl; follows = tt }

abbrev two : Sequencer ℕ
two = record {
  seq = 2;
  backlog = record { seq = 1; event = 7 } ∷ record { seq = 2; event = 8 } ∷ [];
  published = [];
}

two-IsBacklog : IsBacklog two
two-IsBacklog = record {
  bounded = omega arith;
  evicted = 0;
  counted = refl;
  follows = (refl, (refl, tt));
}

backfill-Follows_example :
    Follows 1 (backfill (some 1) two.backlog)
    × (1 + length (backfill (some 1) two.backlog) ≡ two.seq)
backfill-Follows_example = backfill-Follows 1 two two-IsBacklog (omega arith) (omega arith)

append_all-HasEmitted_example : HasEmitted (7 ∷ 8 ∷ []) (append_all (7 ∷ 8 ∷ []) fresh)
append_all-HasEmitted_example = append_all-HasEmitted (7 ∷ 8 ∷ [])
