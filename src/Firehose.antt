-- ===== src/Firehose.antt =====
-- `FirehoseSequencer` of src/typescript/lib/hono-factory-atproto-repo/firehose/sequencer.ts. The fields
-- of a frame that are copied from the commit event are one parameter; what is published on the event
-- bus is recorded in order.
pub mod Backlog
pub mod Emitted
mod Tests
use compute_contract_referen.Base.{
  ℕ, suc, ◌+◌, Bool, true, false, Option, none, some, List, [], ◌∷◌, ◌++◌, ltb, if◌then◌else◌,
  length,
}

-- `MAX_BACKLOG`
abbrev pub max_backlog : ℕ
max_backlog = 10000

-- `SequencedFrame`
pub record SequencedFrame (E : Type 0) : Type 0 where
  pub seq : ℕ
  pub event : E

pub record Sequencer (E : Type 0) : Type 0 where
  pub seq : ℕ
  pub backlog : List (SequencedFrame E)
  pub published : List (SequencedFrame E)

-- `since === undefined || seq > since`
abbrev pub is_after : Option ℕ → ℕ → Bool
is_after none seq = true
is_after (some since) seq = ltb since seq

module _ {E : Type 0} where
  abbrev pub new_sequencer : Sequencer E
  new_sequencer = record { seq = 0; backlog = []; published = [] }

  -- `backlog.shift()`
  abbrev pub shift : List (SequencedFrame E) → List (SequencedFrame E)
  shift [] = []
  shift (frame ∷ frames) = frames

  -- `append`: the frame that it returns, and the state
  unfoldable pub append : E → Sequencer E → SequencedFrame E × Sequencer E
  append event s =
      let frame : SequencedFrame E = record { seq = s.seq + 1; event = event } in
      let pushed = s.backlog ++ frame ∷ [] in
      (
        frame,
        record {
          seq = s.seq + 1;
          backlog = if ltb max_backlog (length pushed) then shift pushed else pushed;
          published = s.published ++ frame ∷ [];
        },
      )

  -- `backfill`
  unfoldable pub backfill : Option ℕ → List (SequencedFrame E) → List (SequencedFrame E)
  backfill since [] = []
  backfill since (frame ∷ frames) =
      let rest = backfill since frames in if is_after since frame.seq then frame ∷ rest else rest
