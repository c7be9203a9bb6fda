-- ===== src/Firehose/Backlog.antt =====
-- The backlog of the firehose as a suffix of the frames emitted, and backfills of it.
use compute_contract_referen.Base.{
  arith, refl, ap, subst, ◌≡◌, ◌≤◌, ◌<◌, inl, inr, ℕ, ◌+◌, true, Bool-cases, some, List, [], ◌∷◌,
  ◌++◌, ltb, length, length-append,
}
use compute_contract_referen.Firehose.{
  max_backlog, SequencedFrame, Sequencer, shift, append, backfill,
}

module _ {E : Type 0} where
  -- The frames have the numbers behind `n`, one by one.
  abbrev pub Follows : ℕ → List (SequencedFrame E) → Type 0
  Follows n [] = Unit
  Follows n (frame ∷ frames) = (frame.seq ≡ n + 1) × Follows (n + 1) frames

  -- The backlog is no longer than its maximum, and its frames are the last ones, without a gap.
  pub record IsBacklog (s : Sequencer E) : Type 0 where
    pub bounded : length s.backlog ≤ max_backlog
    pub evicted : ℕ
    pub counted : evicted + length s.backlog ≡ s.seq
    pub follows : Follows evicted s.backlog

  Follows-snoc :
      (n : ℕ) (frames : List (SequencedFrame E)) (frame : SequencedFrame E)
      → Follows n frames
      → frame.seq ≡ (n + length frames) + 1
      → Follows n (frames ++ frame ∷ [])
  Follows-snoc n [] frame f e = (omega (arith, e), tt)
  Follows-snoc n (x ∷ frames) frame (h, f) e =
      (h, Follows-snoc (n + 1) frames frame f (omega (arith, e)))

  shifted :
      (n : ℕ) (frames : List (SequencedFrame E))
      → 0 < length frames
      → Follows n frames
      → Follows (n + 1) (shift frames) × ((n + 1) + length (shift frames) ≡ n + length frames)
  shifted n [] h f = absurd (omega (arith, h))
  shifted n (x ∷ frames) h (_, f) = (f, omega arith)

  shift-length :
      (frames : List (SequencedFrame E))
      → 0 < length frames
      → length (shift frames) + 1 ≡ length frames
  shift-length [] h = absurd (omega (arith, h))
  shift-length (x ∷ frames) h = omega arith

  -- Appending an event gives a frame with the next number, and keeps a backlog that holds the last
  -- frames, without a gap and no more than the maximum.
  pub append-IsBacklog :
      (event : E) (s : Sequencer E)
      → IsBacklog s
      → ((append event s).0.seq ≡ s.seq + 1)
        × ((append event s).1.seq ≡ s.seq + 1)
        × IsBacklog (append event s).1
  unfolding append
  append-IsBacklog event s b =
      let frame : SequencedFrame E = record { seq = s.seq + 1; event = event } in
      let pushed = s.backlog ++ frame ∷ [] in
      let longer : length pushed ≡ length s.backlog + 1 = length-append s.backlog (frame ∷ []) in
      let follows : Follows b.evicted pushed =
        Follows-snoc b.evicted s.backlog frame b.follows (omega (arith, b.counted)) in
      elim (Bool-cases (ltb max_backlog (length pushed))) [
        | inr fits ↦ rw fits (
          refl,
          refl,
          record {
            bounded = ground arith;
            evicted = b.evicted;
            counted = omega (arith, longer, b.counted);
            follows = follows;
          },
        )
        | inl full ↦
            let some_frame : 0 < length pushed = omega (arith, longer) in
            let (after, counted) = shifted b.evicted pushed some_frame follows in
            let shorter = shift-length pushed some_frame in
            rw full (
              refl,
              refl,
              record {
                bounded = omega (arith, shorter, longer, b.bounded);
                evicted = b.evicted + 1;
                counted = omega (arith, counted, longer, b.counted);
                follows = after;
              },
            )
      ]

  all_after :
      (since n : ℕ) (frames : List (SequencedFrame E))
      → Follows n frames
      → since ≤ n
      → backfill (some since) frames ≡ frames
  unfolding backfill
  all_after since n [] f h = refl
  all_after since n (frame ∷ frames) (e, f) h =
      let here : ltb since frame.seq ≡ true = ground arith in
      rw here (ap (λ d. frame ∷ d) (all_after since (n + 1) frames f (omega (arith, h))))

  backfill_from :
      (since n : ℕ) (frames : List (SequencedFrame E))
      → Follows n frames
      → n ≤ since
      → since ≤ n + length frames
      → Follows since (backfill (some since) frames)
        × (since + length (backfill (some since) frames) ≡ n + length frames)
  unfolding backfill
  backfill_from since n [] f h k = (tt, omega (arith, h, k))
  backfill_from since n (frame ∷ frames) (e, f) h k = elim (Bool-cases (ltb since frame.seq)) [
    | inl here ↦
        let same : n ≡ since = ground arith in
        rw here (
          rw (all_after since (n + 1) frames f (omega (arith, same)))
            (subst (λ (m : ℕ). Follows m (frame ∷ frames)) same (e, f), omega (arith, same)))
    | inr before ↦
        let later : n + 1 ≤ since = ground arith in
        let (g, c) = backfill_from since (n + 1) frames f later (omega (arith, k)) in
        rw before (g, omega (arith, c))
  ]

  -- A backfill from a cursor that is not older than the backlog gives every frame behind the cursor, in
  -- order and without a gap.
  pub backfill-Follows :
      (since : ℕ) (s : Sequencer E)
      → IsBacklog s
      → s.seq ≤ since + length s.backlog
      → since ≤ s.seq
      → Follows since (backfill (some since) s.backlog)
        × (since + length (backfill (some since) s.backlog) ≡ s.seq)
  backfill-Follows since s b recent known =
      let (f, n) =
        backfill_from since b.evicted s.backlog b.follows (omega (arith, b.counted, recent))
          (omega (arith, b.counted, known)) in
      (f, omega (arith, n, b.counted))
