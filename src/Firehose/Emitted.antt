-- ===== src/Firehose/Emitted.antt =====
-- A sequencer after any events: what it has emitted and what its backlog holds.
use compute_contract_referen.Base.{
  arith, refl, ap, sym, ◌≡◌, ◌∙◌, ℕ, zero, suc, ◌+◌, ◌-◌, ◌≤◌, inl, inr, Bool-cases, List, [], ◌∷◌,
  ◌++◌, ltb, length, length-append, drop, append_assoc, append-nil,
}
use compute_contract_referen.Firehose.{
  max_backlog, SequencedFrame, Sequencer, new_sequencer, shift, append,
}

module _ {E : Type 0} where
  -- `append` of events in turn
  unfoldable pub append_all : List E → Sequencer E → Sequencer E
  unfolding append
  append_all [] s = s
  append_all (event ∷ events) s = append_all events ((append event s).1)

  -- The frames of the events, with the numbers behind `n`.
  abbrev pub numbered : ℕ → List E → List (SequencedFrame E)
  numbered n [] = []
  numbered n (event ∷ events) = record { seq = n + 1; event = event } ∷ numbered (n + 1) events

  -- The state of a sequencer that has been given the events.
  pub record HasEmitted (events : List E) (s : Sequencer E) : Type 0 where
    pub counted : s.seq ≡ length events
    pub kept : s.backlog ≡ drop (length events - max_backlog) (numbered 0 events)
    pub published : s.published ≡ numbered 0 events

  numbered-snoc :
      (n : ℕ) (events : List E) (event : E)
      → numbered n (events ++ event ∷ [])
        ≡ numbered n events ++ record { seq = (n + length events) + 1; event = event } ∷ []
  numbered-snoc n [] event =
      let at : n + 1 ≡ n + 0 + 1 = omega arith in
      ap (λ m. record { seq = m; event = event } ∷ []) at
  numbered-snoc n (e ∷ events) event =
      let at : n + 1 + length events + 1 ≡ n + suc (length events) + 1 = omega arith in
      ap (λ l. record { seq = n + 1; event = e } ∷ l)
        (numbered-snoc (n + 1) events event
          ∙ ap (λ m. numbered (n + 1) events ++ record { seq = m; event = event } ∷ []) at)

  numbered-length : (n : ℕ) (events : List E) → length (numbered n events) ≡ length events
  numbered-length n [] = refl
  numbered-length n (e ∷ events) = ap suc (numbered-length (n + 1) events)

  drop-snoc :
      (n : ℕ) (frames : List (SequencedFrame E)) (frame : SequencedFrame E)
      → n ≤ length frames
      → drop n (frames ++ frame ∷ []) ≡ drop n frames ++ frame ∷ []
  drop-snoc zero frames frame h = refl
  drop-snoc (suc n) [] frame h = absurd (omega (arith, h))
  drop-snoc (suc n) (x ∷ frames) frame h = drop-snoc n frames frame (omega (arith, h))

  shift-drop :
      (n : ℕ) (frames : List (SequencedFrame E)) → shift (drop n frames) ≡ drop (suc n) frames
  shift-drop zero [] = refl
  shift-drop zero (x ∷ frames) = refl
  shift-drop (suc n) [] = refl
  shift-drop (suc n) (x ∷ frames) = shift-drop n frames

  length-drop :
      (n : ℕ) (frames : List (SequencedFrame E)) → length (drop n frames) ≡ length frames - n
  length-drop zero frames = omega arith
  length-drop (suc n) [] = omega arith
  length-drop (suc n) (x ∷ frames) = omega (arith, length-drop n frames)

  append-HasEmitted :
      (events : List E) (event : E) (s : Sequencer E)
      → HasEmitted events s
      → HasEmitted (events ++ event ∷ []) ((append event s).1)
  unfolding append
  append-HasEmitted events event s h =
      let frame : SequencedFrame E = record { seq = s.seq + 1; event = event } in
      let total : length (events ++ event ∷ []) ≡ length events + 1 =
        length-append events (event ∷ []) in
      let frames : numbered 0 (events ++ event ∷ []) ≡ numbered 0 events ++ frame ∷ [] =
        numbered-snoc 0 events event
        ∙ ap (λ m. numbered 0 events ++ record { seq = m; event = event } ∷ [])
            (omega (arith, h.counted)) in
      let evicted = length events - max_backlog in
      let pushed : s.backlog ++ frame ∷ [] ≡ drop evicted (numbered 0 (events ++ event ∷ [])) =
        ap (λ l. l ++ frame ∷ []) (h.kept)
        ∙ sym
            (drop-snoc evicted (numbered 0 events) frame (omega (arith, numbered-length 0 events)))
        ∙ ap (drop evicted) (sym frames) in
      let count : length (s.backlog ++ frame ∷ []) ≡ length events + 1 - evicted =
        ap length pushed
        ∙ length-drop evicted (numbered 0 (events ++ event ∷ []))
        ∙ ap (λ m. m - evicted) (numbered-length 0 (events ++ event ∷ []) ∙ total) in
      elim (Bool-cases (ltb max_backlog (length (s.backlog ++ frame ∷ [])))) [
        | inl full ↦
            let next : suc evicted ≡ length (events ++ event ∷ []) - max_backlog =
              ground (arith, full, count, total) in
            record {
              counted = omega (arith, h.counted, total);
              kept = rw full (
                  ap shift pushed
                  ∙ shift-drop evicted (numbered 0 (events ++ event ∷ []))
                  ∙ ap (λ m. drop m (numbered 0 (events ++ event ∷ []))) next);
              published = ap (λ l. l ++ frame ∷ []) (h.published) ∙ sym frames;
            }
        | inr fits ↦
            let same : evicted ≡ length (events ++ event ∷ []) - max_backlog =
              ground (arith, fits, count, total) in
            record {
              counted = omega (arith, h.counted, total);
              kept = rw fits (pushed ∙ ap (λ m. drop m (numbered 0 (events ++ event ∷ []))) same);
              published = ap (λ l. l ++ frame ∷ []) (h.published) ∙ sym frames;
            }
      ]

  emitted_after :
      (events earlier : List E) (s : Sequencer E)
      → HasEmitted earlier s
      → HasEmitted (earlier ++ events) (append_all events s)
  unfolding append_all
  emitted_after [] earlier s h = rw (append-nil earlier) h
  emitted_after (event ∷ events) earlier s h = rw (← append_assoc earlier (event ∷ []) events) (
      emitted_after events (earlier ++ event ∷ []) ((append event s).1)
        (append-HasEmitted earlier event s h))

  -- A new sequencer that has been given events has published a frame for each of them, in their order and
  -- numbered from 1 on, and its backlog holds the last of these frames, as many as the maximum if there
  -- are so many and else all.
  pub append_all-HasEmitted :
      (events : List E) → HasEmitted events (append_all events new_sequencer)
  append_all-HasEmitted events =
      emitted_after events [] new_sequencer
        (record { counted = refl; kept = refl; published = refl })
