-- ===== src/Pump/Whole.antt =====
-- A pump that hands back an open stream has written every batch (crates/loadsmith-core/src/pump.rs).
use loadsmith.Prelude.{
  ◌≡◌, sym, ap, ◌∙◌, false, ◌⊎◌, inl, inr, String, Option, List, [], ◌∷◌, ◌++◌, append-nil,
  append_assoc, All, arith,
}
use loadsmith.Flow.{FlowWindow}
use loadsmith.Pump.{
  Round, StreamEnd, open_stream, closed, PumpState, open_writer, forward, step, run, pump,
}
use loadsmith.Pump.Totals.{
  batches_of, step_forwards, written-last_tick, final-pump, last_tick_keeps,
}

module _ {B : Type 0} where
  stays_closed :
      (rounds : List (Round B)) (s : PumpState B)
      → s.writer ≡ closed
      → (run s rounds).writer ≡ closed
  unfolding run forward
  stays_closed [] s h = h
  stays_closed (r ∷ rest) s h = stays_closed rest (step s r) (ground (arith, step_forwards s r))

  step_open :
      (s : PumpState B) (r : Round B)
      → r.abort ≡ false
      → ((step s r).writer ≡ closed)
        ⊎ ((step s r).written ≡ s.written ++ r.batch ∷ [])
        ⊎ (s.writer ≡ closed)
  unfolding forward
  step_open s r a = ground (arith, step_forwards s r)

  run_open :
      (rounds : List (Round B)) (s : PumpState B)
      → All (λ r. r.abort ≡ false) rounds
      → (run s rounds).writer ≡ open_stream
      → (run s rounds).written ≡ s.written ++ batches_of rounds
  unfolding run
  run_open [] s a o = sym (append-nil s.written)
  run_open (r ∷ rest) s a o = elim (step_open s r a.0) [
    | inl c ↦ absurd (cc (stays_closed rest (step s r) c, o))
    | inr (inl w) ↦
        run_open rest (step s r) a.1 o
        ∙ ap (λ l. l ++ batches_of rest) w
        ∙ append_assoc s.written (r.batch ∷ []) (batches_of rest)
    | inr (inr c) ↦ absurd (cc (stays_closed (r ∷ rest) s c, o))
  ]

  -- If no batch was read with the abort flag set, and the stream to the destination is still open,
  -- every batch read was written, in order.
  pub open_has_everything :
      (failure : Option String) (flow : Option FlowWindow) (rounds : List (Round B))
      (end : StreamEnd)
      → All (λ r. r.abort ≡ false) rounds
      → (pump failure flow rounds end).final.writer ≡ open_stream
      → (pump failure flow rounds end).final.written ≡ batches_of rounds
  unfolding open_writer
  open_has_everything failure flow rounds end a o =
      let e = final-pump failure flow rounds end in
      let ran : (run (open_writer failure flow) rounds).writer ≡ open_stream =
        sym ((last_tick_keeps (run (open_writer failure flow) rounds)).0)
        ∙ sym (ap (λ s. s.writer) e)
        ∙ o in
      ap (λ s. s.written) e ∙ written-last_tick _ ∙ run_open rounds (open_writer failure flow) a ran
