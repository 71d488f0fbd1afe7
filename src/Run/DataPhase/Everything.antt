-- ===== src/Run/DataPhase/Everything.antt =====
-- A complete load has everything that was read (crates/loadsmith-core/src/runner.rs,
-- `supervise_data_phase`, with the pump of pump.rs beside it).
use loadsmith.Prelude.{
  ◌≡◌, sym, ap, ◌∙◌, ◌<◌, String, true, false, Option, none, some, List, All, arith,
}
use loadsmith.Flow.{FlowWindow}
use loadsmith.Pump.{StreamEnd, ended_cleanly, pump, PumpOutcome}
use loadsmith.Pump
use loadsmith.Pump.Totals.{batches_of, clean_iff}
use loadsmith.Pump.Whole.{open_has_everything}
use loadsmith.Run.DataPhase.{Round, Setting, DataPhase, is_over, supervise_data_phase}
use loadsmith.Run.DataPhase.Sound.{IsClean}
use loadsmith.Run.DataPhase.Arms.{supervise_data_phase-IsSound}
use loadsmith.Run.DataPhase.Commit
use loadsmith.Run.DataPhase.Commit.{IsStart, IsComplete, start-IsSound}
use loadsmith.Run.DataPhase.Delivered.{IsOutcome, taken, sent_from}

module _ {B : Type 0} where
  is_clean :
      (o : Option (PumpOutcome B)) (out : PumpOutcome B)
      → IsClean o
      → o ≡ some out
      → out.source_clean ≡ true
  is_clean none out h e = absurd h
  is_clean (some x) out h e =
      ap (λ y. (elim y as (λ _. PumpOutcome B) [ none ↦ x | some z ↦ z ]).source_clean) (sym e)
      ∙ h.0

  -- If the pump's outcome, where the supervision gets one, is that of the pump over what was read from
  -- the producer, with no batch read with the abort flag set: a supervision that is over without
  -- a failure has a complete load, the producer's stream ended with its end marker, and the
  -- destination's stream has every batch that was read, in order.
  pub complete_load_has_everything :
      (failure : Option String) (flow : Option FlowWindow) (reads : List (Pump.Round B))
      (end : StreamEnd) (setting : Setting) (rounds : List (Round B)) (p : DataPhase B)
      → All (λ r. r.abort ≡ false) reads
      → All (λ r. IsOutcome (λ out. out ≡ pump failure flow reads end) r.arm) rounds
      → IsStart p
      → let q = supervise_data_phase setting rounds p in
        is_over q ≡ true
        → q.failure ≡ none
        → IsComplete q
          × (end ≡ ended_cleanly)
          × ((out : PumpOutcome B) × ((q.pump_outcome ≡ some out)
                × (out.final.written ≡ batches_of reads)))
  complete_load_has_everything failure flow reads end setting rounds p unaborted from start over
        going =
      let q = supervise_data_phase setting rounds p in
      let load =
        Commit.complete (supervise_data_phase setting rounds p)
          (supervise_data_phase-IsSound setting rounds p (start-IsSound start)) over going in
      let sent : 0 < q.commits = ground (arith, load.ended) in
      let (out, (same, is_open, e)) =
        sent_from (λ out. out ≡ pump failure flow reads end) setting rounds p start from sent in
      let clean : (taken (λ out. out ≡ pump failure flow reads end) out).source_clean ≡ true =
        is_clean q.pump_outcome _ load.clean e in
      (
        load,
        (clean_iff failure flow reads end).0 (ap (λ o. o.source_clean) (sym same) ∙ clean),
        (
          taken (λ out. out ≡ pump failure flow reads end) out,
          (
            e,
            ap (λ o. o.final.written) same
                ∙ open_has_everything failure flow reads end unaborted
                    (ap (λ o. o.final.writer) (sym same) ∙ is_open),
          ),
        ),
      )
