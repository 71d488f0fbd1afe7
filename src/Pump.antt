-- ===== src/Pump.antt =====
-- The data-plane pump (crates/loadsmith-core/src/pump.rs, `pump`): it copies the source's batches
-- to the destination and never ends the destination's stream. What it takes from outside stands in
-- a `Round`: the batch read, whether the runner had set `control.abort` by then, and how the write
-- of the batch would end. Error texts are kept as the data that they are formatted from; the two
-- durations of the statistics are left out.
pub mod Totals
pub mod Whole
pub mod Example
use loadsmith.Prelude.{
  ℕ, ◌+◌, ◌*◌, ◌/◌, ◌%◌, ◌^◌, ◌<◌, max, String, Bool, true, false, not, ◌&&◌, Option, none, some,
  List, [], ◌∷◌, ◌++◌, ltb, ◌==◌, if◌then◌else◌, u64,
}
use loadsmith.Flow.{FlowWindow, forwarded}

-- An Arrow record batch: `num_rows()`, `batch_bytes()`, and what is in it.
pub record Batch (B : Type 0) : Type 0 where
  pub payload : B
  pub rows : ℕ
  pub bytes : ℕ

pub record Round (B : Type 0) : Type 0 where
  pub batch : Batch B
  pub abort : Bool
  pub write : Option String

-- How reading the source's stream ends: with its end marker, cut off, or by an error.
pub data StreamEnd : Type 0 where
  ended_cleanly truncated : StreamEnd
  read_failed : String → StreamEnd

pub data WriteError : Type 0 where
  data_plane_writer : String → WriteError
  write_batch : String → WriteError

pub data PumpOutput : Type 0 where
  open_stream closed : PumpOutput

-- The variables of the loop. `ticks` holds the calls of `on_progress`, the latest first, and
-- `written` the batches in the destination's stream.
pub record PumpState (B : Type 0) : Type 0 where
  pub rows : ℕ
  pub batches : ℕ
  pub peak_window : ℕ
  pub writer : PumpOutput
  pub write_error : Option WriteError
  pub flow : Option FlowWindow
  pub next_log : ℕ
  pub ticks : List (ℕ × ℕ)
  pub written : List (Batch B)

pub record PumpOutcome (B : Type 0) : Type 0 where
  pub final : PumpState B
  pub source_clean : Bool
  pub read_error : Option String

module _ {B : Type 0} where
  -- `IpcWriter::new` may fail.
  pub open_writer : Option String → Option FlowWindow → PumpState B
  open_writer failure flow = record {
    rows = 0;
    batches = 0;
    peak_window = elim flow [ none ↦ 0 | some f ↦ f.window ];
    writer = elim failure [ none ↦ open_stream | some e ↦ closed ];
    write_error = elim failure [ none ↦ none | some e ↦ some (data_plane_writer e) ];
    flow = flow;
    next_log = 1;
    ticks = [];
    written = [];
  }

  pub count_batch : PumpState B → Batch B → PumpState B
  count_batch s b = record s { rows = u64 (s.rows + b.rows); batches = u64 (s.batches + 1) }

  write_open : PumpOutput → PumpState B → Batch B → Option String → PumpState B
  write_open closed s b result = s
  write_open open_stream s b none = record s { written = s.written ++ b ∷ [] }
  write_open open_stream s b (some e) = record s {
    write_error = some (write_batch e);
    writer = closed;
  }

  pub forward : PumpState B → Round B → PumpState B
  unfolding write_open
  forward s r = if r.abort then s else write_open s.writer s r.batch r.write

  grant_credit : Option FlowWindow → PumpState B → ℕ → PumpState B
  grant_credit none s bytes = s
  grant_credit (some f) s bytes =
      let f' = forwarded f s.batches bytes in
      record s { flow = some f'; peak_window = max s.peak_window f'.window }

  pub report : PumpState B → PumpState B
  report s =
      if s.batches == s.next_log
      then record s { ticks = (s.rows, s.batches) ∷ s.ticks; next_log = u64 (s.next_log * 2) }
      else s

  -- one round of the loop that read a batch
  pub step : PumpState B → Round B → PumpState B
  unfolding count_batch forward grant_credit report
  step s r =
      let t = forward (count_batch s r.batch) r in report (grant_credit t.flow t r.batch.bytes)

  pub run : PumpState B → List (Round B) → PumpState B
  run s [] = s
  run s (r ∷ rest) = run (step s r) rest

  -- the tick behind the loop
  pub last_tick : PumpState B → PumpState B
  last_tick s =
      if ltb 0 s.batches && not (s.batches == s.next_log / 2)
      then record s { ticks = (s.rows, s.batches) ∷ s.ticks }
      else s

  outcome : StreamEnd → PumpState B → PumpOutcome B
  outcome ended_cleanly s = record { final = s; source_clean = true; read_error = none }
  outcome truncated s = record { final = s; source_clean = false; read_error = none }
  outcome (read_failed e) s = record { final = s; source_clean = false; read_error = some e }

  pub pump : Option String → Option FlowWindow → List (Round B) → StreamEnd → PumpOutcome B
  unfolding open_writer last_tick outcome
  pump failure flow rounds end = outcome end (last_tick (run (open_writer failure flow) rounds))
