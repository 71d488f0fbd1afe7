-- ===== src/Pump/Example.antt =====
-- A run of the pump over one batch (crates/loadsmith-core/src/pump.rs).
use loadsmith.Prelude.{ℕ, ◌≡◌, refl, true, false, none, List, [], ◌∷◌}
use loadsmith.Pump.{Batch, Round, PumpOutcome, ended_cleanly, open_stream, pump, run, step}

abbrev pub batch : Batch ℕ
batch = record { rows = 3; bytes = 64; payload = 7 }

abbrev pub one_read : List (Round ℕ)
one_read = record { abort = false; batch = batch; write = none } ∷ []

abbrev pub one_outcome : PumpOutcome ℕ
one_outcome = record {
  final = record {
    rows = 3;
    batches = 1;
    peak_window = 0;
    writer = open_stream;
    write_error = none;
    flow = none;
    next_log = 2;
    ticks = (3, 1) ∷ [];
    written = batch ∷ [];
  };
  source_clean = true;
  read_error = none;
}

pub pump_one : one_outcome ≡ pump none none one_read ended_cleanly
unfolding pump run step
pump_one = refl
