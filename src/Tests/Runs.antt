-- ===== src/Tests/Runs.antt =====
-- Concrete runs of the supervision of a pipeline and of its attempts
-- (crates/loadsmith-core/src/runner.rs).
use loadsmith.Prelude.{
  ℕ, ◌≤◌, ◌<◌, ◌≡◌, refl, max, min, Bool, true, false, none, some, List, [], ◌∷◌, ltb, ◌==◌, arith,
  if◌then◌else◌,
}
use loadsmith.Exit.{timeout, config_error}
use loadsmith.Pump.{PumpOutcome, ended_cleanly}
use loadsmith.Pump.Totals.{batches_of}
use loadsmith.Pump.Example.{one_read, one_outcome, pump_one}
use loadsmith.Run.DataPhase.Everything.{complete_load_has_everything}
use loadsmith.Peer
use loadsmith.Peer.{finished, line}
use loadsmith.ParserFeed
use loadsmith.ParserFeed.{object, raw_line}
use loadsmith.Run.DataPhase.{
  upstream_event, Setting, DataPhase, Round, Arm, pump_done, pumped, producer_line, commit_done,
  input_ended, destination_line, tick, supervise_data_phase, is_over,
}
use loadsmith.Run.DataPhase.Sound.{IsClean}
use loadsmith.Run.DataPhase.Ordering.{IsPatient}
use loadsmith.Run.DataPhase.Commit.{IsStart, IsComplete, load_ends_complete}
use loadsmith.Run.Recovery.{
  World, RecoveryConfig, Report, SummaryStatus, Outcome, ok, err, run_pipeline, progressed,
}
use loadsmith.Run.Recovery.Retrying.{IsReport, attempts_end}
use loadsmith.Run.Recovery.Spacing.{IsSpaced, waits_double}

abbrev steady : ℕ → Bool
steady n = false

abbrev setting : Setting
setting = record {
  producer_fails = steady;
  raw_fails = steady;
  destination_fails = steady;
  label = "source";
  finish_limit = some 60;
  finalize_limit = some 60;
  stall_limit = none;
  first_batch_limit = none;
  pump_started = 0;
}

abbrev at_start : DataPhase ℕ
at_start = record {
  src = Peer.new;
  upstream = none;
  dst = Peer.new;
  failure = none;
  pump_outcome = none;
  commit = false;
  committed = false;
  commits = 0;
  credits_open = true;
  last_batches = 0;
  last_progress = 0;
  source_end_deadline = none;
  finalize_deadline = none;
}

at_start-IsStart : IsStart at_start
at_start-IsStart = record { unsent = refl; idle = refl; running = refl; unfinished = refl }

abbrev round : ℕ → Arm ℕ → Round ℕ
round t arm = record { began = t; now = t; arm = arm }

abbrev rounds : List (Round ℕ)
rounds =
    round 1 (tick 0)
    ∷ round 2 (producer_line (line (finished true)))
    ∷ round 3 (pump_done (pumped one_outcome []))
    ∷ round 4 (destination_line (line (finished true)))
    ∷ round 5 (commit_done input_ended)
    ∷ round 6 (tick 0)
    ∷ []

-- a run with a parser, whose raw source ends first
abbrev at_parsed_start : DataPhase ℕ
at_parsed_start = record at_start { upstream = some (ParserFeed.new (some 60), Peer.new) }

abbrev parsed_rounds : List (Round ℕ)
parsed_rounds =
    round 1 (upstream_event (object (some "a.csv")))
    ∷ round 2 (upstream_event (object none))
    ∷ round 3 (upstream_event (raw_line (line (finished true))))
    ∷ round 4 (producer_line (line (finished true)))
    ∷ round 5 (pump_done (pumped one_outcome []))
    ∷ round 6 (commit_done input_ended)
    ∷ round 7 (destination_line (line (finished true)))
    ∷ round 8 (tick 0)
    ∷ []

parsed :
    let q = supervise_data_phase setting parsed_rounds at_parsed_start in
    (is_over q ≡ true) × (q.failure ≡ none)
unfolding supervise_data_phase
parsed = (refl, refl)

load_ends_complete_example :
    let q = supervise_data_phase setting parsed_rounds at_parsed_start in
    (q.commits ≤ 1)
    × (0 < q.commits → IsClean q.pump_outcome)
    × (is_over q ≡ true → q.failure ≡ none → IsComplete q)
    × (q.failure ≡ none → q.commits ≡ 0 → q.dst.finished_with ≡ none)
    × (q.failure ≡ none → IsPatient q.upstream q.src)
load_ends_complete_example =
    load_ends_complete setting parsed_rounds at_parsed_start
      (record { unsent = refl; idle = refl; running = refl; unfinished = refl })
      (λ up open_ said. cc said)

loaded :
    (is_over (supervise_data_phase setting rounds at_start) ≡ true)
    × ((supervise_data_phase setting rounds at_start).failure ≡ none)
unfolding supervise_data_phase
loaded = (refl, refl)

complete_load_has_everything_example :
    let q = supervise_data_phase setting rounds at_start in
    IsComplete q
    × (ended_cleanly ≡ ended_cleanly)
    × ((out : PumpOutcome ℕ) × ((q.pump_outcome ≡ some out)
          × (out.final.written ≡ batches_of one_read)))
complete_load_has_everything_example =
    complete_load_has_everything none none one_read ended_cleanly setting rounds at_start (refl, tt)
      (tt, (tt, (pump_one, (tt, (tt, (tt, tt)))))) at_start-IsStart loaded.0 loaded.1

-- The first attempt writes nothing, the second one a row, and the fourth is rejected.
abbrev attempt : ℕ → Outcome
attempt n =
    if n == 2
    then ok (record {
      status = SummaryStatus.error;
      root_cause = some "gone";
      rows_written = 1;
      attempts = 0;
    })
    else if ltb n 4
    then err (timeout "late")
    else err (config_error "bad")

abbrev world : World
world = record { rejected = none; attempt = attempt; fired = steady; woken = steady }

abbrev recovery : RecoveryConfig
recovery = record { max_attempts = 9; backoff_seconds = 30 }

attempts_end_example :
    (r : Report) × ((run_pipeline world recovery false ≡ some r) × IsReport world (max 9 1) 1 r)
attempts_end_example = attempts_end world recovery (omega arith) refl

abbrev report : Report
report = record { outcome = err (config_error "bad"); number = 4; waits = 30 ∷ 30 ∷ 60 ∷ [] }

reports : run_pipeline world recovery false ≡ some report
unfolding run_pipeline
reports = refl

waits_double_example : IsSpaced (λ n. progressed (attempt n)) 30 1 (min 30 3600) (30 ∷ 30 ∷ 60 ∷ [])
waits_double_example = waits_double world recovery report (omega arith) reports
