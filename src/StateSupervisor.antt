-- ===== src/StateSupervisor.antt =====
-- crates/loadsmith-core/src/state_supervisor.rs: the task that persists the watermark of a run.
-- The events of the `select!` loop come as a list, in the order in which the task takes them; the
-- two one-shot channels and the prefixes still queued at the end come as values. A document
-- store that may fail is an oracle over the number of writes, as the clock is. Telemetry is
-- left out, with the variable `latest_checkpoint` that only feeds it.
pub mod Data
pub mod Gate
pub mod Holding
pub mod Complete
pub mod Durable
pub use Data.*
use loadsmith.Prelude.{
  ℕ, suc, ◌+◌, ◌%◌, ◌^◌, max, String, Bool, true, false, not, ◌&&◌, ◌||◌, Option, none, some, List,
  [], ◌∷◌, ltb, leb, ◌==◌, if◌then◌else◌, u64,
}
use loadsmith.SortedMap.{insert, last_upto}
use loadsmith.State.{StateDoc, ResumeRecord, new, with_resume}

next_object_seq : Option Delivered → Option ℕ → Option ℕ
next_object_seq none first = none
next_object_seq (some d) none = some (u64 (1 + d.objects))
next_object_seq (some d) (some first) = some (u64 (first + d.objects))

abbrev is_none {ℓ} : {A : Type ℓ} → Option A → Bool
is_none none = true
is_none (some a) = false

abbrev then_some {ℓ} : {A : Type ℓ} → Bool → A → Option A
then_some true a = some a
then_some false a = none

advance : Delivered → Delivered → Delivered
advance old d = if ltb old.through d.through then d else old

pub drain : Delivered → List Delivered → Delivered
unfolding advance
drain old [] = old
drain old (d ∷ ds) = drain (advance old d) ds

abbrev or_false : Option Bool → Bool
or_false none = false
or_false (some b) = b

abbrev pub all_delivered : Ending → Bool
all_delivered ending = elim ending.delivery [ none ↦ true | some b ↦ b ]

abbrev pub has_succeeded : Ending → Bool
has_succeeded ending = all_delivered ending && or_false ending.outcome

module _ {V : Type 0} where
  abbrev pub initial : Supervisor V
  initial = record {
    checkpoint_at = [];
    durable_through = 0;
    reached = record { through = 0; objects = 0 };
    last_persisted_seq = 0;
    persisted = none;
    record_written = false;
    ckpt_open = true;
    commit_open = true;
    writes = 0;
    stored = [];
    store_error = false;
  }

  record_of :
      Option ResumeIdentity
      → String
      → SourceCheckpoint V
      → Option Delivered
      → Option (ResumeRecord V)
  unfolding next_object_seq
  record_of none run_id ckpt reached = none
  record_of (some identity) run_id ckpt reached =
      let seq = next_object_seq reached identity.first_object_seq in
      if is_none seq && is_none ckpt.resume_token
      then none
      else some (record {
        run_id = run_id;
        started_at_unix_ms = identity.started_at_unix_ms;
        config_hash = identity.config_hash;
        next_object_seq = seq;
        token = ckpt.resume_token;
      })

  pub record_for : StateRun V → SourceCheckpoint V → Option Delivered → Option (ResumeRecord V)
  unfolding record_of
  record_for run ckpt reached = record_of run.resume run.run_id ckpt reached

  pub safe_checkpoint : List (ℕ × SourceCheckpoint V) → ℕ → Option (SourceCheckpoint V)
  unfolding last_upto
  safe_checkpoint checkpoint_at durable_through = last_upto durable_through checkpoint_at

  pub document : StateRun V → ℕ → V → Option (ResumeRecord V) → StateDoc V
  unfolding new with_resume
  document run now value resume =
      with_resume (new run.pipeline value run.schema_hash run.run_id now) resume

  -- The document is written by one call of `backend.store`, which may fail.
  pub persist : Backend → StateRun V → V → Option (ResumeRecord V) → Supervisor V → Supervisor V
  persist backend run value resume s =
      if backend.fails s.writes
      then record s { writes = s.writes + 1; store_error = true }
      else record s {
        writes = s.writes + 1;
        stored = document run (backend.now_unix_ms s.writes) value resume ∷ s.stored;
      }

  -- the three assignments behind a `persist` that the `?` let through
  saved : SourceCheckpoint V → Bool → Supervisor V → Supervisor V
  saved ckpt written s = if s.store_error then s else record s {
    record_written = s.record_written || written;
    last_persisted_seq = ckpt.batch_seq;
    persisted = some ckpt.cursor_value;
  }

  pub save :
      Backend
      → StateRun V
      → Option (ResumeRecord V)
      → SourceCheckpoint V
      → Supervisor V
      → Supervisor V
  unfolding saved
  save backend run resume ckpt s =
      saved ckpt (not (is_none resume)) (persist backend run ckpt.cursor_value resume s)

  -- One arm of the `select!`. A closed channel's arm is disabled, so its events change nothing.
  pub receive : Supervisor V → Event V → Supervisor V
  unfolding insert advance
  receive s (checkpoint c) =
      if s.ckpt_open then record s { checkpoint_at = insert c.batch_seq c s.checkpoint_at } else s
  receive s checkpoints_closed = record s { ckpt_open = false }
  receive s (committed seq) =
      if s.commit_open then record s { durable_through = max s.durable_through seq } else s
  receive s committed_closed = record s { commit_open = false }
  receive s (delivered d) = record s { reached = advance s.reached d }

  pub frontier : Bool → Supervisor V → ℕ
  frontier with_sink s = if with_sink then s.reached.through else s.durable_through

  pub save_throttled :
      Backend → StateRun V → Bool → Option (SourceCheckpoint V) → Supervisor V → Supervisor V
  save_throttled backend run with_sink none s = s
  save_throttled backend run with_sink (some ckpt) s =
      if leb (u64 (s.last_persisted_seq + run.checkpoint_interval)) ckpt.batch_seq
      then save backend run (record_for run ckpt (then_some with_sink s.reached)) ckpt s
      else s

  pub step : Backend → StateRun V → Bool → Supervisor V → Event V → Supervisor V
  step backend run with_sink s e =
      let t = receive s e in
      if ltb 0 run.checkpoint_interval
      then save_throttled backend run with_sink
          (safe_checkpoint t.checkpoint_at (frontier with_sink t)) t
      else t

  -- The loop goes on while a channel is open and no `?` has returned.
  pub is_running : Supervisor V → Bool
  is_running s = (s.ckpt_open || s.commit_open) && not s.store_error

  pub loop : Backend → StateRun V → Bool → Supervisor V → List (Event V) → Supervisor V
  unfolding is_running
  loop backend run with_sink s [] = s
  loop backend run with_sink s (e ∷ es) =
      let rest = loop backend run with_sink (step backend run with_sink s e) es in
      if is_running s then rest else s

  abbrev pub has_resume : Option (StateDoc V) → Bool
  has_resume none = false
  has_resume (some doc) = not (is_none doc.resume)

  -- the delivery gate: the prefix reached, whether all is delivered, and the final frontier
  pub through_gate : Ending → Supervisor V → Supervisor V
  unfolding drain
  through_gate ending s = elim ending.delivery [
    | none ↦ s
    | some b ↦ record s { reached = drain s.reached ending.queued }
  ]

  abbrev pub final_frontier : Ending → Supervisor V → ℕ
  final_frontier ending s = if all_delivered ending then s.durable_through else s.reached.through

  -- `had_record`
  abbrev pub had_record : StateRun V → Supervisor V → Bool
  had_record run s = s.record_written || has_resume run.prior

  clear_record : Backend → StateRun V → Option (StateDoc V) → Supervisor V → Supervisor V
  clear_record backend run none s = s
  clear_record backend run (some prior) s = persist backend run prior.cursor_value none s

  -- the final flush
  pub flush :
      Backend → StateRun V → Ending → Option (SourceCheckpoint V) → Supervisor V → Supervisor V
  unfolding clear_record
  flush backend run ending none s =
      if has_succeeded ending && had_record run s then clear_record backend run run.prior s else s
  flush backend run ending (some ckpt) s =
      let done = has_succeeded ending in
      if ltb s.last_persisted_seq ckpt.batch_seq || (done && had_record run s)
      then save backend run
          (if done
            then none
            else record_for run ckpt (then_some (not (is_none ending.delivery)) s.reached))
          ckpt s
      else s

  -- behind the loop
  pub finish : Backend → StateRun V → Ending → Supervisor V → Call V
  finish backend run ending s =
      let t = through_gate ending s in
      let u =
        flush backend run ending (safe_checkpoint t.checkpoint_at (final_frontier ending t)) t in
      if u.store_error then failed u else returned u

  pub run_state_supervisor : Backend → StateRun V → Ending → List (Event V) → Call V
  run_state_supervisor backend run ending events =
      let s = loop backend run (not (is_none ending.delivery)) initial events in
      if s.store_error
      then failed s
      else if is_running s
      then waiting s
      else finish backend run ending s

  abbrev pub state_of : Call V → Supervisor V
  state_of (waiting s) = s
  state_of (failed s) = s
  state_of (returned s) = s
