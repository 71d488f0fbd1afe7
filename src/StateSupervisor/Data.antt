-- ===== src/StateSupervisor/Data.antt =====
-- The data of crates/loadsmith-core/src/state_supervisor.rs: what the task is given, what it receives,
-- its variables, and how a call of it stands.
use loadsmith.Prelude.{ℕ, String, Bool, Option, List}
use loadsmith.State.{StateDoc}

-- A `Checkpoint` event of the source (crates/loadsmith-core/src/events.rs).
pub record SourceCheckpoint (V : Type 0) : Type 0 where
  pub batch_seq : ℕ
  pub cursor_value : V
  pub resume_token : Option V

-- How far delivery got (crates/loadsmith-core/src/sink_supervisor.rs).
pub record Delivered : Type 0 where
  pub through : ℕ
  pub objects : ℕ

pub record ResumeIdentity : Type 0 where
  pub started_at_unix_ms : ℕ
  pub config_hash : String
  pub first_object_seq : Option ℕ

pub record StateRun (V : Type 0) : Type 0 where
  pub pipeline : String
  pub schema_hash : String
  pub run_id : String
  pub checkpoint_interval : ℕ
  pub resume : Option ResumeIdentity
  pub prior : Option (StateDoc V)

-- What the task receives in its loop.
pub data Event (V : Type 0) : Type 0 where
  checkpoint : SourceCheckpoint V → Event V
  checkpoints_closed : Event V
  committed : ℕ → Event V
  committed_closed : Event V
  delivered : Delivered → Event V

-- The rest of `StateInputs`: what the delivery gate and the outcome resolve to (`none` is no
-- channel; a dropped one resolves to `false`), and the prefixes queued when the gate resolves.
pub record Ending : Type 0 where
  pub delivery : Option Bool
  pub queued : List Delivered
  pub outcome : Option Bool

-- The store and the clock, by the number of the write.
pub record Backend : Type 0 where
  pub fails : ℕ → Bool
  pub now_unix_ms : ℕ → ℕ

-- The task's variables, and the documents stored, the latest first.
pub record Supervisor (V : Type 0) : Type 0 where
  pub checkpoint_at : List (ℕ × SourceCheckpoint V)
  pub durable_through : ℕ
  pub reached : Delivered
  pub last_persisted_seq : ℕ
  pub persisted : Option V
  pub record_written : Bool
  pub ckpt_open : Bool
  pub commit_open : Bool
  pub writes : ℕ
  pub stored : List (StateDoc V)
  pub store_error : Bool

-- How a call of `run_state_supervisor` stands after the events: `waiting` in its loop, `failed`
-- by a store's error, or `returned`.
pub data Call (V : Type 0) : Type 0 where
  waiting failed returned : Supervisor V → Call V
