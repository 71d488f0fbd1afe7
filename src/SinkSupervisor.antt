-- ===== src/SinkSupervisor.antt =====
-- crates/loadsmith-core/src/sink_supervisor.rs, `run_sink_supervisor`: the loop that respawns the
-- sink. Each life of a sink process is given with all that happens in it.
pub mod Delivery
pub mod Instance
pub mod Prefix
pub mod Driving
pub mod Handing
pub mod Lives
use loadsmith.Prelude.{
  ℕ, suc, ◌+◌, ◌≤◌, ◌<◌, max, String, Bool, true, false, not, ◌&&◌, ◌||◌, Option, none, some, List,
  [], ◌∷◌, ◌++◌, length, ltb, leb, str_eq, if◌then◌else◌, u64,
}
use loadsmith.Shutdown.{Halt, StopSignal, signal, abort}
use loadsmith.SinkSupervisor.Delivery.{Ledger, pending}
use loadsmith.SinkSupervisor.Instance.{
  Reason, Driven, finished_all, recoverable, halted, resend_failed, Event, Drive, Pipe,
  send_pending, drive,
}

-- One life of the sink: whether its setup fails, how its pipe behaves, what happens while it is
-- driven, and the halt that has fired when it stops.
pub record Life : Type 0 where
  pub setup_error : Option String
  pub pipe : Pipe
  pub events : List Event
  pub fired : Option Halt

-- The variables of `run_sink_supervisor` that outlive a sink.
pub record Supervisor : Type 0 where
  pub ledger : Ledger
  pub input_closed : Bool
  pub restarts : ℕ

pub data SinkError : Type 0 where
  setup_failed : String → SinkError
  interrupted : StopSignal → SinkError
  sink_cancelled : String → ℕ → ℕ → SinkError
  too_many_restarts : Reason → ℕ → ℕ → SinkError

-- `waiting`: the lives given are over, or the last one still runs.
pub data SinkResult : Type 0 where
  delivered_objects : ℕ → SinkResult
  sink_error : SinkError → SinkResult
  waiting : SinkResult

abbrev pub max_restarts : ℕ
max_restarts = 5

unfoldable pub fresh_drive : Supervisor → Drive
fresh_drive s = record {
  ledger = s.ledger;
  input_closed = s.input_closed;
  input_open = true;
  awaiting_pong = false;
  halting = none;
  sends = 0;
  sent = [];
}

-- Re-send what is unacknowledged, then drive this instance.
unfoldable pub live : Life → Supervisor → Drive × Option Driven
unfolding pending send_pending
live life s =
    let (d, ok) = send_pending life.pipe (pending s.ledger) (fresh_drive s) in
    let driven = drive life.pipe d life.events in
    if ok then driven else (d, some (recoverable resend_failed))

-- A sink that failed while the run was halting is not respawned.
pub with_halt : Option Halt → Driven → Driven
with_halt (some h) (recoverable why) = halted h
with_halt _ out = out

halt_error : Halt → Ledger → SinkError
halt_error (signal sig) l = interrupted sig
halt_error (abort why) l = sink_cancelled why (length l.delivered) (length l.emitted)

-- What the `match outcome` does: the run is over, or another sink is spawned.
pub data Next : Type 0 where
  stop : Supervisor → SinkResult → Next
  respawn : Supervisor → Next

pub after_driven : Supervisor → Driven → Next
unfolding halt_error
after_driven s finished_all = stop s (delivered_objects (length s.ledger.delivered))
after_driven s (halted h) = stop s (sink_error (halt_error h s.ledger))
after_driven s (recoverable why) =
    let again = record s { restarts = s.restarts + 1 } in
    if ltb max_restarts again.restarts
    then stop again
        (sink_error (too_many_restarts why (length s.ledger.delivered) (length s.ledger.emitted)))
    else respawn again

pub settle : Option Halt → Option Driven → Supervisor → Next
settle fired none s = stop s waiting
settle fired (some driven) s = after_driven s (with_halt fired driven)

-- what the life leaves of the supervisor's variables
abbrev pub lived : Life → Supervisor → Supervisor
lived life s = record s {
  ledger = (live life s).0.ledger;
  input_closed = (live life s).0.input_closed;
}

pub after_setup : Option String → Life → Supervisor → Next
after_setup (some e) life s = stop s (sink_error (setup_failed e))
after_setup none life s = settle life.fired (live life s).1 (lived life s)

pub run_sink_supervisor : Supervisor → List Life → Supervisor × SinkResult
run_sink_supervisor s [] = (s, waiting)
run_sink_supervisor s (life ∷ lives) = elim (after_setup life.setup_error life s) [
  | stop s' result ↦ (s', result)
  | respawn s' ↦ run_sink_supervisor s' lives
]
