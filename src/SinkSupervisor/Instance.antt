-- ===== src/SinkSupervisor/Instance.antt =====
-- The loop that drives one sink process (crates/loadsmith-core/src/sink_supervisor.rs,
-- `drive_instance`). The arms of the `select!` come as a list of events, in the order in which they
-- are taken; the deadline of a halt is an event. Telemetry (the `Deliveries` spans) is left out.
use loadsmith.Prelude.{
  ℕ, ◌+◌, String, Bool, true, false, not, ◌&&◌, ◌||◌, Option, none, some, List, [], ◌∷◌, ◌++◌,
  if◌then◌else◌,
}
use loadsmith.Shutdown.{Halt}
use loadsmith.SinkSupervisor.Delivery.{
  StagedObject, Ledger, contains, pending, all_delivered, record_object, acknowledge,
}

-- Why a sink instance stopped driving; texts are kept as data.
pub data Reason : Type 0 where
  resend_failed deliver_failed ping_failed hung died : Reason
  reported : Reason
  broken : String → Reason

pub data Driven : Type 0 where
  finished_all : Driven
  recoverable : Reason → Driven
  halted : Halt → Driven

pub data Message : Type 0 where
  deliver_object : String → Message
  ping : Message

-- What `peer.process` makes of an inbound line, and the other arms of the `select!`.
pub data Event : Type 0 where
  halt : Halt → Event
  deadline : Event
  object : StagedObject → Event
  objects_closed : Event
  nothing : Event
  object_delivered : String → Event
  pong : Event
  finished : Bool → Event
  resend_requested : Event
  stray : Event
  eof : Event
  failure : String → Event
  tick : Event

-- The variables of `drive_instance`; `sent` has the messages written to the sink, the latest in
-- front, and `sends` the number of writes tried.
pub record Drive : Type 0 where
  pub ledger : Ledger
  pub input_closed : Bool
  pub input_open : Bool
  pub awaiting_pong : Bool
  pub halting : Option Halt
  pub sends : ℕ
  pub sent : List Message

-- Which writes to the sink fail, by their number, and whether the grace period is zero.
pub record Pipe : Type 0 where
  pub fails : ℕ → Bool
  pub grace_is_zero : Bool

unfoldable pub send : Pipe → Message → Drive → Drive × Bool
send pipe m d =
    if pipe.fails d.sends
    then (record d { sends = d.sends + 1 }, false)
    else (record d { sends = d.sends + 1; sent = m ∷ d.sent }, true)

-- the two loops that re-send, which stop at the first failure
unfoldable pub send_pending : Pipe → List String → Drive → Drive × Bool
unfolding send
send_pending pipe [] d = (d, true)
send_pending pipe (p ∷ ps) d =
    let (d', ok) = send pipe (deliver_object p) d in
    elim ok [ true ↦ send_pending pipe ps d' | false ↦ (d', false) ]

start_send : Pipe → String → Drive → Drive × Option Driven
unfolding send
start_send pipe path d =
    let (d', ok) = send pipe (deliver_object path) d in
    (d', if ok then none else some (recoverable deliver_failed))

is_some : Option Halt → Bool
is_some none = false
is_some (some h) = true

-- the arm of `object_rx` on an object
unfoldable pub take_object : Pipe → StagedObject → Drive → Drive × Option Driven
unfolding record_object start_send contains is_some
take_object pipe o d =
    let l = record d.ledger { prefix = record_object d.ledger.prefix o } in
    let d' = record d { ledger = l } in
    if contains l.delivered o.path || contains l.emitted o.path
    then (d', none)
    else let d'' = record d { ledger = record l { emitted = l.emitted ++ o.path ∷ [] } } in
      if d.input_open && not (is_some d.halting) then start_send pipe o.path d'' else (d'', none)

unfoldable pub take_resend : Pipe → Drive → Drive × Option Driven
unfolding pending send_pending
take_resend pipe d =
    let (d', ok) = send_pending pipe (pending d.ledger) d in
    if d.input_open then (d', if ok then none else some (recoverable resend_failed)) else (d, none)

-- After an acknowledgement a halt is waited for no longer.
unfoldable pub halt_now : Option Halt → Drive → Drive × Option Driven
halt_now none d = (d, none)
halt_now (some h) d = (record d { halting = none }, some (halted h))

unfoldable pub take_delivered : String → Drive → Drive × Option Driven
unfolding acknowledge halt_now
take_delivered path d = halt_now d.halting (record d { ledger = acknowledge d.ledger path })

is_empty : List String → Bool
is_empty [] = true
is_empty (p ∷ ps) = false

unfoldable pub take_halt : Pipe → Halt → Drive → Drive × Option Driven
unfolding is_some pending is_empty
take_halt pipe h d =
    if is_some d.halting
    then (d, none)
    else if is_empty (pending d.ledger) || pipe.grace_is_zero
    then (d, some (halted h))
    else (record d { halting = some h }, none)

unfoldable pub take_tick : Pipe → Drive → Drive × Option Driven
unfolding send
take_tick pipe d =
    let (d', ok) = send pipe ping d in
    if not d.input_open
    then (d, none)
    else if d.awaiting_pong
    then (d, some (recoverable hung))
    else if ok
    then (record d' { awaiting_pong = true }, none)
    else (d', some (recoverable ping_failed))

-- One arm of the `select!`; a disabled arm changes nothing.
unfoldable pub receive : Pipe → Drive → Event → Drive × Option Driven
receive pipe d (halt h) = take_halt pipe h d
receive pipe d deadline = halt_now d.halting d
receive pipe d (object o) = if d.input_closed then (d, none) else take_object pipe o d
receive pipe d objects_closed = (record d { input_closed = true }, none)
receive pipe d nothing = (d, none)
receive pipe d (object_delivered path) = take_delivered path d
receive pipe d pong = (record d { awaiting_pong = false }, none)
receive pipe d (finished success) =
    (d, some (if success then finished_all else recoverable reported))
receive pipe d resend_requested = take_resend pipe d
receive pipe d stray = (d, none)
receive pipe d eof = (d, some (recoverable died))
receive pipe d (failure why) = (d, some (recoverable (broken why)))
receive pipe d tick = take_tick pipe d

-- the head of the loop: `peer.close_input`
unfoldable pub close_when_done : Drive → Drive
unfolding all_delivered
close_when_done d =
    if d.input_closed && d.input_open && all_delivered d.ledger
    then record d { input_open = false }
    else d

-- `drive_instance`, until it returns or the events end
unfoldable pub drive : Pipe → Drive → List Event → Drive × Option Driven
drive pipe d [] = (close_when_done d, none)
drive pipe d (e ∷ es) =
    let (d', out) = receive pipe (close_when_done d) e in
    elim out [ none ↦ drive pipe d' es | some r ↦ (d', some r) ]
