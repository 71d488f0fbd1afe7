-- ===== src/SinkSupervisor/Driving.antt =====
-- What holds while one sink is driven (crates/loadsmith-core/src/sink_supervisor.rs,
-- `drive_instance`).
use loadsmith.Prelude.{
  ◌≡◌, refl, sym, ap, ◌∙◌, inl, inr, String, true, false, none, some, List, [], ◌∷◌, arith,
  Option-cases,
}
use loadsmith.SinkSupervisor.Delivery.{
  contains, insert, pending, all_in, all_delivered, acknowledge,
}
use loadsmith.SinkSupervisor.Instance.{
  Driven, finished_all, Message, deliver_object, Event, halt, deadline, object, objects_closed,
  nothing, object_delivered, pong, finished, resend_requested, stray, eof, failure, tick, Drive,
  Pipe, send, send_pending, take_object, take_resend, take_delivered, halt_now, take_halt,
  take_tick, receive, close_when_done, drive,
}

pub contains-insert :
    (xs : List String) (p q : String) → contains xs q ≡ true → contains (insert p xs) q ≡ true
unfolding insert contains
contains-insert xs p q h = ground arith

all_in-insert :
    (ps xs : List String) (p : String) → all_in xs ps ≡ true → all_in (insert p xs) ps ≡ true
unfolding all_in
all_in-insert [] xs p h = refl
all_in-insert (q ∷ ps) xs p h = ground (arith, contains-insert xs p q, all_in-insert ps xs p)

-- The sink's stdin is closed only after its last object: no more will come, and all are acknowledged.
abbrev pub IsClosedDone : Drive → Type 0
IsClosedDone d = d.input_open ≡ false → (d.input_closed ≡ true) × (all_delivered d.ledger ≡ true)

pub close_when_done-IsClosedDone : (d : Drive) → IsClosedDone d → IsClosedDone (close_when_done d)
unfolding close_when_done
close_when_done-IsClosedDone d h = ground arith

-- A write changes only what was written.
abbrev pub SameState : Drive → Drive → Type 0
SameState d d' =
    (d'.ledger ≡ d.ledger)
    × (d'.input_closed ≡ d.input_closed)
    × (d'.input_open ≡ d.input_open)
    × (d'.halting ≡ d.halting)

pub send_same : (pipe : Pipe) (m : Message) (d : Drive) → SameState d (send pipe m d).0
unfolding send
send_same pipe m d = ground arith

pub send_pending_same :
    (pipe : Pipe) (ps : List String) (d : Drive) → SameState d (send_pending pipe ps d).0
unfolding send_pending
send_pending_same pipe [] d = ground arith
send_pending_same pipe (p ∷ ps) d = ground (
  arith,
  send_same pipe (deliver_object p) d,
  send_pending_same pipe ps (send pipe (deliver_object p) d).0,
)

pub receive-IsClosedDone :
    (pipe : Pipe) (d : Drive) (e : Event) → IsClosedDone d → IsClosedDone (receive pipe d e).0
unfolding receive
receive-IsClosedDone pipe d (halt x) h = unfold take_halt in ground arith
receive-IsClosedDone pipe d deadline h = unfold halt_now in ground arith
receive-IsClosedDone pipe d (object o) h = unfold take_object in ground arith
receive-IsClosedDone pipe d objects_closed h = ground arith
receive-IsClosedDone pipe d (object_delivered p) h =
    unfold take_delivered halt_now acknowledge all_delivered in
    ground (arith, all_in-insert d.ledger.emitted d.ledger.delivered p)
receive-IsClosedDone pipe d resend_requested h =
    unfold take_resend in ground (arith, send_pending_same pipe (pending d.ledger) d)
receive-IsClosedDone pipe d tick h = unfold take_tick in ground arith
receive-IsClosedDone pipe d nothing h = h
receive-IsClosedDone pipe d pong h = h
receive-IsClosedDone pipe d (finished b) h = h
receive-IsClosedDone pipe d stray h = h
receive-IsClosedDone pipe d eof h = h
receive-IsClosedDone pipe d (failure w) h = h

-- A sink reports success only after it has seen the end of its input.
abbrev pub FinishesAfterEof : Pipe → Drive → List Event → Type 0
FinishesAfterEof pipe d [] = Unit
FinishesAfterEof pipe d (e ∷ es) =
    (e ≡ finished true → (close_when_done d).input_open ≡ false)
    × FinishesAfterEof pipe (receive pipe (close_when_done d) e).0 es

receive-finished_all :
    (pipe : Pipe) (d : Drive) (e : Event)
    → (receive pipe d e).1 ≡ some finished_all
    → (e ≡ finished true) × ((receive pipe d e).0 ≡ d)
unfolding receive
receive-finished_all pipe d (halt x) h = unfold take_halt in ground arith
receive-finished_all pipe d deadline h = unfold halt_now in ground arith
receive-finished_all pipe d (object o) h = unfold take_object in ground arith
receive-finished_all pipe d objects_closed h = cc
receive-finished_all pipe d (object_delivered p) h = unfold take_delivered in ground arith
receive-finished_all pipe d resend_requested h = unfold take_resend in ground arith
receive-finished_all pipe d tick h = unfold take_tick in ground arith
receive-finished_all pipe d nothing h = cc
receive-finished_all pipe d pong h = cc
receive-finished_all pipe d (finished true) h = (refl, refl)
receive-finished_all pipe d (finished false) h = cc
receive-finished_all pipe d stray h = cc
receive-finished_all pipe d eof h = cc
receive-finished_all pipe d (failure w) h = cc

pub drive_goes :
    (pipe : Pipe) (d : Drive) (e : Event) (es : List Event)
    → (receive pipe (close_when_done d) e).1 ≡ none
    → drive pipe d (e ∷ es) ≡ drive pipe (receive pipe (close_when_done d) e).0 es
unfolding drive
drive_goes pipe d e es h = rw (h, drive)

pub drive_stops :
    (pipe : Pipe) (d : Drive) (e : Event) (es : List Event) (out : Driven)
    → (receive pipe (close_when_done d) e).1 ≡ some out
    → drive pipe d (e ∷ es) ≡ ((receive pipe (close_when_done d) e).0, some out)
unfolding drive
drive_stops pipe d e es out h = rw (h, drive)

-- A drive that ends with success, of a sink that reports success only after the end of its input,
-- has seen the last object announced and an acknowledgement of every one.
pub drive_done :
    (pipe : Pipe) (es : List Event) (d : Drive)
    → IsClosedDone d
    → FinishesAfterEof pipe d es
    → (drive pipe d es).1 ≡ some finished_all
    → let d' = (drive pipe d es).0 in (d'.input_closed ≡ true) × (all_delivered d'.ledger ≡ true)
drive_done pipe [] d h f e = absurd (unfold drive in cc)
drive_done pipe (x ∷ es) d h f e =
    let c = close_when_done d in
    let hc = close_when_done-IsClosedDone d h in
    elim (Option-cases (receive pipe c x).1) [
      | inl going ↦
          let next = drive_goes pipe d x es going in
          rw next (
            drive_done pipe es (receive pipe c x).0 (receive-IsClosedDone pipe c x hc) f.1
              (ap (λ r. r.1) (sym next) ∙ e))
      | inr (out, stop) ↦
          let last = drive_stops pipe d x es out stop in
          let done : (receive pipe c x).1 ≡ some finished_all =
            stop ∙ ap (λ r. r.1) (sym last) ∙ e in
          let (success, same) = receive-finished_all pipe c x done in
          rw (last, same) (hc (f.0 success))
    ]
