-- ===== src/Tests/Sinks.antt =====
-- Concrete lives of a sink (crates/loadsmith-core/src/sink_supervisor.rs).
use loadsmith.Prelude.{
  ℕ, ◌+◌, ◌<◌, ◌≤◌, ◌≡◌, ◌⊎◌, refl, String, true, false, none, some, [], ◌∷◌, length, arith,
}
use loadsmith.StateSupervisor.{Delivered}
use loadsmith.SinkSupervisor.{
  Life, Supervisor, delivered_objects, waiting, max_restarts, live, run_sink_supervisor,
  fresh_drive,
}
use loadsmith.SinkSupervisor.Delivery.{
  StagedObject, Ledger, acknowledge, insert, pending, without, contains, all_delivered, all_in,
  record_object, update, scan, lookup,
}
use loadsmith.SinkSupervisor.Instance.{
  Pipe, object, objects_closed, object_delivered, finished, failure, send_pending, send, drive,
  receive, close_when_done, take_object, take_delivered, halt_now,
}
use loadsmith.SinkSupervisor.Prefix.{FirstDelivered, LandsWithin, acknowledge_reports}
use loadsmith.SinkSupervisor.Handing.{AllHanded}
use loadsmith.SinkSupervisor.Lives.{
  IsDone, live-AllHanded, run_sink_supervisor_lem, reported_success_ends,
}

abbrev empty : Ledger
empty = record {
  emitted = [];
  delivered = [];
  prefix = record { ranges = []; through = 0; reports = [] };
}

abbrev staged : Ledger
staged = record {
  emitted = "a" ∷ "b" ∷ [];
  delivered = [];
  prefix = record { ranges = ("b", (3, 4)) ∷ ("a", (1, 2)) ∷ []; through = 0; reports = [] };
}

acknowledge_reports_example :
    let l' = acknowledge staged "a" in
    (l'.prefix ≡ staged.prefix)
    ⊎ ((d : Delivered) × (l'.prefix.reports ≡ d ∷ [])
        × (l'.prefix.through ≡ d.through)
        × (0 < d.through)
        × FirstDelivered staged.prefix.ranges l'.delivered d.objects staged.emitted
        × ((b : ℕ)
            → 0 < b
            → b ≤ d.through
            → LandsWithin staged.prefix.ranges l'.delivered d.objects staged.emitted b))
acknowledge_reports_example = acknowledge_reports staged "a" (omega arith)

abbrev pipe : Pipe
pipe = record { fails = λ i. false; grace_is_zero = false }

abbrev file : String → StagedObject
file path = record { path = path; batches = some (1, 1) }

abbrev supervisor : Supervisor
supervisor = record { ledger = empty; input_closed = false; restarts = 0 }

abbrev crash : Life
crash = record {
  setup_error = none;
  pipe = pipe;
  events = object (file "a") ∷ failure "crash" ∷ [];
  fired = none;
}

abbrev good : Life
good = record {
  setup_error = none;
  pipe = pipe;
  events = objects_closed ∷ object_delivered "a" ∷ finished true ∷ [];
  fired = none;
}

abbrev running : Life
running = record { setup_error = none; pipe = pipe; events = object (file "b") ∷ []; fired = none }

live-AllHanded_example :
    AllHanded (live running (record { ledger = staged; input_closed = false; restarts = 1 })).0
unfolding live fresh_drive pending without contains send_pending send drive receive close_when_done
    all_delivered all_in take_object record_object take_delivered halt_now acknowledge insert update
    scan lookup
live-AllHanded_example =
    live-AllHanded running (record { ledger = staged; input_closed = false; restarts = 1 }) refl

run_sink_supervisor_lem_example :
    let (s', result) = run_sink_supervisor supervisor (crash ∷ good ∷ []) in
    ((n : ℕ) → result ≡ delivered_objects n → IsDone s' × (n ≡ length s'.ledger.delivered))
    × (s'.restarts ≤ max_restarts + 1)
    × (result ≡ waiting → s'.restarts ≤ max_restarts)
unfolding live fresh_drive pending without contains send_pending send drive receive close_when_done
    all_delivered all_in take_object record_object take_delivered halt_now acknowledge insert update
    scan lookup
run_sink_supervisor_lem_example =
    run_sink_supervisor_lem (crash ∷ good ∷ []) supervisor (omega arith) (
      ((λ e. absurd (cc e)), ((λ e. absurd (cc e)), tt)),
      (((λ e. absurd (cc e)), ((λ e. absurd (cc e)), ((λ e. refl), tt))), tt),
    )

abbrev early : Life
early = record { setup_error = none; pipe = pipe; events = finished true ∷ []; fired = none }

reported_success_ends_example :
    (run_sink_supervisor
      (record { ledger = staged; input_closed = false; restarts = 1 })
      (early ∷ [])).1
    ≡ delivered_objects 0
unfolding live fresh_drive pending without contains send_pending send drive receive close_when_done
    all_delivered all_in take_object record_object take_delivered halt_now acknowledge insert update
    scan lookup
reported_success_ends_example =
    reported_success_ends early [] (record { ledger = staged; input_closed = false; restarts = 1 })
      [] refl refl refl
