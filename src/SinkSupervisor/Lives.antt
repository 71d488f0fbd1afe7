-- ===== src/SinkSupervisor/Lives.antt =====
-- The lives of the sink under crates/loadsmith-core/src/sink_supervisor.rs, `run_sink_supervisor`.
use loadsmith.Prelude.{
  ℕ, ◌+◌, ◌≤◌, ◌<◌, ◌≡◌, refl, sym, ap, subst, ◌∙◌, ◌⊎◌, inl, inr, String, true, Option, none, some,
  List, [], ◌∷◌, All, length, arith, ltb, Bool-cases,
}
use loadsmith.Shutdown.{Halt}
use loadsmith.SinkSupervisor.Delivery.{pending, all_delivered}
use loadsmith.SinkSupervisor.Instance.{
  Driven, finished_all, recoverable, halted, resend_failed, Event, finished, Drive, send_pending,
  drive, receive, close_when_done,
}
use loadsmith.SinkSupervisor.Driving.{
  IsClosedDone, FinishesAfterEof, send_pending_same, drive_done, drive_stops,
}
use loadsmith.SinkSupervisor.Handing.{AllHanded, IsHanded, send_pending_hands, drive-AllHanded}
use loadsmith.SinkSupervisor.{
  Life, Supervisor, SinkResult, delivered_objects, waiting, Next, stop, respawn, after_driven,
  settle, lived, after_setup, max_restarts, fresh_drive, live, with_halt, run_sink_supervisor,
}

-- The sink when its loop begins: what was pending has been re-sent.
abbrev pub started : Life → Supervisor → Drive
started life s = (send_pending life.pipe (pending s.ledger) (fresh_drive s)).0

live_starts :
    (life : Life) (s : Supervisor)
    → (((send_pending life.pipe (pending s.ledger) (fresh_drive s)).1 ≡ true)
        × (live life s ≡ drive life.pipe (started life s) life.events))
      ⊎ (live life s ≡ (started life s, some (recoverable resend_failed)))
unfolding live
live_starts life s =
    elim (Bool-cases (send_pending life.pipe (pending s.ledger) (fresh_drive s)).1) [
      | inl good ↦ inl (good, rw good)
      | inr bad ↦ inr (rw bad)
    ]

started-IsClosedDone : (life : Life) (s : Supervisor) → IsClosedDone (started life s)
unfolding fresh_drive
started-IsClosedDone life s closed =
    let same = send_pending_same life.pipe (pending s.ledger) (fresh_drive s) in
    absurd (cc (same.2, closed))

-- While a sink is driven, its input is open and the run is not halting, it has been handed every
-- object of the ledger that is not acknowledged, those of the lives before it included.
pub live-AllHanded :
    (life : Life) (s : Supervisor) → (live life s).1 ≡ none → AllHanded (live life s).0
unfolding fresh_drive
live-AllHanded life s e = elim (live_starts life s) [
  | inl (good, same) ↦
      let d = started life s in
      let keeps = send_pending_same life.pipe (pending s.ledger) (fresh_drive s) in
      let handed : AllHanded d = λ _ _.
        subst (λ l. All (IsHanded l d.sent) l.emitted) (sym keeps.0)
          (send_pending_hands life.pipe s.ledger (fresh_drive s) good) in
      subst (λ r. AllHanded r.0) (sym same)
        (drive-AllHanded life.pipe life.events d (started-IsClosedDone life s) handed
          (ap (λ r. r.1) (sym same) ∙ e))
  | inr failed' ↦ absurd (cc (ap (λ r. r.1) (sym failed') ∙ e))
]

-- Every sink reports success only after the end of its input.
abbrev pub AllFinishAfterEof : Supervisor → List Life → Type 0
AllFinishAfterEof s [] = Unit
AllFinishAfterEof s (life ∷ lives) =
    FinishesAfterEof life.pipe (started life s) life.events
    × AllFinishAfterEof (record (lived life s) { restarts = s.restarts + 1 }) lives

abbrev pub IsDone : Supervisor → Type 0
IsDone s = (s.input_closed ≡ true) × (all_delivered s.ledger ≡ true)

abbrev Stopped : Supervisor → Supervisor → SinkResult → Type 0
Stopped s s' result =
    ((n : ℕ) → result ≡ delivered_objects n → IsDone s' × (n ≡ length s'.ledger.delivered))
    × (s'.restarts ≤ s.restarts + 1)
    × (s.restarts < s'.restarts → max_restarts < s'.restarts)
    × (result ≡ waiting → s'.restarts ≡ s.restarts)

-- A life ends the run so, or is followed by another one.
abbrev Ended : Supervisor → Life → Next → Type 0
Ended s life (stop s' result) = Stopped s s' result
Ended s life (respawn s') =
    (s' ≡ record (lived life s) { restarts = s.restarts + 1 }) × (s.restarts + 1 ≤ max_restarts)

after_driven-Ended :
    (s : Supervisor) (life : Life) (driven : Driven)
    → (driven ≡ finished_all → IsDone (lived life s))
    → Ended s life (after_driven (lived life s) driven)
unfolding after_driven
after_driven-Ended s life finished_all h =
    (λ n e. (h refl, cc), omega arith, λ up. absurd (omega arith), λ e. cc)
after_driven-Ended s life (halted x) h =
    (λ n e. cc, omega arith, λ up. absurd (omega arith), λ e. cc)
after_driven-Ended s life (recoverable why) h =
    elim (Bool-cases (ltb max_restarts (s.restarts + 1))) [
      | inl over ↦ rw over (λ n e. cc, omega arith, λ _. ground arith, λ e. cc)
      | inr more ↦ rw more (refl, ground arith)
    ]

with_halt-finished_all :
    (fired : Option Halt) (driven : Driven)
    → with_halt fired driven ≡ finished_all
    → driven ≡ finished_all
unfolding with_halt
with_halt-finished_all (some h) (recoverable why) e = cc
with_halt-finished_all (some h) finished_all e = refl
with_halt-finished_all (some h) (halted x) e = cc
with_halt-finished_all none driven e = e

live-IsDone :
    (life : Life) (s : Supervisor)
    → FinishesAfterEof life.pipe (started life s) life.events
    → (live life s).1 ≡ some finished_all
    → IsDone (lived life s)
live-IsDone life s f e = elim (live_starts life s) [
  | inl (_, same) ↦
      let (closed, all) =
        drive_done life.pipe life.events (started life s) (started-IsClosedDone life s) f
          (ap (λ r. r.1) (sym same) ∙ e) in
      (ap (λ r. r.0.input_closed) same ∙ closed, ap (λ r. all_delivered r.0.ledger) same ∙ all)
  | inr failed' ↦ absurd (cc (ap (λ r. r.1) (sym failed') ∙ e))
]

settle-Ended :
    (life : Life) (s : Supervisor) (out : Option Driven)
    → FinishesAfterEof life.pipe (started life s) life.events
    → (live life s).1 ≡ out
    → Ended s life (settle life.fired out (lived life s))
unfolding settle
settle-Ended life s none f e = (λ n e'. cc, omega arith, λ up. absurd (omega arith), λ _. refl)
settle-Ended life s (some driven) f e =
    after_driven-Ended s life (with_halt life.fired driven)
      (λ done. live-IsDone life s f (e ∙ ap some (with_halt-finished_all life.fired driven done)))

after_setup-Ended :
    (life : Life) (s : Supervisor) (o : Option String)
    → FinishesAfterEof life.pipe (started life s) life.events
    → Ended s life (after_setup o life s)
unfolding after_setup
after_setup-Ended life s (some w) f = (λ n e. cc, omega arith, λ up. absurd (omega arith), λ e. cc)
after_setup-Ended life s none f = settle-Ended life s (live life s).1 f refl

-- From at most five restarts, for sinks that report success only after the end of their input: the
-- stage ends with success only when no more objects can come and every announced one is
-- acknowledged, and reports how many different paths were acknowledged, those that were never
-- announced included; its restarts are at most six however it stands, and at most five while it
-- waits.
pub run_sink_supervisor_lem :
    (lives : List Life) (s : Supervisor)
    → s.restarts ≤ max_restarts
    → AllFinishAfterEof s lives
    → let (s', result) = run_sink_supervisor s lives in
      ((n : ℕ) → result ≡ delivered_objects n → IsDone s' × (n ≡ length s'.ledger.delivered))
      × (s'.restarts ≤ max_restarts + 1)
      × (result ≡ waiting → s'.restarts ≤ max_restarts)
unfolding run_sink_supervisor
run_sink_supervisor_lem [] s le f = (λ n e. cc, omega arith, λ _. le)
run_sink_supervisor_lem (life ∷ lives) s le f =
    go (after_setup life.setup_error life s) (after_setup-Ended life s life.setup_error f.0)
      (run_sink_supervisor_lem lives (record (lived life s) { restarts = s.restarts + 1 }))
  where
    Goal : Supervisor × SinkResult → Type 0
    Goal r =
        ((n : ℕ) → r.1 ≡ delivered_objects n → IsDone r.0 × (n ≡ length r.0.ledger.delivered))
        × (r.0.restarts ≤ max_restarts + 1)
        × (r.1 ≡ waiting → r.0.restarts ≤ max_restarts)

    again : Supervisor
    again = record (lived life s) { restarts = s.restarts + 1 }

    go :
        (n : Next)
        → Ended s life n
        → (s.restarts + 1 ≤ max_restarts
            → AllFinishAfterEof again lives
            → Goal (run_sink_supervisor again lives))
        → Goal
            (elim n [ stop s' result ↦ (s', result) | respawn s' ↦ run_sink_supervisor s' lives ])
    go (stop s' result) (done, up, _, wait) rec = (done, omega arith, λ e. omega (arith, wait e))
    go (respawn s') (same, more) rec =
        subst (λ t. Goal (run_sink_supervisor t lives)) (sym same) (rec more f.1)

with_halt_done : (fired : Option Halt) → with_halt fired finished_all ≡ finished_all
unfolding with_halt
with_halt_done none = refl
with_halt_done (some h) = refl

close_when_done_ledger : (d : Drive) → (close_when_done d).ledger ≡ d.ledger
unfolding close_when_done
close_when_done_ledger d = ground arith

after_setup_reported :
    (life : Life) (s : Supervisor)
    → life.setup_error ≡ none
    → (live life s).1 ≡ some finished_all
    → after_setup life.setup_error life s
      ≡ stop (lived life s) (delivered_objects (length (lived life s).ledger.delivered))
unfolding after_setup settle after_driven
after_setup_reported life s ready done =
    ap (λ o. after_setup o life s) ready
    ∙ ap (λ o. settle life.fired o (lived life s)) done
    ∙ ap (after_driven (lived life s)) (with_halt_done life.fired)

-- A sink that starts and takes what is re-sent to it, and then reports success at once, ends the
-- stage with success, and this reports as delivered only what was acknowledged before: whatever
-- files are still pending and whether or not more can come.
pub reported_success_ends :
    (life : Life) (lives : List Life) (s : Supervisor) (events : List Event)
    → life.setup_error ≡ none
    → (send_pending life.pipe (pending s.ledger) (fresh_drive s)).1 ≡ true
    → life.events ≡ finished true ∷ events
    → (run_sink_supervisor s (life ∷ lives)).1 ≡ delivered_objects (length s.ledger.delivered)
unfolding run_sink_supervisor
reported_success_ends life lives s events ready resent first =
    let d = started life s in
    let same : live life s ≡ drive life.pipe d (finished true ∷ events) =
      unfold live in rw (resent, first) refl in
    let result =
      same ∙ drive_stops life.pipe d (finished true) events finished_all (unfold receive in refl) in
    let kept : (live life s).0.ledger ≡ s.ledger =
      ap (λ r. r.0.ledger) result
      ∙ unfold receive in
        close_when_done_ledger d
        ∙ (send_pending_same life.pipe (pending s.ledger) (fresh_drive s)).0
        ∙ unfold fresh_drive in refl in
    ap
      (λ n.
        (elim n as (λ _. Supervisor × SinkResult) [
          | stop s' r ↦ (s', r)
          | respawn s' ↦ run_sink_supervisor s' lives
        ]).1)
      (after_setup_reported life s ready (ap (λ r. r.1) result))
    ∙ ap (λ l. delivered_objects (length l.delivered)) kept
