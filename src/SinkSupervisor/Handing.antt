-- ===== src/SinkSupervisor/Handing.antt =====
-- What a sink that is driven has been handed (crates/loadsmith-core/src/sink_supervisor.rs,
-- `drive_instance`).
use loadsmith.Prelude.{
  ◌≡◌, refl, sym, ap, subst, ◌∙◌, ◌⊎◌, inl, inr, String, Bool, true, false, ◌||◌, Option, none,
  List, [], ◌∷◌, ◌++◌, All, All-append, All-map, arith, if◌then◌else◌, Bool-cases, Option-cases,
  Option-cases,
}
use loadsmith.SinkSupervisor.Driving.{
  IsClosedDone, close_when_done-IsClosedDone, receive-IsClosedDone, SameState, send_same,
  send_pending_same, drive_goes, drive_stops, contains-insert,
}
use loadsmith.SinkSupervisor.Delivery.{
  StagedObject, Ledger, contains, without, pending, record_object, acknowledge,
}
use loadsmith.SinkSupervisor.Instance.{
  Driven, Message, deliver_object, ping, Event, halt, deadline, object, objects_closed, nothing,
  object_delivered, pong, finished, resend_requested, stray, eof, failure, tick, Drive, Pipe, send,
  send_pending, take_object, take_resend, take_delivered, halt_now, take_halt, take_tick, receive,
  close_when_done, drive,
}

-- The message has been written to this sink.
abbrev pub IsSent : String → List Message → Type 0
IsSent p [] = ⊥
IsSent p (m ∷ ms) = (m ≡ deliver_object p) ⊎ IsSent p ms

abbrev pub IsHanded : Ledger → List Message → String → Type 0
IsHanded l sent p = (contains l.delivered p ≡ true) ⊎ IsSent p sent

-- While its input is open and the run is not halting, the sink has been handed every object that
-- it has not acknowledged.
abbrev pub AllHanded : Drive → Type 0
AllHanded d =
    d.input_open ≡ true → d.halting ≡ none → All (IsHanded d.ledger d.sent) d.ledger.emitted

send_sends :
    (pipe : Pipe) (m : Message) (d : Drive)
    → ((send pipe m d).1 ≡ true → (send pipe m d).0.sent ≡ m ∷ d.sent)
      × (((send pipe m d).0.sent ≡ m ∷ d.sent) ⊎ ((send pipe m d).0.sent ≡ d.sent))
unfolding send
send_sends pipe m d = elim (Bool-cases (pipe.fails d.sends)) [
  | inl bad ↦ (λ h. ground arith, inr (ground arith))
  | inr good ↦ (λ h. ground arith, inl (ground arith))
]

send_keeps_sent :
    (pipe : Pipe) (m : Message) (d : Drive) (p : String)
    → IsSent p d.sent
    → IsSent p (send pipe m d).0.sent
send_keeps_sent pipe m d p h = elim (send_sends pipe m d).1 [
  | inl more ↦ rw more (inr h)
  | inr same ↦ rw same h
]

send_pending_goes :
    (pipe : Pipe) (p : String) (ps : List String) (d : Drive)
    → (send_pending pipe (p ∷ ps) d).1 ≡ true
    → ((send pipe (deliver_object p) d).1 ≡ true)
      × (send_pending pipe (p ∷ ps) d ≡ send_pending pipe ps (send pipe (deliver_object p) d).0)
unfolding send_pending
send_pending_goes pipe p ps d h = elim (Bool-cases (send pipe (deliver_object p) d).1) [
  | inl good ↦ (good, rw (good, send_pending))
  | inr bad ↦ absurd (cc (rw (bad, send_pending) at h))
]

-- A re-send keeps what was sent, and one that succeeds adds every object.
send_pending_keeps :
    (pipe : Pipe) (ps : List String) (d : Drive) (p : String)
    → IsSent p d.sent
    → IsSent p (send_pending pipe ps d).0.sent
unfolding send_pending
send_pending_keeps pipe [] d p h = h
send_pending_keeps pipe (q ∷ ps) d p h =
    let kept = send_keeps_sent pipe (deliver_object q) d p h in
    ground (arith, send_pending_keeps pipe ps (send pipe (deliver_object q) d).0 p)

send_pending_sends :
    (pipe : Pipe) (ps : List String) (d : Drive)
    → (send_pending pipe ps d).1 ≡ true
    → All (λ p. IsSent p (send_pending pipe ps d).0.sent) ps
send_pending_sends pipe [] d h = tt
send_pending_sends pipe (q ∷ ps) d h =
    let (good, same) = send_pending_goes pipe q ps d h in
    let d' = (send pipe (deliver_object q) d).0 in
    let written : IsSent q d'.sent =
      subst (IsSent q) (sym ((send_sends pipe (deliver_object q) d).0 good)) (inl refl) in
    subst (λ r. All (λ p. IsSent p r.0.sent) (q ∷ ps)) (sym same)
      (
        send_pending_keeps pipe ps d' q written,
        send_pending_sends pipe ps d' (ap (λ r. r.1) (sym same) ∙ h),
      )

All-without :
    (Q : String → Type 0) (delivered ps : List String)
    → All Q (without delivered ps)
    → All (λ p. (contains delivered p ≡ true) ⊎ Q p) ps
unfolding without
All-without Q delivered [] h = tt
All-without Q delivered (p ∷ ps) h = elim (Bool-cases (contains delivered p)) [
  | inl old ↦ (inl old, All-without Q delivered ps (rw old at h))
  | inr new ↦ let h' = rw new at h in (inr h'.0, All-without Q delivered ps h'.1)
]

-- After a re-send of what was pending that succeeded, everything has been handed over.
pub send_pending_hands :
    (pipe : Pipe) (l : Ledger) (d : Drive)
    → (send_pending pipe (pending l) d).1 ≡ true
    → All (IsHanded l (send_pending pipe (pending l) d).0.sent) l.emitted
unfolding pending
send_pending_hands pipe l d h =
    All-without (λ p. IsSent p (send_pending pipe (without l.delivered l.emitted) d).0.sent)
      l.delivered l.emitted (send_pending_sends pipe (without l.delivered l.emitted) d h)

Handed_mono :
    (l l' : Ledger) (sent sent' : List Message)
    → ((p : String) → contains l.delivered p ≡ true → contains l'.delivered p ≡ true)
    → ((p : String) → IsSent p sent → IsSent p sent')
    → (p : String) → IsHanded l sent p
    → IsHanded l' sent' p
Handed_mono l l' sent sent' f g p (inl h) = inl (f p h)
Handed_mono l l' sent sent' f g p (inr h) = inr (g p h)

-- `AllHanded` of another state with as much delivered and sent and the same objects
AllHanded-mono :
    (d d' : Drive)
    → (d'.ledger.emitted ≡ d.ledger.emitted)
    → (d'.input_open ≡ true → d.input_open ≡ true)
    → (d'.halting ≡ none → d.halting ≡ none)
    → ((p : String) → contains d.ledger.delivered p ≡ true → contains d'.ledger.delivered p ≡ true)
    → ((p : String) → IsSent p d.sent → IsSent p d'.sent)
    → AllHanded d
    → AllHanded d'
AllHanded-mono d d' same opened calm f g h o c =
    subst (All (IsHanded d'.ledger d'.sent)) (sym same) (
      All-map (IsHanded d.ledger d.sent) (IsHanded d'.ledger d'.sent) d.ledger.emitted
        (Handed_mono d.ledger d'.ledger d.sent d'.sent f g) (h (opened o) (calm c)))

close_when_done-AllHanded : (d : Drive) → AllHanded d → AllHanded (close_when_done d)
unfolding close_when_done
close_when_done-AllHanded d h = ground (arith, h)

-- the arm that takes a new object and writes it to the sink
start_send-AllHanded :
    (pipe : Pipe) (path : String) (d d' : Drive)
    → (send pipe (deliver_object path) d).1 ≡ true
    → d.ledger.emitted ≡ d'.ledger.emitted ++ path ∷ []
    → d.ledger.delivered ≡ d'.ledger.delivered
    → d.sent ≡ d'.sent
    → All (IsHanded d'.ledger d'.sent) d'.ledger.emitted
    → let t = (send pipe (deliver_object path) d).0 in
      All (IsHanded t.ledger t.sent) t.ledger.emitted
start_send-AllHanded pipe path d d' good more del sent h =
    let t = (send pipe (deliver_object path) d).0 in
    let (ledger, _, _, _) = send_same pipe (deliver_object path) d in
    let written : IsSent path t.sent =
      subst (IsSent path) (sym ((send_sends pipe (deliver_object path) d).0 good)) (inl refl) in
    let old =
      All-map (IsHanded d'.ledger d'.sent) (IsHanded t.ledger t.sent) d'.ledger.emitted
        (Handed_mono d'.ledger t.ledger d'.sent t.sent
          (λ p c. ap (λ l. contains l.delivered p) ledger ∙ ap (λ l. contains l p) del ∙ c)
          (λ p s. send_keeps_sent pipe (deliver_object path) d p (subst (IsSent p) (sym sent) s)))
        h in
    subst (All (IsHanded t.ledger t.sent)) (sym (ap (λ l. l.emitted) ledger ∙ more))
      (All-append (IsHanded t.ledger t.sent) d'.ledger.emitted (path ∷ []) old (inr written, tt))

abbrev acknowledged : String → Drive → Drive
acknowledged p d = record d { ledger = acknowledge d.ledger p }

take_delivered_calm :
    (p : String) (d : Drive)
    → (take_delivered p d).1 ≡ none
    → (take_delivered p d).0 ≡ acknowledged p d
unfolding take_delivered
take_delivered_calm p d h = ground arith

acknowledged-AllHanded : (p : String) (d : Drive) → AllHanded d → AllHanded (acknowledged p d)
unfolding acknowledge
acknowledged-AllHanded p d h =
    AllHanded-mono d (acknowledged p d) refl (λ o. o) (λ c. c)
      (λ q. contains-insert d.ledger.delivered p q) (λ q s. s) h

take_resend_cases :
    (pipe : Pipe) (d : Drive)
    → ((take_resend pipe d).0 ≡ (send_pending pipe (pending d.ledger) d).0)
      ⊎ ((take_resend pipe d).0 ≡ d)
unfolding take_resend
take_resend_cases pipe d = elim (Bool-cases d.input_open) [
  | inl o ↦ inl (rw o)
  | inr c ↦ inr (rw c)
]

-- the sink's state after writes that left all else alone
written-AllHanded :
    (d d' : Drive)
    → SameState d d'
    → ((p : String) → IsSent p d.sent → IsSent p d'.sent)
    → AllHanded d
    → AllHanded d'
written-AllHanded d d' (ledger, _, opened, calm) g h =
    AllHanded-mono d d' (ap (λ l. l.emitted) ledger) (λ o. sym opened ∙ o) (λ c. sym calm ∙ c)
      (λ p c. ap (λ l. contains l.delivered p) ledger ∙ c) g h

take_tick_cases :
    (pipe : Pipe) (d : Drive)
    → (take_tick pipe d).1 ≡ none
    → ((take_tick pipe d).0 ≡ record (send pipe ping d).0 { awaiting_pong = true })
      ⊎ ((take_tick pipe d).0 ≡ d)
unfolding take_tick
take_tick_cases pipe d h = elim (Bool-cases d.input_open) [
  | inl o ↦ inl (ground arith)
  | inr c ↦ inr (ground arith)
]

abbrev ranged : StagedObject → Drive → Drive
ranged o d = record d { ledger = record d.ledger { prefix = record_object d.ledger.prefix o } }

abbrev announced : StagedObject → Drive → Drive
announced o d = record d {
  ledger = record (ranged o d).ledger { emitted = d.ledger.emitted ++ o.path ∷ [] };
}

take_object_cases :
    (pipe : Pipe) (o : StagedObject) (d : Drive)
    → (take_object pipe o d).1 ≡ none
    → ((take_object pipe o d).0 ≡ ranged o d)
      ⊎ (((take_object pipe o d).0 ≡ (send pipe (deliver_object o.path) (announced o d)).0)
          × ((send pipe (deliver_object o.path) (announced o d)).1 ≡ true))
      ⊎ (((take_object pipe o d).0 ≡ announced o d)
          × ((d.input_open ≡ true) → (d.halting ≡ none) → ⊥))
unfolding take_object
take_object_cases pipe o d h =
    elim (Bool-cases (contains d.ledger.delivered o.path || contains d.ledger.emitted o.path)) [
      | inl known ↦ inl (ground arith)
      | inr fresh ↦ elim (Bool-cases d.input_open) [
        | inl o' ↦ elim (Option-cases d.halting) [
          | inl calm ↦ inr (inl (ground arith, ground arith))
          | inr (x, halting) ↦ inr (inr (ground arith, λ _ c. cc))
        ]
        | inr c ↦ inr (inr (ground arith, λ op _. cc))
      ]
    ]

take_object-AllHanded :
    (pipe : Pipe) (o : StagedObject) (d : Drive)
    → AllHanded d
    → (take_object pipe o d).1 ≡ none
    → AllHanded (take_object pipe o d).0
take_object-AllHanded pipe o d h e = elim (take_object_cases pipe o d e) [
  | inl same ↦ subst AllHanded (sym same) h
  | inr (inl (same, good)) ↦
      let t = (send pipe (deliver_object o.path) (announced o d)).0 in
      let (_, _, opened, calm) = send_same pipe (deliver_object o.path) (announced o d) in
      let all : AllHanded t = λ op c.
        start_send-AllHanded pipe o.path (announced o d) d good refl refl refl
          (h (sym opened ∙ op) (sym calm ∙ c)) in
      subst AllHanded (sym same) all
  | inr (inr (same, never)) ↦
      let none' : AllHanded (announced o d) = λ op c. absurd (never op c) in
      subst AllHanded (sym same) none'
]

object_arm :
    (b : Bool) (r : Drive × Option Driven) (d : Drive)
    → AllHanded d
    → (r.1 ≡ none → AllHanded r.0)
    → (if b then (d, none) else r).1 ≡ none
    → AllHanded (if b then (d, none) else r).0
object_arm true r d h f e = h
object_arm false r d h f e = f e

receive-AllHanded :
    (pipe : Pipe) (d : Drive) (e : Event)
    → IsClosedDone d
    → AllHanded d
    → (receive pipe d e).1 ≡ none
    → AllHanded (receive pipe d e).0
unfolding receive
receive-AllHanded pipe d (halt x) k h e = unfold take_halt in ground (arith, h)
receive-AllHanded pipe d deadline k h e = unfold halt_now in ground (arith, h)
receive-AllHanded pipe d (object o) k h e =
    object_arm d.input_closed (take_object pipe o d) d h (take_object-AllHanded pipe o d h) e
receive-AllHanded pipe d objects_closed k h e = h
receive-AllHanded pipe d (object_delivered p) k h e =
    subst AllHanded (sym (take_delivered_calm p d e)) (acknowledged-AllHanded p d h)
receive-AllHanded pipe d resend_requested k h e = elim (take_resend_cases pipe d) [
  | inl some' ↦ subst AllHanded (sym some') (
      written-AllHanded d (send_pending pipe (pending d.ledger) d).0
        (send_pending_same pipe (pending d.ledger) d) (send_pending_keeps pipe (pending d.ledger) d)
        h)
  | inr same ↦ subst AllHanded (sym same) h
]
receive-AllHanded pipe d tick k h e = elim (take_tick_cases pipe d e) [
  | inl pinged ↦
      let t = (send pipe ping d).0 in
      let all : AllHanded t =
        written-AllHanded d t (send_same pipe ping d) (send_keeps_sent pipe ping d) h in
      subst AllHanded (sym pinged) all
  | inr same ↦ subst AllHanded (sym same) h
]
receive-AllHanded pipe d nothing k h e = h
receive-AllHanded pipe d pong k h e = h
receive-AllHanded pipe d (finished b) k h e = cc
receive-AllHanded pipe d stray k h e = h
receive-AllHanded pipe d eof k h e = cc
receive-AllHanded pipe d (failure w) k h e = cc

pub drive-AllHanded :
    (pipe : Pipe) (es : List Event) (d : Drive)
    → IsClosedDone d
    → AllHanded d
    → (drive pipe d es).1 ≡ none
    → AllHanded (drive pipe d es).0
drive-AllHanded pipe [] d k h e = unfold drive in close_when_done-AllHanded d h
drive-AllHanded pipe (x ∷ es) d k h e =
    let c = close_when_done d in
    let kc = close_when_done-IsClosedDone d k in
    elim (Option-cases (receive pipe c x).1) [
      | inl going ↦
          let next = drive_goes pipe d x es going in
          subst (λ r. AllHanded r.0) (sym next)
            (drive-AllHanded pipe es (receive pipe c x).0 (receive-IsClosedDone pipe c x kc)
              (receive-AllHanded pipe c x kc (close_when_done-AllHanded d h) going)
              (ap (λ r. r.1) (sym next) ∙ e))
      | inr (out, stop) ↦ absurd (cc (ap (λ r. r.1) (sym (drive_stops pipe d x es out stop)) ∙ e))
    ]
