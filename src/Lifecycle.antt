-- ===== src/Lifecycle.antt =====
-- The start of a plugin (crates/loadsmith-core/src/lifecycle.rs, and `Peer::recv_expect` of peer.rs
-- beside it). A step takes the peer and what is still to come on its channel, and leaves both.
pub mod Hearing
pub mod Matching
pub mod Order
pub mod Secrecy
use loadsmith.Prelude.{
  ℕ, String, Bool, true, false, not, ◌&&◌, ◌||◌, Option, none, some, List, [], ◌∷◌, ◌==◌,
  if◌then◌else◌,
}
use loadsmith.Exit.{
  CoreError, plugin_failed, plugin_process, plugin_incompatible, plugin_rejected_config, protocol,
  timeout,
}
use loadsmith.Shutdown.{Halt}
use loadsmith.Peer.{
  Peer, Message, PluginKind, source, destination, sink, parser, provider, HandshakeAck, StartParams,
  handshake, capabilities_request, ready, log, progress, pong, handshake_ack, set_protocol_version,
  capabilities_response, configure, configure_ack, start, schema, finished, Inbound, Event,
  received, resend_requested, at_end, Processed, handled, event, malformed_twice, process, send,
}
use loadsmith.Text.{Result, err, ok}
use loadsmith.Run.Failing.{Failure, new, by, of, halted, finished_failure, unreadable}

-- What ends one turn of `recv_expect`'s `select!`.
pub data Wait : Type 0 where
  said : Inbound → Wait
  stopped : Halt → Wait
  overdue : Wait

-- The result of a step; `pending` is a step that still waits for something to come.
pub data Answer (A : Type 0) : Type 0 where
  got : A → Answer A
  failed : Failure → Answer A
  pending : Answer A

pub record Talk : Type 0 where
  pub peer : Peer
  pub coming : List Wait

-- what the loop makes of a message; `none` goes on
unfoldable pub judge_message : String → Message → Option (Answer Message)
judge_message label (finished success) = some (failed (finished_failure label))
judge_message label log = none
judge_message label progress = none
judge_message label pong = none
judge_message label msg = some (got msg)

unfoldable pub judge : String → Processed → Option (Answer Message)
unfolding judge_message
judge label handled = none
judge label (malformed_twice reason) = some (failed (unreadable label))
judge label (event at_end) = some (failed (of label (plugin_failed "exited while the core waited")))
judge label (event resend_requested) = none
judge label (event (received msg)) = judge_message label msg

-- `Peer::recv_expect`; without a time limit, the sleep never ends.
unfoldable pub recv_expect :
    (ℕ → Bool) → String → Option ℕ → List Wait → Peer → Talk × Answer Message
unfolding halted judge process
recv_expect fails label limit [] p = (record { peer = p; coming = [] }, pending)
recv_expect fails label limit (stopped h ∷ ws) p =
    (record { peer = p; coming = ws }, failed (halted h))
recv_expect fails label limit (overdue ∷ ws) p = elim limit [
  | none ↦ recv_expect fails label none ws p
  | some seconds ↦
      (record { peer = p; coming = ws }, failed (by label "TIMEOUT" (timeout "no answer")))
]
recv_expect fails label limit (said l ∷ ws) p =
    let (q, out) = process fails l p in
    elim (judge label out) [
      | none ↦ recv_expect fails label limit ws q
      | some answer ↦ (record { peer = q; coming = ws }, answer)
    ]

-- `violation`
abbrev pub violation : String → Failure
violation label = by label "PROTOCOL_VIOLATION" (protocol "expected another message")

-- A step, and what comes after its result: the `?` operator.
unfoldable pub and_then :
    {A B : Type 0} → Talk × Answer A → (A → Talk → Talk × Answer B) → Talk × Answer B
and_then (t, got a) next = next a t
and_then (t, failed f) next = (t, failed f)
and_then (t, pending) next = (t, pending)

abbrev pub of_result : {A : Type 0} → Result Failure A → Talk → Talk × Answer A
of_result (ok a) t = (t, got a)
of_result (err f) t = (t, failed f)

unfoldable pub say : (ℕ → Bool) → Message → Talk → Talk × Answer Unit
unfolding send
say fails msg t =
    let (p, wrote) = send fails msg t.peer in
    (record t { peer = p }, if wrote then got tt else failed (new (plugin_process "write")))

unfoldable pub hear : (ℕ → Bool) → String → Option ℕ → Talk → Talk × Answer Message
unfolding recv_expect
hear fails label limit t = recv_expect fails label limit t.coming t.peer

unfoldable pub kind_eq : PluginKind → PluginKind → Bool
kind_eq source source = true
kind_eq destination destination = true
kind_eq sink sink = true
kind_eq parser parser = true
kind_eq provider provider = true
kind_eq a b = false

-- `SUPPORTED_VERSIONS`, the latest first, as the choice goes through them
abbrev pub supported_versions : List ℕ
supported_versions = 1 ∷ []

unfoldable pub contains : List ℕ → ℕ → Bool
contains [] v = false
contains (w ∷ ws) v = (w == v) || contains ws v

-- the highest version that both sides support
unfoldable pub choose : List ℕ → List ℕ → Option ℕ
unfolding contains
choose [] versions = none
choose (v ∷ vs) versions = if contains versions v then some v else choose vs versions

pub record PluginHandshake : Type 0 where
  pub name : String
  pub version : String
  pub protocol_version : ℕ
  pub supports : List String

-- What does not change: which writes fail, the plugin's label, the config by the capabilities that
-- the plugin advertises, the policy for unknown keys, the kind and the time limits.
pub record Setup : Type 0 where
  pub fails : ℕ → Bool
  pub label : String
  pub config : List String → Result Failure String
  pub unknown_keys : Bool
  pub expected_kind : PluginKind
  pub handshake_limit : Option ℕ
  pub configure_limit : Option ℕ
  pub start_limit : Option ℕ

-- the `match` on the acknowledgement of the handshake
unfoldable pub take_ack : Setup → Message → Talk → Talk × Answer HandshakeAck
take_ack setup (handshake_ack a) t = (t, got a)
take_ack setup msg t = (t, failed (violation setup.label))

-- the checks of the kind and of the versions
unfoldable pub identify : Setup → HandshakeAck → Talk → Talk × Answer ℕ
unfolding kind_eq choose
identify setup a t =
    if not (kind_eq a.kind setup.expected_kind)
    then (t, failed (by setup.label "WRONG_PLUGIN_KIND" (plugin_incompatible "kind")))
    else elim (choose supported_versions a.protocol_supported_versions) [
      | none ↦ (
        t,
        failed (by setup.label "UNSUPPORTED_PROTOCOL_VERSION" (plugin_incompatible "version")),
      )
      | some v ↦ (t, got v)
    ]

unfoldable pub take_capabilities : Setup → Message → Talk → Talk × Answer (List String)
take_capabilities setup (capabilities_response supports) t = (t, got supports)
take_capabilities setup msg t = (t, failed (violation setup.label))

unfoldable pub take_configure_ack : Setup → Message → Talk → Talk × Answer Unit
take_configure_ack setup (configure_ack true) t = (t, got tt)
take_configure_ack setup (configure_ack false) t =
    (t, failed (of setup.label (plugin_rejected_config "rejected")))
take_configure_ack setup msg t = (t, failed (violation setup.label))

-- the block of the span `configure`
unfoldable pub run_configure : Setup → List String → Talk → Talk × Answer Unit
unfolding and_then say hear take_configure_ack
run_configure setup supports t = and_then (of_result (setup.config supports) t) λ config t.
    and_then (say setup.fails (configure config setup.unknown_keys) t) λ _ t.
      and_then (hear setup.fails setup.label setup.configure_limit t) (take_configure_ack setup)

-- the block of the span `handshake`, behind the acknowledgement
unfoldable pub run_capabilities : Setup → HandshakeAck → Talk → Talk × Answer (ℕ × List String)
unfolding and_then identify say hear take_capabilities
run_capabilities setup a t = and_then (identify setup a t) λ chosen t.
    and_then (say setup.fails (set_protocol_version chosen) t) λ _ t.
      and_then (say setup.fails capabilities_request t) λ _ t.
        and_then (hear setup.fails setup.label setup.handshake_limit t) λ msg t.
          and_then (take_capabilities setup msg t) λ supports t. (t, got (chosen, supports))

-- `run_handshake_and_configure_with`
unfoldable pub run_handshake_and_configure : Setup → Talk → Talk × Answer PluginHandshake
unfolding and_then say hear take_ack run_capabilities run_configure
run_handshake_and_configure setup t = and_then (say setup.fails handshake t) λ _ t.
    and_then (hear setup.fails setup.label setup.handshake_limit t) λ msg t.
      and_then (take_ack setup msg t) λ a t. and_then (run_capabilities setup a t) λ agreed t.
        and_then (run_configure setup agreed.1 t) λ _ t. (
          t,
          got (record {
            name = a.plugin_name;
            version = a.plugin_version;
            protocol_version = agreed.0;
            supports = agreed.1;
          }),
        )

unfoldable pub take_schema : Setup → Message → Talk → Talk × Answer String
take_schema setup (schema s) t = (t, got s)
take_schema setup msg t = (t, failed (violation setup.label))

-- `start_source`
unfoldable pub start_source :
    Setup → Option String → Option String → Option ℕ → Talk → Talk × Answer String
unfolding and_then say hear take_schema
start_source setup resume resume_token credit t =
    and_then
      (say setup.fails
        (start (record {
          resume_cursor = resume;
          credit_granted = credit;
          first_object_seq = none;
          resume_token = resume_token;
        }))
        t)
      λ _ t. and_then (hear setup.fails setup.label setup.start_limit t) (take_schema setup)

unfoldable pub take_ready : Setup → Message → Talk → Talk × Answer Unit
take_ready setup ready t = (t, got tt)
take_ready setup msg t = (t, failed (violation setup.label))

-- `start_with_and_await_ready`
unfoldable pub start_with_and_await_ready : Setup → StartParams → Talk → Talk × Answer Unit
unfolding and_then say hear take_ready
start_with_and_await_ready setup params t =
    and_then (say setup.fails (start params) t)
      λ _ t. and_then (hear setup.fails setup.label setup.start_limit t) (take_ready setup)

-- `start_and_await_ready`
unfoldable pub start_and_await_ready : Setup → Talk → Talk × Answer Unit
unfolding start_with_and_await_ready
start_and_await_ready setup = start_with_and_await_ready setup (record {
  resume_cursor = none;
  credit_granted = none;
  first_object_seq = none;
  resume_token = none;
})
