-- ===== src/Peer.antt =====
-- A plugin's control channel as the core sees it (crates/loadsmith-core/src/peer.rs, `Peer`).
-- `fails` says which writes to the plugin fail, by their number.
pub mod Transport
pub mod Finishing
use loadsmith.Prelude.{
  ℕ, ◌+◌, String, Bool, true, false, not, ◌&&◌, ◌||◌, Option, none, some, List, [], ◌∷◌, leb,
  if◌then◌else◌,
}

pub data PluginKind : Type 0 where
  source destination sink parser provider : PluginKind

pub record HandshakeAck : Type 0 where
  pub plugin_name : String
  pub plugin_version : String
  pub protocol_supported_versions : List ℕ
  pub kind : PluginKind

-- A JSON value is its text.
pub record StartParams : Type 0 where
  pub resume_cursor : Option String
  pub credit_granted : Option ℕ
  pub first_object_seq : Option ℕ
  pub resume_token : Option String

-- The control messages that the core tells apart; `finished` and `configure_ack` with whether
-- their status is a success, `configure` with its config and whether unknown keys are an error.
pub data Message : Type 0 where
  handshake capabilities_request ready resend log progress pong ping : Message
  handshake_ack : HandshakeAck → Message
  set_protocol_version : ℕ → Message
  capabilities_response : List String → Message
  configure : String → Bool → Message
  configure_ack : Bool → Message
  start : StartParams → Message
  credit : ℕ → Message
  finished : Bool → Message
  schema : String → Message
  parse_object : String → Message
  cancel : String → Message
  protocol_error : String → String → Message
  other : String → Message

pub data Inbound : Type 0 where
  line : Message → Inbound
  malformed : String → Inbound
  eof : Inbound

pub data Event : Type 0 where
  received : Message → Event
  resend_requested : Event
  at_end : Event

-- `input_open` is that there is a writer; `sent` has the messages written, the latest in front.
pub record Peer : Type 0 where
  pub last_sent : Option Message
  pub malformed_streak : ℕ
  pub is_eof : Bool
  pub finished_with : Option Bool
  pub replay_on_resend : Bool
  pub input_open : Bool
  pub writes : ℕ
  pub sent : List Message

-- `Peer::process`: a failure, or the event that is left to the caller.
pub data Processed : Type 0 where
  handled : Processed
  event : Event → Processed
  malformed_twice : String → Processed

abbrev pub new : Peer
new = record {
  last_sent = none;
  malformed_streak = 0;
  is_eof = false;
  finished_with = none;
  replay_on_resend = true;
  input_open = true;
  writes = 0;
  sent = [];
}

-- Sends without remembering.
unfoldable pub send_raw : (ℕ → Bool) → Message → Peer → Peer × Bool
send_raw fails msg p =
    if not p.input_open
    then (p, false)
    else if fails p.writes
    then (record p { writes = p.writes + 1 }, false)
    else (record p { writes = p.writes + 1; sent = msg ∷ p.sent }, true)

-- Sends and remembers the message for a `resend`.
unfoldable pub send : (ℕ → Bool) → Message → Peer → Peer × Bool
unfolding send_raw
send fails msg p =
    let (p', ok) = send_raw fails msg p in
    (if ok then record p' { last_sent = some msg } else p', ok)

unfoldable pub close_input : Peer → Peer
close_input p = record p { input_open = false }

unfoldable pub replay : (ℕ → Bool) → Option Message → Peer → Peer
unfolding send_raw
replay fails none p = p
replay fails (some last) p = (send_raw fails last p).0

-- The inner `match` of `process` on a message.
unfoldable pub process_line : (ℕ → Bool) → Message → Peer → Peer × Processed
unfolding replay
process_line fails resend p =
    if p.replay_on_resend
    then (replay fails p.last_sent p, handled)
    else (p, event resend_requested)
process_line fails (finished success) p =
    (record p { finished_with = some success }, event (received (finished success)))
process_line fails msg p = (p, event (received msg))

unfoldable pub process : (ℕ → Bool) → Inbound → Peer → Peer × Processed
unfolding process_line send_raw
process fails (line msg) p = process_line fails msg (record p { malformed_streak = 0 })
process fails (malformed reason) p =
    let q = record p { malformed_streak = p.malformed_streak + 1 } in
    if leb 2 q.malformed_streak
    then (q, malformed_twice reason)
    else ((send_raw fails resend q).0, handled)
process fails eof p = (record p { is_eof = true }, event at_end)

-- `Peer::notify_abort`
unfoldable pub notify_abort : (ℕ → Bool) → String → Option String → Peer → Peer
unfolding send
notify_abort fails reason code p =
    if p.is_eof || elim p.finished_with [ none ↦ false | some f ↦ true ]
    then p
    else (send fails (elim code [ none ↦ cancel reason | some c ↦ protocol_error c reason ]) p).0
