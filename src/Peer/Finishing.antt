-- ===== src/Peer/Finishing.antt =====
-- What a plugin's lines make of its recorded `finished` (crates/loadsmith-core/src/peer.rs).
use loadsmith.Prelude.{
  ℕ, ◌≡◌, refl, ◌⊎◌, inl, inr, Bool, true, false, Option, none, some, arith, if◌then◌else◌,
}
use loadsmith.Peer.{
  Peer, Message, resend, log, progress, pong, ping, finished, schema, parse_object, cancel,
  protocol_error, other, handshake, capabilities_request, ready, handshake_ack,
  set_protocol_version, capabilities_response, configure, configure_ack, start, credit, Inbound,
  line, malformed, eof, received, resend_requested, Processed, handled, event, send_raw, send,
  replay, process_line, process,
}

-- What a line makes of the recorded `finished`, with what is left of it to the caller.
abbrev pub Records : Peer → Peer × Processed → Type 0
Records p r =
    (r.0.finished_with ≡ p.finished_with)
    ⊎ ((success : Bool) × (r.1 ≡ event (received (finished success)))
        × (r.0.finished_with ≡ some success))

replay_finished :
    (fails : ℕ → Bool) (last : Option Message) (p : Peer)
    → (replay fails last p).finished_with ≡ p.finished_with
unfolding replay send_raw
replay_finished fails none p = refl
replay_finished fails (some m) p = ground arith

process_line-Records :
    (fails : ℕ → Bool) (msg : Message) (p : Peer) → Records p (process_line fails msg p)
unfolding process_line
process_line-Records fails resend p = inl (asked p.replay_on_resend)
  where
    asked :
        (b : Bool)
        → (if◌then◌else◌ {A = Peer × Processed} b
            (replay fails p.last_sent p, handled)
            (p, event resend_requested)).0.finished_with
          ≡ p.finished_with
    asked true = replay_finished fails p.last_sent p
    asked false = refl
process_line-Records fails (finished s) p = inr (s, refl, refl)
process_line-Records fails log p = inl refl
process_line-Records fails progress p = inl refl
process_line-Records fails pong p = inl refl
process_line-Records fails ping p = inl refl
process_line-Records fails (schema x) p = inl refl
process_line-Records fails (parse_object x) p = inl refl
process_line-Records fails (cancel x) p = inl refl
process_line-Records fails (protocol_error x y) p = inl refl
process_line-Records fails handshake p = inl refl
process_line-Records fails capabilities_request p = inl refl
process_line-Records fails ready p = inl refl
process_line-Records fails (handshake_ack x) p = inl refl
process_line-Records fails (set_protocol_version x) p = inl refl
process_line-Records fails (capabilities_response x) p = inl refl
process_line-Records fails (configure x y) p = inl refl
process_line-Records fails (configure_ack x) p = inl refl
process_line-Records fails (start x) p = inl refl
process_line-Records fails (credit x) p = inl refl
process_line-Records fails (other x) p = inl refl

pub process-Records : (fails : ℕ → Bool) (l : Inbound) (p : Peer) → Records p (process fails l p)
unfolding process
process-Records fails (line msg) p =
    process_line-Records fails msg (record p { malformed_streak = 0 })
process-Records fails (malformed reason) p = inl (unfold send_raw in ground arith)
process-Records fails eof p = inl refl

-- Sending leaves what a peer said and whether its input is open.
pub send_keeps :
    (fails : ℕ → Bool) (m : Message) (p : Peer)
    → ((send fails m p).0.finished_with ≡ p.finished_with)
      × ((send fails m p).0.input_open ≡ p.input_open)
unfolding send send_raw
send_keeps fails m p = (ground arith, ground arith)

replay_keeps_input :
    (fails : ℕ → Bool) (last : Option Message) (p : Peer)
    → (replay fails last p).input_open ≡ p.input_open
unfolding replay send_raw
replay_keeps_input fails none p = refl
replay_keeps_input fails (some m) p = ground arith

process_line_keeps_input :
    (fails : ℕ → Bool) (msg : Message) (p : Peer)
    → (process_line fails msg p).0.input_open ≡ p.input_open
unfolding process_line
process_line_keeps_input fails resend p = asked p.replay_on_resend
  where
    asked :
        (b : Bool)
        → (if◌then◌else◌ {A = Peer × Processed} b
            (replay fails p.last_sent p, handled)
            (p, event resend_requested)).0.input_open
          ≡ p.input_open
    asked true = replay_keeps_input fails p.last_sent p
    asked false = refl
process_line_keeps_input fails log p = refl
process_line_keeps_input fails progress p = refl
process_line_keeps_input fails pong p = refl
process_line_keeps_input fails ping p = refl
process_line_keeps_input fails (finished s) p = refl
process_line_keeps_input fails (schema x) p = refl
process_line_keeps_input fails (parse_object x) p = refl
process_line_keeps_input fails (cancel x) p = refl
process_line_keeps_input fails (protocol_error x y) p = refl
process_line_keeps_input fails (other x) p = refl
process_line_keeps_input fails handshake p = refl
process_line_keeps_input fails capabilities_request p = refl
process_line_keeps_input fails ready p = refl
process_line_keeps_input fails (handshake_ack x) p = refl
process_line_keeps_input fails (set_protocol_version x) p = refl
process_line_keeps_input fails (capabilities_response x) p = refl
process_line_keeps_input fails (configure x y) p = refl
process_line_keeps_input fails (configure_ack x) p = refl
process_line_keeps_input fails (start x) p = refl
process_line_keeps_input fails (credit x) p = refl

pub process_keeps_input :
    (fails : ℕ → Bool) (l : Inbound) (p : Peer) → (process fails l p).0.input_open ≡ p.input_open
unfolding process
process_keeps_input fails (line msg) p =
    process_line_keeps_input fails msg (record p { malformed_streak = 0 })
process_keeps_input fails (malformed reason) p = unfold send_raw in ground arith
process_keeps_input fails eof p = refl
