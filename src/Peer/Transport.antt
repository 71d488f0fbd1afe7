-- ===== src/Peer/Transport.antt =====
-- The transport rules of crates/loadsmith-core/src/peer.rs, `Peer::process`, over many lines.
use loadsmith.Prelude.{
  ℕ, ◌+◌, ◌≤◌, ◌≡◌, ◌≢◌, refl, sym, ap, ◌∙◌, inl, inr, String, Bool, true, false, not, ◌&&◌, Option,
  none, some, List, [], ◌∷◌, arith, leb, if◌then◌else◌, Bool-cases,
}
use loadsmith.Peer.{
  Message, resend, log, progress, pong, ping, finished, schema, parse_object, cancel,
  protocol_error, other, handshake, capabilities_request, ready, handshake_ack,
  set_protocol_version, capabilities_response, configure, configure_ack, start, credit, Inbound,
  line, malformed, eof, Peer, Processed, handled, event, resend_requested, malformed_twice,
  send_raw, send, replay, process_line, process,
}

-- The lines of a plugin until `process` fails.
pub process_all : (ℕ → Bool) → List Inbound → Peer → Peer × Bool
process_all fails [] p = (p, true)
process_all fails (l ∷ ls) p =
    let (q, out) = process fails l p in
    elim out [
      | malformed_twice reason ↦ (q, false)
      | handled ↦ process_all fails ls q
      | event e ↦ process_all fails ls q
    ]

-- No malformed line follows a malformed one, with no message in between; `after` is that the line
-- before was malformed.
abbrev pub is_well_formed : Bool → List Inbound → Bool
is_well_formed after [] = true
is_well_formed after (line msg ∷ ls) = is_well_formed false ls
is_well_formed after (malformed reason ∷ ls) = not after && is_well_formed true ls
is_well_formed after (eof ∷ ls) = is_well_formed after ls

send_raw_streak :
    (fails : ℕ → Bool) (msg : Message) (p : Peer)
    → (send_raw fails msg p).0.malformed_streak ≡ p.malformed_streak
unfolding send_raw
send_raw_streak fails msg p = ground arith

replay_streak :
    (fails : ℕ → Bool) (last : Option Message) (p : Peer)
    → (replay fails last p).malformed_streak ≡ p.malformed_streak
unfolding replay
replay_streak fails none p = refl
replay_streak fails (some m) p = send_raw_streak fails m p

-- A message is never the failure, and ends a streak of malformed lines.
process_line_streak :
    (fails : ℕ → Bool) (msg : Message) (p : Peer)
    → ((process_line fails msg p).0.malformed_streak ≡ p.malformed_streak)
      × ((reason : String) → (process_line fails msg p).1 ≢ malformed_twice reason)
unfolding process_line
process_line_streak fails resend p = go p.replay_on_resend
  where
    go :
        (b : Bool)
        → let r : Peer × Processed =
            if b then (replay fails p.last_sent p, handled) else (p, event resend_requested) in
          (r.0.malformed_streak ≡ p.malformed_streak)
          × ((reason : String) → r.1 ≢ malformed_twice reason)
    go true = (replay_streak fails p.last_sent p, λ r e. cc e)
    go false = (refl, λ r e. cc e)
process_line_streak fails log p = (refl, λ r e. cc e)
process_line_streak fails progress p = (refl, λ r e. cc e)
process_line_streak fails pong p = (refl, λ r e. cc e)
process_line_streak fails ping p = (refl, λ r e. cc e)
process_line_streak fails (finished success) p = (refl, λ r e. cc e)
process_line_streak fails (schema x) p = (refl, λ r e. cc e)
process_line_streak fails (parse_object x) p = (refl, λ r e. cc e)
process_line_streak fails (cancel x) p = (refl, λ r e. cc e)
process_line_streak fails (protocol_error x y) p = (refl, λ r e. cc e)
process_line_streak fails handshake p = (refl, λ r e. cc e)
process_line_streak fails capabilities_request p = (refl, λ r e. cc e)
process_line_streak fails ready p = (refl, λ r e. cc e)
process_line_streak fails (handshake_ack x) p = (refl, λ r e. cc e)
process_line_streak fails (set_protocol_version x) p = (refl, λ r e. cc e)
process_line_streak fails (capabilities_response x) p = (refl, λ r e. cc e)
process_line_streak fails (configure x y) p = (refl, λ r e. cc e)
process_line_streak fails (configure_ack x) p = (refl, λ r e. cc e)
process_line_streak fails (start x) p = (refl, λ r e. cc e)
process_line_streak fails (credit x) p = (refl, λ r e. cc e)
process_line_streak fails (other x) p = (refl, λ r e. cc e)

-- What a line is processed to when it is no failure.
abbrev Goes : (ℕ → Bool) → List Inbound → Peer × Processed → Type 0
Goes fails ls r =
    (elim r.1 as (λ _. Peer × Bool) [
      | malformed_twice reason ↦ (r.0, false)
      | handled ↦ process_all fails ls r.0
      | event e ↦ process_all fails ls r.0
    ]).1
    ≡ (process_all fails ls r.0).1

goes :
    (fails : ℕ → Bool) (ls : List Inbound) (r : Peer × Processed)
    → ((reason : String) → r.1 ≢ malformed_twice reason)
    → Goes fails ls r
goes fails ls (q, handled) h = refl
goes fails ls (q, event e) h = refl
goes fails ls (q, malformed_twice reason) h = absurd (h reason refl)

abbrev settled : (ℕ → Bool) → String → Peer → Bool → Peer × Processed
settled fails reason q b =
    if b then (q, malformed_twice reason) else ((send_raw fails resend q).0, handled)

process_malformed :
    (fails : ℕ → Bool) (reason : String) (p : Peer)
    → p.malformed_streak ≡ 0
    → ((process fails (malformed reason) p).0.malformed_streak ≡ 1)
      × ((process fails (malformed reason) p).1 ≡ handled)
unfolding process
process_malformed fails reason p e =
    let q = record p { malformed_streak = p.malformed_streak + 1 } in
    let first : leb 2 (p.malformed_streak + 1) ≡ false = ground arith in
    (
      ap (λ b. (settled fails reason q b).0.malformed_streak) first
          ∙ send_raw_streak fails resend q
          ∙ omega arith,
      ap (λ b. (settled fails reason q b).1) first,
    )

process_malformed_again :
    (fails : ℕ → Bool) (reason : String) (p : Peer)
    → p.malformed_streak ≡ 1
    → (process fails (malformed reason) p).1 ≡ malformed_twice reason
unfolding process
process_malformed_again fails reason p e =
    let q = record p { malformed_streak = p.malformed_streak + 1 } in
    let second : leb 2 (p.malformed_streak + 1) ≡ true = ground arith in
    ap (λ b. (settled fails reason q b).1) second

fails_at :
    (fails : ℕ → Bool) (ls : List Inbound) (r : Peer × Processed) (reason : String)
    → r.1 ≡ malformed_twice reason
    → (elim r.1 as (λ _. Peer × Bool) [
      | malformed_twice reason ↦ (r.0, false)
      | handled ↦ process_all fails ls r.0
      | event e ↦ process_all fails ls r.0
    ]).1
      ≡ false
fails_at fails ls (q, malformed_twice r) reason e = refl
fails_at fails ls (q, handled) reason e = absurd (cc e)
fails_at fails ls (q, event x) reason e = absurd (cc e)

process-line :
    (fails : ℕ → Bool) (msg : Message) (p : Peer)
    → ((process fails (line msg) p).0.malformed_streak ≡ 0)
      × ((reason : String) → (process fails (line msg) p).1 ≢ malformed_twice reason)
unfolding process
process-line fails msg p = process_line_streak fails msg (record p { malformed_streak = 0 })

-- From a peer that has read at most one malformed line last, the lines are processed without a
-- failure exactly if no malformed line follows another one before a message does.
pub process_all-is_well_formed :
    (fails : ℕ → Bool) (ls : List Inbound) (p : Peer)
    → p.malformed_streak ≤ 1
    → (process_all fails ls p).1 ≡ is_well_formed (leb 1 p.malformed_streak) ls
unfolding process_all
process_all-is_well_formed fails [] p le = refl
process_all-is_well_formed fails (line msg ∷ ls) p le =
    let q = (process fails (line msg) p).0 in
    let (zero, fine) = process-line fails msg p in
    goes fails ls (process fails (line msg) p) fine
    ∙ process_all-is_well_formed fails ls q (omega (arith, zero))
    ∙ ap (λ n. is_well_formed (leb 1 n) ls) zero
process_all-is_well_formed fails (malformed reason ∷ ls) p le =
    let q = (process fails (malformed reason) p).0 in
    let rec = process_all-is_well_formed fails ls q in
    elim (Bool-cases (leb 1 p.malformed_streak)) [
      | inl after ↦
          let one : p.malformed_streak ≡ 1 = ground arith in
          fails_at fails ls (process fails (malformed reason) p) reason
            (process_malformed_again fails reason p one)
          ∙ ap (λ b. not b && is_well_formed true ls) (sym after)
      | inr first ↦
          let zero : p.malformed_streak ≡ 0 = ground arith in
          let (one, out) = process_malformed fails reason p zero in
          goes fails ls (process fails (malformed reason) p) (λ r e. cc (out, e))
          ∙ rec (omega (arith, one))
          ∙ ap (λ n. is_well_formed (leb 1 n) ls) one
          ∙ ap (λ b. not b && is_well_formed true ls) (sym first)
    ]
process_all-is_well_formed fails (eof ∷ ls) p le =
    let q = (process fails eof p).0 in
    let same : q.malformed_streak ≡ p.malformed_streak = unfold process in refl in
    goes fails ls (process fails eof p) (unfold process in λ r e. cc e)
    ∙ process_all-is_well_formed fails ls q (omega (arith, same))
    ∙ ap (λ n. is_well_formed (leb 1 n) ls) same

-- messages sent one after the other, unremembered
pub send_raws : (ℕ → Bool) → List Message → Peer → Peer
send_raws fails [] p = p
send_raws fails (m ∷ ms) p = send_raws fails ms (send_raw fails m p).0

-- A peer that remembers `msg` and can replay it.
abbrev Remembers : Message → Peer → Type 0
Remembers msg p = (p.last_sent ≡ some msg) × (p.input_open ≡ true) × (p.replay_on_resend ≡ true)

send_raws-Remembers :
    (fails : ℕ → Bool) (msg : Message) (ms : List Message) (p : Peer)
    → Remembers msg p
    → Remembers msg (send_raws fails ms p)
unfolding send_raws
send_raws-Remembers fails msg [] p h = h
send_raws-Remembers fails msg (m ∷ ms) p h =
    send_raws-Remembers fails msg ms (send_raw fails m p).0 (one fails m p h)
  where
    one :
        (fails : ℕ → Bool) (m : Message) (p : Peer)
        → Remembers msg p
        → Remembers msg (send_raw fails m p).0
    one fails m p h = unfold send_raw in (ground arith, ground arith, ground arith)

abbrev asked : (ℕ → Bool) → Peer → Bool → Peer × Processed
asked fails q b = if b then (replay fails q.last_sent q, handled) else (q, event resend_requested)

pub send_raw_writes :
    (fails : ℕ → Bool) (m : Message) (p : Peer)
    → p.input_open ≡ true
    → fails p.writes ≡ false
    → ((send_raw fails m p).1 ≡ true) × ((send_raw fails m p).0.sent ≡ m ∷ p.sent)
unfolding send_raw
send_raw_writes fails m p open_ sound = (ground arith, ground arith)

process-resend :
    (fails : ℕ → Bool) (msg : Message) (p : Peer)
    → Remembers msg p
    → ((i : ℕ) → fails i ≡ false)
    → (process fails (line resend) p).0.sent ≡ msg ∷ p.sent
unfolding process process_line replay
process-resend fails msg p (last, open_, on) sound =
    let q = record p { malformed_streak = 0 } in
    ap (λ b. (asked fails q b).0.sent) on
    ∙ ap (λ o. (replay fails o q).sent) last
    ∙ (send_raw_writes fails msg q open_ (sound q.writes)).1

-- If its input is open, it replays and no write fails, a peer writes its last lifecycle message
-- again when it is asked to, whatever was sent to it without being remembered in between.
pub resend_replays :
    (fails : ℕ → Bool) (msg : Message) (pings : List Message) (p : Peer)
    → p.input_open ≡ true
    → p.replay_on_resend ≡ true
    → ((i : ℕ) → fails i ≡ false)
    → let q = send_raws fails pings (send fails msg p).0 in
      (process fails (line resend) q).0.sent ≡ msg ∷ q.sent
resend_replays fails msg pings p open_ on sound =
    let wrote = (send_raw_writes fails msg p open_ (sound p.writes)).0 in
    let remembered : (send fails msg p).0.last_sent ≡ some msg =
      unfold send in
      ap
        (λ b.
          (if b
            then record (send_raw fails msg p).0 { last_sent = some msg }
            else (send_raw fails msg p).0).last_sent)
        wrote in
    process-resend fails msg (send_raws fails pings (send fails msg p).0)
      (send_raws-Remembers fails msg pings (send fails msg p).0
        (unfold send send_raw in (remembered, ground arith, ground arith)))
      sound
