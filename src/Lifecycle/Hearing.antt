-- ===== src/Lifecycle/Hearing.antt =====
-- What a wait for a message heard (crates/loadsmith-core/src/peer.rs, `Peer::recv_expect`).
use loadsmith.Prelude.{
  ℕ, ◌+◌, ◌≡◌, refl, ap, ◌∙◌, ◌⊎◌, inl, inr, String, Bool, true, false, Option, none, some, List,
  [], ◌∷◌, leb, if◌then◌else◌,
}
use loadsmith.Peer.{
  Peer, Message, resend, log, progress, pong, ping, finished, schema, parse_object, cancel,
  protocol_error, other, handshake, capabilities_request, ready, handshake_ack,
  set_protocol_version, capabilities_response, configure, configure_ack, start, credit, Inbound,
  line, malformed, eof, Processed, handled, event, resend_requested, process_line, process, replay,
  send_raw, malformed_twice,
}
use loadsmith.Lifecycle.{
  Wait, said, stopped, overdue, Answer, got, failed, pending, Talk, judge, judge_message,
  recv_expect, hear,
}

-- A message that the wait passes over.
abbrev IsPassed : Message → Type 0
IsPassed resend = Unit
IsPassed log = Unit
IsPassed progress = Unit
IsPassed pong = Unit
IsPassed msg = ⊥

abbrev IsSkipped : Option ℕ → Wait → Type 0
IsSkipped limit (said (line msg)) = IsPassed msg
IsSkipped limit (said (malformed reason)) = Unit
IsSkipped limit (said eof) = ⊥
IsSkipped limit (stopped h) = ⊥
IsSkipped limit overdue = limit ≡ none

-- The message is the first thing to come but for what is passed over: logs, progress, pongs,
-- requests to resend, malformed lines and, without a time limit, the time. The rest comes behind it.
pub Heard : Option ℕ → Message → List Wait → List Wait → Type 0
Heard limit msg [] rest = ⊥
Heard limit msg (w ∷ ws) rest =
    ((w ≡ said (line msg)) × (ws ≡ rest)) ⊎ (IsSkipped limit w × Heard limit msg ws rest)

-- What a judgement says of the line.
abbrev Explains : Inbound → Option (Answer Message) → Type 0
Explains l none = IsSkipped none (said l)
Explains l (some (got msg)) = l ≡ line msg
Explains l (some (failed f)) = Unit
Explains l (some pending) = Unit

process_line-Explains :
    (fails : ℕ → Bool) (label : String) (msg : Message) (p : Peer)
    → Explains (line msg) (judge label (process_line fails msg p).1)
unfolding process_line judge judge_message
process_line-Explains fails label resend p = asked p.replay_on_resend (replay fails p.last_sent p)
  where
    asked :
        (b : Bool) (q : Peer)
        → Explains (line resend) (
            judge label
              (if◌then◌else◌ {A = Peer × Processed} b (q, handled) (p, event resend_requested)).1)
    asked true q = tt
    asked false q = tt
process_line-Explains fails label log p = tt
process_line-Explains fails label progress p = tt
process_line-Explains fails label pong p = tt
process_line-Explains fails label (finished x) p = tt
process_line-Explains fails label ping p = refl
process_line-Explains fails label (schema x) p = refl
process_line-Explains fails label (parse_object x) p = refl
process_line-Explains fails label (cancel x) p = refl
process_line-Explains fails label (protocol_error x y) p = refl
process_line-Explains fails label (other x) p = refl
process_line-Explains fails label handshake p = refl
process_line-Explains fails label capabilities_request p = refl
process_line-Explains fails label ready p = refl
process_line-Explains fails label (handshake_ack x) p = refl
process_line-Explains fails label (set_protocol_version x) p = refl
process_line-Explains fails label (capabilities_response x) p = refl
process_line-Explains fails label (configure x y) p = refl
process_line-Explains fails label (configure_ack x) p = refl
process_line-Explains fails label (start x) p = refl
process_line-Explains fails label (credit x) p = refl

process-Explains :
    (fails : ℕ → Bool) (label : String) (l : Inbound) (p : Peer)
    → Explains l (judge label (process fails l p).1)
unfolding process judge
process-Explains fails label (line msg) p =
    process_line-Explains fails label msg (record p { malformed_streak = 0 })
process-Explains fails label (malformed reason) p =
    go (leb 2 (p.malformed_streak + 1))
      (send_raw fails resend (record p { malformed_streak = p.malformed_streak + 1 })).0
  where
    go :
        (b : Bool) (q : Peer)
        → Explains (malformed reason) (
            judge label
              (if◌then◌else◌ {A = Peer × Processed} b
                (record p { malformed_streak = p.malformed_streak + 1 }, malformed_twice reason)
                (q, handled)).1)
    go true q = tt
    go false q = tt
process-Explains fails label eof p = tt

skips : (limit : Option ℕ) (l : Inbound) → IsSkipped none (said l) → IsSkipped limit (said l)
skips limit (line msg) h = h
skips limit (malformed reason) h = h
skips limit eof h = h

recv_expect-Heard :
    (fails : ℕ → Bool) (label : String) (limit : Option ℕ) (ws : List Wait) (p : Peer)
    (msg : Message)
    → (recv_expect fails label limit ws p).1 ≡ got msg
    → Heard limit msg ws (recv_expect fails label limit ws p).0.coming
unfolding recv_expect Heard
recv_expect-Heard fails label limit [] p msg e = absurd (cc e)
recv_expect-Heard fails label limit (stopped h ∷ ws) p msg e = absurd (cc e)
recv_expect-Heard fails label none (overdue ∷ ws) p msg e =
    inr (refl, recv_expect-Heard fails label none ws p msg e)
recv_expect-Heard fails label (some seconds) (overdue ∷ ws) p msg e = absurd (cc e)
recv_expect-Heard fails label limit (said l ∷ ws) p msg e =
    go (process fails l p) (process-Explains fails label l p)
      (λ q. recv_expect-Heard fails label limit ws q msg) e
  where
    judged :
        (q : Peer) (o : Option (Answer Message))
        → Explains l o
        → ((q : Peer)
            → (recv_expect fails label limit ws q).1 ≡ got msg
            → Heard limit msg ws (recv_expect fails label limit ws q).0.coming)
        → let r = (elim o as (λ _. Talk × Answer Message) [
          | none ↦ recv_expect fails label limit ws q
          | some answer ↦ (record { peer = q; coming = ws }, answer)
        ]) in
          r.1 ≡ got msg
          → ((said l ≡ said (line msg)) × (ws ≡ r.0.coming))
            ⊎ (IsSkipped limit (said l) × Heard limit msg ws r.0.coming)
    judged q none h rec e = inr (skips limit l h, rec q e)
    judged q (some (got m)) h rec e = inl (ap said (h ∙ cc e), refl)
    judged q (some (failed f)) h rec e = absurd (cc e)
    judged q (some pending) h rec e = absurd (cc e)

    go :
        (r : Peer × Processed)
        → Explains l (judge label r.1)
        → ((q : Peer)
            → (recv_expect fails label limit ws q).1 ≡ got msg
            → Heard limit msg ws (recv_expect fails label limit ws q).0.coming)
        → let r = (elim (judge label r.1) as (λ _. Talk × Answer Message) [
          | none ↦ recv_expect fails label limit ws r.0
          | some answer ↦ (record { peer = r.0; coming = ws }, answer)
        ]) in
          r.1 ≡ got msg
          → ((said l ≡ said (line msg)) × (ws ≡ r.0.coming))
            ⊎ (IsSkipped limit (said l) × Heard limit msg ws r.0.coming)
    go (q, out) h rec = judged q (judge label out) h rec

pub hear-Heard :
    (fails : ℕ → Bool) (label : String) (limit : Option ℕ) (t : Talk) (msg : Message)
    → (hear fails label limit t).1 ≡ got msg
    → Heard limit msg t.coming (hear fails label limit t).0.coming
unfolding hear
hear-Heard fails label limit t msg e = recv_expect-Heard fails label limit t.coming t.peer msg e
