-- ===== src/ParserFeed/Schema/First.antt =====
-- What may come before the schema that crates/loadsmith-core/src/parser_feed.rs,
-- `await_parser_schema`, returns.
use loadsmith.Prelude.{
  if◌then◌else◌, leb, ◌+◌, ℕ, ◌≡◌, refl, ap, String, Bool, true, false, Option, none, some, List,
  [], ◌∷◌, ◌++◌, All,
}
use loadsmith.Peer.{
  Peer, Message, resend, log, progress, pong, ping, finished, schema, parse_object, cancel,
  protocol_error, other, handshake, capabilities_request, ready, handshake_ack,
  set_protocol_version, capabilities_response, configure, configure_ack, start, credit, line,
  malformed, eof, Processed, handled, event, resend_requested, process_line, process, replay,
  send_raw, malformed_twice,
}
use loadsmith.ParserFeed.{Upstream, Failure, handle_enabled, maybe_end_input, overdue}
use loadsmith.ParserFeed.Schema.{
  Arm, halt, parser_line, upstream, deadline, tick, Verdict, waiting, got, failed, of_message,
  of_processed, of_failure, take, await_parser_schema,
}

-- A message that the wait passes over.
abbrev IsPassed : Message → Type 0
IsPassed resend = Unit
IsPassed log = Unit
IsPassed progress = Unit
IsPassed pong = Unit
IsPassed msg = ⊥

-- An event that does not end the wait: no halt, no deadline, and from the parser no end of its
-- output and no message but these.
abbrev pub IsPassing : Arm → Type 0
IsPassing (parser_line (line msg)) = IsPassed msg
IsPassing (parser_line (malformed reason)) = Unit
IsPassing (parser_line eof) = ⊥
IsPassing (upstream e) = Unit
IsPassing tick = Unit
IsPassing deadline = ⊥
IsPassing (halt h) = ⊥

-- What a line that was no failure, or the schema, must have been.
abbrev Explains : Arm → Verdict → Type 0
Explains arm waiting = IsPassing arm
Explains arm (got s) = arm ≡ parser_line (line (schema s))
Explains arm (failed f) = Unit

of_failure-Explains : (arm : Arm) (f : Option Failure) → IsPassing arm → Explains arm (of_failure f)
unfolding of_failure
of_failure-Explains arm none h = h
of_failure-Explains arm (some f) h = tt

process_line-Explains :
    (fails : ℕ → Bool) (msg : Message) (p : Peer)
    → Explains (parser_line (line msg)) (of_processed (process_line fails msg p).1)
unfolding process_line of_processed of_message
process_line-Explains fails resend p = asked p.replay_on_resend (replay fails p.last_sent p)
  where
    asked :
        (b : Bool) (q : Peer)
        → Explains (parser_line (line resend)) (
            of_processed
              (if◌then◌else◌ {A = Peer × Processed} b (q, handled) (p, event resend_requested)).1)
    asked true q = tt
    asked false q = tt
process_line-Explains fails log p = tt
process_line-Explains fails progress p = tt
process_line-Explains fails pong p = tt
process_line-Explains fails ping p = tt
process_line-Explains fails (finished true) p = tt
process_line-Explains fails (finished false) p = tt
process_line-Explains fails (schema s) p = refl
process_line-Explains fails (parse_object x) p = tt
process_line-Explains fails (cancel x) p = tt
process_line-Explains fails (protocol_error x y) p = tt
process_line-Explains fails handshake p = tt
process_line-Explains fails capabilities_request p = tt
process_line-Explains fails ready p = tt
process_line-Explains fails (handshake_ack x) p = tt
process_line-Explains fails (set_protocol_version x) p = tt
process_line-Explains fails (capabilities_response x) p = tt
process_line-Explains fails (configure x y) p = tt
process_line-Explains fails (configure_ack x) p = tt
process_line-Explains fails (start x) p = tt
process_line-Explains fails (credit x) p = tt
process_line-Explains fails (other x) p = tt

take-Explains :
    (fails replies : ℕ → Bool) (now : ℕ) (arm : Arm) (u : Upstream)
    → Explains arm (take fails replies now arm u).1
unfolding take process of_processed
take-Explains fails replies now (halt h) u = tt
take-Explains fails replies now (parser_line (line msg)) u =
    process_line-Explains fails msg (record u.parser { malformed_streak = 0 })
take-Explains fails replies now (parser_line (malformed reason)) u =
    streak (leb 2 q.malformed_streak) (send_raw fails resend q).0
  where
    q : Peer
    q = record u.parser { malformed_streak = u.parser.malformed_streak + 1 }

    streak :
        (b : Bool) (p : Peer)
        → Explains (parser_line (malformed reason)) (
            of_processed
              (if◌then◌else◌ {A = Peer × Processed} b (q, malformed_twice reason) (p, handled)).1)
    streak true p = tt
    streak false p = tt
take-Explains fails replies now (parser_line eof) u = tt
take-Explains fails replies now (upstream e) u =
    of_failure-Explains (upstream e) (handle_enabled fails replies now e u).1 tt
take-Explains fails replies now deadline u = tt
take-Explains fails replies now tick u = of_failure-Explains tick (overdue now u.feed) tt

-- When the wait returns a schema, it is the parser's first message but for logs, progress, pongs and
-- requests to resend, and neither a halt, the deadline nor the end of the parser's output came
-- before it.
pub schema_comes_first :
    (fails replies : ℕ → Bool) (arms : List (ℕ × Arm)) (u : Upstream) (s : String)
    → (await_parser_schema fails replies arms u).1 ≡ got s
    → (before : List (ℕ × Arm)) × (now : ℕ) × (after : List (ℕ × Arm)) × (arms
        ≡ before ++ (now, parser_line (line (schema s))) ∷ after)
      × All (λ e. IsPassing e.1) before
unfolding await_parser_schema
schema_comes_first fails replies [] u s = λ e. absurd (cc e)
schema_comes_first fails replies ((now, arm) ∷ arms) u s =
    go (take fails replies now arm (maybe_end_input u))
      (take-Explains fails replies now arm (maybe_end_input u))
      (λ v. schema_comes_first fails replies arms v s)
  where
    Split : List (ℕ × Arm) → Type 0
    Split xs =
        (before : List (ℕ × Arm)) × (now : ℕ) × (after : List (ℕ × Arm)) × (xs
          ≡ before ++ (now, parser_line (line (schema s))) ∷ after)
        × All (λ e. IsPassing e.1) before

    go :
        (r : Upstream × Verdict)
        → Explains arm r.1
        → ((v : Upstream) → (await_parser_schema fails replies arms v).1 ≡ got s → Split arms)
        → (elim r.1 as (λ _. Upstream × Verdict) [
          | waiting ↦ await_parser_schema fails replies arms r.0
          | got t ↦ (r.0, got t)
          | failed f ↦ (r.0, failed f)
        ]).1
          ≡ got s
        → Split ((now, arm) ∷ arms)
    go (v, waiting) h rec e =
        let (before, at, after, same, all) = rec v e in
        ((now, arm) ∷ before, at, after, ap (λ xs. (now, arm) ∷ xs) same, (h, all))
    go (v, got t) h rec e = ([], now, arms, cc (h, e), tt)
    go (v, failed f) h rec e = absurd (cc e)
