-- ===== src/Tests/Control.antt =====
-- Concrete runs of a plugin's control channel, of the feed of a parser and of the exit codes
-- (crates/loadsmith-core/src/peer.rs and parser_feed.rs, crates/loadsmith-cli/src/exit.rs).
use loadsmith.ParserFeed.Schema.{Arm, upstream, parser_line, deadline, tick, await_parser_schema}
use loadsmith.ParserFeed.Schema.First.{IsPassing, schema_comes_first}
use loadsmith.Prelude.{
  ◌++◌, All, ℕ, ◌<◌, ◌≡◌, ◌↔◌, refl, Bool, true, false, none, some, List, [], ◌∷◌, map, leb, arith,
}
use loadsmith.Shutdown.{StopSignal, interrupt, exit_code}
use loadsmith.Exit.{Cause, untyped, core, core_interrupted, timeout, code, classify}
use loadsmith.Exit.Classes.{first_stop, classify_tells}
use loadsmith.Peer
use loadsmith.Peer.{
  Message, ping, log, pong, resend, finished, schema, parse_object, Inbound, line, malformed, eof,
  send, process,
}
use loadsmith.Peer.Transport.{
  process_all, is_well_formed, send_raws, process_all-is_well_formed, resend_replays,
}
use loadsmith.ParserFeed.{FeedEvent, raw_line, object, raw_succeeded, supervise}
use loadsmith.ParserFeed.Handing.{announced, fresh, parser_gets_every_file}

abbrev sound : ℕ → Bool
sound n = false

abbrev lines : List Inbound
lines = line log ∷ malformed "half" ∷ line pong ∷ malformed "x" ∷ eof ∷ malformed "y" ∷ []

process_all-is_well_formed_example :
    (process_all sound lines Peer.new).1 ≡ is_well_formed (leb 1 0) lines
process_all-is_well_formed_example = process_all-is_well_formed sound lines Peer.new (omega arith)

process_all_fails : (process_all sound lines Peer.new).1 ≡ false
process_all_fails = process_all-is_well_formed_example

resend_replays_example :
    (process sound
      (line resend)
      (send_raws sound (ping ∷ ping ∷ []) (send sound (schema "s") Peer.new).0)).0.sent
    ≡ schema "s" ∷ (send_raws sound (ping ∷ ping ∷ []) (send sound (schema "s") Peer.new).0).sent
resend_replays_example =
    resend_replays sound (schema "s") (ping ∷ ping ∷ []) Peer.new refl refl (λ i. refl)

abbrev upstream_events : List (ℕ × FeedEvent)
upstream_events =
    (1, object (some "a"))
    ∷ (2, object (some "b"))
    ∷ (3, object (some "a"))
    ∷ (4, raw_line (line (finished true)))
    ∷ (5, object none)
    ∷ (6, raw_line eof)
    ∷ []

parser_gets_every_file_example :
    let v = (supervise sound sound upstream_events (fresh (some 10))).0 in
    (v.parser.sent ≡ map parse_object (announced [] upstream_events))
    × ((v.parser.input_open ≡ false)
        ↔ ((v.feed.objects_open ≡ false) × (raw_succeeded v.raw ≡ true)))
unfolding supervise
parser_gets_every_file_example =
    parser_gets_every_file sound sound upstream_events (some 10) (λ i. refl) refl

abbrev causes : List Cause
causes = untyped ∷ core (core_interrupted interrupt) ∷ core (timeout "late") ∷ []

classify_tells_example :
    (0 < code (classify causes))
    × ((sig : StopSignal)
        → (code (classify causes) ≡ exit_code sig) ↔ (first_stop causes ≡ some sig))
classify_tells_example = classify_tells causes

interrupted_exit : code (classify causes) ≡ 130
unfolding code classify
interrupted_exit = refl

abbrev arms : List (ℕ × Arm)
arms =
    (1, upstream (object (some "a")))
    ∷ (2, parser_line (line log))
    ∷ (3, tick)
    ∷ (4, parser_line (line (schema "s")))
    ∷ (5, deadline)
    ∷ []

schema_comes_first_example :
    (before : List (ℕ × Arm)) × (now : ℕ) × (after : List (ℕ × Arm)) × (arms
      ≡ before ++ (now, parser_line (line (schema "s"))) ∷ after)
    × All (λ e. IsPassing e.1) before
unfolding await_parser_schema
schema_comes_first_example = schema_comes_first sound sound arms (fresh (some 10)) "s" refl
