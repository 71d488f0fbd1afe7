-- ===== src/ParserFeed/Schema.antt =====
-- The wait for a parser's schema (crates/loadsmith-core/src/parser_feed.rs, `await_parser_schema`),
-- during which the parser is fed. The arms of the `select!` come as a list of timed events, in the
-- order in which they are taken; `fails` and `replies` say which writes to the parser and to the
-- raw source fail.
pub mod First
use loadsmith.Prelude.{ℕ, String, Bool, true, false, Option, none, some, List, [], ◌∷◌}
use loadsmith.Shutdown.{Halt}
use loadsmith.Peer.{
  Message, log, progress, pong, finished, schema, Inbound, received, resend_requested, at_end,
  Processed, handled, event, malformed_twice, process,
}
use loadsmith.ParserFeed.{
  Upstream, FeedEvent, Failure, halted, parser_failed, parser_early, parser_exited, no_schema,
  parser_malformed, parser_unexpected, handle_enabled, maybe_end_input, overdue,
}

pub data Arm : Type 0 where
  halt : Halt → Arm
  parser_line : Inbound → Arm
  upstream : FeedEvent → Arm
  deadline tick : Arm

pub data Verdict : Type 0 where
  waiting : Verdict
  got : String → Verdict
  failed : Failure → Verdict

unfoldable pub of_message : Message → Verdict
of_message (schema s) = got s
of_message (finished true) = failed parser_early
of_message (finished false) = failed parser_failed
of_message log = waiting
of_message progress = waiting
of_message pong = waiting
of_message msg = failed (parser_unexpected msg)

unfoldable pub of_processed : Processed → Verdict
unfolding of_message
of_processed (event (received msg)) = of_message msg
of_processed (event at_end) = failed parser_exited
of_processed (event resend_requested) = waiting
of_processed handled = waiting
of_processed (malformed_twice reason) = failed (parser_malformed reason)

unfoldable pub of_failure : Option Failure → Verdict
of_failure none = waiting
of_failure (some f) = failed f

unfoldable pub take : (ℕ → Bool) → (ℕ → Bool) → ℕ → Arm → Upstream → Upstream × Verdict
unfolding of_processed of_failure process handle_enabled overdue
take fails replies now (halt h) u = (u, failed (halted h))
take fails replies now (parser_line l) u =
    let (p, out) = process fails l u.parser in (record u { parser = p }, of_processed out)
take fails replies now (upstream e) u =
    let (v, failure) = handle_enabled fails replies now e u in (v, of_failure failure)
take fails replies now deadline u = (u, failed no_schema)
take fails replies now tick u = (u, of_failure (overdue now u.feed))

-- `await_parser_schema`, until it returns or the events end
unfoldable pub await_parser_schema :
    (ℕ → Bool) → (ℕ → Bool) → List (ℕ × Arm) → Upstream → Upstream × Verdict
unfolding take maybe_end_input
await_parser_schema fails replies [] u = (maybe_end_input u, waiting)
await_parser_schema fails replies ((now, arm) ∷ arms) u =
    let (v, verdict) = take fails replies now arm (maybe_end_input u) in
    elim verdict [
      | waiting ↦ await_parser_schema fails replies arms v
      | got s ↦ (v, got s)
      | failed f ↦ (v, failed f)
    ]
