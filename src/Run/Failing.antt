-- ===== src/Run/Failing.antt =====
-- A failed step of a run (crates/loadsmith-core/src/peer.rs, `Failure`): the error, the plugin at
-- fault and the code that it is told. Of an error's text the part that does not vary is kept.
use loadsmith.Prelude.{String, Option, none, some}
use loadsmith.Exit.{CoreError, plugin_failed, plugin_process, protocol, timeout, core_interrupted}
use loadsmith.Shutdown.{Halt, signal, abort}
use loadsmith.ParserFeed.{
  source_failed, source_exited, source_malformed, channel_still_open, parser_failed, parser_early,
  parser_exited, no_schema, parser_malformed, parser_unexpected, halted as feed_halted,
}
use loadsmith.ParserFeed

pub record Failure : Type 0 where
  pub error : CoreError
  pub culprit : Option String
  pub code : Option String

abbrev pub new : CoreError → Failure
new error = record { error = error; culprit = none; code = none }

abbrev pub by : String → String → CoreError → Failure
by culprit code error = record { error = error; culprit = some culprit; code = some code }

abbrev pub of : String → CoreError → Failure
of culprit error = record { error = error; culprit = some culprit; code = none }

unfoldable pub halted : Halt → Failure
halted (signal sig) = new (core_interrupted sig)
halted (abort reason) = new (plugin_process "aborted")

-- `finished_failure`
abbrev pub finished_failure : String → Failure
finished_failure label = of label (plugin_failed "reported")

abbrev pub exited : String → Failure
exited label = of label (plugin_failed "exited without sending finished")

-- the failure of `Peer::process`
abbrev pub unreadable : String → Failure
unreadable label = by label "MALFORMED_MESSAGE" (protocol "two consecutive malformed control lines")

abbrev pub early_success : String → Failure
early_success label =
    by label "PROTOCOL_VIOLATION" (protocol "reported success before its input ended")

-- The failures of the feed of a parser.
unfoldable pub of_feed : ParserFeed.Failure → Failure
unfolding halted
of_feed source_failed = finished_failure "source"
of_feed source_exited = exited "source"
of_feed (source_malformed reason) = unreadable "source"
of_feed channel_still_open = by "source" "TIMEOUT" (timeout "its event channel is still open")
of_feed (feed_halted halt) = halted halt
of_feed parser_failed = finished_failure "parser"
of_feed parser_early = early_success "parser"
of_feed parser_exited = exited "parser"
of_feed no_schema = by "parser" "TIMEOUT" (timeout "no schema")
of_feed (parser_malformed reason) = unreadable "parser"
of_feed (parser_unexpected msg) = by "parser" "PROTOCOL_VIOLATION" (protocol "expected schema")
