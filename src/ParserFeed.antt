-- ===== src/ParserFeed.antt =====
-- The feed of a parser (crates/loadsmith-core/src/parser_feed.rs, `Feed`): the files of the raw
-- source go to the parser, and the parser's input ends once no more can come. `fails` says which
-- writes to the parser fail; the clock and the exit status of the source come with the events.
pub mod Handing
pub mod Schema
use loadsmith.Prelude.{
  ℕ, ◌+◌, String, Bool, true, false, not, ◌&&◌, ◌||◌, Option, none, some, List, [], ◌∷◌, leb,
  if◌then◌else◌,
}
use loadsmith.Peer.{
  Peer, Message, finished, parse_object, Inbound, Event, received, resend_requested, at_end,
  Processed, handled, event, malformed_twice, send, close_input, process,
}
use loadsmith.Shutdown.{Halt}
use loadsmith.SinkSupervisor.Delivery.{contains}

-- `objects` is the channel; `sent` is the set of the paths handed over, the latest in front.
pub record Feed : Type 0 where
  pub objects_open : Bool
  pub sent : List String
  pub finish_limit : Option ℕ
  pub closing_deadline : Option ℕ

-- What a function of the feed can see and change.
pub record Upstream : Type 0 where
  pub feed : Feed
  pub raw : Peer
  pub parser : Peer

-- One thing that happened upstream, at a time; `none` is the end of the path channel.
pub data FeedEvent : Type 0 where
  raw_line : Inbound → FeedEvent
  object : Option String → FeedEvent

pub data Failure : Type 0 where
  source_failed : Failure
  source_exited : Failure
  source_malformed : String → Failure
  channel_still_open : Failure
  halted : Halt → Failure
  parser_failed parser_early parser_exited no_schema : Failure
  parser_malformed : String → Failure
  parser_unexpected : Message → Failure

abbrev pub new : Option ℕ → Feed
new limit = record { objects_open = true; sent = []; finish_limit = limit; closing_deadline = none }

-- `Feed::raw_succeeded`
abbrev pub raw_succeeded : Peer → Bool
raw_succeeded raw = elim raw.finished_with [ none ↦ false | some success ↦ success ]

-- The arm of a path: a second announcement is dropped, and a failed write is left to fd1.
unfoldable pub take_path : (ℕ → Bool) → String → Upstream → Upstream
unfolding contains send
take_path fails path u = if contains u.feed.sent path then u else record u {
  feed = record u.feed { sent = path ∷ u.feed.sent };
  parser = (send fails (parse_object path) u.parser).0;
}

-- `limit.map(|d| now + d)`
abbrev pub deadline_of : ℕ → Option ℕ → Option ℕ
deadline_of now limit = elim limit [ none ↦ none | some d ↦ some (now + d) ]

-- The status of a `finished`.
unfoldable pub status_of : Message → Option Bool
status_of (finished success) = some success
status_of msg = none

-- the arm of a message
unfoldable pub take_message : ℕ → Upstream → Option Bool → Upstream × Option Failure
take_message now u none = (u, none)
take_message now u (some false) = (u, some source_failed)
take_message now u (some true) = (
  record u { feed = record u.feed { closing_deadline = deadline_of now u.feed.finish_limit } },
  none,
)

-- What the raw source's line was processed to.
unfoldable pub take_processed : ℕ → Upstream → Processed → Upstream × Option Failure
unfolding status_of take_message
take_processed now u (event (received msg)) = take_message now u (status_of msg)
take_processed now u (event at_end) =
    (u, elim u.raw.finished_with [ none ↦ some source_exited | some f ↦ none ])
take_processed now u (event resend_requested) = (u, none)
take_processed now u handled = (u, none)
take_processed now u (malformed_twice reason) = (u, some (source_malformed reason))

-- `Feed::handle`; a source's own input never fails a line, so its writes are given by `replies`.
unfoldable pub handle :
    (ℕ → Bool) → (ℕ → Bool) → ℕ → FeedEvent → Upstream → Upstream × Option Failure
unfolding take_path take_processed process
handle fails replies now (object (some path)) u = (take_path fails path u, none)
handle fails replies now (object none) u =
    (record u { feed = record u.feed { objects_open = false } }, none)
handle fails replies now (raw_line l) u =
    let (raw, out) = process replies l u.raw in take_processed now (record u { raw = raw }) out

-- `Feed::next` takes from the path channel only while it is open.
unfoldable pub handle_enabled :
    (ℕ → Bool) → (ℕ → Bool) → ℕ → FeedEvent → Upstream → Upstream × Option Failure
unfolding handle
handle_enabled fails replies now (raw_line l) u = handle fails replies now (raw_line l) u
handle_enabled fails replies now (object o) u =
    if u.feed.objects_open then handle fails replies now (object o) u else (u, none)

-- `Feed::maybe_end_input`
unfoldable pub maybe_end_input : Upstream → Upstream
unfolding close_input
maybe_end_input u =
    if u.parser.input_open && not u.feed.objects_open && raw_succeeded u.raw
    then record u { parser = close_input u.parser }
    else u

-- `Feed::overdue`
unfoldable pub overdue : ℕ → Feed → Option Failure
overdue now f = elim f.closing_deadline [
  | none ↦ none
  | some d ↦ if f.objects_open && leb d now then some channel_still_open else none
]

-- The part of the supervision of a run that is about the feed, one event of `Feed::next` after the
-- other with its time: the input is ended if it can be, then the event is handled. The lines of
-- the parser, which may ask for its last file again, and the other arms are left out here;
-- Run.DataPhase has them all.
unfoldable pub supervise :
    (ℕ → Bool) → (ℕ → Bool) → List (ℕ × FeedEvent) → Upstream → Upstream × Option Failure
unfolding maybe_end_input handle_enabled
supervise fails replies [] u = (maybe_end_input u, none)
supervise fails replies ((now, e) ∷ es) u =
    let (v, out) = handle_enabled fails replies now e (maybe_end_input u) in
    elim out [ none ↦ supervise fails replies es v | some f ↦ (v, some f) ]
