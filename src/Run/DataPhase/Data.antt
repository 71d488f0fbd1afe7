-- ===== src/Run/DataPhase/Data.antt =====
-- The data of `supervise_data_phase` in crates/loadsmith-core/src/runner.rs: what happens to it, what
-- does not change, and its variables.
use loadsmith.Prelude.{
  ℕ, String, Bool, true, false, Option, none, some, List, ltb, leb, if◌then◌else◌,
}
use loadsmith.Shutdown.{Halt}
use loadsmith.Pump.{PumpOutcome}
use loadsmith.Peer.{Peer, Inbound}
use loadsmith.ParserFeed.{Feed, Upstream, FeedEvent, raw_succeeded}
use loadsmith.Run.Failing.{Failure}

-- How the commit task ends.
pub data CommitEnd : Type 0 where
  input_ended : CommitEnd
  write_failed : CommitEnd
  task_failed : CommitEnd

-- How the pump's thread ends; `lines` are what the producer says in the moment that it is given to
-- explain a broken stream.
pub data PumpEnd (B : Type 0) : Type 0 where
  pumped : PumpOutcome B → List Inbound → PumpEnd B
  panicked : PumpEnd B

-- The arms of the `select!`; a tick carries the number of batches read so far.
pub data Arm (B : Type 0) : Type 0 where
  halt : Halt → Arm B
  commit_done : CommitEnd → Arm B
  pump_done : PumpEnd B → Arm B
  producer_line : Inbound → Arm B
  grant : ℕ → Arm B
  grants_closed : Arm B
  upstream_event : FeedEvent → Arm B
  destination_line : Inbound → Arm B
  tick : ℕ → Arm B

pub record Round (B : Type 0) : Type 0 where
  pub began : ℕ
  pub now : ℕ
  pub arm : Arm B

-- What does not change: which writes to the plugins fail, by their number, the label of the
-- producer, the time limits, and the time at which the pump started.
pub record Setting : Type 0 where
  pub producer_fails : ℕ → Bool
  pub raw_fails : ℕ → Bool
  pub destination_fails : ℕ → Bool
  pub label : String
  pub finish_limit : Option ℕ
  pub finalize_limit : Option ℕ
  pub stall_limit : Option ℕ
  pub first_batch_limit : Option ℕ
  pub pump_started : ℕ

-- The variables of `supervise_data_phase`. `upstream` is the feed and the raw source of a parser,
-- `commit` whether the commit task is in flight; `commits` counts the tasks spawned.
pub record DataPhase (B : Type 0) : Type 0 where
  pub src : Peer
  pub upstream : Option (Feed × Peer)
  pub dst : Peer
  pub failure : Option Failure
  pub pump_outcome : Option (PumpOutcome B)
  pub commit : Bool
  pub committed : Bool
  pub commits : ℕ
  pub credits_open : Bool
  pub last_batches : ℕ
  pub last_progress : ℕ
  pub source_end_deadline : Option ℕ
  pub finalize_deadline : Option ℕ

-- `Timeouts::limit`
unfoldable pub limit : ℕ → Option ℕ
limit seconds = if ltb 0 seconds then some seconds else none

abbrev pub is_some {ℓ} : {A : Type ℓ} → Option A → Bool
is_some none = false
is_some (some a) = true

-- `peer.finished().is_some_and(|f| f.status == FinishedStatus::Success)`
abbrev pub has_succeeded : Peer → Bool
has_succeeded p = raw_succeeded p

-- `deadline.is_some_and(|d| now >= d)`
abbrev pub is_past : Option ℕ → ℕ → Bool
is_past none now = false
is_past (some d) now = leb d now

-- The parser, the raw source and the feed, as the feed's functions take them.
abbrev pub upstream_of : Feed → Peer → Peer → Upstream
upstream_of feed raw src = record { feed = feed; raw = raw; parser = src }
