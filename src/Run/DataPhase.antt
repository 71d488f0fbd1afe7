-- ===== src/Run/DataPhase.antt =====
-- The supervision of a running pipeline (crates/loadsmith-core/src/runner.rs,
-- `supervise_data_phase`). A round of its loop is the time at its head, the time of the arm of the
-- `select!` that is taken, and that arm. `B` is what is in a batch.
pub mod Data
pub mod Sound
pub mod Stepping
pub mod Arms
pub mod Ordering
pub mod Commit
pub mod Keeping
pub mod Delivered
pub mod Everything
pub mod Explaining
pub use Data.*
use loadsmith.Prelude.{
  ℕ, suc, ◌+◌, ◌-◌, String, Bool, true, false, not, ◌&&◌, ◌||◌, Option, none, some, List, [], ◌∷◌,
  ltb, leb, ◌==◌, if◌then◌else◌,
}
use loadsmith.Shutdown.{Halt}
use loadsmith.Exit.{plugin_failed, plugin_process, timeout, protocol}
use loadsmith.Pump.{PumpOutcome, PumpOutput, open_stream, closed}
use loadsmith.Peer.{
  Peer, Message, credit, Inbound, eof, Event, received, resend_requested, at_end, Processed,
  handled, event, malformed_twice, send, process,
}
use loadsmith.ParserFeed
use loadsmith.ParserFeed.{
  Feed, Upstream, FeedEvent, raw_succeeded, status_of, deadline_of, handle_enabled, maybe_end_input,
  overdue,
}
use loadsmith.Run.Failing.{
  Failure, new, by, of, halted, finished_failure, exited, unreadable, early_success, of_feed,
}
use loadsmith.Run.DataPhase.Explaining.{explain, source_failure}

-- `upstream_ok`, of the upstream and the producer
abbrev pub upstream_ok : Option (Feed × Peer) → Peer → Bool
upstream_ok none src = true
upstream_ok (some (feed, raw)) src = not src.input_open && raw_succeeded raw

-- `source_ok`
abbrev pub source_ok : Option (Feed × Peer) → Peer → Bool
source_ok upstream src = upstream_ok upstream src && has_succeeded src

-- a failure of the feed as one of the run
unfoldable pub feed_failure : Option ParserFeed.Failure → Option Failure
unfolding of_feed
feed_failure none = none
feed_failure (some f) = some (of_feed f)

module _ {B : Type 0} where
  -- A failure replaces the one before.
  abbrev pub fail : Failure → DataPhase B → DataPhase B
  fail f p = record p { failure = some f }

  abbrev pub with_upstream : Upstream → DataPhase B → DataPhase B
  with_upstream u p = record p { src = u.parser; upstream = some (u.feed, u.raw) }

  -- the head of the loop: the parser's input
  unfoldable pub end_input : Setting → Option (Feed × Peer) → DataPhase B → DataPhase B
  unfolding maybe_end_input
  end_input setting none p = p
  end_input setting (some (feed, raw)) p =
      if is_some p.failure
      then p
      else if p.src.input_open && has_succeeded p.src
      then fail (early_success setting.label) p
      else with_upstream (maybe_end_input (upstream_of feed raw p.src)) p

  -- The end marker is due: the destination's stream is taken, and the commit task spawned.
  unfoldable pub spawn_commit : Setting → ℕ → PumpOutcome B → DataPhase B → DataPhase B
  spawn_commit setting now out p =
      let taken = record out { final = record out.final { writer = closed } } in
      elim out.final.writer [
        | open_stream ↦ record p {
          pump_outcome = some taken;
          commit = true;
          commits = p.commits + 1;
          finalize_deadline = deadline_of now setting.finalize_limit;
        }
        | closed ↦
            fail (of "destination" (plugin_failed "the destination stopped reading its input")) p
      ]

  -- the commit point, where nothing has failed, nothing is committed and the producer succeeded
  unfoldable pub commit_clean : Setting → ℕ → Option (PumpOutcome B) → DataPhase B → DataPhase B
  unfolding spawn_commit
  commit_clean setting now none p = p
  commit_clean setting now (some out) p =
      if out.source_clean then spawn_commit setting now out p else p

  -- the head of the loop: the commit point
  unfoldable pub commit_point : Setting → ℕ → DataPhase B → DataPhase B
  unfolding commit_clean
  commit_point setting now p =
      if is_some p.failure || p.committed || p.commit || not (source_ok p.upstream p.src)
      then p
      else commit_clean setting now p.pump_outcome p

  unfoldable pub head : Setting → ℕ → DataPhase B → DataPhase B
  unfolding end_input commit_point
  head setting now p = commit_point setting now (end_input setting p.upstream p)

  -- the two `break`s
  abbrev pub is_over : DataPhase B → Bool
  is_over p = is_some p.failure || (p.committed && is_some p.dst.finished_with)

  unfoldable pub take_commit : CommitEnd → DataPhase B → DataPhase B
  take_commit input_ended p = record p { commit = false; committed = true }
  take_commit write_failed p =
      fail (of "destination" (plugin_failed "ending the destination's input failed"))
        (record p { commit = false })
  take_commit task_failed p =
      fail (new (plugin_process "commit task")) (record p { commit = false })

  unfoldable pub take_pump : Setting → ℕ → PumpEnd B → DataPhase B → DataPhase B
  unfolding explain source_failure
  take_pump setting now panicked p = fail (new (plugin_process "data pump panicked")) p
  take_pump setting now (pumped out lines) p =
      let src = explain setting.producer_fails lines p.src in
      let q = record p { pump_outcome = some out } in
      elim out.read_error [
        | some e ↦
            fail (source_failure setting.label "data stream is unreadable" src)
              (record q { src = src })
        | none ↦
            if not out.source_clean
            then fail (source_failure setting.label "data stream ended early" src)
                (record q { src = src })
            else if is_some p.src.finished_with
            then q
            else record q { source_end_deadline = deadline_of now setting.finish_limit }
      ]

  unfoldable pub take_finished : Setting → ℕ → Option Bool → DataPhase B → DataPhase B
  take_finished setting now none p = p
  take_finished setting now (some false) p = fail (finished_failure setting.label) p
  take_finished setting now (some true) p =
      if is_some p.upstream && p.src.input_open
      then fail (early_success setting.label) p
      else if is_some p.pump_outcome
      then p
      else record p { source_end_deadline = deadline_of now setting.finish_limit }

  -- what a line of the producer was processed to
  unfoldable pub take_producer : Setting → ℕ → Processed → DataPhase B → DataPhase B
  unfolding take_finished status_of
  take_producer setting now (malformed_twice reason) p = fail (unreadable setting.label) p
  take_producer setting now (event (received msg)) p = take_finished setting now (status_of msg) p
  take_producer setting now (event at_end) p =
      if is_some p.src.finished_with then p else fail (exited setting.label) p
  take_producer setting now (event resend_requested) p = p
  take_producer setting now handled p = p

  unfoldable pub take_destination_finished : Option Bool → DataPhase B → DataPhase B
  take_destination_finished none p = p
  take_destination_finished (some false) p = fail (finished_failure "destination") p
  take_destination_finished (some true) p =
      if p.committed || p.commit then p else fail (early_success "destination") p

  -- what a line of the destination was processed to
  unfoldable pub take_destination : Processed → DataPhase B → DataPhase B
  unfolding take_destination_finished status_of
  take_destination (malformed_twice reason) p = fail (unreadable "destination") p
  take_destination (event (received msg)) p = take_destination_finished (status_of msg) p
  take_destination (event at_end) p =
      if is_some p.dst.finished_with then p else fail (exited "destination") p
  take_destination (event resend_requested) p = p
  take_destination handled p = p

  abbrev pub or_failure : Option Failure → DataPhase B → DataPhase B
  or_failure none p = p
  or_failure (some f) p = fail f p

  unfoldable pub take_upstream :
      Setting → ℕ → FeedEvent → Option (Feed × Peer) → DataPhase B → DataPhase B
  unfolding handle_enabled feed_failure
  take_upstream setting now e none p = p
  take_upstream setting now e (some (feed, raw)) p =
      let (u, failed) =
        handle_enabled setting.producer_fails setting.raw_fails now e
          (upstream_of feed raw p.src) in
      or_failure (feed_failure failed) (with_upstream u p)

  -- the watch over the data plane
  unfoldable pub watch_progress : Setting → ℕ → ℕ → DataPhase B → DataPhase B
  watch_progress setting now batches p =
      let q =
        if batches == p.last_batches
        then p
        else record p { last_batches = batches; last_progress = now } in
      if batches == 0
      then (elim setting.first_batch_limit [
        | none ↦ q
        | some l ↦
            if leb l (now - setting.pump_started)
            then fail (new (timeout "no first batch")) q
            else q
      ])
      else elim setting.stall_limit [
        | none ↦ q
        | some l ↦
            if leb l (now - q.last_progress) then fail (new (timeout "data plane stalled")) q else q
      ]

  unfoldable pub watch_feed : ℕ → Option (Feed × Peer) → DataPhase B → DataPhase B
  unfolding overdue feed_failure
  watch_feed now none p = p
  watch_feed now (some (feed, raw)) p = or_failure (feed_failure (overdue now feed)) p

  unfoldable pub watch_deadlines : Setting → ℕ → DataPhase B → DataPhase B
  unfolding watch_feed
  watch_deadlines setting now p =
      let q =
        if not p.committed && is_past p.source_end_deadline now
        then fail (by setting.label "TIMEOUT" (timeout "did not complete after its data ended")) p
        else p in
      let r = watch_feed now p.upstream q in
      if is_past p.finalize_deadline now
      then fail (by "destination" "TIMEOUT" (timeout "no finished after its input ended")) r
      else r

  unfoldable pub take_tick : Setting → ℕ → ℕ → DataPhase B → DataPhase B
  unfolding watch_progress watch_deadlines
  take_tick setting now batches p =
      watch_deadlines setting now
        (if is_some p.pump_outcome then p else watch_progress setting now batches p)

  -- One arm of the `select!`; a disabled arm changes nothing.
  unfoldable pub take : Setting → ℕ → Arm B → DataPhase B → DataPhase B
  unfolding halted take_commit take_pump take_producer take_destination take_upstream take_tick
      process send
  take setting now (halt h) p = fail (halted h) p
  take setting now (commit_done end) p = if p.commit then take_commit end p else p
  take setting now (pump_done end) p =
      if is_some p.pump_outcome then p else take_pump setting now end p
  take setting now (producer_line l) p =
      let (src, out) = process setting.producer_fails l p.src in
      take_producer setting now out (record p { src = src })
  take setting now (grant batch_seq) p =
      if p.credits_open
      then record p { src = (send setting.producer_fails (credit batch_seq) p.src).0 }
      else p
  take setting now grants_closed p = record p { credits_open = false }
  take setting now (upstream_event e) p = take_upstream setting now e p.upstream p
  take setting now (destination_line l) p =
      let (dst, out) = process setting.destination_fails l p.dst in
      take_destination out (record p { dst = dst })
  take setting now (tick batches) p = take_tick setting now batches p

  -- `supervise_data_phase`, until it returns or the rounds end
  unfoldable pub supervise_data_phase : Setting → List (Round B) → DataPhase B → DataPhase B
  unfolding head take
  supervise_data_phase setting [] p = p
  supervise_data_phase setting (r ∷ rounds) p =
      let q = head setting r.began p in
      elim (is_over q) [
        | true ↦ q
        | false ↦ supervise_data_phase setting rounds (take setting r.now r.arm q)
      ]
