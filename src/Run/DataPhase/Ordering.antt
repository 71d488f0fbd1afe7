-- ===== src/Run/DataPhase/Ordering.antt =====
-- The order in which the plugins may report success (crates/loadsmith-core/src/runner.rs,
-- `supervise_data_phase`).
pub mod Loop
use loadsmith.Prelude.{
  ℕ, ◌≡◌, ◌≢◌, refl, sym, subst, ap, ◌∙◌, inl, inr, Bool, true, false, not, ◌&&◌, ◌||◌, Option,
  none, some, List, [], ◌∷◌, if◌then◌else◌, arith,
}
use loadsmith.Exit.{timeout}
use loadsmith.Pump.{PumpOutcome}
use loadsmith.Peer.{
  Peer, credit, send, process, received, resend_requested, at_end, Processed, handled, event,
  malformed_twice, close_input,
}
use loadsmith.Peer.Finishing.{Records, process-Records, process_keeps_input, send_keeps}
use loadsmith.ParserFeed
use loadsmith.ParserFeed.{Feed, Upstream, FeedEvent, maybe_end_input, handle_enabled, status_of}
use loadsmith.Run.Failing.{Failure, by, early_success, finished_failure}
use loadsmith.Run.DataPhase.{
  Arm, halt, commit_done, pump_done, producer_line, grant, grants_closed, upstream_event,
  destination_line, tick, Round, Setting, DataPhase, CommitEnd, input_ended, write_failed,
  task_failed, PumpEnd, pumped, panicked, is_some, has_succeeded, source_ok, upstream_of, fail,
  end_input, head, is_over, spawn_commit, commit_clean, commit_point, take_commit, take_pump,
  take_finished, take_producer, take_destination_finished, take_destination, take_upstream,
  take_tick, take, supervise_data_phase, with_upstream, or_failure, watch_progress, watch_feed,
  watch_deadlines, feed_failure, is_past,
}
use loadsmith.Run.DataPhase.Arms.{Keeps, handle_enabled-Keeps}

-- A parser, which has a raw source in front of it, has not reported success before its input ended.
abbrev pub IsPatient : Option (Feed × Peer) → Peer → Type 0
IsPatient upstream src =
    is_some upstream ≡ true → src.input_open ≡ true → src.finished_with ≢ some true

maybe_end_input_moves :
    (feed : Feed) (raw src : Peer)
    → let u = maybe_end_input (upstream_of feed raw src) in
      (u.parser.input_open ≡ true → src.input_open ≡ true)
      × (u.parser.finished_with ≡ src.finished_with)
unfolding maybe_end_input close_input
maybe_end_input_moves feed raw src = (λ o. ground arith, ground arith)

module _ {B : Type 0} where
  -- While nothing has failed, the destination has reported nothing before the end marker is on its
  -- way, and a parser no success before its input ended.
  pub record IsOrdered (p : DataPhase B) : Type 0 where
    pub reported : p.failure ≡ none → (p.commit || p.committed) ≡ false → p.dst.finished_with ≡ none
    pub parser : p.failure ≡ none → IsPatient p.upstream p.src

  -- A failed state is ordered, whatever was said.
  pub failed-IsOrdered : (f : Failure) (p : DataPhase B) → IsOrdered (fail f p)
  failed-IsOrdered f p = record { reported = λ e. absurd (cc e); parser = λ e. absurd (cc e) }

  pub fail_if-IsOrdered :
      (b : Bool) (f : Failure) (p : DataPhase B)
      → IsOrdered p
      → IsOrdered (if b then fail f p else p)
  fail_if-IsOrdered true f p s = failed-IsOrdered f p
  fail_if-IsOrdered false f p s = s

  pub fail_unless-IsOrdered :
      (b : Bool) (f : Failure) (p : DataPhase B)
      → IsOrdered p
      → IsOrdered (if b then p else fail f p)
  fail_unless-IsOrdered true f p s = s
  fail_unless-IsOrdered false f p s = failed-IsOrdered f p

  pub or_failure-IsOrdered :
      (f : Option Failure) (p : DataPhase B) → IsOrdered p → IsOrdered (or_failure f p)
  or_failure-IsOrdered none p s = s
  or_failure-IsOrdered (some f) p s = failed-IsOrdered f p

  -- The producer, or the parser, and the feed move on without a word of success.
  pub moved-IsOrdered :
      (u : Option (Feed × Peer)) (src : Peer) (p : DataPhase B)
      → (is_some u ≡ true → is_some p.upstream ≡ true)
      → (src.input_open ≡ true → p.src.input_open ≡ true)
      → src.finished_with ≡ p.src.finished_with
      → IsOrdered p
      → IsOrdered (record p { src = src; upstream = u })
  moved-IsOrdered u src p o i f s = record {
    reported = s.reported;
    parser = λ e up open_ said. s.parser e (o up) (i open_) (sym f ∙ said);
  }

  pub take_commit-IsOrdered :
      (end : CommitEnd) (p : DataPhase B)
      → p.commit ≡ true
      → IsOrdered p
      → IsOrdered (take_commit end p)
  unfolding take_commit
  take_commit-IsOrdered input_ended p flying s = record {
    reported = λ e i. absurd (cc i);
    parser = s.parser;
  }
  take_commit-IsOrdered write_failed p flying s = failed-IsOrdered _ (record p { commit = false })
  take_commit-IsOrdered task_failed p flying s = failed-IsOrdered _ (record p { commit = false })

  pub take_pump-IsOrdered :
      (setting : Setting) (now : ℕ) (end : PumpEnd B) (p : DataPhase B)
      → IsOrdered p
      → IsOrdered (take_pump setting now end p)
  unfolding take_pump
  take_pump-IsOrdered setting now panicked p s = failed-IsOrdered _ p
  take_pump-IsOrdered setting now (pumped out lines) p s = ground arith

  pub end_input-IsOrdered :
      (setting : Setting) (u : Option (Feed × Peer)) (p : DataPhase B)
      → p.upstream ≡ u
      → IsOrdered p
      → IsOrdered (end_input setting u p)
  unfolding end_input
  end_input-IsOrdered setting none p e s = s
  end_input-IsOrdered setting (some (feed, raw)) p e s =
      go (is_some p.failure) (p.src.input_open && has_succeeded p.src)
    where
      go :
          (a b : Bool)
          → IsOrdered (
              if a
              then p
              else if b
              then fail (early_success setting.label) p
              else with_upstream (maybe_end_input (upstream_of feed raw p.src)) p)
      go true b = s
      go false true = failed-IsOrdered _ p
      go false false =
          moved-IsOrdered _ _ p (λ _. ap is_some e) (maybe_end_input_moves feed raw p.src).0
            (maybe_end_input_moves feed raw p.src).1 s

  spawn_commit-IsOrdered :
      (setting : Setting) (now : ℕ) (out : PumpOutcome B) (p : DataPhase B)
      → IsOrdered p
      → IsOrdered (spawn_commit setting now out p)
  unfolding spawn_commit
  spawn_commit-IsOrdered setting now out p s = ground arith

  pub commit_point-IsOrdered :
      (setting : Setting) (now : ℕ) (p : DataPhase B)
      → IsOrdered p
      → IsOrdered (commit_point setting now p)
  unfolding commit_point commit_clean
  commit_point-IsOrdered setting now p s =
      go (is_some p.failure || p.committed || p.commit || not (source_ok p.upstream p.src))
        p.pump_outcome
    where
      clean :
          (out : PumpOutcome B) (b : Bool)
          → IsOrdered (if b then spawn_commit setting now out p else p)
      clean out true = spawn_commit-IsOrdered setting now out p s
      clean out false = s

      go :
          (b : Bool) (o : Option (PumpOutcome B))
          → IsOrdered (if b then p else commit_clean setting now o p)
      go true o = s
      go false none = s
      go false (some out) = clean out out.source_clean

  take_finished-IsOrdered :
      (setting : Setting) (now : ℕ) (p : DataPhase B) (src : Peer)
      → src.finished_with ≡ some true
      → src.input_open ≡ p.src.input_open
      → IsOrdered p
      → IsOrdered (take_finished setting now (some true) (record p { src = src }))
  unfolding take_finished
  take_finished-IsOrdered setting now p src f i s = go (is_some p.upstream && src.input_open) refl
    where
      ended : (is_some p.upstream && src.input_open) ≡ false → IsOrdered (record p { src = src })
      ended e = record {
        reported = s.reported;
        parser = λ _ up open_. absurd (ground (arith, up, open_, e));
      }

      late :
          (b : Bool)
          → (is_some p.upstream && src.input_open) ≡ false
          → IsOrdered (
              if b then record p { src = src } else record p {
                src = src;
                source_end_deadline = ParserFeed.deadline_of now setting.finish_limit;
              })
      late true e = ended e
      late false e = record { reported = (ended e).reported; parser = (ended e).parser }

      go :
          (b : Bool)
          → (is_some p.upstream && src.input_open) ≡ b
          → IsOrdered (
              if b
              then fail (early_success setting.label) (record p { src = src })
              else if is_some p.pump_outcome
              then record p { src = src }
              else record p {
                src = src;
                source_end_deadline = ParserFeed.deadline_of now setting.finish_limit;
              })
      go true e = failed-IsOrdered _ (record p { src = src })
      go false e = late (is_some p.pump_outcome) e

  -- What a line leaves to the caller keeps the order, where it changed nothing of it.
  take_finished_keeps :
      (setting : Setting) (now : ℕ) (status : Option Bool) (p : DataPhase B)
      → IsOrdered p
      → IsOrdered (take_finished setting now status p)
  unfolding take_finished
  take_finished_keeps setting now none p s = s
  take_finished_keeps setting now (some false) p s = failed-IsOrdered _ p
  take_finished_keeps setting now (some true) p s = ground arith

  take_producer_keeps :
      (setting : Setting) (now : ℕ) (out : Processed) (p : DataPhase B)
      → IsOrdered p
      → IsOrdered (take_producer setting now out p)
  unfolding take_producer
  take_producer_keeps setting now (malformed_twice reason) p s = failed-IsOrdered _ p
  take_producer_keeps setting now (event (received msg)) p s =
      take_finished_keeps setting now (status_of msg) p s
  take_producer_keeps setting now (event at_end) p s =
      fail_unless-IsOrdered (is_some p.src.finished_with) _ p s
  take_producer_keeps setting now (event resend_requested) p s = s
  take_producer_keeps setting now handled p s = s

  pub take_producer-IsOrdered :
      (setting : Setting) (now : ℕ) (p : DataPhase B) (r : Peer × Processed)
      → Records p.src r
      → r.0.input_open ≡ p.src.input_open
      → IsOrdered p
      → IsOrdered (take_producer setting now r.1 (record p { src = r.0 }))
  take_producer-IsOrdered setting now p r (inl same) i s =
      take_producer_keeps setting now r.1 (record p { src = r.0 })
        (moved-IsOrdered p.upstream r.0 p (λ u. u) (λ o. sym i ∙ o) same s)
  take_producer-IsOrdered setting now p r (inr (true, e, f)) i s =
      subst (λ o. IsOrdered (take_producer setting now o (record p { src = r.0 }))) (sym e)
        (unfold take_producer status_of in take_finished-IsOrdered setting now p r.0 f i s)
  take_producer-IsOrdered setting now p r (inr (false, e, f)) i s =
      subst (λ o. IsOrdered (take_producer setting now o (record p { src = r.0 }))) (sym e)
        (unfold take_producer status_of take_finished in
          failed-IsOrdered (finished_failure setting.label) (record p { src = r.0 }))
