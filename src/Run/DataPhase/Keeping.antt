-- ===== src/Run/DataPhase/Keeping.antt =====
-- The arms of `supervise_data_phase` in crates/loadsmith-core/src/runner.rs that leave the outcome of
-- the pump as it is.
use loadsmith.Prelude.{
  ℕ, ◌≡◌, refl, ◌∙◌, Bool, true, false, not, ◌&&◌, Option, none, some, if◌then◌else◌, arith,
}
use loadsmith.Peer.{
  Peer, received, resend_requested, at_end, Processed, handled, event, malformed_twice,
}
use loadsmith.ParserFeed.{Feed, FeedEvent, status_of, maybe_end_input}
use loadsmith.Run.Failing.{Failure, early_success, by}
use loadsmith.Exit.{timeout}
use loadsmith.Run.DataPhase.{
  CommitEnd, input_ended, write_failed, task_failed, Setting, DataPhase, is_some, has_succeeded,
  upstream_of, fail, end_input, take_commit, take_finished, take_producer,
  take_destination_finished, take_destination, take_upstream, watch_progress, watch_feed,
  watch_deadlines, take_tick, with_upstream, or_failure, is_past,
}

module _ {B : Type 0} where
  -- What the commit point looks at of the pump is left as it is.
  abbrev pub IsSame : DataPhase B → DataPhase B → Type 0
  IsSame q p = (q.pump_outcome ≡ p.pump_outcome) × (q.commits ≡ p.commits)

  pub take_commit-IsSame :
      (end : CommitEnd) (p : DataPhase B) → IsSame (if p.commit then take_commit end p else p) p
  unfolding take_commit
  take_commit-IsSame input_ended p = (ground arith, ground arith)
  take_commit-IsSame write_failed p = (ground arith, ground arith)
  take_commit-IsSame task_failed p = (ground arith, ground arith)

  take_finished-IsSame :
      (setting : Setting) (now : ℕ) (s : Option Bool) (p : DataPhase B)
      → IsSame (take_finished setting now s p) p
  unfolding take_finished
  take_finished-IsSame setting now none p = (refl, refl)
  take_finished-IsSame setting now (some false) p = (refl, refl)
  take_finished-IsSame setting now (some true) p = (ground arith, ground arith)

  pub take_producer-IsSame :
      (setting : Setting) (now : ℕ) (out : Processed) (p : DataPhase B)
      → IsSame (take_producer setting now out p) p
  unfolding take_producer
  take_producer-IsSame setting now (malformed_twice reason) p = (refl, refl)
  take_producer-IsSame setting now (event (received msg)) p =
      take_finished-IsSame setting now (status_of msg) p
  take_producer-IsSame setting now (event at_end) p = (ground arith, ground arith)
  take_producer-IsSame setting now (event resend_requested) p = (refl, refl)
  take_producer-IsSame setting now handled p = (refl, refl)

  take_destination_finished-IsSame :
      (s : Option Bool) (p : DataPhase B) → IsSame (take_destination_finished s p) p
  unfolding take_destination_finished
  take_destination_finished-IsSame none p = (refl, refl)
  take_destination_finished-IsSame (some false) p = (refl, refl)
  take_destination_finished-IsSame (some true) p = (ground arith, ground arith)

  pub take_destination-IsSame :
      (out : Processed) (p : DataPhase B) → IsSame (take_destination out p) p
  unfolding take_destination
  take_destination-IsSame (malformed_twice reason) p = (refl, refl)
  take_destination-IsSame (event (received msg)) p =
      take_destination_finished-IsSame (status_of msg) p
  take_destination-IsSame (event at_end) p = (ground arith, ground arith)
  take_destination-IsSame (event resend_requested) p = (refl, refl)
  take_destination-IsSame handled p = (refl, refl)

  or_failure-IsSame : (f : Option Failure) (p : DataPhase B) → IsSame (or_failure f p) p
  or_failure-IsSame none p = (refl, refl)
  or_failure-IsSame (some f) p = (refl, refl)

  pub take_upstream-IsSame :
      (setting : Setting) (now : ℕ) (e : FeedEvent) (o : Option (Feed × Peer)) (p : DataPhase B)
      → IsSame (take_upstream setting now e o p) p
  unfolding take_upstream
  take_upstream-IsSame setting now e none p = (refl, refl)
  take_upstream-IsSame setting now e (some (feed, raw)) p = or_failure-IsSame _ (with_upstream _ p)

  watch_feed-IsSame :
      (now : ℕ) (o : Option (Feed × Peer)) (p : DataPhase B) → IsSame (watch_feed now o p) p
  unfolding watch_feed
  watch_feed-IsSame now none p = (refl, refl)
  watch_feed-IsSame now (some (feed, raw)) p = or_failure-IsSame _ p

  fail_if-IsSame : (b : Bool) (f : Failure) (p : DataPhase B) → IsSame (if b then fail f p else p) p
  fail_if-IsSame true f p = (refl, refl)
  fail_if-IsSame false f p = (refl, refl)

  watch_progress-IsSame :
      (setting : Setting) (now batches : ℕ) (p : DataPhase B)
      → IsSame (watch_progress setting now batches p) p
  unfolding watch_progress
  watch_progress-IsSame setting now batches p = (ground arith, ground arith)

  watch_deadlines-IsSame :
      (setting : Setting) (now : ℕ) (p : DataPhase B) → IsSame (watch_deadlines setting now p) p
  unfolding watch_deadlines
  watch_deadlines-IsSame setting now p =
      let q =
        if not p.committed && is_past p.source_end_deadline now
        then fail (by setting.label "TIMEOUT" (timeout "did not complete after its data ended")) p
        else p in
      let a =
        fail_if-IsSame (not p.committed && is_past p.source_end_deadline now)
          (by setting.label "TIMEOUT" (timeout "did not complete after its data ended")) p in
      let b = watch_feed-IsSame now p.upstream q in
      let c =
        fail_if-IsSame (is_past p.finalize_deadline now)
          (by "destination" "TIMEOUT" (timeout "no finished after its input ended"))
          (watch_feed now p.upstream q) in
      (c.0 ∙ b.0 ∙ a.0, c.1 ∙ b.1 ∙ a.1)

  pub take_tick-IsSame :
      (setting : Setting) (now batches : ℕ) (p : DataPhase B)
      → IsSame (take_tick setting now batches p) p
  unfolding take_tick
  take_tick-IsSame setting now batches p = go (is_some p.pump_outcome)
    where
      go :
          (b : Bool)
          → IsSame
              (watch_deadlines setting now (if b then p else watch_progress setting now batches p))
              p
      go true = watch_deadlines-IsSame setting now p
      go false =
          let a = watch_deadlines-IsSame setting now (watch_progress setting now batches p) in
          let b = watch_progress-IsSame setting now batches p in (a.0 ∙ b.0, a.1 ∙ b.1)

  pub end_input-IsSame :
      (setting : Setting) (o : Option (Feed × Peer)) (p : DataPhase B)
      → IsSame (end_input setting o p) p
  unfolding end_input
  end_input-IsSame setting none p = (refl, refl)
  end_input-IsSame setting (some (feed, raw)) p =
      go (is_some p.failure) (p.src.input_open && has_succeeded p.src)
    where
      go :
          (a b : Bool)
          → IsSame
              (if a
                then p
                else if b
                then fail (early_success setting.label) p
                else with_upstream (maybe_end_input (upstream_of feed raw p.src)) p)
              p
      go true b = (refl, refl)
      go false true = (refl, refl)
      go false false = (refl, refl)
