-- ===== src/Run/DataPhase/Ordering/Loop.antt =====
-- The loop of `supervise_data_phase` (crates/loadsmith-core/src/runner.rs) keeps the order in which the
-- plugins may report success.
use loadsmith.Prelude.{
  ℕ, ◌≡◌, refl, sym, subst, ap, ◌∙◌, inl, inr, Bool, true, false, not, ◌&&◌, ◌||◌, Option, none,
  some, List, [], ◌∷◌, if◌then◌else◌, arith,
}
use loadsmith.Exit.{timeout}
use loadsmith.Peer.{
  Peer, credit, send, process, received, resend_requested, at_end, Processed, handled, event,
  malformed_twice,
}
use loadsmith.Peer.Finishing.{Records, process-Records, process_keeps_input, send_keeps}
use loadsmith.ParserFeed
use loadsmith.ParserFeed.{Feed, Upstream, FeedEvent, maybe_end_input, handle_enabled, status_of}
use loadsmith.Run.Failing.{by, early_success, finished_failure}
use loadsmith.Run.DataPhase.{
  Arm, halt, commit_done, pump_done, producer_line, grant, grants_closed, upstream_event,
  destination_line, tick, Round, Setting, DataPhase, is_some, upstream_of, fail, end_input, head,
  is_over, take_commit, take_pump, take_destination_finished, take_destination, take_upstream,
  take_tick, take, supervise_data_phase, with_upstream, or_failure, watch_progress, watch_feed,
  watch_deadlines, feed_failure, is_past,
}
use loadsmith.Run.DataPhase.Arms.{Keeps, handle_enabled-Keeps}
use loadsmith.Run.DataPhase.Ordering.{
  IsOrdered, failed-IsOrdered, fail_if-IsOrdered, fail_unless-IsOrdered, or_failure-IsOrdered,
  moved-IsOrdered, take_commit-IsOrdered, take_pump-IsOrdered, end_input-IsOrdered,
  commit_point-IsOrdered, take_producer-IsOrdered,
}

module _ {B : Type 0} where
  -- A success that the destination reports before the end marker is on its way is a failure.
  take_destination_finished-IsOrdered :
      (p : DataPhase B) (dst : Peer)
      → IsOrdered p
      → IsOrdered (take_destination_finished (some true) (record p { dst = dst }))
  unfolding take_destination_finished
  take_destination_finished-IsOrdered p dst s = go (p.committed || p.commit) refl
    where
      go :
          (b : Bool)
          → (p.committed || p.commit) ≡ b
          → IsOrdered (
              if b
              then record p { dst = dst }
              else fail (early_success "destination") (record p { dst = dst }))
      go true e = record { reported = λ _ i. absurd (ground (arith, i, e)); parser = s.parser }
      go false e = failed-IsOrdered _ (record p { dst = dst })

  take_destination_keeps :
      (out : Processed) (p : DataPhase B) → IsOrdered p → IsOrdered (take_destination out p)
  unfolding take_destination take_destination_finished
  take_destination_keeps (malformed_twice reason) p s = failed-IsOrdered _ p
  take_destination_keeps (event (received msg)) p s = go (status_of msg)
    where
      go : (o : Option Bool) → IsOrdered (take_destination_finished o p)
      go none = s
      go (some false) = failed-IsOrdered _ p
      go (some true) = fail_unless-IsOrdered (p.committed || p.commit) _ p s
  take_destination_keeps (event at_end) p s =
      fail_unless-IsOrdered (is_some p.dst.finished_with) _ p s
  take_destination_keeps (event resend_requested) p s = s
  take_destination_keeps handled p s = s

  take_destination-IsOrdered :
      (p : DataPhase B) (r : Peer × Processed)
      → Records p.dst r
      → IsOrdered p
      → IsOrdered (take_destination r.1 (record p { dst = r.0 }))
  take_destination-IsOrdered p r (inl same) s =
      take_destination_keeps r.1 (record p { dst = r.0 })
        (record { reported = λ e i. same ∙ s.reported e i; parser = s.parser })
  take_destination-IsOrdered p r (inr (true, e, f)) s =
      subst (λ o. IsOrdered (take_destination o (record p { dst = r.0 }))) (sym e)
        (unfold take_destination status_of in take_destination_finished-IsOrdered p r.0 s)
  take_destination-IsOrdered p r (inr (false, e, f)) s =
      subst (λ o. IsOrdered (take_destination o (record p { dst = r.0 }))) (sym e)
        (unfold take_destination status_of take_destination_finished in
          failed-IsOrdered (finished_failure "destination") (record p { dst = r.0 }))

  fed_or_failed-IsOrdered :
      (feed : Feed) (raw : Peer) (p : DataPhase B)
      → p.upstream ≡ some (feed, raw)
      → IsOrdered p
      → (r : Upstream × Option ParserFeed.Failure) → Keeps (upstream_of feed raw p.src) r
      → IsOrdered (or_failure (feed_failure r.1) (with_upstream r.0 p))
  unfolding feed_failure
  fed_or_failed-IsOrdered feed raw p e s (u, some f) k = failed-IsOrdered _ (with_upstream u p)
  fed_or_failed-IsOrdered feed raw p e s (u, none) (_, i, f) =
      moved-IsOrdered (some (u.feed, u.raw)) u.parser p (λ _. ap is_some e) (λ o. sym i ∙ o) f s

  take_upstream-IsOrdered :
      (setting : Setting) (now : ℕ) (e : FeedEvent) (o : Option (Feed × Peer)) (p : DataPhase B)
      → p.upstream ≡ o
      → IsOrdered p
      → IsOrdered (take_upstream setting now e o p)
  unfolding take_upstream
  take_upstream-IsOrdered setting now e none p f s = s
  take_upstream-IsOrdered setting now e (some (feed, raw)) p f s =
      fed_or_failed-IsOrdered feed raw p f s
        (handle_enabled setting.producer_fails setting.raw_fails now e (upstream_of feed raw p.src))
        (handle_enabled-Keeps setting.producer_fails setting.raw_fails now e
          (upstream_of feed raw p.src))

  watch_progress-IsOrdered :
      (setting : Setting) (now batches : ℕ) (p : DataPhase B)
      → IsOrdered p
      → IsOrdered (watch_progress setting now batches p)
  unfolding watch_progress
  watch_progress-IsOrdered setting now batches p s = ground arith

  watch_feed-IsOrdered :
      (now : ℕ) (o : Option (Feed × Peer)) (p : DataPhase B)
      → IsOrdered p
      → IsOrdered (watch_feed now o p)
  unfolding watch_feed
  watch_feed-IsOrdered now none p s = s
  watch_feed-IsOrdered now (some (feed, raw)) p s =
      or_failure-IsOrdered (feed_failure (ParserFeed.overdue now feed)) p s

  watch_deadlines-IsOrdered :
      (setting : Setting) (now : ℕ) (p : DataPhase B)
      → IsOrdered p
      → IsOrdered (watch_deadlines setting now p)
  unfolding watch_deadlines
  watch_deadlines-IsOrdered setting now p s =
      let q =
        if not p.committed && is_past p.source_end_deadline now
        then fail (by setting.label "TIMEOUT" (timeout "did not complete after its data ended")) p
        else p in
      fail_if-IsOrdered (is_past p.finalize_deadline now) _ (watch_feed now p.upstream q) (
        watch_feed-IsOrdered now p.upstream q
          (fail_if-IsOrdered (not p.committed && is_past p.source_end_deadline now) _ p s))

  take_tick-IsOrdered :
      (setting : Setting) (now batches : ℕ) (p : DataPhase B)
      → IsOrdered p
      → IsOrdered (take_tick setting now batches p)
  unfolding take_tick
  take_tick-IsOrdered setting now batches p s =
      watch_deadlines-IsOrdered setting now _ (go (is_some p.pump_outcome))
    where
      go : (b : Bool) → IsOrdered (if b then p else watch_progress setting now batches p)
      go true = s
      go false = watch_progress-IsOrdered setting now batches p s

  pub take-IsOrdered :
      (setting : Setting) (now : ℕ) (arm : Arm B) (p : DataPhase B)
      → IsOrdered p
      → IsOrdered (take setting now arm p)
  unfolding take
  take-IsOrdered setting now (halt h) p s = failed-IsOrdered _ p
  take-IsOrdered setting now (commit_done end) p s = go p.commit refl
    where
      go : (b : Bool) → p.commit ≡ b → IsOrdered (if b then take_commit end p else p)
      go true e = take_commit-IsOrdered end p e s
      go false e = s
  take-IsOrdered setting now (pump_done end) p s = go (is_some p.pump_outcome)
    where
      go : (b : Bool) → IsOrdered (if b then p else take_pump setting now end p)
      go true = s
      go false = take_pump-IsOrdered setting now end p s
  take-IsOrdered setting now (producer_line l) p s =
      take_producer-IsOrdered setting now p (process setting.producer_fails l p.src)
        (process-Records setting.producer_fails l p.src)
        (process_keeps_input setting.producer_fails l p.src) s
  take-IsOrdered setting now (grant batch_seq) p s = go p.credits_open
    where
      go :
          (b : Bool)
          → IsOrdered (
              if b
              then record p { src = (send setting.producer_fails (credit batch_seq) p.src).0 }
              else p)
      go true =
          let k = send_keeps setting.producer_fails (credit batch_seq) p.src in
          moved-IsOrdered p.upstream _ p (λ u. u) (λ o. sym k.1 ∙ o) k.0 s
      go false = s
  take-IsOrdered setting now grants_closed p s = record { reported = s.reported; parser = s.parser }
  take-IsOrdered setting now (upstream_event e) p s =
      take_upstream-IsOrdered setting now e p.upstream p refl s
  take-IsOrdered setting now (destination_line l) p s =
      take_destination-IsOrdered p (process setting.destination_fails l p.dst)
        (process-Records setting.destination_fails l p.dst) s
  take-IsOrdered setting now (tick batches) p s = take_tick-IsOrdered setting now batches p s

  pub head-IsOrdered :
      (setting : Setting) (now : ℕ) (p : DataPhase B) → IsOrdered p → IsOrdered (head setting now p)
  unfolding head
  head-IsOrdered setting now p s =
      commit_point-IsOrdered setting now (end_input setting p.upstream p)
        (end_input-IsOrdered setting p.upstream p refl s)

  pub supervise_data_phase-IsOrdered :
      (setting : Setting) (rounds : List (Round B)) (p : DataPhase B)
      → IsOrdered p
      → IsOrdered (supervise_data_phase setting rounds p)
  unfolding supervise_data_phase
  supervise_data_phase-IsOrdered setting [] p s = s
  supervise_data_phase-IsOrdered setting (r ∷ rounds) p s =
      go (is_over (head setting r.began p)) (head-IsOrdered setting r.began p s) (λ s.
        supervise_data_phase-IsOrdered setting rounds _ (take-IsOrdered setting r.now r.arm _ s))
    where
      go :
          (b : Bool)
          → IsOrdered (head setting r.began p)
          → (IsOrdered (head setting r.began p)
              → IsOrdered (
                  supervise_data_phase setting rounds
                    (take setting r.now r.arm (head setting r.began p))))
          → IsOrdered (elim b as (λ _. DataPhase B) [
            | true ↦ head setting r.began p
            | false ↦
                supervise_data_phase setting rounds
                  (take setting r.now r.arm (head setting r.began p))
          ])
      go true s rec = s
      go false s rec = rec s
