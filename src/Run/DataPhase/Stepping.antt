-- ===== src/Run/DataPhase/Stepping.antt =====
-- The arms of `supervise_data_phase` in crates/loadsmith-core/src/runner.rs keep its invariant.
use loadsmith.Prelude.{
  ℕ, ◌≡◌, ◌≢◌, sym, ap, subst, ◌∙◌, inl, inr, Bool, true, false, ◌||◌, Option, none, some,
  if◌then◌else◌,
}
use loadsmith.Peer.{
  Peer, received, resend_requested, at_end, Processed, handled, event, malformed_twice,
}
use loadsmith.Peer.Finishing.{Records}
use loadsmith.ParserFeed.{status_of}
use loadsmith.Run.Failing.{Failure, early_success, exited, finished_failure}
use loadsmith.Run.DataPhase.{
  Setting, DataPhase, is_some, has_succeeded, fail, take_finished, take_producer,
  take_destination_finished, take_destination,
}
use loadsmith.Run.DataPhase.Sound.{
  IsSound, fail-IsSound, take_finished-IsSound, source_ok_after, is_success,
}

module _ {B : Type 0} where
  -- A failure, whatever the producer has said.
  fail_producer-IsSound :
      (f : Failure) (src : Peer) (p : DataPhase B)
      → IsSound p
      → IsSound (fail f (record p { src = src }))
  fail_producer-IsSound f src p s = record {
    once = s.once;
    clean = s.clean;
    counted = s.counted;
    flying = λ e. absurd (cc e);
    source = λ e. absurd (cc e);
    unbroken = λ e. absurd (cc e);
    destination = λ e. absurd (cc e);
  }

  fail_destination-IsSound :
      (f : Failure) (dst : Peer) (p : DataPhase B)
      → IsSound p
      → IsSound (fail f (record p { dst = dst }))
  fail_destination-IsSound f dst p s = record {
    once = s.once;
    clean = s.clean;
    counted = s.counted;
    flying = λ e. absurd (cc e);
    source = λ e. absurd (cc e);
    unbroken = λ e. absurd (cc e);
    destination = λ e. absurd (cc e);
  }

  pub producer-IsSound :
      (src : Peer) (p : DataPhase B)
      → src.input_open ≡ p.src.input_open
      → (has_succeeded p.src ≡ true → has_succeeded src ≡ true)
      → IsSound p
      → IsSound (record p { src = src })
  producer-IsSound src p i h s = record {
    once = s.once;
    clean = s.clean;
    counted = s.counted;
    flying = s.flying;
    source = λ going sent. source_ok_after p.upstream p.src src i h (s.source going sent);
    unbroken = s.unbroken;
    destination = s.destination;
  }

  -- What a line leaves to the caller keeps the invariant.
  take_producer_keeps :
      (setting : Setting) (now : ℕ) (out : Processed) (p : DataPhase B)
      → IsSound p
      → IsSound (take_producer setting now out p)
  unfolding take_producer
  take_producer_keeps setting now (malformed_twice reason) p s = fail-IsSound _ p s
  take_producer_keeps setting now (event (received msg)) p s =
      take_finished-IsSound setting now (status_of msg) p s
  take_producer_keeps setting now (event at_end) p s = go (is_some p.src.finished_with)
    where
      go : (b : Bool) → IsSound (if b then p else fail (exited setting.label) p)
      go true = s
      go false = fail-IsSound _ p s
  take_producer_keeps setting now (event resend_requested) p s = s
  take_producer_keeps setting now handled p s = s

  pub take_producer-IsSound :
      (setting : Setting) (now : ℕ) (p : DataPhase B) (r : Peer × Processed)
      → Records p.src r
      → r.0.input_open ≡ p.src.input_open
      → IsSound p
      → IsSound (take_producer setting now r.1 (record p { src = r.0 }))
  take_producer-IsSound setting now p r (inl same) i s =
      take_producer_keeps setting now r.1 (record p { src = r.0 })
        (producer-IsSound r.0 p i (λ w. ap is_success same ∙ w) s)
  take_producer-IsSound setting now p r (inr (true, e, f)) i s =
      take_producer_keeps setting now r.1 (record p { src = r.0 })
        (producer-IsSound r.0 p i (λ w. ap is_success f) s)
  take_producer-IsSound setting now p r (inr (false, e, f)) i s =
      subst (λ o. IsSound (take_producer setting now o (record p { src = r.0 }))) (sym e)
        (unfold take_producer status_of take_finished in
          fail_producer-IsSound (finished_failure setting.label) r.0 p s)

  destination-IsSound :
      (dst : Peer) (p : DataPhase B)
      → (p.dst.finished_with ≢ some false → dst.finished_with ≢ some false)
      → IsSound p
      → IsSound (record p { dst = dst })
  destination-IsSound dst p h s = record {
    once = s.once;
    clean = s.clean;
    counted = s.counted;
    flying = s.flying;
    source = s.source;
    unbroken = s.unbroken;
    destination = λ going. h (s.destination going);
  }

  take_destination_keeps :
      (out : Processed) (p : DataPhase B) → IsSound p → IsSound (take_destination out p)
  unfolding take_destination
  take_destination_keeps (malformed_twice reason) p s = fail-IsSound _ p s
  take_destination_keeps (event (received msg)) p s = go (status_of msg)
    where
      or_early : (b : Bool) → IsSound (if b then p else fail (early_success "destination") p)
      or_early true = s
      or_early false = fail-IsSound _ p s

      go : (o : Option Bool) → IsSound (take_destination_finished o p)
      go none = unfold take_destination_finished in s
      go (some false) = unfold take_destination_finished in fail-IsSound _ p s
      go (some true) = unfold take_destination_finished in or_early (p.committed || p.commit)
  take_destination_keeps (event at_end) p s = go (is_some p.dst.finished_with)
    where
      go : (b : Bool) → IsSound (if b then p else fail (exited "destination") p)
      go true = s
      go false = fail-IsSound _ p s
  take_destination_keeps (event resend_requested) p s = s
  take_destination_keeps handled p s = s

  pub take_destination-IsSound :
      (p : DataPhase B) (r : Peer × Processed)
      → Records p.dst r
      → IsSound p
      → IsSound (take_destination r.1 (record p { dst = r.0 }))
  take_destination-IsSound p r (inl same) s =
      take_destination_keeps r.1 (record p { dst = r.0 })
        (destination-IsSound r.0 p (λ n e. n (sym same ∙ e)) s)
  take_destination-IsSound p r (inr (true, e, f)) s =
      take_destination_keeps r.1 (record p { dst = r.0 })
        (destination-IsSound r.0 p (λ n e'. cc (f, e')) s)
  take_destination-IsSound p r (inr (false, e, f)) s =
      subst (λ o. IsSound (take_destination o (record p { dst = r.0 }))) (sym e)
        (unfold take_destination status_of take_destination_finished in
          fail_destination-IsSound (finished_failure "destination") r.0 p s)
