-- ===== src/Run/DataPhase/Arms.antt =====
-- The whole loop of `supervise_data_phase` in crates/loadsmith-core/src/runner.rs keeps its invariant.
use loadsmith.Prelude.{
  ℕ, ◌≡◌, refl, ap, ◌∙◌, String, Bool, true, false, not, ◌&&◌, Option, none, some, List, [], ◌∷◌,
  if◌then◌else◌, arith,
}
use loadsmith.Pump.{PumpOutcome}
use loadsmith.Peer.{Peer, credit, send, process}
use loadsmith.Peer.Finishing.{process-Records, process_keeps_input, send_keeps}
use loadsmith.ParserFeed.{Feed, Upstream, raw_succeeded, status_of, handle_enabled, maybe_end_input}
use loadsmith.Run.Failing.{Failure}
use loadsmith.Run.DataPhase.{
  Arm, halt, commit_done, pump_done, producer_line, grant, grants_closed, upstream_event,
  destination_line, tick, Round, Setting, DataPhase, is_some, upstream_of, fail, end_input, head,
  is_over, take_commit, take_pump, take_upstream, take_tick, take, supervise_data_phase,
  with_upstream, or_failure,
}
use loadsmith.ParserFeed.{FeedEvent, raw_line, object, take_processed, take_path}
use loadsmith.ParserFeed.Handing.{take_processed-IsSame, raw_succeeded_after}
use loadsmith.Run.DataPhase.{watch_progress, watch_feed, watch_deadlines, feed_failure, is_past}
use loadsmith.Run.DataPhase.Sound.{
  IsSound, fail-IsSound, take_commit-IsSound, take_pump-IsSound, fed-IsSound, end_input-IsSound,
  commit_point-IsSound, is_success,
}
use loadsmith.Run.DataPhase.Stepping.{
  producer-IsSound, take_producer-IsSound, take_destination-IsSound,
}
use loadsmith.ParserFeed
use loadsmith.Run.Failing.{by}
use loadsmith.Exit.{timeout}
use loadsmith.Peer.{parse_object}
use loadsmith.SinkSupervisor.Delivery.{contains}
use loadsmith.ParserFeed.{handle}

-- What an event of the feed leaves: a source that succeeded, unless it failed, and the parser's
-- input and its last word.
abbrev pub Keeps : Upstream → Upstream × Option ParserFeed.Failure → Type 0
Keeps u r =
    (r.1 ≡ none → raw_succeeded u.raw ≡ true → raw_succeeded r.0.raw ≡ true)
    × (r.0.parser.input_open ≡ u.parser.input_open)
    × (r.0.parser.finished_with ≡ u.parser.finished_with)

take_path-Keeps :
    (fails : ℕ → Bool) (path : String) (u : Upstream) → Keeps u (take_path fails path u, none)
unfolding take_path contains
take_path-Keeps fails path u =
    go (contains u.feed.sent path) (send_keeps fails (parse_object path) u.parser)
  where
    go :
        (b : Bool)
        → ((send fails (parse_object path) u.parser).0.finished_with ≡ u.parser.finished_with)
          × ((send fails (parse_object path) u.parser).0.input_open ≡ u.parser.input_open)
        → Keeps u (
          if b then u else record u {
            feed = record u.feed { sent = path ∷ u.feed.sent };
            parser = (send fails (parse_object path) u.parser).0;
          },
          none,
        )
    go true k = (λ _ w. w, refl, refl)
    go false (f, i) = (λ _ w. w, i, f)

pub handle_enabled-Keeps :
    (fails replies : ℕ → Bool) (now : ℕ) (e : FeedEvent) (u : Upstream)
    → Keeps u (handle_enabled fails replies now e u)
unfolding handle_enabled handle
handle_enabled-Keeps fails replies now (raw_line l) u =
    let r = process replies l u.raw in
    let same = take_processed-IsSame now (record u { raw = r.0 }) r.1 in
    (
      λ ok was.
          ap raw_succeeded same.1
          ∙ raw_succeeded_after now u u.raw r (process-Records replies l u.raw) was ok,
      ap (λ q. q.input_open) same.0,
      ap (λ q. q.finished_with) same.0,
    )
handle_enabled-Keeps fails replies now (object none) u = go u.feed.objects_open
  where
    go :
        (b : Bool)
        → Keeps u (
            if b
            then (record u { feed = record u.feed { objects_open = false } }, none)
            else (u, none))
    go true = (λ _ w. w, refl, refl)
    go false = (λ _ w. w, refl, refl)
handle_enabled-Keeps fails replies now (object (some path)) u = go u.feed.objects_open
  where
    go : (b : Bool) → Keeps u (if b then (take_path fails path u, none) else (u, none))
    go true = take_path-Keeps fails path u
    go false = (λ _ w. w, refl, refl)

module _ {B : Type 0} where
  or_failure-IsSound : (f : Option Failure) (p : DataPhase B) → IsSound p → IsSound (or_failure f p)
  or_failure-IsSound none p s = s
  or_failure-IsSound (some f) p s = fail-IsSound f p s

  fail_feed-IsSound :
      (f : Failure) (u : Upstream) (p : DataPhase B)
      → IsSound p
      → IsSound (fail f (with_upstream u p))
  fail_feed-IsSound f u p s = record {
    once = s.once;
    clean = s.clean;
    counted = s.counted;
    flying = λ e. absurd (cc e);
    source = λ e. absurd (cc e);
    unbroken = λ e. absurd (cc e);
    destination = λ e. absurd (cc e);
  }

  -- What a function of the feed leaves, and with which failure.
  fed_or_failed-IsSound :
      (feed : Feed) (raw : Peer) (p : DataPhase B)
      → p.upstream ≡ some (feed, raw)
      → IsSound p
      → (r : Upstream × Option ParserFeed.Failure)
      → (r.1 ≡ none → raw_succeeded raw ≡ true → raw_succeeded r.0.raw ≡ true)
      → (r.0.parser.input_open ≡ p.src.input_open)
      → (r.0.parser.finished_with ≡ p.src.finished_with)
      → IsSound (or_failure (feed_failure r.1) (with_upstream r.0 p))
  unfolding feed_failure
  fed_or_failed-IsSound feed raw p e s (u, some f) r i h = fail_feed-IsSound _ u p s
  fed_or_failed-IsSound feed raw p e s (u, none) r i h =
      fed-IsSound feed raw p e s u (r refl) (λ w. i ∙ w) (λ w. ap is_success h ∙ w)

  take_upstream-IsSound :
      (setting : Setting) (now : ℕ) (e : FeedEvent) (o : Option (Feed × Peer)) (p : DataPhase B)
      → p.upstream ≡ o
      → IsSound p
      → IsSound (take_upstream setting now e o p)
  unfolding take_upstream
  take_upstream-IsSound setting now e none p f s = s
  take_upstream-IsSound setting now e (some (feed, raw)) p f s =
      let k =
        handle_enabled-Keeps setting.producer_fails setting.raw_fails now e
          (upstream_of feed raw p.src) in
      fed_or_failed-IsSound feed raw p f s
        (handle_enabled setting.producer_fails setting.raw_fails now e (upstream_of feed raw p.src))
        k.0 k.1 k.2

  watch_progress-IsSound :
      (setting : Setting) (now batches : ℕ) (p : DataPhase B)
      → IsSound p
      → IsSound (watch_progress setting now batches p)
  unfolding watch_progress
  watch_progress-IsSound setting now batches p s = ground arith

  watch_feed-IsSound :
      (now : ℕ) (o : Option (Feed × Peer)) (p : DataPhase B)
      → IsSound p
      → IsSound (watch_feed now o p)
  unfolding watch_feed
  watch_feed-IsSound now none p s = s
  watch_feed-IsSound now (some (feed, raw)) p s =
      or_failure-IsSound (feed_failure (ParserFeed.overdue now feed)) p s

  -- A failure where a test says so.
  fail_if-IsSound :
      (b : Bool) (f : Failure) (p : DataPhase B) → IsSound p → IsSound (if b then fail f p else p)
  fail_if-IsSound true f p s = fail-IsSound f p s
  fail_if-IsSound false f p s = s

  fail_unless-IsSound :
      (b : Bool) (f : Failure) (p : DataPhase B) → IsSound p → IsSound (if b then p else fail f p)
  fail_unless-IsSound true f p s = s
  fail_unless-IsSound false f p s = fail-IsSound f p s

  watch_deadlines-IsSound :
      (setting : Setting) (now : ℕ) (p : DataPhase B)
      → IsSound p
      → IsSound (watch_deadlines setting now p)
  unfolding watch_deadlines
  watch_deadlines-IsSound setting now p s =
      let q =
        if not p.committed && is_past p.source_end_deadline now
        then fail (by setting.label "TIMEOUT" (timeout "did not complete after its data ended")) p
        else p in
      let sound = fail_if-IsSound (not p.committed && is_past p.source_end_deadline now) _ p s in
      fail_if-IsSound (is_past p.finalize_deadline now) _ (watch_feed now p.upstream q)
        (watch_feed-IsSound now p.upstream q sound)

  take_tick-IsSound :
      (setting : Setting) (now batches : ℕ) (p : DataPhase B)
      → IsSound p
      → IsSound (take_tick setting now batches p)
  unfolding take_tick
  take_tick-IsSound setting now batches p s =
      watch_deadlines-IsSound setting now _ (go (is_some p.pump_outcome))
    where
      go : (b : Bool) → IsSound (if b then p else watch_progress setting now batches p)
      go true = s
      go false = watch_progress-IsSound setting now batches p s

  no_pump : (o : Option (PumpOutcome B)) → is_some o ≡ false → o ≡ none
  no_pump none e = refl
  no_pump (some out) e = absurd (cc e)

  pub take-IsSound :
      (setting : Setting) (now : ℕ) (arm : Arm B) (p : DataPhase B)
      → IsSound p
      → IsSound (take setting now arm p)
  unfolding take
  take-IsSound setting now (halt h) p s = fail-IsSound _ p s
  take-IsSound setting now (commit_done end) p s = go p.commit refl
    where
      go : (b : Bool) → p.commit ≡ b → IsSound (if b then take_commit end p else p)
      go true e = take_commit-IsSound end p e s
      go false e = s
  take-IsSound setting now (pump_done end) p s = go (is_some p.pump_outcome) refl
    where
      go :
          (b : Bool)
          → is_some p.pump_outcome ≡ b
          → IsSound (if b then p else take_pump setting now end p)
      go true e = s
      go false e = take_pump-IsSound setting now end p (no_pump p.pump_outcome e) s
  take-IsSound setting now (producer_line l) p s =
      take_producer-IsSound setting now p (process setting.producer_fails l p.src)
        (process-Records setting.producer_fails l p.src)
        (process_keeps_input setting.producer_fails l p.src) s
  take-IsSound setting now (grant batch_seq) p s = go p.credits_open
    where
      go :
          (b : Bool)
          → IsSound (
              if b
              then record p { src = (send setting.producer_fails (credit batch_seq) p.src).0 }
              else p)
      go true =
          let k = send_keeps setting.producer_fails (credit batch_seq) p.src in
          producer-IsSound _ p k.1 (λ w. ap is_success k.0 ∙ w) s
      go false = s
  take-IsSound setting now grants_closed p s = record {
    once = s.once;
    clean = s.clean;
    counted = s.counted;
    flying = s.flying;
    source = s.source;
    unbroken = s.unbroken;
    destination = s.destination;
  }
  take-IsSound setting now (upstream_event e) p s =
      take_upstream-IsSound setting now e p.upstream p refl s
  take-IsSound setting now (destination_line l) p s =
      take_destination-IsSound p (process setting.destination_fails l p.dst)
        (process-Records setting.destination_fails l p.dst) s
  take-IsSound setting now (tick batches) p s = take_tick-IsSound setting now batches p s

  pub head-IsSound :
      (setting : Setting) (now : ℕ) (p : DataPhase B) → IsSound p → IsSound (head setting now p)
  unfolding head
  head-IsSound setting now p s =
      commit_point-IsSound setting now (end_input setting p.upstream p)
        (end_input-IsSound setting p.upstream p refl s)

  pub supervise_data_phase-IsSound :
      (setting : Setting) (rounds : List (Round B)) (p : DataPhase B)
      → IsSound p
      → IsSound (supervise_data_phase setting rounds p)
  unfolding supervise_data_phase
  supervise_data_phase-IsSound setting [] p s = s
  supervise_data_phase-IsSound setting (r ∷ rounds) p s =
      go (is_over (head setting r.began p)) (head-IsSound setting r.began p s)
        (λ s. supervise_data_phase-IsSound setting rounds _ (take-IsSound setting r.now r.arm _ s))
    where
      go :
          (b : Bool)
          → IsSound (head setting r.began p)
          → (IsSound (head setting r.began p)
              → IsSound (
                  supervise_data_phase setting rounds
                    (take setting r.now r.arm (head setting r.began p))))
          → IsSound (elim b as (λ _. DataPhase B) [
            | true ↦ head setting r.began p
            | false ↦
                supervise_data_phase setting rounds
                  (take setting r.now r.arm (head setting r.began p))
          ])
      go true s rec = s
      go false s rec = rec s
