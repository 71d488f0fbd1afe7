-- ===== src/Run/DataPhase/Delivered.antt =====
-- What a complete load has delivered (crates/loadsmith-core/src/runner.rs, `supervise_data_phase`, with
-- the outcome of pump.rs beside it).
use loadsmith.Prelude.{
  ℕ, ◌+◌, ◌<◌, ◌≡◌, refl, sym, ap, subst, ◌∙◌, ◌⊎◌, inl, inr, Bool, true, false, not, ◌||◌, Option,
  none, some, List, [], ◌∷◌, All, if◌then◌else◌, arith,
}
use loadsmith.Pump.{PumpOutcome, PumpOutput, open_stream, closed}
use loadsmith.Peer.{Inbound, process}
use loadsmith.ParserFeed
use loadsmith.ParserFeed.{
  Feed, Upstream, FeedEvent, status_of, handle_enabled, maybe_end_input, overdue,
}
use loadsmith.Run.Failing.{of}
use loadsmith.Exit.{plugin_failed}
use loadsmith.Run.DataPhase.{
  Arm, halt, commit_done, pump_done, producer_line, grant, grants_closed, upstream_event,
  destination_line, tick, pumped, panicked, Round, Setting, DataPhase, is_some, source_ok, fail,
  end_input, spawn_commit, commit_point, commit_clean, head, is_over, take_pump, take,
  supervise_data_phase,
}
use loadsmith.Run.DataPhase.Keeping.{
  IsSame, take_commit-IsSame, take_producer-IsSame, take_destination-IsSame, take_upstream-IsSame,
  take_tick-IsSame, end_input-IsSame,
}
use loadsmith.Run.DataPhase.Sound.{end_input-IsSound, IsSound, not_due, none_sent}
use loadsmith.Run.DataPhase.Arms.{head-IsSound, take-IsSound}
use loadsmith.Run.DataPhase.Commit.{IsStart, start-IsSound}

no_pump : {A : Type 0} (o : Option A) → is_some o ≡ false → o ≡ none
no_pump none e = refl
no_pump (some a) e = absurd (cc e)

module _ {B : Type 0} (Q : PumpOutcome B → Type 0) where
  -- The outcome whose stream was taken for the end marker.
  abbrev pub taken : PumpOutcome B → PumpOutcome B
  taken out = record out { final = record out.final { writer = closed } }

  -- The outcome came from the pump; once the end marker was sent, its stream was open before.
  abbrev IsFrom : ℕ → Option (PumpOutcome B) → Type 0
  IsFrom commits none = commits ≡ 0
  IsFrom commits (some out) =
      ((commits ≡ 0) × Q out)
      ⊎ ((o : PumpOutcome B) × (Q o × (o.final.writer ≡ open_stream) × (out ≡ taken o)))

  abbrev pub IsOutcome : Arm B → Type 0
  IsOutcome (pump_done (pumped out lines)) = Q out
  IsOutcome arm = Unit

  kept :
      (q p : DataPhase B)
      → IsSame q p
      → IsFrom p.commits p.pump_outcome
      → IsFrom q.commits q.pump_outcome
  kept q p s h =
      subst (λ o. IsFrom q.commits o) (sym s.0) (subst (λ n. IsFrom n p.pump_outcome) (sym s.1) h)

  spawn_commit-IsFrom :
      (setting : Setting) (now : ℕ) (out : PumpOutcome B) (p : DataPhase B)
      → p.commits ≡ 0
      → p.pump_outcome ≡ some out
      → Q out
      → IsFrom
          (spawn_commit setting now out p).commits
          (spawn_commit setting now out p).pump_outcome
  unfolding spawn_commit
  spawn_commit-IsFrom setting now out p zero e q = go out.final.writer refl
    where
      go :
          (w : PumpOutput)
          → out.final.writer ≡ w
          → let r = (elim w as (λ _. DataPhase B) [
            | open_stream ↦ record p {
              pump_outcome = some (taken out);
              commit = true;
              commits = p.commits + 1;
              finalize_deadline = ParserFeed.deadline_of now setting.finalize_limit;
            }
            | closed ↦
                fail
                  (of "destination" (plugin_failed "the destination stopped reading its input"))
                  p
          ]) in
            IsFrom r.commits r.pump_outcome
      go open_stream f = inr (out, (q, f, refl))
      go closed f = subst (IsFrom p.commits) (sym e) (inl (zero, q))

  spawn_closed :
      (setting : Setting) (now : ℕ) (out : PumpOutcome B) (p : DataPhase B)
      → out.final.writer ≡ closed
      → p.pump_outcome ≡ some out
      → IsFrom p.commits (some out)
      → IsFrom
          (spawn_commit setting now out p).commits
          (spawn_commit setting now out p).pump_outcome
  unfolding spawn_commit
  spawn_closed setting now out p c e h = go out.final.writer c
    where
      go :
          (w : PumpOutput)
          → w ≡ closed
          → let r = (elim w as (λ _. DataPhase B) [
            | open_stream ↦ record p {
              pump_outcome = some (taken out);
              commit = true;
              commits = p.commits + 1;
              finalize_deadline = ParserFeed.deadline_of now setting.finalize_limit;
            }
            | closed ↦
                fail
                  (of "destination" (plugin_failed "the destination stopped reading its input"))
                  p
          ]) in
            IsFrom r.commits r.pump_outcome
      go open_stream f = absurd (cc f)
      go closed f = subst (IsFrom p.commits) (sym e) h

  commit_point-IsFrom :
      (setting : Setting) (now : ℕ) (p : DataPhase B)
      → IsSound p
      → IsFrom p.commits p.pump_outcome
      → IsFrom (commit_point setting now p).commits (commit_point setting now p).pump_outcome
  unfolding commit_point commit_clean
  commit_point-IsFrom setting now p s h =
      go (is_some p.failure || p.committed || p.commit || not (source_ok p.upstream p.src)) refl
        p.pump_outcome refl h
    where
      clean :
          (out : PumpOutcome B) (c : Bool)
          → p.commits ≡ 0
          → p.pump_outcome ≡ some out
          → IsFrom p.commits (some out)
          → let r = (if c then spawn_commit setting now out p else p) in
            IsFrom r.commits r.pump_outcome
      clean out false zero f h = subst (IsFrom p.commits) (sym f) h
      clean out true zero f (inl (z, q)) = spawn_commit-IsFrom setting now out p zero f q
      clean out true zero f (inr (o, (q, w, e))) =
          spawn_closed setting now out p (ap (λ x. x.final.writer) e) f (inr (o, (q, w, e)))

      go :
          (b : Bool)
          → (is_some p.failure || p.committed || p.commit || not (source_ok p.upstream p.src)) ≡ b
          → (o : Option (PumpOutcome B)) → p.pump_outcome ≡ o
          → IsFrom p.commits o
          → let r = (if b then p else commit_clean setting now o p) in
            IsFrom r.commits r.pump_outcome
      go true e o f h = subst (IsFrom p.commits) (sym f) h
      go false e none f h = subst (IsFrom p.commits) (sym f) h
      go false e (some out) f h =
          let (going, idle, ok) =
            not_due p.failure p.committed p.commit (source_ok p.upstream p.src) e in
          clean out out.source_clean (none_sent s going idle) f h

  pumped_is_kept :
      (setting : Setting) (now : ℕ) (out : PumpOutcome B) (lines : List Inbound) (p : DataPhase B)
      → ((take_pump setting now (pumped out lines) p).pump_outcome ≡ some out)
        × ((take_pump setting now (pumped out lines) p).commits ≡ p.commits)
  unfolding take_pump
  pumped_is_kept setting now out lines p = (ground arith, ground arith)

  take-IsFrom :
      (setting : Setting) (now : ℕ) (arm : Arm B) (p : DataPhase B)
      → IsOutcome arm
      → IsFrom p.commits p.pump_outcome
      → IsFrom (take setting now arm p).commits (take setting now arm p).pump_outcome
  unfolding take
  take-IsFrom setting now (halt h) p q f = f
  take-IsFrom setting now (commit_done end) p q f =
      kept (take setting now (commit_done end) p) p (take_commit-IsSame end p) f
  take-IsFrom setting now (pump_done panicked) p q f =
      kept (take setting now (pump_done panicked) p) p (ground arith, ground arith) f
  take-IsFrom setting now (pump_done (pumped out lines)) p q f =
      go (is_some p.pump_outcome) refl (pumped_is_kept setting now out lines p)
    where
      go :
          (b : Bool)
          → is_some p.pump_outcome ≡ b
          → ((take_pump setting now (pumped out lines) p).pump_outcome ≡ some out)
            × ((take_pump setting now (pumped out lines) p).commits ≡ p.commits)
          → let r = (if b then p else take_pump setting now (pumped out lines) p) in
            IsFrom r.commits r.pump_outcome
      go true e k = f
      go false e k =
          let zero : p.commits ≡ 0 = subst (IsFrom p.commits) (no_pump p.pump_outcome e) f in
          subst (IsFrom (take_pump setting now (pumped out lines) p).commits) (sym k.0)
            (inl (k.1 ∙ zero, q))
  take-IsFrom setting now (producer_line l) p q f =
      kept (take setting now (producer_line l) p) p
        (take_producer-IsSame setting now (process setting.producer_fails l p.src).1
          (record p { src = (process setting.producer_fails l p.src).0 }))
        f
  take-IsFrom setting now (grant n) p q f =
      kept (take setting now (grant n) p) p (ground arith, ground arith) f
  take-IsFrom setting now grants_closed p q f = f
  take-IsFrom setting now (upstream_event e) p q f =
      kept (take setting now (upstream_event e) p) p
        (take_upstream-IsSame setting now e p.upstream p) f
  take-IsFrom setting now (destination_line l) p q f =
      kept (take setting now (destination_line l) p) p
        (take_destination-IsSame (process setting.destination_fails l p.dst).1
          (record p { dst = (process setting.destination_fails l p.dst).0 }))
        f
  take-IsFrom setting now (tick batches) p q f =
      kept (take setting now (tick batches) p) p (take_tick-IsSame setting now batches p) f

  supervise_data_phase-IsFrom :
      (setting : Setting) (rounds : List (Round B)) (p : DataPhase B)
      → All (λ r. IsOutcome r.arm) rounds
      → IsSound p
      → IsFrom p.commits p.pump_outcome
      → let q = supervise_data_phase setting rounds p in IsFrom q.commits q.pump_outcome
  unfolding supervise_data_phase head
  supervise_data_phase-IsFrom setting [] p all s f = f
  supervise_data_phase-IsFrom setting (r ∷ rounds) p all s f =
      go (is_over (head setting r.began p)) begun (
        supervise_data_phase-IsFrom setting rounds
          (take setting r.now r.arm (head setting r.began p)) all.1
          (take-IsSound setting r.now r.arm _ (head-IsSound setting r.began p s))
          (take-IsFrom setting r.now r.arm _ all.0 begun))
    where
      begun : IsFrom (head setting r.began p).commits (head setting r.began p).pump_outcome
      begun =
          commit_point-IsFrom setting r.began (end_input setting p.upstream p)
            (end_input-IsSound setting p.upstream p refl s)
            (kept (end_input setting p.upstream p) p (end_input-IsSame setting p.upstream p) f)

      go :
          (b : Bool)
          → IsFrom (head setting r.began p).commits (head setting r.began p).pump_outcome
          → IsFrom
              (supervise_data_phase setting rounds
                (take setting r.now r.arm (head setting r.began p))).commits
              (supervise_data_phase setting rounds
                (take setting r.now r.arm (head setting r.began p))).pump_outcome
          → let q = (elim b as (λ _. DataPhase B) [
            | true ↦ head setting r.began p
            | false ↦
                supervise_data_phase setting rounds
                  (take setting r.now r.arm (head setting r.began p))
          ]) in
            IsFrom q.commits q.pump_outcome
      go true here rest = here
      go false here rest = rest

  from_sent :
      (commits : ℕ) (o : Option (PumpOutcome B))
      → 0 < commits
      → IsFrom commits o
      → (out : PumpOutcome B) × (Q out × (out.final.writer ≡ open_stream) × (o ≡ some (taken out)))
  from_sent commits none less zero = absurd (ground (arith, less, zero))
  from_sent commits (some out) less (inl (zero, q)) = absurd (ground (arith, less, zero))
  from_sent commits (some out) less (inr (o, (q, w, e))) = (o, (q, w, ap some e))

  -- If each outcome that the pump hands over has a property, then the end marker is only sent
  -- for an outcome with this property whose stream to the destination was still open.
  pub sent_from :
      (setting : Setting) (rounds : List (Round B)) (p : DataPhase B)
      → IsStart p
      → All (λ r. IsOutcome r.arm) rounds
      → let q = supervise_data_phase setting rounds p in
        0 < q.commits
        → (out : PumpOutcome B) × (Q out
            × (out.final.writer ≡ open_stream)
            × (q.pump_outcome ≡ some (taken out)))
  sent_from setting rounds p start all sent = from_sent _ _ sent (
      supervise_data_phase-IsFrom setting rounds p all (start-IsSound start)
        (subst (IsFrom p.commits) (sym start.running) start.unsent))
