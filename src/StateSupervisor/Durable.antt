-- ===== src/StateSupervisor/Durable.antt =====
-- Every document that a run of crates/loadsmith-core/src/state_supervisor.rs stores is durable.
use loadsmith.Prelude.{
  ℕ, ◌≤◌, max, ◌≡◌, refl, sym, subst, Bool, not, ◌&&◌, ◌||◌, ◌⊎◌, inl, inr, Option, none, some,
  List, [], ◌∷◌, All, All-map, arith, ltb, if◌then◌else◌, if_elim, Bool-cases, Option-cases,
}
use loadsmith.State.{StateDoc, ResumeRecord}
use loadsmith.StateSupervisor.{
  SourceCheckpoint, Delivered, StateRun, Event, checkpoint, checkpoints_closed, committed,
  committed_closed, delivered, Ending, Backend, Supervisor, Call, initial, persist, save,
  record_for, receive, frontier, save_throttled, step, safe_checkpoint, is_running, loop, drain,
  through_gate, has_succeeded, final_frontier, had_record, clear_record, flush, finish,
  run_state_supervisor, state_of, is_none, then_some, advance,
}
use loadsmith.StateSupervisor.Gate.{
  Received, committed_through, delivered_through, Sends, Backed, Stores, persist_cases, save_cases,
  IsGated, loop-IsGated, safe_checkpoint_found, Backed-mono,
}

abbrev pub highest : List Delivered → ℕ
highest [] = 0
highest (d ∷ ds) = max d.through (highest ds)

module _ {V : Type 0} where
  -- The highest batch that a stored document may stand for: the committed one without a sink, the
  -- delivered one with a sink; a sink that delivered everything makes what is committed durable.
  abbrev pub durable_limit : Ending → List (Event V) → ℕ
  durable_limit ending events = elim ending.delivery [
    | none ↦ committed_through events
    | some b ↦
        if b
        then max (committed_through events) (delivered_through events)
        else max (delivered_through events) (highest ending.queued)
  ]

  -- The document only clears the resume record of the run before: it keeps that run's cursor.
  abbrev pub Clears : StateRun V → StateDoc V → Type 0
  Clears run doc =
      (prior : StateDoc V) × (run.prior ≡ some prior)
      × (doc.cursor_value ≡ prior.cursor_value)
      × (doc.resume ≡ none)

  step_frontiers :
      (backend : Backend) (run : StateRun V) (with_sink : Bool) (s : Supervisor V) (e : Event V)
      → let t = step backend run with_sink s e in
        let r = receive s e in (t.durable_through ≡ r.durable_through) × (t.reached ≡ r.reached)
  unfolding step save_throttled save persist
  step_frontiers backend run with_sink s e = elim (Bool-cases (ltb 0 run.checkpoint_interval)) [
    | inl on ↦
        elim (Option-cases
          (safe_checkpoint (receive s e).checkpoint_at (frontier with_sink (receive s e)))) [
            | inl n ↦ ground arith
            | inr (c, f) ↦ ground arith
          ]
    | inr off ↦ ground arith
  ]

  receive_frontiers :
      (s : Supervisor V) (e : Event V) (es : List (Event V))
      → let t = receive s e in
        (max t.durable_through (committed_through es)
          ≤ max s.durable_through (committed_through (e ∷ es)))
        × (max t.reached.through (delivered_through es)
            ≤ max s.reached.through (delivered_through (e ∷ es)))
  unfolding receive
  receive_frontiers s (checkpoint c) es = ground arith
  receive_frontiers s _ es = ground arith

  loop_frontiers :
      (backend : Backend) (run : StateRun V) (with_sink : Bool) (es : List (Event V))
      (s : Supervisor V)
      → let t = loop backend run with_sink s es in
        (t.durable_through ≤ max s.durable_through (committed_through es))
        × (t.reached.through ≤ max s.reached.through (delivered_through es))
  unfolding loop
  loop_frontiers backend run with_sink [] s = omega arith
  loop_frontiers backend run with_sink (e ∷ es) s =
      let ih = loop_frontiers backend run with_sink es (step backend run with_sink s e) in
      let f = step_frontiers backend run with_sink s e in
      let r = receive_frontiers s e es in ground (arith, ih, f, r)

  All-Stores :
      (Q : StateDoc V → Type 0) (value : V) (resume : Option (ResumeRecord V)) (s t : Supervisor V)
      → ((doc : StateDoc V) → doc.cursor_value ≡ value → doc.resume ≡ resume → Q doc)
      → Stores value resume s t
      → All Q s.stored
      → All Q t.stored
  All-Stores Q value resume s t q (inl (same, _)) h = subst (All Q) (sym same) h
  All-Stores Q value resume s t q (inr (doc, more, cursor, kept, _)) h =
      subst (All Q) (sym more) (q doc cursor kept, h)

  module _ (P : SourceCheckpoint V → Type 0) where
    abbrev pub Lasting : StateRun V → ℕ → StateDoc V → Type 0
    Lasting run n doc = Backed P n doc ⊎ Clears run doc

    clear_docs :
        (backend : Backend) (run : StateRun V) (n : ℕ) (o : Option (StateDoc V)) (s : Supervisor V)
        → run.prior ≡ o
        → All (Lasting run n) s.stored
        → All (Lasting run n) (clear_record backend run o s).stored
    unfolding clear_record
    clear_docs backend run n none s e h = h
    clear_docs backend run n (some prior) s e h =
        All-Stores (Lasting run n) prior.cursor_value none s
          (persist backend run prior.cursor_value none s)
          (λ doc cursor kept. inr (prior, e, cursor, kept))
          (persist_cases backend run prior.cursor_value none s) h

    flush_docs :
        (backend : Backend) (run : StateRun V) (ending : Ending) (o : Option (SourceCheckpoint V))
        (n : ℕ) (s : Supervisor V)
        → ((c : SourceCheckpoint V) → o ≡ some c → P c × (c.batch_seq ≤ n))
        → All (Lasting run n) s.stored
        → All (Lasting run n) (flush backend run ending o s).stored
    unfolding flush
    flush_docs backend run ending none n s found h =
        elim (Bool-cases (has_succeeded ending && had_record run s)) [
          | inl on ↦ rw on (clear_docs backend run n run.prior s refl h)
          | inr off ↦ rw off h
        ]
    flush_docs backend run ending (some c) n s found h =
        let (p, le) = found c refl in
        let resume =
          if has_succeeded ending
          then none
          else record_for run c (then_some (not (is_none ending.delivery)) s.reached) in
        elim (Bool-cases
          (ltb s.last_persisted_seq c.batch_seq || (has_succeeded ending && had_record run s))) [
            | inl on ↦ rw on (
                All-Stores (Lasting run n) c.cursor_value resume s (save backend run resume c s)
                  (λ doc cursor _. inl (c, p, le, cursor)) (save_cases backend run resume c s) h)
            | inr off ↦ rw off h
          ]

    through_gate_keeps :
        (ending : Ending) (s : Supervisor V)
        → let t = through_gate ending s in
          (t.checkpoint_at ≡ s.checkpoint_at)
          × (t.stored ≡ s.stored)
          × (t.durable_through ≡ s.durable_through)
    unfolding through_gate
    through_gate_keeps ending s = ground arith

    drain-le :
        (old : Delivered) (ds : List Delivered)
        → (drain old ds).through ≤ max old.through (highest ds)
    unfolding drain
    drain-le old [] = omega arith
    drain-le old (d ∷ ds) = ground (arith, drain-le (advance old d) ds)

    state_of-finish :
        (backend : Backend) (run : StateRun V) (ending : Ending) (s : Supervisor V)
        → let t = through_gate ending s in
          (state_of (finish backend run ending s)).stored
          ≡ (flush backend run ending
              (safe_checkpoint t.checkpoint_at (final_frontier ending t))
              t).stored
    unfolding finish
    state_of-finish backend run ending s = ground arith

    limits :
        (ending : Ending) (events : List (Event V)) (s : Supervisor V)
        → s.durable_through ≤ committed_through events
        → s.reached.through ≤ delivered_through events
        → (frontier (not (is_none ending.delivery)) s ≤ durable_limit ending events)
          × (final_frontier ending (through_gate ending s) ≤ durable_limit ending events)
    unfolding frontier through_gate
    limits ending events s c d = ground (arith, drain-le s.reached ending.queued)

    finish_docs :
        (backend : Backend) (run : StateRun V) (ending : Ending) (events : List (Event V))
        (s : Supervisor V)
        → s.durable_through ≤ committed_through events
        → s.reached.through ≤ delivered_through events
        → IsGated P (frontier (not (is_none ending.delivery)) s) s
        → All
            (Lasting run (durable_limit ending events))
            (state_of (finish backend run ending s)).stored
    finish_docs backend run ending events s c d g =
        let n = durable_limit ending events in
        let t = through_gate ending s in
        let (before, after) = limits ending events s c d in
        let keeps = through_gate_keeps ending s in
        let gated : IsGated P n t = record {
          entries = rw keeps.0 g.entries;
          docs =
              rw keeps.1
                (All-map (Backed P _) (Backed P n) s.stored (Backed-mono P _ n before) g.docs);
        } in
        let m = final_frontier ending t in
        rw state_of-finish (
          flush_docs backend run ending (safe_checkpoint t.checkpoint_at m) n t
            (λ ckpt e.
              let (p, le) = safe_checkpoint_found P m t n ckpt gated e in
              (p, omega (arith, le, after)))
            (All-map (Backed P n) (Lasting run n) t.stored (λ doc b. inl b) gated.docs))

    run_docs :
        (backend : Backend) (run : StateRun V) (ending : Ending) (events : List (Event V))
        → All (Sends P) events
        → All
            (Lasting run (durable_limit ending events))
            (state_of (run_state_supervisor backend run ending events)).stored
    unfolding run_state_supervisor
    run_docs backend run ending events sends =
        let with_sink = not (is_none ending.delivery) in
        let n = durable_limit ending events in
        let s = loop backend run with_sink initial events in
        let le = loop_frontiers backend run with_sink events initial in
        let g =
          loop-IsGated P backend run with_sink events initial sends
            (record { entries = tt; docs = tt }) in
        let (before, _) = limits ending events s (omega (arith, le)) (omega (arith, le)) in
        let early : All (Lasting run n) s.stored =
          All-map (Backed P _) (Lasting run n) s.stored
            (λ doc b. inl (Backed-mono P _ n before doc b)) g.docs in
        let late =
          finish_docs backend run ending events s (omega (arith, le)) (omega (arith, le)) g in
        let holds = λ (call : Call V). All (Lasting run n) (state_of call).stored in
        if_elim holds s.store_error early (if_elim holds (is_running s) early late)

  pub All-Sends :
      (P : SourceCheckpoint V → Type 0) (es : List (Event V))
      → ((c : SourceCheckpoint V) → Received c es → P c)
      → All (Sends P) es
  All-Sends P [] h = tt
  All-Sends P (checkpoint c ∷ es) h = (h c (inl refl), All-Sends P es (λ d r. h d (inr r)))
  All-Sends P (checkpoints_closed ∷ es) h = (tt, All-Sends P es h)
  All-Sends P (committed n ∷ es) h = (tt, All-Sends P es h)
  All-Sends P (committed_closed ∷ es) h = (tt, All-Sends P es h)
  All-Sends P (delivered d ∷ es) h = (tt, All-Sends P es h)

  -- Whatever order the events come in, whichever stores fail and wherever the run stops, each
  -- document that the supervisor has stored holds the cursor of a checkpoint that it received, of
  -- a batch that is durable: at most the highest one committed without a sink, and with a sink the
  -- highest one delivered (or, if the gate says that everything is delivered, committed). The only
  -- other document is the one that ends a resumed run, with its unchanged cursor and no record.
  pub stored_is_durable :
      (backend : Backend) (run : StateRun V) (ending : Ending) (events : List (Event V))
      → All
          (λ doc.
            Backed (λ c. Received c events) (durable_limit ending events) doc ⊎ Clears run doc)
          (state_of (run_state_supervisor backend run ending events)).stored
  stored_is_durable backend run ending events =
      run_docs (λ c. Received c events) backend run ending events
        (All-Sends (λ c. Received c events) events (λ c r. r))
