-- ===== src/StateSupervisor/Complete.antt =====
-- What a run of crates/loadsmith-core/src/state_supervisor.rs that reaches its end has persisted.
use loadsmith.Prelude.{
  subst, ◌<◌, All-append, ℕ, ◌≤◌, max, ◌≡◌, refl, ◌∙◌, Bool, true, false, not, ◌&&◌, ◌||◌, ◌⊎◌, inl,
  inr, none, some, List, [], ◌∷◌, ◌++◌, All, arith, ltb, if◌then◌else◌, if_false, Bool-cases,
  Option-cases,
}
use loadsmith.SortedMap.{
  IsRising, Above-insert, All-insert, Has, Has-insert, Has-insert_self, last_upto_max,
}
use loadsmith.State.{StateDoc}
use loadsmith.StateSupervisor.{
  SourceCheckpoint, StateRun, Event, checkpoint, checkpoints_closed, committed, committed_closed,
  delivered, Ending, Backend, Supervisor, returned, initial, persist, save, record_for, receive,
  frontier, save_throttled, step, safe_checkpoint, is_running, loop, through_gate, all_delivered,
  has_succeeded, final_frontier, had_record, has_resume, flush, finish, run_state_supervisor,
  is_none, then_some,
}
use loadsmith.StateSupervisor.Gate.{
  Received, committed_through, Entry, Sends, IsGated, loop-IsGated, safe_checkpoint_found,
}
use loadsmith.StateSupervisor.Durable.{All-Sends}
use loadsmith.StateSupervisor.Holding.{IsHeld, save-Holds, through_gate-IsHeld, loop-IsHeld}

module _ {V : Type 0} where
  -- No channel closes among these events.
  abbrev pub IsPlain : Event V → Type 0
  IsPlain checkpoints_closed = ⊥
  IsPlain committed_closed = ⊥
  IsPlain _ = Unit

  -- The document stored last has no resume record.
  abbrev pub IsCleared : Supervisor V → Type 0
  IsCleared u =
      (doc : StateDoc V) × (older : List (StateDoc V)) × (u.stored ≡ doc ∷ older)
      × (doc.resume ≡ none)

  -- The source and the destination have exited.
  abbrev pub both_closed : List (Event V)
  both_closed = checkpoints_closed ∷ committed_closed ∷ []

  abbrev Keys : ℕ × SourceCheckpoint V → Type 0
  Keys = Entry (λ _. Unit {0})

  record IsOpen (s : Supervisor V) : Type 0 where
    ckpt_open : s.ckpt_open ≡ true
    commit_open : s.commit_open ≡ true
    no_error : s.store_error ≡ false
    rising : IsRising s.checkpoint_at
    keys : All Keys s.checkpoint_at

  -- the checkpoints taken, and the frontier
  receive_takes :
      (s : Supervisor V) (e : Event V) (es : List (Event V)) (c : SourceCheckpoint V)
      → s.ckpt_open ≡ true
      → Has c.batch_seq s.checkpoint_at ⊎ Received c (e ∷ es)
      → Has c.batch_seq (receive s e).checkpoint_at ⊎ Received c es
  unfolding receive
  receive_takes s (checkpoint d) es c o (inl h) =
      rw o (inl (Has-insert c.batch_seq d.batch_seq d s.checkpoint_at h))
  receive_takes s (checkpoint d) es c o (inr (inl e)) =
      rw (o, e) (inl (Has-insert_self d.batch_seq d s.checkpoint_at))
  receive_takes s (checkpoint d) es c o (inr (inr r)) = inr r
  receive_takes s checkpoints_closed es c o h = h
  receive_takes s (committed n) es c o h = ground arith
  receive_takes s committed_closed es c o h = h
  receive_takes s (delivered d) es c o h = h

  receive_grows :
      (s : Supervisor V) (e : Event V) (es : List (Event V))
      → s.commit_open ≡ true
      → max s.durable_through (committed_through (e ∷ es))
        ≤ max (receive s e).durable_through (committed_through es)
  unfolding receive
  receive_grows s (checkpoint d) es o = ground arith
  receive_grows s _ es o = ground arith

  module _ (backend : Backend) (run : StateRun V) (with_sink : Bool)
      (sound : (i : ℕ) → backend.fails i ≡ false) where
    step_keeps :
        (s : Supervisor V) (e : Event V)
        → let t = step backend run with_sink s e in
          let r = receive s e in
          (t.checkpoint_at ≡ r.checkpoint_at)
          × (t.durable_through ≡ r.durable_through)
          × (t.ckpt_open ≡ r.ckpt_open)
          × (t.commit_open ≡ r.commit_open)
          × (t.store_error ≡ r.store_error)
    unfolding step save_throttled save persist
    step_keeps s e = elim (Bool-cases (ltb 0 run.checkpoint_interval)) [
      | inl on ↦
          elim (Option-cases
            (safe_checkpoint (receive s e).checkpoint_at (frontier with_sink (receive s e)))) [
              | inl n ↦ ground arith
              | inr (c, f) ↦ ground (arith, sound (receive s e).writes)
            ]
      | inr off ↦ ground arith
    ]

    receive-IsOpen : (s : Supervisor V) (e : Event V) → IsPlain e → IsOpen s → IsOpen (receive s e)
    unfolding receive
    receive-IsOpen s (checkpoint c) p h =
        let rising = Above-insert 0 c.batch_seq c s.checkpoint_at (omega arith) h.rising in
        let keys = All-insert Keys c.batch_seq c s.checkpoint_at (tt, refl) h.keys in
        ground (arith, h.ckpt_open)
    receive-IsOpen s (committed n) p h = ground arith
    receive-IsOpen s (delivered d) p h = ground arith
    receive-IsOpen s checkpoints_closed p h = elim p [ ]
    receive-IsOpen s committed_closed p h = elim p [ ]

    step-IsOpen :
        (s : Supervisor V) (e : Event V)
        → IsPlain e
        → IsOpen s
        → IsOpen (step backend run with_sink s e)
    step-IsOpen s e p h =
        let g = receive-IsOpen s e p h in
        let (at, _, ckpts, commits, error) = step_keeps s e in
        record {
          ckpt_open = ckpts ∙ g.ckpt_open;
          commit_open = commits ∙ g.commit_open;
          no_error = error ∙ g.no_error;
          rising = rw at g.rising;
          keys = rw at g.keys;
        }

    step_takes :
        (s : Supervisor V) (e : Event V) (es : List (Event V)) (c : SourceCheckpoint V)
        → IsOpen s
        → let t = step backend run with_sink s e in
          (Has c.batch_seq s.checkpoint_at ⊎ Received c (e ∷ es)
            → Has c.batch_seq t.checkpoint_at ⊎ Received c es)
          × (max s.durable_through (committed_through (e ∷ es))
              ≤ max t.durable_through (committed_through es))
    step_takes s e es c h =
        let (at, far, _, _, _) = step_keeps s e in
        (
          λ x. rw at (receive_takes s e es c h.ckpt_open x),
          rw far (receive_grows s e es h.commit_open),
        )

    taken :
        (c : SourceCheckpoint V) (s : Supervisor V)
        → Has c.batch_seq s.checkpoint_at ⊎ Received c []
        → Has c.batch_seq s.checkpoint_at
    taken c s (inl h) = h
    taken c s (inr h) = absurd h

    running : (s : Supervisor V) → IsOpen s → is_running s ≡ true
    unfolding is_running
    running s h = ground arith

    loop_takes :
        (es : List (Event V)) (s : Supervisor V) (tail : List (Event V)) (c : SourceCheckpoint V)
        → All IsPlain es
        → IsOpen s
        → (t : Supervisor V) × (loop backend run with_sink s (es ++ tail)
            ≡ loop backend run with_sink t tail)
          × IsOpen t
          × (Has c.batch_seq s.checkpoint_at ⊎ Received c es → Has c.batch_seq t.checkpoint_at)
          × (max s.durable_through (committed_through es) ≤ t.durable_through)
    unfolding loop
    loop_takes [] s tail c plain h = (s, refl, h, taken c s, omega arith)
    loop_takes (e ∷ es) s tail c plain h =
        let (t, same, open_t, has, far) =
          loop_takes es (step backend run with_sink s e) tail c plain.1
            (step-IsOpen s e plain.0 h) in
        let (takes, grows) = step_takes s e es c h in
        (t, rw (running s h) same, open_t, (λ x. has (takes x)), omega (arith, far, grows))

    -- What the final flush leaves, for a checkpoint that is safe to persist.
    flush_saves :
        (P : SourceCheckpoint V → Type 0) (ending : Ending) (c : SourceCheckpoint V)
        (s : Supervisor V)
        → s.store_error ≡ false
        → P c
        → IsHeld P s
        → let u = flush backend run ending (some c) s in
          (u.store_error ≡ false)
          × (c.batch_seq ≤ u.last_persisted_seq)
          × IsHeld P u
          × (has_succeeded ending ≡ true → has_resume run.prior ≡ true → IsCleared u)
    unfolding flush
    flush_saves P ending c s good p held =
        elim (Bool-cases
          (ltb s.last_persisted_seq c.batch_seq || (has_succeeded ending && had_record run s))) [
            | inl on ↦
                let resume =
                  if has_succeeded ending
                  then none
                  else record_for run c (then_some (not (is_none ending.delivery)) s.reached) in
                let (clean, (doc, (holds, kept))) =
                  save-Holds P backend run sound resume c s good p in
                rw on (
                  clean,
                  omega (arith, holds.counted),
                  inr (c, doc, s.stored, holds),
                  λ yes' _. (doc, s.stored, holds.stored, kept ∙ rw yes'),
                )
            | inr off ↦ rw off (good, ground arith, held, λ yes' had. absurd (ground arith))
          ]

    closes :
        (t : Supervisor V)
        → IsOpen t
        → let s = loop backend run with_sink t both_closed in
          (s.store_error ≡ false)
          × (is_running s ≡ false)
          × (s.checkpoint_at ≡ t.checkpoint_at)
          × (s.durable_through ≡ t.durable_through)
    unfolding loop is_running receive
    closes t h = ground (
      arith,
      step_keeps t checkpoints_closed,
      step_keeps (step backend run with_sink t checkpoints_closed) committed_closed,
    )

    gate_keeps :
        (ending : Ending) (s : Supervisor V)
        → all_delivered ending ≡ true
        → let t = through_gate ending s in
          (t.checkpoint_at ≡ s.checkpoint_at)
          × (final_frontier ending t ≡ s.durable_through)
          × (t.store_error ≡ s.store_error)
    unfolding through_gate
    gate_keeps ending s all = ground arith

    finish_saves :
        (P : SourceCheckpoint V → Type 0) (m : ℕ) (ending : Ending) (s : Supervisor V)
        (c : SourceCheckpoint V)
        → all_delivered ending ≡ true
        → s.store_error ≡ false
        → IsRising s.checkpoint_at
        → All Keys s.checkpoint_at
        → Has c.batch_seq s.checkpoint_at
        → c.batch_seq ≤ s.durable_through
        → IsGated P m s
        → IsHeld P s
        → (u : Supervisor V) × (finish backend run ending s ≡ returned u)
          × (c.batch_seq ≤ u.last_persisted_seq)
          × IsHeld P u
          × (has_succeeded ending ≡ true → has_resume run.prior ≡ true → IsCleared u)
    unfolding finish
    finish_saves P m ending s c all good rising keys has le gated held =
        let t = through_gate ending s in
        let (at, far, clean) = gate_keeps ending s all in
        let (j, d, found, le', key) =
          last_upto_max Keys 0 s.durable_through c.batch_seq s.checkpoint_at rising keys has le in
        let is_safe : safe_checkpoint s.checkpoint_at s.durable_through ≡ some d =
          unfold safe_checkpoint in found in
        let safe : safe_checkpoint t.checkpoint_at (final_frontier ending t) ≡ some d =
          rw (at, far) is_safe in
        let (p, _) = safe_checkpoint_found P s.durable_through s m d gated is_safe in
        let (done, last, kept, clears) =
          flush_saves P ending d t (clean ∙ good) p (through_gate-IsHeld P ending s held) in
        (
          flush backend run ending (some d) t,
          rw (safe, done),
          omega (arith, le', key.1, last),
          kept,
          clears,
        )

  -- All events of a run, the closing ones included.
  loop_holds :
      (P : SourceCheckpoint V → Type 0) (backend : Backend) (run : StateRun V) (with_sink : Bool)
      → ((i : ℕ) → backend.fails i ≡ false)
      → (events : List (Event V)) → All (Sends P) events
      → let t = loop backend run with_sink initial (events ++ both_closed) in
        IsGated P (frontier with_sink t) t × IsHeld P t
  loop_holds P backend run with_sink sound events sends =
      let all = All-append (Sends P) events both_closed sends (tt, (tt, tt)) in
      let first : IsGated P (frontier with_sink initial) initial = record {
        entries = tt;
        docs = tt;
      } in
      (
        loop-IsGated P backend run with_sink (events ++ both_closed) initial all first,
        loop-IsHeld P backend run sound with_sink (events ++ both_closed) initial refl all first
            (inl refl),
      )

  -- The document of a checkpoint at or past this one, of those with `P`, is the one stored last; it
  -- is also what the call returns as persisted.
  pub record IsStored (P : SourceCheckpoint V → Type 0) (c : SourceCheckpoint V) (u : Supervisor V)
      (d : SourceCheckpoint V) (doc : StateDoc V) (older : List (StateDoc V)) : Type 0 where
    pub received : P d
    pub past : c.batch_seq ≤ d.batch_seq
    pub stored : u.stored ≡ doc ∷ older
    pub cursor : doc.cursor_value ≡ d.cursor_value
    pub persisted : u.persisted ≡ some d.cursor_value

  held-IsStored :
      (P : SourceCheckpoint V → Type 0) (c : SourceCheckpoint V) (u : Supervisor V)
      → 0 < c.batch_seq
      → c.batch_seq ≤ u.last_persisted_seq
      → IsHeld P u
      → (d : SourceCheckpoint V) × (doc : StateDoc V) × (older : List (StateDoc V)) × IsStored P c u
          d doc older
  held-IsStored P c u pos le (inl zero) = absurd (omega (arith, pos, le, zero))
  held-IsStored P c u pos le (inr (d, doc, older, h)) = (
    d,
    doc,
    older,
    record {
      received = h.received;
      past = omega (arith, le, h.counted);
      stored = h.stored;
      cursor = h.cursor;
      persisted = h.persisted;
    },
  )

  -- If no store fails, both plugins' event channels close after these events, and there is no sink
  -- or the sink delivered everything, then the call returns, and for every checkpoint that was
  -- received for a batch, from 1 on, that was committed by then, the document stored last holds the
  -- cursor of a received checkpoint at or past it, and the cursor returned as persisted is this one.
  -- If moreover the run succeeded and had begun from a document with a resume record, the document
  -- stored last has none.
  pub run_persists_durable :
      (backend : Backend) (run : StateRun V) (ending : Ending) (events : List (Event V))
      (c : SourceCheckpoint V)
      → ((i : ℕ) → backend.fails i ≡ false)
      → all_delivered ending ≡ true
      → All IsPlain events
      → Received c events
      → 0 < c.batch_seq
      → c.batch_seq ≤ committed_through events
      → (u : Supervisor V) × (run_state_supervisor backend run ending (events ++ both_closed)
          ≡ returned u)
        × ((d : SourceCheckpoint V) × (doc : StateDoc V) × (older : List (StateDoc V)) × IsStored
              (λ d. Received d events)
              c
              u
              d
              doc
              older)
        × (has_succeeded ending ≡ true → has_resume run.prior ≡ true → IsCleared u)
  unfolding run_state_supervisor
  run_persists_durable backend run ending events c sound all plain got pos le =
      let P : SourceCheckpoint V → Type 0 = λ d. Received d events in
      let with_sink = not (is_none ending.delivery) in
      let first : IsOpen initial = record {
        ckpt_open = refl;
        commit_open = refl;
        no_error = refl;
        rising = tt;
        keys = tt;
      } in
      let (t, same, open_t, has, far) =
        loop_takes backend run with_sink sound events initial both_closed c plain first in
      let s = loop backend run with_sink t both_closed in
      let (good, over, at, through) = closes backend run with_sink sound t open_t in
      let (gated, held) =
        loop_holds P backend run with_sink sound events (All-Sends P events (λ d r. r)) in
      let (u, done, last, kept, clears) =
        finish_saves backend run with_sink sound P (frontier with_sink s) ending s c all good
          (rw at open_t.rising) (rw at open_t.keys) (rw at (has (inr got)))
          (omega (arith, le, far, through))
          (subst (λ x. IsGated P (frontier with_sink x) x) same gated)
          (subst (IsHeld P) same held) in
      (
        u,
        rw same (if_false good _ ∙ if_false over _ ∙ done),
        held-IsStored P c u pos last kept,
        clears,
      )
