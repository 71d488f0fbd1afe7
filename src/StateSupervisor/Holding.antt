-- ===== src/StateSupervisor/Holding.antt =====
-- What crates/loadsmith-core/src/state_supervisor.rs remembers as persisted is what it stored last.
use loadsmith.Prelude.{
  ℕ, ◌≡◌, refl, ◌∙◌, Bool, false, ◌⊎◌, inl, inr, Option, none, some, List, [], ◌∷◌, All, arith, ltb,
  leb, ◌+◌, u64, Bool-cases,
}
use loadsmith.State.{StateDoc, ResumeRecord}
use loadsmith.StateSupervisor.{
  SourceCheckpoint, StateRun, Event, checkpoint, checkpoints_closed, committed, committed_closed,
  delivered, Ending, Backend, Supervisor, persist, save, record_for, receive, frontier,
  save_throttled, step, safe_checkpoint, is_running, loop, through_gate, then_some,
}
use loadsmith.StateSupervisor.Gate.{
  Sends, save_cases, IsGated, receive-IsGated, step-IsGated, safe_checkpoint_found,
}

module _ {V : Type 0} (P : SourceCheckpoint V → Type 0) where
  -- The document stored last holds the cursor of this checkpoint, and it is remembered.
  pub record Holds (s : Supervisor V) (d : SourceCheckpoint V) (doc : StateDoc V)
      (older : List (StateDoc V)) : Type 0 where
    pub received : P d
    pub stored : s.stored ≡ doc ∷ older
    pub cursor : doc.cursor_value ≡ d.cursor_value
    pub persisted : s.persisted ≡ some d.cursor_value
    pub counted : s.last_persisted_seq ≡ d.batch_seq

  -- Nothing is remembered as persisted, or the document stored last is.
  abbrev pub IsHeld : Supervisor V → Type 0
  IsHeld s =
      (s.last_persisted_seq ≡ 0)
      ⊎ ((d : SourceCheckpoint V) × (doc : StateDoc V) × (older : List (StateDoc V)) × Holds s d doc
            older)

  same-IsHeld :
      (s t : Supervisor V)
      → t.stored ≡ s.stored
      → t.persisted ≡ s.persisted
      → t.last_persisted_seq ≡ s.last_persisted_seq
      → IsHeld s
      → IsHeld t
  same-IsHeld s t a b c (inl zero) = inl (c ∙ zero)
  same-IsHeld s t a b c (inr (d, doc, older, h)) = inr (
    d,
    doc,
    older,
    record {
      received = h.received;
      stored = a ∙ h.stored;
      cursor = h.cursor;
      persisted = b ∙ h.persisted;
      counted = c ∙ h.counted;
    },
  )

  pub receive-IsHeld : (s : Supervisor V) (e : Event V) → IsHeld s → IsHeld (receive s e)
  unfolding receive
  receive-IsHeld s (checkpoint c) h =
      same-IsHeld s (receive s (checkpoint c)) (ground arith) (ground arith) (ground arith) h
  receive-IsHeld s checkpoints_closed h = same-IsHeld s _ refl refl refl h
  receive-IsHeld s (committed n) h =
      same-IsHeld s (receive s (committed n)) (ground arith) (ground arith) (ground arith) h
  receive-IsHeld s committed_closed h = same-IsHeld s _ refl refl refl h
  receive-IsHeld s (delivered d) h = same-IsHeld s _ refl refl refl h

  pub through_gate-IsHeld :
      (ending : Ending) (s : Supervisor V) → IsHeld s → IsHeld (through_gate ending s)
  unfolding through_gate
  through_gate-IsHeld ending s h =
      same-IsHeld s (through_gate ending s) (unfold through_gate in ground arith)
        (unfold through_gate in ground arith) (unfold through_gate in ground arith) h

  module _ (backend : Backend) (run : StateRun V) (sound : (i : ℕ) → backend.fails i ≡ false) where
    -- the assignments behind a write that went through
    save_remembers :
        (resume : Option (ResumeRecord V)) (c : SourceCheckpoint V) (s : Supervisor V)
        → s.store_error ≡ false
        → let t = save backend run resume c s in
          (t.store_error ≡ false)
          × (t.persisted ≡ some c.cursor_value)
          × (t.last_persisted_seq ≡ c.batch_seq)
    unfolding save persist
    save_remembers resume c s good = ground (arith, sound s.writes)

    -- A checkpoint that is saved is held.
    pub save-Holds :
        (resume : Option (ResumeRecord V)) (c : SourceCheckpoint V) (s : Supervisor V)
        → s.store_error ≡ false
        → P c
        → let t = save backend run resume c s in
          (t.store_error ≡ false)
          × ((doc : StateDoc V) × (Holds t c doc s.stored × (doc.resume ≡ resume)))
    save-Holds resume c s good p =
        let (clean, value, last) = save_remembers resume c s good in
        elim (save_cases backend run resume c s) [
          | inl (_, bad) ↦ absurd (cc (clean, bad))
          | inr (doc, more, cursor, kept, _) ↦
              let holds : Holds (save backend run resume c s) c doc s.stored = record {
                received = p;
                stored = more;
                cursor = cursor;
                persisted = value;
                counted = last;
              } in
              (clean, (doc, (holds, kept)))
        ]

    save_throttled-IsHeld :
        (with_sink : Bool) (o : Option (SourceCheckpoint V)) (s : Supervisor V)
        → s.store_error ≡ false
        → ((c : SourceCheckpoint V) → o ≡ some c → P c)
        → IsHeld s
        → let t = save_throttled backend run with_sink o s in (t.store_error ≡ false) × IsHeld t
    unfolding save_throttled
    save_throttled-IsHeld with_sink none s good p h = (good, h)
    save_throttled-IsHeld with_sink (some c) s good p h =
        elim (Bool-cases (leb (u64 (s.last_persisted_seq + run.checkpoint_interval)) c.batch_seq)) [
          | inl due ↦
              let resume = record_for run c (then_some with_sink s.reached) in
              let (clean, (doc, (holds, _))) = save-Holds resume c s good (p c refl) in
              rw due (clean, inr (c, doc, s.stored, holds))
          | inr early ↦ rw early (good, h)
        ]

    store_error-receive :
        (s : Supervisor V) (e : Event V) → (receive s e).store_error ≡ s.store_error
    unfolding receive
    store_error-receive s (checkpoint c) = ground arith
    store_error-receive s (committed n) = ground arith
    store_error-receive s _ = refl

    step-IsHeld :
        (with_sink : Bool) (s : Supervisor V) (e : Event V)
        → s.store_error ≡ false
        → Sends P e
        → IsGated P (frontier with_sink s) s
        → IsHeld s
        → let t = step backend run with_sink s e in (t.store_error ≡ false) × IsHeld t
    unfolding step
    step-IsHeld with_sink s e good p g h =
        let t = receive s e in
        let n = frontier with_sink t in
        let gated = receive-IsGated P with_sink s e p g in
        let clean = store_error-receive s e ∙ good in
        let held = receive-IsHeld s e h in
        elim (Bool-cases (ltb 0 run.checkpoint_interval)) [
          | inl on ↦ rw on (
              save_throttled-IsHeld with_sink (safe_checkpoint t.checkpoint_at n) t clean
                (λ c found. (safe_checkpoint_found P n t n c gated found).0) held)
          | inr off ↦ rw off (clean, held)
        ]

    pub loop-IsHeld :
        (with_sink : Bool) (es : List (Event V)) (s : Supervisor V)
        → s.store_error ≡ false
        → All (Sends P) es
        → IsGated P (frontier with_sink s) s
        → IsHeld s
        → IsHeld (loop backend run with_sink s es)
    unfolding loop
    loop-IsHeld with_sink [] s good sends g h = h
    loop-IsHeld with_sink (e ∷ es) s good sends g h =
        let (clean, held) = step-IsHeld with_sink s e good sends.0 g h in
        elim (Bool-cases (is_running s)) [
          | inl on ↦ rw on (
              loop-IsHeld with_sink es (step backend run with_sink s e) clean sends.1
                (step-IsGated P backend run with_sink s e sends.0 g) held)
          | inr off ↦ rw off h
        ]
