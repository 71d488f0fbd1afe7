-- ===== src/StateSupervisor/Gate.antt =====
-- The durability gate of crates/loadsmith-core/src/state_supervisor.rs: what a stored document may
-- hold.
use loadsmith.Prelude.{
  ℕ, ◌≤◌, max, ◌≡◌, refl, sym, subst, ◌∙◌, Bool, true, ◌⊎◌, inl, inr, Option, none, some, List, [],
  ◌∷◌, All, All-map, arith, ltb, Bool-cases,
}
use loadsmith.SortedMap.{All-insert, last_upto-All}
use loadsmith.State.{StateDoc, ResumeRecord}
use loadsmith.StateSupervisor.{
  SourceCheckpoint, StateRun, Event, checkpoint, checkpoints_closed, committed, committed_closed,
  delivered, Backend, Supervisor, document, persist, save, record_for, receive, frontier,
  save_throttled, step, safe_checkpoint, is_running, loop, then_some,
}

module _ {V : Type 0} where
  -- The checkpoint is among the events received.
  abbrev pub Received : SourceCheckpoint V → List (Event V) → Type 0
  Received c [] = ⊥
  Received c (checkpoint d ∷ es) = (c ≡ d) ⊎ Received c es
  Received c (_ ∷ es) = Received c es

  -- The highest batch that the destination reported as committed.
  abbrev pub committed_through : List (Event V) → ℕ
  committed_through [] = 0
  committed_through (committed seq ∷ es) = max seq (committed_through es)
  committed_through (_ ∷ es) = committed_through es

  -- The highest prefix that the sink reported as delivered.
  abbrev pub delivered_through : List (Event V) → ℕ
  delivered_through [] = 0
  delivered_through (delivered d ∷ es) = max d.through (delivered_through es)
  delivered_through (_ ∷ es) = delivered_through es

  abbrev pub Sends : (SourceCheckpoint V → Type 0) → Event V → Type 0
  Sends P (checkpoint c) = P c
  Sends P _ = Unit

  -- The document holds the cursor of a checkpoint `P` with a batch of at most `n`.
  abbrev pub Backed : (SourceCheckpoint V → Type 0) → ℕ → StateDoc V → Type 0
  Backed P n doc =
      (c : SourceCheckpoint V) × P c × (c.batch_seq ≤ n) × (doc.cursor_value ≡ c.cursor_value)

  stored-receive : (s : Supervisor V) (e : Event V) → (receive s e).stored ≡ s.stored
  unfolding receive
  stored-receive s (checkpoint c) = ground arith
  stored-receive s _ = ground arith

  frontier-receive :
      (with_sink : Bool) (s : Supervisor V) (e : Event V)
      → frontier with_sink s ≤ frontier with_sink (receive s e)
  unfolding frontier receive
  frontier-receive with_sink s (checkpoint c) = ground arith
  frontier-receive with_sink s _ = ground arith

  document_fields :
      (run : StateRun V) (now : ℕ) (value : V) (resume : Option (ResumeRecord V))
      → ((document run now value resume).cursor_value ≡ value)
        × ((document run now value resume).resume ≡ resume)
  unfolding document
  document_fields run now value none = (refl, refl)
  document_fields run now value (some r) = (refl, refl)

  -- The state after a call that stores one document with this cursor and record, or fails.
  abbrev pub Stores : V → Option (ResumeRecord V) → Supervisor V → Supervisor V → Type 0
  Stores value resume s t =
      ((t.stored ≡ s.stored) × (t.store_error ≡ true))
      ⊎ ((doc : StateDoc V) × (t.stored ≡ doc ∷ s.stored)
          × (doc.cursor_value ≡ value)
          × (doc.resume ≡ resume)
          × (t.store_error ≡ s.store_error))

  pub persist_cases :
      (backend : Backend) (run : StateRun V) (value : V) (resume : Option (ResumeRecord V))
      (s : Supervisor V)
      → Stores value resume s (persist backend run value resume s)
  unfolding persist
  persist_cases backend run value resume s =
      let now = backend.now_unix_ms s.writes in
      let (cursor, kept) = document_fields run now value resume in
      elim (Bool-cases (backend.fails s.writes)) [
        | inl bad ↦ inl (ground arith)
        | inr good ↦ inr (document run now value resume, ground arith, cursor, kept, ground arith)
      ]

  stored-save :
      (backend : Backend) (run : StateRun V) (resume : Option (ResumeRecord V))
      (c : SourceCheckpoint V) (s : Supervisor V)
      → let t = persist backend run c.cursor_value resume s in
        let u = save backend run resume c s in
        (u.stored ≡ t.stored) × (u.store_error ≡ t.store_error)
  unfolding save
  stored-save backend run resume c s = ground arith

  pub save_cases :
      (backend : Backend) (run : StateRun V) (resume : Option (ResumeRecord V))
      (c : SourceCheckpoint V) (s : Supervisor V)
      → Stores c.cursor_value resume s (save backend run resume c s)
  save_cases backend run resume c s =
      let (same, error) = stored-save backend run resume c s in
      elim (persist_cases backend run c.cursor_value resume s) [
        | inl (kept, bad) ↦ inl (same ∙ kept, error ∙ bad)
        | inr (doc, more, cursor, r, good) ↦ inr (doc, same ∙ more, cursor, r, error ∙ good)
      ]

  pub save_keeps :
      (backend : Backend) (run : StateRun V) (resume : Option (ResumeRecord V))
      (c : SourceCheckpoint V) (s : Supervisor V)
      → (save backend run resume c s).checkpoint_at ≡ s.checkpoint_at
  unfolding save persist
  save_keeps backend run resume c s = ground arith

  module _ (P : SourceCheckpoint V → Type 0) where
    abbrev pub Entry : ℕ × SourceCheckpoint V → Type 0
    Entry (k, c) = P c × (k ≡ c.batch_seq)

    pub record IsGated (n : ℕ) (s : Supervisor V) : Type 0 where
      pub entries : All Entry s.checkpoint_at
      pub docs : All (Backed P n) s.stored

    pub Backed-mono : (m n : ℕ) → m ≤ n → (doc : StateDoc V) → Backed P m doc → Backed P n doc
    Backed-mono m n le doc (c, p, l, e) = (c, p, omega arith, e)

    receive-entries :
        (s : Supervisor V) (e : Event V)
        → Sends P e
        → All Entry s.checkpoint_at
        → All Entry (receive s e).checkpoint_at
    unfolding receive
    receive-entries s (checkpoint c) p h =
        ground (arith, All-insert Entry c.batch_seq c s.checkpoint_at (p, refl) h)
    receive-entries s checkpoints_closed p h = h
    receive-entries s (committed n) p h = ground arith
    receive-entries s committed_closed p h = h
    receive-entries s (delivered d) p h = h

    pub receive-IsGated :
        (with_sink : Bool) (s : Supervisor V) (e : Event V)
        → Sends P e
        → IsGated (frontier with_sink s) s
        → IsGated (frontier with_sink (receive s e)) (receive s e)
    receive-IsGated with_sink s e p h = record {
      entries = receive-entries s e p h.entries;
      docs = subst (All (Backed P (frontier with_sink (receive s e)))) (sym (stored-receive s e)) (
          All-map (Backed P (frontier with_sink s)) (Backed P (frontier with_sink (receive s e)))
            s.stored (Backed-mono _ _ (frontier-receive with_sink s e)) h.docs);
    }

    -- what a store of a checkpoint at the frontier adds
    save-IsGated :
        (backend : Backend) (run : StateRun V) (resume : Option (ResumeRecord V))
        (c : SourceCheckpoint V) (n : ℕ) (s : Supervisor V)
        → P c
        → c.batch_seq ≤ n
        → IsGated n s
        → IsGated n (save backend run resume c s)
    unfolding save
    save-IsGated backend run resume c n s p le h =
        let x = (save_keeps backend run resume c s) in
        elim (save_cases backend run resume c s) [
          | inl (same, _) ↦ record { entries = rw x h.entries; docs = rw same h.docs }
          | inr (doc, more, cursor, _, _) ↦ record {
            entries = rw x h.entries;
            docs = rw more ((c, p, le, cursor), h.docs);
          }
        ]

    save_throttled-IsGated :
        (backend : Backend) (run : StateRun V) (with_sink : Bool) (o : Option (SourceCheckpoint V))
        (n : ℕ) (s : Supervisor V)
        → ((c : SourceCheckpoint V) → o ≡ some c → P c × (c.batch_seq ≤ n))
        → IsGated n s
        → IsGated n (save_throttled backend run with_sink o s)
    unfolding save_throttled
    save_throttled-IsGated backend run with_sink none n s found h = h
    save_throttled-IsGated backend run with_sink (some c) n s found h =
        let (p, le) = found c refl in
        ground (
          arith,
          save-IsGated backend run (record_for run c (then_some with_sink s.reached)) c n s p le h,
        )

    pub safe_checkpoint_found :
        (n : ℕ) (s : Supervisor V) (m : ℕ) (c : SourceCheckpoint V)
        → IsGated m s
        → safe_checkpoint s.checkpoint_at n ≡ some c
        → P c × (c.batch_seq ≤ n)
    unfolding safe_checkpoint
    safe_checkpoint_found n s m c h e =
        let (k, le, entry) = last_upto-All Entry n s.checkpoint_at h.entries e in
        (entry.0, omega arith)

    frontier-save_throttled :
        (backend : Backend) (run : StateRun V) (with_sink : Bool) (o : Option (SourceCheckpoint V))
        (s : Supervisor V)
        → frontier with_sink (save_throttled backend run with_sink o s) ≡ frontier with_sink s
    unfolding frontier save_throttled save persist
    frontier-save_throttled backend run with_sink none s = refl
    frontier-save_throttled backend run with_sink (some c) s = ground arith

    pub step-IsGated :
        (backend : Backend) (run : StateRun V) (with_sink : Bool) (s : Supervisor V) (e : Event V)
        → Sends P e
        → IsGated (frontier with_sink s) s
        → IsGated
            (frontier with_sink (step backend run with_sink s e))
            (step backend run with_sink s e)
    unfolding step
    step-IsGated backend run with_sink s e p h =
        let t = receive s e in
        let n = frontier with_sink t in
        let g = receive-IsGated with_sink s e p h in
        let o = safe_checkpoint t.checkpoint_at n in
        let saves =
          save_throttled-IsGated backend run with_sink o n t (λ c. safe_checkpoint_found n t n c g)
            g in
        let same = frontier-save_throttled backend run with_sink o t in
        elim (Bool-cases (ltb 0 run.checkpoint_interval)) [
          | inl on ↦ rw (on, same) saves
          | inr off ↦ rw off g
        ]

    pub loop-IsGated :
        (backend : Backend) (run : StateRun V) (with_sink : Bool) (es : List (Event V))
        (s : Supervisor V)
        → All (Sends P) es
        → IsGated (frontier with_sink s) s
        → let t = loop backend run with_sink s es in IsGated (frontier with_sink t) t
    unfolding loop
    loop-IsGated backend run with_sink [] s sends h = h
    loop-IsGated backend run with_sink (e ∷ es) s sends h = elim (Bool-cases (is_running s)) [
      | inl on ↦ rw on (
          loop-IsGated backend run with_sink es (step backend run with_sink s e) sends.1
            (step-IsGated backend run with_sink s e sends.0 h))
      | inr off ↦ rw off h
    ]
