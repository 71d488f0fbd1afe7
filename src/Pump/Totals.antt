-- ===== src/Pump/Totals.antt =====
-- What the pump (crates/loadsmith-core/src/pump.rs) counts, forwards and reports.
use loadsmith.Prelude.{
  u64, ℕ, ◌+◌, ◌*◌, ◌/◌, ◌^◌, ◌≤◌, ◌<◌, ◌≡◌, refl, sym, ap, ap₂, ◌∙◌, true, false, ◌⊎◌, inl, inr,
  String, ◌↔◌, if◌then◌else◌, Option, none, List, [], ◌∷◌, ◌++◌, append-nil, append_assoc, length,
  All, arith, ◌==◌, Bool-cases,
}
use loadsmith.Flow.{FlowWindow}
use loadsmith.Pump.{
  Batch, Round, StreamEnd, ended_cleanly, truncated, read_failed, open_stream, closed, PumpState,
  open_writer, count_batch, forward, step, run, last_tick, pump,
}

module _ {B : Type 0} where
  abbrev pub sum_rows : List (Round B) → ℕ
  sum_rows [] = 0
  sum_rows (r ∷ rest) = r.batch.rows + sum_rows rest

  abbrev pub batches_of : List (Round B) → List (Batch B)
  batches_of [] = []
  batches_of (r ∷ rest) = r.batch ∷ batches_of rest

  -- `control.abort` is only ever set.
  abbrev pub AbortsOnce : List (Round B) → Type 0
  AbortsOnce [] = Unit
  AbortsOnce (r ∷ rest) = (r.abort ≡ true → All (λ q. q.abort ≡ true) rest) × AbortsOnce rest

  step_counts :
      (s : PumpState B) (r : Round B)
      → ((step s r).rows ≡ u64 (s.rows + r.batch.rows)) × ((step s r).batches ≡ u64 (s.batches + 1))
  unfolding step
  step_counts s r = ground arith

  run_counts :
      (rounds : List (Round B)) (s : PumpState B)
      → (u64 (run s rounds).rows ≡ u64 (s.rows + sum_rows rounds))
        × (u64 (run s rounds).batches ≡ u64 (s.batches + length rounds))
  unfolding run
  run_counts [] s = omega arith
  run_counts (r ∷ rest) s = omega (arith, run_counts rest (step s r), step_counts s r)

  pub step_forwards :
      (s : PumpState B) (r : Round B)
      → ((step s r).written ≡ (forward s r).written) × ((step s r).writer ≡ (forward s r).writer)
  unfolding step
  step_forwards s r = ground arith

  -- What one round does to the destination's stream.
  pub forward_cases :
      (s : PumpState B) (r : Round B)
      → (((step s r).written ≡ s.written) × ((r.abort ≡ true) ⊎ ((step s r).writer ≡ closed)))
        ⊎ (((step s r).written ≡ s.written ++ r.batch ∷ []) × (r.abort ≡ false) × (r.write ≡ none))
  unfolding forward
  forward_cases s r = ground (arith, step_forwards s r)

  run_closed :
      (rounds : List (Round B)) (s : PumpState B)
      → s.writer ≡ closed
      → (run s rounds).written ≡ s.written
  unfolding run forward
  run_closed [] s h = refl
  run_closed (r ∷ rest) s h = ground (arith, step_forwards s r, run_closed rest (step s r))

  run_aborted :
      (rounds : List (Round B)) (s : PumpState B)
      → All (λ q. q.abort ≡ true) rounds
      → (run s rounds).written ≡ s.written
  unfolding run forward
  run_aborted [] s h = refl
  run_aborted (r ∷ rest) s h = ground (arith, step_forwards s r, run_aborted rest (step s r) h.1)

  run_stopped :
      (r : Round B) (rest : List (Round B)) (s : PumpState B)
      → AbortsOnce (r ∷ rest)
      → (r.abort ≡ true) ⊎ ((step s r).writer ≡ closed)
      → (run (step s r) rest).written ≡ (step s r).written
  run_stopped r rest s h (inl a) = run_aborted rest (step s r) (h.0 a)
  run_stopped r rest s h (inr c) = run_closed rest (step s r) c

  abbrev pub IsCut : List (Round B) → PumpState B → PumpState B → Type 0
  IsCut rounds s t =
      (taken : List (Batch B)) × (left : List (Batch B)) × (batches_of rounds ≡ taken ++ left)
      × (t.written ≡ s.written ++ taken)

  run-IsCut :
      (rounds : List (Round B)) (s : PumpState B)
      → AbortsOnce rounds
      → IsCut rounds s (run s rounds)
  unfolding run
  run-IsCut [] s h = ([], [], refl, sym (append-nil _))
  run-IsCut (r ∷ rest) s h = elim (forward_cases s r) [
    | inl (same, why) ↦
        ([], batches_of (r ∷ rest), refl, run_stopped r rest s h why ∙ same ∙ sym (append-nil _))
    | inr (more, a, w) ↦
        let (taken, left, split, wrote) = run-IsCut rest (step s r) h.1 in
        (
          r.batch ∷ taken,
          left,
          ap (◌∷◌ r.batch) split,
          wrote ∙ ap (λ l. l ++ taken) more ∙ append_assoc s.written (r.batch ∷ []) taken,
        )
  ]

  pub written-last_tick : (s : PumpState B) → (last_tick s).written ≡ s.written
  unfolding last_tick
  written-last_tick s = ground arith

  pub final-pump :
      (failure : Option String) (flow : Option FlowWindow) (rounds : List (Round B))
      (end : StreamEnd)
      → (pump failure flow rounds end).final ≡ last_tick (run (open_writer failure flow) rounds)
  unfolding pump
  final-pump failure flow rounds ended_cleanly = refl
  final-pump failure flow rounds truncated = refl
  final-pump failure flow rounds (read_failed e) = refl

  -- The destination receives a prefix of the batches read, in order and with none left out, however
  -- its writes end and whenever the runner sets the abort flag (which it never clears).
  pub pump_forwards_prefix :
      (failure : Option String) (flow : Option FlowWindow) (rounds : List (Round B))
      (end : StreamEnd)
      → AbortsOnce rounds
      → (left : List (Batch B)) × (batches_of rounds
          ≡ (pump failure flow rounds end).final.written ++ left)
  unfolding open_writer
  pump_forwards_prefix failure flow rounds end h =
      let (taken, left, split, wrote) = run-IsCut rounds (open_writer failure flow) h in
      let same =
        ap (λ s. s.written) (final-pump failure flow rounds end) ∙ written-last_tick _ ∙ wrote in
      (left, rw same split)

  abbrev pub IsFlowing : Round B → Type 0
  IsFlowing r = (r.abort ≡ false) × (r.write ≡ none)

  step_flows :
      (s : PumpState B) (r : Round B)
      → s.writer ≡ open_stream
      → IsFlowing r
      → ((step s r).written ≡ s.written ++ r.batch ∷ []) × ((step s r).writer ≡ open_stream)
  unfolding forward
  step_flows s r o f = ground (arith, step_forwards s r)

  run_flows :
      (rounds : List (Round B)) (s : PumpState B)
      → s.writer ≡ open_stream
      → All IsFlowing rounds
      → ((run s rounds).written ≡ s.written ++ batches_of rounds)
        × ((run s rounds).writer ≡ open_stream)
  unfolding run
  run_flows [] s o f = (sym (append-nil s.written), o)
  run_flows (r ∷ rest) s o f =
      let (w, o') = step_flows s r o f.0 in
      let (all, o'') = run_flows rest (step s r) o' f.1 in
      (
        all
            ∙ ap (λ l. l ++ batches_of rest) w
            ∙ append_assoc s.written (r.batch ∷ []) (batches_of rest),
        o'',
      )

  pub last_tick_keeps :
      (s : PumpState B)
      → ((last_tick s).writer ≡ s.writer)
        × ((last_tick s).rows ≡ s.rows)
        × ((last_tick s).batches ≡ s.batches)
  unfolding last_tick
  last_tick_keeps s = ground arith

  pub clean_iff :
      (failure : Option String) (flow : Option FlowWindow) (rounds : List (Round B))
      (end : StreamEnd)
      → ((pump failure flow rounds end).source_clean ≡ true) ↔ (end ≡ ended_cleanly)
  unfolding pump
  clean_iff failure flow rounds ended_cleanly = (λ _. refl, λ _. refl)
  clean_iff failure flow rounds truncated = (λ h. cc, λ h. cc)
  clean_iff failure flow rounds (read_failed e) = (λ h. cc, λ h. cc)

  -- With no abort and no failed write, all batches read are in the destination's stream, in order,
  -- and the stream is handed back open, however the source's stream ended. The outcome is clean
  -- exactly for a stream that ended with its end marker.
  pub pump_forwards_everything :
      (flow : Option FlowWindow) (rounds : List (Round B)) (end : StreamEnd)
      → All IsFlowing rounds
      → let out = pump none flow rounds end in
        (out.final.written ≡ batches_of rounds)
        × (out.final.writer ≡ open_stream)
        × ((out.source_clean ≡ true) ↔ (end ≡ ended_cleanly))
  unfolding open_writer
  pump_forwards_everything flow rounds end f =
      let (all, o) = run_flows rounds (open_writer none flow) refl f in
      let e = final-pump none flow rounds end in
      (
        ap (λ s. s.written) e ∙ written-last_tick _ ∙ all,
        ap (λ s. s.writer) e ∙ (last_tick_keeps _).0 ∙ o,
        clean_iff none flow rounds end,
      )

  -- The progress calls between two batches: the next one is due at a power of two.
  record IsPaced (s : PumpState B) : Type 0 where
    ahead : s.batches < s.next_log
    start : s.batches ≡ 0 → s.next_log ≡ 1
    double : 0 < s.batches → s.next_log ≡ 2 * (s.next_log / 2)
    behind : 0 < s.batches → s.next_log / 2 ≤ s.batches
    logged :
        0 < s.batches
        → s.batches ≡ s.next_log / 2
        → (older : List (ℕ × ℕ)) × (s.ticks ≡ (s.rows, s.batches) ∷ older)

  grant_keeps :
      (s : PumpState B) (r : Round B)
      → let t = step s r in
        let c = count_batch s r.batch in
        (t.ticks ≡ (if c.batches == s.next_log then (c.rows, c.batches) ∷ s.ticks else s.ticks))
        × (t.next_log ≡ (if c.batches == s.next_log then u64 (s.next_log * 2) else s.next_log))
        × (t.rows ≡ c.rows)
        × (t.batches ≡ c.batches)
  unfolding step
  grant_keeps s r = ground arith

  step-IsPaced :
      (s : PumpState B) (r : Round B) → s.batches + 1 < 2 ^ 63 → IsPaced s → IsPaced (step s r)
  unfolding count_batch
  step-IsPaced s r small h = ground (arith, grant_keeps s r)

  run-IsPaced :
      (rounds : List (Round B)) (s : PumpState B)
      → s.batches + length rounds < 2 ^ 63
      → IsPaced s
      → IsPaced (run s rounds) × ((run s rounds).batches ≡ s.batches + length rounds)
  unfolding run
  run-IsPaced [] s small h = (h, omega arith)
  run-IsPaced (r ∷ rest) s small h =
      let n : (step s r).batches ≡ s.batches + 1 = omega (arith, step_counts s r) in
      let (paced, total) =
        run-IsPaced rest (step s r) (omega (arith, n)) (step-IsPaced s r (omega arith) h) in
      (paced, omega (arith, total, n))

  last_tick_due :
      (s : PumpState B)
      → IsPaced s
      → 0 < s.batches
      → (older : List (ℕ × ℕ)) × ((last_tick s).ticks ≡ (s.rows, s.batches) ∷ older)
  unfolding last_tick
  last_tick_due s h pos = elim (Bool-cases (s.batches == s.next_log / 2)) [
    | inl e ↦ let (older, ticks) = h.logged pos (ground arith) in (older, ground arith)
    | inr n ↦ (s.ticks, ground arith)
  ]

  rows-run :
      (rounds : List (Round B)) (s : PumpState B)
      → s.rows < 2 ^ 64
      → (run s rounds).rows ≡ u64 (s.rows + sum_rows rounds)
  unfolding run
  rows-run [] s h = omega arith
  rows-run (r ∷ rest) s h =
      omega (arith, rows-run rest (step s r) (omega (arith, step_counts s r)), step_counts s r)

  -- For fewer than 2^63 batches the statistics count every batch read, forwarded or not: the number
  -- of batches exactly and their rows as a `u64` counts; and if any batch was read, the last
  -- progress report shows exactly these two totals.
  pub pump_reports_totals :
      (failure : Option String) (flow : Option FlowWindow) (rounds : List (Round B))
      (end : StreamEnd)
      → length rounds < 2 ^ 63
      → let s = (pump failure flow rounds end).final in
        (s.batches ≡ length rounds)
        × (s.rows ≡ u64 (sum_rows rounds))
        × (0 < length rounds
            → (older : List (ℕ × ℕ)) × (s.ticks ≡ (u64 (sum_rows rounds), length rounds) ∷ older))
  unfolding open_writer
  pump_reports_totals failure flow rounds end small =
      let s0 = open_writer failure flow in
      let s = run s0 rounds in
      let (paced, counted) = run-IsPaced rounds s0 (omega arith) (ground arith) in
      let n : s.batches ≡ length rounds = omega (arith, counted) in
      let total : s.rows ≡ u64 (sum_rows rounds) =
        omega (arith, rows-run rounds s0 (omega arith)) in
      let e = final-pump failure flow rounds end in
      (
        ap (λ t. t.batches) e ∙ (last_tick_keeps s).2 ∙ n,
        ap (λ t. t.rows) e ∙ (last_tick_keeps s).1 ∙ total,
        λ pos.
            let (older, ticks) = last_tick_due s paced (omega (arith, n)) in
            (older, ap (λ t. t.ticks) e ∙ ticks ∙ ap₂ (λ a b. (a, b) ∷ older) total n),
      )
