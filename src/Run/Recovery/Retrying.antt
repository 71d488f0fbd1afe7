-- ===== src/Run/Recovery/Retrying.antt =====
-- Which attempts a run makes (crates/loadsmith-core/src/runner.rs, `run_pipeline`).
use loadsmith.Prelude.{
  ℕ, suc, zero, ◌+◌, ◌≤◌, ◌<◌, max, ◌≡◌, refl, sym, ap, ap₂, subst, ◌==◌, ◌∙◌, Bool, true, false,
  not, ◌&&◌, Option, none, some, [], if◌then◌else◌, arith, Bool-cases, inl, inr,
}
use loadsmith.Run.Recovery.{
  World, RecoveryConfig, Report, err, retries, attempts, run_pipeline, progressed, backoff, add_u32,
  with_attempts, before,
}

-- A report on the attempts from a number on: all but the last were to be followed by another and
-- the wait behind them was not cut off, and the last is not, or its wait was cut off.
pub record IsReport (world : World) (max_attempts first : ℕ) (r : Report) : Type 0 where
  pub reached : (first ≤ r.number) × (r.number ≤ max_attempts)
  pub retried :
      (k : ℕ)
      → first ≤ k
      → k < r.number
      → (retries world max_attempts k ≡ true) × (world.woken k ≡ false)
  pub ended : (retries world max_attempts r.number && not (world.woken r.number)) ≡ false
  pub outcome : r.outcome ≡ with_attempts r.number (world.attempt r.number)

abbrev pub Reports : World → ℕ → ℕ → Option Report → Type 0
Reports world max_attempts first none = ⊥
Reports world max_attempts first (some r) = IsReport world max_attempts first r

pub may_follow : (world : World) (m n : ℕ) → retries world m n ≡ true → n < m
unfolding retries
may_follow world m n e = ground arith

followed :
    (world : World) (m n wait : ℕ) (o : Option Report)
    → retries world m n ≡ true
    → world.woken n ≡ false
    → Reports world m (suc n) o
    → Reports world m n (before wait o)
followed world m n wait none e f h = absurd h
followed world m n wait (some r) e f h = record {
  reached = (ground (arith, h.reached), h.reached.1);
  retried = λ k from below. elim (Bool-cases (k == n)) [
    | inl same ↦
        subst (λ i. (retries world m i ≡ true) × (world.woken i ≡ false)) (ground (arith, same))
          (e, f)
    | inr other ↦ h.retried k (ground (arith, other, from)) below
  ];
  ended = h.ended;
  outcome = h.outcome;
}

pub next : (n : ℕ) → n < 4294967295 → add_u32 n 1 ≡ suc n
next n h = ground arith

attempts-Reports :
    (world : World) (recovery : RecoveryConfig) (fuel n idle : ℕ)
    → max recovery.max_attempts 1 < 4294967296
    → n ≤ max recovery.max_attempts 1
    → max recovery.max_attempts 1 < n + fuel
    → Reports world (max recovery.max_attempts 1) n (attempts world recovery fuel n idle)
unfolding attempts
attempts-Reports world recovery zero n idle small le enough = absurd (ground arith)
attempts-Reports world recovery (suc fuel) n idle small le enough =
    let m = max recovery.max_attempts 1 in
    let failures = if progressed (world.attempt n) then 1 else add_u32 idle 1 in
    let wait = backoff recovery.backoff_seconds failures in
    go failures wait (retries world m n) refl (world.woken n) refl (λ less.
      let e : add_u32 n 1 ≡ suc n = next n (ground arith) in
      subst (λ i. Reports world m i (attempts world recovery fuel (add_u32 n 1) failures)) e
        (attempts-Reports world recovery fuel (add_u32 n 1) failures small (ground arith)
          (ground arith)))
  where
    report : Report
    report = record { outcome = with_attempts n (world.attempt n); number = n; waits = [] }

    last :
        (r : Report)
        → r.number ≡ n
        → r.outcome ≡ with_attempts n (world.attempt n)
        → (retries world (max recovery.max_attempts 1) n && not (world.woken n)) ≡ false
        → IsReport world (max recovery.max_attempts 1) n r
    last r e f over = record {
      reached = (ground (arith, e), ground (arith, e));
      retried = λ k from below. absurd (ground (arith, e));
      ended =
          ap (λ i. retries world (max recovery.max_attempts 1) i && not (world.woken i)) e ∙ over;
      outcome = f ∙ ap (λ i. with_attempts i (world.attempt i)) (sym e);
    }

    go :
        (failures wait : ℕ) (a : Bool)
        → retries world (max recovery.max_attempts 1) n ≡ a
        → (b : Bool) → world.woken n ≡ b
        → (n < max recovery.max_attempts 1
            → Reports world
                (max recovery.max_attempts 1)
                (suc n)
                (attempts world recovery fuel (add_u32 n 1) failures))
        → Reports world (max recovery.max_attempts 1) n (
            if a
            then (if b
                then before wait (some report)
                else before wait (attempts world recovery fuel (add_u32 n 1) failures))
            else some report)
    go failures wait false e b f rec = last report refl refl (ap (λ a. a && not (world.woken n)) e)
    go failures wait true e true f rec = last _ refl refl (ap₂ (λ a b. a && not b) e f)
    go failures wait true e false f rec =
        followed world _ n wait _ e f (rec (may_follow world _ n e))

-- With at most 2 ^ 32 - 1 attempts configured, a run that is valid and no dry run ends, with a report
-- on the first attempt that is not to be followed by another one or whose wait was cut off; it
-- makes at least one attempt, and no more than configured.
pub attempts_end :
    (world : World) (recovery : RecoveryConfig)
    → max recovery.max_attempts 1 < 4294967296
    → world.rejected ≡ none
    → (r : Report) × ((run_pipeline world recovery false ≡ some r)
        × IsReport world (max recovery.max_attempts 1) 1 r)
unfolding run_pipeline
attempts_end world recovery small valid =
    subst
      (λ o.
        (r : Report) × (((elim o as (λ _. Option Report) [
          | some e ↦ some (record { outcome = err e; number = 0; waits = [] })
          | none ↦ attempts world recovery (max recovery.max_attempts 1) 1 0
        ])
            ≡ some r)
          × IsReport world (max recovery.max_attempts 1) 1 r))
      (sym valid)
      (found _ (
        attempts-Reports world recovery (max recovery.max_attempts 1) 1 0 small (ground arith)
          (ground arith)))
  where
    found :
        (o : Option Report)
        → Reports world (max recovery.max_attempts 1) 1 o
        → (r : Report) × ((o ≡ some r) × IsReport world (max recovery.max_attempts 1) 1 r)
    found none h = absurd h
    found (some r) h = (r, (refl, h))
