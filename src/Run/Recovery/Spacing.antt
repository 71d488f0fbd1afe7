-- ===== src/Run/Recovery/Spacing.antt =====
-- The waits of a run (crates/loadsmith-core/src/runner.rs, `run_pipeline` and `backoff`).
use loadsmith.Prelude.{
  ℕ, suc, zero, ◌+◌, ◌*◌, ◌<◌, min, max, ◌≡◌, refl, sym, ap, ◌∙◌, subst, Bool, true, false, Option,
  none, some, List, [], ◌∷◌, if◌then◌else◌, arith,
}
use loadsmith.Run.Recovery.{
  World, RecoveryConfig, Report, err, retries, attempts, run_pipeline, progressed, backoff, add_u32,
  with_attempts, before,
}
use loadsmith.Exit.{CoreError}
use loadsmith.Run.Recovery.Waiting.{backoff_first, backoff_doubles}
use loadsmith.Run.Recovery.Retrying.{may_follow, next}

-- The waits from an attempt on: behind an attempt that wrote something the base, and behind one that
-- did not what is due, which is twice the wait before; each at most an hour.
pub IsSpaced : (ℕ → Bool) → ℕ → ℕ → ℕ → List ℕ → Type 0
IsSpaced wrote base n due [] = Unit
IsSpaced wrote base n due (w ∷ ws) =
    (w ≡ (if wrote n then min base 3600 else due))
    × IsSpaced wrote base (suc n) (min (2 * w) 3600) ws

abbrev wrote : World → ℕ → Bool
wrote world n = progressed (world.attempt n)

abbrev pub Spaced : World → ℕ → ℕ → ℕ → Option Report → Type 0
Spaced world base n due none = Unit
Spaced world base n due (some r) = IsSpaced (wrote world) base n due r.waits

before-Spaced :
    (world : World) (base n idle : ℕ) (o : Option Report)
    → idle < 4294967295
    → let failures = if wrote world n then 1 else add_u32 idle 1 in
      Spaced world base (suc n) (backoff base (failures + 1)) o
      → Spaced world base n (backoff base (idle + 1)) (before (backoff base failures) o)
unfolding IsSpaced
before-Spaced world base n idle none small h = tt
before-Spaced world base n idle (some r) small h = go (wrote world n) h
  where
    go :
        (b : Bool)
        → let failures = if b then 1 else add_u32 idle 1 in
          IsSpaced (wrote world) base (suc n) (backoff base (failures + 1)) r.waits
          → (backoff base failures ≡ (if b then min base 3600 else backoff base (idle + 1)))
            × IsSpaced (wrote world) base (suc n) (min (2 * backoff base failures) 3600) r.waits
    go true h = (
      backoff_first base,
      subst (λ d. IsSpaced (wrote world) base (suc n) d r.waits) (backoff_doubles base 0) h,
    )
    go false h =
        let e : add_u32 idle 1 ≡ idle + 1 = ground arith in
        (
          ap (backoff base) e,
          subst (λ i. IsSpaced (wrote world) base (suc n) (min (2 * backoff base i) 3600) r.waits)
              (sym e)
              (subst (λ d. IsSpaced (wrote world) base (suc n) d r.waits)
                (ap (backoff base) (ap (λ i. i + 1) e ∙ ground arith) ∙ backoff_doubles base idle)
                h),
        )

unwaited-IsSpaced :
    (world : World) (base n idle : ℕ) (r : Report)
    → r.waits ≡ []
    → Spaced world base n (backoff base (idle + 1)) (some r)
unwaited-IsSpaced world base n idle r e =
    subst (λ ws. IsSpaced (wrote world) base n (backoff base (idle + 1)) ws) (sym e)
      (unfold IsSpaced in tt)

attempts-Spaced :
    (world : World) (recovery : RecoveryConfig) (fuel n idle : ℕ)
    → max recovery.max_attempts 1 < 4294967296
    → idle < n
    → Spaced world recovery.backoff_seconds n
        (backoff recovery.backoff_seconds (idle + 1))
        (attempts world recovery fuel n idle)
unfolding attempts
attempts-Spaced world recovery zero n idle small below = tt
attempts-Spaced world recovery (suc fuel) n idle small below =
    go (retries world (max recovery.max_attempts 1) n) refl (world.woken n) (λ less.
      let e : add_u32 n 1 ≡ suc n = next n (ground arith) in
      subst
        (λ i.
          Spaced world base i (backoff base (failures + 1))
            (attempts world recovery fuel (add_u32 n 1) failures))
        e
        (attempts-Spaced world recovery fuel (add_u32 n 1) failures small
          (fewer (wrote world n) (ground arith) e)))
  where
    base : ℕ
    base = recovery.backoff_seconds

    failures : ℕ
    failures = if wrote world n then 1 else add_u32 idle 1

    fewer :
        (b : Bool)
        → n < 4294967295
        → add_u32 n 1 ≡ suc n
        → (if b then 1 else add_u32 idle 1) < add_u32 n 1
    fewer b less e = ground arith

    report : Report
    report = record { outcome = with_attempts n (world.attempt n); number = n; waits = [] }

    go :
        (a : Bool)
        → retries world (max recovery.max_attempts 1) n ≡ a
        → (b : Bool)
        → (n < max recovery.max_attempts 1
            → Spaced world base
                (suc n)
                (backoff base (failures + 1))
                (attempts world recovery fuel (add_u32 n 1) failures))
        → Spaced world base n (backoff base (idle + 1)) (
            if a
            then (if b
                then before (backoff base failures) (some report)
                else before
                    (backoff base failures)
                    (attempts world recovery fuel (add_u32 n 1) failures))
            else some report)
    go false e b rec = unwaited-IsSpaced world base n idle report refl
    go true e true rec =
        let less = may_follow world _ n e in
        before-Spaced world base n idle (some report) (ground arith)
          (unwaited-IsSpaced world base (suc n) failures report refl)
    go true e false rec =
        let less = may_follow world _ n e in
        before-Spaced world base n idle (attempts world recovery fuel (add_u32 n 1) failures)
          (ground arith) (rec less)

-- Every wait of a run, with at most 2 ^ 32 - 1 attempts configured, is the configured base behind
-- an attempt that wrote rows and in front of any other wait, and twice the wait before it behind any
-- other attempt; and at most an hour.
pub waits_double :
    (world : World) (recovery : RecoveryConfig) (r : Report)
    → max recovery.max_attempts 1 < 4294967296
    → run_pipeline world recovery false ≡ some r
    → IsSpaced (wrote world) recovery.backoff_seconds 1 (min recovery.backoff_seconds 3600) r.waits
unfolding run_pipeline
waits_double world recovery r small e = go world.rejected e
  where
    base : ℕ
    base = recovery.backoff_seconds

    go :
        (o : Option CoreError)
        → (elim o as (λ _. Option Report) [
          | some e ↦ some (record { outcome = err e; number = 0; waits = [] })
          | none ↦ attempts world recovery (max recovery.max_attempts 1) 1 0
        ])
          ≡ some r
        → IsSpaced (wrote world) base 1 (min base 3600) r.waits
    go (some f) e = subst (Spaced world base 1 (min base 3600)) e (unfold IsSpaced in tt)
    go none e =
        subst (λ d. IsSpaced (wrote world) base 1 d r.waits) (backoff_first base)
          (subst (Spaced world base 1 (backoff base 1)) e
            (attempts-Spaced world recovery (max recovery.max_attempts 1) 1 0 small (ground arith)))
