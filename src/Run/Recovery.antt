-- ===== src/Run/Recovery.antt =====
-- The attempts of a run (crates/loadsmith-core/src/runner.rs, `run_pipeline`): an attempt that fails
-- for a reason that may pass is followed by another one, after a wait in seconds.
pub mod Waiting
pub mod Retrying
pub mod Spacing
use loadsmith.Prelude.{
  ℕ, suc, zero, ◌+◌, ◌-◌, ◌*◌, ◌%◌, ◌^◌, min, max, String, Bool, true, false, not, ◌&&◌, Option,
  none, some, List, [], ◌∷◌, ltb, if◌then◌else◌,
}
use loadsmith.Exit.{
  CoreError, plugin_failed, plugin_process, plugin_rejected_config, timeout, transport_error,
  io_error, plugin_not_found, plugin_incompatible, protocol, core_interrupted, config_error,
  state_error,
}

pub data SummaryStatus : Type 0 where
  success error cancelled : SummaryStatus

-- the part of a `Summary` that the attempts depend on
pub record Summary : Type 0 where
  pub status : SummaryStatus
  pub root_cause : Option String
  pub rows_written : ℕ
  pub attempts : ℕ

-- the `Result` of an attempt
pub data Outcome : Type 0 where
  ok : Summary → Outcome
  err : CoreError → Outcome

pub record RecoveryConfig : Type 0 where
  pub max_attempts : ℕ
  pub backoff_seconds : ℕ

-- What happens to a run: what validation says of its pipeline, what its attempts come to, by their
-- number, and whether a stop request came before the end of an attempt, or in the wait behind it.
pub record World : Type 0 where
  pub rejected : Option CoreError
  pub attempt : ℕ → Outcome
  pub fired : ℕ → Bool
  pub woken : ℕ → Bool

-- What a run comes to: its result, the number of its last attempt and the waits
-- that it began.
pub record Report : Type 0 where
  pub outcome : Outcome
  pub number : ℕ
  pub waits : List ℕ

unfoldable pub retryable : CoreError → Bool
retryable (plugin_failed w) = true
retryable (plugin_process w) = true
retryable (plugin_rejected_config w) = true
retryable (timeout w) = true
retryable (transport_error w) = true
retryable (io_error w) = true
retryable (plugin_not_found w) = false
retryable (plugin_incompatible w) = false
retryable (protocol w) = false
retryable (core_interrupted s) = false
retryable (config_error w) = false
retryable (state_error w) = false

-- the largest `u64`
abbrev pub max_u64 : ℕ
max_u64 = 18446744073709551615

-- `backoff`; its product saturates.
unfoldable pub backoff : ℕ → ℕ → ℕ
backoff base failed = min (min (base * 2 ^ min (failed - 1) 20) max_u64) 3600

-- whether there is a cause to try again
unfoldable pub has_cause : Outcome → Bool
unfolding retryable
has_cause (err e) = retryable e
has_cause (ok s) = elim s.status [
  | success ↦ false
  | error ↦ elim s.root_cause [ none ↦ false | some text ↦ true ]
  | cancelled ↦ false
]

unfoldable pub progressed : Outcome → Bool
progressed (err e) = false
progressed (ok s) = ltb 0 s.rows_written

abbrev pub with_attempts : ℕ → Outcome → Outcome
with_attempts n (err e) = err e
with_attempts n (ok s) = ok (record s { attempts = n })

abbrev pub before : ℕ → Option Report → Option Report
before wait none = none
before wait (some r) = some (record r { waits = wait ∷ r.waits })

-- a sum of two `u32`
abbrev pub add_u32 : ℕ → ℕ → ℕ
add_u32 a b = (a + b) % 4294967296

-- Whether the attempt is to be followed by another one.
unfoldable pub retries : World → ℕ → ℕ → Bool
unfolding has_cause
retries world max_attempts number =
    has_cause (world.attempt number) && ltb number max_attempts && not (world.fired number)

-- The loop, from an attempt and the number of failures without progress before it; `none` is a
-- loop that has not ended within the fuel.
unfoldable pub attempts : World → RecoveryConfig → ℕ → ℕ → ℕ → Option Report
unfolding retries progressed backoff
attempts world recovery zero number idle = none
attempts world recovery (suc fuel) number idle =
    let outcome = world.attempt number in
    let failures = if progressed outcome then 1 else add_u32 idle 1 in
    let wait = backoff recovery.backoff_seconds failures in
    let rest = attempts world recovery fuel (add_u32 number 1) failures in
    let report : Report = record {
      outcome = with_attempts number outcome;
      number = number;
      waits = [];
    } in
    if retries world (max recovery.max_attempts 1) number
    then (if world.woken number then before wait (some report) else before wait rest)
    else some report

-- `run_pipeline`, with fuel for every attempt that it may make
unfoldable pub run_pipeline : World → RecoveryConfig → Bool → Option Report
unfolding attempts
run_pipeline world recovery dry_run = elim world.rejected [
  | some e ↦ some (record { outcome = err e; number = 0; waits = [] })
  | none ↦
      if dry_run
      then some (record {
        outcome =
            ok (record { status = success; root_cause = none; rows_written = 0; attempts = 1 });
        number = 0;
        waits = [];
      })
      else attempts world recovery (max recovery.max_attempts 1) 1 0
]
