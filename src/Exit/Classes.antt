-- ===== src/Exit/Classes.antt =====
-- What the exit codes of crates/loadsmith-cli/src/exit.rs tell.
use loadsmith.Prelude.{◌<◌, arith, ◌≡◌, ◌↔◌, refl, Option, none, some, List, [], ◌∷◌}
use loadsmith.Shutdown.{StopSignal, interrupt, terminate, exit_code}
use loadsmith.Exit.{
  Exit, run_failed, usage, config, CoreError, plugin_not_found, plugin_incompatible,
  plugin_rejected_config, plugin_failed, plugin_process, protocol, timeout, state_error,
  config_error, io_error, transport_error, core_interrupted, failed, cancelled, Cause, core,
  bad_config, usage_error, run_outcome, untyped, code, for_signal, of_core, classify,
}

-- The signal that a cause was a stop by.
abbrev pub stop_of_core : CoreError → Option StopSignal
stop_of_core (core_interrupted sig) = some sig
stop_of_core e = none

-- The signal of the first cause whose type is known.
abbrev pub first_stop : List Cause → Option StopSignal
first_stop [] = none
first_stop (untyped ∷ causes) = first_stop causes
first_stop (core e ∷ causes) = stop_of_core e
first_stop (run_outcome (cancelled pipeline sig) ∷ causes) = some sig
first_stop (run_outcome (failed pipeline) ∷ causes) = none
first_stop (bad_config ∷ causes) = none
first_stop (usage_error w ∷ causes) = none

-- An exit code that is a failure's, and is a signal's exactly for a stop by it.
abbrev Tells : Exit → Option StopSignal → Type 0
Tells e stop = (0 < code e) × ((sig : StopSignal) → (code e ≡ exit_code sig) ↔ (stop ≡ some sig))

plain : (e : Exit) → 0 < code e → code e < 130 → Tells e none
unfolding exit_code
plain e pos small = (pos, λ sig. (λ same. absurd (high sig same), λ none_is. absurd (cc none_is)))
  where
    high : (sig : StopSignal) → code e ≡ exit_code sig → ⊥
    high interrupt same = omega arith
    high terminate same = omega arith

signalled : (sig : StopSignal) → Tells (for_signal sig) (some sig)
unfolding for_signal code exit_code
signalled interrupt = (omega arith, go)
  where
    go : (sig : StopSignal) → (130 ≡ exit_code sig) ↔ (some interrupt ≡ some sig)
    go interrupt = (λ _. refl, λ _. refl)
    go terminate = (λ e. absurd (omega arith), λ e. absurd (cc e))
signalled terminate = (omega arith, go)
  where
    go : (sig : StopSignal) → (143 ≡ exit_code sig) ↔ (some terminate ≡ some sig)
    go interrupt = (λ e. absurd (omega arith), λ e. absurd (cc e))
    go terminate = (λ _. refl, λ _. refl)

of_core-Tells : (e : CoreError) → Tells (of_core e) (stop_of_core e)
unfolding of_core code
of_core-Tells (core_interrupted sig) = signalled sig
of_core-Tells (plugin_not_found w) =
    plain (of_core (plugin_not_found w)) (omega arith) (omega arith)
of_core-Tells (plugin_incompatible w) =
    plain (of_core (plugin_incompatible w)) (omega arith) (omega arith)
of_core-Tells (plugin_rejected_config w) =
    plain (of_core (plugin_rejected_config w)) (omega arith) (omega arith)
of_core-Tells (plugin_failed w) = plain (of_core (plugin_failed w)) (omega arith) (omega arith)
of_core-Tells (plugin_process w) = plain (of_core (plugin_process w)) (omega arith) (omega arith)
of_core-Tells (protocol w) = plain (of_core (protocol w)) (omega arith) (omega arith)
of_core-Tells (timeout w) = plain (of_core (timeout w)) (omega arith) (omega arith)
of_core-Tells (state_error w) = plain (of_core (state_error w)) (omega arith) (omega arith)
of_core-Tells (config_error w) = plain (of_core (config_error w)) (omega arith) (omega arith)
of_core-Tells (io_error w) = plain (of_core (io_error w)) (omega arith) (omega arith)
of_core-Tells (transport_error w) = plain (of_core (transport_error w)) (omega arith) (omega arith)

-- A failed command never exits with code 0, and it exits with the code of a signal exactly if the
-- first cause in the chain whose type is known was a stop by this signal.
pub classify_tells :
    (causes : List Cause)
    → (0 < code (classify causes))
      × ((sig : StopSignal)
          → (code (classify causes) ≡ exit_code sig) ↔ (first_stop causes ≡ some sig))
unfolding classify
classify_tells [] = plain run_failed (unfold code in omega arith) (unfold code in omega arith)
classify_tells (untyped ∷ causes) = classify_tells causes
classify_tells (core e ∷ causes) = of_core-Tells e
classify_tells (bad_config ∷ causes) =
    plain config (unfold code in omega arith) (unfold code in omega arith)
classify_tells (usage_error w ∷ causes) =
    plain usage (unfold code in omega arith) (unfold code in omega arith)
classify_tells (run_outcome (failed pipeline) ∷ causes) =
    plain run_failed (unfold code in omega arith) (unfold code in omega arith)
classify_tells (run_outcome (cancelled pipeline sig) ∷ causes) = signalled sig
