-- ===== src/Exit.antt =====
-- The exit code of a failed command (crates/loadsmith-cli/src/exit.rs). An error is the chain of its
-- causes, outermost first; what a cause says is left out where the code does not look at it.
pub mod Classes
use loadsmith.Prelude.{ℕ, String, Bool, true, false, not, Option, none, some, List, [], ◌∷◌}
use loadsmith.Shutdown.{StopSignal, interrupt, terminate}

pub data Exit : Type 0 where
  success run_failed usage config plugin state interrupted terminated : Exit

-- `CoreError` of crates/loadsmith-core/src/error.rs
pub data CoreError : Type 0 where
  plugin_not_found plugin_incompatible plugin_rejected_config plugin_failed : String → CoreError
  plugin_process protocol timeout state_error config_error io_error transport_error :
      String → CoreError
  core_interrupted : StopSignal → CoreError

pub data RunOutcome : Type 0 where
  failed : String → RunOutcome
  cancelled : String → StopSignal → RunOutcome

-- A cause, by what it can be downcast to.
pub data Cause : Type 0 where
  core : CoreError → Cause
  bad_config : Cause
  usage_error : String → Cause
  run_outcome : RunOutcome → Cause
  untyped : Cause

unfoldable pub code : Exit → ℕ
code success = 0
code run_failed = 1
code usage = 2
code config = 3
code plugin = 4
code state = 5
code interrupted = 130
code terminated = 143

unfoldable pub for_signal : StopSignal → Exit
for_signal interrupt = interrupted
for_signal terminate = terminated

unfoldable pub of_core : CoreError → Exit
unfolding for_signal
of_core (plugin_not_found w) = plugin
of_core (plugin_incompatible w) = plugin
of_core (plugin_rejected_config w) = config
of_core (config_error w) = config
of_core (state_error w) = state
of_core (core_interrupted sig) = for_signal sig
of_core (plugin_failed w) = run_failed
of_core (plugin_process w) = run_failed
of_core (protocol w) = run_failed
of_core (timeout w) = run_failed
of_core (io_error w) = run_failed
of_core (transport_error w) = run_failed

unfoldable pub of_outcome : RunOutcome → Exit
unfolding for_signal
of_outcome (failed pipeline) = run_failed
of_outcome (cancelled pipeline sig) = for_signal sig

unfoldable pub classify : List Cause → Exit
unfolding of_core of_outcome
classify [] = run_failed
classify (core e ∷ causes) = of_core e
classify (bad_config ∷ causes) = config
classify (usage_error w ∷ causes) = usage
classify (run_outcome out ∷ causes) = of_outcome out
classify (untyped ∷ causes) = classify causes
