-- ===== src/Shutdown.antt =====
-- Stop requests (crates/loadsmith-core/src/shutdown.rs). The `watch` channel of a `Shutdown` is the
-- value that it holds; its clones share it.
use loadsmith.Prelude.{ℕ, String, ◌≡◌, refl, Option, none, some, List, [], ◌∷◌}

pub data StopSignal : Type 0 where
  interrupt terminate : StopSignal

unfoldable pub exit_code : StopSignal → ℕ
exit_code interrupt = 130
exit_code terminate = 143

pub data Halt : Type 0 where
  signal : StopSignal → Halt
  abort : String → Halt

-- `ShutdownTrigger::trigger`
unfoldable pub trigger : Option Halt → Halt → Option Halt
trigger none halt = some halt
trigger (some first) halt = some first

-- the triggers of a run, in the order in which they came
unfoldable pub trigger_all : Option Halt → List Halt → Option Halt
unfolding trigger
trigger_all fired [] = fired
trigger_all fired (halt ∷ rest) = trigger_all (trigger fired halt) rest

trigger_all-some : (halt : Halt) (rest : List Halt) → trigger_all (some halt) rest ≡ some halt
unfolding trigger_all
trigger_all-some halt [] = refl
trigger_all-some halt (h ∷ rest) = trigger_all-some halt rest

-- A shutdown that had not fired holds the first halt triggered, whatever is triggered later.
pub trigger_first : (halt : Halt) (rest : List Halt) → trigger_all none (halt ∷ rest) ≡ some halt
unfolding trigger_all
trigger_first halt rest = trigger_all-some halt rest
