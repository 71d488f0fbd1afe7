-- ===== src/Tests/DataPlane.antt =====
-- Concrete runs of the pump, of flow control, and of the source's watermark (crates/loadsmith-core/
-- src/pump.rs, crates/loadsmith-plugin-sdk/src/flow.rs and watermark.rs).
use native.Mathlib.Decide.{ℕ_discrete}
use loadsmith.Prelude.{
  ◌^◌, ℕ, ◌≤◌, ◌<◌, ◌≡◌, ◌↔◌, ◌*◌, refl, inl, inr, ◌⊎◌, Bool, true, false, none, some, List, [],
  ◌∷◌, ◌++◌, arith, u64,
}
use loadsmith.Flow.{FlowConfig, FlowWindow, new, grant_new, may_fetch}
use loadsmith.Flow.Bounds.{
  forward_all, grants, grant_all, credit_window, window_fits_budget, grant_all-forward_all,
}
use loadsmith.Pump.{Batch, Round, ended_cleanly, truncated, open_stream, pump}
use loadsmith.Pump.Totals.{
  batches_of, sum_rows, pump_forwards_prefix, pump_forwards_everything, pump_reports_totals,
}
use loadsmith.Watermark
use loadsmith.Watermark.{watermark, end}
use loadsmith.Watermark.Safe.{Order, feed, history, newest, IsSafe, watermark-IsSafe}

abbrev config : FlowConfig
config = record { max_inflight_batches = 4; memory_budget_mib = 1 }

credit_window_example :
    (may_fetch (forward_all (new config) 0 (100 ∷ 200 ∷ [])).granted 3 ≡ true)
    × (may_fetch (forward_all (new config) 0 (100 ∷ 200 ∷ [])).granted 9 ≡ true → 9 ≤ 6)
credit_window_example = credit_window config (100 ∷ 200 ∷ []) 9 (omega arith)

abbrev window : FlowWindow
window = record { granted = 4; limit = 4; budget = 1000; window = 4; largest = 100 }

window_fits_budget_example :
    ((forward_all (new config) 0 (400000 ∷ 200 ∷ [])).largest ≡ 400000)
    × (0 < 400000
        → ((forward_all (new config) 0 (400000 ∷ 200 ∷ [])).window ≡ 1)
          ⊎ ((forward_all (new config) 0 (400000 ∷ 200 ∷ [])).window * 400000 ≤ 1 * 2 ^ 20))
window_fits_budget_example = window_fits_budget config (400000 ∷ 200 ∷ []) (omega arith)

grant_all-forward_all_example :
    grant_all (grant_new (some 4)) (grants window 0 (100 ∷ 400 ∷ []))
    ≡ (forward_all window 0 (100 ∷ 400 ∷ [])).granted
grant_all-forward_all_example = grant_all-forward_all window 0 (100 ∷ 400 ∷ [])

abbrev batch : ℕ → Batch ℕ
batch n = record { payload = n; rows = 10 * n; bytes = 64 }

abbrev round : ℕ → Bool → Round ℕ
round n abort = record { batch = batch n; abort = abort; write = none }

abbrev aborted : List (Round ℕ)
aborted = round 1 false ∷ round 2 true ∷ round 3 true ∷ []

pump_forwards_prefix_example :
    (left : List (Batch ℕ)) × (batches_of aborted
      ≡ (pump none (some window) aborted truncated).final.written ++ left)
pump_forwards_prefix_example =
    pump_forwards_prefix none (some window) aborted truncated
      ((λ e. absurd (cc e)), ((λ _. (refl, tt)), ((λ _. tt), tt)))

abbrev flowing : List (Round ℕ)
flowing = round 1 false ∷ round 2 false ∷ []

pump_forwards_everything_example :
    ((pump none (some window) flowing ended_cleanly).final.written ≡ batches_of flowing)
    × ((pump none (some window) flowing ended_cleanly).final.writer ≡ open_stream)
    × (((pump none (some window) flowing ended_cleanly).source_clean ≡ true)
        ↔ (ended_cleanly ≡ ended_cleanly))
pump_forwards_everything_example =
    pump_forwards_everything (some window) flowing ended_cleanly ((refl, refl), ((refl, refl), tt))

pump_reports_totals_example :
    let s = (pump none (some window) flowing ended_cleanly).final in
    (s.batches ≡ 2)
    × (s.rows ≡ u64 (sum_rows flowing))
    × (0 < 2 → (older : List (ℕ × ℕ)) × (s.ticks ≡ (u64 (sum_rows flowing), 2) ∷ older))
pump_reports_totals_example =
    pump_reports_totals none (some window) flowing ended_cleanly (omega arith)

abbrev order : Order ℕ
order = record { dec = ℕ_discrete; Lt = ◌<◌; trans = λ a b c h k. omega arith }

abbrev batches : List (List ℕ)
batches = (3 ∷ 3 ∷ 1 ∷ []) ∷ (5 ∷ 3 ∷ []) ∷ []

watermark-IsSafe_example :
    IsSafe order (watermark (feed order Watermark.new batches)) (history order [] batches)
    × (watermark (end (feed order Watermark.new batches)) ≡ newest order (history order [] batches))
watermark-IsSafe_example =
    watermark-IsSafe order batches
      (inr (omega arith), (inl refl, (inl refl, (inr (omega arith), tt))))
