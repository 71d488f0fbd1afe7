-- ===== src/Run/DataPhase/Explaining.antt =====
-- The failure for a broken data stream (crates/loadsmith-core/src/runner.rs, `source_failure`).
use loadsmith.Prelude.{ℕ, String, Bool, ◌||◌, none, some, List, [], ◌∷◌, if◌then◌else◌}
use loadsmith.Exit.{plugin_failed}
use loadsmith.Peer.{
  Peer, Inbound, received, resend_requested, at_end, handled, event, malformed_twice, process,
}
use loadsmith.Run.Failing.{Failure, of, finished_failure, exited}
use loadsmith.Run.DataPhase.Data.{is_some}

-- The loop of `source_failure`, which lets the producer explain.
unfoldable pub explain : (ℕ → Bool) → List Inbound → Peer → Peer
explain fails [] src = src
explain fails (l ∷ ls) src =
    if is_some src.finished_with || src.is_eof
    then src
    else let (src', out) = process fails l src in
      elim out [
        | malformed_twice reason ↦ src'
        | handled ↦ explain fails ls src'
        | event e ↦ elim e [
          | at_end ↦ src'
          | received msg ↦ explain fails ls src'
          | resend_requested ↦ explain fails ls src'
        ]
      ]

-- the `match` of `source_failure`
unfoldable pub source_failure : String → String → Peer → Failure
source_failure label problem src = elim src.finished_with [
  | some success ↦ if success then of label (plugin_failed problem) else finished_failure label
  | none ↦ if src.is_eof then exited label else of label (plugin_failed problem)
]
