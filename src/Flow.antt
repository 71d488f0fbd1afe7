-- ===== src/Flow.antt =====
-- Flow control: the core's window (crates/loadsmith-core/src/pump.rs, `FlowWindow`) and the
-- source's gate (crates/loadsmith-plugin-sdk/src/flow.rs, `FlowGrant` and `FlowGate`).
-- A `watch` channel is the value that it holds.
pub mod Bounds
use loadsmith.Prelude.{
  ℕ, ◌+◌, ◌-◌, ◌*◌, ◌/◌, ◌%◌, ◌^◌, min, max, Bool, Option, none, some, ltb, leb, ◌==◌,
  if◌then◌else◌, u64,
}

abbrev pub u64_max : ℕ
u64_max = 2 ^ 64 - 1

-- `pipeline.flow`
pub record FlowConfig : Type 0 where
  pub max_inflight_batches : ℕ
  pub memory_budget_mib : ℕ

-- `granted` is the value of the watch channel `tx`.
pub record FlowWindow : Type 0 where
  pub granted : ℕ
  pub limit : ℕ
  pub budget : ℕ
  pub window : ℕ
  pub largest : ℕ

-- `u64::saturating_mul`
abbrev pub saturating_mul : ℕ → ℕ → ℕ
saturating_mul a b = min (a * b) u64_max

unfoldable pub new : FlowConfig → FlowWindow
new config =
    let limit = max config.max_inflight_batches 1 in
    let window = min limit 2 in
    record {
      granted = window;
      limit = limit;
      budget = saturating_mul config.memory_budget_mib (2 ^ 20);
      window = window;
      largest = 0;
    }

-- `x.clamp(lo, hi)` where `lo ≤ hi`
abbrev pub clamp : ℕ → ℕ → ℕ → ℕ
clamp x lo hi = if ltb x lo then lo else if ltb hi x then hi else x

-- the `match (self.budget, self.largest)`
unfoldable pub resize : ℕ → ℕ → ℕ → ℕ
resize budget largest limit =
    if budget == 0 then limit else if largest == 0 then limit else clamp (budget / largest) 1 limit

-- `send_if_modified` with a closure that only raises the value
unfoldable pub raise : ℕ → ℕ → ℕ
raise granted grant = if ltb granted grant then grant else granted

-- The destination took batch `seq`, of `bytes`. The sum is of `u64`s, and wraps.
unfoldable pub forwarded : FlowWindow → ℕ → ℕ → FlowWindow
unfolding resize raise
forwarded w seq bytes =
    let largest = max w.largest bytes in
    let window = resize w.budget largest w.limit in
    record w { largest = largest; window = window; granted = raise w.granted (u64 (seq + window)) }

-- `FlowGrant::new`: `None` opens the gate for good.
unfoldable pub grant_new : Option ℕ → ℕ
grant_new none = u64_max
grant_new (some credit) = credit

-- `FlowGrant::grant` on the gate's value
unfoldable pub grant : ℕ → ℕ → ℕ
grant granted batch_seq = if ltb granted batch_seq then batch_seq else granted

-- `FlowGate::wait_for` resolves exactly when this holds (the channel is open).
unfoldable pub may_fetch : ℕ → ℕ → Bool
may_fetch granted batch_seq = leb batch_seq granted
