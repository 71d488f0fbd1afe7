-- ===== src/Flow/Bounds.antt =====
-- What the core's window (crates/loadsmith-core/src/pump.rs) and the source's gate
-- (crates/loadsmith-plugin-sdk/src/flow.rs) let the source fetch.
use loadsmith.Prelude.{
  ℕ, ◌+◌, ◌*◌, ◌/◌, ◌%◌, ◌^◌, ◌≤◌, ◌<◌, min, max, ◌≡◌, refl, ap, ◌∙◌, true, ◌⊎◌, inl, inr, List, [],
  ◌∷◌, length, some, arith, ltb, Bool-cases,
}
use loadsmith.Flow.{
  FlowConfig, FlowWindow, u64_max, new, saturating_mul, resize, raise, forwarded, grant_new, grant,
  may_fetch,
}

-- The window between two batches, after `seq` of them, for a stream that a `u64` can count.
pub record IsWindow (w : FlowWindow) (seq : ℕ) : Type 0 where
  pub limit_pos : 1 ≤ w.limit
  pub next_granted : seq + 1 ≤ w.granted
  pub within_limit : w.granted ≤ seq + w.limit

new-IsWindow : (config : FlowConfig) → IsWindow (new config) 0
unfolding new
new-IsWindow config = omega arith

resize_bounds :
    (budget largest limit : ℕ)
    → 1 ≤ limit
    → (1 ≤ resize budget largest limit) × (resize budget largest limit ≤ limit)
unfolding resize
resize_bounds budget largest limit h = ground arith

forwarded-IsWindow :
    (w : FlowWindow) (seq bytes : ℕ)
    → seq + 1 + w.limit < 2 ^ 64
    → IsWindow w seq
    → IsWindow (forwarded w (seq + 1) bytes) (seq + 1)
unfolding forwarded raise
forwarded-IsWindow w seq bytes fits h =
    let b = resize_bounds w.budget (max w.largest bytes) w.limit h.limit_pos in
    let window = resize w.budget (max w.largest bytes) w.limit in
    let e : (seq + 1 + window) % 2 ^ 64 ≡ seq + 1 + window = omega arith in rw e (ground arith)

-- The pump's calls for a stream of batches of these sizes, `seq` batches in.
pub forward_all : FlowWindow → ℕ → List ℕ → FlowWindow
forward_all w seq [] = w
forward_all w seq (bytes ∷ rest) = forward_all (forwarded w (seq + 1) bytes) (seq + 1) rest

limit-forwarded : (w : FlowWindow) (seq bytes : ℕ) → (forwarded w seq bytes).limit ≡ w.limit
unfolding forwarded
limit-forwarded w seq bytes = refl

pub limit-forward_all :
    (w : FlowWindow) (seq : ℕ) (sizes : List ℕ) → (forward_all w seq sizes).limit ≡ w.limit
unfolding forward_all forwarded
limit-forward_all w seq [] = refl
limit-forward_all w seq (bytes ∷ rest) =
    limit-forward_all (forwarded w (seq + 1) bytes) (seq + 1) rest

forward_all-IsWindow :
    (sizes : List ℕ) (w : FlowWindow) (seq end : ℕ)
    → seq + length sizes ≡ end
    → end + w.limit < 2 ^ 64
    → IsWindow w seq
    → IsWindow (forward_all w seq sizes) end
unfolding forward_all
forward_all-IsWindow [] w seq end e fits h = omega arith
forward_all-IsWindow (bytes ∷ rest) w seq end e fits h =
    forward_all-IsWindow rest (forwarded w (seq + 1) bytes) (seq + 1) end (omega arith)
      (rw limit-forwarded (omega arith)) (forwarded-IsWindow w seq bytes (omega arith) h)

-- For every stream whose batches a `u64` can number, with a window's limit to spare, after the pump
-- has forwarded `n` batches the source may fetch batch `n + 1`, and every batch that the gate lets
-- it fetch is at most `max 1 max_inflight_batches` past the `n` forwarded ones.
pub credit_window :
    (config : FlowConfig) (sizes : List ℕ) (batch : ℕ)
    → length sizes + max config.max_inflight_batches 1 < 2 ^ 64
    → let granted = (forward_all (new config) 0 sizes).granted in
      (may_fetch granted (length sizes + 1) ≡ true)
      × (may_fetch granted batch ≡ true → batch ≤ length sizes + max config.max_inflight_batches 1)
unfolding may_fetch new
credit_window config sizes batch fits =
    let h =
      forward_all-IsWindow sizes (new config) 0 (length sizes) (omega arith) fits
        (new-IsWindow config) in
    let l = limit-forward_all (new config) 0 sizes in (ground arith, λ m. ground arith)

resize_fits :
    (budget largest limit : ℕ)
    → 0 < budget
    → 0 < largest
    → 1 ≤ limit
    → (resize budget largest limit ≡ 1) ⊎ (resize budget largest limit * largest ≤ budget)
unfolding resize
resize_fits budget largest limit b l h = elim (Bool-cases (ltb (budget / largest) 1)) [
  | inl less ↦ inl (ground arith)
  | inr more ↦ inr (grind arith)
]

-- the size of the largest batch of a stream, and 0 for a stream without one
abbrev pub maximum : List ℕ → ℕ
maximum [] = 0
maximum (bytes ∷ rest) = max bytes (maximum rest)

largest-forward_all :
    (sizes : List ℕ) (w : FlowWindow) (seq : ℕ)
    → (forward_all w seq sizes).largest ≡ max w.largest (maximum sizes)
unfolding forward_all forwarded
largest-forward_all [] w seq = omega arith
largest-forward_all (bytes ∷ rest) w seq =
    let e = largest-forward_all rest (forwarded w (seq + 1) bytes) (seq + 1) in omega arith

-- With a batch seen that is not empty, the window is one batch or fits the budget.
abbrev Fits : ℕ → FlowWindow → Type 0
Fits budget w =
    (w.budget ≡ budget)
    × (1 ≤ w.limit)
    × (0 < w.largest → (w.window ≡ 1) ⊎ (w.window * w.largest ≤ budget))

forward_all-Fits :
    (budget : ℕ)
    → 0 < budget
    → (sizes : List ℕ) (w : FlowWindow) (seq : ℕ) → Fits budget w
    → Fits budget (forward_all w seq sizes)
unfolding forward_all forwarded
forward_all-Fits budget pos [] w seq h = h
forward_all-Fits budget pos (bytes ∷ rest) w seq (e, l, _) =
    forward_all-Fits budget pos rest (forwarded w (seq + 1) bytes) (seq + 1)
      (e, l, λ some. rw e (resize_fits budget (max w.largest bytes) w.limit pos some l))

saturated : (w n m budget : ℕ) → n ≡ m → w * n ≤ min budget u64_max → w * m ≤ budget
saturated w n m budget e h = grind arith

zero-max : (n : ℕ) → max 0 n ≡ n
zero-max n = omega arith

-- With a memory budget, after every stream of batches the window knows the size of the largest
-- one of all of them; and if one was not empty, the window is one batch, or the batches that it
-- admits fit the budget even if each is as large as the largest one of the stream.
pub window_fits_budget :
    (config : FlowConfig) (sizes : List ℕ)
    → 0 < config.memory_budget_mib
    → let w = forward_all (new config) 0 sizes in
      (w.largest ≡ maximum sizes)
      × (0 < maximum sizes
          → (w.window ≡ 1) ⊎ (w.window * maximum sizes ≤ config.memory_budget_mib * 2 ^ 20))
unfolding new
window_fits_budget config sizes b =
    let e : (forward_all (new config) 0 sizes).largest ≡ maximum sizes =
      largest-forward_all sizes (new config) 0 ∙ zero-max (maximum sizes) in
    let h =
      forward_all-Fits (saturating_mul config.memory_budget_mib (2 ^ 20)) (omega arith) sizes
        (new config) 0 (refl, omega arith, λ some. absurd (omega (arith, some))) in
    (
      e,
      λ some. elim (h.2 (omega (arith, e, some))) [
        | inl one ↦ inl one
        | inr fits ↦ inr (saturated _ _ _ _ e fits)
      ],
    )

-- The grants of a run, in the order in which they were sent, as the gate applies them.
pub grant_all : ℕ → List ℕ → ℕ
grant_all granted [] = granted
grant_all granted (seq ∷ rest) = grant_all (grant granted seq) rest

abbrev pub grants : FlowWindow → ℕ → List ℕ → List ℕ
grants w seq [] = []
grants w seq (bytes ∷ rest) =
    let w' = forwarded w (seq + 1) bytes in w'.granted ∷ grants w' (seq + 1) rest

grant-forwarded :
    (w : FlowWindow) (seq bytes : ℕ)
    → grant w.granted (forwarded w seq bytes).granted ≡ (forwarded w seq bytes).granted
unfolding grant forwarded raise
grant-forwarded w seq bytes = ground arith

-- The source's gate, opened with the window's first grant and given every later one, holds what
-- the core's window has granted.
pub grant_all-forward_all :
    (w : FlowWindow) (seq : ℕ) (sizes : List ℕ)
    → grant_all (grant_new (some w.granted)) (grants w seq sizes)
      ≡ (forward_all w seq sizes).granted
unfolding grant_all grant_new forward_all
grant_all-forward_all w seq [] = refl
grant_all-forward_all w seq (bytes ∷ rest) =
    let w' = forwarded w (seq + 1) bytes in
    ap (λ g. grant_all g (grants w' (seq + 1) rest)) (grant-forwarded w (seq + 1) bytes)
    ∙ grant_all-forward_all w' (seq + 1) rest
