-- ===== src/Run/Recovery/Waiting.antt =====
-- The wait between two attempts (crates/loadsmith-core/src/runner.rs, `backoff`).
use loadsmith.Prelude.{
  ℕ, suc, ◌+◌, ◌-◌, ◌*◌, ◌^◌, ◌≤◌, min, ◌≡◌, sym, ap, ◌∙◌, arith, leb, Bool-cases, inl, inr,
}
use native.Mathlib.Nat.{pow-succ', mul_left_comm}
use loadsmith.Run.Recovery.{backoff, max_u64}

pub backoff_bound : (base failed : ℕ) → backoff base failed ≤ 3600
unfolding backoff
backoff_bound base failed = ground arith

pub backoff_first : (base : ℕ) → backoff base 1 ≡ min base 3600
unfolding backoff
backoff_first base = ground arith

doubled : (x : ℕ) → min (min (2 * x) max_u64) 3600 ≡ min (2 * min (min x max_u64) 3600) 3600
doubled x = ground arith

-- The product where the exponent grows.
grows : (base n : ℕ) → base * 2 ^ suc n ≡ 2 * (base * 2 ^ n)
grows base n = ap (λ x. base * x) (pow-succ' 2 n) ∙ mul_left_comm base 2 (2 ^ n)

-- Behind the largest exponent an hour is reached, or there is no wait.
reached :
    (base : ℕ)
    → min (min (base * 2 ^ 20) max_u64) 3600 ≡ min (2 * min (min (base * 2 ^ 20) max_u64) 3600) 3600
reached base = ground arith

pub backoff_doubles : (base n : ℕ) → backoff base (n + 2) ≡ min (2 * backoff base (n + 1)) 3600
unfolding backoff
backoff_doubles base n = elim (Bool-cases (leb 20 n)) [
  | inl late ↦
      let e : min (n + 2 - 1) 20 ≡ 20 = ground arith in
      let f : min (n + 1 - 1) 20 ≡ 20 = ground arith in
      ap (λ i. min (min (base * 2 ^ i) max_u64) 3600) e
      ∙ reached base
      ∙ ap (λ i. min (2 * min (min (base * 2 ^ i) max_u64) 3600) 3600) (sym f)
  | inr early ↦
      let e : min (n + 2 - 1) 20 ≡ suc n = ground arith in
      let f : min (n + 1 - 1) 20 ≡ n = ground arith in
      ap (λ i. min (min (base * 2 ^ i) max_u64) 3600) e
      ∙ ap (λ x. min (min x max_u64) 3600) (grows base n)
      ∙ doubled (base * 2 ^ n)
      ∙ ap (λ i. min (2 * min (min (base * 2 ^ i) max_u64) 3600) 3600) (sym f)
]
