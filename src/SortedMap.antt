-- ===== src/SortedMap.antt =====
-- `BTreeMap` with `u64` keys, as the state supervisor uses it
-- (crates/loadsmith-core/src/state_supervisor.rs): the entries in the order of their keys.
use Prim.Native.Nat.{compare, Ordering}
use loadsmith.Prelude.{
  ℕ, suc, ◌≤◌, ◌≡◌, refl, ◌⊎◌, inl, inr, Option, none, some, List, [], ◌∷◌, All, arith, leb,
  if◌then◌else◌, Option-cases,
}

module _ {A : Type 0} where
  -- `insert`
  unfoldable pub insert : ℕ → A → List (ℕ × A) → List (ℕ × A)
  insert k v [] = (k, v) ∷ []
  insert k v ((j, w) ∷ m) = elim (compare k j) [
    | Ordering.lt ↦ (k, v) ∷ (j, w) ∷ m
    | Ordering.eq ↦ (k, v) ∷ m
    | Ordering.gt ↦ (j, w) ∷ insert k v m
  ]

  or_else : Option A → A → A
  or_else none w = w
  or_else (some v) w = v

  -- `range(..=n).next_back()`
  unfoldable pub last_upto : ℕ → List (ℕ × A) → Option A
  unfolding or_else
  last_upto n [] = none
  last_upto n ((j, w) ∷ m) = if leb j n then some (or_else (last_upto n m) w) else none

  pub All-insert :
      (P : ℕ × A → Type 0) (k : ℕ) (v : A) (m : List (ℕ × A))
      → P (k, v)
      → All P m
      → All P (insert k v m)
  unfolding insert
  All-insert P k v [] h hm = (h, tt)
  All-insert P k v ((j, w) ∷ m) h hm = ground (arith, All-insert P k v m h hm.1)

  -- What holds of all entries holds of the entry found, and its key is at most `n`.
  pub last_upto-All :
      (P : ℕ × A → Type 0) (n : ℕ) (m : List (ℕ × A)) {v : A}
      → All P m
      → last_upto n m ≡ some v
      → (k : ℕ) × (k ≤ n) × P (k, v)
  unfolding last_upto
  last_upto-All P n [] hm e = cc
  last_upto-All P n ((j, w) ∷ m) hm e = elim (Option-cases (last_upto n m)) [
    | inl n0 ↦ (j, ground arith, ground arith)
    | inr (v', found) ↦ let (k, le, p) = last_upto-All P n m hm.1 found in (k, le, ground arith)
  ]

  -- The keys rise.
  abbrev pub Above : ℕ → List (ℕ × A) → Type 0
  Above n [] = Unit
  Above n ((j, w) ∷ m) = (n ≤ j) × Above (suc j) m

  abbrev pub IsRising : List (ℕ × A) → Type 0
  IsRising m = Above 0 m

  abbrev pub Has : ℕ → List (ℕ × A) → Type 0
  Has k [] = ⊥
  Has k ((j, w) ∷ m) = (k ≡ j) ⊎ Has k m

  pub Above-insert :
      (lo k : ℕ) (v : A) (m : List (ℕ × A)) → lo ≤ k → Above lo m → Above lo (insert k v m)
  unfolding insert
  Above-insert lo k v [] le h = (le, tt)
  Above-insert lo k v ((j, w) ∷ m) le h = ground (arith, Above-insert (suc j) k v m)

  pub Has-insert_self : (k : ℕ) (v : A) (m : List (ℕ × A)) → Has k (insert k v m)
  unfolding insert
  Has-insert_self k v [] = inl refl
  Has-insert_self k v ((j, w) ∷ m) = ground (arith, Has-insert_self k v m)

  pub Has-insert : (i k : ℕ) (v : A) (m : List (ℕ × A)) → Has i m → Has i (insert k v m)
  unfolding insert
  Has-insert i k v [] h = elim h [ ]
  Has-insert i k v ((j, w) ∷ m) h = ground (arith, Has-insert i k v m)

  Has-Above : (lo k : ℕ) (m : List (ℕ × A)) → Above lo m → Has k m → lo ≤ k
  Has-Above lo k [] a h = elim h [ ]
  Has-Above lo k ((j, w) ∷ m) a (inl e) = omega arith
  Has-Above lo k ((j, w) ∷ m) a (inr h) = omega (arith, Has-Above (suc j) k m a.1 h)

  last_upto-Above :
      (P : ℕ × A → Type 0) (lo n : ℕ) (m : List (ℕ × A)) {v : A}
      → Above lo m
      → All P m
      → last_upto n m ≡ some v
      → (j : ℕ) × (lo ≤ j) × P (j, v)
  unfolding last_upto
  last_upto-Above P lo n [] a p e = cc
  last_upto-Above P lo n ((j, w) ∷ m) a p e = elim (Option-cases (last_upto n m)) [
    | inl n0 ↦ (j, a.0, ground arith)
    | inr (v', found) ↦
        let (j', le, q) = last_upto-Above P (suc j) n m a.1 p.1 found in
        (j', omega (arith, a.0, le), ground arith)
  ]

  -- The entry found has the highest key up to `n`.
  pub last_upto_max :
      (P : ℕ × A → Type 0) (lo n k : ℕ) (m : List (ℕ × A))
      → Above lo m
      → All P m
      → Has k m
      → k ≤ n
      → (j : ℕ) × (v : A) × (last_upto n m ≡ some v) × (k ≤ j) × P (j, v)
  unfolding last_upto
  last_upto_max P lo n k [] a p h le = elim h [ ]
  last_upto_max P lo n k ((j, w) ∷ m) a p (inr h) le =
      let (j', v, found, le', q) = last_upto_max P (suc j) n k m a.1 p.1 h le in
      (j', v, ground (arith, Has-Above (suc j) k m a.1 h), le', q)
  last_upto_max P lo n k ((j, w) ∷ m) a p (inl e) le = elim (Option-cases (last_upto n m)) [
    | inl n0 ↦ (j, w, ground arith, omega arith, p.0)
    | inr (v, found) ↦
        let (j', le', q) = last_upto-Above P (suc j) n m a.1 p.1 found in
        (j', v, ground arith, omega (arith, le'), q)
  ]
