-- ===== src/Text.antt =====
-- The text operations of Rust's `str` that the code uses, on the code points of a text; and the result
-- of a function that may fail.
use Prim.Native.Char.{code}
use loadsmith.Prelude.{
  ℕ, ◌<◌, ◌≡◌, refl, ap, String, Bool, true, false, ◌&&◌, Option, none, some, List, [], ◌∷◌, ◌++◌,
  length, ◌==◌, if◌then◌else◌, arith, length-append,
}

pub data Result (E A : Type 0) : Type 0 where
  err : E → Result E A
  ok : A → Result E A

abbrev pub codes : String → List ℕ
codes String.[] = []
codes (String.◌∷◌ c s) = code c ∷ codes s

eq_of : (a b : ℕ) → (a == b) ≡ true → a ≡ b
eq_of a b e = ground arith

-- `s == t`
unfoldable pub same : List ℕ → List ℕ → Bool
same [] [] = true
same [] (c ∷ t) = false
same (c ∷ s) [] = false
same (c ∷ s) (d ∷ t) = c == d && same s t

-- `s.find(c)`: what stands before and behind the first `c`.
unfoldable pub split : ℕ → List ℕ → Option (List ℕ × List ℕ)
split c [] = none
split c (d ∷ s) =
    if d == c
    then some ([], s)
    else elim (split c s) [ none ↦ none | some (before, after) ↦ some (d ∷ before, after) ]

-- `s.trim_start_matches(c)`
unfoldable pub trim_start_matches : ℕ → List ℕ → List ℕ
trim_start_matches c [] = []
trim_start_matches c (d ∷ s) = if d == c then trim_start_matches c s else d ∷ s

-- `s.trim_end_matches(c)`
unfoldable pub trim_end_matches : ℕ → List ℕ → List ℕ
trim_end_matches c [] = []
trim_end_matches c (d ∷ s) =
    let rest = trim_end_matches c s in
    elim rest [ [] ↦ (if d == c then [] else d ∷ []) | e ∷ es ↦ d ∷ e ∷ es ]

-- A split makes up the text again, around the character, which is not in front.
abbrev pub IsSplit : ℕ → List ℕ → Option (List ℕ × List ℕ) → Type 0
IsSplit c s none = Unit
IsSplit c s (some (before, after)) = s ≡ before ++ c ∷ after

pub split-IsSplit : (c : ℕ) (s : List ℕ) → IsSplit c s (split c s)
unfolding split
split-IsSplit c [] = tt
split-IsSplit c (d ∷ s) = go (d == c) refl (split c s) (split-IsSplit c s)
  where
    go :
        (b : Bool)
        → (d == c) ≡ b
        → (o : Option (List ℕ × List ℕ)) → IsSplit c s o
        → IsSplit c (d ∷ s) (
            if b then some ([], s) else elim o as (λ _. Option (List ℕ × List ℕ)) [
              | none ↦ none
              | some (x, y) ↦ some (d ∷ x, y)
            ])
    go true e o h = ap (λ x. x ∷ s) (ground (arith, e))
    go false e none h = tt
    go false e (some (x, y)) h = ap (λ t. d ∷ t) h

pub split_shortens :
    (c : ℕ) (s before after : List ℕ) → IsSplit c s (some (before, after)) → length after < length s
split_shortens c s before after e = ground (arith, ap length e, length-append before (c ∷ after))

pub same→eq : (s t : List ℕ) → same s t ≡ true → s ≡ t
unfolding same
same→eq [] [] e = refl
same→eq [] (c ∷ t) e = absurd (cc e)
same→eq (c ∷ s) [] e = absurd (cc e)
same→eq (c ∷ s) (d ∷ t) e = go (c == d) refl (same→eq s t) e
  where
    go :
        (b : Bool)
        → (c == d) ≡ b
        → (same s t ≡ true → s ≡ t)
        → (b && same s t) ≡ true
        → c ∷ s ≡ d ∷ t
    go true f h e = cc (eq_of c d f, h e)
    go false f h e = absurd (cc e)
