-- ===== src/Config/Mask/Replacing.antt =====
-- A text in which a value was replaced (crates/loadsmith-config/src/mask.rs, `MaskList::apply`).
use loadsmith.Prelude.{
  ℕ, suc, zero, ◌-◌, ◌≡◌, refl, ap, ◌∙◌, inl, inr, Bool, true, false, not, ◌&&◌, ◌||◌, List, [],
  ◌∷◌, ◌++◌, length, ◌==◌, if◌then◌else◌, arith, Bool-cases,
}
use loadsmith.Config.Mask.{mask, starts_with, occurs, replace}

-- A value that is not empty and has no asterisk.
abbrev pub has_no_star : List ℕ → Bool
has_no_star [] = true
has_no_star (c ∷ s) = not (c == 42) && has_no_star s

pub IsPlain : List ℕ → Type 0
IsPlain [] = ⊥
IsPlain (c ∷ s) = has_no_star (c ∷ s) ≡ true

abbrev drop : ℕ → List ℕ → List ℕ
drop zero t = t
drop (suc n) [] = []
drop (suc n) (c ∷ t) = drop n t

-- What has no asterisk and stands in front of the new text stood in front of the old one.
replace_starts :
    (s w : List ℕ) (skip : ℕ) (t : List ℕ)
    → has_no_star w ≡ true
    → starts_with w (replace s skip t) ≡ true
    → starts_with w (drop skip t) ≡ true
unfolding replace
replace_starts s [] skip t n h = refl
replace_starts s (d ∷ w) zero [] n h = h
replace_starts s (d ∷ w) (suc skip) [] n h = h
replace_starts s (d ∷ w) (suc skip) (c ∷ t) n h = replace_starts s (d ∷ w) skip t n h
replace_starts s (d ∷ w) zero (c ∷ t) n h =
    go (starts_with s (c ∷ t)) (replace_starts s w zero t (ground arith)) h
  where
    go :
        (b : Bool)
        → (starts_with w (replace s zero t) ≡ true → starts_with w t ≡ true)
        → starts_with
            (d ∷ w)
            (if b then mask ++ replace s (length s - 1) t else c ∷ replace s zero t)
          ≡ true
        → ((d == c) && starts_with w t) ≡ true
    go true rec h = absurd (ground (arith, n, h))
    go false rec h = ground (arith, h, rec)

plain_starts : (w : List ℕ) (t : List ℕ) → IsPlain w → starts_with w (42 ∷ t) ≡ false
unfolding IsPlain
plain_starts [] t n = absurd n
plain_starts (d ∷ w) t n = ground (arith, n)

no_star : (w : List ℕ) → IsPlain w → has_no_star w ≡ true
unfolding IsPlain
no_star [] n = absurd n
no_star (d ∷ w) n = n

-- An occurrence behind the mask is one in what follows.
occurs_behind : (w t : List ℕ) → IsPlain w → occurs w (mask ++ t) ≡ true → occurs w t ≡ true
unfolding occurs
occurs_behind w t n h =
    ground (arith, plain_starts w (42 ∷ 42 ∷ t) n, plain_starts w (42 ∷ t) n, plain_starts w t n, h)

occurs-drop :
    (w : List ℕ) (k : ℕ) (t : List ℕ) → IsPlain w → occurs w (drop k t) ≡ true → occurs w t ≡ true
unfolding occurs
occurs-drop w zero t n h = h
occurs-drop w (suc k) [] n h = h
occurs-drop w (suc k) (c ∷ t) n h = ground (arith, occurs-drop w k t n h)

-- What occurs in the new text and has no asterisk occurred in the old one.
replace_occurs :
    (s w : List ℕ) (skip : ℕ) (t : List ℕ)
    → IsPlain w
    → occurs w (replace s skip t) ≡ true
    → occurs w (drop skip t) ≡ true
unfolding replace occurs
replace_occurs s w zero [] n h = h
replace_occurs s w (suc skip) [] n h = h
replace_occurs s w (suc skip) (c ∷ t) n h = replace_occurs s w skip t n h
replace_occurs s w zero (c ∷ t) n h =
    go (starts_with s (c ∷ t)) refl (replace_occurs s w (length s - 1) t n)
      (replace_occurs s w zero t n) h
  where
    go :
        (b : Bool)
        → starts_with s (c ∷ t) ≡ b
        → (occurs w (replace s (length s - 1) t) ≡ true → occurs w (drop (length s - 1) t) ≡ true)
        → (occurs w (replace s zero t) ≡ true → occurs w t ≡ true)
        → occurs w (if b then mask ++ replace s (length s - 1) t else c ∷ replace s zero t) ≡ true
        → (starts_with w (c ∷ t) || occurs w t) ≡ true
    go true e inside outside h =
        let later : occurs w t ≡ true =
          occurs-drop w (length s - 1) t n
            (inside (occurs_behind w (replace s (length s - 1) t) n h)) in
        ground (arith, later)
    go false e inside outside h = elim (Bool-cases (starts_with w (c ∷ replace s zero t))) [
      | inl front ↦
          let before : starts_with w (c ∷ t) ≡ true =
            replace_starts s w zero (c ∷ t) (no_star w n) (
              ap (starts_with w)
                (ap (λ b. if b then mask ++ replace s (length s - 1) t else c ∷ replace s zero t) e)
              ∙ front) in
          ground (arith, before)
      | inr behind ↦ ground (arith, behind, h, outside)
    ]

-- A value that was replaced is gone.
pub replaced_is_gone :
    (s : List ℕ) (skip : ℕ) (t : List ℕ) → IsPlain s → occurs s (replace s skip t) ≡ false
unfolding replace occurs
replaced_is_gone [] skip t n = absurd (unfold IsPlain in n)
replaced_is_gone (d ∷ s) zero [] n = refl
replaced_is_gone (d ∷ s) (suc skip) [] n = refl
replaced_is_gone (d ∷ s) (suc skip) (c ∷ t) n = replaced_is_gone (d ∷ s) skip t n
replaced_is_gone (d ∷ s) zero (c ∷ t) n =
    go (starts_with (d ∷ s) (c ∷ t)) refl (replaced_is_gone (d ∷ s) (length (d ∷ s) - 1) t n)
      (replaced_is_gone (d ∷ s) zero t n)
  where
    go :
        (b : Bool)
        → starts_with (d ∷ s) (c ∷ t) ≡ b
        → occurs (d ∷ s) (replace (d ∷ s) (length (d ∷ s) - 1) t) ≡ false
        → occurs (d ∷ s) (replace (d ∷ s) zero t) ≡ false
        → occurs (d ∷ s) (
            if b
            then mask ++ replace (d ∷ s) (length (d ∷ s) - 1) t
            else c ∷ replace (d ∷ s) zero t)
          ≡ false
    go true e inside outside =
        elim (Bool-cases (occurs (d ∷ s) (mask ++ replace (d ∷ s) (length (d ∷ s) - 1) t))) [
          | inl now ↦
              absurd
                (cc (occurs_behind (d ∷ s) (replace (d ∷ s) (length (d ∷ s) - 1) t) n now, inside))
          | inr still ↦ still
        ]
    go false e inside outside =
        elim (Bool-cases (starts_with (d ∷ s) (c ∷ replace (d ∷ s) zero t))) [
          | inl front ↦
              let before : starts_with (d ∷ s) (c ∷ t) ≡ true =
                replace_starts (d ∷ s) (d ∷ s) zero (c ∷ t) (no_star (d ∷ s) n) (
                  ap (starts_with (d ∷ s)) (
                    ap
                      (λ b.
                        if b
                        then mask ++ replace (d ∷ s) (length (d ∷ s) - 1) t
                        else c ∷ replace (d ∷ s) zero t)
                      e)
                  ∙ front) in
              absurd (cc (before, e))
          | inr behind ↦ ground (arith, behind, outside)
        ]

-- What did not occur does not occur behind a replacement either.
pub replace_keeps_out :
    (s w t : List ℕ) → IsPlain w → occurs w t ≡ false → occurs w (replace s 0 t) ≡ false
replace_keeps_out s w t n out = elim (Bool-cases (occurs w (replace s 0 t))) [
  | inl now ↦ absurd (cc (replace_occurs s w 0 t n now, out))
  | inr still ↦ still
]
