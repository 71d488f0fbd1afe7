-- ===== src/Config/Mask/Hiding.antt =====
-- What a redacted text does not show (crates/loadsmith-config/src/mask.rs).
use loadsmith.Prelude.{
  ℕ, ◌≡◌, ◌≢◌, refl, sym, subst, ◌⊎◌, inl, inr, Bool, true, false, ◌||◌, List, [], ◌∷◌, ◌++◌, leb,
  if◌then◌else◌,
}
use loadsmith.Text.{same, same→eq}
use loadsmith.Config.Mask.{
  occurs, replace, apply, contains, push_new, sort, sort_in, parts, add, byte_length,
}
use loadsmith.Config.Mask.Replacing.{IsPlain, replaced_is_gone, replace_keeps_out}

-- A text is one of the list.
pub IsIn : List ℕ → List (List ℕ) → Type 0
IsIn s [] = ⊥
IsIn s (t ∷ list) = (s ≡ t) ⊎ IsIn s list

one_keeps_out :
    (s w out : List ℕ)
    → IsPlain w
    → occurs w out ≡ false
    → occurs w (if occurs s out then replace s 0 out else out) ≡ false
one_keeps_out s w out n h = go (occurs s out)
  where
    go : (b : Bool) → occurs w (if b then replace s 0 out else out) ≡ false
    go true = replace_keeps_out s w out n h
    go false = h

one_hides :
    (s out : List ℕ) → IsPlain s → occurs s (if occurs s out then replace s 0 out else out) ≡ false
one_hides s out n = go (occurs s out) refl
  where
    go : (b : Bool) → occurs s out ≡ b → occurs s (if b then replace s 0 out else out) ≡ false
    go true e = replaced_is_gone s 0 out n
    go false e = e

apply_keeps_out :
    (list : List (List ℕ)) (w out : List ℕ)
    → IsPlain w
    → occurs w out ≡ false
    → occurs w (apply list out) ≡ false
unfolding apply
apply_keeps_out [] w out n h = h
apply_keeps_out (s ∷ list) w out n h = apply_keeps_out list w _ n (one_keeps_out s w out n h)

-- A recorded value that is not empty and has no asterisk does not occur in a text that was redacted,
-- whatever else is recorded.
pub apply_hides :
    (list : List (List ℕ)) (w out : List ℕ)
    → IsPlain w
    → IsIn w list
    → occurs w (apply list out) ≡ false
unfolding apply IsIn
apply_hides [] w out n h = absurd h
apply_hides (s ∷ list) w out n (inl e) = apply_keeps_out list w _ n (
    subst (λ x. occurs w (if occurs x out then replace x 0 out else out) ≡ false) e
      (one_hides w out n))
apply_hides (s ∷ list) w out n (inr h) = apply_hides list w _ n h

contains→IsIn : (list : List (List ℕ)) (s : List ℕ) → contains list s ≡ true → IsIn s list
unfolding contains IsIn
contains→IsIn [] s e = absurd (cc e)
contains→IsIn (t ∷ list) s e = go (same t s) refl (contains→IsIn list s) e
  where
    go :
        (b : Bool)
        → same t s ≡ b
        → (contains list s ≡ true → IsIn s list)
        → (b || contains list s) ≡ true
        → (s ≡ t) ⊎ IsIn s list
    go true f h e = inl (sym (same→eq t s f))
    go false f h e = inr (h e)

append_left-IsIn : (s : List ℕ) (xs ys : List (List ℕ)) → IsIn s xs → IsIn s (xs ++ ys)
unfolding IsIn
append_left-IsIn s [] ys h = absurd h
append_left-IsIn s (x ∷ xs) ys (inl e) = inl e
append_left-IsIn s (x ∷ xs) ys (inr h) = inr (append_left-IsIn s xs ys h)

append_right-IsIn : (s : List ℕ) (xs ys : List (List ℕ)) → IsIn s ys → IsIn s (xs ++ ys)
unfolding IsIn
append_right-IsIn s [] ys h = h
append_right-IsIn s (x ∷ xs) ys h = inr (append_right-IsIn s xs ys h)

sort_in-IsIn :
    (s t : List ℕ) (list : List (List ℕ)) → (s ≡ t) ⊎ IsIn s list → IsIn s (sort_in t list)
unfolding sort_in IsIn
sort_in-IsIn s t [] (inl e) = inl e
sort_in-IsIn s t [] (inr h) = absurd h
sort_in-IsIn s t (u ∷ list) h = go (leb (byte_length u) (byte_length t)) h (sort_in-IsIn s t list)
  where
    go :
        (b : Bool)
        → (s ≡ t) ⊎ ((s ≡ u) ⊎ IsIn s list)
        → ((s ≡ t) ⊎ IsIn s list → IsIn s (sort_in t list))
        → IsIn s (if b then t ∷ u ∷ list else u ∷ sort_in t list)
    go true h rec = h
    go false (inl e) rec = inr (rec (inl e))
    go false (inr (inl e)) rec = inl e
    go false (inr (inr h)) rec = inr (rec (inr h))

sort-IsIn : (s : List ℕ) (list : List (List ℕ)) → IsIn s list → IsIn s (sort list)
unfolding sort IsIn
sort-IsIn s [] h = absurd h
sort-IsIn s (t ∷ list) (inl e) = sort_in-IsIn s t (sort list) (inl e)
sort-IsIn s (t ∷ list) (inr h) = sort_in-IsIn s t (sort list) (inr (sort-IsIn s list h))

push_new-IsIn :
    (s : List ℕ) (ps list : List (List ℕ)) → IsIn s ps ⊎ IsIn s list → IsIn s (push_new ps list)
unfolding push_new IsIn
push_new-IsIn s [] list (inl h) = absurd h
push_new-IsIn s [] list (inr h) = h
push_new-IsIn s (p ∷ ps) list h = push_new-IsIn s ps _ (go (contains list p) refl h)
  where
    go :
        (b : Bool)
        → contains list p ≡ b
        → ((s ≡ p) ⊎ IsIn s ps) ⊎ IsIn s list
        → IsIn s ps ⊎ IsIn s (if b then list else list ++ (p ∷ []))
    go b e (inl (inr h)) = inl h
    go true e (inl (inl f)) = inr (subst (λ x. IsIn x list) (sym f) (contains→IsIn list p e))
    go false e (inl (inl f)) = inr (append_right-IsIn s list (p ∷ []) (inl f))
    go true e (inr h) = inr h
    go false e (inr h) = inr (append_left-IsIn s list (p ∷ []) h)

-- A value is in the list once it was added, and stays.
pub add-IsIn :
    (escaped : List ℕ → List ℕ) (s t : List ℕ) (list : List (List ℕ))
    → IsIn s list
    → IsIn s (add escaped t list)
unfolding add
add-IsIn escaped s [] list h = h
add-IsIn escaped s (c ∷ t) list h =
    sort-IsIn s _ (push_new-IsIn s (parts escaped (c ∷ t)) list (inr h))

pub added-IsIn :
    (escaped : List ℕ → List ℕ) (s : List ℕ) (list : List (List ℕ))
    → s ≢ []
    → IsIn s (add escaped s list)
unfolding add parts
added-IsIn escaped [] list n = absurd (n refl)
added-IsIn escaped (c ∷ s) list n = sort-IsIn (c ∷ s) _ (
    push_new-IsIn (c ∷ s) (parts escaped (c ∷ s)) list
      (inl (append_right-IsIn (c ∷ s) _ ((c ∷ s) ∷ []) (unfold IsIn in inl refl))))
