-- ===== src/Config/Template/Recording.antt =====
-- What templates put into a config is redacted (crates/loadsmith-config/src/template.rs and mask.rs).
use loadsmith.Prelude.{
  ℕ, ◌≡◌, ◌≢◌, refl, sym, subst, Bool, true, false, List, [], ◌∷◌, ◌++◌, if◌then◌else◌,
}
use loadsmith.Text.{Result, err, ok}
use loadsmith.Config.Mask.{add, apply, occurs}
use loadsmith.Config.Mask.Replacing.{IsPlain}
use loadsmith.Config.Mask.Hiding.{IsIn, add-IsIn, added-IsIn, apply_hides}
use loadsmith.Config.Template.{
  Piece, expr, literal, TemplateError, Machine, Secrets, value, eval, eval_pieces, has_expr,
  substitute_string, parse_template, prepend,
}

-- The text is the pieces one after the other, with the values of the expressions, and each value
-- that is not empty is recorded.
pub IsFilled : Machine → Secrets → List (List ℕ) → List Piece → List ℕ → Type 0
IsFilled m secrets mask [] out = out ≡ []
IsFilled m secrets mask (literal t ∷ pieces) out =
    (rest : List ℕ) × ((out ≡ t ++ rest) × IsFilled m secrets mask pieces rest)
IsFilled m secrets mask (expr e ∷ pieces) out =
    (v : List ℕ) × ((rest : List ℕ) × ((value m secrets e ≡ ok v)
        × (v ≢ [] → IsIn v mask)
        × (out ≡ v ++ rest)
        × IsFilled m secrets mask pieces rest))

module _ (escaped : List ℕ → List ℕ) (m : Machine) (secrets : Secrets) where
  prepended :
      (v t : List ℕ) (r : Result TemplateError (List ℕ) × List (List ℕ))
      → IsIn v r.1
      → IsIn v (prepend t r).1
  prepended v t (ok out, mask) h = h
  prepended v t (err e, mask) h = h

  eval_pieces_keeps :
      (pieces : List Piece) (mask : List (List ℕ)) (v : List ℕ)
      → IsIn v mask
      → IsIn v (eval_pieces escaped m secrets pieces mask).1
  unfolding eval_pieces eval
  eval_pieces_keeps [] mask v h = h
  eval_pieces_keeps (literal t ∷ pieces) mask v h =
      prepended v t (eval_pieces escaped m secrets pieces mask) (eval_pieces_keeps pieces mask v h)
  eval_pieces_keeps (expr e ∷ pieces) mask v h =
      go (value m secrets e)
        (λ u. eval_pieces_keeps pieces (add escaped u mask) v (add-IsIn escaped v u mask h))
    where
      go :
          (r : Result TemplateError (List ℕ))
          → ((u : List ℕ) → IsIn v (eval_pieces escaped m secrets pieces (add escaped u mask)).1)
          → let x = (elim r as (λ _. Result TemplateError (List ℕ) × List (List ℕ)) [
            | err f ↦ (err f, mask)
            | ok u ↦ (ok u, add escaped u mask)
          ]) in
            IsIn v
              (elim x.0 as (λ _. Result TemplateError (List ℕ) × List (List ℕ)) [
                | err f ↦ (err f, x.1)
                | ok u ↦ prepend u (eval_pieces escaped m secrets pieces x.1)
              ]).1
      go (err f) rec = h
      go (ok u) rec = prepended v u _ (rec u)

  -- What is in the front of a result is in the result.
  prepend_ok :
      (t : List ℕ) (r : Result TemplateError (List ℕ) × List (List ℕ)) (out : List ℕ)
      → (prepend t r).0 ≡ ok out
      → (rest : List ℕ) × ((r.0 ≡ ok rest) × (out ≡ t ++ rest) × ((prepend t r).1 ≡ r.1))
  prepend_ok t (ok rest, mask) out e = (rest, (refl, cc e, refl))
  prepend_ok t (err f, mask) out e = absurd (cc e)

  eval_pieces-IsFilled :
      (pieces : List Piece) (mask : List (List ℕ)) (out : List ℕ)
      → (eval_pieces escaped m secrets pieces mask).0 ≡ ok out
      → IsFilled m secrets (eval_pieces escaped m secrets pieces mask).1 pieces out
  unfolding eval_pieces eval IsFilled
  eval_pieces-IsFilled [] mask out e = cc e
  eval_pieces-IsFilled (literal t ∷ pieces) mask out e =
      let r = eval_pieces escaped m secrets pieces mask in
      let (rest, (f, g, same)) = prepend_ok t r out e in
      (
        rest,
        (
          g,
          subst (λ k. IsFilled m secrets k pieces rest) (sym same)
              (eval_pieces-IsFilled pieces mask rest f),
        ),
      )
  eval_pieces-IsFilled (expr e ∷ pieces) mask out done =
      go (value m secrets e) refl (λ u. eval_pieces-IsFilled pieces (add escaped u mask)) done
    where
      go :
          (r : Result TemplateError (List ℕ))
          → value m secrets e ≡ r
          → ((u rest : List ℕ)
              → (eval_pieces escaped m secrets pieces (add escaped u mask)).0 ≡ ok rest
              → IsFilled m secrets
                  (eval_pieces escaped m secrets pieces (add escaped u mask)).1
                  pieces
                  rest)
          → let x = (elim r as (λ _. Result TemplateError (List ℕ) × List (List ℕ)) [
            | err f ↦ (err f, mask)
            | ok u ↦ (ok u, add escaped u mask)
          ]) in
            let y = (elim x.0 as (λ _. Result TemplateError (List ℕ) × List (List ℕ)) [
              | err f ↦ (err f, x.1)
              | ok u ↦ prepend u (eval_pieces escaped m secrets pieces x.1)
            ]) in
            y.0 ≡ ok out
            → (v : List ℕ) × ((rest : List ℕ) × ((value m secrets e ≡ ok v)
                  × (v ≢ [] → IsIn v y.1)
                  × (out ≡ v ++ rest)
                  × IsFilled m secrets y.1 pieces rest))
      go (err f) same rec e = absurd (cc e)
      go (ok u) same rec e =
          let (rest, (f, g, kept)) =
            prepend_ok u (eval_pieces escaped m secrets pieces (add escaped u mask)) out e in
          (
            u,
            (
              rest,
              (
                same,
                λ n.
                    prepended u u _ (
                      eval_pieces_keeps pieces (add escaped u mask) u
                        (added-IsIn escaped u mask n)),
                g,
                subst (λ k. IsFilled m secrets k pieces rest) (sym kept) (rec u rest f),
              ),
            ),
          )

  -- A text in which templates were substituted is the text itself if it has no expression, and
  -- otherwise the pieces that it was parsed to one after the other, each expression with its value;
  -- each of these values that is not empty is then recorded, and none that is recorded and has no
  -- asterisk occurs in a text that was redacted.
  pub substituted_is_recorded :
      (input : List ℕ) (mask : List (List ℕ)) (out : List ℕ)
      → (substitute_string escaped m secrets input mask).0 ≡ ok out
      → let recorded = (substitute_string escaped m secrets input mask).1 in
        ((pieces : List Piece) × ((parse_template input ≡ ok pieces)
            × (has_expr pieces ≡ false → out ≡ input)
            × (has_expr pieces ≡ true → IsFilled m secrets recorded pieces out)))
        × ((v text : List ℕ) → IsPlain v → IsIn v recorded → occurs v (apply recorded text) ≡ false)
  unfolding substitute_string
  substituted_is_recorded input mask out e =
      (go (parse_template input) e, λ v text plain h. apply_hides _ v text plain h)
    where
      filled :
          (pieces : List Piece) (b : Bool)
          → has_expr pieces ≡ b
          → let r = (if b then eval_pieces escaped m secrets pieces mask else (ok input, mask)) in
            r.0 ≡ ok out
            → (has_expr pieces ≡ false → out ≡ input)
              × (has_expr pieces ≡ true → IsFilled m secrets r.1 pieces out)
      filled pieces true f e =
          (λ n. absurd (cc (f, n)), λ _. eval_pieces-IsFilled pieces mask out e)
      filled pieces false f e = (λ _. cc e, λ y. absurd (cc (f, y)))

      go :
          (o : Result TemplateError (List Piece))
          → let r = (elim o as (λ _. Result TemplateError (List ℕ) × List (List ℕ)) [
            | err e ↦ (err e, mask)
            | ok pieces ↦
                if has_expr pieces
                then eval_pieces escaped m secrets pieces mask
                else (ok input, mask)
          ]) in
            r.0 ≡ ok out
            → (pieces : List Piece) × ((o ≡ ok pieces)
                × (has_expr pieces ≡ false → out ≡ input)
                × (has_expr pieces ≡ true → IsFilled m secrets r.1 pieces out))
      go (err f) e = absurd (cc e)
      go (ok pieces) e =
          let (plain, full) = filled pieces (has_expr pieces) refl e in
          (pieces, (refl, plain, full))
