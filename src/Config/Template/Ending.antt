-- ===== src/Config/Template/Ending.antt =====
-- The parsing of templates ends (crates/loadsmith-config/src/template.rs).
use loadsmith.Prelude.{
  ℕ, suc, zero, ◌≤◌, ◌<◌, ◌≢◌, subst, Bool, true, false, ◌&&◌, ◌||◌, Option, none, some, List, [],
  ◌∷◌, length, ◌==◌, if◌then◌else◌, arith,
}
use loadsmith.Text.{Result, err, ok, split, IsSplit, split-IsSplit, split_shortens}
use loadsmith.Config.Mask.{trim, trim_start, trim_end, is_whitespace}
use loadsmith.Config.Template.{
  Expr, Piece, expr, literal, TemplateError, unclosed, expected_string, unterminated,
  expected_comma, unknown_expression, stuck, push_ok, push_literal, args_loop, parse_args,
  strip_suffix, Function, function_of, env_call, file_call, secret_call, call, call_with, is_empty,
  parse_expr, split_pair, template_loop, parse_template, empty_secret, secret,
}

-- A result that is not a loop that has not ended.
abbrev IsEnded : {A : Type 0} → Result TemplateError A → Type 0
IsEnded (ok a) = Unit
IsEnded (err stuck) = ⊥
IsEnded (err e) = Unit

push_ok-IsEnded :
    {A : Type 0} (a : A) (r : Result TemplateError (List A)) → IsEnded r → IsEnded (push_ok a r)
push_ok-IsEnded a (ok rest) h = tt
push_ok-IsEnded a (err e) h = h

push_literal-IsEnded :
    (t : List ℕ) (r : Result TemplateError (List Piece)) → IsEnded r → IsEnded (push_literal t r)
push_literal-IsEnded [] r h = h
push_literal-IsEnded (c ∷ t) r h = push_ok-IsEnded (literal (c ∷ t)) r h

trim_start_shortens : (s : List ℕ) → length (trim_start s) ≤ length s
unfolding trim_start
trim_start_shortens [] = ground arith
trim_start_shortens (c ∷ s) = go (is_whitespace c) (trim_start_shortens s)
  where
    go :
        (b : Bool)
        → length (trim_start s) ≤ length s
        → length (if b then trim_start s else c ∷ s) ≤ suc (length s)
    go true h = ground arith
    go false h = ground arith

IsShorter : List ℕ → Option (List ℕ × List ℕ) → Type 0
IsShorter s none = Unit
IsShorter s (some (before, after)) = length after < length s

split_pair-IsShorter : (c : ℕ) (s : List ℕ) → IsShorter s (split_pair c s)
unfolding split_pair IsShorter
split_pair-IsShorter c [] = tt
split_pair-IsShorter c (d ∷ []) = tt
split_pair-IsShorter c (d ∷ e ∷ t) =
    go ((d == c) && (e == c)) (split_pair c (e ∷ t)) (split_pair-IsShorter c (e ∷ t))
  where
    go :
        (b : Bool) (o : Option (List ℕ × List ℕ))
        → IsShorter (e ∷ t) o
        → IsShorter (d ∷ e ∷ t) (
            if b then some ([], t) else elim o as (λ _. Option (List ℕ × List ℕ)) [
              | none ↦ none
              | some (before, after) ↦ some (d ∷ before, after)
            ])
    go true o h = ground arith
    go false none h = tt
    go false (some (before, after)) h = ground arith

args_loop-IsEnded : (fuel : ℕ) (s : List ℕ) → length s < fuel → IsEnded (args_loop fuel s)
unfolding args_loop
args_loop-IsEnded zero s less = absurd (ground arith)
args_loop-IsEnded (suc fuel) [] less = tt
args_loop-IsEnded (suc fuel) (quote ∷ body) less =
    quoted ((quote == 39) || (quote == 34)) (split quote body) (split-IsSplit quote body)
      (args_loop-IsEnded fuel)
  where
    comma :
        (b : Bool) (arg more : List ℕ)
        → IsEnded (args_loop fuel (trim_start more))
        → IsEnded (elim b as (λ _. Result TemplateError (List (List ℕ))) [
          | true ↦ push_ok arg (args_loop fuel (trim_start more))
          | false ↦ err expected_comma
        ])
    comma true arg more h = push_ok-IsEnded arg _ h
    comma false arg more h = tt

    behind :
        (arg rest : List ℕ)
        → length rest ≤ length body
        → ((s : List ℕ) → length s < fuel → IsEnded (args_loop fuel s))
        → IsEnded (elim rest as (λ _. Result TemplateError (List (List ℕ))) [
          | [] ↦ ok (arg ∷ [])
          | c ∷ more ↦ elim (c == b',') as (λ _. Result TemplateError (List (List ℕ))) [
            | true ↦ push_ok arg (args_loop fuel (trim_start more))
            | false ↦ err expected_comma
          ]
        ])
    behind arg [] le rec = tt
    behind arg (c ∷ more) le rec =
        comma (c == b',') arg more
          (rec (trim_start more) (ground (arith, less, trim_start_shortens more)))

    quoted :
        (b : Bool) (o : Option (List ℕ × List ℕ))
        → IsSplit quote body o
        → ((s : List ℕ) → length s < fuel → IsEnded (args_loop fuel s))
        → IsEnded (elim b as (λ _. Result TemplateError (List (List ℕ))) [
          | false ↦ err expected_string
          | true ↦ elim o as (λ _. Result TemplateError (List (List ℕ))) [
            | none ↦ err unterminated
            | some (arg, after) ↦
                elim (trim_start after) as (λ _. Result TemplateError (List (List ℕ))) [
                  | [] ↦ ok (arg ∷ [])
                  | c ∷ more ↦ elim (c == b',') as (λ _. Result TemplateError (List (List ℕ))) [
                    | true ↦ push_ok arg (args_loop fuel (trim_start more))
                    | false ↦ err expected_comma
                  ]
                ]
          ]
        ])
    quoted false o h rec = tt
    quoted true none h rec = tt
    quoted true (some (arg, after)) h rec =
        behind arg (trim_start after)
          (ground (arith, trim_start_shortens after, split_shortens quote body arg after h)) rec

parse_args-IsEnded : (s : List ℕ) → IsEnded (parse_args s)
unfolding parse_args
parse_args-IsEnded s = go (trim s)
  where
    go :
        (t : List ℕ)
        → IsEnded (elim t as (λ _. Result TemplateError (List (List ℕ))) [
          | [] ↦ ok []
          | c ∷ t ↦ args_loop (suc (length (c ∷ t))) (c ∷ t)
        ])
    go [] = tt
    go (c ∷ t) = args_loop-IsEnded (suc (length (c ∷ t))) (c ∷ t) (ground arith)

call-IsEnded : (f : Function) (args : List (List ℕ)) → IsEnded (call f args)
unfolding call
call-IsEnded env_call [] = tt
call-IsEnded env_call (a ∷ []) = tt
call-IsEnded env_call (a ∷ b ∷ args) = tt
call-IsEnded file_call [] = tt
call-IsEnded file_call (a ∷ []) = tt
call-IsEnded file_call (a ∷ b ∷ args) = tt
call-IsEnded secret_call [] = tt
call-IsEnded secret_call (a ∷ []) = tt
call-IsEnded secret_call (a ∷ b ∷ []) = go (is_empty a || is_empty b)
  where
    go :
        (e : Bool)
        → IsEnded (
            if e
            then err empty_secret
            else ok (secret (record { instance_name = a; reference = b })))
    go true = tt
    go false = tt
call-IsEnded secret_call (a ∷ b ∷ c ∷ args) = tt

call_with-IsEnded :
    (f : Function) (r : Result TemplateError (List (List ℕ))) → IsEnded r → IsEnded (call_with f r)
call_with-IsEnded f (ok args) h = call-IsEnded f args
call_with-IsEnded f (err e) h = h

parse_expr-IsEnded : (e : List ℕ) → IsEnded (parse_expr e)
unfolding parse_expr
parse_expr-IsEnded e = opened (split b'(' e)
  where
    named :
        (o : Option Function) (args : List ℕ)
        → IsEnded (elim o as (λ _. Result TemplateError Expr) [
          | none ↦ err (unknown_expression e)
          | some f ↦ call_with f (parse_args args)
        ])
    named none args = tt
    named (some f) args = call_with-IsEnded f _ (parse_args-IsEnded args)

    closed :
        (name : List ℕ) (o : Option (List ℕ))
        → IsEnded (elim o as (λ _. Result TemplateError Expr) [
          | none ↦ err (unknown_expression e)
          | some args ↦ elim (function_of (trim name)) as (λ _. Result TemplateError Expr) [
            | none ↦ err (unknown_expression e)
            | some f ↦ call_with f (parse_args args)
          ]
        ])
    closed name none = tt
    closed name (some args) = named (function_of (trim name)) args

    opened :
        (o : Option (List ℕ × List ℕ))
        → IsEnded (elim o as (λ _. Result TemplateError Expr) [
          | none ↦ err (unknown_expression e)
          | some (name, after) ↦
              elim (strip_suffix b')' (trim_end after)) as (λ _. Result TemplateError Expr) [
                | none ↦ err (unknown_expression e)
                | some args ↦ elim (function_of (trim name)) as (λ _. Result TemplateError Expr) [
                  | none ↦ err (unknown_expression e)
                  | some f ↦ call_with f (parse_args args)
                ]
              ]
        ])
    opened none = tt
    opened (some (name, after)) = closed name (strip_suffix b')' (trim_end after))

template_loop-IsEnded : (fuel : ℕ) (s : List ℕ) → length s < fuel → IsEnded (template_loop fuel s)
unfolding template_loop IsShorter
template_loop-IsEnded zero s less = absurd (ground arith)
template_loop-IsEnded (suc fuel) s less =
    opened (split_pair b'{' s) (split_pair-IsShorter b'{' s) (template_loop-IsEnded fuel)
  where
    parsed :
        (before after : List ℕ) (r : Result TemplateError Expr)
        → IsEnded r
        → IsEnded (template_loop fuel after)
        → IsEnded (elim r as (λ _. Result TemplateError (List Piece)) [
          | err f ↦ err f
          | ok x ↦ push_literal before (push_ok (expr x) (template_loop fuel after))
        ])
    parsed before after (err f) h rec = h
    parsed before after (ok x) h rec =
        push_literal-IsEnded before _ (push_ok-IsEnded (expr x) _ rec)

    closed :
        (before inside : List ℕ) (o : Option (List ℕ × List ℕ))
        → length inside < length s
        → IsShorter inside o
        → ((t : List ℕ) → length t < fuel → IsEnded (template_loop fuel t))
        → IsEnded (elim o as (λ _. Result TemplateError (List Piece)) [
          | none ↦ err unclosed
          | some (e, after) ↦
              elim (parse_expr (trim e)) as (λ _. Result TemplateError (List Piece)) [
                | err f ↦ err f
                | ok x ↦ push_literal before (push_ok (expr x) (template_loop fuel after))
              ]
        ])
    closed before inside none le h rec = tt
    closed before inside (some (e, after)) le h rec =
        parsed before after (parse_expr (trim e)) (parse_expr-IsEnded (trim e))
          (rec after (ground (arith, less, le, h)))

    opened :
        (o : Option (List ℕ × List ℕ))
        → IsShorter s o
        → ((t : List ℕ) → length t < fuel → IsEnded (template_loop fuel t))
        → IsEnded (elim o as (λ _. Result TemplateError (List Piece)) [
          | none ↦ push_literal s (ok [])
          | some (before, inside) ↦
              elim (split_pair b'}' inside) as (λ _. Result TemplateError (List Piece)) [
                | none ↦ err unclosed
                | some (e, after) ↦
                    elim (parse_expr (trim e)) as (λ _. Result TemplateError (List Piece)) [
                      | err f ↦ err f
                      | ok x ↦ push_literal before (push_ok (expr x) (template_loop fuel after))
                    ]
              ]
        ])
    opened none h rec = push_literal-IsEnded s (ok []) tt
    opened (some (before, inside)) h rec =
        closed before inside (split_pair b'}' inside) (h) (split_pair-IsShorter b'}' inside) rec

ended_is_not_stuck : (r : Result TemplateError (List Piece)) → IsEnded r → r ≢ err stuck
ended_is_not_stuck r h e = subst IsEnded e h

-- The parsing of a template ends for every text: none of its loops, over the expressions and over the
-- arguments of one, runs out of fuel.
pub parse_template_ends : (input : List ℕ) → parse_template input ≢ err stuck
unfolding parse_template
parse_template_ends input =
    ended_is_not_stuck (template_loop (suc (length input)) input)
      (template_loop-IsEnded (suc (length input)) input (ground arith))
