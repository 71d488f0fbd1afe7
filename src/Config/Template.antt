-- ===== src/Config/Template.antt =====
-- The templates of pipeline files (crates/loadsmith-config/src/template.rs), on code points.
pub mod Ending
pub mod Recording
use loadsmith.Prelude.{
  ℕ, suc, zero, ◌+◌, Bool, true, false, not, ◌&&◌, ◌||◌, Option, none, some, List, [], ◌∷◌, ◌++◌,
  length, ◌==◌, if◌then◌else◌,
}
use loadsmith.Text.{codes, same, split, Result, err, ok}
use loadsmith.Config.Mask.{add, trim, trim_start, trim_end}

pub record SecretRef : Type 0 where
  pub instance_name : List ℕ
  pub reference : List ℕ

pub data Expr : Type 0 where
  env file : List ℕ → Expr
  secret : SecretRef → Expr

pub data Piece : Type 0 where
  literal : List ℕ → Piece
  expr : Expr → Piece

-- The errors; `stuck` is a loop of the model that has not ended within its fuel.
pub data TemplateError : Type 0 where
  unclosed expected_string unterminated expected_comma empty_secret : TemplateError
  unknown_expression : List ℕ → TemplateError
  wrong_count : ℕ → TemplateError
  env_not_set unreadable_file : List ℕ → TemplateError
  not_resolved not_available : SecretRef → TemplateError
  stuck : TemplateError

abbrev pub push_ok :
    {A : Type 0} → A → Result TemplateError (List A) → Result TemplateError (List A)
push_ok a (ok rest) = ok (a ∷ rest)
push_ok a (err e) = err e

-- the loop of `parse_args`
unfoldable pub args_loop : ℕ → List ℕ → Result TemplateError (List (List ℕ))
unfolding split trim_start
args_loop zero rest = err stuck
args_loop (suc fuel) [] = err expected_string
args_loop (suc fuel) (quote ∷ body) = elim ((quote == 39) || (quote == 34)) [
  | false ↦ err expected_string
  | true ↦ elim (split quote body) [
    | none ↦ err unterminated
    | some (arg, after) ↦ elim (trim_start after) [
      | [] ↦ ok (arg ∷ [])
      | c ∷ more ↦ elim (c == b',') [
        | true ↦ push_ok arg (args_loop fuel (trim_start more))
        | false ↦ err expected_comma
      ]
    ]
  ]
]

unfoldable pub parse_args : List ℕ → Result TemplateError (List (List ℕ))
unfolding args_loop trim_start trim_end
parse_args s = elim (trim s) [ [] ↦ ok [] | c ∷ t ↦ args_loop (suc (length (c ∷ t))) (c ∷ t) ]

-- `s.strip_suffix(c)`
unfoldable pub strip_suffix : ℕ → List ℕ → Option (List ℕ)
strip_suffix c [] = none
strip_suffix c (d ∷ s) = elim s [
  | [] ↦ if d == c then some [] else none
  | e ∷ t ↦ elim (strip_suffix c s) [ none ↦ none | some r ↦ some (d ∷ r) ]
]

-- the functions, by their names
pub data Function : Type 0 where
  env_call file_call secret_call : Function

unfoldable pub function_of : List ℕ → Option Function
unfolding same
function_of name =
    if same name (codes "env")
    then some env_call
    else if same name (codes "file")
    then some file_call
    else if same name (codes "secret")
    then some secret_call
    else none

abbrev pub is_empty : List ℕ → Bool
is_empty [] = true
is_empty (c ∷ s) = false

-- a function with its arguments
unfoldable pub call : Function → List (List ℕ) → Result TemplateError Expr
call env_call (a ∷ []) = ok (env a)
call file_call (a ∷ []) = ok (file a)
call secret_call (a ∷ b ∷ []) =
    if is_empty a || is_empty b
    then err empty_secret
    else ok (secret (record { instance_name = a; reference = b }))
call f args = err (wrong_count (length args))

abbrev pub call_with : Function → Result TemplateError (List (List ℕ)) → Result TemplateError Expr
call_with f (err e) = err e
call_with f (ok args) = call f args

unfoldable pub parse_expr : List ℕ → Result TemplateError Expr
unfolding split strip_suffix function_of parse_args call trim_start trim_end
parse_expr e = elim (split b'(' e) [
  | none ↦ err (unknown_expression e)
  | some (name, after) ↦ elim (strip_suffix b')' (trim_end after)) [
    | none ↦ err (unknown_expression e)
    | some args ↦ elim (function_of (trim name)) [
      | none ↦ err (unknown_expression e)
      | some f ↦ call_with f (parse_args args)
    ]
  ]
]

-- `s.find` of a character twice: what stands before and behind the first such pair
unfoldable pub split_pair : ℕ → List ℕ → Option (List ℕ × List ℕ)
split_pair c [] = none
split_pair c (d ∷ s) = elim s [
  | [] ↦ none
  | e ∷ t ↦
      if (d == c) && (e == c)
      then some ([], t)
      else elim (split_pair c s) [ none ↦ none | some (before, after) ↦ some (d ∷ before, after) ]
]

-- literal text that is not empty, in front of other pieces
abbrev pub push_literal :
    List ℕ → Result TemplateError (List Piece) → Result TemplateError (List Piece)
push_literal [] pieces = pieces
push_literal (c ∷ s) pieces = push_ok (literal (c ∷ s)) pieces

-- the loop of `parse_template`
unfoldable pub template_loop : ℕ → List ℕ → Result TemplateError (List Piece)
unfolding split_pair parse_expr trim_start trim_end
template_loop zero rest = err stuck
template_loop (suc fuel) rest = elim (split_pair b'{' rest) [
  | none ↦ push_literal rest (ok [])
  | some (before, inside) ↦ elim (split_pair b'}' inside) [
    | none ↦ err unclosed
    | some (e, after) ↦ elim (parse_expr (trim e)) [
      | err f ↦ err f
      | ok x ↦ push_literal before (push_ok (expr x) (template_loop fuel after))
    ]
  ]
]

unfoldable pub parse_template : List ℕ → Result TemplateError (List Piece)
unfolding template_loop
parse_template input = template_loop (suc (length input)) input

-- How `secret()` calls are answered.
pub data Secrets : Type 0 where
  unavailable placeholder : Secrets
  values : (SecretRef → Option (List ℕ)) → Secrets

-- The environment of the process and its files.
pub record Machine : Type 0 where
  pub variable : List ℕ → Option (List ℕ)
  pub content : List ℕ → Option (List ℕ)

-- the value of an expression
unfoldable pub value : Machine → Secrets → Expr → Result TemplateError (List ℕ)
unfolding trim_end
value m secrets (env var) = elim (m.variable var) [ none ↦ err (env_not_set var) | some v ↦ ok v ]
value m secrets (file path) = elim (m.content path) [
  | none ↦ err (unreadable_file path)
  | some v ↦ ok (trim_end v)
]
value m unavailable (secret r) = err (not_available r)
value m placeholder (secret r) = ok []
value m (values answer) (secret r) = elim (answer r) [ none ↦ err (not_resolved r) | some v ↦ ok v ]

-- `eval`, which records the value; an empty value is never recorded.
unfoldable pub eval :
    (List ℕ → List ℕ)
    → Machine
    → Secrets
    → Expr
    → List (List ℕ)
    → Result TemplateError (List ℕ) × List (List ℕ)
unfolding value add
eval escaped m secrets e mask = elim (value m secrets e) [
  | err f ↦ (err f, mask)
  | ok v ↦ (ok v, add escaped v mask)
]

abbrev pub prepend :
    List ℕ
    → Result TemplateError (List ℕ) × List (List ℕ)
    → Result TemplateError (List ℕ) × List (List ℕ)
prepend t (ok out, mask) = (ok (t ++ out), mask)
prepend t (err e, mask) = (err e, mask)

-- the loop of `substitute_string`
unfoldable pub eval_pieces :
    (List ℕ → List ℕ)
    → Machine
    → Secrets
    → List Piece
    → List (List ℕ)
    → Result TemplateError (List ℕ) × List (List ℕ)
unfolding eval
eval_pieces escaped m secrets [] mask = (ok [], mask)
eval_pieces escaped m secrets (literal t ∷ pieces) mask =
    prepend t (eval_pieces escaped m secrets pieces mask)
eval_pieces escaped m secrets (expr e ∷ pieces) mask =
    let (result, recorded) = eval escaped m secrets e mask in
    elim result [
      | err f ↦ (err f, recorded)
      | ok v ↦ prepend v (eval_pieces escaped m secrets pieces recorded)
    ]

unfoldable pub has_expr : List Piece → Bool
has_expr [] = false
has_expr (literal t ∷ pieces) = has_expr pieces
has_expr (expr e ∷ pieces) = true

unfoldable pub substitute_string :
    (List ℕ → List ℕ)
    → Machine
    → Secrets
    → List ℕ
    → List (List ℕ)
    → Result TemplateError (List ℕ) × List (List ℕ)
unfolding parse_template has_expr eval_pieces
substitute_string escaped m secrets input mask = elim (parse_template input) [
  | err e ↦ (err e, mask)
  | ok pieces ↦
      if has_expr pieces then eval_pieces escaped m secrets pieces mask else (ok input, mask)
]
