-- ===== src/Application/Formula.antt =====
-- supvisors/application.py: the status formula. The formula is parsed by Python's `ast`, whose
-- trees are the data here, and the patterns in it are regular expressions of Python's `re`.
use supvisors.Prelude.{
  Bool, true, false, not, ◌==◌, ◌||◌, List, [], ◌∷◌, Option, none, some, Name, any, all, keep,
  if◌then◌else◌,
}

pub data BoolOp : Type 0 where
  and or : BoolOp

-- The operators of ast.UnaryOp but Not are of no use here.
pub data UnaryOp : Type 0 where
  not_op other_op : UnaryOp

-- ast.Constant with a string, ast.Call of a name and of anything else, ast.BoolOp, ast.UnaryOp, and any other node.
mutual
  pub data Expr : Type 0 where
    string : Name → Expr
    call : Name → Exprs → Expr
    other_call : Expr
    bool_op : BoolOp → Exprs → Expr
    unary_op : UnaryOp → Expr → Expr
    other : Expr

  pub data Exprs : Type 0 where
    no_expr : Exprs
    more : Expr → Exprs → Exprs

-- What `evaluate` returns, with ApplicationStatusParseError and the exceptions that its callers do
-- not catch: the IndexError of a call without arguments, the AttributeError of a called node that
-- has no `id`, and the `error` of `re.compile`.
pub data Value : Type 0 where
  boolean : Bool → Value
  booleans : List Bool → Value
  parse_error : Value
  raised : Value

-- A loop over the operands.
pub data Values : Type 0 where
  values : List Bool → Bool → Values
  parse_errors : Values
  raises : Values

-- _get_matches(pattern_name): `compile` is `re.compile(r'^%s$' % pattern_name)` with its method
-- `match`, and `names` are the process names
unfoldable pub get_matches : (Name → Option (Name → Bool)) → List Name → Name → Option (List Name)
get_matches compile names pattern_name = elim (compile pattern_name) [
  | none ↦ none
  | some matches ↦ some (keep matches names)
]

abbrev pub is_in : Name → List Name → Bool
is_in k names = any (λ j. j == k) names

abbrev pub statuses : (Name → Bool) → List Name → List Bool
statuses status [] = []
statuses status (n ∷ ns) = status n ∷ statuses status ns

-- A string leaf.
abbrev pub of_matches : (Name → Bool) → Option (List Name) → Value
of_matches status none = raised
of_matches status (some []) = parse_error
of_matches status (some (n ∷ [])) = boolean (status n)
of_matches status (some (n ∷ n' ∷ ns)) = booleans (statuses status (n ∷ n' ∷ ns))

-- any() and all() over the value of the first argument
abbrev pub apply_call : Name → Value → Value
apply_call function (boolean b) = boolean b
apply_call function (booleans bs) =
    boolean (if function == "all" then all (λ b. b) bs else any (λ b. b) bs)
apply_call function v = v

abbrev pub apply_not : UnaryOp → Value → Value
apply_not not_op (boolean b) = boolean (not b)
apply_not not_op (booleans bs) = parse_error
apply_not not_op v = v
apply_not other_op v = parse_error

abbrev pub apply_bool_op : BoolOp → Values → Value
apply_bool_op and (values bs true) = boolean (all (λ b. b) bs)
apply_bool_op or (values bs true) = boolean (any (λ b. b) bs)
apply_bool_op op (values bs false) = parse_error
apply_bool_op op parse_errors = parse_error
apply_bool_op op raises = raised

-- One more operand: whether all are Booleans is found out after all are evaluated.
abbrev pub add_value : Value → Values → Values
add_value (boolean b) (values bs plain) = values (b ∷ bs) plain
add_value (booleans _) (values bs plain) = values bs false
add_value (boolean b) v = v
add_value (booleans _) v = v
add_value parse_error _ = parse_errors
add_value raised _ = raises

-- `status` is _get_process_status(process_name)
module _ (compile : Name → Option (Name → Bool)) (names : List Name) (status : Name → Bool) where
  unfoldable mutual
    -- evaluate(node)
    pub evaluate : Expr → Value
    evaluate (string leaf) =
        if is_in leaf names
        then boolean (status leaf)
        else of_matches status (get_matches compile names leaf)
    evaluate (call function no_expr) =
        if function == "all" || function == "any" then raised else parse_error
    evaluate (call function (more e es)) =
        let v = evaluate e in
        if function == "all" || function == "any" then apply_call function v else parse_error
    evaluate other_call = raised
    evaluate (bool_op op es) = apply_bool_op op (evaluate_all es)
    evaluate (unary_op op e) = apply_not op (evaluate e)
    evaluate other = parse_error

    pub evaluate_all : Exprs → Values
    evaluate_all no_expr = values [] true
    evaluate_all (more e es) = add_value (evaluate e) (evaluate_all es)
