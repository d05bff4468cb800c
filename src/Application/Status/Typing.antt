-- ===== src/Application/Status/Typing.antt =====
-- The status formula of supvisors/application.py: what it evaluates to, whatever the processes do.
use supvisors.Prelude.{
  ◌≡◌, refl, inl, inr, Bool, true, false, ◌||◌, List, [], ◌∷◌, Option, none, some, Name, ◌==◌,
  Bool-cases, arith, if◌then◌else◌,
}
use supvisors.Application.Formula.{
  BoolOp, and, or, not_op, other_op, Expr, string, call, other_call, bool_op, unary_op, other,
  Exprs, no_expr, more, Value, boolean, booleans, parse_error, raised, Values, values, parse_errors,
  raises, get_matches, is_in, of_matches, apply_call, apply_not, apply_bool_op, add_value, evaluate,
  evaluate_all,
}

-- A Boolean, a list of them, ApplicationStatusParseError, or an exception that is not caught.
pub data Kind : Type 0 where
  single plural unresolved uncaught : Kind

abbrev pub kind : Value → Kind
kind (boolean b) = single
kind (booleans bs) = plural
kind parse_error = unresolved
kind raised = uncaught

-- The kinds of several operands together: `plural` when all have a value and one is a list.
abbrev pub kind_all : Values → Kind
kind_all (values bs true) = single
kind_all (values bs false) = plural
kind_all parse_errors = unresolved
kind_all raises = uncaught

abbrev matched : Option (List Name) → Kind
matched none = uncaught
matched (some []) = unresolved
matched (some (n ∷ [])) = single
matched (some (n ∷ n' ∷ ns)) = plural

abbrev called : Kind → Kind
called plural = single
called t = t

abbrev plain : Kind → Kind
plain plural = unresolved
plain t = t

abbrev joined : Kind → Kind → Kind
joined single t = t
joined plural single = plural
joined plural t = t
joined unresolved t = unresolved
joined uncaught t = uncaught

-- The type of a formula, from the names of the processes alone.
module _ (compile : Name → Option (Name → Bool)) (names : List Name) where
  unfoldable mutual
    pub type_of : Expr → Kind
    type_of (string leaf) =
        if is_in leaf names then single else matched (get_matches compile names leaf)
    type_of (call function no_expr) =
        if function == "all" || function == "any" then uncaught else unresolved
    type_of (call function (more e es)) =
        let t = type_of e in if function == "all" || function == "any" then called t else unresolved
    type_of other_call = uncaught
    type_of (bool_op op es) = plain (type_of_all es)
    type_of (unary_op not_op e) = plain (type_of e)
    type_of (unary_op other_op e) = unresolved
    type_of other = unresolved

    pub type_of_all : Exprs → Kind
    type_of_all no_expr = single
    type_of_all (more e es) = joined (type_of e) (type_of_all es)

kind-of_matches :
    (status : Name → Bool) (m : Option (List Name)) → kind (of_matches status m) ≡ matched m
kind-of_matches status none = refl
kind-of_matches status (some []) = refl
kind-of_matches status (some (n ∷ [])) = refl
kind-of_matches status (some (n ∷ n' ∷ ns)) = refl

kind-apply_call : (function : Name) (v : Value) → kind (apply_call function v) ≡ called (kind v)
kind-apply_call function (boolean b) = refl
kind-apply_call function (booleans bs) = refl
kind-apply_call function parse_error = refl
kind-apply_call function raised = refl

kind-apply_not : (v : Value) → kind (apply_not not_op v) ≡ plain (kind v)
kind-apply_not (boolean b) = refl
kind-apply_not (booleans bs) = refl
kind-apply_not parse_error = refl
kind-apply_not raised = refl

kind-apply_bool_op : (op : BoolOp) (v : Values) → kind (apply_bool_op op v) ≡ plain (kind_all v)
kind-apply_bool_op and (values bs true) = refl
kind-apply_bool_op or (values bs true) = refl
kind-apply_bool_op op (values bs false) = ground arith
kind-apply_bool_op op parse_errors = ground arith
kind-apply_bool_op op raises = ground arith

kind_all-add_value :
    (v : Value) (vs : Values) → kind_all (add_value v vs) ≡ joined (kind v) (kind_all vs)
kind_all-add_value v vs = ground arith

module _ (compile : Name → Option (Name → Bool)) (names : List Name) (status : Name → Bool) where
  mutual
    unfolding evaluate type_of

    kind-of_expr : (e : Expr) → kind (evaluate compile names status e) ≡ type_of compile names e
    kind-of_expr (string leaf) = elim (Bool-cases (is_in leaf names)) [
      | inl e ↦ rw e refl
      | inr e ↦ rw e (kind-of_matches status (get_matches compile names leaf))
    ]
    kind-of_expr (call function no_expr) = ground arith
    kind-of_expr (call function (more e es)) =
        ground (arith, kind-apply_call function (evaluate compile names status e), kind-of_expr e)
    kind-of_expr other_call = refl
    kind-of_expr (bool_op op es) =
        ground
          (arith, kind-apply_bool_op op (evaluate_all compile names status es), kind-of_exprs es)
    kind-of_expr (unary_op not_op e) =
        ground (arith, kind-apply_not (evaluate compile names status e), kind-of_expr e)
    kind-of_expr (unary_op other_op e) = ground arith
    kind-of_expr other = refl

    kind-of_exprs :
        (es : Exprs)
        → kind_all (evaluate_all compile names status es) ≡ type_of_all compile names es
    kind-of_exprs no_expr = refl
    kind-of_exprs (more e es) = ground (
      arith,
      kind_all-add_value (evaluate compile names status e) (evaluate_all compile names status es),
      kind-of_expr e,
      kind-of_exprs es,
    )

  -- What a status formula evaluates to, a Boolean, a list of Booleans, a parse error or an
  -- exception that is not caught, follows from the formula and the names of the processes alone,
  -- whatever their states.
  pub evaluate-kind : (e : Expr) → kind (evaluate compile names status e) ≡ type_of compile names e
  evaluate-kind e = kind-of_expr e
