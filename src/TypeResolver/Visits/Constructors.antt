-- ===== src/TypeResolver/Visits/Constructors.antt =====
-- `visit(ConstructorExpr *)` in src/TypeResolver.cc. A parameter is the action that visits it and takes
-- what `refresh` returns.
use peryan.Prelude.{ℕ, Bool, true, false, List, [], ◌∷◌, ◌&&◌, if◌then◌else◌}
use peryan.TypeResolver.Modifiers.{in_promotion_table}
use peryan.TypeResolver.Promoter.{Expr, given, constructor_expr, ref_expr, deref_expr, type_of}
use peryan.TypeResolver.Visits.{
  M, ◌>>=◌, ◌>>◌, pure, raise, assert_false, assert_unresolved, forget_type_var, promoted,
  value_type, same_type, unknown_constructor,
}
use peryan.Types.{TypePtr, null, builtin, array, int_, is_null}

-- The loop over the parameters; the second result is false where one has no type.
unfoldable pub visit_constructor_params : List (M Expr) → M (List Expr × Bool)
visit_constructor_params [] = pure ([], true)
visit_constructor_params (param ∷ params) =
    let rest = visit_constructor_params params in
    (do
      e ← param
      if is_null (type_of e)
          then (do assert_unresolved; forget_type_var; pure (e ∷ [], false))
          else (do (es, all) ← rest; pure (e ∷ es, all)))

abbrev pub is_builtin : TypePtr → Bool
is_builtin (builtin b) = true
is_builtin t = false

-- A single parameter of another type.
unfoldable pub convert_param : ℕ → TypePtr → Expr → TypePtr → M Expr
convert_param pos (builtin b) e v =
    if in_promotion_table v (builtin b) then promoted e v else raise pos unknown_constructor
convert_param pos (array t) e v = do
  integer ← same_type v (builtin int_)
  if integer then promoted e (builtin int_) else raise pos unknown_constructor
convert_param pos t e v = raise pos unknown_constructor

-- The length of an array and the value of its elements.
unfoldable pub convert_filled : ℕ → TypePtr → Expr → Expr → M (List Expr)
convert_filled pos (array t) e f = do
  length_type ← value_type (type_of e)
  integer ← same_type length_type (builtin int_)
  filler ← value_type (type_of f)
  element ← value_type t
  fits ← same_type filler element
  if integer && fits
      then (do e' ← promoted e (builtin int_); f' ← promoted f element; pure (e' ∷ f' ∷ []))
      else raise pos unknown_constructor
convert_filled pos t e f = raise pos unknown_constructor

unfoldable pub convert_params : ℕ → TypePtr → List Expr → M (List Expr)
convert_params pos type [] = pure []
convert_params pos type (e ∷ []) = do
  v ← value_type (type_of e)
  same ← same_type v type
  if same then pure (e ∷ []) else (convert_param pos type e v >>= λ e'. pure (e' ∷ []))
convert_params pos type (e ∷ f ∷ []) = convert_filled pos type e f
convert_params pos type es = raise pos unknown_constructor

-- The loop at the end: a constructor of a built-in type around an expression of that type is left
-- out, time and again.
unfoldable pub rewritten : Expr → M Expr
rewritten (given t) = pure (given t)
rewritten (ref_expr t e) = pure (ref_expr t e)
rewritten (deref_expr t e) = pure (deref_expr t e)
rewritten (constructor_expr t e) =
    let inner = rewritten e in
    if is_builtin t
    then (do
      u ← value_type (type_of e)
      v ← value_type t
      same ← same_type u v
      if same then inner else pure (constructor_expr t e))
    else pure (constructor_expr t e)

-- The constructor with its parameters; with one it is written out.
abbrev pub constructed : TypePtr → List Expr → Expr
constructed type (e ∷ []) = constructor_expr type e
constructed type es = given type

-- `visit(ConstructorExpr *)` at a position, for the type of the specification: the parameters, and what
-- the expression is rewritten with.
unfoldable pub visit_constructor : ℕ → TypePtr → List (M Expr) → M (List Expr × Expr)
visit_constructor pos type params = do
  (es, all) ← visit_constructor_params params
  if all
      then (do
        if is_null type then assert_false else pure tt
        converted ← convert_params pos type es
        result ← rewritten (constructed type converted)
        pure (converted, result))
      else pure (es, given null)
