-- ===== src/TypeResolver/Visits/Operations.antt =====
-- `visit` of the binary and unary expressions, the assignments and the conditions in
-- src/TypeResolver.cc. An operand is the action that visits it and takes what `refresh` returns.
use peryan.Prelude.{ℕ, Bool, true, false, List, [], ◌∷◌, ◌||◌, if◌then◌else◌}
use peryan.Token.{Token, TokenType}
use peryan.TypeResolver.Operators.{can_promote_binary}
use peryan.TypeResolver.Promoter.{Expr, type_of}
use peryan.TypeResolver.Visits.{
  M, ◌>>=◌, ◌>>◌, pure, raise, assert_false, assert_unresolved, forget_type_var, constrain_current,
  promotes, promoted, value_type, same_type, operation_not_allowed, should_be_numeric,
  should_be_bool, condition_should_be_bool, counter_should_be_int,
}
use peryan.Types.{TypePtr, null, builtin, modifier, int_, char_, float_, double_, bool_, is_null}

-- A `BinaryExpr` after the visit.
pub record Binary : Type 0 where
  pub lhs : Expr
  pub rhs : Expr
  pub type : TypePtr

-- The conversions of the operands to the type of one of them. In the compatibility mode it is the
-- type of the left one.
unfoldable pub convert_operands : Bool → ℕ → Expr → Expr → TypePtr → TypePtr → M (Expr × Expr)
convert_operands hsp_compat pos l r lv rv = do
  to_right ← if hsp_compat then pure false else promotes hsp_compat (type_of l) rv pos false
  if to_right then (do l' ← promoted l rv; r' ← promoted r rv; pure (l', r')) else (do
    to_left ← promotes hsp_compat (type_of r) lv pos false
    if to_left then (do r' ← promoted r lv; l' ← promoted l lv; pure (l', r')) else assert_false)

-- Operands without modifiers are left as they are.
unfoldable pub convert_unless_bare : Bool → ℕ → Expr → Expr → TypePtr → TypePtr → M (Expr × Expr)
convert_unless_bare hsp_compat pos l r lv rv = do
  l_bare ← same_type (type_of l) lv
  r_bare ← if l_bare then same_type (type_of r) rv else pure false
  if r_bare then pure (l, r) else convert_operands hsp_compat pos l r lv rv

unfoldable pub combine_typed : Bool → Token → ℕ → Expr → Expr → TypePtr → TypePtr → M Binary
combine_typed hsp_compat t pos l r lv rv =
    let type = can_promote_binary hsp_compat lv t.type rv in
    if is_null type
    then raise t.position operation_not_allowed
    else (convert_unless_bare hsp_compat pos l r lv rv >>= λ (l', r').
        pure (record { lhs = l'; rhs = r'; type = modifier true false type }))

unfoldable pub combine : Bool → Token → ℕ → Expr → Expr → M Binary
combine hsp_compat t pos l r =
    if is_null (type_of l) || is_null (type_of r)
    then (assert_unresolved >> (forget_type_var >> pure (record { lhs = l; rhs = r; type = null })))
    else (do
      lv ← value_type (type_of l)
      rv ← value_type (type_of r)
      combine_typed hsp_compat t pos l r lv rv)

-- `visit(BinaryExpr *)`; `pos` is the position of the left operand.
unfoldable pub visit_binary : Bool → Token → ℕ → M Expr → M Expr → M Binary
visit_binary hsp_compat t pos lhs rhs = do l ← lhs; r ← rhs; combine hsp_compat t pos l r

abbrev pub is_one_of : TypePtr → List TypePtr → M Bool
is_one_of t [] = pure false
is_one_of t (s ∷ ss) = same_type t s >>= λ same. if same then pure true else is_one_of t ss

-- A `UnaryExpr` after the visit.
pub record Unary : Type 0 where
  pub rhs : Expr
  pub type : TypePtr

unfoldable pub unary_typed : Expr → TypePtr → M Unary
unary_typed e v = promoted e v >>= λ e'. pure (record { rhs = e'; type = v })

abbrev pub is_sign : TokenType → Bool
is_sign TokenType.plus = true
is_sign TokenType.minus = true
is_sign t = false

abbrev pub is_exclamation : TokenType → Bool
is_exclamation TokenType.excl = true
is_exclamation t = false

unfoldable pub apply_unary : Token → Expr → M Unary
apply_unary t e =
    if is_null (type_of e)
    then (assert_unresolved >> pure (record { rhs = e; type = null }))
    else if is_sign t.type
    then (do
      v ← value_type (type_of e)
      numeric ← is_one_of v (builtin int_ ∷ builtin float_ ∷ builtin double_ ∷ builtin char_ ∷ [])
      if numeric then unary_typed e v else raise t.position should_be_numeric)
    else if is_exclamation t.type
    then (do
      v ← value_type (type_of e)
      boolean ← same_type v (builtin bool_)
      if boolean then unary_typed e v else raise t.position should_be_bool)
    else assert_false

-- `visit(UnaryExpr *)`.
unfoldable pub visit_unary : Token → M Expr → M Unary
visit_unary t rhs = rhs >>= apply_unary t

-- The condition of an `if`, of the loop of `visit(IfStmt *)`; `pos` is its position.
unfoldable pub visit_condition : Bool → ℕ → ℕ → M Expr → M Expr
visit_condition hsp_compat if_pos pos condition = do
  e ← condition
  if is_null (type_of e)
      then (assert_unresolved >> (constrain_current (builtin bool_) >> pure e))
      else (do
        fits ← promotes hsp_compat (type_of e) (builtin bool_) pos false
        if fits then promoted e (builtin bool_) else raise if_pos condition_should_be_bool)

-- The counter of `visit(RepeatStmt *)`; the result says whether the statements are visited then.
unfoldable pub visit_count : Bool → ℕ → ℕ → M Expr → M (Expr × Bool)
visit_count hsp_compat repeat_pos pos count = do
  e ← count
  if is_null (type_of e)
      then (assert_unresolved >> (constrain_current (builtin int_) >> pure (e, false)))
      else (do
        fits ← promotes hsp_compat (type_of e) (builtin int_) pos false
        if fits
            then (promoted e (builtin int_) >>= λ e'. pure (e', true))
            else raise repeat_pos counter_should_be_int)
