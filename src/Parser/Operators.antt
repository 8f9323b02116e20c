-- ===== src/Parser/Operators.antt =====
-- The unary and the binary operators: `parseExpr` and the functions down to `parseUnaryExpr`.
use peryan.Parser.Expressions.{Parsers, parse_postfix_expr}
use peryan.Ast.{Expr, binary, unary}
use peryan.Parser.Stream.{
  P, out_of_fuel, ◌>>=◌, ◌>>◌, pure, lt, consume, Test, on, either, when, while_do,
}
use peryan.Prelude.{ℕ, zero, suc, Bool, true, not, ◌&&◌, ◌||◌, length}
use peryan.Token.{TokenType}

-- The body of `parseUnaryExpr`, with the function that it calls again.
unfoldable pub unary_round : Parsers → (Bool → P Expr) → Bool → P Expr
unary_round r parse_unary_expr allow_top_eql =
    when (either (on TokenType.excl) (either (on TokenType.plus) (on TokenType.minus)))
      (do token ← lt 0; consume 1; rhs ← parse_unary_expr true; pure (unary token rhs))
      (parse_postfix_expr r allow_top_eql)

unfoldable pub parse_unary_loop : Parsers → ℕ → Bool → P Expr
parse_unary_loop r zero allow_top_eql s = out_of_fuel
parse_unary_loop r (suc f) allow_top_eql s = unary_round r (parse_unary_loop r f) allow_top_eql s

-- Each recursive call follows an operator.
unfoldable pub parse_unary_expr : Parsers → Bool → P Expr
parse_unary_expr r allow_top_eql s = parse_unary_loop r (suc (length s.rest)) allow_top_eql s

-- What the functions for the binary operators have in common.
unfoldable pub left_assoc : (Bool → Test) → (Bool → P Expr) → Bool → P Expr
left_assoc operator operand allow_top_eql = do
  lhs ← operand allow_top_eql
  while_do (operator allow_top_eql)
      (λ lhs. do token ← lt 0; consume 1; rhs ← operand true; pure (binary lhs token rhs)) lhs

unfoldable pub is_mult : Bool → Test
is_mult allow = either (on TokenType.star) (either (on TokenType.slash) (on TokenType.perc))

unfoldable pub is_add : Bool → Test
is_add allow = either (on TokenType.plus) (on TokenType.minus)

unfoldable pub is_shift : Bool → Test
is_shift allow = either (on TokenType.ltlt) (on TokenType.gtgt)

unfoldable pub is_rel : Bool → Test
is_rel allow =
    either (on TokenType.lt)
      (either (on TokenType.lteq) (either (on TokenType.gt) (on TokenType.gteq)))

unfoldable pub is_eql : Bool → Test
is_eql allow s =
    (on TokenType.eql s || on TokenType.eqeq s || on TokenType.excleq s || on TokenType.excl s)
    && not (on TokenType.eql s && not allow)

unfoldable pub is_and : Bool → Test
is_and allow = on TokenType.amp

unfoldable pub is_or : Bool → Test
is_or allow = on TokenType.pipe

unfoldable pub is_xor : Bool → Test
is_xor allow = on TokenType.caret

unfoldable pub parse_mult_expr : Parsers → Bool → P Expr
parse_mult_expr r = left_assoc is_mult (parse_unary_expr r)

unfoldable pub parse_add_expr : Parsers → Bool → P Expr
parse_add_expr r = left_assoc is_add (parse_mult_expr r)

unfoldable pub parse_shift_expr : Parsers → Bool → P Expr
parse_shift_expr r = left_assoc is_shift (parse_add_expr r)

unfoldable pub parse_rel_expr : Parsers → Bool → P Expr
parse_rel_expr r = left_assoc is_rel (parse_shift_expr r)

unfoldable pub parse_eql_expr : Parsers → Bool → P Expr
parse_eql_expr r = left_assoc is_eql (parse_rel_expr r)

unfoldable pub parse_and_expr : Parsers → Bool → P Expr
parse_and_expr r = left_assoc is_and (parse_eql_expr r)

unfoldable pub parse_or_expr : Parsers → Bool → P Expr
parse_or_expr r = left_assoc is_or (parse_and_expr r)

unfoldable pub parse_xor_expr : Parsers → Bool → P Expr
parse_xor_expr r = left_assoc is_xor (parse_or_expr r)

unfoldable pub parse_expr : Parsers → Bool → P Expr
parse_expr r allow_top_eql = parse_xor_expr r allow_top_eql
