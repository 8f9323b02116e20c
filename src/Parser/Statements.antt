-- ===== src/Parser/Statements.antt =====
-- The definitions and the jumps: `parseFuncDefStmt` to `parseVarDefStmt`.
use peryan.Ast.{
  Identifier, Expr, no_expr, exprs, Stmt, func_def, var_def, label_stmt, goto_stmt, gosub_stmt,
  extern_stmt,
}
use peryan.Parser.Expressions.{Parsers, parse_comp_stmt, parse_optional_type, parse_param}
use peryan.Parser.Operators.{parse_expr}
use peryan.Parser.Specs.{parse_type_spec, parse_identifier, parse_label}
use peryan.Parser.Stream.{
  P, ◌>>=◌, ◌>>◌, pure, lt, consume, Test, on, either, other_than, when, assert_on, require, skip,
  while_do, no_terminal_character, no_closing_paren_in_line, identifier_expected, paren_expected,
  brace_expected, colons_expected, comma_expected, star_expected,
}
use peryan.Prelude.{Bool, true, false, not, ◌&&◌, List, [], ◌∷◌, ◌++◌, if◌then◌else◌}
use peryan.Token.{TokenType, is_type}

unfoldable pub at_terminator : Test
at_terminator = either (on TokenType.term) (on TokenType.cln)

unfoldable pub may_end : Test
may_end = either at_terminator (on TokenType.rbrace)

-- The end of a statement: a terminal character, which is consumed, or a closing brace, which is not.
unfoldable pub end_statement : P (Unit {0})
end_statement = require may_end no_terminal_character >> skip at_terminator

unfoldable pub terminator : Bool → P (Unit {0})
terminator without_term = if without_term then pure tt else end_statement

-- The end of a statement that takes nothing but a `TERM`.
unfoldable pub end_line : P (Unit {0})
end_line = require (on TokenType.term) no_terminal_character >> consume 1

unfoldable pub parse_default : Parsers → P Expr
parse_default r = when (on TokenType.eql) (consume 1 >> parse_expr r true) (pure no_expr)

unfoldable pub func_def_round :
    Parsers → List Identifier × List Expr × Bool → P (List Identifier × List Expr × Bool)
func_def_round r (params, defaults, first) = do
  require (other_than (on TokenType.term)) no_closing_paren_in_line
  when (λ s. not first && on TokenType.comma s) (consume 1) (pure tt)
  param ← parse_param
  default ← parse_default r
  pure (params ++ (param ∷ []), defaults ++ (default ∷ []), false)

unfoldable pub parse_func_def_stmt : Parsers → P Stmt
parse_func_def_stmt r = assert_on (on TokenType.kw_func) (do
  token ← lt 0
  consume 1
  require (on TokenType.id) identifier_expected
  name ← parse_identifier
  require (on TokenType.lparen) paren_expected
  consume 1
  (params, defaults, _) ←
      while_do (other_than (on TokenType.rparen)) (func_def_round r) ([], [], true)
  consume 1
  spec ← parse_optional_type
  require (on TokenType.lbrace) brace_expected
  body ← parse_comp_stmt r
  end_line
  pure (func_def token name params (exprs defaults) spec body))

-- A round of the loops over arguments that may be left out.
unfoldable pub argument_round : Parsers → List Expr × Bool → P (List Expr × Bool)
argument_round r (arguments, first) = do
  require (other_than (on TokenType.end)) no_terminal_character
  if first then pure tt else (require (on TokenType.comma) comma_expected >> consume 1)
  argument ← when (on TokenType.comma) (pure no_expr) (parse_expr r true)
  pure (arguments ++ (argument ∷ []), false)

unfoldable pub parse_extern_stmt : Parsers → P Stmt
parse_extern_stmt r = assert_on (on TokenType.kw_extern) (do
  token ← lt 0
  consume 1
  id ← parse_identifier
  require (on TokenType.clncln) colons_expected
  consume 1
  spec ← parse_type_spec false
  (defaults, _) ←
      when (on TokenType.eql)
        (consume 1 >> while_do (other_than may_end) (argument_round r) ([], true)) (pure ([], true))
  end_statement
  pure (extern_stmt token (record id { type_spec = spec }) (exprs defaults)))

unfoldable pub parse_goto_gosub_stmt : Bool → P Stmt
parse_goto_gosub_stmt without_term =
    assert_on (either (on TokenType.kw_goto) (on TokenType.kw_gosub)) (do
      token ← lt 0
      consume 1
      require (on TokenType.star) star_expected
      label ← parse_label
      terminator without_term
      pure (
          if is_type token.type TokenType.kw_goto
          then goto_stmt token label
          else gosub_stmt token label))

unfoldable pub parse_label_stmt : Bool → P Stmt
parse_label_stmt without_term = assert_on (on TokenType.star) (do
  token ← lt 0
  label ← parse_label
  if without_term then pure tt else end_line
  pure (label_stmt token label))

unfoldable pub var_def_round : Parsers → List Stmt × Bool → P (List Stmt × Bool)
var_def_round r (defined, first) = do
  when (λ s. not first && on TokenType.comma s) (consume 1) (pure tt)
  id ← parse_param
  init ← parse_default r
  pure (defined ++ (var_def id.token id init ∷ []), false)

unfoldable pub parse_var_def_stmt : Parsers → Bool → P (List Stmt)
parse_var_def_stmt r without_term = assert_on (on TokenType.kw_var) (do
  consume 1
  (defined, _) ← while_do (other_than at_terminator) (var_def_round r) ([], true)
  if without_term then pure tt else consume 1
  pure defined)
