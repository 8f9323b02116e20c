-- ===== src/Parser/Blocks.antt =====
-- `parseIfStmt`, `parseRepeatStmt` and `parseInstOrAssignStmt`.
use peryan.Parser.Statements.{at_terminator, end_statement, terminator, argument_round}
use peryan.Ast.{
  Expr, no_expr, func_call, exprs, Stmt, assign, instruction, if_stmt, repeat_stmt, stmts, Comp,
  no_comp, comp, comps,
}
use peryan.Parser.Expressions.{Parsers, unless_empty, parse_comp_stmt}
use peryan.Parser.Operators.{parse_expr}
use peryan.Parser.Stream.{
  P, ◌>>=◌, ◌>>◌, pure, la, lt, consume, raise, Test, on, either, other_than, when, assert_on,
  require, skip, while_do, no_terminal_character, no_closing_brace, invalid_if_statement,
  no_closing_newline, no_closing_loop,
}
use peryan.Prelude.{Bool, true, false, ◌&&◌, ◌||◌, List, [], ◌∷◌, ◌++◌, if◌then◌else◌}
use peryan.Token.{Token, TokenType, is_type}

unfoldable pub is_else_if : Test
is_else_if s =
    (is_type (la 0 s) TokenType.kw_else && is_type (la 1 s) TokenType.kw_if)
    || (is_type (la 0 s) TokenType.kw_else
        && is_type (la 1 s) TokenType.cln
        && is_type (la 2 s) TokenType.kw_if)

unfoldable pub else_if_round : Parsers → List Expr × List Comp → P (List Expr × List Comp)
else_if_round r (conditions, thens) = do
  when (λ s. is_type (la 1 s) TokenType.cln) (consume 3) (consume 2)
  condition ← parse_expr r true
  require (on TokenType.lbrace) no_closing_brace
  body ← parse_comp_stmt r
  pure (conditions ++ (condition ∷ []), thens ++ (body ∷ []))

-- Behind `if`, a condition and an opening brace.
unfoldable pub parse_if_blocks : Parsers → Bool → Token → Expr → P Stmt
parse_if_blocks r without_term token condition = do
  body ← parse_comp_stmt r
  (conditions, thens) ← while_do is_else_if (else_if_round r) (condition ∷ [], body ∷ [])
  otherwise ←
      when (on TokenType.kw_else)
        (do consume 1; require (on TokenType.lbrace) no_closing_brace; parse_comp_stmt r)
        (pure no_comp)
  terminator without_term
  pure (if_stmt token (exprs conditions) (comps thens) otherwise)

-- A round of the loops over the statements of an `if` in one line.
unfoldable pub then_round : Parsers → List Stmt → P (List Stmt)
then_round r parsed = do
  cur_stmts ← r.stmt false true
  require (other_than (on TokenType.end)) no_terminal_character
  skip (on TokenType.cln)
  pure (parsed ++ cur_stmts)

unfoldable pub else_round : Parsers → List Stmt → P (List Stmt)
else_round r parsed = do
  require (other_than (on TokenType.end)) no_closing_newline
  cur_stmts ← r.stmt false true
  skip (on TokenType.cln)
  pure (parsed ++ cur_stmts)

unfoldable pub parse_else_line : Parsers → P Comp
parse_else_line r = do
  token ← lt 0
  consume 1
  require (on TokenType.cln) no_terminal_character
  consume 1
  body ← while_do (other_than (on TokenType.term)) (else_round r) []
  pure (comp token (stmts body))

-- Behind `if`, a condition and a colon.
unfoldable pub parse_if_line : Parsers → Bool → Token → Expr → P Stmt
parse_if_line r without_term token condition = do
  colon ← lt 0
  consume 1
  body ← while_do (other_than (either (on TokenType.term) (on TokenType.kw_else))) (then_round r) []
  otherwise ← when (on TokenType.kw_else) (parse_else_line r) (pure no_comp)
  assert_on (on TokenType.term) (if without_term then pure tt else consume 1)
  pure (if_stmt token (exprs (condition ∷ [])) (comps (comp colon (stmts body) ∷ [])) otherwise)

unfoldable pub parse_if_stmt : Parsers → Bool → P Stmt
parse_if_stmt r without_term = assert_on (on TokenType.kw_if) (do
  token ← lt 0
  consume 1
  condition ← parse_expr r true
  when (on TokenType.lbrace) (parse_if_blocks r without_term token condition) (
      when (on TokenType.cln) (parse_if_line r without_term token condition)
        (raise invalid_if_statement)))

unfoldable pub skip_terms : P (Unit {0})
skip_terms = while_do (on TokenType.term) (λ u. consume 1) tt

unfoldable pub repeat_round : Parsers → List Stmt → P (List Stmt)
repeat_round r parsed = do
  require (other_than (on TokenType.end)) no_closing_loop
  skip_terms
  cur_stmts ← r.stmt false false
  unless_empty cur_stmts (raise no_closing_loop) (pure (parsed ++ cur_stmts))

unfoldable pub parse_repeat_stmt : Parsers → Bool → P Stmt
parse_repeat_stmt r without_term = assert_on (on TokenType.kw_repeat) (do
  token ← lt 0
  consume 1
  count ←
      when at_terminator (consume 1 >> pure no_expr)
        (do count ← parse_expr r true; end_statement; pure count)
  body ← while_do (other_than (on TokenType.kw_loop)) (repeat_round r) []
  consume 1
  terminator without_term
  pure (repeat_stmt token count (stmts body)))

unfoldable pub at_assignment : Test
at_assignment = either (on TokenType.eql) (
    either (either (on TokenType.pluseq) (on TokenType.minuseq))
      (either (on TokenType.stareq) (on TokenType.slasheq)))

unfoldable pub parse_inst_or_assign_stmt : Parsers → Bool → P Stmt
parse_inst_or_assign_stmt r without_term = do
  top_token ← lt 0
  top_expr ← parse_expr r false
  when (either (on TokenType.plusplus) (on TokenType.minusminus))
      (do token ← lt 0; consume 1; terminator without_term; pure (assign top_expr token no_expr))
      (when at_assignment
        (do
          token ← lt 0
          consume 1
          rhs ← parse_expr r true
          terminator without_term
          pure (assign top_expr token rhs))
        (do
          (params, _) ← while_do (other_than at_terminator) (argument_round r) ([], true)
          if without_term then pure tt else consume 1
          pure (instruction (func_call top_token top_expr (exprs params) false true))))
