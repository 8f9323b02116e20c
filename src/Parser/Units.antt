-- ===== src/Parser/Units.antt =====
-- `parseStmt`, `parseNamespaceStmt` and `parseTransUnit`: the functions that tie the parser together.
use peryan.Ast.{
  TypeSpec, named, no_expr, Stmt, comp_stmt, continue_stmt, break_stmt, return_stmt, namespace_stmt,
  stmts,
}
use peryan.Parser.Expressions.{Parsers, unless_empty, parse_comp_stmt}
use peryan.Parser.Operators.{parse_expr}
use peryan.Parser.Specs.{parse_type_spec}
use peryan.Parser.Statements.{
  at_terminator, terminator, end_line, parse_func_def_stmt, parse_extern_stmt,
  parse_goto_gosub_stmt, parse_label_stmt, parse_var_def_stmt,
}
use peryan.Parser.Blocks.{skip_terms, parse_if_stmt, parse_repeat_stmt, parse_inst_or_assign_stmt}
use peryan.Parser.Stream.{
  P, out_of_fuel, ◌>>=◌, ◌>>◌, pure, assert_false, no_fuel, set_runtime, la, lt, consume, raise_at,
  Test, on, either, other_than, when, assert_on, require, while_do, brace_expected,
  no_closing_brace, not_a_namespace_name, invalid_runtime_directive,
}
use peryan.Prelude.{
  ℕ, zero, suc, Bool, true, false, not, ◌&&◌, ◌||◌, List, [], ◌∷◌, ◌++◌, if◌then◌else◌, length,
}
use peryan.Token.{Token, TokenType, is_type}

-- The parsed type specification must be a plain name; the error is at the position of its token. An array
-- or function type has not set its token, whose position is not initialized: the number that the code
-- reads there is arbitrary, and 0 stands for it.
unfoldable pub check_namespace_name : TypeSpec → P (Unit {0})
check_namespace_name (named t c r) = pure tt
check_namespace_name (TypeSpec.member_spec lhs t rhs c r) = raise_at t.position not_a_namespace_name
check_namespace_name spec = raise_at 0 not_a_namespace_name

unfoldable pub namespace_round : Parsers → List Stmt → P (List Stmt)
namespace_round r parsed =
    require (other_than (on TokenType.end)) no_closing_brace
    >> when (on TokenType.term) (consume 1 >> pure parsed) (do
      cur_stmts ← r.stmt true false
      unless_empty cur_stmts assert_false (pure (parsed ++ cur_stmts)))

unfoldable pub parse_namespace_stmt : Parsers → P Stmt
parse_namespace_stmt r = assert_on (on TokenType.kw_namespace) (do
  token ← lt 0
  consume 1
  name ← parse_type_spec false
  check_namespace_name name
  require (on TokenType.lbrace) brace_expected
  consume 1
  body ← while_do (other_than (on TokenType.rbrace)) (namespace_round r) []
  consume 1
  end_line
  pure (namespace_stmt token name (stmts body)))

abbrev one : P Stmt → P (List Stmt)
one p = p >>= λ stmt. pure (stmt ∷ [])

-- `#runtime`, and the statement behind it.
unfoldable pub parse_runtime : Parsers → Bool → P (List Stmt)
parse_runtime r without_term =
    consume 1
    >> (require (λ s. not (not (on TokenType.string s) || is_type (la 1 s) TokenType.term))
          invalid_runtime_directive
        >> (set_runtime >> (consume 2 >> r.stmt true without_term)))

unfoldable pub parse_comp_line : Parsers → Bool → P Stmt
parse_comp_line r without_term = do
  body ← parse_comp_stmt r
  if without_term then pure tt else end_line
  pure (comp_stmt body)

unfoldable pub parse_keyword_line : (Token → Stmt) → Bool → P Stmt
parse_keyword_line make without_term = do
  token ← lt 0
  consume 1
  terminator without_term
  pure (make token)

unfoldable pub parse_return : Parsers → Bool → P Stmt
parse_return r without_term = do
  token ← lt 0
  consume 1
  expr ← when (other_than at_terminator) (parse_expr r true) (pure no_expr)
  terminator without_term
  pure (return_stmt token expr)

-- The `switch`.
unfoldable pub parse_inner : Parsers → Bool → P (List Stmt)
parse_inner r without_term = when (on TokenType.kw_var) (parse_var_def_stmt r without_term) (
    when (on TokenType.lbrace) (one (parse_comp_line r without_term)) (
      when (on TokenType.kw_if) (one (parse_if_stmt r without_term)) (
        when (on TokenType.kw_repeat) (one (parse_repeat_stmt r without_term)) (
          when (on TokenType.star) (one (parse_label_stmt without_term)) (
            when (either (on TokenType.kw_goto) (on TokenType.kw_gosub))
              (one (parse_goto_gosub_stmt without_term))
              (when (on TokenType.kw_continue) (one (parse_keyword_line continue_stmt without_term))
                (when (on TokenType.kw_break) (one (parse_keyword_line break_stmt without_term)) (
                  when (on TokenType.kw_return) (one (parse_return r without_term))
                    (one (parse_inst_or_assign_stmt r without_term))))))))))

unfoldable pub is_func_def : Test
is_func_def s = is_type (la 0 s) TokenType.kw_func && is_type (la 1 s) TokenType.id

-- The statements that stand at the top level only, before the `switch`.
unfoldable pub parse_outer : Parsers → Bool → P (List Stmt)
parse_outer r without_term = when is_func_def (one (parse_func_def_stmt r)) (
    when (on TokenType.kw_extern) (one (parse_extern_stmt r)) (
      when (on TokenType.kw_namespace) (one (parse_namespace_stmt r)) (
        when (on TokenType.dr_runtime) (parse_runtime r without_term)
          (parse_inner r without_term))))

unfoldable pub parse_stmt : Parsers → (is_top_level without_term : Bool) → P (List Stmt)
parse_stmt r is_top_level without_term =
    (if without_term then pure tt else skip_terms)
    >> when (on TokenType.end) (pure []) (
        if is_top_level
        then (if without_term then assert_false else parse_outer r without_term)
        else parse_inner r without_term)

-- Each level of the fuel stands for a token: the functions are called again behind a token only.
unfoldable pub parsers : ℕ → Parsers
parsers zero = record { expr = λ allow. no_fuel; stmt = λ top without. no_fuel }
parsers (suc f) = record { expr = parse_expr (parsers f); stmt = parse_stmt (parsers f) }

unfoldable pub units_round : Parsers → (List Stmt → P (List Stmt)) → List Stmt → P (List Stmt)
units_round r loop parsed = do
  cur_stmts ← parse_stmt r true false
  unless_empty cur_stmts (pure parsed) (loop (parsed ++ cur_stmts))

unfoldable pub units_loop : ℕ → Parsers → List Stmt → P (List Stmt)
units_loop zero r parsed s = out_of_fuel
units_loop (suc f) r parsed s = units_round r (units_loop f r) parsed s

-- `parseTransUnit`: statements, until there is none.
unfoldable pub parse_trans_unit : P (List Stmt)
parse_trans_unit s = units_loop (suc (length s.rest)) (parsers (length s.rest)) [] s
