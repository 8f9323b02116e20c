-- ===== src/Parser/Expressions.antt =====
-- The expressions below the operators: `parsePostfixExpr` and what it calls, and `parseCompStmt`.
use peryan.Ast.{
  TypeSpec, no_spec, Identifier, Expr, identifier, str_literal, int_literal, float_literal,
  char_literal, bool_literal, array_literal, func_call, constructor_call, subscr, member,
  static_member, label, func_expr, Stmt, Comp, comp, exprs, stmts,
}
use peryan.Parser.Specs.{parse_type_spec, speculate_type_spec, parse_identifier, parse_label}
use peryan.Parser.Stream.{
  P, ◌>>=◌, ◌>>◌, pure, assert_false, lt, token_at, consume, raise, raise_at, Test, on, either,
  other_than, when, assert_on, require, while_do, Message, no_closing_paren, no_closing_bracket,
  no_closing_brace, no_closing_paren_in_line, identifier_expected, paren_expected, brace_expected,
  paren_or_dot_expected, not_function_applying, invalid_primary_expression,
}
use peryan.Prelude.{ℕ, Bool, true, false, not, ◌&&◌, ◌||◌, List, [], ◌∷◌, ◌++◌, if◌then◌else◌}
use peryan.Token.{Token, TokenType, TokenData, has_ws_before}

-- The functions that are called again behind a token: `parseExpr`, and `parseStmt` with its two flags.
pub record Parsers : Type 0 where
  pub expr : Bool → P Expr
  pub stmt : (is_top_level without_term : Bool) → P (List Stmt)

abbrev pub unless_empty : {A : Type 0} → List Stmt → P A → P A → P A
unless_empty [] p q = p
unless_empty (s ∷ ss) p q = q

-- A round of the loop of `parseCompStmt`.
unfoldable pub comp_round : Parsers → List Stmt → P (List Stmt)
comp_round r parsed =
    require (other_than (on TokenType.end)) no_closing_brace
    >> when (on TokenType.term) (consume 1 >> pure parsed) (do
      cur_stmts ← r.stmt false false
      unless_empty cur_stmts assert_false (pure (parsed ++ cur_stmts)))

unfoldable pub parse_comp_stmt : Parsers → P Comp
parse_comp_stmt r = assert_on (on TokenType.lbrace) (do
  token ← lt 0
  consume 1
  body ← while_do (other_than (on TokenType.rbrace)) (comp_round r) []
  consume 1
  pure (comp token (stmts body)))

-- The list between brackets or parentheses; the comma between two elements may be missing.
unfoldable pub parse_list : TokenType → Message → Parsers → P (List Expr)
parse_list close message r = do
  (elements, _) ←
      while_do (other_than (on close))
        (λ (elements, first). do
          require (other_than (either (on TokenType.end) (on TokenType.term))) message
          when (λ s. not first && on TokenType.comma s) (consume 1) (pure tt)
          element ← r.expr true
          pure (elements ++ (element ∷ []), false))
        ([], true)
  consume 1
  pure elements

-- `[ "::" TypeSpecifier ]`.
unfoldable pub parse_optional_type : P TypeSpec
parse_optional_type = when (on TokenType.clncln) (consume 1 >> parse_type_spec false) (pure no_spec)

unfoldable pub parse_param : P Identifier
parse_param = do
  require (on TokenType.id) identifier_expected
  id ← parse_identifier
  spec ← parse_optional_type
  pure (record id { type_spec = spec })

unfoldable pub parse_func_expr : Parsers → P Expr
parse_func_expr r = assert_on (on TokenType.kw_func) (do
  token ← lt 0
  consume 1
  require (on TokenType.lparen) paren_expected
  consume 1
  (params, _) ←
      while_do (other_than (on TokenType.rparen))
        (λ (params, first). do
          require (other_than (on TokenType.term)) no_closing_paren_in_line
          when (λ s. not first && on TokenType.comma s) (consume 1) (pure tt)
          param ← parse_param
          pure (params ++ (param ∷ []), false))
        ([], true)
  consume 1
  spec ← parse_optional_type
  require (on TokenType.lbrace) brace_expected
  body ← parse_comp_stmt r
  pure (func_expr token params spec body))

unfoldable pub parse_array_literal : Parsers → P Expr
parse_array_literal r = assert_on (on TokenType.lbrack) (do
  token ← lt 0
  consume 1
  elements ← parse_list TokenType.rbrack no_closing_bracket r
  pure (array_literal token (exprs elements)))

abbrev pub literal : (Token → Expr) → P Expr
literal make = lt 0 >>= λ token. consume 1 >> pure (make token)

unfoldable pub parse_primary_expr : Parsers → P Expr
parse_primary_expr r = when (on TokenType.integer) (literal int_literal) (
    when (on TokenType.float) (literal float_literal) (
      when (on TokenType.string) (literal str_literal) (
        when (on TokenType.char) (literal char_literal) (
          when (either (on TokenType.kw_true) (on TokenType.kw_false)) (literal bool_literal) (
            when (on TokenType.lbrack) (parse_array_literal r) (
              when (on TokenType.lparen)
                (do
                  consume 1
                  expr ← r.expr true
                  require (on TokenType.rparen) no_closing_paren
                  consume 1
                  pure expr)
                (when (on TokenType.id) (parse_identifier >>= λ id. pure (identifier id)) (
                  when (on TokenType.star) (parse_label >>= λ token. pure (label token))
                    (raise invalid_primary_expression)))))))))

-- `hasWSBefore()`.
abbrev pub ws_before : TokenData → Bool
ws_before (has_ws_before b) = b
ws_before d = false

-- Where no top-level `=` is allowed, a blank before a bracket ends the expression.
unfoldable pub is_attached : Bool → Test
is_attached allow_top_eql s = allow_top_eql || not (ws_before (token_at 0 s).payload)

unfoldable pub is_suffix : Bool → Test
is_suffix allow_top_eql s =
    (on TokenType.lbrack s && is_attached allow_top_eql s)
    || (on TokenType.lparen s && is_attached allow_top_eql s)
    || on TokenType.dot s

-- A round of the loop of `parsePostfixExpr`; `token` is the one before the loop.
unfoldable pub suffix_round : Parsers → Token → Expr × Bool → P (Expr × Bool)
suffix_round r token (expr, partial) =
    when (on TokenType.lbrack)
      (do
        consume 1
        subscript ← r.expr true
        require (on TokenType.rbrack) no_closing_bracket
        consume 1
        pure (subscr expr token subscript, partial))
      (when (on TokenType.lparen)
        (do
          consume 1
          params ← parse_list TokenType.rparen no_closing_paren r
          pure (func_call token expr (exprs params) partial false, false))
        (do
          consume 1
          require (on TokenType.id) identifier_expected
          id ← parse_identifier
          pure (member expr token id, partial)))

unfoldable pub parse_suffixes : Parsers → Bool → Bool → ℕ → Expr → P Expr
parse_suffixes r allow_top_eql partial partial_position expr = do
  token ← lt 0
  (result, unapplied) ← while_do (is_suffix allow_top_eql) (suffix_round r token) (expr, partial)
  if unapplied then raise_at partial_position not_function_applying else pure result

-- After a type specification: a constructor call, which takes no suffixes, or a member of the type.
unfoldable pub parse_after_spec : Parsers → Bool → Bool → ℕ → P Expr
parse_after_spec r allow_top_eql partial partial_position = do
  spec ← parse_type_spec false
  when (on TokenType.lparen)
      (do
        token ← lt 0
        consume 1
        params ← parse_list TokenType.rparen no_closing_paren r
        pure (constructor_call token spec (exprs params)))
      (when (on TokenType.dot)
        (do
          token ← lt 0
          consume 1
          require (on TokenType.id) identifier_expected
          id ← parse_identifier
          parse_suffixes r allow_top_eql partial partial_position (static_member spec token id))
        (raise paren_or_dot_expected))

unfoldable pub parse_postfix_expr : Parsers → Bool → P Expr
parse_postfix_expr r allow_top_eql = do
  (partial, partial_position) ←
      when (on TokenType.kw_partial) (do token ← lt 0; consume 1; pure (true, token.position))
        (pure (false, 0))
  is_spec ← speculate_type_spec
  if is_spec
      then parse_after_spec r allow_top_eql partial partial_position
      else (when (on TokenType.kw_func) (parse_func_expr r) (parse_primary_expr r)
          >>= parse_suffixes r allow_top_eql partial partial_position)
