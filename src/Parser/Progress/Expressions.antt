-- ===== src/Parser/Progress/Expressions.antt =====
-- Taking tokens: the expressions below the operators.
use peryan.Ast.{Expr, Stmt}
use peryan.Parser.Expressions.{
  Parsers, comp_round, parse_comp_stmt, parse_list, parse_optional_type, parse_param,
  parse_func_expr, parse_array_literal, parse_primary_expr, is_suffix, is_attached, suffix_round,
  parse_suffixes, parse_after_spec, parse_postfix_expr,
}
use peryan.Parser.Operators.{unary_round, parse_unary_loop, parse_unary_expr}
use peryan.Parser.Progress.{Excludes-on, Keeps, EatsOn, Eats, Excludes}
use peryan.Parser.Progress.Rules.{Excludes-guarded, Excludes-or}
use peryan.Parser.Progress.Ready.{
  Ready, Statement, Ready-mono, Ready-le, Ready-expr, Ready-stmt, parsing,
}
use peryan.Parser.Stream.{Stream, P, Message}
use peryan.Prelude.{◌≡◌, ℕ, zero, suc, Bool, true, ◌<◌, ◌≤◌, List, refl, arith, length}
use peryan.Token.{Token, TokenType}

pub parse_optional_type-Keeps : {k : ℕ} → Keeps k parse_optional_type
unfolding parse_optional_type
parse_optional_type-Keeps = search parsing depth 14

pub parse_param-Eats : {k : ℕ} → Eats k parse_param
unfolding parse_param
parse_param-Eats = search (parsing, parse_optional_type-Keeps) depth 14

Excludes-is_suffix : (allow : Bool) → Excludes (is_suffix allow)
unfolding is_suffix
Excludes-is_suffix allow =
    Excludes-or
      (Excludes-or (Excludes-guarded (is_attached allow) (Excludes-on TokenType.lbrack refl))
        (Excludes-guarded (is_attached allow) (Excludes-on TokenType.lparen refl)))
      (Excludes-on TokenType.dot refl)

module _ {k : ℕ} {r : Parsers} (good : Ready k r) where
  expr-Eats : (m : ℕ) → m < k → (allow : Bool) → Eats m (r.expr allow)
  expr-Eats = Ready-expr good

  stmt-Statement : (m : ℕ) → m < k → (top without : Bool) → Statement m (r.stmt top without)
  stmt-Statement = Ready-stmt good

  comp_round-Eats : {m : ℕ} (parsed : List Stmt) → m < k → Eats m (comp_round r parsed)
  unfolding comp_round
  comp_round-Eats parsed h = search (parsing, stmt-Statement) depth 14

  pub parse_comp_stmt-Eats : Eats k (parse_comp_stmt r)
  unfolding parse_comp_stmt
  parse_comp_stmt-Eats = search (parsing, comp_round-Eats) depth 14

  parse_list-Keeps :
      {m : ℕ} (close : TokenType) (message : Message) → m < k → Keeps m (parse_list close message r)
  unfolding parse_list
  parse_list-Keeps close message h = search (parsing, expr-Eats) depth 14

  parse_array_literal-Eats : Eats k (parse_array_literal r)
  unfolding parse_array_literal
  parse_array_literal-Eats = search (parsing, parse_list-Keeps) depth 14

  parse_primary_expr-Eats : Eats k (parse_primary_expr r)
  unfolding parse_primary_expr
  parse_primary_expr-Eats = search (parsing, expr-Eats, parse_array_literal-Eats) depth 24

  suffix_round-EatsOn :
      (allow : Bool) (token : Token) (s : Expr × Bool)
      → EatsOn (is_suffix allow) k (suffix_round r token s)
  unfolding suffix_round
  suffix_round-EatsOn allow token (e, p) =
      search (parsing, expr-Eats, parse_list-Keeps, Excludes-is_suffix) depth 24

  parse_suffixes-Keeps :
      (allow partial : Bool) (position : ℕ) (e : Expr)
      → Keeps k (parse_suffixes r allow partial position e)
  unfolding parse_suffixes
  parse_suffixes-Keeps allow partial position e = search (parsing, suffix_round-EatsOn) depth 14

module _ {k : ℕ} {r : Parsers} (good : Ready k r) where
  later : (m : ℕ) → m < k → Ready m r
  later m h = Ready-mono good h

  parse_func_expr-Eats : Eats k (parse_func_expr r)
  unfolding parse_func_expr
  parse_func_expr-Eats =
      search (parsing, parse_comp_stmt-Eats, parse_optional_type-Keeps, parse_param-Eats) depth 24

  parse_after_spec-Eats :
      (allow partial : Bool) (position : ℕ) → Eats k (parse_after_spec r allow partial position)
  unfolding parse_after_spec
  parse_after_spec-Eats allow partial position =
      search (parsing, later, parse_list-Keeps, parse_suffixes-Keeps) depth 24

  primary-Eats : Eats k (parse_primary_expr r)
  primary-Eats = parse_primary_expr-Eats good

  parse_postfix_expr-Eats : (allow : Bool) → Eats k (parse_postfix_expr r allow)
  unfolding parse_postfix_expr
  parse_postfix_expr-Eats allow =
      search
        (
          parsing, later, parse_suffixes-Keeps, parse_after_spec-Eats, parse_func_expr-Eats,
          primary-Eats,
        )
        depth 24

  unary_round-Eats :
      (p : Bool → P Expr) (allow : Bool)
      → ((m : ℕ) → m < k → Eats m (p true))
      → Eats k (unary_round r p allow)
  unfolding unary_round
  unary_round-Eats p allow h = search (parsing, parse_postfix_expr-Eats, h) depth 14

module _ {r : Parsers} where
  -- The fuel is enough where there are fewer tokens than it.
  parse_unary_loop-Eats :
      {k : ℕ} (f : ℕ) (allow : Bool) → k < f → Ready k r → Eats k (parse_unary_loop r f allow)
  unfolding parse_unary_loop
  parse_unary_loop-Eats (suc f) allow h good = record {
    at =
        (unary_round-Eats good _ allow
          λ m l. parse_unary_loop-Eats f true (omega arith) (Ready-mono good l)).at;
  }
  parse_unary_loop-Eats zero allow h good = absurd (omega arith)

  pub parse_unary_expr-Eats :
      {k : ℕ} → Ready k r → (allow : Bool) → Eats k (parse_unary_expr r allow)
  unfolding parse_unary_expr
  parse_unary_expr-Eats {k = k} good allow = record {
    at = λ s l. (by_length s l (length s.rest) refl).at s (omega arith);
  }
    where
      by_length :
          (s : Stream)
          → length s.rest ≤ k
          → (n : ℕ) → n ≡ length s.rest
          → Eats n (parse_unary_loop r (suc (length s.rest)) allow)
      by_length s l n e =
          parse_unary_loop-Eats (suc (length s.rest)) allow (omega arith)
            (Ready-le (omega arith) good)
