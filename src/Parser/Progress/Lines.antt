-- ===== src/Parser/Progress/Lines.antt =====
-- Taking tokens: `if`, `repeat`, instructions and assignments.
use peryan.Ast.{Expr, Stmt, Comp}
use peryan.Parser.Expressions.{Parsers, parse_comp_stmt}
use peryan.Parser.Operators.{parse_expr}
use peryan.Parser.Progress.{Excludes-on, Keeps, EatsOn, Eats, Excludes}
use peryan.Parser.Progress.Arguments.{arguments-Keeps}
use peryan.Parser.Progress.Expressions.{parse_comp_stmt-Eats}
use peryan.Parser.Progress.Operators.{parse_expr-Eats}
use peryan.Parser.Progress.Ready.{Ready, Ready-mono, Ready-stmt, Ready-line, Statement, parsing}
use peryan.Parser.Progress.Rules.{progress, Excludes-guarded, Excludes-or}
use peryan.Parser.Progress.Statements.{end_statement-Keeps, terminator-Keeps, skip_terms-Keeps}
use peryan.Parser.Statements.{at_terminator}
use peryan.Parser.Blocks.{
  is_else_if, else_if_round, parse_if_blocks, then_round, else_round, parse_else_line,
  parse_if_line, parse_if_stmt, repeat_round, parse_repeat_stmt, parse_inst_or_assign_stmt,
}
use peryan.Parser.Stream.{on, la, other_than}
use peryan.Prelude.{ℕ, Bool, true, ◌<◌, List, refl}
use peryan.Token.{Token, TokenType, is_type}

Excludes-is_else_if : Excludes is_else_if
unfolding is_else_if on
Excludes-is_else_if =
    Excludes-or
      (Excludes-guarded (λ s. is_type (la 1 s) TokenType.kw_if)
        (Excludes-on TokenType.kw_else refl))
      (Excludes-guarded (λ s. is_type (la 2 s) TokenType.kw_if)
        (Excludes-guarded (λ s. is_type (la 1 s) TokenType.cln)
          (Excludes-on TokenType.kw_else refl)))

Excludes-at_terminator : Excludes at_terminator
unfolding at_terminator
Excludes-at_terminator = search progress depth 9

module _ {k : ℕ} {r : Parsers} (good : Ready k r) where
  stmt-Statement : (m : ℕ) → m < k → (top without : Bool) → Statement m (r.stmt top without)
  stmt-Statement = Ready-stmt good

  line-EatsOn :
      (m : ℕ) → m < k → (top : Bool) → EatsOn (other_than (on TokenType.end)) m (r.stmt top true)
  line-EatsOn = Ready-line good

  else_if_round-EatsOn : (s : List Expr × List Comp) → EatsOn is_else_if k (else_if_round r s)
  unfolding else_if_round
  else_if_round-EatsOn (conditions, thens) =
      search (parsing, parse_expr-Eats, parse_comp_stmt-Eats) depth 14

  then_round-Eats : {m : ℕ} (parsed : List Stmt) → m < k → Eats m (then_round r parsed)
  unfolding then_round
  then_round-Eats parsed h = search (parsing, stmt-Statement) depth 14

  else_round-Eats : {m : ℕ} (parsed : List Stmt) → m < k → Eats m (else_round r parsed)
  unfolding else_round
  else_round-Eats parsed h = search (parsing, line-EatsOn) depth 14

  repeat_round-Eats : {m : ℕ} (parsed : List Stmt) → m < k → Eats m (repeat_round r parsed)
  unfolding repeat_round
  repeat_round-Eats parsed h = search (parsing, stmt-Statement, skip_terms-Keeps) depth 14

  parse_else_line-Keeps : {m : ℕ} → m < k → Keeps m (parse_else_line r)
  unfolding parse_else_line
  parse_else_line-Keeps h = search (parsing, else_round-Eats) depth 14

  parse_if_line-Keeps :
      {m : ℕ} (without : Bool) (token : Token) (condition : Expr)
      → m < k
      → Keeps m (parse_if_line r without token condition)
  unfolding parse_if_line
  parse_if_line-Keeps without token condition h =
      search (parsing, then_round-Eats, parse_else_line-Keeps) depth 24

module _ {k : ℕ} {r : Parsers} (good : Ready k r) where
  soon : (m : ℕ) → m < k → Ready m r
  soon m h = Ready-mono good h

  comp-Eats : Eats k (parse_comp_stmt r)
  comp-Eats = parse_comp_stmt-Eats good

  parse_if_blocks-Eats :
      (without : Bool) (token : Token) (condition : Expr)
      → Eats k (parse_if_blocks r without token condition)
  unfolding parse_if_blocks
  parse_if_blocks-Eats without token condition =
      search
        (parsing, soon, comp-Eats, parse_comp_stmt-Eats, else_if_round-EatsOn, terminator-Keeps)
        depth 24

module _ {k : ℕ} {r : Parsers} (good : Ready k r) where
  behind : (m : ℕ) → m < k → Ready m r
  behind m h = Ready-mono good h

  if_line-Keeps :
      (m : ℕ)
      → m < k
      → (without : Bool) (token : Token) (condition : Expr)
      → Keeps m (parse_if_line r without token condition)
  if_line-Keeps m h without token condition = parse_if_line-Keeps good without token condition h

  repeats-Eats : (m : ℕ) → m < k → (parsed : List Stmt) → Eats m (repeat_round r parsed)
  repeats-Eats m h parsed = repeat_round-Eats good parsed h

  expr-Eats : (allow : Bool) → Eats k (parse_expr r allow)
  expr-Eats = parse_expr-Eats good

  pub parse_if_stmt-Eats : (without : Bool) → Eats k (parse_if_stmt r without)
  unfolding parse_if_stmt
  parse_if_stmt-Eats without =
      search (parsing, behind, parse_expr-Eats, parse_if_blocks-Eats, if_line-Keeps) depth 24

  pub parse_repeat_stmt-Eats : (without : Bool) → Eats k (parse_repeat_stmt r without)
  unfolding parse_repeat_stmt
  parse_repeat_stmt-Eats without =
      search
        (
          parsing, behind, parse_expr-Eats, repeats-Eats, Excludes-at_terminator,
          end_statement-Keeps, terminator-Keeps,
        )
        depth 24

  pub parse_inst_or_assign_stmt-Eats :
      (without : Bool) → Eats k (parse_inst_or_assign_stmt r without)
  unfolding parse_inst_or_assign_stmt
  parse_inst_or_assign_stmt-Eats without =
      search (parsing, behind, expr-Eats, parse_expr-Eats, arguments-Keeps, terminator-Keeps) depth
        24
