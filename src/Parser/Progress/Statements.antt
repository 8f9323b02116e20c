-- ===== src/Parser/Progress/Statements.antt =====
-- Taking tokens: the definitions and the jumps.
use peryan.Ast.{Identifier, Expr, Stmt}
use peryan.Parser.Expressions.{Parsers}
use peryan.Parser.Progress.{Keeps, Eats}
use peryan.Parser.Progress.Arguments.{arguments-Keeps}
use peryan.Parser.Progress.Expressions.{
  parse_optional_type-Keeps, parse_param-Eats, parse_comp_stmt-Eats,
}
use peryan.Parser.Progress.Operators.{parse_expr-Eats}
use peryan.Parser.Progress.Ready.{Ready, Ready-mono, parsing}
use peryan.Parser.Progress.Rules.{progress}
use peryan.Parser.Statements.{
  end_statement, terminator, end_line, parse_default, func_def_round, parse_func_def_stmt,
  parse_extern_stmt, parse_goto_gosub_stmt, parse_label_stmt, var_def_round, parse_var_def_stmt,
}
use peryan.Parser.Blocks.{skip_terms}
use peryan.Prelude.{ℕ, Bool, ◌<◌, List}

pub end_statement-Keeps : {k : ℕ} → Keeps k end_statement
unfolding end_statement
end_statement-Keeps = search progress depth 9

pub terminator-Keeps : {k : ℕ} (without_term : Bool) → Keeps k (terminator without_term)
unfolding terminator
terminator-Keeps without_term = search (progress, end_statement-Keeps) depth 9

pub end_line-Eats : {k : ℕ} → Eats k end_line
unfolding end_line
end_line-Eats = search parsing depth 9

pub skip_terms-Keeps : {k : ℕ} → Keeps k skip_terms
unfolding skip_terms
skip_terms-Keeps = search progress depth 9

pub parse_goto_gosub_stmt-Eats :
    {k : ℕ} (without_term : Bool) → Eats k (parse_goto_gosub_stmt without_term)
unfolding parse_goto_gosub_stmt
parse_goto_gosub_stmt-Eats without_term = search (parsing, terminator-Keeps) depth 14

pub parse_label_stmt-Eats : {k : ℕ} (without_term : Bool) → Eats k (parse_label_stmt without_term)
unfolding parse_label_stmt
parse_label_stmt-Eats without_term = search (parsing, end_line-Eats) depth 14

module _ {k : ℕ} {r : Parsers} (good : Ready k r) where
  parse_default-Keeps : Keeps k (parse_default r)
  unfolding parse_default
  parse_default-Keeps = search (parsing, parse_expr-Eats) depth 14

module _ {k : ℕ} {r : Parsers} (good : Ready k r) where
  soon : (m : ℕ) → m < k → Ready m r
  soon m h = Ready-mono good h

  func_def_round-Eats : (s : List Identifier × List Expr × Bool) → Eats k (func_def_round r s)
  unfolding func_def_round
  func_def_round-Eats (params, defaults, first) =
      search (parsing, soon, parse_default-Keeps, parse_param-Eats) depth 14

  var_def_round-Eats : (s : List Stmt × Bool) → Eats k (var_def_round r s)
  unfolding var_def_round
  var_def_round-Eats (defined, first) =
      search (parsing, soon, parse_default-Keeps, parse_param-Eats) depth 14

module _ {k : ℕ} {r : Parsers} (good : Ready k r) where
  behind : (m : ℕ) → m < k → Ready m r
  behind m h = Ready-mono good h

  pub parse_func_def_stmt-Eats : Eats k (parse_func_def_stmt r)
  unfolding parse_func_def_stmt
  parse_func_def_stmt-Eats =
      search
        (
          parsing, behind, func_def_round-Eats, end_line-Eats, parse_optional_type-Keeps,
          parse_comp_stmt-Eats,
        )
        depth 24 fits 4000

  pub parse_extern_stmt-Eats : Eats k (parse_extern_stmt r)
  unfolding parse_extern_stmt
  parse_extern_stmt-Eats =
      search (parsing, behind, arguments-Keeps, end_statement-Keeps) depth 24 fits 4000

  pub parse_var_def_stmt-Eats : (without_term : Bool) → Eats k (parse_var_def_stmt r without_term)
  unfolding parse_var_def_stmt
  parse_var_def_stmt-Eats without_term = search (parsing, behind, var_def_round-Eats) depth 14
