-- ===== src/Parser/Progress/Units.antt =====
-- Taking tokens: the statements, and the fuel of the parser.
use peryan.Ast.{Stmt, TypeSpec}
use peryan.Parser.Expressions.{Parsers, unless_empty, parse_comp_stmt}
use peryan.Parser.Progress.{
  Ends, Keeps, EatsOn, Eats, Excludes, Keeps-pure, Ends-mono, Ends-continue,
}
use peryan.Parser.Progress.Expressions.{parse_comp_stmt-Eats}
use peryan.Parser.Progress.Lines.{
  parse_if_stmt-Eats, parse_repeat_stmt-Eats, parse_inst_or_assign_stmt-Eats,
}
use peryan.Parser.Progress.Operators.{parse_expr-Eats}
use peryan.Parser.Progress.Ready.{
  Ready, Ready-mono, Ready-stmt, Statement, StatementEnds, Statement-Keeps, Statement-then,
  Statement-unless_end, EatsOn-unless, some_stmts, no_more, parsing,
}
use peryan.Parser.Progress.Rules.{progress, Eats-when}
use peryan.Parser.Progress.Statements.{
  end_line-Eats, terminator-Keeps, skip_terms-Keeps, parse_func_def_stmt-Eats,
  parse_extern_stmt-Eats, parse_goto_gosub_stmt-Eats, parse_label_stmt-Eats,
  parse_var_def_stmt-Eats,
}
use peryan.Parser.Stream.{
  Stream, P, Parsed, continue, ◌>>=◌, ◌>>◌, pure, on, other_than, assert_false,
}
use peryan.Parser.Units.{
  check_namespace_name, namespace_round, parse_namespace_stmt, parse_runtime, parse_comp_line,
  parse_keyword_line, parse_return, is_func_def, parse_inner, parse_outer, parse_stmt, parsers,
  units_round, units_loop, parse_trans_unit,
}
use peryan.Prelude.{
  ℕ, zero, suc, Bool, true, false, ◌<◌, ◌≤◌, List, [], ◌∷◌, ◌++◌, arith, length, if◌then◌else◌,
}
use peryan.Token.{Token, TokenType}

check_namespace_name-Keeps : {k : ℕ} (spec : TypeSpec) → Keeps k (check_namespace_name spec)
unfolding check_namespace_name
check_namespace_name-Keeps TypeSpec.no_spec = search progress
check_namespace_name-Keeps (TypeSpec.named t c r) = search progress
check_namespace_name-Keeps (TypeSpec.member_spec lhs t rhs c r) = search progress
check_namespace_name-Keeps (TypeSpec.array_spec c r e) = search progress
check_namespace_name-Keeps (TypeSpec.func_spec c r a b) = search progress

parse_keyword_line-EatsOn :
    {k : ℕ} (t : TokenType) (make : Token → Stmt) (without : Bool)
    → Excludes (on t)
    → EatsOn (on t) k (parse_keyword_line make without)
unfolding parse_keyword_line
parse_keyword_line-EatsOn t make without x = search (parsing, terminator-Keeps) depth 14

module _ {k : ℕ} {r : Parsers} (good : Ready k r) where
  later : (m : ℕ) → m < k → Ready m r
  later m h = Ready-mono good h

  stmt-Statement : (m : ℕ) → m < k → (top without : Bool) → Statement m (r.stmt top without)
  stmt-Statement = Ready-stmt good

  comp-Eats : Eats k (parse_comp_stmt r)
  comp-Eats = parse_comp_stmt-Eats good

  namespace_round-Eats : {m : ℕ} (parsed : List Stmt) → m < k → Eats m (namespace_round r parsed)
  unfolding namespace_round
  namespace_round-Eats parsed h = search (parsing, stmt-Statement) depth 14

  parse_namespace_stmt-Eats : Eats k (parse_namespace_stmt r)
  unfolding parse_namespace_stmt
  parse_namespace_stmt-Eats =
      search (parsing, namespace_round-Eats, check_namespace_name-Keeps, end_line-Eats) depth 24
        fits 4000

  parse_comp_line-Eats : (without : Bool) → Eats k (parse_comp_line r without)
  unfolding parse_comp_line
  parse_comp_line-Eats without = search (parsing, comp-Eats, end_line-Eats) depth 14

  parse_return-EatsOn :
      (without : Bool) → EatsOn (on TokenType.kw_return) k (parse_return r without)
  unfolding parse_return
  parse_return-EatsOn without = search (parsing, later, parse_expr-Eats, terminator-Keeps) depth 14

module _ {k : ℕ} {r : Parsers} (good : Ready k r) where
  parse_inner-Eats : (without : Bool) → Eats k (parse_inner r without)
  unfolding parse_inner
  parse_inner-Eats without =
      search
        (
          parsing,
          parse_comp_line-Eats good,
          parse_return-EatsOn good,
          parse_keyword_line-EatsOn,
          parse_goto_gosub_stmt-Eats,
          parse_label_stmt-Eats,
          parse_var_def_stmt-Eats good,
          parse_if_stmt-Eats good,
          parse_repeat_stmt-Eats good,
          parse_inst_or_assign_stmt-Eats good,
        )
        depth 24 fits 4000

  parse_runtime-EatsOn :
      (without : Bool) → EatsOn (on TokenType.dr_runtime) k (parse_runtime r without)
  unfolding parse_runtime
  parse_runtime-EatsOn without = search (parsing, Statement-Keeps, stmt-Statement good) depth 14

  parse_outer-Eats : (without : Bool) → Eats k (parse_outer r without)
  unfolding parse_outer
  parse_outer-Eats without =
      Eats-when is_func_def (search (parsing, parse_func_def_stmt-Eats good) depth 9) (
        Eats-when (on TokenType.kw_extern) (search (parsing, parse_extern_stmt-Eats good) depth 9) (
          Eats-when (on TokenType.kw_namespace)
            (search (parsing, parse_namespace_stmt-Eats good) depth 9)
            (search (parsing, parse_runtime-EatsOn, parse_inner-Eats) depth 9)))

  switch-Eats :
      (top without : Bool)
      → Eats k (
          if top
          then (if without then assert_false else parse_outer r without)
          else parse_inner r without)
  switch-Eats top without = search (progress, parse_outer-Eats, parse_inner-Eats) depth 9

  parse_stmt-Statement : (top without : Bool) → Statement k (parse_stmt r top without)
  unfolding parse_stmt
  parse_stmt-Statement top without =
      Statement-then (search (progress, skip_terms-Keeps) depth 9)
        (Statement-unless_end (switch-Eats top without))

  parse_stmt-EatsOn :
      (top : Bool) → EatsOn (other_than (on TokenType.end)) k (parse_stmt r top true)
  unfolding parse_stmt ◌>>◌ pure
  parse_stmt-EatsOn top = EatsOn-unless _ _ (switch-Eats top true)

-- A level of fuel for each token is enough.
parsers-Ready : (f : ℕ) {k : ℕ} → k ≤ f → Ready k (parsers f)
unfolding parsers
parsers-Ready zero h = record {
  expr = λ allow l. absurd (omega arith);
  stmt = λ top without l. absurd (omega arith);
  line = λ top l. absurd (omega arith);
}
parsers-Ready (suc f) h = record {
  expr = λ allow l. parse_expr-Eats (parsers-Ready f (omega arith)) allow;
  stmt = λ top without l. parse_stmt-Statement (parsers-Ready f (omega arith)) top without;
  line = λ top l. parse_stmt-EatsOn (parsers-Ready f (omega arith)) top;
}

-- A round, given what the rounds behind it do.
units_round-Ends :
    {r : Parsers} (loop : List Stmt → P (List Stmt)) (parsed : List Stmt) (s : Stream)
    → Ready (length s.rest) r
    → ((ss : List Stmt) (s' : Stream)
        → length s'.rest < length s.rest
        → Ends (suc (length s'.rest)) (loop ss s'))
    → Ends (suc (length s.rest)) (units_round r loop parsed s)
unfolding units_round ◌>>=◌
units_round-Ends {r = r} loop parsed s good later =
    by_end ((parse_stmt-Statement good true false).at s (omega arith))
  where
    by_stmts :
        (cur : List Stmt) (s' : Stream)
        → length s'.rest < length s.rest
        → Ends (suc (length s.rest)) (unless_empty cur (pure parsed) (loop (parsed ++ cur)) s')
    by_stmts [] s' l =
        Ends-mono (omega arith) ((Keeps-pure {k = length s'.rest} parsed).at s' (omega arith))
    by_stmts (stmt ∷ rest) s' l = Ends-mono (omega arith) (later (parsed ++ (stmt ∷ rest)) s' l)

    by_end :
        {o : Parsed (List Stmt)}
        → StatementEnds (length s.rest) o
        → Ends
            (suc (length s.rest))
            (continue o λ cur. unless_empty cur (pure parsed) (loop (parsed ++ cur)))
    by_end (some_stmts h) = Ends-continue h by_stmts
    by_end (no_more {s = s'} h e) =
        Ends-mono (omega arith) ((Keeps-pure {k = length s'.rest} parsed).at s' (omega arith))

units_loop-Ends :
    {r : Parsers} (f : ℕ) (parsed : List Stmt) (s : Stream)
    → Ready (length s.rest) r
    → length s.rest < f
    → Ends (suc (length s.rest)) (units_loop f r parsed s)
unfolding units_loop
units_loop-Ends {r = r} (suc f) parsed s good w =
    units_round-Ends (units_loop f r) parsed s good
      λ ss s' l. units_loop-Ends f ss s' (Ready-mono good l) (omega arith)
units_loop-Ends zero parsed s good w = absurd (omega arith)

-- For any tokens, the parser ends: it returns statements, throws a ParserError, or fails an
-- assertion; a call of a parsing function inside another never runs on without taking tokens, and no
-- token is added to those that are left.
pub parse_trans_unit-Ends : (s : Stream) → Ends (suc (length s.rest)) (parse_trans_unit s)
unfolding parse_trans_unit
parse_trans_unit-Ends s =
    units_loop-Ends (suc (length s.rest)) [] s (parsers-Ready (length s.rest) (omega arith))
      (omega arith)
