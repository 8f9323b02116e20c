-- ===== src/Parser/Progress/Operators.antt =====
-- Taking tokens: the chains of binary operators.
use peryan.Ast.{Expr}
use peryan.Parser.Expressions.{Parsers}
use peryan.Parser.Operators.{
  left_assoc, is_mult, is_add, is_shift, is_rel, is_eql, is_and, is_or, is_xor, parse_unary_expr,
  parse_mult_expr, parse_add_expr, parse_shift_expr, parse_rel_expr, parse_eql_expr, parse_and_expr,
  parse_or_expr, parse_xor_expr, parse_expr,
}
use peryan.Parser.Progress.{Excludes-on, Eats, Excludes, Eats-mono}
use peryan.Parser.Progress.Rules.{progress, Excludes-guarded, Excludes-or}
use peryan.Parser.Progress.Expressions.{parse_unary_expr-Eats}
use peryan.Parser.Progress.Ready.{Ready, parsing}
use peryan.Parser.Stream.{P, Test, on}
use peryan.Prelude.{ℕ, Bool, not, ◌&&◌, ◌<◌, arith, refl}
use peryan.Token.{TokenType}

-- A chain of operators takes tokens where its operands do.
module _ {k : ℕ} (operator : Bool → Test) (operand : Bool → P Expr)
    (excludes : (allow : Bool) → Excludes (operator allow))
    (eats : (allow : Bool) → Eats k (operand allow)) where
  operand-Eats : (m : ℕ) → m < k → (allow : Bool) → Eats m (operand allow)
  operand-Eats m l allow = Eats-mono (omega arith) (eats allow)

  left_assoc-Eats : (allow : Bool) → Eats k (left_assoc operator operand allow)
  unfolding left_assoc
  left_assoc-Eats allow = search (parsing, operand-Eats) depth 14

Excludes-is_mult : (allow : Bool) → Excludes (is_mult allow)
unfolding is_mult
Excludes-is_mult allow = search progress

Excludes-is_add : (allow : Bool) → Excludes (is_add allow)
unfolding is_add
Excludes-is_add allow = search progress

Excludes-is_shift : (allow : Bool) → Excludes (is_shift allow)
unfolding is_shift
Excludes-is_shift allow = search progress

Excludes-is_rel : (allow : Bool) → Excludes (is_rel allow)
unfolding is_rel
Excludes-is_rel allow = search progress

Excludes-is_eql : (allow : Bool) → Excludes (is_eql allow)
unfolding is_eql
Excludes-is_eql allow =
    Excludes-guarded (λ s. not (on TokenType.eql s && not allow))
      (Excludes-or
        (Excludes-or
          (Excludes-or (Excludes-on TokenType.eql refl) (Excludes-on TokenType.eqeq refl))
          (Excludes-on TokenType.excleq refl))
        (Excludes-on TokenType.excl refl))

Excludes-is_and : (allow : Bool) → Excludes (is_and allow)
unfolding is_and
Excludes-is_and allow = search progress

Excludes-is_or : (allow : Bool) → Excludes (is_or allow)
unfolding is_or
Excludes-is_or allow = search progress

Excludes-is_xor : (allow : Bool) → Excludes (is_xor allow)
unfolding is_xor
Excludes-is_xor allow = search progress

module _ {k : ℕ} {r : Parsers} (good : Ready k r) where
  parse_mult_expr-Eats : (allow : Bool) → Eats k (parse_mult_expr r allow)
  unfolding parse_mult_expr
  parse_mult_expr-Eats =
      left_assoc-Eats is_mult (parse_unary_expr r) Excludes-is_mult (parse_unary_expr-Eats good)

  parse_add_expr-Eats : (allow : Bool) → Eats k (parse_add_expr r allow)
  unfolding parse_add_expr
  parse_add_expr-Eats =
      left_assoc-Eats is_add (parse_mult_expr r) Excludes-is_add parse_mult_expr-Eats

  parse_shift_expr-Eats : (allow : Bool) → Eats k (parse_shift_expr r allow)
  unfolding parse_shift_expr
  parse_shift_expr-Eats =
      left_assoc-Eats is_shift (parse_add_expr r) Excludes-is_shift parse_add_expr-Eats

  parse_rel_expr-Eats : (allow : Bool) → Eats k (parse_rel_expr r allow)
  unfolding parse_rel_expr
  parse_rel_expr-Eats =
      left_assoc-Eats is_rel (parse_shift_expr r) Excludes-is_rel parse_shift_expr-Eats

  parse_eql_expr-Eats : (allow : Bool) → Eats k (parse_eql_expr r allow)
  unfolding parse_eql_expr
  parse_eql_expr-Eats =
      left_assoc-Eats is_eql (parse_rel_expr r) Excludes-is_eql parse_rel_expr-Eats

  parse_and_expr-Eats : (allow : Bool) → Eats k (parse_and_expr r allow)
  unfolding parse_and_expr
  parse_and_expr-Eats =
      left_assoc-Eats is_and (parse_eql_expr r) Excludes-is_and parse_eql_expr-Eats

  parse_or_expr-Eats : (allow : Bool) → Eats k (parse_or_expr r allow)
  unfolding parse_or_expr
  parse_or_expr-Eats = left_assoc-Eats is_or (parse_and_expr r) Excludes-is_or parse_and_expr-Eats

  parse_xor_expr-Eats : (allow : Bool) → Eats k (parse_xor_expr r allow)
  unfolding parse_xor_expr
  parse_xor_expr-Eats = left_assoc-Eats is_xor (parse_or_expr r) Excludes-is_xor parse_or_expr-Eats

  pub parse_expr-Eats : (allow : Bool) → Eats k (parse_expr r allow)
  unfolding parse_expr
  parse_expr-Eats = parse_xor_expr-Eats
