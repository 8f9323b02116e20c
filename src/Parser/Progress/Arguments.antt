-- ===== src/Parser/Progress/Arguments.antt =====
-- Taking tokens: the loops over arguments, where the first round is a case of its own.
use peryan.Ast.{Expr}
use peryan.Parser.Expressions.{Parsers}
use peryan.Parser.Operators.{parse_expr}
use peryan.Parser.Progress.{Ends, done, threw, asserted, Keeps, Eats, Ends-mono}
use peryan.Parser.Progress.Operators.{parse_expr-Eats}
use peryan.Parser.Progress.Ready.{Ready, parsing}
use peryan.Parser.Progress.Rules.{Keeps-require}
use peryan.Parser.Statements.{argument_round}
use peryan.Parser.Stream.{
  Stream, P, Parsed, ok, throws, asserts, continue, ◌>>=◌, ◌>>◌, pure, Test, on, when, require,
  consume, while_loop, while_do, comma_expected,
}
use peryan.Prelude.{ℕ, zero, suc, ◌≤◌, ◌<◌, Bool, true, false, List, [], length, arith}
use peryan.Token.{TokenType}

-- As `Ends`, and the flag of the result is off.
data Then (n : ℕ) : Parsed (List Expr × Bool) → Type 0 where
  done_off : {es : List Expr} {s : Stream} → length s.rest < n → Then n (ok (es, false) s)
  threw_then : {pos : ℕ} {m : _} → Then n (throws pos m)
  asserted_then : Then n asserts

Then-continue :
    {A : Type 0} {m n : ℕ} {o : Parsed A} {f : A → P (List Expr × Bool)}
    → Ends m o
    → ((a : A) (s : Stream) → length s.rest < m → Then n (f a s))
    → Then n (continue o f)
Then-continue (done {a = a} {s = s} h) k = k a s h
Then-continue threw k = threw_then
Then-continue asserted k = asserted_then

Then-Ends :
    {B : Type 0} {m n : ℕ} {o : Parsed (List Expr × Bool)} (f : List Expr × Bool → P B)
    → Then m o
    → ((es : List Expr) (s : Stream) → length s.rest < m → Ends n (f (es, false) s))
    → Ends n (continue o f)
Then-Ends f (done_off {es = es} {s = s} h) k = k es s h
Then-Ends f threw_then k = threw
Then-Ends f asserted_then k = asserted

module _ {k : ℕ} {r : Parsers} (good : Ready k r) where
  expr-Eats : (allow : Bool) → Eats k (parse_expr r allow)
  expr-Eats = parse_expr-Eats good

  argument-Keeps : Keeps k (when (on TokenType.comma) (pure Expr.no_expr) (parse_expr r true))
  argument-Keeps = search (parsing, expr-Eats) depth 9

  comma-Eats : Eats k (require (on TokenType.comma) comma_expected >> consume 1)
  comma-Eats = search parsing depth 9

  first_round-Then :
      (es : List Expr) (s : Stream)
      → length s.rest ≤ k
      → Then (suc (length s.rest)) (argument_round r (es, true) s)
  unfolding argument_round ◌>>=◌ ◌>>◌ pure
  first_round-Then es s l = Then-continue ((Keeps-require _ _).at s l) λ _ s1 l1.
      Then-continue (argument-Keeps.at s1 (omega arith)) λ a s2 l2. done_off (omega arith)

  next_round-Then :
      (es : List Expr) (s : Stream)
      → length s.rest ≤ k
      → Then (length s.rest) (argument_round r (es, false) s)
  unfolding argument_round ◌>>=◌ ◌>>◌ pure
  next_round-Then es s l = Then-continue ((Keeps-require _ _).at s l) λ _ s1 l1.
      Then-continue (comma-Eats.at s1 (omega arith)) λ _ s2 l2.
        Then-continue (argument-Keeps.at s2 (omega arith)) λ a s3 l3. done_off (omega arith)

  -- A round, given what the rounds behind it do.
  by_test :
      (n : ℕ) (b first : Bool) (es : List Expr) (s : Stream)
      (after : List Expr × Bool → P (List Expr × Bool))
      → Then n (argument_round r (es, first) s)
      → ((fs : List Expr) (s' : Stream)
          → length s'.rest < n
          → Ends (suc (length s.rest)) (after (fs, false) s'))
      → Ends (suc (length s.rest)) {A = List Expr × Bool} (elim b [
        | true ↦ continue (argument_round r (es, first) s) after
        | false ↦ ok (es, first) s
      ])
  by_test n true first es s after h later = Then-Ends after h later
  by_test n false first es s after h later = done (omega arith)

  next_rounds-Ends :
      (c : Test) (f : ℕ) (es : List Expr) (s : Stream)
      → length s.rest ≤ k
      → length s.rest < f
      → Ends (suc (length s.rest)) (while_loop f c (argument_round r) (es, false) s)
  unfolding while_loop
  next_rounds-Ends c (suc f) es s l w =
      by_test (length s.rest) (c s) false es s _ (next_round-Then es s l)
        λ fs s' l'. Ends-mono (omega arith) (next_rounds-Ends c f fs s' (omega arith) (omega arith))
  next_rounds-Ends c zero es s l w = absurd (omega arith)

  pub arguments-Keeps : (c : Test) → Keeps k (while_do c (argument_round r) ([], true))
  unfolding while_do while_loop
  arguments-Keeps c = record {
    at = λ s l.
        by_test (suc (length s.rest)) (c s) true [] s _ (first_round-Then [] s l) λ fs s' l'.
          Ends-mono (omega arith)
            (next_rounds-Ends c (suc (length s.rest)) fs s' (omega arith) (omega arith));
  }
