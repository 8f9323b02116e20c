-- ===== src/Parser/Sums.antt =====
-- How a chain of operators is read.
use peryan.Ast.{Expr, int_literal, binary}
use peryan.Parser.Expressions.{
  Parsers, parse_primary_expr, is_suffix, is_attached, parse_suffixes, parse_postfix_expr,
}
use peryan.Parser.Operators.{
  unary_round, parse_unary_loop, parse_unary_expr, left_assoc, is_mult, is_add, is_shift, is_rel,
  is_eql, is_and, is_or, is_xor, parse_mult_expr, parse_add_expr, parse_shift_expr, parse_rel_expr,
  parse_eql_expr, parse_and_expr, parse_or_expr, parse_xor_expr, parse_expr,
}
use peryan.Parser.Steps.{bind-ok, while_loop-stops, while_loop-goes_on}
use peryan.Parser.Specs.{
  modifiers, spec_head, type_spec_round, parse_type_spec_loop, parse_type_spec, speculate_type_spec,
}
use peryan.Parser.Stream.{
  Stream, P, ok, ◌>>=◌, ◌>>◌, pure, token_at, lt, consume, on, either, when, require, raise,
  while_loop, while_do, Test,
}
use peryan.Parser.Written.{typed}
use peryan.Prelude.{
  ℕ, zero, suc, ◌≤◌, ◌<◌, Bool, true, false, List, [], ◌∷◌, Option, ◌≡◌, refl, ◌∙◌, length, arith,
}
use peryan.Token.{Token, TokenType, TokenData}

left_assoc-single :
    (operator : Bool → Test) (operand : Bool → P Expr) (allow : Bool) (s : Stream) {e : Expr}
    {s' : Stream}
    → operand allow s ≡ ok e s'
    → operator allow s' ≡ false
    → left_assoc operator operand allow s ≡ ok e s'
unfolding left_assoc while_do
left_assoc-single operator operand allow s {e = e} {s' = s'} q h =
    bind-ok (operand allow) _ q ∙ while_loop-stops (suc (length s'.rest)) (operator allow) _ e s' h

-- A summand: whether it is subtracted, its operator and its number.
abbrev pub Summand : Type 0
Summand = Bool × (TokenData × ℕ) × (TokenData × ℕ)

abbrev pub operator_of : Summand → Token
operator_of (true, o, n) = typed TokenType.minus o
operator_of (false, o, n) = typed TokenType.plus o

abbrev pub number_of : Summand → Token
number_of (b, o, n) = typed TokenType.integer n

-- The tokens of further summands, a line end and what is behind it.
abbrev pub summands : List Summand → TokenData × ℕ → List Token → List Token
summands [] t rest = typed TokenType.term t ∷ rest
summands (x ∷ xs) t rest = operator_of x ∷ number_of x ∷ summands xs t rest

abbrev pub sum : Expr → List Summand → Expr
sum e [] = e
sum e (x ∷ xs) = sum (binary e (operator_of x) (int_literal (number_of x))) xs

module _ (r : Parsers) (e : ℕ) (rt : Option Token) where
  abbrev st : List Token → Stream
  st ts = record { rest = ts; end_pos = e; runtime = rt }

  unary-integer :
      (allow : Bool) (n : TokenData × ℕ) (xs : List Summand) (t : TokenData × ℕ) (rest : List Token)
      → parse_unary_expr r allow (st (typed TokenType.integer n ∷ summands xs t rest))
        ≡ ok (int_literal (typed TokenType.integer n)) (st (summands xs t rest))
  unfolding unary_round parse_unary_loop parse_unary_expr parse_primary_expr is_suffix is_attached
      parse_suffixes parse_postfix_expr modifiers spec_head type_spec_round parse_type_spec_loop
      parse_type_spec speculate_type_spec ◌>>=◌ ◌>>◌ pure token_at lt consume on either when require
      raise while_loop while_do
  unary-integer allow n [] t rest = refl
  unary-integer allow n ((true, o, m) ∷ xs) t rest = refl
  unary-integer allow n ((false, o, m) ∷ xs) t rest = refl

  stops_at_summand :
      (allow : Bool) (xs : List Summand) (t : TokenData × ℕ) (rest : List Token)
      → is_mult allow (st (summands xs t rest)) ≡ false
  unfolding is_mult either on token_at
  stops_at_summand allow [] t rest = refl
  stops_at_summand allow ((true, o, m) ∷ xs) t rest = refl
  stops_at_summand allow ((false, o, m) ∷ xs) t rest = refl

  mult-integer :
      (allow : Bool) (n : TokenData × ℕ) (xs : List Summand) (t : TokenData × ℕ) (rest : List Token)
      → parse_mult_expr r allow (st (typed TokenType.integer n ∷ summands xs t rest))
        ≡ ok (int_literal (typed TokenType.integer n)) (st (summands xs t rest))
  unfolding parse_mult_expr
  mult-integer allow n xs t rest =
      left_assoc-single is_mult (parse_unary_expr r) allow _ (unary-integer allow n xs t rest)
        (stops_at_summand allow xs t rest)

  add_round : Expr → P Expr
  add_round lhs =
      lt 0 >>= λ token. consume 1 >> (parse_mult_expr r true >>= λ rhs. pure (binary lhs token rhs))

  goes_on_at_summand :
      (allow : Bool) (x : Summand) (xs : List Summand) (t : TokenData × ℕ) (rest : List Token)
      → is_add allow (st (summands (x ∷ xs) t rest)) ≡ true
  unfolding is_add either on token_at
  goes_on_at_summand allow (true, o, m) xs t rest = refl
  goes_on_at_summand allow (false, o, m) xs t rest = refl

  add_round-summand :
      (lhs : Expr) (x : Summand) (xs : List Summand) (t : TokenData × ℕ) (rest : List Token)
      → add_round lhs (st (summands (x ∷ xs) t rest))
        ≡ ok (binary lhs (operator_of x) (int_literal (number_of x))) (st (summands xs t rest))
  unfolding add_round lt consume token_at pure ◌>>=◌ ◌>>◌
  add_round-summand lhs (b, o, n) xs t rest =
      bind-ok (parse_mult_expr r true) _ (mult-integer true n xs t rest)

  add_loop-summands :
      (f : ℕ) (allow : Bool) (lhs : Expr) (xs : List Summand) (t : TokenData × ℕ)
      (rest : List Token)
      → length xs < f
      → while_loop f (is_add allow) add_round lhs (st (summands xs t rest))
        ≡ ok (sum lhs xs) (st (typed TokenType.term t ∷ rest))
  unfolding is_add either on token_at
  add_loop-summands (suc f) allow lhs [] t rest l = while_loop-stops f _ add_round lhs _ refl
  add_loop-summands (suc f) allow lhs (x ∷ xs) t rest l =
      while_loop-goes_on f _ add_round lhs _ (goes_on_at_summand allow x xs t rest)
        (add_round-summand lhs x xs t rest)
      ∙ add_loop-summands f allow _ xs t rest (omega arith)
  add_loop-summands zero allow lhs xs t rest l = absurd (omega arith)

  summands_longer :
      (xs : List Summand) (t : TokenData × ℕ) (rest : List Token)
      → length xs ≤ length (summands xs t rest)
  summands_longer [] t rest = omega arith
  summands_longer (x ∷ xs) t rest = omega (arith, summands_longer xs t rest)

  add-summands :
      (allow : Bool) (n : TokenData × ℕ) (xs : List Summand) (t : TokenData × ℕ) (rest : List Token)
      → parse_add_expr r allow (st (typed TokenType.integer n ∷ summands xs t rest))
        ≡ ok (sum (int_literal (typed TokenType.integer n)) xs) (st (typed TokenType.term t ∷ rest))
  unfolding parse_add_expr left_assoc while_do add_round
  add-summands allow n xs t rest =
      bind-ok (parse_mult_expr r allow) _ (mult-integer allow n xs t rest)
      ∙ add_loop-summands (suc (suc (length (summands xs t rest)))) allow _ xs t rest
          (omega (arith, summands_longer xs t rest))

-- An integer literal and any number of further ones, joined by `+` and `-` and ended by a line end, is
-- read as the tree in which each operator applies to all that stands on its left; the line end is left
-- with what is behind it. This holds for whatever functions are called again behind a token.
pub parse_expr-sum :
    (r : Parsers) (allow : Bool) (n : TokenData × ℕ) (xs : List Summand) (t : TokenData × ℕ)
    (rest : List Token) (e : ℕ) (runtime : Option Token)
    → parse_expr r allow (record {
      rest = typed TokenType.integer n ∷ summands xs t rest;
      end_pos = e;
      runtime = runtime;
    })
      ≡ ok
          (sum (int_literal (typed TokenType.integer n)) xs)
          (record { rest = typed TokenType.term t ∷ rest; end_pos = e; runtime = runtime })
unfolding parse_expr parse_xor_expr parse_or_expr parse_and_expr parse_eql_expr parse_rel_expr
    parse_shift_expr is_shift is_rel is_eql is_and is_or is_xor either on token_at
parse_expr-sum r allow n xs t rest e runtime =
    left_assoc-single is_xor (parse_or_expr r) allow _
      (left_assoc-single is_or (parse_and_expr r) allow _
        (left_assoc-single is_and (parse_eql_expr r) allow _
          (left_assoc-single is_eql (parse_rel_expr r) allow _
            (left_assoc-single is_rel (parse_shift_expr r) allow _
              (left_assoc-single is_shift (parse_add_expr r) allow _
                (add-summands r e runtime allow n xs t rest) refl)
              refl)
            refl)
          refl)
        refl)
      refl
