-- ===== src/Parser/EmptyVar.antt =====
-- What `parseVarDefStmt` makes of a `var` that nothing follows in its line.
use peryan.Parser.Statements.{parse_var_def_stmt, at_terminator}
use peryan.Parser.Blocks.{skip_terms}
use peryan.Parser.Stream.{
  ok, ◌>>=◌, ◌>>◌, pure, consume, token_at, on, either, other_than, when, assert_on, while_do,
  while_loop,
}
use peryan.Parser.Units.{
  parse_trans_unit, units_loop, units_round, parse_stmt, parse_outer, parse_inner, is_func_def,
}
use peryan.Prelude.{ℕ, List, [], ◌∷◌, Option, ◌≡◌, refl}
use peryan.Token.{Token, TokenType, TokenData}

-- A program that begins with `var` and a line end is parsed as an empty program, and everything behind
-- the line end is left unread: no error is thrown.
pub parse_trans_unit_stops_at_var :
    (rest : List Token) (v t e : ℕ) (d d' : TokenData) (runtime : Option Token)
    → parse_trans_unit (record {
      rest =
          record { type = TokenType.kw_var; payload = d; position = v }
          ∷ record { type = TokenType.term; payload = d'; position = t }
          ∷ rest;
      end_pos = e;
      runtime = runtime;
    })
      ≡ ok [] (record { rest = rest; end_pos = e; runtime = runtime })
unfolding parse_trans_unit units_loop units_round parse_stmt parse_outer parse_inner is_func_def
    parse_var_def_stmt at_terminator skip_terms ◌>>=◌ ◌>>◌ pure consume token_at on either
    other_than when assert_on while_do while_loop
parse_trans_unit_stops_at_var rest v t e d d' runtime = refl
