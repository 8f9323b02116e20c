-- ===== src/Tests/Parsing.antt =====
-- Runs of the parser.
use peryan.Ast.{int_literal, TypeSpec}
use peryan.FrontEnd.{Expected, parse_and_register, parse_and_register-Expected}
use peryan.Lexer.Cursor.{ok, lookahead, consume}
use peryan.Lexer.Keyword.{keywords, matches_from, find_keyword}
use peryan.Lexer.Literal.{
  read_identifier_length, is_identifier_char, is_float_literal, read_decimal_literal,
  read_number_loop,
}
use peryan.Lexer.Scan.{tokens, get_next_token, is_end}
use peryan.Parser.EmptyVar.{parse_trans_unit_stops_at_var}
use peryan.Parser.Progress.{Ends}
use peryan.Parser.Progress.Units.{parse_trans_unit-Ends}
use peryan.Parser.RoundTrip.Parentheses.{in_parentheses, parse_type_spec_drops_modifiers}
use peryan.Parser.RoundTrip.{Follows, parse_type_spec-written}
use peryan.Parser.Written.{
  a_const, a_ref, written_modifiers, typed, Text, simple, arrow, array, name, written, tree,
}
use peryan.Parser.Specs.{is_member, parse_type_spec, speculate_type_spec}
use peryan.Parser.Speculation.{speculate_type_spec_lem}
use peryan.Parser.Stream.{end_token, on, Stream, Parsed, token_at as nth_token}
use peryan.Parser.Operators.{parse_expr}
use peryan.Parser.Sums.{Summand, summands, sum, parse_expr-sum}
use peryan.Parser.Units.{parsers, parse_trans_unit}
use peryan.Prelude.{◌++◌, List, ℕ, [], ◌∷◌, codes, none, drop, true, false, ◌≡◌, ◌↔◌, refl}
use peryan.Token.{Token, TokenType, plain, has_ws_before}
use peryan.TokenBuffer.{Buffer, lt, consume as consume_read}
use peryan.TokenBuffer.Start.{fresh, fresh-Shows}
use peryan.TokenBuffer.View.{Shows, lt-consume}

-- The tokens of `if 1 {break}` and a line end.
abbrev token : TokenType → ℕ → Token
token t n = record { type = t; payload = plain; position = n }

abbrev nested : Stream
nested = record {
  rest =
      token TokenType.kw_if 0
      ∷ token TokenType.integer 3
      ∷ token TokenType.lbrace 5
      ∷ token TokenType.kw_break 6
      ∷ token TokenType.rbrace 12
      ∷ token TokenType.term 13
      ∷ [];
  end_pos = 14;
  runtime = none;
}

parse_trans_unit-Ends_example : Ends 7 (parse_trans_unit nested)
parse_trans_unit-Ends_example = parse_trans_unit-Ends nested

-- A type specification and a parenthesis.
abbrev spec : Stream
spec = record {
  rest =
      token TokenType.lbrack 0
      ∷ token TokenType.type_id 1
      ∷ token TokenType.rbrack 4
      ∷ token TokenType.lparen 5
      ∷ [];
  end_pos = 6;
  runtime = none;
}

speculate_type_spec_lem_example :
    (speculate_type_spec spec ≡ Parsed.ok true spec)
    ↔ ((t : TypeSpec) × (s' : Stream) × (parse_type_spec false spec ≡ Parsed.ok t s'))
speculate_type_spec_lem_example = speculate_type_spec_lem spec

parse_trans_unit_stops_at_var_example :
    parse_trans_unit (record {
      rest = token TokenType.kw_var 0 ∷ token TokenType.term 3 ∷ nested.rest;
      end_pos = 20;
      runtime = none;
    })
    ≡ Parsed.ok [] (record { rest = nested.rest; end_pos = 20; runtime = none })
parse_trans_unit_stops_at_var_example =
    parse_trans_unit_stops_at_var nested.rest 0 3 20 plain plain none

-- A parenthesis.
abbrev paren : Stream
paren = record {
  rest = record { type = TokenType.lparen; payload = has_ws_before false; position = 0 } ∷ [];
  end_pos = 1;
  runtime = none;
}

paren_lexed : tokens (codes "(") ≡ ok (paren.rest ++ (end_token paren ∷ []))
unfolding tokens is_end get_next_token lookahead consume keywords matches_from find_keyword
    read_identifier_length is_identifier_char is_float_literal read_decimal_literal read_number_loop
paren_lexed = refl

fresh-Shows_example : Shows (fresh (codes "(")) paren
fresh-Shows_example = fresh-Shows (codes "(") paren paren_lexed

lt-consume_example :
    (b' : Buffer) × (lt 0 (fresh (codes "(")) ≡ ok (nth_token 0 paren, b'))
    × Shows b' paren
    × Shows (consume_read 1 b') (record paren { rest = drop 1 paren.rest })
lt-consume_example =
    lt-consume 0 (fresh (codes "(")) paren (fresh-Shows (codes "(") paren paren_lexed)

-- `const [Int].Size -> ref const Bar` at the end of a line.
abbrev function_text : Text
function_text =
    arrow (a_const (plain, 0) ∷ []) (array (plain, 6) (plain, 10) (simple [] (name (plain, 7)) []))
      (((plain, 11), (plain, 12)) ∷ []) (plain, 17)
      (simple (a_ref (plain, 20) ∷ a_const (plain, 24) ∷ []) (name (plain, 30)) [])

abbrev line_end : List Token
line_end = token TokenType.term 33 ∷ []

line_end-Follows : Follows 34 none line_end
unfolding is_member on nth_token
line_end-Follows = record { no_member = refl; no_arrow = refl }

parse_type_spec-written_example :
    parse_type_spec false
      (record { rest = written function_text line_end; end_pos = 34; runtime = none })
    ≡ Parsed.ok (tree function_text) (record { rest = line_end; end_pos = 34; runtime = none })
parse_type_spec-written_example =
    parse_type_spec-written function_text line_end 34 none line_end-Follows

-- `1 - 2 + 3`.
abbrev more_terms : List Summand
more_terms = (true, (plain, 2), (plain, 4)) ∷ (false, (plain, 6), (plain, 8)) ∷ []

parse_expr-sum_example :
    parse_expr (parsers 0) true (record {
      rest = typed TokenType.integer (plain, 0) ∷ summands more_terms (plain, 9) [];
      end_pos = 10;
      runtime = none;
    })
    ≡ Parsed.ok
        (sum (int_literal (typed TokenType.integer (plain, 0))) more_terms)
        (record { rest = typed TokenType.term (plain, 9) ∷ []; end_pos = 10; runtime = none })
parse_expr-sum_example = parse_expr-sum (parsers 0) true (plain, 0) more_terms (plain, 9) [] 10 none

parse_and_register-Expected_example : Expected (parse_and_register true nested)
parse_and_register-Expected_example = parse_and_register-Expected true nested

-- `const (Int)` at the end of a line.
parse_type_spec_drops_modifiers_example :
    parse_type_spec false (record {
      rest =
          written_modifiers
            (a_const (plain, 0) ∷ [])
            (in_parentheses (plain, 6) (plain, 10) (simple [] (name (plain, 7)) []) line_end);
      end_pos = 34;
      runtime = none;
    })
    ≡ Parsed.ok
        (tree (simple [] (name (plain, 7)) []))
        (record { rest = line_end; end_pos = 34; runtime = none })
parse_type_spec_drops_modifiers_example =
    parse_type_spec_drops_modifiers (a_const (plain, 0) ∷ []) (plain, 6) (plain, 10)
      (simple [] (name (plain, 7)) []) line_end 34 none line_end-Follows
