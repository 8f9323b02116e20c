-- ===== src/Tests/Lexing.antt =====
-- Runs of the lexer, and its theorems at concrete sources.
use mathlib.Core.List.{Mem, mem-cons}
use mathlib.Core.Logic.Or
use peryan.Lexer.Cursor.{
  Lexer, Result, ok, throws, invalid_character, consume, lookahead, rest, overflow,
  invalid_hex_literal,
}
use peryan.Lexer.Floats.{float_of, read_float_literal_drops_zero}
use peryan.Lexer.Keyword.Longest.{all, all-Mem, find_keyword_maximal}
use peryan.Lexer.Keyword.{keywords, matches_from, find_keyword}
use peryan.Lexer.Lines.{get_next_token_hash, get_next_token-crlf}
use peryan.Lexer.Literal.{
  read_decimal_literal, read_hex_literal, read_char_or_string_literal, read_float_literal,
  int_limit, is_identifier_char, is_digit, within, read_identifier_length, is_float_literal,
  read_number_loop,
}
use peryan.Lexer.Numbers.Hex.{hex_digit, hex_value, is_hex_digit, place, read_hex_literal-value}
use peryan.Lexer.Directives.{is_directive, tokens_have_no_directive}
use peryan.Lexer.Numbers.{is_nil, decimal_text, read_decimal_literal-decimal_text}
use peryan.Lexer.Progress.Follows.{Ensures}
use peryan.Lexer.Progress.Tokens.{TokensFrom, initial-IsCoherent, tokens-TokensFrom}
use peryan.Lexer.Scan.{tokens, is_end, initial, scan, token, get_next_token}
use peryan.Lexer.Strings.{written_text, read_char_or_string_literal-written_text}
use peryan.Lexer.Words.{word, scan-identifier}
use peryan.Prelude.{
  ℕ, List, [], ◌∷◌, ◌++◌, ◌≡◌, refl, ◌≤◌, length, codes, arith, true, false, inl, not, ◌≢◌, some,
  get_or, ◌==◌, ltb, take_while, All, ◌+◌, if◌then◌else◌,
}
use peryan.Token.{
  Token, TokenType, plain, text, has_ws_before, int_value, Entry, punctuators_and_keywords,
}

-- What a run of the lexer looks into.
runs : Unit {0}
unfolding lookahead consume keywords matches_from find_keyword read_identifier_length
    is_identifier_char is_float_literal read_decimal_literal read_hex_literal read_number_loop
runs = tt

abbrev call_text : List ℕ
call_text = codes "f (1)"

-- The blank before the parenthesis reaches the token.
tokens_run :
    tokens call_text
    ≡ ok (
        token TokenType.id (text (codes "f")) 0
        ∷ token TokenType.lparen (has_ws_before true) 2
        ∷ token TokenType.integer (int_value 1) 3
        ∷ token TokenType.rparen plain 4
        ∷ token TokenType.end plain 5
        ∷ [])
unfolding runs tokens
tokens_run = refl

tokens-TokensFrom_example : Ensures (TokensFrom call_text 0) (tokens call_text)
tokens-TokensFrom_example = tokens-TokensFrom call_text

abbrev colons : Lexer
colons = initial (codes "::=")

abbrev colon : Entry
colon = record { spelling = codes ":"; type = TokenType.cln }

abbrev two_colons : Entry
two_colons = record { spelling = codes "::"; type = TokenType.clncln }

found_two_colons : find_keyword keywords colons ≡ some two_colons
unfolding runs
found_two_colons = refl

colon_matches : matches_from 0 (codes ":") colons ≡ true
unfolding runs
colon_matches = refl

colon-Mem : Mem colon punctuators_and_keywords
colon-Mem = mem-cons.1 (Or.inr (mem-cons.1 (Or.inr (mem-cons.1 (Or.inl refl)))))

find_keyword_maximal_example : length colon.spelling ≤ length two_colons.spelling
find_keyword_maximal_example =
    find_keyword_maximal colons {e = two_colons} {f = colon} found_two_colons colon-Mem
      colon_matches

abbrev crlf : Lexer
crlf = initial (b'\\' ∷ 13 ∷ 10 ∷ codes "x")

hash_here : lookahead (initial (codes "#runtime")) 0 ≡ b'#'
unfolding runs
hash_here = refl

crlf_here : (lookahead crlf 0 ≡ b'\\') × (lookahead crlf 1 ≡ 13) × (lookahead crlf 2 ≡ 10)
unfolding runs
crlf_here = (refl, refl, refl)

-- A keyword with a tail is an identifier.
abbrev tailed : Lexer
tailed = initial (codes "Loop_2+")

abbrev no_again : Lexer → Result (Token × Lexer)
no_again l = throws l.p invalid_character

tailed_start : is_identifier_char (lookahead tailed 0) ≡ true
unfolding runs
tailed_start = refl

tailed_no_digit : is_digit (lookahead tailed 0) ≡ false
unfolding runs
tailed_no_digit = refl

tailed_no_keyword : (e : Entry) → Mem e punctuators_and_keywords → e.spelling ≢ word tailed
unfolding runs all
tailed_no_keyword e m same =
    let other =
      all-Mem (λ e. not (get_or e.spelling 0 0 == b'L')) punctuators_and_keywords refl m in
    cc (rw same at other)

scan-identifier_example :
    scan no_again tailed
    ≡ ok (
      token
          (if within b'A' b'Z' (get_or (word tailed) 0 0) then TokenType.type_id else TokenType.id)
          (text (word tailed))
          0,
      consume (length (word tailed)) tailed,
    )
scan-identifier_example =
    scan-identifier tailed (initial-IsCoherent (codes "Loop_2+")) tailed_start no_again
      tailed_no_digit tailed_no_keyword

abbrev quoted : List ℕ
quoted = b'"' ∷ (written_text b'"' (codes "a\"\n") ++ (b'"' ∷ codes ";"))

read_char_or_string_literal-written_text_example :
    read_char_or_string_literal b'"' (initial quoted)
    ≡ ok (codes "a\"\n", consume (length (written_text b'"' (codes "a\"\n")) + 2) (initial quoted))
read_char_or_string_literal-written_text_example =
    read_char_or_string_literal-written_text b'"' (codes "a\"\n") (codes ";") (initial quoted)
      (inl refl) (initial-IsCoherent quoted) refl

abbrev forty_two : List ℕ
forty_two = decimal_text 43 42 ++ codes "+"

read_decimal_literal-decimal_text_example :
    read_decimal_literal (initial forty_two)
    ≡ ok (42, consume (length (decimal_text 43 42)) (initial forty_two))
read_decimal_literal-decimal_text_example =
    read_decimal_literal-decimal_text 42 (codes "+") (initial forty_two)
      (initial-IsCoherent forty_two) (omega arith) refl refl

read_hex_literal-value_example : read_hex_literal (initial (codes "fF")) ≡ (
    let ds = take_while is_hex_digit (rest (initial (codes "fF"))) in
    if is_nil ds
    then throws 0 invalid_hex_literal
    else if ltb (hex_value 0 ds) int_limit
    then ok (hex_value 0 ds, consume (length ds) (initial (codes "fF")))
    else overflow)
read_hex_literal-value_example =
    read_hex_literal-value (initial (codes "fF")) (initial-IsCoherent (codes "fF"))

-- 255, by the same digits.
ff_value : hex_value 0 (codes "fF") ≡ 255
unfolding hex_digit place
ff_value = refl

-- 0xffffffff is no `int`.
hex_overflows : read_hex_literal (initial (codes "ffffffff")) ≡ overflow
unfolding runs
hex_overflows = refl

read_float_literal_drops_zero_example :
    float_of (read_float_literal (initial (codes "1.05")))
    ≡ float_of (read_float_literal (initial (codes "1.5")))
read_float_literal_drops_zero_example =
    read_float_literal_drops_zero (codes "1") (codes "5") [] (initial (codes "1.5"))
      (initial (codes "1.05")) (initial-IsCoherent (codes "1.5"))
      (initial-IsCoherent (codes "1.05")) (refl, tt) (refl, tt) refl refl refl

-- The tokens of a source with a `(`.
one_paren :
    tokens (codes "(")
    ≡ ok (
        record { type = TokenType.lparen; payload = has_ws_before false; position = 0 }
        ∷ token TokenType.end plain 1
        ∷ [])
unfolding tokens is_end get_next_token lookahead consume keywords matches_from find_keyword
    read_identifier_length is_identifier_char is_float_literal read_decimal_literal read_number_loop
one_paren = refl

tokens_have_no_directive_example :
    All
      (λ t. is_directive t.type ≡ false)
      (record { type = TokenType.lparen; payload = has_ws_before false; position = 0 }
        ∷ token TokenType.end plain 1
        ∷ [])
tokens_have_no_directive_example = tokens_have_no_directive (codes "(") _ one_paren

hash_refused : get_next_token (initial (codes "#runtime")) ≡ throws 0 invalid_character
hash_refused = get_next_token_hash (initial (codes "#runtime")) hash_here

get_next_token-crlf_example :
    (l' : Lexer) × (get_next_token crlf ≡ ok (token TokenType.term plain (consume 2 crlf).p, l'))
get_next_token-crlf_example = get_next_token-crlf crlf crlf_here.0 crlf_here.1 crlf_here.2
