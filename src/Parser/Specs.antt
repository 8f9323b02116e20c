-- ===== src/Parser/Specs.antt =====
-- `parseTypeSpec`, `speculateTypeSpec`, `parseIdentifier` and `parseLabel`.
use peryan.Ast.{TypeSpec, no_spec, named, member_spec, array_spec, func_spec, Identifier}
use peryan.Parser.Stream.{
  Stream, P, Parsed, ok, throws, asserts, out_of_fuel, ◌>>=◌, ◌>>◌, pure, la, lt, consume, raise,
  Test, on, either, when, assert_on, require, while_do, no_closing_paren, no_closing_bracket,
  invalid_type_spec, label_expected,
}
use peryan.Prelude.{ℕ, zero, suc, Bool, true, false, not, ◌&&◌, ◌||◌, if◌then◌else◌, length}
use peryan.Token.{Token, TokenType, TokenData, has_trailing_alphabet, is_type}

-- `isConst` and `isRef`, set by the loop over the modifiers.
unfoldable pub modifiers : P (Bool × Bool)
modifiers =
    while_do (either (on TokenType.kw_const) (on TokenType.kw_ref))
      (λ (is_const, is_ref).
        when (on TokenType.kw_const) (consume 1 >> pure (true, is_ref))
          (consume 1 >> pure (is_const, true)))
      (false, false)

-- Nothing is built while the parser speculates.
abbrev pub built : Bool → TypeSpec → TypeSpec
built speculating spec = if speculating then no_spec else spec

-- The `switch`. The second result says whether `first` points to the specification.
unfoldable pub spec_head : Bool → P TypeSpec → Bool → Bool → P (TypeSpec × Bool)
spec_head speculating parse_type_spec is_const is_ref =
    when (on TokenType.type_id)
      (do
        token ← lt 0
        consume 1
        pure (built speculating (named token is_const is_ref), not speculating))
      (when (on TokenType.lbrack)
        (do
          consume 1
          elm ← parse_type_spec
          require (on TokenType.rbrack) no_closing_bracket
          consume 1
          pure (built speculating (array_spec is_const is_ref elm), not speculating))
        (when (on TokenType.lparen)
          (do
            consume 1
            spec ← parse_type_spec
            require (on TokenType.rparen) no_closing_paren
            consume 1
            pure (spec, false))
          (raise invalid_type_spec)))

-- `first->isConst = false` and the same for `isRef`: `first` is the specification that the members
-- were added to.
abbrev pub clear_first : TypeSpec → TypeSpec
clear_first no_spec = no_spec
clear_first (named t c r) = named t false false
clear_first (member_spec lhs t rhs c r) = member_spec (clear_first lhs) t rhs c r
clear_first (array_spec c r e) = array_spec false false e
clear_first (func_spec c r a d) = func_spec c r a d

unfoldable pub is_member : Test
is_member s = is_type (la 0 s) TokenType.dot && is_type (la 1 s) TokenType.type_id

unfoldable pub members : Bool → Bool → Bool → TypeSpec → P TypeSpec
members speculating is_const is_ref = while_do is_member (λ spec. do
  token ← lt 0
  rhs ← lt 1
  consume 2
  pure (built speculating (member_spec spec token rhs is_const is_ref)))

-- The body of `parseTypeSpec`, with the function that it calls again.
unfoldable pub type_spec_round : Bool → P TypeSpec → P TypeSpec
type_spec_round speculating parse_type_spec = do
  (is_const, is_ref) ← modifiers
  (head, first) ← spec_head speculating parse_type_spec is_const is_ref
  spec ← members speculating is_const is_ref head
  when (on TokenType.rarrow)
      (do
        consume 1
        rhs ← parse_type_spec
        pure (
            built speculating
              (func_spec is_const is_ref (if first then clear_first spec else spec) rhs)))
      (pure spec)

unfoldable pub parse_type_spec_loop : Bool → ℕ → P TypeSpec
parse_type_spec_loop speculating zero s = out_of_fuel
parse_type_spec_loop speculating (suc f) s =
    type_spec_round speculating (parse_type_spec_loop speculating f) s

-- Each recursive call follows a token that is consumed.
unfoldable pub parse_type_spec : Bool → P TypeSpec
parse_type_spec speculating s = parse_type_spec_loop speculating (suc (length s.rest)) s

-- `mark`, a try, and `release`: the tokens are the same afterwards.
abbrev pub is_success : Stream → Parsed TypeSpec → Parsed Bool
is_success s (ok spec s') = ok true s
is_success s (throws pos m) = ok false s
is_success s asserts = asserts
is_success s out_of_fuel = out_of_fuel

unfoldable pub speculate_type_spec : P Bool
speculate_type_spec s = is_success s (parse_type_spec true s)

unfoldable pub parse_identifier : P Identifier
parse_identifier =
    assert_on (on TokenType.id)
      (do token ← lt 0; consume 1; pure (record { token = token; type_spec = no_spec }))

-- `hasTrailingAlphabet()`.
abbrev pub trailing_alphabet : TokenData → Bool
trailing_alphabet (has_trailing_alphabet b) = b
trailing_alphabet d = false

unfoldable pub is_label : Test
is_label s =
    is_type (la 0 s) TokenType.star
    && (is_type (la 1 s) TokenType.id || is_type (la 1 s) TokenType.type_id)

-- The token of the label's name.
unfoldable pub parse_label : P Token
parse_label = assert_on (on TokenType.star) (do
  star ← lt 0
  when (λ s. is_label s && trailing_alphabet star.payload)
      (do consume 1; token ← lt 0; consume 1; pure token) (raise label_expected))
