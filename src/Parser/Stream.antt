-- ===== src/Parser/Stream.antt =====
-- The tokens that a parsing function sees, the outcomes of parsing, and the loops and branches that
-- the functions are made of. The buffer of TokenBuffer is seen as the tokens that are left.
use peryan.Prelude.{
  ℕ, zero, suc, Bool, true, false, not, ◌||◌, List, Option, some, length, drop, get_or,
}
use peryan.Token.{Token, TokenType, plain, is_type}

-- The tokens that are left before the `END`, and the position of the `END`, which is read again and
-- again; and the token that `options_.runtime` was set from.
pub record Stream : Type 0 where
  pub rest : List Token
  pub end_pos : ℕ
  pub runtime : Option Token

abbrev pub end_token : Stream → Token
end_token s = record { type = TokenType.end; payload = plain; position = s.end_pos }

-- The messages of the ParserErrors.
pub data Message : Type 0 where
  invalid_runtime_directive no_terminal_character identifier_expected paren_expected : Message
  no_closing_paren_in_line no_closing_paren brace_expected colons_expected comma_expected : Message
  star_expected label_expected no_closing_brace no_closing_bracket invalid_type_spec : Message
  invalid_if_statement no_closing_newline no_closing_loop paren_or_dot_expected : Message
  not_function_applying invalid_primary_expression not_a_namespace_name : Message

-- `throws` is a thrown ParserError, `asserts` a failed assertion. `out_of_fuel` has no counterpart in
-- the program.
pub data Parsed (A : Type 0) : Type 0 where
  ok : A → Stream → Parsed A
  throws : ℕ → Message → Parsed A
  asserts : Parsed A
  out_of_fuel : Parsed A

abbrev pub P : Type 0 → Type 0
P A = Stream → Parsed A

abbrev pub continue : {A B : Type 0} → Parsed A → (A → P B) → Parsed B
continue (ok a s) f = f a s
continue (throws pos m) f = throws pos m
continue asserts f = asserts
continue out_of_fuel f = out_of_fuel

infixl 5 ◌>>=◌ ◌>>◌
unfoldable pub ◌>>=◌ : {A B : Type 0} → P A → (A → P B) → P B
◌>>=◌ p f s = continue (p s) f

unfoldable pub ◌>>◌ : {A B : Type 0} → P A → P B → P B
◌>>◌ p q s = continue (p s) λ _. q

unfoldable pub pure : {A : Type 0} → A → P A
pure a s = ok a s

unfoldable pub assert_false : {A : Type 0} → P A
assert_false s = asserts

unfoldable pub no_fuel : {A : Type 0} → P A
no_fuel s = out_of_fuel

-- `lt(n)`, and the type of it, `la(n)`.
unfoldable pub token_at : ℕ → Stream → Token
token_at n s = get_or s.rest n (end_token s)

abbrev pub la : ℕ → Stream → TokenType
la n s = (token_at n s).type

unfoldable pub lt : ℕ → P Token
unfolding token_at
lt n s = ok (token_at n s) s

unfoldable pub consume : ℕ → P (Unit {0})
consume n s = ok tt (record s { rest = drop n s.rest })

-- `options_.runtime = lt(0).getString()`.
unfoldable pub set_runtime : P (Unit {0})
unfolding token_at
set_runtime s = ok tt (record s { runtime = some (token_at 0 s) })

-- `throw ParserError(getPosition(), message)`.
unfoldable pub raise : {A : Type 0} → Message → P A
unfolding token_at
raise m s = throws (token_at 0 s).position m

unfoldable pub raise_at : {A : Type 0} → ℕ → Message → P A
raise_at pos m s = throws pos m

-- A test of the next tokens.
abbrev pub Test : Type 0
Test = Stream → Bool

unfoldable pub on : TokenType → Test
on t s = is_type (la 0 s) t

unfoldable pub either : Test → Test → Test
either c d s = c s || d s

unfoldable pub other_than : Test → Test
other_than c s = not (c s)

-- `if` on the next tokens.
unfoldable pub when : {A : Type 0} → Test → P A → P A → P A
when c p q s = elim (c s) [ true ↦ p s | false ↦ q s ]

unfoldable pub assert_on : {A : Type 0} → Test → P A → P A
assert_on c p s = elim (c s) [ true ↦ p s | false ↦ asserts ]

-- `if (!test) throw`.
unfoldable pub require : Test → Message → P (Unit {0})
require c m = when c (pure tt) (raise m)

-- `if (test) consume()`.
unfoldable pub skip : Test → P (Unit {0})
skip c = when c (consume 1) (pure tt)

-- `while (test) a = body(a)`.
unfoldable pub while_loop : {A : Type 0} → ℕ → Test → (A → P A) → A → P A
while_loop zero c body a s = out_of_fuel
while_loop (suc f) c body a s = elim (c s) [
  | true ↦ continue (body a s) (while_loop f c body)
  | false ↦ ok a s
]

-- Each round of a loop of the parser takes a token, but for the first one of some loops over arguments.
unfoldable pub while_do : {A : Type 0} → Test → (A → P A) → A → P A
while_do c body a s = while_loop (suc (suc (length s.rest))) c body a s
