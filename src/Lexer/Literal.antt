-- ===== src/Lexer/Literal.antt =====
-- The functions of src/Lexer.cc that read identifiers and literals. A loop on fuel gets the size of
-- the source, and each round reads a character.
use peryan.Lexer.Cursor.{
  Lexer, string_not_closed, invalid_hex_literal, invalid_binary_literal, Result, ok, throws,
  overflow, out_of_fuel, ◌>>=◌, lookahead, consume,
}
use peryan.Prelude.{
  ℕ, zero, suc, ◌+◌, ◌-◌, ◌*◌, ◌^◌, Bool, true, false, ◌&&◌, ◌||◌, List, [], ◌∷◌, ◌++◌, ltb, leb,
  ◌==◌, if◌then◌else◌, length, ◌≡◌, arith,
}
use peryan.Token.{FloatValue}

abbrev pub within : ℕ → ℕ → ℕ → Bool
within lo hi c = leb lo c && leb c hi

abbrev pub is_digit : ℕ → Bool
is_digit c = within b'0' b'9' c

unfoldable pub is_identifier_char : ℕ → Bool
is_identifier_char c = within b'a' b'z' c || within b'A' b'Z' c || within b'0' b'9' c || c == b'_'

unfoldable pub identifier_length_loop : ℕ → Lexer → ℕ → ℕ
identifier_length_loop zero l len = len
identifier_length_loop (suc f) l len =
    let next = identifier_length_loop f l (len + 1) in
    if is_identifier_char (lookahead l len) then next else len

unfoldable pub read_identifier_length : Lexer → ℕ
unfolding identifier_length_loop
read_identifier_length l =
    if is_digit (lookahead l 0) then 0 else identifier_length_loop (length l.source) l 0

unfoldable pub read_identifier_loop : ℕ → Lexer → List ℕ → List ℕ × Lexer
read_identifier_loop zero l identifier = (identifier, l)
read_identifier_loop (suc f) l identifier =
    let next = read_identifier_loop f (consume 1 l) (identifier ++ (lookahead l 0 ∷ [])) in
    if is_identifier_char (lookahead l 0) then next else (identifier, l)

unfoldable pub read_identifier : Lexer → List ℕ × Lexer
unfolding read_identifier_loop
read_identifier l = read_identifier_loop (length l.source) l []

-- The character that a backslash and `e` stand for.
unfoldable pub escape : ℕ → ℕ
escape e =
    if e == b't'
    then 9
    else if e == b'n'
    then 10
    else if e == b'r'
    then 13
    else if e == b'e'
    then 0x1b
    else e

unfoldable pub read_string_loop : ℕ → ℕ → ℕ → Lexer → List ℕ → Result (List ℕ × Lexer)
read_string_loop zero terminator beg_pos l str = out_of_fuel
read_string_loop (suc f) terminator beg_pos l str =
    let escaped =
      read_string_loop f terminator beg_pos (consume 2 l) (str ++ (escape (lookahead l 1) ∷ [])) in
    let plain = read_string_loop f terminator beg_pos (consume 1 l) (str ++ (lookahead l 0 ∷ [])) in
    if lookahead l 0 == terminator
    then ok (str, l)
    else if lookahead l 0 == 13 || lookahead l 0 == 10 || lookahead l 0 == 0
    then throws beg_pos string_not_closed
    else if lookahead l 0 == b'\\'
    then escaped
    else plain

unfoldable pub read_char_or_string_literal : ℕ → Lexer → Result (List ℕ × Lexer)
unfolding read_string_loop
read_char_or_string_literal terminator l = do
  (str, l') ← read_string_loop (suc (length l.source)) terminator l.p (consume 1 l) []
  ok (str, consume 1 l')

unfoldable pub read_here_loop : ℕ → ℕ → Lexer → List ℕ → Result (List ℕ × Lexer)
read_here_loop zero beg_pos l str = out_of_fuel
read_here_loop (suc f) beg_pos l str =
    let escaped = read_here_loop f beg_pos (consume 2 l) (str ++ (escape (lookahead l 1) ∷ [])) in
    let plain = read_here_loop f beg_pos (consume 1 l) (str ++ (lookahead l 0 ∷ [])) in
    if lookahead l 0 == b'"' && lookahead l 1 == b'}'
    then ok (str, l)
    else if lookahead l 0 == 0
    then throws beg_pos string_not_closed
    else if lookahead l 0 == b'\\'
    then escaped
    else plain

unfoldable pub read_here_document : Lexer → Result (List ℕ × Lexer)
unfolding read_here_loop
read_here_document l = do
  (str, l') ← read_here_loop (suc (length l.source)) l.p (consume 2 l) []
  ok (str, consume 2 l')

-- One past the largest `int`.
abbrev pub int_limit : ℕ
int_limit = 2 ^ 31

-- The result of an `int` operation on numbers that are not negative.
abbrev pub int_result : ℕ → Result ℕ
int_result n = if ltb n int_limit then ok n else overflow

-- A number in some base: which characters are digits, and what they add.
pub record Notation : Type 0 where
  pub base : ℕ
  pub accepts : ℕ → Bool
  pub digit : ℕ → ℕ

-- The loop that `readHexLiteral`, `readDecimalLiteral` and `readBinaryLiteral` have in common; its
-- results are `num`, `nothing` and the lexer.
unfoldable pub read_number_loop : Notation → ℕ → Lexer → ℕ → Bool → Result (ℕ × Bool × Lexer)
read_number_loop n zero l num nothing = out_of_fuel
read_number_loop n (suc f) l num nothing =
    let next = read_number_loop n f (consume 1 l) in
    let round = (do
      scaled ← int_result (num * n.base)
      sum ← int_result (scaled + n.digit (lookahead l 0))
      next sum false) in
    if n.accepts (lookahead l 0) then round else ok (num, nothing, l)

abbrev pub hex : Notation
hex = record {
  base = 16;
  accepts = λ c. within b'a' b'f' c || within b'A' b'F' c || within b'0' b'9' c;
  digit = λ c.
      if within b'a' b'f' c
      then c - b'a' + 10
      else if within b'A' b'Z' c
      then c - b'A' + 10
      else if within b'0' b'9' c
      then c - b'0'
      else 0;
}

abbrev pub decimal : Notation
decimal = record { base = 10; accepts = is_digit; digit = λ c. c - b'0' }

abbrev pub binary : Notation
binary = record { base = 2; accepts = λ c. c == b'0' || c == b'1'; digit = λ c. c - b'0' }

abbrev pub read_number : Notation → Lexer → Result (ℕ × Bool × Lexer)
read_number n l = read_number_loop n (suc (length l.source)) l 0 true

unfoldable pub read_hex_literal : Lexer → Result (ℕ × Lexer)
read_hex_literal l = do
  (num, nothing, l') ← read_number hex l
  if nothing then throws l'.p invalid_hex_literal else ok (num, l')

unfoldable pub read_decimal_literal : Lexer → Result (ℕ × Lexer)
read_decimal_literal l = do (num, nothing, l') ← read_number decimal l; ok (num, l')

unfoldable pub read_binary_literal : Lexer → Result (ℕ × Lexer)
read_binary_literal l = do
  (num, nothing, l') ← read_number binary l
  if nothing then throws l'.p invalid_binary_literal else ok (num, l')

digit_count_loop : ℕ → Lexer → ℕ → ℕ
digit_count_loop zero l cnt = cnt
digit_count_loop (suc f) l cnt =
    let next = digit_count_loop f l (cnt + 1) in if is_digit (lookahead l cnt) then next else cnt

unfoldable pub is_float_literal : Lexer → Bool
unfolding digit_count_loop
is_float_literal l =
    let cnt = digit_count_loop (length l.source) l 0 in
    lookahead l cnt == b'.' && is_digit (lookahead l (cnt + 1))

-- The quotient of two `int`s as doubles is at least 1.0 exactly when the one is at least the other.
unfoldable pub frac_length_loop : ℕ → ℕ → ℕ → Result ℕ
frac_length_loop zero fractional frac_length = out_of_fuel
frac_length_loop (suc f) fractional frac_length =
    let next = frac_length_loop f fractional in
    let round = (do longer ← int_result (frac_length * 10); next longer) in
    if leb frac_length fractional then round else ok frac_length

-- An `int` has ten digits at most.
unfoldable pub read_float_literal : Lexer → Result (FloatValue × Lexer)
unfolding frac_length_loop
read_float_literal l = do
  (integer, l₁) ← read_decimal_literal l
  (fractional, l₂) ← read_decimal_literal (consume 1 l₁)
  frac_length ← frac_length_loop 11 fractional 1
  ok (record { integer = integer; fractional = fractional; frac_length = frac_length }, l₂)

-- An identifier that is not empty starts with an identifier character.
pub identifier_start_of_length :
    (l : Lexer)
    → ltb 0 (read_identifier_length l) ≡ true
    → is_identifier_char (lookahead l 0) ≡ true
unfolding read_identifier_length
identifier_start_of_length l h = by_loop (length l.source) (ground arith)
  where
    by_loop :
        (f : ℕ)
        → ltb 0 (identifier_length_loop f l 0) ≡ true
        → is_identifier_char (lookahead l 0) ≡ true
    by_loop zero e = cc
    by_loop (suc f) e = ground arith
