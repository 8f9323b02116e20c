-- ===== src/Lexer/Scan.antt =====
-- `Lexer::getNextToken` of src/Lexer.cc, after the sources have been read.
use peryan.Lexer.Cursor.{
  Lexer, comment_is_not_closed, char_literal_size, invalid_character, Result, ok, throws,
  out_of_fuel, ◌>>=◌, is_blank, lookahead, consume,
}
use peryan.Lexer.Keyword.{keywords, find_keyword}
use peryan.Lexer.Literal.{
  within, is_digit, read_identifier_length, read_identifier, read_char_or_string_literal,
  read_here_document, read_hex_literal, read_decimal_literal, read_binary_literal, is_float_literal,
  read_float_literal,
}
use peryan.Prelude.{
  ℕ, zero, suc, Bool, true, false, not, ◌&&◌, ◌||◌, List, [], ◌∷◌, Option, none, some, ltb, ◌==◌,
  if◌then◌else◌, length, get_or,
}
use peryan.Token.{
  Token, TokenType, TokenData, Entry, plain, text, float_value, int_value, char_value,
  has_trailing_alphabet, has_ws_before,
}

abbrev pub token : TokenType → TokenData → ℕ → Token
token t d pos = record { type = t; payload = d; position = pos }

-- Where a comment that runs to the end of the line stops.
abbrev pub at_line_end : Lexer → Bool
at_line_end l =
    (lookahead l 0 == 13 && lookahead l 1 == 10) || lookahead l 0 == 10 || lookahead l 0 == 0

unfoldable pub skip_line_loop : ℕ → Lexer → Lexer
skip_line_loop zero l = l
skip_line_loop (suc f) l =
    let next = skip_line_loop f (consume 1 l) in if at_line_end l then l else next

abbrev pub skip_line : Lexer → Lexer
skip_line l = skip_line_loop (length l.source) l

unfoldable pub skip_block_loop : ℕ → ℕ → Lexer → Result Lexer
skip_block_loop zero beg_pos l = out_of_fuel
skip_block_loop (suc f) beg_pos l =
    let next = skip_block_loop f beg_pos (consume 1 l) in
    if lookahead l 0 == b'*' && lookahead l 1 == b'/'
    then ok l
    else if lookahead (consume 1 l) 0 == 0
    then throws beg_pos comment_is_not_closed
    else next

-- The body of a block comment and the mark that ends it.
abbrev pub skip_block : ℕ → Lexer → Result Lexer
skip_block beg_pos l = do l' ← skip_block_loop (suc (length l.source)) beg_pos l; ok (consume 2 l')

-- The loop that skips blanks and comments.
unfoldable pub skip_loop : ℕ → Lexer → Result Lexer
unfolding skip_line_loop skip_block_loop
skip_loop zero l = out_of_fuel
skip_loop (suc f) l =
    let blank = skip_loop f (consume 1 l) in
    let block = skip_block l.p (consume 2 l) >>= skip_loop f in
    let slashes = skip_loop f (skip_line (consume 2 l)) in
    let semicolon = skip_loop f (skip_line (consume 1 l)) in
    if is_blank (lookahead l 0)
    then blank
    else if lookahead l 0 == b'/' && lookahead l 1 == b'*'
    then block
    else if lookahead l 0 == b'/' && lookahead l 1 == b'/'
    then slashes
    else if lookahead l 0 == b';'
    then semicolon
    else ok l

abbrev pub is_alphabet : ℕ → Bool
is_alphabet c = within b'a' b'z' c || within b'A' b'Z' c || b'_' == c

-- The token of a keyword that has been consumed; `l` stands before it and `l'` behind it.
unfoldable pub keyword_token : TokenType → Lexer → Lexer → Token
keyword_token TokenType.star l l' =
    token TokenType.star (has_trailing_alphabet (is_alphabet (lookahead l' 0))) l.p
keyword_token TokenType.lbrack l l' = token TokenType.lbrack (has_ws_before l.is_prev_ws) l.p
keyword_token TokenType.lparen l l' = token TokenType.lparen (has_ws_before l.is_prev_ws) l.p
keyword_token t l l' = token t plain l.p

-- A keyword that is shorter than the identifier that starts here is passed over.
unfoldable pub scan_keyword : ℕ → Lexer → Option Entry → Option (Token × Lexer)
unfolding keyword_token
scan_keyword identifier_length l none = none
scan_keyword identifier_length l (some e) =
    if ltb (length e.spelling) identifier_length
    then none
    else some
        (keyword_token e.type l (consume (length e.spelling) l), consume (length e.spelling) l)

unfoldable pub scan_identifier : Lexer → Token × Lexer
unfolding read_identifier
scan_identifier l =
    let (name, l') = read_identifier l in
    (
      token (if within b'A' b'Z' (get_or name 0 0) then TokenType.type_id else TokenType.id)
          (text name) l.p,
      l',
    )

abbrev pub int_token : ℕ → Result (ℕ × Lexer) → Result (Token × Lexer)
int_token pos r = do (num, l') ← r; ok (token TokenType.integer (int_value num) pos, l')

unfoldable pub scan_digits : Lexer → Result (Token × Lexer)
scan_digits l =
    if is_float_literal l
    then (do
      (value, l') ← read_float_literal l
      ok (token TokenType.float (float_value value) l.p, l'))
    else int_token l.p (read_decimal_literal l)

unfoldable pub scan_char : Lexer → Result (Token × Lexer)
scan_char l = do
  (str, l') ← read_char_or_string_literal b'\'' l
  if not (length str == 1)
      then throws l'.p char_literal_size
      else ok (token TokenType.char (char_value (get_or str 0 0)) l.p, l')

-- How many characters the backslash case consumes.
unfoldable pub continuation_length : Lexer → ℕ
continuation_length l =
    if lookahead l 1 == 13 || lookahead l 1 == 10
    then 2
    else if lookahead l 1 == 13 && lookahead l 2 == 10
    then 3
    else 1

unfoldable pub skip_newlines_loop : ℕ → Lexer → Lexer
skip_newlines_loop zero l = l
skip_newlines_loop (suc f) l =
    let next = skip_newlines_loop f (consume 1 l) in
    if lookahead l 0 == 13 || lookahead l 0 == 10 then next else l

-- The `switch` at the end; `again` is the recursive call of `getNextToken`.
unfoldable pub scan_switch : (Lexer → Result (Token × Lexer)) → Lexer → Result (Token × Lexer)
unfolding scan_digits scan_char continuation_length skip_newlines_loop
scan_switch again l =
    if lookahead l 0 == b'$'
    then int_token l.p (read_hex_literal (consume 1 l))
    else if lookahead l 0 == b'0' && lookahead l 1 == b'x'
    then int_token l.p (read_hex_literal (consume 2 l))
    else if lookahead l 0 == b'0' && lookahead l 1 == b'b'
    then int_token l.p (read_binary_literal (consume 2 l))
    else if is_digit (lookahead l 0)
    then scan_digits l
    else if lookahead l 0 == b'"'
    then (do
      (str, l') ← read_char_or_string_literal b'"' l
      ok (token TokenType.string (text str) l.p, l'))
    else if lookahead l 0 == b'\''
    then scan_char l
    else if lookahead l 0 == b'\\'
    then again (consume (continuation_length l) l)
    else if lookahead l 0 == 13 || lookahead l 0 == 10
    then ok (token TokenType.term plain l.p, skip_newlines_loop (length l.source) l)
    else throws l.p invalid_character

-- What follows the keywords: an identifier, or the `switch`.
unfoldable pub scan_other : (Lexer → Result (Token × Lexer)) → ℕ → Lexer → Result (Token × Lexer)
unfolding scan_identifier scan_switch
scan_other again identifier_length l =
    if ltb 0 identifier_length then ok (scan_identifier l) else scan_switch again l

-- The token of a keyword if there is one.
unfoldable pub keyword_or : Option (Token × Lexer) → Result (Token × Lexer) → Result (Token × Lexer)
keyword_or (some found) other = ok found
keyword_or none other = other

-- `getNextToken` from where blanks and comments have been skipped.
unfoldable pub scan : (Lexer → Result (Token × Lexer)) → Lexer → Result (Token × Lexer)
unfolding scan_keyword scan_other find_keyword keyword_or
scan again l =
    if lookahead l 0 == b'{' && lookahead l 1 == b'"'
    then (do (str, l') ← read_here_document l; ok (token TokenType.string (text str) l.p, l'))
    else keyword_or (scan_keyword (read_identifier_length l) l (find_keyword keywords l))
        (scan_other again (read_identifier_length l) l)

unfoldable pub get_next_token_loop : ℕ → Lexer → Result (Token × Lexer)
unfolding skip_loop scan
get_next_token_loop zero l = out_of_fuel
get_next_token_loop (suc f) l =
    let body = skip_loop (suc (length l.source)) l >>= scan (get_next_token_loop f) in
    if lookahead l 0 == 0 then ok (token TokenType.end plain l.p, l) else body

-- Each recursive call is made after a backslash.
unfoldable pub get_next_token : Lexer → Result (Token × Lexer)
unfolding get_next_token_loop
get_next_token l = get_next_token_loop (suc (length l.source)) l

-- The lexer at the start of a source.
abbrev pub initial : List ℕ → Lexer
initial source = record { source = source; p = 0; is_prev_ws = false }

unfoldable pub is_end : TokenType → Bool
is_end TokenType.end = true
is_end t = false

-- The tokens of a whole source up to `END`, in the order in which the parser asks for them.
unfoldable pub tokens_loop : ℕ → Lexer → Result (List Token)
unfolding is_end get_next_token
tokens_loop zero l = out_of_fuel
tokens_loop (suc f) l = get_next_token l >>= λ (t, l').
    let more = tokens_loop f l' >>= λ ts. ok (t ∷ ts) in if is_end t.type then ok (t ∷ []) else more

unfoldable pub tokens : List ℕ → Result (List Token)
unfolding tokens_loop
tokens source = tokens_loop (suc (length source)) (initial source)
