-- ===== src/Lexer/Lines.antt =====
-- What `getNextToken` makes of a backslash at the end of a line, and of `#`.
use peryan.Lexer.Cursor.{
  Lexer, lookahead-consume, Result, ok, throws, invalid_character, lookahead, consume,
}
use peryan.Lexer.Keyword.Longest.{all}
use peryan.Lexer.Keyword.{keywords, matches_from, find_keyword}
use peryan.Lexer.Literal.{is_identifier_char, read_identifier_length, identifier_length_loop}
use peryan.Lexer.Scan.{
  skip_loop, scan_keyword, scan_switch, scan_other, keyword_or, scan, get_next_token_loop,
  get_next_token, token, skip_newlines_loop,
}
use peryan.Prelude.{
  ℕ, zero, suc, ◌<◌, Bool, true, false, not, ◌&&◌, ◌||◌, List, [], ◌∷◌, none, ◌≡◌, ◌≢◌, ◌⊎◌, inr,
  refl, ◌∙◌, arith, ltb, ◌==◌, length, get_or,
}
use peryan.Token.{Token, TokenType, plain, Entry}

-- No keyword begins with one of these characters.
no_start : ℕ → Entry → Bool
no_start c e = not (get_or e.spelling 0 0 == c) && ltb 0 (length e.spelling)

keywords-no_backslash : all (no_start b'\\') keywords ≡ true
unfolding all no_start keywords
keywords-no_backslash = refl

keywords-no_newline : all (no_start 10) keywords ≡ true
unfolding all no_start keywords
keywords-no_newline = refl

keywords-no_hash : all (no_start b'#') keywords ≡ true
unfolding all no_start keywords
keywords-no_hash = refl

no_match :
    (s : List ℕ) (l : Lexer)
    → (not (get_or s 0 0 == lookahead l 0) && ltb 0 (length s)) ≡ true
    → matches_from 0 s l ≡ false
unfolding matches_from
no_match [] l h = ground arith
no_match (x ∷ xs) l h = ground arith

find_keyword-none :
    (es : List Entry) (l : Lexer)
    → all (no_start (lookahead l 0)) es ≡ true
    → find_keyword es l ≡ none
unfolding find_keyword all no_start
find_keyword-none [] l h = refl
find_keyword-none (e ∷ es) l h = ground (arith, no_match e.spelling l, find_keyword-none es l)

no_identifier :
    (l : Lexer) → is_identifier_char (lookahead l 0) ≡ false → read_identifier_length l ≡ 0
unfolding read_identifier_length
no_identifier l h = ground (arith, by_loop (length l.source))
  where
    by_loop : (f : ℕ) → identifier_length_loop f l 0 ≡ 0
    by_loop zero = unfold identifier_length_loop in refl
    by_loop (suc f) = unfold identifier_length_loop in rw h

-- A character that starts no keyword, identifier or here document goes to the `switch`.
module _ (again : Lexer → Result (Token × Lexer)) (l : Lexer) {c : ℕ}
    (here : lookahead l 0 ≡ c) where
  to_switch :
      all (no_start c) keywords ≡ true
      → is_identifier_char c ≡ false
      → c ≢ b'{'
      → scan again l ≡ scan_switch again l
  unfolding scan scan_keyword scan_other keyword_or
  to_switch signs chars brace =
      let no_here : (lookahead l 0 == b'{' && lookahead l 1 == b'"') ≡ false = ground arith in
      rw (no_here, find_keyword-none keywords l (rw here signs), no_identifier l (rw here chars))

-- Nothing is skipped in front of such a character.
no_skip :
    (f : ℕ) (l : Lexer) {c : ℕ}
    → lookahead l 0 ≡ c
    → (c == b' ' || c == 9 || c == b'/' || c == b';') ≡ false
    → skip_loop (suc f) l ≡ ok l
unfolding skip_loop
no_skip f l here h = ground arith

at_most : (l : Lexer) (n : ℕ) → lookahead l n ≢ 0 → n < length l.source
unfolding lookahead
at_most l n h = ground arith

get_next_token_loop-switch :
    (f : ℕ) (l : Lexer) {c : ℕ}
    → lookahead l 0 ≡ c
    → c ≢ 0
    → (c == b' ' || c == 9 || c == b'/' || c == b';') ≡ false
    → all (no_start c) keywords ≡ true
    → is_identifier_char c ≡ false
    → c ≢ b'{'
    → get_next_token_loop (suc f) l ≡ scan_switch (get_next_token_loop f) l
unfolding get_next_token_loop
get_next_token_loop-switch f l here nz no_space signs chars brace =
    let more : (lookahead l 0 == 0) ≡ false = ground arith in
    rw (more, no_skip (length l.source) l here no_space)
      (to_switch (get_next_token_loop f) l here signs chars brace)

not_identifier :
    (is_identifier_char b'#' ≡ false)
    × (is_identifier_char b'\\' ≡ false)
    × (is_identifier_char 10 ≡ false)
    × (is_identifier_char 13 ≡ false)
unfolding is_identifier_char
not_identifier = (refl, refl, refl, refl)

-- A lexer that stands on a `#` throws, at this position: no keyword, identifier or literal begins with it.
pub get_next_token_hash :
    (l : Lexer) → lookahead l 0 ≡ b'#' → get_next_token l ≡ throws l.p invalid_character
unfolding get_next_token scan_switch
get_next_token_hash l here =
    get_next_token_loop-switch (length l.source) l here (omega arith) refl keywords-no_hash
      not_identifier.0 (omega arith)
    ∙ ground arith

-- A backslash in front of a newline joins the lines: the token behind the newline comes next.
pub get_next_token-joined_line :
    (f : ℕ) (l : Lexer)
    → lookahead l 0 ≡ b'\\'
    → (lookahead l 1 ≡ 10) ⊎ (lookahead l 1 ≡ 13)
    → get_next_token_loop (suc f) l ≡ get_next_token_loop f (consume 2 l)
unfolding scan_switch
get_next_token-joined_line f l here newline =
    get_next_token_loop-switch f l here (omega arith) refl keywords-no_backslash not_identifier.1
      (omega arith)
    ∙ ground arith

switch_newline :
    (again : Lexer → Result (Token × Lexer)) (l : Lexer)
    → lookahead l 0 ≡ 10
    → scan_switch again l
      ≡ ok (token TokenType.term plain l.p, skip_newlines_loop (length l.source) l)
unfolding scan_switch
switch_newline again l here = ground arith

-- A backslash in front of CR LF does not join the lines: the backslash takes the CR with it, and the
-- LF becomes a TERM token, although the code has a case that would consume all three characters.
pub get_next_token-crlf :
    (l : Lexer)
    → lookahead l 0 ≡ b'\\'
    → lookahead l 1 ≡ 13
    → lookahead l 2 ≡ 10
    → (l' : Lexer) × (get_next_token l ≡ ok (token TokenType.term plain (consume 2 l).p, l'))
unfolding get_next_token
get_next_token-crlf l back cr lf = by_size (length l.source) (at_most l 2 λ z. cc)
  where
    by_size :
        (n : ℕ)
        → 2 < n
        → (l' : Lexer) × (get_next_token_loop (suc n) l
            ≡ ok (token TokenType.term plain (consume 2 l).p, l'))
    by_size zero h = absurd (omega arith)
    by_size (suc n) h =
        let there = lookahead-consume l 0 2 ∙ lf in
        (
          skip_newlines_loop (length (consume 2 l).source) (consume 2 l),
          get_next_token-joined_line (suc n) l back (inr cr)
              ∙ get_next_token_loop-switch n (consume 2 l) there (omega arith) refl
                  keywords-no_newline not_identifier.2 (omega arith)
              ∙ switch_newline (get_next_token_loop n) (consume 2 l) there,
        )
