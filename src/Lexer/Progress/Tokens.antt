-- ===== src/Lexer/Progress/Tokens.antt =====
-- `getNextToken` keeps within its fuel, and every token but `END` moves the lexer forward; so the
-- whole source becomes a list of tokens that ends with `END`.
use peryan.Lexer.Cursor.{Lexer, IsCoherent, Result, ok, ◌>>=◌, lookahead, consume}
use peryan.Lexer.Keyword.{keywords, find_keyword}
use peryan.Lexer.Literal.{
  is_digit, read_hex_literal, read_binary_literal, read_identifier_length, is_float_literal,
  identifier_start_of_length,
}
use peryan.Lexer.Progress.Follows.{
  left, Follows, Ensures, holds, threw, Ensures-if, Ensures-bind, Ensures-map, Follows-refl,
  lt_of_lookahead, Advances, consume-Advances, Advances-trans, Follows-Advances, left-Advances,
}
use peryan.Lexer.Progress.Literals.{
  read_char_or_string_literal-Ensures, read_here_document-Ensures, read_hex_literal-Ensures,
  read_decimal_literal-Advances, read_binary_literal-Ensures, read_float_literal-Ensures,
}
use peryan.Lexer.Progress.Scanning.{
  skip_loop-Ensures, skip_newlines_loop-Advances, Moves, Placed, placed, IsFlagged, Placed-Moves,
  Moves-trans, int_token-Ensures, scan_identifier-Placed, scan_keyword-Placed,
}
use peryan.Lexer.Scan.{
  int_token, scan_identifier, scan_keyword, scan_digits, scan_char, continuation_length,
  scan_switch, scan_other, keyword_or, scan, get_next_token_loop, get_next_token, is_end, initial,
  tokens_loop, tokens,
}
use peryan.Prelude.{
  ℕ, zero, suc, ◌≤◌, ◌<◌, true, false, not, ◌&&◌, ◌||◌, List, [], ◌∷◌, Option, none, some, ◌≡◌, ◌≢◌,
  refl, arith, ltb, ◌==◌, if◌then◌else◌, length,
}
use peryan.Token.{Token}

scan_digits-Ensures :
    (l : Lexer)
    → IsCoherent l
    → is_digit (lookahead l 0) ≡ true
    → Ensures (Placed l) (scan_digits l)
unfolding scan_digits
scan_digits-Ensures l c e =
    Ensures-if (is_float_literal l)
      (λ _. Ensures-bind (read_float_literal-Ensures l c e) λ r h. holds (placed h refl tt))
      (λ _. int_token-Ensures (read_decimal_literal-Advances l c e))

scan_char-Ensures :
    (l : Lexer) → IsCoherent l → lookahead l 0 ≢ 0 → Ensures (Placed l) (scan_char l)
unfolding scan_char
scan_char-Ensures l c z =
    Ensures-bind (read_char_or_string_literal-Ensures l c b'\'' z)
      λ r h. Ensures-if (not (length r.0 == 1)) (λ _. threw) (λ _. holds (placed h refl tt))

continuation_length_pos : (l : Lexer) → 0 < continuation_length l
unfolding continuation_length
continuation_length_pos l = ground arith

-- What `again` does from every place behind `l`.
abbrev Again : (Lexer → Result (Token × Lexer)) → Lexer → Type 0
Again again l = (m : Lexer) → Advances l m → Ensures (Moves m) (again m)

module _ (again : Lexer → Result (Token × Lexer)) (l : Lexer) (c : IsCoherent l)
    (ih : Again again l) where
  on_advance : {r : Result (Token × Lexer)} → Ensures (Placed l) r → Ensures (Moves l) r
  on_advance e = Ensures-map e Placed-Moves

  -- A literal behind a prefix of `n` characters.
  prefixed :
      (n : ℕ) (read : Lexer → Result (ℕ × Lexer))
      → ((m : Lexer) → IsCoherent m → Ensures (λ r. Follows m r.1) (read m))
      → 0 < n
      → lookahead l 0 ≢ 0
      → Ensures (Moves l) (int_token l.p (read (consume n l)))
  prefixed n read h pos z =
      let a = consume-Advances n l c pos (lt_of_lookahead l z) in
      on_advance (
        int_token-Ensures
          (Ensures-map (h (consume n l) a.follows.coherent) λ r g. Advances-trans a g))

  go_on : lookahead l 0 ≢ 0 → Ensures (Moves l) (again (consume (continuation_length l) l))
  go_on z =
      let a =
        consume-Advances (continuation_length l) l c (continuation_length_pos l)
          (lt_of_lookahead l z) in
      Ensures-map (ih (consume (continuation_length l) l) a) (Moves-trans a.follows)

  scan_switch-Ensures : Ensures (Moves l) (scan_switch again l)
  unfolding scan_switch
  scan_switch-Ensures =
      Ensures-if (lookahead l 0 == b'$')
        (λ e. prefixed 1 read_hex_literal read_hex_literal-Ensures (omega arith) (ground arith))
        λ _.
          Ensures-if (lookahead l 0 == b'0' && lookahead l 1 == b'x')
            (λ e. prefixed 2 read_hex_literal read_hex_literal-Ensures (omega arith) (ground arith))
            λ _.
              Ensures-if (lookahead l 0 == b'0' && lookahead l 1 == b'b')
                (λ e.
                  prefixed 2 read_binary_literal read_binary_literal-Ensures (omega arith)
                    (ground arith))
                λ _.
                  Ensures-if (is_digit (lookahead l 0))
                    (λ e. on_advance (scan_digits-Ensures l c e))
                    λ _.
                      Ensures-if (lookahead l 0 == b'"')
                        (λ e. on_advance (
                          Ensures-bind (read_char_or_string_literal-Ensures l c b'"' (ground arith))
                            λ r a. holds (placed a refl tt)))
                        λ _.
                          Ensures-if (lookahead l 0 == b'\'')
                            (λ e. on_advance (scan_char-Ensures l c (ground arith)))
                            λ _.
                              Ensures-if (lookahead l 0 == b'\\') (λ e. go_on (ground arith))
                                λ _.
                                  Ensures-if (lookahead l 0 == 13 || lookahead l 0 == 10)
                                    (λ e.
                                      let a =
                                        skip_newlines_loop-Advances (length l.source) l c
                                          (omega (arith, lt_of_lookahead l (ground arith))) e in
                                      on_advance (holds (placed a refl tt)))
                                    (λ _. threw)

  scan_other-Ensures : Ensures (Moves l) (scan_other again (read_identifier_length l) l)
  unfolding scan_other
  scan_other-Ensures =
      Ensures-if (ltb 0 (read_identifier_length l))
        (λ e. holds (
          Placed-Moves (scan_identifier l)
            (scan_identifier-Placed l c (identifier_start_of_length l e))))
        (λ _. scan_switch-Ensures)

  scan-Ensures : Ensures (Moves l) (scan again l)
  unfolding scan
  scan-Ensures =
      Ensures-if (lookahead l 0 == b'{' && lookahead l 1 == b'"')
        (λ e. on_advance (
          Ensures-bind (read_here_document-Ensures l c (ground arith))
            λ r h. holds (placed h refl tt)))
        (λ _. or_keyword (scan_keyword (read_identifier_length l) l (find_keyword keywords l)) refl)
    where
      or_keyword :
          (found : Option (Token × Lexer))
          → scan_keyword (read_identifier_length l) l (find_keyword keywords l) ≡ found
          → Ensures (Moves l) (keyword_or found (scan_other again (read_identifier_length l) l))
      or_keyword none e = scan_other-Ensures
      or_keyword (some r) e = holds (Placed-Moves r (scan_keyword-Placed _ l c e))

get_next_token_loop-Ensures :
    (f : ℕ) (l : Lexer) → IsCoherent l → left l < f → Ensures (Moves l) (get_next_token_loop f l)
unfolding get_next_token_loop is_end
get_next_token_loop-Ensures zero l c h = absurd (omega arith)
get_next_token_loop-Ensures (suc f) l c h =
    Ensures-if (lookahead l 0 == 0)
      (λ _. holds (record { follows = Follows-refl c; between = λ e. cc; flagged = tt }))
      λ _. Ensures-bind (skip_loop-Ensures (suc (length l.source)) l c (omega arith)) λ m g.
        Ensures-map
          (scan-Ensures (get_next_token_loop f) m g.coherent
            (again (get_next_token_loop-Ensures f) m g))
          (Moves-trans g)
  where
    again :
        ((n : Lexer) → IsCoherent n → left n < f → Ensures (Moves n) (get_next_token_loop f n))
        → (m : Lexer) → Follows l m
        → Again (get_next_token_loop f) m
    again ih m g n a = ih n a.follows.coherent (left-Advances f (Follows-Advances g a) h)

-- `getNextToken` finishes, on every source and from every place that reading reaches.
pub get_next_token-Ensures : (l : Lexer) → IsCoherent l → Ensures (Moves l) (get_next_token l)
unfolding get_next_token
get_next_token-Ensures l c = get_next_token_loop-Ensures (suc (length l.source)) l c (omega arith)

-- What the parser gets: tokens at increasing places of the source, with the flag of each `[` and `(`
-- as the source has it, and `END` behind them.
pub data TokensFrom (source : List ℕ) : ℕ → List Token → Type 0 where
  last : {lo : ℕ} {t : Token} → is_end t.type ≡ true → TokensFrom source lo (t ∷ [])
  more :
      {lo : ℕ} {t : Token} {ts : List Token}
      → is_end t.type ≡ false
      → lo ≤ t.position
      → t.position < length source
      → IsFlagged source t.position t.payload
      → TokensFrom source (suc t.position) ts
      → TokensFrom source lo (t ∷ ts)

TokensFrom-le :
    {source : List ℕ} {lo lo' : ℕ} {ts : List Token}
    → lo ≤ lo'
    → TokensFrom source lo' ts
    → TokensFrom source lo ts
TokensFrom-le h (last e) = last e
TokensFrom-le h (more e a b fl k) = more e (omega arith) b fl k

tokens_loop-Ensures :
    (f : ℕ) (l : Lexer)
    → IsCoherent l
    → left l < f
    → Ensures (TokensFrom l.source l.p) (tokens_loop f l)
unfolding tokens_loop
tokens_loop-Ensures zero l c h = absurd (omega arith)
tokens_loop-Ensures (suc f) l c h =
    Ensures-bind (get_next_token-Ensures l c)
      λ (t, l') m. step t l' m.follows m.between m.flagged (tokens_loop-Ensures f l')
  where
    step :
        (t : Token) (l' : Lexer)
        → Follows l l'
        → (is_end t.type ≡ false → (l.p ≤ t.position) × (t.position < l'.p))
        → IsFlagged l.source t.position t.payload
        → (IsCoherent l' → left l' < f → Ensures (TokensFrom l'.source l'.p) (tokens_loop f l'))
        → Ensures
            (TokensFrom l.source l.p)
            (if is_end t.type then ok (t ∷ []) else (tokens_loop f l' >>= λ ts. ok (t ∷ ts)))
    step t l' g m flag ih =
        Ensures-if (is_end t.type) (λ e. holds (last e))
          λ e.
            let (after, before) = m e in
            let a : Advances l l' = record { follows = g; strictly = omega arith } in
            Ensures-bind (ih g.coherent (left-Advances f a h)) λ ts k. holds (
              more e after (ground (arith, g.coherent.within, g.same)) flag
                (TokensFrom-le (omega arith) (rw g.same at k)))

pub initial-IsCoherent : (source : List ℕ) → IsCoherent (initial source)
initial-IsCoherent source = record { within = omega arith; flag = refl }

-- Every source either is refused with an error, or has a number that overflows an `int`, or becomes
-- a list of tokens at increasing places inside it, the last of which is the only `END`. The fuel is
-- always enough.
pub tokens-TokensFrom : (source : List ℕ) → Ensures (TokensFrom source 0) (tokens source)
unfolding tokens
tokens-TokensFrom source =
    tokens_loop-Ensures (suc (length source)) (initial source) (initial-IsCoherent source)
      (omega arith)
