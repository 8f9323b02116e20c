-- ===== src/Lexer/Progress/Scanning.antt =====
-- `getNextToken` keeps within its fuel, and every token but `END` moves the lexer forward.
use peryan.Lexer.Cursor.{Lexer, IsCoherent, char_before, Result, is_blank, lookahead, consume}
use peryan.Lexer.Keyword.Longest.{find_keyword_start}
use peryan.Lexer.Keyword.{keywords, find_keyword}
use peryan.Lexer.Literal.{is_identifier_char, read_identifier_loop, read_identifier}
use peryan.Lexer.Progress.Follows.{
  left, Follows, Ensures, holds, threw, Ensures-if, Ensures-bind, Follows-refl, Follows-trans,
  consume-Follows, lt_of_lookahead, Advances, consume-Advances, Advances-trans, left-Advances,
  onwards,
}
use peryan.Lexer.Progress.Literals.{read_identifier_loop-Follows}
use peryan.Lexer.Scan.{
  at_line_end, skip_line_loop, skip_line, skip_block_loop, skip_block, skip_loop, scan_keyword,
  keyword_token, scan_identifier, skip_newlines_loop, is_end, int_token,
}
use peryan.Prelude.{
  ℕ, zero, suc, ◌≤◌, ◌<◌, true, false, ◌&&◌, ◌||◌, List, [], some, sym, ◌≡◌, ◌≢◌, refl, arith, ◌==◌,
  length, Bool-cases, inl, inr, Option-cases,
}
use peryan.Token.{Token, TokenType, TokenData}

skip_line_loop-Follows : (f : ℕ) (l : Lexer) → IsCoherent l → Follows l (skip_line_loop f l)
unfolding skip_line_loop
skip_line_loop-Follows zero l c = Follows-refl c
skip_line_loop-Follows (suc f) l c = elim (Bool-cases (at_line_end l)) [
  | inl done ↦ rw done (Follows-refl c)
  | inr more ↦
      let g = consume-Follows 1 l c in
      rw more (Follows-trans g (skip_line_loop-Follows f (consume 1 l) g.coherent))
]

skip_newlines_loop-Follows : (f : ℕ) (l : Lexer) → IsCoherent l → Follows l (skip_newlines_loop f l)
unfolding skip_newlines_loop
skip_newlines_loop-Follows zero l c = Follows-refl c
skip_newlines_loop-Follows (suc f) l c =
    elim (Bool-cases (lookahead l 0 == 13 || lookahead l 0 == 10)) [
      | inl more ↦
          let g = consume-Follows 1 l c in
          rw more (Follows-trans g (skip_newlines_loop-Follows f (consume 1 l) g.coherent))
      | inr done ↦ rw done (Follows-refl c)
    ]

-- Where a newline stands the loop over newlines reads it.
pub skip_newlines_loop-Advances :
    (f : ℕ) (l : Lexer)
    → IsCoherent l
    → 0 < f
    → (lookahead l 0 == 13 || lookahead l 0 == 10) ≡ true
    → Advances l (skip_newlines_loop f l)
unfolding skip_newlines_loop
skip_newlines_loop-Advances zero l c pos e = absurd (omega arith)
skip_newlines_loop-Advances (suc f) l c pos e =
    let a = consume-Advances 1 l c (omega arith) (lt_of_lookahead l (ground arith)) in
    rw e (Advances-trans a (skip_newlines_loop-Follows f (consume 1 l) a.follows.coherent))

-- With nothing left the block loop stops at once; with something left a round reads a character.
skip_block_loop-Ensures :
    (f beg_pos : ℕ) (l : Lexer)
    → IsCoherent l
    → left l < f
    → Ensures (λ l'. Follows l l') (skip_block_loop f beg_pos l)
unfolding skip_block_loop
skip_block_loop-Ensures zero beg_pos l c h = absurd (omega arith)
skip_block_loop-Ensures (suc f) beg_pos l c h =
    Ensures-if (lookahead l 0 == b'*' && lookahead l 1 == b'/') (λ _. holds (Follows-refl c))
      λ _.
        Ensures-if (lookahead (consume 1 l) 0 == 0) (λ _. threw)
          λ e.
            let g = consume-Follows 1 l c in
            let inside = lt_of_lookahead (consume 1 l) (ground arith) in
            let a =
              consume-Advances 1 l c (omega arith) (ground (arith, inside, g.later, g.same)) in
            onwards {at = λ l'. l'} g
              (skip_block_loop-Ensures f beg_pos (consume 1 l) g.coherent (left-Advances f a h))

skip_block-Ensures :
    (beg_pos : ℕ) (l : Lexer) → IsCoherent l → Ensures (λ l'. Follows l l') (skip_block beg_pos l)
skip_block-Ensures beg_pos l c =
    Ensures-bind (skip_block_loop-Ensures (suc (length l.source)) beg_pos l c (omega arith))
      λ l' h. holds (Follows-trans h (consume-Follows 2 l' h.coherent))

pub skip_loop-Ensures :
    (f : ℕ) (l : Lexer) → IsCoherent l → left l < f → Ensures (λ l'. Follows l l') (skip_loop f l)
unfolding skip_loop
skip_loop-Ensures zero l c h = absurd (omega arith)
skip_loop-Ensures (suc f) l c h =
    Ensures-if (is_blank (lookahead l 0))
      (λ e. on (skip_loop-Ensures f) (start 1 (omega arith) (ground arith)))
      λ _.
        Ensures-if (lookahead l 0 == b'/' && lookahead l 1 == b'*')
          (λ e.
            let a = start 2 (omega arith) (ground arith) in
            Ensures-bind (skip_block-Ensures l.p (consume 2 l) a.follows.coherent)
              λ l' g. on (skip_loop-Ensures f) (Advances-trans a g))
          λ _.
            Ensures-if (lookahead l 0 == b'/' && lookahead l 1 == b'/')
              (λ e. on (skip_loop-Ensures f) (line (start 2 (omega arith) (ground arith))))
              λ _.
                Ensures-if (lookahead l 0 == b';')
                  (λ e. on (skip_loop-Ensures f) (line (start 1 (omega arith) (ground arith))))
                  (λ _. holds (Follows-refl c))
  where
    start : (n : ℕ) → 0 < n → lookahead l 0 ≢ 0 → Advances l (consume n l)
    start n pos e = consume-Advances n l c pos (lt_of_lookahead l e)

    line : {m : Lexer} → Advances l m → Advances l (skip_line m)
    line {m} a = Advances-trans a (skip_line_loop-Follows (length m.source) m a.follows.coherent)

    on :
        ((m : Lexer) → IsCoherent m → left m < f → Ensures (λ l'. Follows m l') (skip_loop f m))
        → {m : Lexer} → Advances l m
        → Ensures (λ l'. Follows l l') (skip_loop f m)
    on next {m} a =
        onwards {at = λ l'. l'} a.follows (next m a.follows.coherent (left-Advances f a h))

-- The flag of a `[` or `(` says whether a blank stands before the token.
abbrev pub IsFlagged : List ℕ → ℕ → TokenData → Type 0
IsFlagged source pos (TokenData.has_ws_before b) = b ≡ is_blank (char_before source pos)
IsFlagged source pos _ = Unit

-- The token stands where the lexer stood, and the lexer has moved behind it.
pub record Placed (l : Lexer) (r : Token × Lexer) : Type 0 where
  pub advances : Advances l r.1
  pub place : r.0.position ≡ l.p
  pub flagged : IsFlagged l.source r.0.position r.0.payload

-- A token other than `END` stands between the old place and the new one.
pub record Moves (l : Lexer) (r : Token × Lexer) : Type 0 where
  pub follows : Follows l r.1
  pub between : is_end r.0.type ≡ false → (l.p ≤ r.0.position) × (r.0.position < r.1.p)
  pub flagged : IsFlagged l.source r.0.position r.0.payload

pub Placed-Moves : {l : Lexer} (r : Token × Lexer) → Placed l r → Moves l r
Placed-Moves r h = record {
  follows = h.advances.follows;
  between = λ _. (omega (arith, h.place), omega (arith, h.place, h.advances.strictly));
  flagged = h.flagged;
}

pub Moves-trans : {l m : Lexer} → Follows l m → (r : Token × Lexer) → Moves m r → Moves l r
Moves-trans g r h = record {
  follows = Follows-trans g h.follows;
  between = λ e. let k = h.between e in (omega (arith, g.later), omega arith);
  flagged = rw (sym g.same) h.flagged;
}

pub placed :
    {l : Lexer} {r : Token × Lexer}
    → Advances l r.1
    → r.0.position ≡ l.p
    → IsFlagged l.source r.0.position r.0.payload
    → Placed l r
placed a e f = record { advances = a; place = e; flagged = f }

pub int_token-Ensures :
    {l : Lexer} {r : Result (ℕ × Lexer)}
    → Ensures (λ r. Advances l r.1) r
    → Ensures (Placed l) (int_token l.p r)
int_token-Ensures e = Ensures-bind e λ r h. holds (placed h refl tt)

identifier_start : (l : Lexer) → is_identifier_char (lookahead l 0) ≡ true → lookahead l 0 ≢ 0
unfolding is_identifier_char
identifier_start l e z = let no : is_identifier_char 0 ≡ true = rw z at e in cc

read_identifier_loop-Advances :
    (f : ℕ) (l : Lexer) (str : List ℕ)
    → IsCoherent l
    → 0 < f
    → is_identifier_char (lookahead l 0) ≡ true
    → Advances l (read_identifier_loop f l str).1
unfolding read_identifier_loop
read_identifier_loop-Advances zero l str c pos e = absurd (omega arith)
read_identifier_loop-Advances (suc f) l str c pos e =
    let a = consume-Advances 1 l c (omega arith) (lt_of_lookahead l (identifier_start l e)) in
    rw e (Advances-trans a (read_identifier_loop-Follows f (consume 1 l) _ a.follows.coherent))

pub scan_identifier-Placed :
    (l : Lexer)
    → IsCoherent l
    → is_identifier_char (lookahead l 0) ≡ true
    → Placed l (scan_identifier l)
unfolding scan_identifier read_identifier
scan_identifier-Placed l c e =
    placed
      (read_identifier_loop-Advances (length l.source) l [] c
        (omega (arith, lt_of_lookahead l (identifier_start l e))) e)
      refl tt

keyword_token-Placed :
    (t : TokenType) (l l' : Lexer)
    → IsCoherent l
    → Advances l l'
    → Placed l (keyword_token t l l', l')
unfolding keyword_token
keyword_token-Placed TokenType.lbrack l l' c a = placed a refl c.flag
keyword_token-Placed TokenType.lparen l l' c a = placed a refl c.flag
keyword_token-Placed TokenType.star l l' c a = placed a refl tt
keyword_token-Placed _ l l' c a = placed a refl tt

pub scan_keyword-Placed :
    (len : ℕ) (l : Lexer) {r : Token × Lexer}
    → IsCoherent l
    → scan_keyword len l (find_keyword keywords l) ≡ some r
    → Placed l r
unfolding scan_keyword
scan_keyword-Placed len l {r} c h = elim (Option-cases (find_keyword keywords l)) [
  | inl none_found ↦ absurd (cc (rw none_found at h))
  | inr (e, found) ↦
      let h' = rw found at h in
      let start = find_keyword_start l found in
      let l' = consume (length e.spelling) l in
      let whole : (keyword_token e.type l l', l') ≡ r = ground (arith, h') in
      let a = consume-Advances (length e.spelling) l c start.0 (lt_of_lookahead l start.1) in
      rw (← whole) (keyword_token-Placed e.type l l' c a)
]
