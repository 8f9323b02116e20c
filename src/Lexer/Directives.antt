-- ===== src/Lexer/Directives.antt =====
-- The directives of src/Tokens.def, which `Lexer::initializeKeywords` does not register.
use peryan.Lexer.Cursor.{
  Lexer, Message, Result, ok, throws, overflow, out_of_fuel, ◌>>=◌, lookahead, consume,
}
use peryan.Lexer.Keyword.Longest.{all}
use peryan.Lexer.Keyword.{keywords, matches_from, find_keyword}
use peryan.Lexer.Literal.{
  is_digit, read_binary_literal, read_char_or_string_literal, read_here_document, read_hex_literal,
  read_identifier_length,
}
use peryan.Lexer.Scan.{
  continuation_length, skip_loop, int_token, keyword_token, scan_identifier, scan_keyword,
  scan_digits, scan_char, scan_switch, scan_other, keyword_or, scan, get_next_token_loop,
  get_next_token, is_end, tokens_loop, tokens,
}
use peryan.Prelude.{
  ℕ, zero, suc, Bool, true, false, not, ◌==◌, ◌&&◌, ◌||◌, List, [], ◌∷◌, some, ◌≡◌, refl, subst,
  arith, if◌then◌else◌, Bool-cases, Option-cases, inl, inr, ltb, length, All, ◌∙◌, ap,
}
use peryan.Token.{Token, TokenType, Entry}

-- The token type of `#runtime`, the only directive.
pub is_directive : TokenType → Bool
is_directive TokenType.dr_runtime = true
is_directive t = false

-- A token that is scanned is no directive.
data IsPlain : Result (Token × Lexer) → Type 0 where
  scanned : {t : Token} {l : Lexer} → is_directive t.type ≡ false → IsPlain (ok (t, l))
  threw : {pos : ℕ} {m : Message} → IsPlain (throws pos m)
  overflowed : IsPlain overflow
  ran_out : IsPlain out_of_fuel

bind-IsPlain :
    {A : Type 0} (r : Result A) (f : A → Result (Token × Lexer))
    → ((a : A) → IsPlain (f a))
    → IsPlain (r >>= f)
bind-IsPlain (ok a) f h = h a
bind-IsPlain (throws pos m) f h = threw
bind-IsPlain overflow f h = overflowed
bind-IsPlain out_of_fuel f h = ran_out

if-IsPlain :
    (b : Bool) (r s : Result (Token × Lexer)) → IsPlain r → IsPlain s → IsPlain (if b then r else s)
if-IsPlain true r s h k = h
if-IsPlain false r s h k = k

no_directive : Entry → Bool
no_directive e = not (is_directive e.type)

keywords-no_directive : all no_directive keywords ≡ true
unfolding all no_directive keywords is_directive
keywords-no_directive = refl

find_keyword-in :
    (p : Entry → Bool) (es : List Entry) (l : Lexer) (e : Entry)
    → all p es ≡ true
    → find_keyword es l ≡ some e
    → p e ≡ true
unfolding all find_keyword
find_keyword-in p [] l e h f = cc
find_keyword-in p (x ∷ es) l e h f = elim (Bool-cases (matches_from 0 x.spelling l)) [
  | inl m ↦ let same : x ≡ e = (let g = rw m at f in cc) in rw (← same) (ground arith)
  | inr m ↦ find_keyword-in p es l e (ground arith) (rw m at f)
]

keyword_token-type : (t : TokenType) (l l' : Lexer) → (keyword_token t l l').type ≡ t
unfolding keyword_token
keyword_token-type TokenType.star l l' = refl
keyword_token-type TokenType.lbrack l l' = refl
keyword_token-type TokenType.lparen l l' = refl
keyword_token-type _ l l' = refl

scan_identifier-IsPlain : (l : Lexer) → IsPlain (ok (scan_identifier l))
unfolding scan_identifier is_directive
scan_identifier-IsPlain l = scanned (ground arith)

keyword-IsPlain :
    (n : ℕ) (l : Lexer) (other : Result (Token × Lexer))
    → IsPlain other
    → IsPlain (keyword_or (scan_keyword n l (find_keyword keywords l)) other)
unfolding keyword_or scan_keyword
keyword-IsPlain n l other h = elim (Option-cases (find_keyword keywords l)) [
  | inl e ↦ rw e h
  | inr (x, e) ↦
      let registered = find_keyword-in no_directive keywords l x keywords-no_directive e in
      let plain : is_directive x.type ≡ false = (unfold no_directive in ground arith) in
      elim (Bool-cases (ltb (length x.spelling) n)) [
        | inl q ↦ rw (e, q) h
        | inr q ↦
            rw (e, q)
              (scanned (
                ap is_directive (keyword_token-type x.type l (consume (length x.spelling) l))
                ∙ plain))
      ]
]

int_token-IsPlain : (pos : ℕ) (r : Result (ℕ × Lexer)) → IsPlain (int_token pos r)
unfolding is_directive
int_token-IsPlain pos r = bind-IsPlain r _ λ a. scanned refl

scan_digits-IsPlain : (l : Lexer) → IsPlain (scan_digits l)
unfolding scan_digits is_directive
scan_digits-IsPlain l =
    if-IsPlain _ _ _ (bind-IsPlain _ _ λ a. scanned refl) (int_token-IsPlain l.p _)

scan_char-IsPlain : (l : Lexer) → IsPlain (scan_char l)
unfolding scan_char is_directive
scan_char-IsPlain l =
    bind-IsPlain (read_char_or_string_literal b'\'' l) _
      λ (str, l'). if-IsPlain (not (length str == 1)) _ _ threw (scanned refl)

module _ (again : Lexer → Result (Token × Lexer)) (ih : (l : Lexer) → IsPlain (again l)) where
  scan_switch-IsPlain : (l : Lexer) → IsPlain (scan_switch again l)
  unfolding scan_switch is_directive
  scan_switch-IsPlain l =
      if-IsPlain (lookahead l 0 == b'$') _ _
        (int_token-IsPlain l.p (read_hex_literal (consume 1 l)))
        (if-IsPlain (lookahead l 0 == b'0' && lookahead l 1 == b'x') _ _
          (int_token-IsPlain l.p (read_hex_literal (consume 2 l)))
          (if-IsPlain (lookahead l 0 == b'0' && lookahead l 1 == b'b') _ _
            (int_token-IsPlain l.p (read_binary_literal (consume 2 l)))
            (if-IsPlain (is_digit (lookahead l 0)) _ _ (scan_digits-IsPlain l) (
              if-IsPlain (lookahead l 0 == b'"') _ _
                (bind-IsPlain (read_char_or_string_literal b'"' l) _ λ r. scanned refl)
                (if-IsPlain (lookahead l 0 == b'\'') _ _ (scan_char-IsPlain l) (
                  if-IsPlain (lookahead l 0 == b'\\') _ _ (ih (consume (continuation_length l) l)) (
                    if-IsPlain (lookahead l 0 == 13 || lookahead l 0 == 10) _ _ (scanned refl)
                      threw)))))))

  scan-IsPlain : (l : Lexer) → IsPlain (scan again l)
  unfolding scan scan_other is_directive
  scan-IsPlain l =
      if-IsPlain (lookahead l 0 == b'{' && lookahead l 1 == b'"') _ _
        (bind-IsPlain (read_here_document l) _ λ r. scanned refl)
        (keyword-IsPlain (read_identifier_length l) l _ (
          if-IsPlain (ltb 0 (read_identifier_length l)) _ _ (scan_identifier-IsPlain l)
            (scan_switch-IsPlain l)))

get_next_token_loop-IsPlain : (f : ℕ) (l : Lexer) → IsPlain (get_next_token_loop f l)
unfolding get_next_token_loop is_directive
get_next_token_loop-IsPlain zero l = ran_out
get_next_token_loop-IsPlain (suc f) l = if-IsPlain (lookahead l 0 == 0) _ _ (scanned refl) (
    bind-IsPlain (skip_loop (suc (length l.source)) l) _
      (scan-IsPlain (get_next_token_loop f) (get_next_token_loop-IsPlain f)))

not_directive : {t : Token} {l : Lexer} → IsPlain (ok (t, l)) → is_directive t.type ≡ false
not_directive (scanned h) = h

AreNone : Result (List Token) → Type 0
AreNone (ok ts) = All (λ t. is_directive t.type ≡ false) ts
AreNone r = Unit

bind-AreNone :
    {A : Type 0} (r : Result A) (f : A → Result (List Token))
    → ((a : A) → r ≡ ok a → AreNone (f a))
    → AreNone (r >>= f)
unfolding AreNone
bind-AreNone (ok a) f h = h a refl
bind-AreNone (throws pos m) f h = tt
bind-AreNone overflow f h = tt
bind-AreNone out_of_fuel f h = tt

tokens_loop-AreNone : (f : ℕ) (l : Lexer) → AreNone (tokens_loop f l)
unfolding tokens_loop AreNone get_next_token
tokens_loop-AreNone zero l = tt
tokens_loop-AreNone (suc f) l = bind-AreNone (get_next_token l) _ λ (t, l') e.
    by_end (is_end t.type) t l' (tokens_loop-AreNone f l')
      (not_directive (subst IsPlain e (get_next_token_loop-IsPlain (suc (length l.source)) l)))
  where
    by_end :
        (b : Bool) (t : Token) (l' : Lexer)
        → AreNone (tokens_loop f l')
        → is_directive t.type ≡ false
        → AreNone (if b then ok (t ∷ []) else (tokens_loop f l' >>= λ ts. ok (t ∷ ts)))
    by_end true t l' ih h = (h, tt)
    by_end false t l' ih h = bind-AreNone (tokens_loop f l') _ λ ts e. (h, subst AreNone e ih)

-- No source has a token of the type of a directive: where it becomes a list of tokens, none of them is
-- the `#runtime` that `parseStmt` waits for.
pub tokens_have_no_directive :
    (source : List ℕ) (ts : List Token)
    → tokens source ≡ ok ts
    → All (λ t. is_directive t.type ≡ false) ts
unfolding tokens AreNone
tokens_have_no_directive source ts e = subst AreNone e (tokens_loop-AreNone (suc (length source)) _)
