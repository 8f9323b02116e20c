-- ===== src/TokenBuffer.antt =====
-- The tokens that the parser has read ahead: `lt`, `la`, `mark`, `release`, `consume` and
-- `isSpeculating` of src/Parser.h and src/Parser.cc.
pub mod Speculation
pub mod Front
pub mod View
pub mod Start
use peryan.Lexer.Cursor.{Lexer, Result, ok, throws, overflow, out_of_fuel, ◌>>=◌}
use peryan.Lexer.Scan.{get_next_token, is_end}
use peryan.Prelude.{
  ℕ, zero, suc, ◌+◌, ◌-◌, Bool, true, false, List, [], ◌∷◌, ◌++◌, Option, none, some, ◌≡◌, refl,
  sym, ap, ◌∙◌, subst, ltb, if◌then◌else◌, length, append_assoc, append-nil, Bool-cases,
}
use peryan.Token.{Token, TokenType}

-- `tokens_`, `markers_` with its back first, and the lexer.
pub record Buffer : Type 0 where
  pub read : List Token
  pub markers : List ℕ
  pub lexer : Lexer

abbrev pub marked : Buffer → List ℕ → Buffer
marked b [] = record b { markers = 0 ∷ [] }
marked b (m ∷ ms) = record b { markers = m ∷ m ∷ ms }

abbrev pub mark : Buffer → Buffer
mark b = marked b b.markers

abbrev pub is_nil : List ℕ → Bool
is_nil [] = true
is_nil (x ∷ xs) = false

abbrev pub is_speculating : Buffer → Bool
is_speculating b = if is_nil b.markers then false else true

abbrev pub tail : List ℕ → List ℕ
tail [] = []
tail (m ∷ ms) = ms

abbrev pub release : Buffer → Buffer
release b = record b { markers = tail b.markers }

-- `tokens_` without its first `n` tokens, where a last `END` stays.
unfoldable pub pop_front : ℕ → List Token → List Token
pop_front zero ts = ts
pop_front (suc n) [] = []
pop_front (suc n) (t ∷ []) = if is_end t.type then t ∷ [] else pop_front n []
pop_front (suc n) (t ∷ u ∷ ts) = pop_front n (u ∷ ts)

unfoldable pub consumed : ℕ → Buffer → List ℕ → Buffer
unfolding pop_front
consumed n b [] = record b { read = pop_front n b.read }
consumed n b (m ∷ ms) = record b { markers = (m + n) ∷ ms }

abbrev pub consume : ℕ → Buffer → Buffer
consume n b = consumed n b b.markers

unfoldable pub token_at : List Token → ℕ → Option Token
token_at [] n = none
token_at (t ∷ ts) zero = some t
token_at (t ∷ ts) (suc n) = token_at ts n

-- The last token, if it is an `END`.
unfoldable pub last_end : List Token → Option Token
unfolding is_end
last_end [] = none
last_end (t ∷ []) = if is_end t.type then some t else none
last_end (t ∷ u ∷ ts) = last_end (u ∷ ts)

abbrev pub answered : Option Token → Result (Token × Buffer) → Buffer → Result (Token × Buffer)
answered none other b = other
answered (some t) other b = ok (t, b)

-- The token at `n` if it has been read, the last `END` if there is one, or one more token is read.
unfoldable pub lt_loop : ℕ → ℕ → Buffer → Result (Token × Buffer)
unfolding token_at last_end
lt_loop zero n b = out_of_fuel
lt_loop (suc f) n b =
    let further = lt_loop f n in
    answered (token_at b.read n)
      (answered (last_end b.read)
        (get_next_token b.lexer >>= λ (t, l).
          further (record b { read = b.read ++ (t ∷ []); lexer = l }))
        b)
      b

abbrev pub marker : List ℕ → ℕ
marker [] = 0
marker (m ∷ ms) = m

-- Each round reads a token, so `n` tokens more than the index are enough.
unfoldable pub lt : ℕ → Buffer → Result (Token × Buffer)
unfolding lt_loop
lt n b = lt_loop (suc (suc (n + marker b.markers))) (n + marker b.markers) b

abbrev pub la : ℕ → Buffer → Result (TokenType × Buffer)
la n b = lt n b >>= λ (t, b'). ok (t.type, b')

-- What a parsing function does with the buffer between `mark` and `release`.
pub data Access : Type 0 where
  looks consumes : ℕ → Access

unfoldable pub access : List Access → Buffer → Result Buffer
unfolding lt consumed
access [] b = ok b
access (looks n ∷ rest) b = lt n b >>= λ (t, b'). access rest b'
access (consumes n ∷ rest) b = access rest (consume n b)
