-- ===== src/Lexer/Cursor.antt =====
-- The reading position of the lexer: `lookahead` and `consume` of src/Lexer.h, and the outcomes of
-- the functions that read.
use peryan.Prelude.{
  ℕ, suc, ◌+◌, ◌-◌, ◌≤◌, ◌<◌, Bool, ◌||◌, List, [], ◌≡◌, ◌≢◌, ◌⊎◌, inl, inr, ◌∷◌, refl, sym, ap,
  ◌∙◌, arith, ltb, ◌==◌, if◌then◌else◌, length, get_or, drop, length-drop, get_or-drop, drop-drop,
  drop_all, get_or_beyond,
}

-- The state that the scanning functions work on: `source_`, `p_` and `isPrevWS_`.
pub record Lexer : Type 0 where
  pub source : List ℕ
  pub p : ℕ
  pub is_prev_ws : Bool

-- The messages of the `LexerError`s that are thrown while scanning.
pub data Message : Type 0 where
  comment_is_not_closed char_literal_size invalid_character : Message
  string_not_closed invalid_hex_literal invalid_binary_literal : Message

-- `throws` is a thrown LexerError with its position. `overflow` is a signed overflow of an `int`,
-- which C++ leaves undefined. `out_of_fuel` has no counterpart in the program.
pub data Result {ℓ} (A : Type ℓ) : Type ℓ where
  ok : A → Result A
  throws : ℕ → Message → Result A
  overflow : Result A
  out_of_fuel : Result A

infixl 5 ◌>>=◌
abbrev pub ◌>>=◌ {ℓ κ} : {A : Type ℓ} {B : Type κ} → Result A → (A → Result B) → Result B
ok a >>= f = f a
throws pos m >>= f = throws pos m
overflow >>= f = overflow
out_of_fuel >>= f = out_of_fuel

abbrev pub is_blank : ℕ → Bool
is_blank c = c == b' ' || c == b'\t'

-- `source_[p_ - 1]`; at position 0, which no call of `consume` reaches on a source that is not
-- empty, it stands for no character.
abbrev pub char_before : List ℕ → ℕ → ℕ
char_before source p = if p == 0 then 0 else get_or source (p - 1) 0

unfoldable pub lookahead : Lexer → ℕ → ℕ
lookahead l n = if ltb (l.p + n) (length l.source) then get_or l.source (l.p + n) 0 else 0

-- `consume` sets the position, cut at the end of the source, and the flag from the character that
-- now stands before it.
abbrev pub moved : List ℕ → ℕ → Lexer
moved source p = record { source = source; p = p; is_prev_ws = is_blank (char_before source p) }

unfoldable pub consume : ℕ → Lexer → Lexer
consume n l = moved l.source (if ltb (l.p + n) (length l.source) then l.p + n else length l.source)

-- What is left to read.
abbrev pub rest : Lexer → List ℕ
rest l = drop l.p l.source

pub lookahead-rest : (l : Lexer) (n : ℕ) → lookahead l n ≡ get_or (rest l) n 0
unfolding lookahead
lookahead-rest l n =
    ground (arith, get_or-drop l.p n l.source 0, get_or_beyond l.source (l.p + n) 0)

pub rest-consume : (n : ℕ) (l : Lexer) → rest (consume n l) ≡ drop n (rest l)
unfolding consume
rest-consume n l = ground (
  arith,
  drop-drop n l.p l.source,
  drop_all (l.p + n) l.source,
  drop_all (length l.source) l.source,
)

pub consume-consume : (m n : ℕ) (l : Lexer) → consume m (consume n l) ≡ consume (n + m) l
unfolding consume
consume-consume m n l = ap (moved l.source) (ground arith)

pub consume_next : (m : ℕ) (l : Lexer) → consume m (consume 1 l) ≡ consume (suc m) l
consume_next m l = consume-consume m 1 l ∙ ap (λ k. consume k l) (one_more m)
  where
    one_more : (m : ℕ) → 1 + m ≡ suc m
    one_more m = omega arith

-- The position is inside the source, and the flag says whether a blank stands before it.
pub record IsCoherent (l : Lexer) : Type 0 where
  pub within : l.p ≤ length l.source
  pub flag : l.is_prev_ws ≡ is_blank (char_before l.source l.p)

pub consume-IsCoherent : (n : ℕ) (l : Lexer) → IsCoherent (consume n l)
unfolding consume
consume-IsCoherent n l = record { within = ground arith; flag = refl }

pub consume_zero : (l : Lexer) → IsCoherent l → consume 0 l ≡ l
unfolding consume
consume_zero l h = ground (arith, h.within, h.flag)

pub p-consume :
    (n : ℕ) (l : Lexer) → n ≤ length (rest l) → l.p ≤ length l.source → (consume n l).p ≡ l.p + n
unfolding consume
p-consume n l h w = ground (arith, length-drop l.p l.source)

pub source-consume : (n : ℕ) (l : Lexer) → (consume n l).source ≡ l.source
unfolding consume
source-consume n l = refl

-- A character other than the end mark is one that is left to read.
pub rest_of_lookahead : (l : Lexer) (n : ℕ) → lookahead l n ≢ 0 → n < length (rest l)
rest_of_lookahead l n h = grind (arith, lookahead-rest l n, get_or_beyond (rest l) n 0)

pub lookahead-consume : (l : Lexer) (m n : ℕ) → lookahead (consume n l) m ≡ lookahead l (n + m)
lookahead-consume l m n =
    lookahead-rest (consume n l) m
    ∙ ap (λ xs. get_or xs m 0) (rest-consume n l)
    ∙ get_or-drop n m (rest l) 0
    ∙ sym (lookahead-rest l (n + m))

-- One step of reading: nothing is left, or there is a first character.
pub rest-cases :
    (l : Lexer)
    → ((rest l ≡ []) × (lookahead l 0 ≡ 0))
      ⊎ ((c : ℕ) × (cs : List ℕ) × (rest l ≡ c ∷ cs)
          × (lookahead l 0 ≡ c)
          × (rest (consume 1 l) ≡ cs))
rest-cases l = split (rest l) refl
  where
    split :
        (r : List ℕ)
        → rest l ≡ r
        → ((rest l ≡ []) × (lookahead l 0 ≡ 0))
          ⊎ ((c : ℕ) × (cs : List ℕ) × (rest l ≡ c ∷ cs)
              × (lookahead l 0 ≡ c)
              × (rest (consume 1 l) ≡ cs))
    split [] e = inl (e, rw (lookahead-rest l 0, e))
    split (c ∷ cs) e = inr (c, cs, e, rw (lookahead-rest l 0, e), rw (rest-consume 1 l, e))
