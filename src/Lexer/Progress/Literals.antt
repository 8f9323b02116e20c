-- ===== src/Lexer/Progress/Literals.antt =====
-- The functions of src/Lexer.cc that read identifiers and literals move forward.
use native.Mathlib.Nat.{mul_assoc, pow-succ'}
use peryan.Lexer.Cursor.{Lexer, IsCoherent, Result, lookahead, consume}
use peryan.Lexer.Literal.{
  Notation, int_limit, int_result, is_digit, is_identifier_char, read_identifier_loop,
  read_identifier, read_string_loop, read_char_or_string_literal, read_here_loop,
  read_here_document, read_number_loop, hex, decimal, binary, read_hex_literal,
  read_decimal_literal, read_binary_literal, frac_length_loop, read_float_literal,
}
use peryan.Lexer.Progress.Follows.{
  left, Follows, Ensures, holds, threw, overflowed, Ensures-if, Ensures-bind, Ensures-map,
  Follows-refl, Follows-trans, consume-Follows, lt_of_lookahead, left-consume, Advances,
  consume-Advances, Advances-trans, left-Advances,
}
use peryan.Prelude.{
  ℕ, zero, suc, ◌+◌, ◌-◌, ◌*◌, ◌≤◌, ◌<◌, Bool, true, false, ◌&&◌, ◌||◌, List, [], ◌≡◌, ◌≢◌, refl,
  arith, ltb→lt, ◌^◌, ltb, leb, ◌==◌, length, Bool-cases, inl, inr,
}

-- `next` is what a loop does after it has consumed `n` characters.
again :
    {A : Type 0} (at : A → Lexer) (n f : ℕ) (l : Lexer) {next : Result A}
    → IsCoherent l
    → 0 < n
    → l.p < length l.source
    → left l < suc f
    → (IsCoherent (consume n l)
        → left (consume n l) < f
        → Ensures (λ r. Follows (consume n l) (at r)) next)
    → Ensures (λ r. Follows l (at r)) next
again at n f l c pos inside enough k =
    let g = consume-Follows n l c in
    Ensures-map (k g.coherent (left-consume n f l pos inside enough)) λ r h. Follows-trans g h

pub read_identifier_loop-Follows :
    (f : ℕ) (l : Lexer) (str : List ℕ) → IsCoherent l → Follows l (read_identifier_loop f l str).1
unfolding read_identifier_loop
read_identifier_loop-Follows zero l str c = Follows-refl c
read_identifier_loop-Follows (suc f) l str c =
    elim (Bool-cases (is_identifier_char (lookahead l 0))) [
      | inl more ↦
          let g = consume-Follows 1 l c in
          rw more (Follows-trans g (read_identifier_loop-Follows f (consume 1 l) _ g.coherent))
      | inr done ↦ rw done (Follows-refl c)
    ]

pub read_string_loop-Ensures :
    (f terminator beg_pos : ℕ) (l : Lexer) (str : List ℕ)
    → IsCoherent l
    → left l < f
    → Ensures (λ r. Follows l r.1) (read_string_loop f terminator beg_pos l str)
unfolding read_string_loop
read_string_loop-Ensures zero terminator beg_pos l str c h = absurd (omega arith)
read_string_loop-Ensures (suc f) terminator beg_pos l str c h =
    Ensures-if (lookahead l 0 == terminator) (λ _. holds (Follows-refl c))
      λ _.
        Ensures-if (lookahead l 0 == 13 || lookahead l 0 == 10 || lookahead l 0 == 0) (λ _. threw)
          λ e.
            let inside = lt_of_lookahead l (ground arith) in
            Ensures-if (lookahead l 0 == b'\\')
              (λ _.
                again (λ r. r.1) 2 f l c (omega arith) inside h
                  (read_string_loop-Ensures f terminator beg_pos (consume 2 l) _))
              (λ _.
                again (λ r. r.1) 1 f l c (omega arith) inside h
                  (read_string_loop-Ensures f terminator beg_pos (consume 1 l) _))

pub read_here_loop-Ensures :
    (f beg_pos : ℕ) (l : Lexer) (str : List ℕ)
    → IsCoherent l
    → left l < f
    → Ensures (λ r. Follows l r.1) (read_here_loop f beg_pos l str)
unfolding read_here_loop
read_here_loop-Ensures zero beg_pos l str c h = absurd (omega arith)
read_here_loop-Ensures (suc f) beg_pos l str c h =
    Ensures-if (lookahead l 0 == b'"' && lookahead l 1 == b'}') (λ _. holds (Follows-refl c))
      λ _.
        Ensures-if (lookahead l 0 == 0) (λ _. threw)
          λ e.
            let inside = lt_of_lookahead l (ground arith) in
            Ensures-if (lookahead l 0 == b'\\')
              (λ _.
                again (λ r. r.1) 2 f l c (omega arith) inside h
                  (read_here_loop-Ensures f beg_pos (consume 2 l) _))
              (λ _.
                again (λ r. r.1) 1 f l c (omega arith) inside h
                  (read_here_loop-Ensures f beg_pos (consume 1 l) _))

-- A notation does not take the end mark for a digit.
abbrev Ends : Notation → Type 0
Ends n = n.accepts 0 ≡ false

int_result-Ensures : (m : ℕ) → Ensures (λ r. r ≡ m) (int_result m)
int_result-Ensures m = Ensures-if (ltb m int_limit) (λ _. holds refl) (λ _. overflowed)

pub read_number_loop-Ensures :
    (n : Notation) (f : ℕ) (l : Lexer) (num : ℕ) (nothing : Bool)
    → Ends n
    → IsCoherent l
    → left l < f
    → Ensures (λ r. Follows l r.2) (read_number_loop n f l num nothing)
unfolding read_number_loop
read_number_loop-Ensures n zero l num nothing z c h = absurd (omega arith)
read_number_loop-Ensures n (suc f) l num nothing z c h =
    Ensures-if (n.accepts (lookahead l 0))
      (λ e. Ensures-bind (int_result-Ensures (num * n.base)) λ scaled _.
        Ensures-bind (int_result-Ensures (scaled + n.digit (lookahead l 0))) λ sum _.
          again (λ r. r.2) 1 f l c (omega arith) (lt_of_lookahead l λ zero_here. cc) h
            (read_number_loop-Ensures n f (consume 1 l) sum false z))
      (λ _. holds (Follows-refl c))

module _ (l : Lexer) (c : IsCoherent l) where
  pub read_identifier-Follows : Follows l (read_identifier l).1
  unfolding read_identifier
  read_identifier-Follows = read_identifier_loop-Follows (length l.source) l [] c

  pub read_char_or_string_literal-Ensures :
      (terminator : ℕ)
      → lookahead l 0 ≢ 0
      → Ensures (λ r. Advances l r.1) (read_char_or_string_literal terminator l)
  unfolding read_char_or_string_literal
  read_char_or_string_literal-Ensures terminator z =
      let a = consume-Advances 1 l c (omega arith) (lt_of_lookahead l z) in
      let run =
        read_string_loop-Ensures (suc (length l.source)) terminator l.p (consume 1 l) []
          a.follows.coherent (ground (arith, a.follows.same)) in
      Ensures-bind run
        λ r h. holds (Advances-trans a (Follows-trans h (consume-Follows 1 r.1 h.coherent)))

  pub read_here_document-Ensures :
      lookahead l 0 ≢ 0 → Ensures (λ r. Advances l r.1) (read_here_document l)
  unfolding read_here_document
  read_here_document-Ensures z =
      let a = consume-Advances 2 l c (omega arith) (lt_of_lookahead l z) in
      let run =
        read_here_loop-Ensures (suc (length l.source)) l.p (consume 2 l) [] a.follows.coherent
          (ground (arith, a.follows.same)) in
      Ensures-bind run
        λ r h. holds (Advances-trans a (Follows-trans h (consume-Follows 2 r.1 h.coherent)))

  read_number-Ensures :
      (n : Notation)
      → Ends n
      → Ensures (λ r. Follows l r.2) (read_number_loop n (suc (length l.source)) l 0 true)
  read_number-Ensures n z = read_number_loop-Ensures n _ l 0 true z c (omega arith)

  pub read_hex_literal-Ensures : Ensures (λ r. Follows l r.1) (read_hex_literal l)
  unfolding read_hex_literal
  read_hex_literal-Ensures =
      Ensures-bind (read_number-Ensures hex refl) λ r h. Ensures-if r.1 (λ _. threw) (λ _. holds h)

  pub read_binary_literal-Ensures : Ensures (λ r. Follows l r.1) (read_binary_literal l)
  unfolding read_binary_literal
  read_binary_literal-Ensures =
      Ensures-bind (read_number-Ensures binary refl)
        λ r h. Ensures-if r.1 (λ _. threw) (λ _. holds h)

  pub read_decimal_literal-Ensures : Ensures (λ r. Follows l r.1) (read_decimal_literal l)
  unfolding read_decimal_literal
  read_decimal_literal-Ensures = Ensures-bind (read_number-Ensures decimal refl) λ r h. holds h

-- Where a digit stands the decimal loop reads it.
pub read_decimal_literal-Advances :
    (l : Lexer)
    → IsCoherent l
    → is_digit (lookahead l 0) ≡ true
    → Ensures (λ r. Advances l r.1) (read_decimal_literal l)
unfolding read_decimal_literal read_number_loop
read_decimal_literal-Advances l c e =
    let inside = lt_of_lookahead l (ground arith) in
    let a = consume-Advances 1 l c (omega arith) inside in
    let first = Ensures-bind (int_result-Ensures 0) λ scaled _.
      Ensures-bind (int_result-Ensures (scaled + (lookahead l 0 - b'0'))) λ sum _.
        Ensures-map {Q = λ (r : ℕ × Bool × Lexer). Advances l r.2}
          (read_number_loop-Ensures decimal (length l.source) (consume 1 l) sum false refl
            a.follows.coherent (left-Advances (length l.source) a (omega arith)))
          λ r h. Advances-trans a h in
    rw e (Ensures-bind first λ r h. holds h)

-- The powers of ten pass every `int`, so ten rounds are enough.
pub frac_length_loop-Ensures :
    (f fractional frac_length : ℕ)
    → frac_length < int_limit
    → int_limit ≤ frac_length * 10 ^ f
    → Ensures (λ k. fractional < k) (frac_length_loop f fractional frac_length)
unfolding frac_length_loop
frac_length_loop-Ensures zero fractional k small enough = absurd (omega arith)
frac_length_loop-Ensures (suc f) fractional k small enough =
    Ensures-if (leb k fractional)
      (λ _. Ensures-bind (int_result_small (k * 10)) λ longer h.
        frac_length_loop-Ensures f fractional longer h.1 (rw (h.0, mul_assoc, ← pow-succ') enough))
      (λ e. holds (ground arith))
  where
    int_result_small : (m : ℕ) → Ensures (λ r. (r ≡ m) × (r < int_limit)) (int_result m)
    int_result_small m =
        Ensures-if (ltb m int_limit) (λ e. holds (refl, ltb→lt m int_limit e)) (λ _. overflowed)

pub read_float_literal-Ensures :
    (l : Lexer)
    → IsCoherent l
    → is_digit (lookahead l 0) ≡ true
    → Ensures (λ r. Advances l r.1) (read_float_literal l)
unfolding read_float_literal
read_float_literal-Ensures l c e = Ensures-bind (read_decimal_literal-Advances l c e) λ r a.
    let g = consume-Follows 1 r.1 a.follows.coherent in
    Ensures-bind (read_decimal_literal-Ensures (consume 1 r.1) g.coherent) λ s k.
      Ensures-bind (frac_length_loop-Ensures 11 s.0 1 (omega arith) (omega arith))
        λ _ _. holds (Advances-trans a (Follows-trans g k))
