-- ===== src/Lexer/Numbers.antt =====
-- What `readDecimalLiteral`, `readHexLiteral`, `readBinaryLiteral` and `readFloatLiteral` return.
pub mod Hex
use peryan.Lexer.Cursor.{
  Lexer, IsCoherent, consume-IsCoherent, consume_next, consume_zero, rest, rest-cases, Result, ok,
  throws, overflow, ◌>>=◌, consume, invalid_hex_literal,
}
use peryan.Lexer.Literal.{
  Notation, hex, decimal, int_limit, int_result, read_number_loop, read_decimal_literal,
  read_hex_literal, is_digit,
}
use peryan.Lexer.Progress.Follows.{left, left-consume, lt_of_lookahead}
use peryan.Prelude.{
  ℕ, zero, suc, ◌+◌, ◌*◌, ◌/◌, ◌%◌, ◌≤◌, ◌<◌, Bool, true, false, List, [], ◌∷◌, ◌++◌, ◌≡◌, refl,
  arith, ltb, if◌then◌else◌, length, take_while, All, Bool-cases, inl, inr, ◌∙◌, lt→ltb, le→ltb,
  get_or,
}

-- The number that digits stand for, in a notation, behind the number `acc`.
abbrev pub value : Notation → ℕ → List ℕ → ℕ
value n acc [] = acc
value n acc (d ∷ ds) = value n (acc * n.base + n.digit d) ds

abbrev pub is_nil : List ℕ → Bool
is_nil [] = true
is_nil (x ∷ xs) = false

-- The flag `nothing` after a loop that has read `ds`.
abbrev still_nothing : Bool → List ℕ → Bool
still_nothing nothing [] = nothing
still_nothing nothing (d ∷ ds) = false

still_nothing-false : (ds : List ℕ) → still_nothing false ds ≡ false
still_nothing-false [] = refl
still_nothing-false (d ∷ ds) = refl

pub value-le : (n : Notation) (acc : ℕ) (ds : List ℕ) → 0 < n.base → acc ≤ value n acc ds
value-le n acc [] pos = omega arith
value-le n acc (d ∷ ds) pos = grind (arith, value-le n (acc * n.base + n.digit d) ds pos)

-- The outcome of reading the digits `ds`: the value if it is an `int`.
abbrev number_outcome : Notation → ℕ → Bool → List ℕ → Lexer → Result (ℕ × Bool × Lexer)
number_outcome n num nothing ds l =
    if ltb (value n num ds) int_limit
    then ok (value n num ds, still_nothing nothing ds, consume (length ds) l)
    else overflow

-- The two checked operations of a round fail only where the whole number is too large.
round_outcome :
    (n : Notation) (num d : ℕ) (ds : List ℕ) (l : Lexer) {next : ℕ → Result (ℕ × Bool × Lexer)}
    → 0 < n.base
    → ((sum : ℕ) → sum < int_limit → next sum ≡ number_outcome n sum false ds (consume 1 l))
    → (do scaled ← int_result (num * n.base); sum ← int_result (scaled + n.digit d); next sum)
      ≡ number_outcome n num false (d ∷ ds) l
round_outcome n num d ds l {next} pos h =
    elim (Bool-cases (ltb (num * n.base + n.digit d) int_limit)) [
      | inl small ↦
          let first = lt→ltb (num * n.base) int_limit (ground arith) in
          rw (first, small)
            (h (num * n.base + n.digit d) (ground arith)
              ∙ rw (consume_next (length ds) l, still_nothing-false ds))
      | inr large ↦
          let total = value-le n (num * n.base + n.digit d) ds pos in
          let whole = le→ltb (value n (num * n.base + n.digit d) ds) int_limit (ground arith) in
          elim (Bool-cases (ltb (num * n.base) int_limit)) [
            | inl first ↦ rw (first, large, whole)
            | inr first ↦ rw (first, whole)
          ]
    ]

-- Nothing is read where no digit stands.
no_digits :
    (n : Notation) (num : ℕ) (nothing : Bool) (l : Lexer)
    → IsCoherent l
    → num < int_limit
    → ok (num, nothing, l) ≡ number_outcome n num nothing [] l
no_digits n num nothing l c small = rw (lt→ltb num int_limit small, consume_zero l c)

module _ (n : Notation) (pos : 0 < n.base) (ends : n.accepts 0 ≡ false) where
  -- The loop reads the longest run of digits.
  read_number_loop-value :
      (f : ℕ) (l : Lexer) (num : ℕ) (nothing : Bool)
      → IsCoherent l
      → left l < f
      → num < int_limit
      → read_number_loop n f l num nothing
        ≡ number_outcome n num nothing (take_while n.accepts (rest l)) l
  unfolding read_number_loop
  read_number_loop-value zero l num nothing c h small = absurd (omega arith)
  read_number_loop-value (suc f) l num nothing c h small = elim (rest-cases l) [
    | inl (empty, at_end) ↦ rw (at_end, ends, empty) (no_digits n num nothing l c small)
    | inr (d, ds, has, first, then_left) ↦ elim (Bool-cases (n.accepts d)) [
      | inl more ↦
          let inside = lt_of_lookahead l λ z. cc in
          rw (first, more, has, more)
            (round_outcome n num d (take_while n.accepts ds) l pos λ sum small'. rw (← then_left) (
              read_number_loop-value f (consume 1 l) sum false (consume-IsCoherent 1 l)
                (left-consume 1 f l (omega arith) inside h) small'))
      | inr done ↦ rw (first, done, has, done) (no_digits n num nothing l c small)
    ]
  ]

module _ (l : Lexer) (c : IsCoherent l) where
  read_number-value :
      (n : Notation)
      → 0 < n.base
      → n.accepts 0 ≡ false
      → read_number_loop n (suc (length l.source)) l 0 true
        ≡ number_outcome n 0 true (take_while n.accepts (rest l)) l
  read_number-value n pos ends =
      read_number_loop-value n pos ends (suc (length l.source)) l 0 true c (omega arith)
        (omega arith)

  -- `readDecimalLiteral` reads the longest run of digits: it returns the number that they stand
  -- for, and overflows exactly where that number is no `int`.
  pub read_decimal_literal-value : read_decimal_literal l ≡ (
      let ds = take_while is_digit (rest l) in
      if ltb (value decimal 0 ds) int_limit
      then ok (value decimal 0 ds, consume (length ds) l)
      else overflow)
  unfolding read_decimal_literal
  read_decimal_literal-value =
      let ds = take_while is_digit (rest l) in
      rw (read_number-value decimal (omega arith) refl)
        (elim (Bool-cases (ltb (value decimal 0 ds) int_limit)) [ inl e ↦ rw e | inr e ↦ rw e ])

  -- `readHexLiteral` reads the longest run of hexadecimal digits of both cases: it refuses an empty
  -- run, returns the number that the digits stand for, and overflows exactly where that is no `int`.
  pub read_hex_literal-runs : read_hex_literal l ≡ (
      let ds = take_while hex.accepts (rest l) in
      if is_nil ds
      then throws l.p invalid_hex_literal
      else if ltb (value hex 0 ds) int_limit
      then ok (value hex 0 ds, consume (length ds) l)
      else overflow)
  unfolding read_hex_literal
  read_hex_literal-runs =
      rw (read_number-value hex (omega arith) refl) (by_digits (take_while hex.accepts (rest l)))
    where
      by_digits :
          (ds : List ℕ)
          → ◌>>=◌ {B = ℕ × Lexer}
              (number_outcome hex 0 true ds l)
              (λ r. if r.1 then throws r.2.p invalid_hex_literal else ok (r.0, r.2))
            ≡ (if is_nil ds
                then throws l.p invalid_hex_literal
                else if ltb (value hex 0 ds) int_limit
                then ok (value hex 0 ds, consume (length ds) l)
                else overflow)
      by_digits [] = rw (consume_zero l c)
      by_digits (d ∷ ds) = elim (Bool-cases (ltb (value hex 0 (d ∷ ds)) int_limit)) [
        | inl e ↦ rw e
        | inr e ↦ rw e
      ]

-- The decimal text of a number.
unfoldable pub decimal_text : ℕ → ℕ → List ℕ
decimal_text zero n = []
decimal_text (suc f) n =
    if ltb n 10 then (n + b'0') ∷ [] else decimal_text f (n / 10) ++ ((n % 10 + b'0') ∷ [])

value-append :
    (n : Notation) (acc d : ℕ) (ds : List ℕ)
    → value n acc (ds ++ d ∷ []) ≡ value n acc ds * n.base + n.digit d
value-append n acc d [] = refl
value-append n acc d (e ∷ ds) = value-append n (acc * n.base + n.digit e) d ds

value-decimal_text : (f n : ℕ) → n < f → value decimal 0 (decimal_text f n) ≡ n
unfolding decimal_text
value-decimal_text zero n h = absurd (omega arith)
value-decimal_text (suc f) n h = elim (Bool-cases (ltb n 10)) [
  | inl e ↦ rw e (omega arith)
  | inr e ↦
      rw
        (
          e,
          value-append decimal 0 (n % 10 + b'0') (decimal_text f (n / 10)),
          value-decimal_text f (n / 10) (ground arith),
        )
        (omega arith)
]

pub take_while-append :
    (p : ℕ → Bool) (xs ys : List ℕ)
    → All (λ x. p x ≡ true) xs
    → p (get_or ys 0 0) ≡ false
    → take_while p (xs ++ ys) ≡ xs
take_while-append p [] [] a e = refl
take_while-append p [] (y ∷ ys) a e = rw e
take_while-append p (x ∷ xs) ys a e = rw (a.0, take_while-append p xs ys a.1 e)

All-append :
    (p : ℕ → Bool) (xs : List ℕ) (y : ℕ)
    → All (λ x. p x ≡ true) xs
    → p y ≡ true
    → All (λ x. p x ≡ true) (xs ++ y ∷ [])
All-append p [] y a h = (h, tt)
All-append p (x ∷ xs) y a h = (a.0, All-append p xs y a.1 h)

digits-decimal_text : (f n : ℕ) → All (λ x. is_digit x ≡ true) (decimal_text f n)
unfolding decimal_text
digits-decimal_text zero n = tt
digits-decimal_text (suc f) n = elim (Bool-cases (ltb n 10)) [
  | inl e ↦ rw e (ground arith, tt)
  | inr e ↦ rw e (
      All-append is_digit (decimal_text f (n / 10)) (n % 10 + b'0') (digits-decimal_text f (n / 10))
        (ground arith))
]

-- An `int` that is written in decimal, with no digit behind it, is read back.
pub read_decimal_literal-decimal_text :
    (n : ℕ) (after : List ℕ) (l : Lexer)
    → IsCoherent l
    → n < int_limit
    → rest l ≡ decimal_text (suc n) n ++ after
    → is_digit (get_or after 0 0) ≡ false
    → read_decimal_literal l ≡ ok (n, consume (length (decimal_text (suc n) n)) l)
read_decimal_literal-decimal_text n after l c small has stops =
    let run =
      take_while-append is_digit (decimal_text (suc n) n) after (digits-decimal_text (suc n) n)
        stops in
    let back = value-decimal_text (suc n) n (omega arith) in
    read_decimal_literal-value l c ∙ rw (has, run, back, lt→ltb n int_limit small)
