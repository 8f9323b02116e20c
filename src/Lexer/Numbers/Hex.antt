-- ===== src/Lexer/Numbers/Hex.antt =====
-- What `readHexLiteral` of src/Lexer.cc returns, by the written hexadecimal digits.
use peryan.Lexer.Cursor.{
  Lexer, IsCoherent, rest, ok, throws, overflow, consume, invalid_hex_literal,
}
use peryan.Lexer.Literal.{hex, int_limit, read_hex_literal}
use peryan.Lexer.Numbers.{value, is_nil, read_hex_literal-runs}
use peryan.Prelude.{
  ℕ, zero, suc, ◌+◌, ◌*◌, ◌≤◌, ◌<◌, Bool, true, not, ◌&&◌, List, [], ◌∷◌, ◌≡◌, refl, ap, arith, ltb,
  ◌==◌, if◌then◌else◌, length, take_while, Bool-cases, inl, inr, ◌∙◌, codes,
}

-- The place of a character in a list, and 16 where it does not stand there.
unfoldable pub place : List ℕ → ℕ → ℕ
place [] c = 16
place (x ∷ xs) c =
    let later = place xs c in if x == c then 0 else if later == 16 then 16 else later + 1

-- The number that a hexadecimal digit of either case stands for, and 16 for other characters.
unfoldable pub hex_digit : ℕ → ℕ
unfolding place
hex_digit c =
    let lower = place (codes "0123456789abcdef") c in
    if lower == 16 then place (codes "0123456789ABCDEF") c else lower

unfoldable pub is_hex_digit : ℕ → Bool
is_hex_digit c = not (hex_digit c == 16)

-- The number that hexadecimal digits stand for, behind the number `acc`.
abbrev pub hex_value : ℕ → List ℕ → ℕ
hex_value acc [] = acc
hex_value acc (d ∷ ds) = hex_value (acc * 16 + hex_digit d) ds

-- The code's test and its digit, against these.
agrees : ℕ → Bool
agrees c =
    if is_hex_digit c then hex.accepts c && (hex.digit c == hex_digit c) else not (hex.accepts c)

all_below : ℕ → (ℕ → Bool) → Bool
all_below zero p = true
all_below (suc n) p = p n && all_below n p

all_below-at : (n : ℕ) (p : ℕ → Bool) (c : ℕ) → all_below n p ≡ true → c < n → p c ≡ true
unfolding all_below
all_below-at zero p c h l = absurd (omega arith)
all_below-at (suc n) p c h l = elim (Bool-cases (c == n)) [
  | inl e ↦ ground arith
  | inr e ↦ ground (arith, all_below-at n p c)
]

ascii_agrees : all_below 103 agrees ≡ true
unfolding all_below agrees is_hex_digit hex_digit place
ascii_agrees = refl

rest_agrees : (c : ℕ) → 103 ≤ c → agrees c ≡ true
unfolding agrees is_hex_digit hex_digit place
rest_agrees c h = ground arith

agrees-all : (c : ℕ) → agrees c ≡ true
agrees-all c = elim (Bool-cases (ltb c 103)) [
  | inl e ↦ all_below-at 103 agrees c ascii_agrees (ground arith)
  | inr e ↦ rest_agrees c (ground arith)
]

accepts-is_hex_digit : (c : ℕ) → hex.accepts c ≡ is_hex_digit c
accepts-is_hex_digit c = by_agreement (agrees-all c)
  where
    by_agreement : agrees c ≡ true → hex.accepts c ≡ is_hex_digit c
    by_agreement h = elim (Bool-cases (is_hex_digit c)) [
      | inl e ↦ unfold agrees in ground arith
      | inr e ↦ unfold agrees in ground arith
    ]

digit-hex_digit : (c : ℕ) → is_hex_digit c ≡ true → hex.digit c ≡ hex_digit c
digit-hex_digit c h = by_agreement (agrees-all c)
  where
    by_agreement : agrees c ≡ true → hex.digit c ≡ hex_digit c
    by_agreement a = unfold agrees in ground arith

-- The two readings of the longest run of digits agree.
runs_agree :
    (xs : List ℕ) (acc : ℕ)
    → (take_while hex.accepts xs ≡ take_while is_hex_digit xs)
      × (value hex acc (take_while is_hex_digit xs) ≡ hex_value acc (take_while is_hex_digit xs))
runs_agree [] acc = (refl, refl)
runs_agree (x ∷ xs) acc = elim (Bool-cases (is_hex_digit x)) [
  | inl e ↦
      let digit = digit-hex_digit x e in
      let (run, same) = runs_agree xs (acc * 16 + hex_digit x) in
      (
        rw (accepts-is_hex_digit x, e, run) refl,
        rw e (ap (λ d. value hex (acc * 16 + d) (take_while is_hex_digit xs)) digit ∙ same),
      )
  | inr e ↦ (rw (accepts-is_hex_digit x, e) refl, rw e refl)
]

-- `readHexLiteral` reads the longest run of hexadecimal digits of both cases: it refuses an empty
-- run, returns the number that the digits stand for in base 16, and overflows exactly where that is no
-- `int`. A digit stands for its place in `0123456789abcdef` or in `0123456789ABCDEF`.
pub read_hex_literal-value :
    (l : Lexer)
    → IsCoherent l
    → read_hex_literal l ≡ (
        let ds = take_while is_hex_digit (rest l) in
        if is_nil ds
        then throws l.p invalid_hex_literal
        else if ltb (hex_value 0 ds) int_limit
        then ok (hex_value 0 ds, consume (length ds) l)
        else overflow)
read_hex_literal-value l c =
    let (run, same) = runs_agree (rest l) 0 in read_hex_literal-runs l c ∙ rw (run, same) refl
