-- ===== src/Lexer/Floats.antt =====
-- What `readFloatLiteral` makes of the digits on the two sides of the point.
use peryan.Lexer.Cursor.{
  Lexer, IsCoherent, consume-IsCoherent, rest, rest-consume, Result, ok, throws, overflow,
  out_of_fuel, ◌>>=◌, consume,
}
use peryan.Lexer.Literal.{
  decimal, int_limit, read_decimal_literal, read_float_literal, frac_length_loop, is_digit,
}
use peryan.Lexer.Numbers.{value, read_decimal_literal-value, take_while-append}
use peryan.Prelude.{
  ℕ, true, false, List, [], ◌∷◌, ◌++◌, ◌≡◌, refl, sym, ◌∙◌, ap, ltb, if◌then◌else◌, length, drop,
  get_or, All, Bool-cases, inl, inr,
}
use peryan.Token.{FloatValue}

-- The value that was read, without the lexer.
abbrev pub float_of : Result (FloatValue × Lexer) → Result FloatValue
float_of r = r >>= λ v. ok v.0

abbrev float_outcome : ℕ → ℕ → Result FloatValue
float_outcome i f =
    if ltb i int_limit
    then (if ltb f int_limit
        then (frac_length_loop 11 f 1 >>= λ k.
            ok (record { integer = i; fractional = f; frac_length = k }))
        else overflow)
    else overflow

pub drop-append : (xs ys : List ℕ) → drop (length xs) (xs ++ ys) ≡ ys
drop-append [] ys = refl
drop-append (x ∷ xs) ys = drop-append xs ys

decimal_run :
    (ds after : List ℕ) (l : Lexer)
    → IsCoherent l
    → rest l ≡ ds ++ after
    → All (λ d. is_digit d ≡ true) ds
    → is_digit (get_or after 0 0) ≡ false
    → read_decimal_literal l ≡ (
        if ltb (value decimal 0 ds) int_limit
        then ok (value decimal 0 ds, consume (length ds) l)
        else overflow)
decimal_run ds after l c has digits stops =
    read_decimal_literal-value l c ∙ rw (has, take_while-append is_digit ds after digits stops)

abbrev float_value_of : ℕ → ℕ → ℕ → FloatValue
float_value_of i f k = record { integer = i; fractional = f; frac_length = k }

float_of-bind :
    (i f : ℕ) (l : Lexer) (r : Result ℕ)
    → float_of (r >>= λ k. ok (float_value_of i f k, l)) ≡ (r >>= λ k. ok (float_value_of i f k))
float_of-bind i f l (ok k) = refl
float_of-bind i f l (throws pos m) = refl
float_of-bind i f l overflow = refl
float_of-bind i f l out_of_fuel = refl

module _ (is fs after : List ℕ) (l : Lexer) (c : IsCoherent l)
    (has : rest l ≡ is ++ (b'.' ∷ (fs ++ after))) (digits : All (λ d. is_digit d ≡ true) is)
    (fraction : All (λ d. is_digit d ≡ true) fs) (stops : is_digit (get_or after 0 0) ≡ false) where
  behind_point : rest (consume 1 (consume (length is) l)) ≡ fs ++ after
  behind_point =
      rest-consume 1 (consume (length is) l)
      ∙ ap (drop 1) (rest-consume (length is) l)
      ∙ rw (has, drop-append is (b'.' ∷ (fs ++ after)))

  read_float_literal-outcome :
      float_of (read_float_literal l) ≡ float_outcome (value decimal 0 is) (value decimal 0 fs)
  unfolding read_float_literal
  read_float_literal-outcome =
      rw (decimal_run is (b'.' ∷ (fs ++ after)) l c has digits refl)
        (elim (Bool-cases (ltb (value decimal 0 is) int_limit)) [
          | inl e ↦
              rw
                (
                  e,
                  decimal_run fs after (consume 1 (consume (length is) l)) (consume-IsCoherent 1 _)
                      behind_point fraction stops,
                )
                (elim (Bool-cases (ltb (value decimal 0 fs) int_limit)) [
                  | inl e' ↦
                      rw e' (float_of-bind _ _ _ (frac_length_loop 11 (value decimal 0 fs) 1))
                  | inr e' ↦ rw e'
                ])
          | inr e ↦ rw e
        ])

-- A zero in front of the fraction changes nothing: `1.05` is read as `1.5`.
pub read_float_literal_drops_zero :
    (is fs after : List ℕ) (l l' : Lexer)
    → IsCoherent l
    → IsCoherent l'
    → All (λ d. is_digit d ≡ true) is
    → All (λ d. is_digit d ≡ true) fs
    → is_digit (get_or after 0 0) ≡ false
    → rest l ≡ is ++ (b'.' ∷ (fs ++ after))
    → rest l' ≡ is ++ (b'.' ∷ b'0' ∷ (fs ++ after))
    → float_of (read_float_literal l') ≡ float_of (read_float_literal l)
read_float_literal_drops_zero is fs after l l' c c' digits fraction stops has has' =
    read_float_literal-outcome is (b'0' ∷ fs) after l' c' has' digits (refl, fraction) stops
    ∙ sym (read_float_literal-outcome is fs after l c has digits fraction stops)
