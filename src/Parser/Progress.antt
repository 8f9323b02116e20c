-- ===== src/Parser/Progress.antt =====
-- Rules for parsing functions that end and take tokens from the front: one rule for each way to build
-- such a function.
pub mod Rules
pub mod Specs
pub mod Ready
pub mod Expressions
pub mod Operators
pub mod Arguments
pub mod Statements
pub mod Lines
pub mod Units
use peryan.Parser.Stream.{
  Stream, P, Parsed, ok, throws, asserts, out_of_fuel, continue, ◌>>=◌, ◌>>◌, pure, assert_false,
  lt, consume, raise, raise_at, Test, on, when, assert_on, require, skip, while_loop, while_do,
  Message, token_at, set_runtime,
}
use peryan.Prelude.{
  ℕ, zero, suc, ◌+◌, ◌≤◌, ◌<◌, ◌-◌, Bool, true, false, List, [], ◌∷◌, ◌≡◌, inl, inr, refl, sym,
  arith, length, drop, length-drop, Bool-cases, if◌then◌else◌, ◌∙◌, ap, get_or,
}
use peryan.Token.{Token, TokenType, is_type}

-- The outcome is an error, a failed assertion, or a result with fewer than `n` tokens left.
pub data Ends (n : ℕ) {A : Type 0} : Parsed A → Type 0 where
  done : {a : A} {s : Stream} → length s.rest < n → Ends n (ok a s)
  threw : {pos : ℕ} {m : Message} → Ends n (throws pos m)
  asserted : Ends n asserts

-- On streams of at most `k` tokens: no token is added.
pub record Keeps (k : ℕ) {A : Type 0} (p : P A) : Type 0 where
  pub at : (s : Stream) → length s.rest ≤ k → Ends (suc (length s.rest)) (p s)

-- On streams of at most `k` tokens that pass the test: a token is taken.
pub record EatsOn (c : Test) (k : ℕ) {A : Type 0} (p : P A) : Type 0 where
  pub at : (s : Stream) → length s.rest ≤ k → c s ≡ true → Ends (length s.rest) (p s)

pub record Eats (k : ℕ) {A : Type 0} (p : P A) : Type 0 where
  pub at : (s : Stream) → length s.rest ≤ k → Ends (length s.rest) (p s)

pub Ends-mono : {A : Type 0} {m n : ℕ} {o : Parsed A} → m ≤ n → Ends m o → Ends n o
Ends-mono h (done k) = done (omega arith)
Ends-mono h threw = threw
Ends-mono h asserted = asserted

pub Ends-continue :
    {A B : Type 0} {m n : ℕ} {o : Parsed A} {f : A → P B}
    → Ends m o
    → ((a : A) (s : Stream) → length s.rest < m → Ends n (f a s))
    → Ends n (continue o f)
Ends-continue (done {a = a} {s = s} h) k = k a s h
Ends-continue threw k = threw
Ends-continue asserted k = asserted

module _ {A : Type 0} {k : ℕ} {p : P A} where
  pub Eats-EatsOn : {c : Test} → Eats k p → EatsOn c k p
  Eats-EatsOn h = record { at = λ s l e. h.at s l }

  pub Eats-Keeps : Eats k p → Keeps k p
  Eats-Keeps h = record { at = λ s l. Ends-mono (omega arith) (h.at s l) }

  pub Eats-mono : {m : ℕ} → m ≤ k → Eats k p → Eats m p
  Eats-mono h p = record { at = λ s l. p.at s (omega arith) }

module _ {k : ℕ} {A : Type 0} where
  pub Keeps-pure : (a : A) → Keeps k (pure a)
  unfolding pure
  Keeps-pure a = record { at = λ s l. done (omega arith) }

  pub Eats-assert_false : Eats k (assert_false {A = A})
  unfolding assert_false
  Eats-assert_false = record { at = λ s l. asserted }

  pub Eats-raise : (m : Message) → Eats k (raise {A = A} m)
  unfolding raise
  Eats-raise m = record { at = λ s l. threw }

  pub Eats-raise_at : (pos : ℕ) (m : Message) → Eats k (raise_at {A = A} pos m)
  unfolding raise_at
  Eats-raise_at pos m = record { at = λ s l. threw }

module _ {k : ℕ} where
  pub Keeps-lt : (n : ℕ) → Keeps k (lt n)
  unfolding lt
  Keeps-lt n = record { at = λ s l. done (omega arith) }

  pub Keeps-set_runtime : Keeps k set_runtime
  unfolding set_runtime
  Keeps-set_runtime = record { at = λ s l. done (omega arith) }

  pub Keeps-consume : (n : ℕ) → Keeps k (consume n)
  unfolding consume
  Keeps-consume n = record { at = λ s l. done (omega (arith, length-drop n s.rest)) }

-- A test that the `END` does not pass, so that what passes is a token that can be taken.
pub record Excludes (c : Test) : Type 0 where
  pub at : (s : Stream) → c s ≡ true → 0 < length s.rest

pub EatsOn-consume : {k : ℕ} {c : Test} (n : ℕ) → Excludes c → EatsOn c k (consume (suc n))
unfolding consume
EatsOn-consume n x = record {
  at = λ s l e. done (omega (arith, x.at s e, length-drop (suc n) s.rest));
}

pub Excludes-on : (t : TokenType) → is_type TokenType.end t ≡ false → Excludes (on t)
unfolding token_at on
Excludes-on t h = record { at = λ s e. by_rest s s.rest refl e }
  where
    by_rest :
        (s : Stream) (ts : List Token)
        → s.rest ≡ ts
        → is_type
            (get_or ts 0 (record {
              type = TokenType.end;
              payload = peryan.Token.plain;
              position = s.end_pos;
            })).type
            t
          ≡ true
        → 0 < length s.rest
    by_rest s [] q e = cc
    by_rest s (x ∷ ts) q e = rw q (omega arith)
