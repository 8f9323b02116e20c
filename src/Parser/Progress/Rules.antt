-- ===== src/Parser/Progress/Rules.antt =====
-- Rules for the sequences, branches and loops of the parser, and the set of them for `search`.
use peryan.Parser.Progress.{
  Ends, done, threw, asserted, Keeps, EatsOn, Eats, Excludes, Ends-mono, Ends-continue, Eats-EatsOn,
  Eats-Keeps, Eats-mono, Keeps-pure, Eats-assert_false, Eats-raise, Eats-raise_at, Keeps-lt,
  Keeps-set_runtime, Keeps-consume, EatsOn-consume, Excludes-on,
}
use peryan.Parser.Stream.{
  Stream, P, ok, continue, ◌>>=◌, ◌>>◌, lt, Test, either, assert_false, when, assert_on, require,
  skip, while_loop, while_do, Message,
}
use peryan.Token.{Token}
use peryan.Prelude.{
  ℕ, zero, suc, ◌+◌, ◌≤◌, ◌<◌, Bool, true, false, ◌≡◌, ◌⊎◌, inl, inr, refl, sym, arith, length,
  Bool-cases, if◌then◌else◌, ◌||◌, ◌&&◌,
}

module _ {k : ℕ} {A B : Type 0} {p : P A} {f : A → P B} where
  pub Keeps-bind : Keeps k p → ((a : A) → Keeps k (f a)) → Keeps k (p >>= f)
  unfolding ◌>>=◌
  Keeps-bind hp hf = record {
    at = λ s l.
        Ends-continue (hp.at s l) λ a s' l'. Ends-mono (omega arith) ((hf a).at s' (omega arith));
  }

  pub Eats-later : Keeps k p → ((a : A) → Eats k (f a)) → Eats k (p >>= f)
  unfolding ◌>>=◌
  Eats-later hp hf = record {
    at = λ s l.
        Ends-continue (hp.at s l) λ a s' l'. Ends-mono (omega arith) ((hf a).at s' (omega arith));
  }

  -- Behind a token there are fewer of them.
  pub Eats-bind : Eats k p → ((m : ℕ) → m < k → (a : A) → Keeps m (f a)) → Eats k (p >>= f)
  unfolding ◌>>=◌
  Eats-bind hp hf = record {
    at = λ s l. Ends-continue (hp.at s l) λ a s' l'.
        Ends-mono (omega arith) ((hf (length s'.rest) (omega arith) a).at s' (omega arith));
  }

  pub EatsOn-bind :
      {c : Test} → EatsOn c k p → ((m : ℕ) → m < k → (a : A) → Keeps m (f a)) → EatsOn c k (p >>= f)
  unfolding ◌>>=◌
  EatsOn-bind hp hf = record {
    at = λ s l e. Ends-continue (hp.at s l e) λ a s' l'.
        Ends-mono (omega arith) ((hf (length s'.rest) (omega arith) a).at s' (omega arith));
  }

module _ {k : ℕ} {B : Type 0} where
  pub EatsOn-lt :
      {c : Test} (n : ℕ) {f : Token → P B}
      → ((t : Token) → EatsOn c k (f t))
      → EatsOn c k (lt n >>= f)
  unfolding ◌>>=◌ lt
  EatsOn-lt n h = record { at = λ s l e. (h _).at s l e }

module _ {k : ℕ} {A B : Type 0} {p : P A} {q : P B} where
  pub Keeps-then : Keeps k p → Keeps k q → Keeps k (p >> q)
  unfolding ◌>>◌
  Keeps-then hp hq = record {
    at = λ s l.
        Ends-continue (hp.at s l) λ a s' l'. Ends-mono (omega arith) (hq.at s' (omega arith));
  }

  pub Eats-then_later : Keeps k p → Eats k q → Eats k (p >> q)
  unfolding ◌>>◌
  Eats-then_later hp hq = record {
    at = λ s l.
        Ends-continue (hp.at s l) λ a s' l'. Ends-mono (omega arith) (hq.at s' (omega arith));
  }

  pub Eats-then : Eats k p → ((m : ℕ) → m < k → Keeps m q) → Eats k (p >> q)
  unfolding ◌>>◌
  Eats-then hp hq = record {
    at = λ s l. Ends-continue (hp.at s l) λ a s' l'.
        Ends-mono (omega arith) ((hq (length s'.rest) (omega arith)).at s' (omega arith));
  }

  pub EatsOn-then : {c : Test} → EatsOn c k p → ((m : ℕ) → m < k → Keeps m q) → EatsOn c k (p >> q)
  unfolding ◌>>◌
  EatsOn-then hp hq = record {
    at = λ s l e. Ends-continue (hp.at s l e) λ a s' l'.
        Ends-mono (omega arith) ((hq (length s'.rest) (omega arith)).at s' (omega arith));
  }

module _ {k : ℕ} {A : Type 0} {p q : P A} where
  pub Keeps-when : (c : Test) → Keeps k p → Keeps k q → Keeps k (when c p q)
  unfolding when
  Keeps-when c hp hq = record { at = λ s l. by_test s l (c s) }
    where
      by_test :
          (s : Stream)
          → length s.rest ≤ k
          → (b : Bool) → Ends (suc (length s.rest)) (elim b [ true ↦ p s | false ↦ q s ])
      by_test s l true = hp.at s l
      by_test s l false = hq.at s l

  pub Eats-when : (c : Test) → EatsOn c k p → Eats k q → Eats k (when c p q)
  unfolding when
  Eats-when c hp hq = record { at = λ s l. by_test s l (c s) refl }
    where
      by_test :
          (s : Stream)
          → length s.rest ≤ k
          → (b : Bool) → c s ≡ b
          → Ends (length s.rest) (elim b [ true ↦ p s | false ↦ q s ])
      by_test s l true e = hp.at s l e
      by_test s l false e = hq.at s l

  pub EatsOn-when : {d : Test} (c : Test) → EatsOn d k p → EatsOn d k q → EatsOn d k (when c p q)
  unfolding when
  EatsOn-when {d = d} c hp hq = record { at = λ s l e. by_test s l e (c s) }
    where
      by_test :
          (s : Stream)
          → length s.rest ≤ k
          → d s ≡ true
          → (b : Bool) → Ends (length s.rest) (elim b [ true ↦ p s | false ↦ q s ])
      by_test s l e true = hp.at s l e
      by_test s l e false = hq.at s l e

  pub Keeps-if : (b : Bool) → Keeps k p → Keeps k q → Keeps k (if b then p else q)
  Keeps-if true hp hq = hp
  Keeps-if false hp hq = hq

  pub Eats-if : (b : Bool) → Eats k p → Eats k q → Eats k (if b then p else q)
  Eats-if true hp hq = hp
  Eats-if false hp hq = hq

module _ {A : Type 0} where
  assert_on-when : (c : Test) (p : P A) → assert_on c p ≡ when c p assert_false
  unfolding assert_on when assert_false
  assert_on-when c p = refl

  pub Eats-assert_on : {k : ℕ} (c : Test) {p : P A} → EatsOn c k p → Eats k (assert_on c p)
  Eats-assert_on c h = rw (assert_on-when c _) (Eats-when c h Eats-assert_false)

  pub Keeps-assert_on : {k : ℕ} (c : Test) {p : P A} → Keeps k p → Keeps k (assert_on c p)
  Keeps-assert_on c h = rw (assert_on-when c _) (Keeps-when c h (Eats-Keeps Eats-assert_false))

module _ {k : ℕ} where
  pub Keeps-require : (c : Test) (m : Message) → Keeps k (require c m)
  unfolding require
  Keeps-require c m = Keeps-when c (Keeps-pure tt) (Eats-Keeps (Eats-raise m))

  pub Keeps-skip : (c : Test) → Keeps k (skip c)
  unfolding skip
  Keeps-skip c = Keeps-when c (Keeps-consume 1) (Keeps-pure tt)

module _ {k : ℕ} {A : Type 0} {c : Test} {body : A → P A} (h : (a : A) → EatsOn c k (body a)) where
  -- A round, given what the rounds behind it do.
  round-Ends :
      (a : A) (s : Stream) (after : A → P A)
      → length s.rest ≤ k
      → ((a : A) (s' : Stream)
          → length s'.rest < length s.rest
          → Ends (suc (length s'.rest)) (after a s'))
      → (b : Bool) → c s ≡ b
      → Ends (suc (length s.rest)) (elim b [ true ↦ continue (body a s) after | false ↦ ok a s ])
  round-Ends a s after l later true e =
      Ends-continue ((h a).at s l e) λ b s' l'. Ends-mono (omega arith) (later b s' l')
  round-Ends a s after l later false e = done (omega arith)

  pub while_loop-Ends :
      (f : ℕ) (a : A) (s : Stream)
      → length s.rest ≤ k
      → length s.rest < f
      → Ends (suc (length s.rest)) (while_loop f c body a s)
  unfolding while_loop
  while_loop-Ends (suc f) a s l w =
      round-Ends a s (while_loop f c body) l
        (λ b s' l'. while_loop-Ends f b s' (omega arith) (omega arith)) (c s) refl
  while_loop-Ends zero a s l w = absurd (omega arith)

  pub Keeps-while_do : (a : A) → Keeps k (while_do c body a)
  unfolding while_do
  Keeps-while_do a = record {
    at = λ s l. while_loop-Ends (suc (suc (length s.rest))) a s l (omega arith);
  }

module _ {c d : Test} where
  pub Excludes-or : Excludes c → Excludes d → Excludes (λ s. c s || d s)
  Excludes-or hc hd = record {
    at = λ s e. elim (Bool-cases (c s)) [ inl q ↦ hc.at s q | inr q ↦ hd.at s (ground arith) ];
  }

  pub Excludes-either : Excludes c → Excludes d → Excludes (either c d)
  unfolding either
  Excludes-either = Excludes-or

pub Excludes-guarded : {c : Test} (d : Test) → Excludes c → Excludes (λ s. c s && d s)
Excludes-guarded d hc = record { at = λ s e. hc.at s (ground arith) }

-- Rules for the functions that do not call back into the parser; a function has its own rules beside
-- it.
pub ruleset progress = (
  Keeps-lt, Keeps-pure, Keeps-require, Keeps-skip, Keeps-consume, Eats-raise, Eats-raise_at,
  Eats-assert_false, EatsOn-consume, EatsOn-lt, EatsOn-then, EatsOn-bind, EatsOn-when,
  Eats-assert_on, Eats-when, Eats-if, Eats-then, Eats-then_later, Eats-bind, Eats-later, Keeps-then,
  Keeps-bind, Keeps-when, Keeps-assert_on, Keeps-if, Keeps-while_do, Keeps-set_runtime, Excludes-on,
  Excludes-either, Excludes-guarded, Eats-Keeps, Eats-EatsOn, refl,
)
