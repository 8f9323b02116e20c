-- ===== src/Parser/Speculation.antt =====
-- Speculations on type specifications, compared with the parse that follows.
use peryan.Ast.{TypeSpec}
use peryan.Parser.Specs.{
  spec_head, members, type_spec_round, parse_type_spec_loop, parse_type_spec, is_success,
  speculate_type_spec,
}
use peryan.Parser.Stream.{
  Stream, P, Parsed, ok, throws, asserts, out_of_fuel, continue, ◌>>=◌, ◌>>◌, pure, Test, when,
  while_loop, while_do, Message,
}
use peryan.Prelude.{ℕ, zero, suc, Bool, true, false, ◌≡◌, ◌↔◌, refl, length, arith}

-- Both return with the same tokens left, or both end in the same error.
data SameEnd {A B : Type 0} : Parsed A → Parsed B → Type 0 where
  both : {a : A} {b : B} {s : Stream} → SameEnd (ok a s) (ok b s)
  both_throw : {pos : ℕ} {m : Message} → SameEnd (throws pos m) (throws pos m)
  both_assert : SameEnd asserts asserts
  both_stop : SameEnd out_of_fuel out_of_fuel

record Same {A B : Type 0} (p : P A) (q : P B) : Type 0 where
  at : (s : Stream) → SameEnd (p s) (q s)

SameEnd-refl : {A : Type 0} (o : Parsed A) → SameEnd o o
SameEnd-refl (ok a s) = both
SameEnd-refl (throws pos m) = both_throw
SameEnd-refl asserts = both_assert
SameEnd-refl out_of_fuel = both_stop

Same-refl : {A : Type 0} (p : P A) → Same p p
Same-refl p = record { at = λ s. SameEnd-refl (p s) }

SameEnd-continue :
    {A B C D : Type 0} {o : Parsed A} {o' : Parsed B} {f : A → P C} {g : B → P D}
    → SameEnd o o'
    → ((a : A) (b : B) → Same (f a) (g b))
    → SameEnd (continue o f) (continue o' g)
SameEnd-continue (both {a = a} {b = b} {s = s}) h = (h a b).at s
SameEnd-continue both_throw h = both_throw
SameEnd-continue both_assert h = both_assert
SameEnd-continue both_stop h = both_stop

module _ {A B C D : Type 0} {p : P A} {q : P B} where
  Same-bind :
      {f : A → P C} {g : B → P D}
      → Same p q
      → ((a : A) (b : B) → Same (f a) (g b))
      → Same (p >>= f) (q >>= g)
  unfolding ◌>>=◌
  Same-bind h k = record { at = λ s. SameEnd-continue (h.at s) k }

  Same-then : {p' : P C} {q' : P D} → Same p q → Same p' q' → Same (p >> p') (q >> q')
  unfolding ◌>>◌
  Same-then h k = record { at = λ s. SameEnd-continue (h.at s) λ a b. k }

module _ {A B : Type 0} where
  Same-pure : (a : A) (b : B) → Same (pure a) (pure b)
  unfolding pure
  Same-pure a b = record { at = λ s. both }

  Same-when :
      (c : Test) {p p' : P A} {q q' : P B}
      → Same p q
      → Same p' q'
      → Same (when c p p') (when c q q')
  unfolding when
  Same-when c {p = p} {p' = p'} {q = q} {q' = q'} h k = record { at = λ s. by_test s (c s) }
    where
      by_test :
          (s : Stream) (b : Bool)
          → SameEnd {A = A} {B = B}
              (elim b [ true ↦ p s | false ↦ p' s ])
              (elim b [ true ↦ q s | false ↦ q' s ])
      by_test s true = h.at s
      by_test s false = k.at s

  module _ (c : Test) {body : A → P A} {body' : B → P B}
      (h : (a : A) (b : B) → Same (body a) (body' b)) where
    Same-while_loop :
        (f : ℕ) (a : A) (b : B) → Same (while_loop f c body a) (while_loop f c body' b)
    unfolding while_loop
    Same-while_loop zero a b = record { at = λ s. both_stop }
    Same-while_loop (suc f) a b = record {
      at = λ s. by_test s (c s) (λ a b. Same-while_loop f a b);
    }
      where
        by_test :
            (s : Stream) (t : Bool)
            → ((a : A) (b : B) → Same (while_loop f c body a) (while_loop f c body' b))
            → SameEnd {A = A} {B = B}
                (elim t [ true ↦ continue (body a s) (while_loop f c body) | false ↦ ok a s ])
                (elim t [ true ↦ continue (body' b s) (while_loop f c body') | false ↦ ok b s ])
        by_test s true k = SameEnd-continue ((h a b).at s) k
        by_test s false k = both

    Same-while_do : (a : A) (b : B) → Same (while_do c body a) (while_do c body' b)
    unfolding while_do
    Same-while_do a b = record { at = λ s. (Same-while_loop (suc (suc (length s.rest))) a b).at s }

ruleset same = (Same-bind, Same-then, Same-pure, Same-when, Same-while_do, Same-refl)

spec_head-Same :
    {p q : P TypeSpec} (c r c' r' : Bool)
    → Same p q
    → Same (spec_head true p c r) (spec_head false q c' r')
unfolding spec_head
spec_head-Same c r c' r' h = search same depth 14

members-Same :
    (c r c' r' : Bool) (spec spec' : TypeSpec)
    → Same (members true c r spec) (members false c' r' spec')
unfolding members
members-Same c r c' r' spec spec' = search same depth 14

type_spec_round-Same :
    {p q : P TypeSpec} → Same p q → Same (type_spec_round true p) (type_spec_round false q)
unfolding type_spec_round
type_spec_round-Same h = search (same, spec_head-Same, members-Same) depth 14

parse_type_spec_loop-Same :
    (f : ℕ) → Same (parse_type_spec_loop true f) (parse_type_spec_loop false f)
unfolding parse_type_spec_loop
parse_type_spec_loop-Same zero = record { at = λ s. both_stop }
parse_type_spec_loop-Same (suc f) = record {
  at = (type_spec_round-Same (parse_type_spec_loop-Same f)).at;
}

parse_type_spec-Same : Same (parse_type_spec true) (parse_type_spec false)
unfolding parse_type_spec
parse_type_spec-Same = record { at = λ s. (parse_type_spec_loop-Same (suc (length s.rest))).at s }

is_success-SameEnd :
    (s : Stream) {o o' : Parsed TypeSpec}
    → SameEnd o o'
    → (is_success s o ≡ ok true s) ↔ ((spec : TypeSpec) × (s' : Stream) × (o' ≡ ok spec s'))
is_success-SameEnd s (both {b = b} {s = s'}) = ((λ e. (b, s', refl)), (λ e. refl))
is_success-SameEnd s both_throw =
    ((λ e. absurd (ground (arith, e))), (λ (spec, s', e). absurd (ground (arith, e))))
is_success-SameEnd s both_assert =
    ((λ e. absurd (ground (arith, e))), (λ (spec, s', e). absurd (ground (arith, e))))
is_success-SameEnd s both_stop =
    ((λ e. absurd (ground (arith, e))), (λ (spec, s', e). absurd (ground (arith, e))))

-- Before any tokens, the speculation says that a type specification follows, and leaves the tokens as
-- they are, exactly where `parseTypeSpec` outside a speculation returns a type specification.
pub speculate_type_spec_lem :
    (s : Stream)
    → (speculate_type_spec s ≡ ok true s)
      ↔ ((spec : TypeSpec) × (s' : Stream) × (parse_type_spec false s ≡ ok spec s'))
unfolding speculate_type_spec
speculate_type_spec_lem s = is_success-SameEnd s (parse_type_spec-Same.at s)
