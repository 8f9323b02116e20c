-- ===== src/Parser/Progress/Specs.antt =====
-- Taking tokens: type specifications, identifiers and labels.
use peryan.Ast.{TypeSpec}
use peryan.Parser.Progress.{Excludes-on, Ends, done, threw, asserted, Keeps, Eats, Excludes}
use peryan.Parser.Progress.Rules.{progress, Excludes-guarded}
use peryan.Parser.Specs.{
  is_member, modifiers, spec_head, type_spec_round, members, parse_type_spec_loop, parse_type_spec,
  speculate_type_spec, is_success, parse_identifier, parse_label,
}
use peryan.Parser.Stream.{on, la, Stream, P, Parsed}
use peryan.Prelude.{ℕ, zero, suc, Bool, true, ◌<◌, arith, refl, length}
use peryan.Token.{TokenType, is_type}

modifiers-Keeps : {k : ℕ} → Keeps k modifiers
unfolding modifiers
modifiers-Keeps = search progress depth 14

Excludes-is_member : Excludes is_member
unfolding is_member on
Excludes-is_member =
    Excludes-guarded (λ s. is_type (la 1 s) TokenType.type_id) (Excludes-on TokenType.dot refl)

members-Keeps :
    {k : ℕ} (speculating is_const is_ref : Bool) (spec : TypeSpec)
    → Keeps k (members speculating is_const is_ref spec)
unfolding members
members-Keeps speculating is_const is_ref spec = search (progress, Excludes-is_member) depth 14

spec_head-Eats :
    {k : ℕ} (speculating is_const is_ref : Bool) (p : P TypeSpec)
    → ((m : ℕ) → m < k → Eats m p)
    → Eats k (spec_head speculating p is_const is_ref)
unfolding spec_head
spec_head-Eats speculating is_const is_ref p h = search (progress, h) depth 14

pub parse_identifier-Eats : {k : ℕ} → Eats k parse_identifier
unfolding parse_identifier
parse_identifier-Eats = search progress depth 14

pub parse_label-Eats : {k : ℕ} → Eats k parse_label
unfolding parse_label
parse_label-Eats = search progress depth 14

type_spec_round-Eats :
    {k : ℕ} (speculating : Bool) (p : P TypeSpec)
    → ((m : ℕ) → m < k → Eats m p)
    → Eats k (type_spec_round speculating p)
unfolding type_spec_round
type_spec_round-Eats speculating p h =
    search (progress, modifiers-Keeps, members-Keeps, spec_head-Eats, h) depth 14

-- The fuel is enough where there are fewer tokens than it.
parse_type_spec_loop-Eats :
    (speculating : Bool) (f : ℕ) {k : ℕ} → k < f → Eats k (parse_type_spec_loop speculating f)
unfolding parse_type_spec_loop
parse_type_spec_loop-Eats speculating (suc f) h = record {
  at =
      (type_spec_round-Eats speculating _
        λ m l. parse_type_spec_loop-Eats speculating f (omega arith)).at;
}
parse_type_spec_loop-Eats speculating zero h = absurd (omega arith)

pub parse_type_spec-Eats : {k : ℕ} (speculating : Bool) → Eats k (parse_type_spec speculating)
unfolding parse_type_spec
parse_type_spec-Eats speculating = record {
  at = λ s l.
      (parse_type_spec_loop-Eats speculating (suc (length s.rest)) {k = length s.rest}
          (omega arith)).at
        s (omega arith);
}

-- The mark is released: the same tokens are left.
is_success-Ends :
    {n : ℕ} (s : Stream) {o : Parsed TypeSpec}
    → Ends n o
    → Ends (suc (length s.rest)) (is_success s o)
is_success-Ends s (done h) = done (omega arith)
is_success-Ends s threw = done (omega arith)
is_success-Ends s asserted = asserted

pub speculate_type_spec-Keeps : {k : ℕ} → Keeps k speculate_type_spec
unfolding speculate_type_spec
speculate_type_spec-Keeps = record {
  at = λ s l. is_success-Ends s ((parse_type_spec-Eats true).at s l);
}
