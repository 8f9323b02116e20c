-- ===== src/Parser/RoundTrip/Parentheses.antt =====
-- Type specifications in parentheses.
use peryan.Ast.{TypeSpec}
use peryan.Parser.Steps.{bind-ok, when-false}
use peryan.Parser.RoundTrip.{
  is_modifier, st, modifiers-written, members-written, Follows, Reads, loop-written,
}
use peryan.Parser.Specs.{
  modifiers, spec_head, is_member, type_spec_round, parse_type_spec_loop, parse_type_spec,
}
use peryan.Parser.Stream.{
  P, ok, ◌>>=◌, ◌>>◌, pure, token_at, lt, consume, on, either, when, require,
}
use peryan.Parser.Written.{
  Modifier, has_const, has_ref, Text, typed, written, written_modifiers, tree, depth,
  modifiers_longer, written_longer,
}
use peryan.Prelude.{ℕ, ◌≤◌, Bool, false, List, [], ◌∷◌, Option, ◌≡◌, refl, ◌∙◌, length, arith}
use peryan.Token.{Token, TokenType, TokenData}

abbrev pub in_parentheses : TokenData × ℕ → TokenData × ℕ → Text → List Token → List Token
in_parentheses o c t ts = typed TokenType.lparen o ∷ written t (typed TokenType.rparen c ∷ ts)

module _ (e : ℕ) (rt : Option Token) where
  is_modifier-paren :
      (o : TokenData × ℕ) (ts : List Token)
      → is_modifier (st e rt (typed TokenType.lparen o ∷ ts)) ≡ false
  unfolding either on token_at
  is_modifier-paren o ts = refl

  spec_head-paren :
      (p : P TypeSpec) (c r : Bool) (o cl : TokenData × ℕ) (t : Text) (ts : List Token)
      → p (st e rt (written t (typed TokenType.rparen cl ∷ ts)))
        ≡ ok (tree t) (st e rt (typed TokenType.rparen cl ∷ ts))
      → spec_head false p c r (st e rt (in_parentheses o cl t ts)) ≡ ok (tree t, false) (st e rt ts)
  unfolding spec_head on token_at when consume pure lt require ◌>>◌ ◌>>=◌
  spec_head-paren p c r o cl t ts q = rw q refl

  Follows-rparen :
      (c : TokenData × ℕ) (ts : List Token) → Follows e rt (typed TokenType.rparen c ∷ ts)
  unfolding is_member on token_at
  Follows-rparen c ts = record { no_member = refl; no_arrow = refl }

  round-paren :
      {k : ℕ} (p : P TypeSpec) (mods : List Modifier) (o cl : TokenData × ℕ) (t : Text)
      (ts : List Token)
      → Reads e rt k p
      → depth t ≤ k
      → Follows e rt ts
      → type_spec_round false p (st e rt (written_modifiers mods (in_parentheses o cl t ts)))
        ≡ ok (tree t) (st e rt ts)
  unfolding type_spec_round pure
  round-paren p mods o cl t ts ih l follows =
      let c = has_const mods in
      let r = has_ref mods in
      bind-ok modifiers _ (modifiers-written e rt mods _ (is_modifier-paren o _))
      ∙ bind-ok _ _ (spec_head-paren p c r o cl t ts (ih t _ l (Follows-rparen cl ts)))
      ∙ bind-ok _ _ (members-written e rt c r (tree t) [] ts follows.no_member)
      ∙ when-false _ _ _ (st e rt ts) follows.no_arrow

-- Where neither a member nor an arrow follows, a type specification in parentheses is read as the one
-- inside them, and the modifiers in front of the parentheses, however many and in whatever order, are lost.
pub parse_type_spec_drops_modifiers :
    (mods : List Modifier) (o cl : TokenData × ℕ) (t : Text) (rest : List Token) (e : ℕ)
    (runtime : Option Token)
    → Follows e runtime rest
    → parse_type_spec false (record {
      rest = written_modifiers mods (in_parentheses o cl t rest);
      end_pos = e;
      runtime = runtime;
    })
      ≡ ok (tree t) (record { rest = rest; end_pos = e; runtime = runtime })
unfolding parse_type_spec parse_type_spec_loop
parse_type_spec_drops_modifiers mods o cl t rest e runtime follows =
    round-paren e runtime _ mods o cl t rest
      (loop-written e runtime (length (written_modifiers mods inside)))
      (omega
        (arith, modifiers_longer mods inside, written_longer t (typed TokenType.rparen cl ∷ rest)))
      follows
  where
    inside : List Token
    inside = in_parentheses o cl t rest
