-- ===== src/Parser/RoundTrip.antt =====
-- How `parseTypeSpec` reads type specifications that have been written.
pub mod Parentheses
use peryan.Ast.{TypeSpec, member_spec}
use peryan.Parser.Specs.{
  clear_first, modifiers, spec_head, is_member, members, type_spec_round, parse_type_spec_loop,
  parse_type_spec,
}
use peryan.Parser.Steps.{bind-ok, when-false, while_loop-goes_on, while_loop-stops}
use peryan.Parser.Stream.{
  Stream, P, Parsed, ok, continue, ◌>>=◌, ◌>>◌, pure, token_at, lt, consume, on, either, when,
  require, while_loop, while_do, Test,
}
use peryan.Prelude.{
  ℕ, zero, suc, ◌≤◌, ◌<◌, Bool, true, false, ◌||◌, List, [], ◌∷◌, Option, ◌≡◌, refl, ap, ◌∙◌,
  length, arith,
}
use peryan.Parser.Written.{
  typed, Text, Head, written_modifiers, written_members, written, written_head, with_members, tree,
  head_tree, depth, head_depth, written_longer, modifiers_longer, Modifier, a_const, a_ref,
  has_const, has_ref, simple, arrow, name, array,
}
use peryan.Token.{Token, TokenType, TokenData}

or-true : (b : Bool) → (b || true) ≡ true
or-true true = refl
or-true false = refl

or-false : (b : Bool) → (b || false) ≡ b
or-false true = refl
or-false false = refl

-- The test and the body of the loop over modifiers.
abbrev pub is_modifier : Test
is_modifier = either (on TokenType.kw_const) (on TokenType.kw_ref)

abbrev modifiers_round : Bool × Bool → P (Bool × Bool)
modifiers_round = λ (is_const, is_ref).
    when (on TokenType.kw_const) (consume 1 >> pure (true, is_ref))
      (consume 1 >> pure (is_const, true))

-- Taking the modifiers off what the members were added to.
clear_first-members :
    (c r : Bool) (spec : TypeSpec) (ms : List ((TokenData × ℕ) × (TokenData × ℕ)))
    → clear_first (with_members c r spec ms) ≡ with_members c r (clear_first spec) ms
clear_first-members c r spec [] = refl
clear_first-members c r spec ((d, n) ∷ ms) =
    clear_first-members c r
      (member_spec spec (typed TokenType.dot d) (typed TokenType.type_id n) c r) ms

clear_first-head : (c r : Bool) (h : Head) → clear_first (head_tree c r h) ≡ head_tree false false h
unfolding tree
clear_first-head c r (name n) = refl
clear_first-head c r (array o cl t) = refl

abbrev members_round : Bool → Bool → TypeSpec → P TypeSpec
members_round c r spec =
    lt 0 >>= λ token. lt 1 >>= λ rhs. consume 2 >> pure (member_spec spec token rhs c r)

module _ (e : ℕ) (rt : Option Token) where
  abbrev pub st : List Token → Stream
  st ts = record { rest = ts; end_pos = e; runtime = rt }

  is_modifier-const :
      (d : TokenData × ℕ) (ts : List Token)
      → is_modifier (st (typed TokenType.kw_const d ∷ ts)) ≡ true
  unfolding either on token_at
  is_modifier-const d ts = refl

  is_modifier-ref :
      (d : TokenData × ℕ) (ts : List Token)
      → is_modifier (st (typed TokenType.kw_ref d ∷ ts)) ≡ true
  unfolding either on token_at
  is_modifier-ref d ts = refl

  modifiers_round-const :
      (c r : Bool) (d : TokenData × ℕ) (ts : List Token)
      → modifiers_round (c, r) (st (typed TokenType.kw_const d ∷ ts)) ≡ ok (true, r) (st ts)
  unfolding when on token_at consume pure ◌>>◌
  modifiers_round-const c r d ts = refl

  modifiers_round-ref :
      (c r : Bool) (d : TokenData × ℕ) (ts : List Token)
      → modifiers_round (c, r) (st (typed TokenType.kw_ref d ∷ ts)) ≡ ok (c, true) (st ts)
  unfolding when on token_at consume pure ◌>>◌
  modifiers_round-ref c r d ts = refl

  modifiers_loop-written :
      (f : ℕ) (c r : Bool) (mods : List Modifier) (ts : List Token)
      → is_modifier (st ts) ≡ false
      → length mods < f
      → while_loop f is_modifier modifiers_round (c, r) (st (written_modifiers mods ts))
        ≡ ok (c || has_const mods, r || has_ref mods) (st ts)
  modifiers_loop-written zero c r mods ts q l = absurd (omega arith)
  modifiers_loop-written (suc f) c r [] ts q l =
      rw (or-false c, or-false r) (while_loop-stops f is_modifier _ (c, r) (st ts) q)
  modifiers_loop-written (suc f) c r (a_const d ∷ mods) ts q l =
      while_loop-goes_on f is_modifier _ (c, r) _ (is_modifier-const d (written_modifiers mods ts))
        (modifiers_round-const c r d (written_modifiers mods ts))
      ∙ modifiers_loop-written f true r mods ts q (omega arith)
      ∙ rw (or-true c) refl
  modifiers_loop-written (suc f) c r (a_ref d ∷ mods) ts q l =
      while_loop-goes_on f is_modifier _ (c, r) _ (is_modifier-ref d (written_modifiers mods ts))
        (modifiers_round-ref c r d (written_modifiers mods ts))
      ∙ modifiers_loop-written f c true mods ts q (omega arith)
      ∙ rw (or-true r) refl

  -- All modifiers in front of something else are read.
  pub modifiers-written :
      (mods : List Modifier) (ts : List Token)
      → is_modifier (st ts) ≡ false
      → modifiers (st (written_modifiers mods ts)) ≡ ok (has_const mods, has_ref mods) (st ts)
  unfolding modifiers while_do
  modifiers-written mods ts q =
      modifiers_loop-written (suc (suc (length (written_modifiers mods ts)))) false false mods ts q
        (omega (arith, modifiers_longer mods ts))

  is_modifier-head : (h : Head) (ts : List Token) → is_modifier (st (written_head h ts)) ≡ false
  unfolding either on token_at written
  is_modifier-head (name n) ts = refl
  is_modifier-head (array o c t) ts = refl

  spec_head-name :
      (p : P TypeSpec) (c r : Bool) (n : TokenData × ℕ) (ts : List Token)
      → spec_head false p c r (st (written_head (name n) ts))
        ≡ ok (head_tree c r (name n), true) (st ts)
  unfolding spec_head written tree on token_at when consume pure lt ◌>>◌ ◌>>=◌
  spec_head-name p c r n ts = refl

  spec_head-array :
      (p : P TypeSpec) (c r : Bool) (o cl : TokenData × ℕ) (t : Text) (ts : List Token)
      → p (st (written t (typed TokenType.rbrack cl ∷ ts)))
        ≡ ok (tree t) (st (typed TokenType.rbrack cl ∷ ts))
      → spec_head false p c r (st (written_head (array o cl t) ts))
        ≡ ok (head_tree c r (array o cl t), true) (st ts)
  unfolding spec_head written tree on token_at when consume pure lt require ◌>>◌ ◌>>=◌
  spec_head-array p c r o cl t ts q = rw q refl

  is_member-written :
      (d n : TokenData × ℕ) (ms : List ((TokenData × ℕ) × (TokenData × ℕ))) (ts : List Token)
      → is_member (st (written_members ((d, n) ∷ ms) ts)) ≡ true
  unfolding is_member on token_at
  is_member-written d n ms ts = refl

  members_round-written :
      (c r : Bool) (spec : TypeSpec) (d n : TokenData × ℕ)
      (ms : List ((TokenData × ℕ) × (TokenData × ℕ))) (ts : List Token)
      → members_round c r spec (st (written_members ((d, n) ∷ ms) ts))
        ≡ ok
            (member_spec spec (typed TokenType.dot d) (typed TokenType.type_id n) c r)
            (st (written_members ms ts))
  unfolding token_at ◌>>=◌ ◌>>◌ lt consume pure
  members_round-written c r spec d n ms ts = refl

  members_loop-written :
      (f : ℕ) (c r : Bool) (spec : TypeSpec) (ms : List ((TokenData × ℕ) × (TokenData × ℕ)))
      (ts : List Token)
      → is_member (st ts) ≡ false
      → length ms < f
      → while_loop f is_member (members_round c r) spec (st (written_members ms ts))
        ≡ ok (with_members c r spec ms) (st ts)
  members_loop-written (suc f) c r spec [] ts q l = while_loop-stops f is_member _ spec (st ts) q
  members_loop-written (suc f) c r spec ((d, n) ∷ ms) ts q l =
      while_loop-goes_on f is_member _ spec _ (is_member-written d n ms ts)
        (members_round-written c r spec d n ms ts)
      ∙ members_loop-written f c r _ ms ts q (omega arith)
  members_loop-written zero c r spec ms ts q l = absurd (omega arith)

  length-written_members :
      (ms : List ((TokenData × ℕ) × (TokenData × ℕ))) (ts : List Token)
      → length ms ≤ length (written_members ms ts)
  length-written_members [] ts = omega arith
  length-written_members ((d, n) ∷ ms) ts = omega (arith, length-written_members ms ts)

  members-written :
      (c r : Bool) (spec : TypeSpec) (ms : List ((TokenData × ℕ) × (TokenData × ℕ)))
      (ts : List Token)
      → is_member (st ts) ≡ false
      → members false c r spec (st (written_members ms ts)) ≡ ok (with_members c r spec ms) (st ts)
  unfolding members while_do
  members-written c r spec ms ts q =
      members_loop-written (suc (suc (length (written_members ms ts)))) c r spec ms ts q
        (omega (arith, length-written_members ms ts))

  -- What stands behind a text must not be read as a part of it.
  pub record Follows (ts : List Token) : Type 0 where
    pub no_member : is_member (st ts) ≡ false
    pub no_arrow : on TokenType.rarrow (st ts) ≡ false

  abbrev Reads : ℕ → P TypeSpec → Type 0
  Reads k p =
      (t : Text) (ts : List Token)
      → depth t ≤ k
      → Follows ts
      → p (st (written t ts)) ≡ ok (tree t) (st ts)

  Follows-rbrack : (c : TokenData × ℕ) (ts : List Token) → Follows (typed TokenType.rbrack c ∷ ts)
  unfolding is_member on token_at
  Follows-rbrack c ts = record { no_member = refl; no_arrow = refl }

  is_member-rarrow :
      (a : TokenData × ℕ) (ts : List Token) → is_member (st (typed TokenType.rarrow a ∷ ts)) ≡ false
  unfolding is_member on token_at
  is_member-rarrow a ts = refl

  head-written :
      {k : ℕ} (p : P TypeSpec) (c r : Bool) (h : Head) (ts : List Token)
      → Reads k p
      → head_depth h ≤ k
      → spec_head false p c r (st (written_head h ts)) ≡ ok (head_tree c r h, true) (st ts)
  unfolding depth
  head-written p c r (name n) ts ih l = spec_head-name p c r n ts
  head-written p c r (array o cl t) ts ih l =
      spec_head-array p c r o cl t ts
        (ih t (typed TokenType.rbrack cl ∷ ts) l (Follows-rbrack cl ts))

  module _ {k : ℕ} (p : P TypeSpec) (ih : Reads k p) where
    simple-written :
        (mods : List Modifier) (h : Head) (ms : List ((TokenData × ℕ) × (TokenData × ℕ)))
        (ts : List Token)
        → head_depth h ≤ k
        → Follows ts
        → type_spec_round false p (st (written (simple mods h ms) ts))
          ≡ ok (tree (simple mods h ms)) (st ts)
    unfolding type_spec_round written tree pure
    simple-written mods h ms ts l follows =
        let c = has_const mods in
        let r = has_ref mods in
        bind-ok modifiers _ (modifiers-written mods _ (is_modifier-head h (written_members ms ts)))
        ∙ bind-ok _ _ (head-written p c r h (written_members ms ts) ih l)
        ∙ bind-ok _ _ (members-written c r (head_tree c r h) ms ts follows.no_member)
        ∙ when-false _ _ _ (st ts) follows.no_arrow

    arrow-written :
        (mods : List Modifier) (h : Head) (ms : List ((TokenData × ℕ) × (TokenData × ℕ)))
        (a : TokenData × ℕ) (t : Text) (ts : List Token)
        → head_depth h ≤ k
        → depth t ≤ k
        → Follows ts
        → type_spec_round false p (st (written (arrow mods h ms a t) ts))
          ≡ ok (tree (arrow mods h ms a t)) (st ts)
    unfolding type_spec_round written tree pure when on token_at consume ◌>>◌
    arrow-written mods h ms a t ts l l' follows =
        let after = typed TokenType.rarrow a ∷ written t ts in
        let c = has_const mods in
        let r = has_ref mods in
        bind-ok modifiers _
          (modifiers-written mods _ (is_modifier-head h (written_members ms after)))
        ∙ bind-ok _ _ (head-written p c r h (written_members ms after) ih l)
        ∙ bind-ok _ _
            (members-written c r (head_tree c r h) ms after (is_member-rarrow a (written t ts)))
        ∙ bind-ok p _ (ih t ts l' follows)
        ∙ rw (clear_first-members c r (head_tree c r h) ms, clear_first-head c r h) refl

  loop-written : (f : ℕ) → Reads f (parse_type_spec_loop false f)
  unfolding parse_type_spec_loop depth
  loop-written (suc f) (simple mods h ms) ts l follows =
      simple-written _ (loop-written f) mods h ms ts (omega arith) follows
  loop-written (suc f) (arrow mods h ms a t) ts l follows =
      arrow-written _ (loop-written f) mods h ms a t ts (omega arith) (omega arith) follows
  loop-written zero (simple mods h ms) ts l follows = absurd (omega arith)
  loop-written zero (arrow mods h ms a t) ts l follows = absurd (omega arith)

-- Where the tokens of a type specification stand in front of others, and neither a member nor an
-- arrow follows, `parseTypeSpec` outside a speculation returns the tree of the specification and
-- leaves the others: names, arrays, members and function types at any depth, with any `const` and
-- `ref` in any order in front of names and arrays. The modifiers in front of a function type are
-- those of the function type, and of members in its parameter, but not of the name or array that the
-- parameter begins with.
pub parse_type_spec-written :
    (t : Text) (rest : List Token) (e : ℕ) (runtime : Option Token)
    → Follows e runtime rest
    → parse_type_spec false (record { rest = written t rest; end_pos = e; runtime = runtime })
      ≡ ok (tree t) (record { rest = rest; end_pos = e; runtime = runtime })
unfolding parse_type_spec
parse_type_spec-written t rest e runtime follows =
    loop-written e runtime (suc (length (written t rest))) t rest
      (omega (arith, written_longer t rest)) follows
