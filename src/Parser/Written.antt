-- ===== src/Parser/Written.antt =====
-- Type specifications as they are written, and the trees that they stand for.
use peryan.Ast.{TypeSpec, named, member_spec, array_spec, func_spec}
use peryan.Prelude.{ℕ, ◌+◌, ◌≤◌, Bool, true, false, List, [], ◌∷◌, length, arith}
use peryan.Token.{Token, TokenType, TokenData}

-- A token of a given type.
abbrev pub typed : TokenType → TokenData × ℕ → Token
typed t (d, n) = record { type = t; payload = d; position = n }

-- A modifier, with the data and the position of its token.
pub data Modifier : Type 0 where
  a_const a_ref : TokenData × ℕ → Modifier

-- A type specification as it is written: modifiers in any order, a name or an array of a specification, members of
-- it, and perhaps an arrow and a further specification. Each token has its data and its position.
mutual
  pub data Text : Type 0 where
    simple : List Modifier → Head → List ((TokenData × ℕ) × (TokenData × ℕ)) → Text
    arrow :
        List Modifier
        → Head
        → List ((TokenData × ℕ) × (TokenData × ℕ))
        → TokenData × ℕ
        → Text
        → Text

  pub data Head : Type 0 where
    name : TokenData × ℕ → Head
    array : (lbrack rbrack : TokenData × ℕ) → Text → Head

abbrev pub written_modifiers : List Modifier → List Token → List Token
written_modifiers [] ts = ts
written_modifiers (a_const d ∷ ms) ts = typed TokenType.kw_const d ∷ written_modifiers ms ts
written_modifiers (a_ref d ∷ ms) ts = typed TokenType.kw_ref d ∷ written_modifiers ms ts

-- Whether one of the modifiers is `const`, or `ref`.
abbrev pub has_const : List Modifier → Bool
has_const [] = false
has_const (a_const d ∷ ms) = true
has_const (a_ref d ∷ ms) = has_const ms

abbrev pub has_ref : List Modifier → Bool
has_ref [] = false
has_ref (a_const d ∷ ms) = has_ref ms
has_ref (a_ref d ∷ ms) = true

abbrev pub written_members : List ((TokenData × ℕ) × (TokenData × ℕ)) → List Token → List Token
written_members [] ts = ts
written_members ((d, n) ∷ ms) ts =
    typed TokenType.dot d ∷ typed TokenType.type_id n ∷ written_members ms ts

-- The tokens of a text, in front of others.
unfoldable mutual
  pub written : Text → List Token → List Token
  written (simple mods h ms) ts = written_modifiers mods (written_head h (written_members ms ts))
  written (arrow mods h ms a t) ts =
      written_modifiers mods
        (written_head h (written_members ms (typed TokenType.rarrow a ∷ written t ts)))

  pub written_head : Head → List Token → List Token
  written_head (name n) ts = typed TokenType.type_id n ∷ ts
  written_head (array o c t) ts =
      typed TokenType.lbrack o ∷ written t (typed TokenType.rbrack c ∷ ts)

abbrev pub with_members :
    Bool → Bool → TypeSpec → List ((TokenData × ℕ) × (TokenData × ℕ)) → TypeSpec
with_members c r spec [] = spec
with_members c r spec ((d, n) ∷ ms) =
    with_members c r (member_spec spec (typed TokenType.dot d) (typed TokenType.type_id n) c r) ms

-- The tree that it stands for. The modifiers in front of a function type are those of the function, and
-- not of the name or array that its parameter begins with.
unfoldable mutual
  pub tree : Text → TypeSpec
  tree (simple mods h ms) =
      with_members (has_const mods) (has_ref mods) (head_tree (has_const mods) (has_ref mods) h) ms
  tree (arrow mods h ms a t) =
      func_spec (has_const mods) (has_ref mods)
        (with_members (has_const mods) (has_ref mods) (head_tree false false h) ms) (tree t)

  pub head_tree : Bool → Bool → Head → TypeSpec
  head_tree c r (name n) = named (typed TokenType.type_id n) c r
  head_tree c r (array o cl t) = array_spec c r (tree t)

-- How deep the texts are nested.
unfoldable mutual
  pub depth : Text → ℕ
  depth (simple mods h ms) = head_depth h + 1
  depth (arrow mods h ms a t) = head_depth h + depth t + 1

  pub head_depth : Head → ℕ
  head_depth (name n) = 0
  head_depth (array o c t) = depth t

pub modifiers_longer :
    (mods : List Modifier) (ts : List Token)
    → length mods + length ts ≤ length (written_modifiers mods ts)
modifiers_longer [] ts = omega arith
modifiers_longer (a_const d ∷ mods) ts = omega (arith, modifiers_longer mods ts)
modifiers_longer (a_ref d ∷ mods) ts = omega (arith, modifiers_longer mods ts)

members_longer :
    (ms : List ((TokenData × ℕ) × (TokenData × ℕ))) (ts : List Token)
    → length ts ≤ length (written_members ms ts)
members_longer [] ts = omega arith
members_longer ((d, n) ∷ ms) ts = omega (arith, members_longer ms ts)

mutual
  unfolding written depth

  pub written_longer : (t : Text) (ts : List Token) → depth t + length ts ≤ length (written t ts)
  written_longer (simple mods h ms) ts = omega (
    arith,
    modifiers_longer mods (written_head h (written_members ms ts)),
    head_longer h (written_members ms ts),
    members_longer ms ts,
  )
  written_longer (arrow mods h ms a t) ts = omega (
    arith,
    modifiers_longer mods
        (written_head h (written_members ms (typed TokenType.rarrow a ∷ written t ts))),
    head_longer h (written_members ms (typed TokenType.rarrow a ∷ written t ts)),
    members_longer ms (typed TokenType.rarrow a ∷ written t ts),
    written_longer t ts,
  )

  head_longer :
      (h : Head) (ts : List Token) → head_depth h + 1 + length ts ≤ length (written_head h ts)
  head_longer (name n) ts = omega arith
  head_longer (array o c t) ts = omega (arith, written_longer t (typed TokenType.rbrack c ∷ ts))
