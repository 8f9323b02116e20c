-- ===== src/SymbolResolver/Denotes/Decision.antt =====
-- The visits of the type specifications in src/SymbolResolver.cc against what written types mean.
use peryan.Ast.{TypeSpec}
use peryan.Prelude.{ℕ, List, ◌∷◌, some, ◌≡◌, ◌⊎◌, inl, inr, refl}
use peryan.Scopes.Meaning.{Resolves-unique}
use peryan.Scopes.{Scope, Symbol}
use peryan.SymbolRegister.{State}
use peryan.SymbolResolver.Annotated.{IsSpec}
use peryan.SymbolResolver.Denotes.{
  Denotes, IsType, Meant, Says, denotes_array, denotes_func, denotes_member, denotes_named, fails,
  is_builtin, is_namespace, look_up-Resolves, says, throws_error, visit_spec-Says,
}
use peryan.SymbolResolver.Ends.{Fits}
use peryan.SymbolResolver.Spellings.{WithModifiers-modified, builtin_named-spelling}
use peryan.SymbolResolver.Specs.{
  found_member, member_symbol_type, member_type, named_type, type_of_symbol, visit_spec,
}
use peryan.SymbolResolver.{Message, Outcome, asserts, ok, throws}
use peryan.Scopes.{resolve_member}
use peryan.Token.{text_of}
use peryan.Types.{TypePtr}

type_of_symbol-IsType :
    (st : State) (s : Symbol) (type : TypePtr)
    → IsType s type
    → type_of_symbol s.symbol_type s st ≡ ok type st
unfolding type_of_symbol
type_of_symbol-IsType st s type (is_builtin {b = b} q e) = simp (q, e, builtin_named-spelling b)
type_of_symbol-IsType st s type (is_namespace q e) = simp (q, e)

module _ (base : List Scope) (st : State) (scope : ℕ) (below : List ℕ) (g : Fits base st)
    (stacked : st.stack ≡ scope ∷ below) where
  visit_spec-Denotes :
      {spec : TypeSpec} {type : TypePtr}
      → Denotes st.store scope spec type
      → visit_spec spec st ≡ ok type st
  unfolding visit_spec named_type member_type found_member member_symbol_type resolve_member
  visit_spec-Denotes (denotes_named {t = t} {s = s} {type = type} means is_type modifiers) =
      let (found, e, means') =
        look_up-Resolves scope below (text_of t.payload) t.position g stacked in
      let same : found ≡ some s =
        Resolves-unique st.store (text_of t.payload) t.position means' means in
      simp (e, same, type_of_symbol-IsType st s type is_type, WithModifiers-modified modifiers)
  visit_spec-Denotes (denotes_member {s = s} d e m q h) = simp (visit_spec-Denotes d, e, m, q, h)
  visit_spec-Denotes (denotes_array d modifiers) =
      simp (visit_spec-Denotes d, WithModifiers-modified modifiers)
  visit_spec-Denotes (denotes_func d d' modifiers) =
      simp (visit_spec-Denotes d, visit_spec-Denotes d', WithModifiers-modified modifiers)

  -- A type specification is visited in a state that fits the pass, with a scope on top of the stack.
  -- Where it denotes a type there (a name means what it resolves to, and must be a built-in type or a
  -- namespace), the visit returns that type and changes nothing; where it denotes none, the visit
  -- ends with a SemanticsError or a failed assertion. No null pointer is used.
  pub visit_spec_decides :
      (spec : TypeSpec)
      → IsSpec spec
      → ((type : TypePtr) × Denotes st.store scope spec type × (visit_spec spec st ≡ ok type st))
        ⊎ ((type : TypePtr) → ¬ Denotes st.store scope spec type)
          × (((pos : ℕ) × (m : Message) × (visit_spec spec st ≡ throws pos m))
              ⊎ (visit_spec spec st ≡ asserts))
  visit_spec_decides spec h =
      by_outcome (visit_spec spec st) refl (visit_spec-Says base st scope below g stacked spec h)
    where
      by_outcome :
          (o : Outcome TypePtr)
          → visit_spec spec st ≡ o
          → Says (Meant base st scope below g stacked spec) st o
          → ((type : TypePtr) × Denotes st.store scope spec type
              × (visit_spec spec st ≡ ok type st))
            ⊎ ((type : TypePtr) → ¬ Denotes st.store scope spec type)
              × (((pos : ℕ) × (m : Message) × (visit_spec spec st ≡ throws pos m))
                  ⊎ (visit_spec spec st ≡ asserts))
      by_outcome _ e (says {type = type} (d, k)) = inl (type, d, e)
      by_outcome _ e (throws_error {pos = pos} {m = m}) =
          inr (λ type d. cc (visit_spec-Denotes d), inl (pos, m, e))
      by_outcome _ e fails = inr (λ type d. cc (visit_spec-Denotes d), inr e)
