-- ===== src/SymbolResolver/Denotes.antt =====
-- What a written type means, and the visits of the type specifications in src/SymbolResolver.cc.
pub mod Decision
use mathlib.Core.Option.{some-injective}
use peryan.Ast.{TypeSpec, no_spec, named, member_spec, array_spec, func_spec}
use peryan.Prelude.{
  ℕ, ◌<◌, Bool, true, false, if◌then◌else◌, Bool-cases, codes, List, ◌∷◌, Option, none, some, ◌≡◌,
  ◌⊎◌, inl, inr, refl, sym, ap, ◌∙◌, subst, arith, length, Option-cases,
}
use peryan.Scopes.Resolution.{Resolves, resolve-Resolves, scope_at_below}
use peryan.Scopes.{
  SymbolType, builtin_type_symbol, namespace_symbol, Symbol, Scope, get_member, resolve,
  resolve_member, same_name, scope_at,
}
use peryan.Scopes.Definition.{same_name-eq}
use peryan.SymbolRegister.Completion.{IsLive}
use peryan.SymbolRegister.Invariants.{AreSound, AreSound-IsNested}
use peryan.SymbolRegister.{State}
use peryan.SymbolResolver.Actions.{IsFound, Resolves-IsFound, member-IsFound}
use peryan.SymbolResolver.Annotated.{IsSpec}
use peryan.SymbolResolver.Completion.{HeadExists, modified-HeadExists}
use peryan.SymbolResolver.Ends.{Fits}
use peryan.SymbolResolver.Spellings.{
  WithModifiers, builtin_named-IsSpelled, modified-WithModifiers, spelling,
}
use peryan.SymbolResolver.Specs.{
  builtin_named, found_member, member_symbol_type, member_type, modified, named_type, spec_position,
  type_of_symbol, visit_spec,
}
use peryan.SymbolResolver.Store.{IsWhole, KindIsWhole}
use peryan.SymbolResolver.{
  Message, Outcome, ok, throws, asserts, continue, M, ◌>>=◌, pure, deref, look_up, top,
}
use peryan.Token.{Token, text_of}
use peryan.Types.{
  TypePtr, Builtin, int_, string_, char_, float_, double_, bool_, void_, label_, builtin, namespace,
  modifier, array, func,
}

-- A symbol of a built-in type or of a namespace is a type.
pub data IsType (s : Symbol) : TypePtr → Type 0 where
  is_builtin :
      {b : Builtin}
      → s.symbol_type ≡ builtin_type_symbol
      → s.name ≡ spelling b
      → IsType s (builtin b)
  is_namespace :
      {id : ℕ} → s.symbol_type ≡ namespace_symbol → s.members ≡ some id → IsType s (namespace id)

-- The type that is written as a specification, in a scope: a name that means a built-in type or a
-- namespace there, a namespace of a namespace, or an array or function type.
pub data Denotes (st : List Scope) (scope : ℕ) : TypeSpec → TypePtr → Type 0 where
  denotes_named :
      {t : Token} {c r : Bool} {s : Symbol} {type type' : TypePtr}
      → Resolves st (text_of t.payload) t.position scope (some s)
      → IsType s type
      → WithModifiers c r type type'
      → Denotes st scope (named t c r) type'
  denotes_member :
      {lhs : TypeSpec} {t rhs : Token} {c r : Bool} {id id' : ℕ} {sc : Scope} {s : Symbol}
      → Denotes st scope lhs (namespace id)
      → scope_at st id ≡ some sc
      → get_member (text_of rhs.payload) sc.symbols ≡ some s
      → s.symbol_type ≡ namespace_symbol
      → s.members ≡ some id'
      → Denotes st scope (member_spec lhs t rhs c r) (namespace id')
  denotes_array :
      {c r : Bool} {spec : TypeSpec} {type type' : TypePtr}
      → Denotes st scope spec type
      → WithModifiers c r (array type) type'
      → Denotes st scope (array_spec c r spec) type'
  denotes_func :
      {c r : Bool} {lhs rhs : TypeSpec} {car cdr type' : TypePtr}
      → Denotes st scope lhs car
      → Denotes st scope rhs cdr
      → WithModifiers c r (func car cdr) type'
      → Denotes st scope (func_spec c r lhs rhs) type'

-- A visit that succeeds returns a type that is meant, and changes nothing.
pub data Says (P : TypePtr → Type 0) (st : State) : Outcome TypePtr → Type 0 where
  says : {type : TypePtr} → P type → Says P st (ok type st)
  throws_error : {pos : ℕ} {m : Message} → Says P st (throws pos m)
  fails : Says P st asserts

continue-Says :
    {P R : TypePtr → Type 0} {st : State} {o : Outcome TypePtr} (f : TypePtr → M TypePtr)
    → Says P st o
    → ((type : TypePtr) → P type → Says R st (f type st))
    → Says R st (continue o f)
continue-Says f (says p) k = k _ p
continue-Says f throws_error k = throws_error
continue-Says f fails k = fails

-- `look_up` finds what the name means in the scope on top of the stack.
pub look_up-Resolves :
    {base : List Scope} {st : State} (scope : ℕ) (below : List ℕ) (name : List ℕ) (pos : ℕ)
    → Fits base st
    → st.stack ≡ scope ∷ below
    → (r : Option Symbol) × (look_up name pos st ≡ ok r st) × Resolves st.store name pos scope r
unfolding look_up top IsLive
look_up-Resolves {st = st} scope below name pos g stacked =
    let live : IsLive (length st.store) (scope ∷ below) =
      subst (IsLive (length st.store)) stacked g.ready in
    let (r, e, means) =
      resolve-Resolves st.store scope name pos (AreSound-IsNested st.store g.sound) live.0 in
    (r, rw (stacked, e) refl, means)

weaken-Says :
    {P R : TypePtr → Type 0} {st : State} {o : Outcome TypePtr}
    → ((type : TypePtr) → P type → R type)
    → Says P st o
    → Says R st o
weaken-Says w (says p) = says (w _ p)
weaken-Says w throws_error = throws_error
weaken-Says w fails = fails

deref-Says :
    {A : Type 0} (P : TypePtr → Type 0) (st : State) (make : A → TypePtr) (o : Option A) (a : A)
    → o ≡ some a
    → P (make a)
    → Says P st ((deref o >>= λ a. pure (make a)) st)
deref-Says P st make o a e p = rw e (says p)

-- A symbol that was found is a type, or the assertion fails.
symbol_type-Says :
    (base : List Scope) (st : State) (k : SymbolType) (s : Symbol)
    → s.symbol_type ≡ k
    → KindIsWhole (length base) k s
    → Says (λ type. IsType s type × HeadExists base type) st (type_of_symbol k s st)
unfolding type_of_symbol
symbol_type-Says base st builtin_type_symbol s q (b, e) =
    deref-Says _ st builtin (builtin_named s.name) b e
      (is_builtin q (builtin_named-IsSpelled s.name b e), tt)
symbol_type-Says base st namespace_symbol s q (m, e, h) =
    deref-Says _ st namespace s.members m e (is_namespace q e, h)
symbol_type-Says base st _ s q w = fails

abbrev IsSpace : List Scope → Symbol → TypePtr → Type 0
IsSpace base s type =
    (id : ℕ) × (type ≡ namespace id)
    × (s.symbol_type ≡ namespace_symbol)
    × (s.members ≡ some id)
    × (id < length base)

member_symbol-Says :
    (base : List Scope) (st : State) (k : SymbolType) (s : Symbol)
    → s.symbol_type ≡ k
    → KindIsWhole (length base) k s
    → Says (IsSpace base s) st (member_symbol_type k s st)
unfolding member_symbol_type
member_symbol-Says base st builtin_type_symbol s q w = fails
member_symbol-Says base st namespace_symbol s q (m, e, h) =
    deref-Says _ st namespace s.members m e (m, refl, q, e, h)
member_symbol-Says base st _ s q w = fails

module _ (base : List Scope) (st : State) (scope : ℕ) (below : List ℕ) (g : Fits base st)
    (stacked : st.stack ≡ scope ∷ below) where
  pub is_live : scope < length base
  unfolding IsLive
  is_live =
      let live : IsLive (length st.store) (scope ∷ below) =
        subst (IsLive (length st.store)) stacked g.ready in
      omega (arith, live.0, g.grown.sized)

  abbrev pub Meant : TypeSpec → TypePtr → Type 0
  Meant spec type = Denotes st.store scope spec type × HeadExists base type

  named-Says :
      (t : Token) (c r : Bool) (found : Option Symbol)
      → Resolves st.store (text_of t.payload) t.position scope found
      → IsFound base found
      → Says (Meant (named t c r)) st ((named_type t found >>= λ type. pure (modified c r type)) st)
  unfolding named_type IsFound IsWhole
  named-Says t c r none means f = throws_error
  named-Says t c r (some s) means (id, e, h, w) =
      continue-Says _ (symbol_type-Says base st s.symbol_type s refl w) λ type (is_type, k). says (
        denotes_named means is_type (modified-WithModifiers c r type),
        modified-HeadExists base c r type k,
      )

  member-Says :
      (lhs : TypeSpec) (t rhs : Token) (c r : Bool) (type : TypePtr)
      → Meant lhs type
      → Says (Meant (member_spec lhs t rhs c r)) st (member_type (spec_position lhs) rhs type st)
  unfolding member_type resolve_member
  member-Says lhs t rhs c r (namespace id) (d, k) =
      let (sc, e) = scope_at_below st.store id (omega (arith, g.grown.sized, k)) in
      rw e (by_member (get_member (text_of rhs.payload) sc.symbols) sc e refl)
    where
      by_member :
          (found : Option Symbol) (sc : Scope)
          → scope_at st.store id ≡ some sc
          → get_member (text_of rhs.payload) sc.symbols ≡ found
          → Says (Meant (member_spec lhs t rhs c r)) st (found_member rhs found st)
      by_member none sc e m = unfold found_member in throws_error
      by_member (some s) sc e m =
          unfold found_member IsFound IsWhole in
          (let (i, own, h, w) = member-IsFound g id sc _ s k e m in
            weaken-Says
              (λ type (id', same, is_space, members, k').
                rw same (denotes_member d e m is_space members, k'))
              (member_symbol-Says base st s.symbol_type s refl w))
  member-Says lhs t rhs c r _ d = throws_error

  pub visit_spec-Says : (spec : TypeSpec) → IsSpec spec → Says (Meant spec) st (visit_spec spec st)
  unfolding visit_spec
  visit_spec-Says no_spec h = absurd h
  visit_spec-Says (named t c r) h =
      let (found, e, means) =
        look_up-Resolves scope below (text_of t.payload) t.position g stacked in
      rw e (named-Says t c r found means (Resolves-IsFound g means is_live))
  visit_spec-Says (member_spec lhs t rhs c r) h =
      continue-Says _ (visit_spec-Says lhs h) (member-Says lhs t rhs c r)
  visit_spec-Says (array_spec c r spec) h = continue-Says _ (visit_spec-Says spec h) λ type (d, k).
      says (
        denotes_array d (modified-WithModifiers c r (array type)),
        modified-HeadExists base c r (array type) tt,
      )
  visit_spec-Says (func_spec c r lhs rhs) h =
      continue-Says _ (visit_spec-Says lhs h.0) λ car (d, k).
        continue-Says _ (visit_spec-Says rhs h.1) λ cdr (d', k'). says (
          denotes_func d d' (modified-WithModifiers c r (func car cdr)),
          modified-HeadExists base c r (func car cdr) tt,
        )
