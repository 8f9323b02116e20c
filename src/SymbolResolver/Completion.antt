-- ===== src/SymbolResolver/Completion.antt =====
-- How the visits of the type specifications in src/SymbolResolver.cc end.
pub mod Names
pub mod Tree
use peryan.Ast.{
  TypeSpec, no_spec, named, member_spec, array_spec, func_spec, Identifier, Expr, no_expr,
}
use peryan.Prelude.{
  ℕ, ◌<◌, Bool, true, false, List, [], ◌∷◌, Option, none, some, ◌≡◌, ◌⊎◌, inl, inr, refl, sym, ap,
  ◌∙◌, subst, arith, length, All, Bool-cases, Option-cases, if◌then◌else◌,
}
use peryan.Scopes.Resolution.{scope_at_below}
use peryan.Scopes.{
  SymbolType, builtin_type_symbol, namespace_symbol, Symbol, Scope, get_member, resolve_member,
  scope_at,
}
use peryan.SymbolRegister.{symbol_note, type_note, State}
use peryan.SymbolResolver.Actions.{
  IsFound, add_warning-Safe, define_in-Safe, exists, look_up-Safe, member-IsFound,
  set_symbol_type-Ends, symbol_note-Safe, top-Safe,
}
use peryan.SymbolResolver.Annotated.{HasSpec, IsSpec, MayBeSpec}
use peryan.SymbolResolver.Ends.{
  Any, Ends, Fits, Safe, asserted, assert-Safe, bind-Safe, deref-Safe, done, forget, if-Safe,
  pure-Safe, pure-Safe_with, raise-Safe, then-Safe, threw, use-Safe, AreLive,
}
use peryan.SymbolResolver.Specs.{
  builtin_named, found_member, member_symbol_type, member_type, modified, named_type, spec_position,
  type_of_symbol, visit_spec,
}
use peryan.SymbolResolver.Store.{IsWhole, KindIsWhole}
use peryan.SymbolResolver.Visits.{
  current_symbol, current_type, define_implicitly, has_spec, implicit_variable, is_namespace,
  refer_or_define, refer_to, refer_to_label, spelling, unless_null, visit_all_params,
  visit_by_symbol, visit_identifier, visit_label, visit_new_label, visit_params, visit_return_spec,
}
use peryan.SymbolResolver.{
  M, ◌>>=◌, ◌>>◌, Outcome, pure, deref, noted_symbol, noted_type, add_note, set_symbol_type,
  assert_false,
}
use peryan.Token.{Token, text_of}
use peryan.Types.{TypePtr, null, builtin, namespace, modifier, array, func, is_null}

-- A type that is a namespace itself is one that exists.
abbrev pub HeadExists : List Scope → TypePtr → Type 0
HeadExists base (namespace id) = id < length base
HeadExists base t = Unit

pub modified-HeadExists :
    (base : List Scope) (c r : Bool) (t : TypePtr)
    → HeadExists base t
    → HeadExists base (modified c r t)
modified-HeadExists base true r t h = tt
modified-HeadExists base false true t h = tt
modified-HeadExists base false false t h = h

namespace-Safe :
    (base : List Scope) (s : Symbol) (m : ℕ)
    → s.members ≡ some m
    → m < length base
    → Safe base (λ t st. HeadExists base t) (deref s.members >>= λ id. pure (namespace id))
namespace-Safe base s m e h =
    use-Safe (deref-Safe s.members m e) λ id same. pure-Safe_with (namespace id) (rw same h)

module _ (base : List Scope) where
  type_of_symbol-Safe :
      (k : SymbolType) (s : Symbol)
      → KindIsWhole (length base) k s
      → Safe base (λ t st. HeadExists base t) (type_of_symbol k s)
  unfolding type_of_symbol
  type_of_symbol-Safe builtin_type_symbol s (b, e) =
      use-Safe (deref-Safe (builtin_named s.name) b e) λ b same. pure-Safe_with (builtin b) tt
  type_of_symbol-Safe namespace_symbol s (m, e, h) = namespace-Safe base s m e h
  type_of_symbol-Safe _ s w = assert-Safe

  member_symbol_type-Safe :
      (k : SymbolType) (s : Symbol)
      → KindIsWhole (length base) k s
      → Safe base (λ t st. HeadExists base t) (member_symbol_type k s)
  unfolding member_symbol_type
  member_symbol_type-Safe builtin_type_symbol s w = assert-Safe
  member_symbol_type-Safe namespace_symbol s (m, e, h) = namespace-Safe base s m e h
  member_symbol_type-Safe _ s w = assert-Safe

  named_type-Safe :
      (t : Token) (r : Option Symbol)
      → IsFound base r
      → Safe base (λ t st. HeadExists base t) (named_type t r)
  unfolding named_type IsFound IsWhole
  named_type-Safe t none h = raise-Safe _ _
  named_type-Safe t (some s) (id, e, k, w) = type_of_symbol-Safe s.symbol_type s w

  found_member-Safe :
      (t : Token) (r : Option Symbol)
      → IsFound base r
      → Safe base (λ t st. HeadExists base t) (found_member t r)
  unfolding found_member IsFound IsWhole
  found_member-Safe t none h = raise-Safe _ _
  found_member-Safe t (some s) (id, e, k, w) = member_symbol_type-Safe s.symbol_type s w

  member_type-Safe :
      (pos : ℕ) (rhs : Token) (t : TypePtr)
      → HeadExists base t
      → Safe base (λ t st. HeadExists base t) (member_type pos rhs t)
  unfolding member_type
  member_type-Safe pos rhs (namespace id) h = record {
    run = λ st g.
        let (sc, e) = scope_at_below st.store id (exists id g h) in
        let name = text_of rhs.payload in
        let found : resolve_member st.store id name ≡ some (get_member name sc.symbols) =
          unfold resolve_member in (rw e refl) in
        rw found (
          (found_member-Safe rhs (get_member name sc.symbols)
              (found_in st g id sc name h e (Option-cases (get_member name sc.symbols)))).run
            st g);
  }
    where
      found_in :
          (st : State) (g : Fits base st) (id : ℕ) (sc : Scope) (name : List ℕ)
          → id < length base
          → scope_at st.store id ≡ some sc
          → (get_member name sc.symbols ≡ none)
            ⊎ (s : Symbol) × (get_member name sc.symbols ≡ some s)
          → IsFound base (get_member name sc.symbols)
      found_in st g id sc name h e (inl m) = rw m (unfold IsFound in tt)
      found_in st g id sc name h e (inr (s, m)) = rw m (member-IsFound g id sc name s h e m)
  member_type-Safe pos rhs _ h = record { run = λ st g. threw }

  pub visit_spec-Safe :
      (spec : TypeSpec) → IsSpec spec → Safe base (λ t st. HeadExists base t) (visit_spec spec)
  unfolding visit_spec
  visit_spec-Safe no_spec h = absurd h
  visit_spec-Safe (named t c r) h =
      use-Safe (look_up-Safe base (text_of t.payload) t.position) λ s found.
        use-Safe (named_type-Safe t s found)
          λ type k. pure-Safe_with (modified c r type) (modified-HeadExists base c r type k)
  visit_spec-Safe (member_spec lhs t rhs c r) h =
      use-Safe (visit_spec-Safe lhs h) λ type k. member_type-Safe (spec_position lhs) rhs type k
  visit_spec-Safe (array_spec c r spec) h = use-Safe (visit_spec-Safe spec h) λ type k.
      pure-Safe_with (modified c r (array type)) (modified-HeadExists base c r (array type) tt)
  visit_spec-Safe (func_spec c r lhs rhs) h = use-Safe (visit_spec-Safe lhs h.0) λ car k.
      use-Safe (visit_spec-Safe rhs h.1) λ cdr k'.
        pure-Safe_with (modified c r (func car cdr))
          (modified-HeadExists base c r (func car cdr) tt)
