-- ===== src/SymbolResolver/Uses.antt =====
-- The visit of an identifier that is used, in src/SymbolResolver.cc.
use peryan.Ast.{no_spec}
use peryan.Prelude.{
  ℕ, Bool, true, false, List, ◌∷◌, Option, none, some, ◌≡◌, inl, inr, refl, arith, Option-cases,
}
use peryan.Scopes.Resolution.{Resolves, scope_at_below}
use peryan.Scopes.{Symbol, Scope, define, get_member, put_scope, scope_at, with_symbol}
use peryan.SymbolRegister.{State, symbol_note}
use peryan.SymbolResolver.Actions.{IsFound, Resolves-IsFound, exists}
use peryan.SymbolResolver.Denotes.{is_live, look_up-Resolves}
use peryan.SymbolResolver.Ends.{Fits}
use peryan.SymbolResolver.Visits.{
  current_symbol, current_type, define_implicitly, implicit_variable, refer_or_define, refer_to,
  spelling, visit_by_symbol, visit_identifier,
}
use peryan.SymbolResolver.{
  Outcome, add_note, add_warning, asserts, define_in, noted_symbol, noted_type, ok, throws, top,
  unknown_identifier,
}
use peryan.Token.{Token}
use peryan.Types.{null}

-- What becomes of a name that is used at a token, in the scope on top of the stack.
pub data Refers (hsp_compat : Bool) (t : Token) (st : State) (scope : ℕ)
    : Outcome (Unit {0}) → Type 0 where
  -- It means a symbol, and refers to it.
  to_symbol :
      {s : Symbol} {id : ℕ}
      → Resolves st.store (spelling t) t.position scope (some s)
      → s.scope ≡ some id
      → Refers hsp_compat t st scope
          (ok tt (record st { notes = symbol_note t.position id s.name ∷ st.notes }))
  -- It means nothing, and is an error.
  to_nothing :
      Resolves st.store (spelling t) t.position scope none
      → hsp_compat ≡ false
      → Refers hsp_compat t st scope (throws t.position unknown_identifier)
  -- It means nothing, and the global scope does not have it: it becomes a global variable.
  to_implicit :
      {global : Scope}
      → Resolves st.store (spelling t) t.position scope none
      → hsp_compat ≡ true
      → scope_at st.store 0 ≡ some global
      → get_member (spelling t) global.symbols ≡ none
      → Refers hsp_compat t st scope (
          ok tt (record st {
            store = put_scope st.store 0 (with_symbol 0 (implicit_variable (spelling t)) global);
            notes = symbol_note t.position 0 (spelling t) ∷ st.notes;
            warnings = t.position ∷ st.warnings;
          }))
  -- It means nothing, but the global scope has it: a later definition, say. The assertion fails.
  to_hidden :
      {global : Scope} {s : Symbol}
      → Resolves st.store (spelling t) t.position scope none
      → hsp_compat ≡ true
      → scope_at st.store 0 ≡ some global
      → get_member (spelling t) global.symbols ≡ some s
      → Refers hsp_compat t st scope asserts

module _ (base : List Scope) (st : State) (scope : ℕ) (below : List ℕ) (g : Fits base st)
    (stacked : st.stack ≡ scope ∷ below) where
  implicitly :
      (t : Token)
      → Resolves st.store (spelling t) t.position scope none
      → Refers true t st scope (define_implicitly t st)
  unfolding define_implicitly add_warning define_in define add_note
  implicitly t means =
      let live = is_live base st scope below g stacked in
      let (global, e) = scope_at_below st.store 0 (exists 0 g (omega (arith, live))) in
      elim (Option-cases (get_member (spelling t) global.symbols)) [
        | inl m ↦ rw (e, m) (to_implicit means refl e m)
        | inr (s, m) ↦ rw (e, m) (to_hidden means refl e m)
      ]

  refer_or_define-Refers :
      (hsp_compat : Bool) (t : Token) (r : Option Symbol)
      → Resolves st.store (spelling t) t.position scope r
      → IsFound base r
      → Refers hsp_compat t st scope (refer_or_define hsp_compat t r st)
  unfolding refer_or_define refer_to IsFound add_note
  refer_or_define-Refers true t none means f = implicitly t means
  refer_or_define-Refers false t none means f = to_nothing means refl
  refer_or_define-Refers true t (some s) means (id, e, h, w) = simp e (to_symbol means e)
  refer_or_define-Refers false t (some s) means (id, e, h, w) = simp e (to_symbol means e)

  -- An identifier that is not declared here, and was not visited yet, is visited in a state that fits
  -- the pass. If its name means a symbol at its position in the scope on top of the stack, it refers to
  -- that symbol and nothing else changes. If its name means nothing, the visit is an error at its
  -- position without the option `hspCompat`; with it, the name becomes a variable of the global scope,
  -- with a warning, where that scope does not have the name, and an assertion fails where it has.
  pub visit_identifier-Refers :
      (hsp_compat : Bool) (t : Token)
      → noted_symbol t.position st.notes ≡ none
      → noted_type t.position st.notes ≡ null
      → Refers hsp_compat t st scope
          (visit_identifier hsp_compat (record { token = t; type_spec = no_spec }) st)
  unfolding visit_identifier visit_by_symbol current_symbol current_type top
  visit_identifier-Refers hsp_compat t unnoted untyped =
      let (r, e, means) = look_up-Resolves scope below (spelling t) t.position g stacked in
      let found = Resolves-IsFound g means (is_live base st scope below g stacked) in
      simp (untyped, stacked, unnoted, e) (refer_or_define-Refers hsp_compat t r means found)
