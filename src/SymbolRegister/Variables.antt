-- ===== src/SymbolRegister/Variables.antt =====
-- The registration of a variable that its scope does not know.
use peryan.Prelude.{ℕ, ◌≤◌, Bool, false, List, ◌∷◌, none, some, ◌≡◌, inl, refl}
use peryan.Scopes.Resolution.{IsSeen}
use peryan.Scopes.Definition.{define_then_resolve}
use peryan.Scopes.{
  Symbol, Scope, var_symbol, get_member, scope_at, define, put_scope, with_symbol, placed, resolve,
}
use peryan.SymbolRegister.{
  Name, Stmt, State, ok, is_disallowed_identifier, symbol_of, with_top, declare, define_or_throw,
  register, note, symbol_note,
}
use peryan.Types.{null}

abbrev variable : Name → Symbol
variable name = symbol_of var_symbol name.text null name.position none

define_fresh :
    (st : List Scope) (id : ℕ) (s : Symbol) (sc : Scope)
    → scope_at st id ≡ some sc
    → get_member s.name sc.symbols ≡ none
    → define st id s ≡ some (false, put_scope st id (with_symbol id s sc))
unfolding define
define_fresh st id s sc e m = rw (e, m) refl

-- A variable definition is accepted where its name is allowed and the scope on top of the stack has no
-- symbol of that name. The stack stays, and from its position on the name means the variable in that
-- scope.
pub register-var_def :
    (hsp_compat : Bool) (name : Name) (st : State) (top : ℕ) (below : List ℕ) (sc : Scope)
    → st.stack ≡ top ∷ below
    → scope_at st.store top ≡ some sc
    → is_disallowed_identifier name.text ≡ false
    → get_member name.text sc.symbols ≡ none
    → (st' : State) × (register hsp_compat (Stmt.var_def name) st ≡ ok st')
      × (st'.stack ≡ st.stack)
      × ((cur_pos : ℕ)
          → name.position ≤ cur_pos
          → resolve st'.store top name.text cur_pos ≡ some (some (placed top (variable name))))
unfolding register with_top declare define_or_throw IsSeen
register-var_def hsp_compat name st top below sc stacked e allowed m =
    let defined = define_fresh st.store top (variable name) sc e m in
    (
      note (symbol_note name.position top name.text)
          (record st { store = put_scope st.store top (with_symbol top (variable name) sc) }),
      rw (stacked, allowed, defined) refl,
      refl,
      λ cur_pos later.
          define_then_resolve st.store top (variable name)
            (put_scope st.store top (with_symbol top (variable name) sc)) defined cur_pos
            (inl later),
    )
