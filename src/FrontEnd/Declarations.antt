-- ===== src/FrontEnd/Declarations.antt =====
-- The declarations of src/AST.h, and the symbols that `SymbolRegister` makes of them.
use peryan.Ast
use peryan.Ast.{Identifier, TypeSpec, named}
use peryan.FrontEnd.{identifier_name, name_of, seen, seen_comp, seen_stmts}
use peryan.Prelude.{
  ℕ, ◌+◌, ◌<◌, Bool, true, false, List, [], ◌∷◌, none, some, ◌≡◌, refl, sym, ◌∙◌, subst, arith,
  length, length-append, map,
}
use peryan.Scopes.{
  SymbolType, var_symbol, extern_symbol, func_symbol, namespace_symbol, label_symbol, symbol_scope,
}
use peryan.SymbolRegister
use peryan.SymbolRegister.Completion.Visits.{
  func_rest-Completes, namespace_rest-Completes, register_comp-Completes, register_stmts-Completes,
}
use peryan.SymbolRegister.Completion.{
  Completes, NotesAreLive, IsLive, IsReady, completes, follow-IsReady,
}
use peryan.SymbolRegister.Declared.{IsDeclared, declare-IsDeclared}
use peryan.SymbolRegister.Steps.{
  Reaches, Reaches-grows, label_name-IsAllowed, opens, plain_name-IsAllowed, start,
}
use peryan.SymbolRegister.{
  Outcome, State, ◌>>=◌, add_scope, note, symbol_note, ok, pop, register, register_comp,
  register_stmts, register_unit, symbol_of, type_note, with_top,
}
use peryan.Token.{Token, text_of}
use peryan.Types.{null, builtin, label_}

-- What a statement declares in the scope that it stands in: a kind of symbol, its name and the position
-- of the token that names it. The name of a label's symbol has a star.
pub data Declares : Ast.Stmt → SymbolType → List ℕ → ℕ → Type 0 where
  a_function :
      {t : Token} {n : Identifier} {ps : List Identifier} {ds : Ast.Exprs} {s : TypeSpec}
      {b : Ast.Comp}
      → Declares (Ast.func_def t n ps ds s b) func_symbol (text_of n.token.payload) n.token.position
  a_variable :
      {t : Token} {n : Identifier} {i : Ast.Expr}
      → Declares (Ast.var_def t n i) var_symbol (text_of n.token.payload) n.token.position
  an_extern :
      {t : Token} {n : Identifier} {d : Ast.Exprs}
      → Declares (Ast.extern_stmt t n d) extern_symbol (text_of n.token.payload) n.token.position
  a_namespace :
      {t n : Token} {c r : Bool} {ss : Ast.Stmts}
      → Declares
          (Ast.namespace_stmt t (named n c r) ss)
          namespace_symbol
          (text_of n.payload)
          n.position
  a_label :
      {t l : Token}
      → Declares (Ast.label_stmt t l) label_symbol (b'*' ∷ text_of l.payload) l.position

-- One of the statements of a list declares it.
pub data DeclaredBy (kind : SymbolType) (name : List ℕ) (pos : ℕ) : List Ast.Stmt → Type 0 where
  here :
      {s : Ast.Stmt} {ss : List Ast.Stmt}
      → Declares s kind name pos
      → DeclaredBy kind name pos (s ∷ ss)
  later :
      {s : Ast.Stmt} {ss : List Ast.Stmt}
      → DeclaredBy kind name pos ss
      → DeclaredBy kind name pos (s ∷ ss)

module _ (hsp_compat : Bool) (st st' : State) (top : ℕ) (below : List ℕ) (ready : IsReady st)
    (stacked : st.stack ≡ top ∷ below) where
  top_is_live : top < length st.store
  unfolding IsReady IsLive
  top_is_live = (subst (IsLive (length st.store)) stacked ready).0

  on_top : (f : ℕ → Outcome) → with_top st f ≡ f top
  unfolding with_top
  on_top f = rw stacked refl

  -- The symbol in a note lies in a scope that exists.
  noted_there :
      (pos : ℕ) (name : List ℕ) (st₁ : State)
      → Reaches st.store st₁.store
      → Completes st₁ (ok (note (symbol_note pos top name) st₁))
  unfolding NotesAreLive
  noted_there pos name st₁ q =
      completes refl start (λ n. (omega (arith, top_is_live, Reaches-grows q), n))

  -- A new scope, for a function or a namespace.
  with_space : List ℕ → State
  with_space name = add_scope (symbol_scope name) top st

  longer : (name : List ℕ) → length (with_space name).store ≡ length st.store + 1
  unfolding with_space
  longer name = omega (
    arith,
    length-append st.store
        (record { scope_type = symbol_scope name; enclosing = some top; symbols = [] } ∷ []),
  )

  with_space-IsReady : (name : List ℕ) → IsReady (with_space name)
  unfolding with_space
  with_space-IsReady name =
      follow-IsReady st (add_scope (symbol_scope name) top st) refl
        (opens (symbol_scope name) top start top_is_live) ready

  label-IsDeclared :
      (mode : Bool) (pos : ℕ) (l : Token)
      → register mode (SymbolRegister.label pos (name_of l)) st ≡ ok st'
      → IsDeclared st'.store top label_symbol (b'*' ∷ text_of l.payload) l.position
  unfolding register IsReady
  label-IsDeclared true pos l e =
      let name = text_of l.payload in
      declare-IsDeclared top (symbol_of label_symbol (b'*' ∷ name) (builtin label_) l.position none)
        name l.position pos
        (note (type_note l.position (builtin label_))
          (record st { warnings = l.position ∷ st.warnings }))
        st' _ top_is_live ready (label_name-IsAllowed name) tt
        (λ st₁ r q. noted_there l.position (b'*' ∷ name) st₁ q) (sym (on_top _) ∙ e)
  label-IsDeclared false pos l e =
      let refused = sym (on_top _) ∙ e in absurd (ground (arith, refused))

  pub visit-IsDeclared :
      {s : Ast.Stmt} {kind : SymbolType} {name : List ℕ} {pos : ℕ}
      → Declares s kind name pos
      → register hsp_compat (seen s) st ≡ ok st'
      → IsDeclared st'.store top kind name pos
  unfolding register seen with_space
  visit-IsDeclared (a_function {n = n} {ps = ps} {b = b}) e =
      let name = text_of n.token.payload in
      let grown = longer name in
      declare-IsDeclared top
        (symbol_of func_symbol name null n.token.position (some (length st.store))) name
        n.token.position n.token.position (with_space name) st' _
        (omega (arith, top_is_live, grown)) (with_space-IsReady name) (plain_name-IsAllowed name) tt
        (λ st₁ r q.
          func_rest-Completes (identifier_name n) (map identifier_name ps)
            (register_comp hsp_compat (seen_comp b)) top (length st.store) st₁
            (omega (arith, top_is_live, grown, Reaches-grows q))
            (omega (arith, grown, Reaches-grows q)) r
            (register_comp-Completes hsp_compat (seen_comp b)))
        (sym (on_top _) ∙ e)
  visit-IsDeclared (a_variable {n = n}) e =
      let name = text_of n.token.payload in
      declare-IsDeclared top (symbol_of var_symbol name null n.token.position none) name
        n.token.position n.token.position st st' _ top_is_live ready (plain_name-IsAllowed name) tt
        (λ st₁ r q. noted_there n.token.position name st₁ q) (sym (on_top _) ∙ e)
  visit-IsDeclared (an_extern {n = n}) e =
      let name = text_of n.token.payload in
      declare-IsDeclared top (symbol_of extern_symbol name null n.token.position none) name
        n.token.position n.token.position st st' _ top_is_live ready (plain_name-IsAllowed name) tt
        (λ st₁ r q. noted_there n.token.position name st₁ q) (sym (on_top _) ∙ e)
  visit-IsDeclared (a_namespace {n = n} {ss = ss}) e =
      let name = text_of n.payload in
      let grown = longer name in
      declare-IsDeclared top
        (symbol_of namespace_symbol name null n.position (some (length st.store))) name n.position
        n.position (with_space name) st' _ (omega (arith, top_is_live, grown))
        (with_space-IsReady name) (plain_name-IsAllowed name)
        (length st.store, refl, omega (arith, grown))
        (λ st₁ r q.
          namespace_rest-Completes (name_of n) (register_stmts hsp_compat (seen_stmts ss)) top
            (length st.store) st₁ (omega (arith, top_is_live, grown, Reaches-grows q))
            (omega (arith, grown, Reaches-grows q)) r
            (register_stmts-Completes hsp_compat (seen_stmts ss)))
        (sym (on_top _) ∙ e)
  visit-IsDeclared (a_label {t = t} {l = l}) e = label-IsDeclared hsp_compat t.position l e
