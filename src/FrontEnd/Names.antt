-- ===== src/FrontEnd/Names.antt =====
-- What becomes of the names that a parsed program declares: `Parser::parse` of src/Parser.cc.
use peryan.Ast
use peryan.Ast.{Identifier, TypeSpec, named}
use peryan.FrontEnd.Declarations.{DeclaredBy, here, later, visit-IsDeclared}
use peryan.FrontEnd.{Front, visited, parse_and_register, visit_parsed, seen, seen_stmts}
use peryan.Parser.Stream.{Stream, Parsed}
use peryan.Parser.Units.{parse_trans_unit}
use peryan.Prelude.{ℕ, Bool, List, [], ◌∷◌, ◌≡◌, refl, ap, ◌∙◌, subst, arith}
use peryan.Scopes.{Scope, SymbolType, symbol_table}
use peryan.SymbolRegister
use peryan.SymbolRegister.Completion.Visits.{
  register-Completes, register_stmts-Completes, symbol_table-IsReady,
}
use peryan.SymbolRegister.Completion.{Completes, IsReady, completes, refuses, follow-IsReady}
use peryan.SymbolRegister.Declared.{IsDeclared, Completes-IsDeclared}
use peryan.SymbolRegister.{
  Outcome, State, ◌>>=◌, add_scope, note, symbol_note, ok, pop, register, register_comp,
  register_stmts, register_unit, symbol_of, type_note, with_top,
}

module _ (hsp_compat : Bool) (kind : SymbolType) (name : List ℕ) (pos : ℕ) where
  -- The statements of a list, in the scope on top of the stack.
  visit_all-IsDeclared :
      (st st' : State) (top : ℕ) (below : List ℕ) (ss : List Ast.Stmt)
      → IsReady st
      → st.stack ≡ top ∷ below
      → DeclaredBy kind name pos ss
      → register_stmts hsp_compat (seen_stmts (Ast.stmts ss)) st ≡ ok st'
      → IsDeclared st'.store top kind name pos
  unfolding register_stmts seen_stmts
  visit_all-IsDeclared st st' top below [] ready stacked d e = elim d [ ]
  visit_all-IsDeclared st st' top below (s ∷ ss) ready stacked d e =
      by_first (register hsp_compat (seen s) st) refl
        (register-Completes hsp_compat (seen s) st ready)
        (λ st₁. visit_all-IsDeclared st₁ st' top below ss) d e
    where
      by_first :
          (o : Outcome)
          → register hsp_compat (seen s) st ≡ o
          → Completes st o
          → ((st₁ : State)
              → IsReady st₁
              → st₁.stack ≡ top ∷ below
              → DeclaredBy kind name pos ss
              → register_stmts hsp_compat (seen_stmts (Ast.stmts ss)) st₁ ≡ ok st'
              → IsDeclared st'.store top kind name pos)
          → DeclaredBy kind name pos (s ∷ ss)
          → (o >>= register_stmts hsp_compat (seen_stmts (Ast.stmts ss))) ≡ ok st'
          → IsDeclared st'.store top kind name pos
      by_first _ run (completes {st' = st₁} same q n) ih (here x) e =
          Completes-IsDeclared
            (register_stmts-Completes hsp_compat (seen_stmts (Ast.stmts ss)) st₁
              (follow-IsReady st st₁ same q ready))
            e (visit-IsDeclared hsp_compat st st₁ top below ready stacked x run)
      by_first _ run (completes {st' = st₁} same q n) ih (later x) e =
          ih st₁ (follow-IsReady st st₁ same q ready) (same ∙ stacked) x e
      by_first _ run refuses ih d e = absurd (ground (arith, e))

-- The state in which the statements of a program are visited.
abbrev at_start : State
at_start = record { stack = 0 ∷ []; store = symbol_table; notes = []; warnings = [] }

store_of : Outcome → List Scope
store_of (ok st) = st.store
store_of o = []

-- The last `pop` leaves the scopes.
before_pop :
    (o : Outcome) (st : State)
    → Completes at_start o
    → (o >>= pop) ≡ ok st
    → (st₁ : State) × (o ≡ ok st₁) × (st₁.store ≡ st.store)
unfolding pop store_of
before_pop _ st (completes {st' = st₁} same q n) e =
    let last : ok (record st₁ { stack = [] }) ≡ ok st = rw same at e in
    (st₁, refl, ap store_of last)
before_pop _ st refuses e = absurd (ground (arith, e))

outcome_of : Front → Outcome
outcome_of (visited o) = o
outcome_of f = SymbolRegister.broken

-- Where a program is parsed and registered without an error, whatever its tokens are, each function,
-- variable, extern, namespace and label that one of its statements outside any block declares has a
-- symbol of that kind in the global scope, under its name (with a star for a label) and at the position
-- of the token that names it.
pub parsed_names-IsDeclared :
    (hsp_compat : Bool) (s s' : Stream) (ss : List Ast.Stmt) (st : State) (kind : SymbolType)
    (name : List ℕ) (pos : ℕ)
    → parse_trans_unit s ≡ Parsed.ok ss s'
    → parse_and_register hsp_compat s ≡ visited (ok st)
    → DeclaredBy kind name pos ss
    → IsDeclared st.store 0 kind name pos
unfolding parse_and_register visit_parsed register_unit outcome_of
parsed_names-IsDeclared hsp_compat s s' ss st kind name pos parsed run d =
    let stmts = seen_stmts (Ast.stmts ss) in
    let registered : register_unit hsp_compat stmts ≡ ok st = ap outcome_of (rw parsed at run) in
    let (st₁, filled, same) =
      before_pop (register_stmts hsp_compat stmts at_start) st
        (register_stmts-Completes hsp_compat stmts at_start symbol_table-IsReady) registered in
    subst (λ store. IsDeclared store 0 kind name pos) same
      (visit_all-IsDeclared hsp_compat kind name pos at_start st₁ 0 [] ss symbol_table-IsReady refl
        d filled)
