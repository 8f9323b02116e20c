-- ===== src/SymbolRegister/Completion/Visits.antt =====
-- The visits of the statements in src/SymbolRegister.cc, and how they end.
use peryan.Prelude.{
  ℕ, ◌<◌, Bool, true, false, List, [], ◌∷◌, none, some, ◌≡◌, refl, sym, subst, arith, length,
}
use peryan.Scopes.{
  var_symbol, extern_symbol, func_symbol, namespace_symbol, label_symbol, Symbol, symbol_scope,
  symbol_table,
}
use peryan.Types.{null, builtin, label_}
use peryan.SymbolRegister.Steps.{
  start, Reaches-grows, IsAllowed, IsDeclarable, plain_name-IsAllowed, label_name-IsAllowed,
}
use peryan.SymbolRegister.{
  Name, Stmt, Stmts, Comp, Comps, Else, State, Outcome, ok, ◌>>=◌, symbol_of, note, declare, inside,
  local_block, register, register_comp, register_comps, register_params, register_else,
  register_stmts, nil, cons, symbol_note, type_note, no_else, else_then, no_more, also, comp,
}
use peryan.SymbolRegister.Completion.{
  AllBelow, Completes, IsLive, IsReady, NotesAreLive, bind-Completes, completes, declare-Completes,
  earlier, inside-Completes, local_block-Completes, opened, refuses, register_params-Completes,
  with_top-Completes,
}

-- A declaration that only adds a symbol to the scope on top.
declared :
    (scope : ℕ) (s : Symbol) (name : Name) (st : State)
    → scope < length st.store
    → s.name ≡ name.text
    → IsDeclarable (length st.store) s
    → IsReady st
    → Completes st (
        declare scope s name.text name.position name.position st >>= λ st.
        ok (note (symbol_note name.position scope name.text) st))
unfolding NotesAreLive
declared scope s name st h same w r =
    bind-Completes
      (declare-Completes scope s name.text name.position name.position st h
        (λ e. subst IsAllowed (sym same) (plain_name-IsAllowed name.text e)) w)
      r (λ st' r' q. completes refl start (λ n. (omega (arith, h, Reaches-grows q), n)))

-- What follows the declaration of a function: its parameters and its body.
pub func_rest-Completes :
    (name : Name) (params : List Name) (fill : State → Outcome) (scope id : ℕ) (st : State)
    → scope < length st.store
    → id < length st.store
    → IsReady st
    → ((st' : State) → IsReady st' → Completes st' (fill st'))
    → Completes st (
        register_params id params (note (symbol_note name.position scope name.text) st)
        >>= inside id fill)
unfolding IsReady NotesAreLive
func_rest-Completes name params fill scope id st h k r ends =
    earlier refl start (λ n. (h, n))
      (bind-Completes
        (register_params-Completes id params (note (symbol_note name.position scope name.text) st) k
          r)
        r (λ st₃ r₃ q. inside-Completes id fill st₃ (omega (arith, k, Reaches-grows q)) r₃ ends))

-- What follows the declaration of a namespace: its statements.
pub namespace_rest-Completes :
    (name : Name) (fill : State → Outcome) (scope id : ℕ) (st : State)
    → scope < length st.store
    → id < length st.store
    → IsReady st
    → ((st' : State) → IsReady st' → Completes st' (fill st'))
    → Completes st (inside id fill (note (symbol_note name.position scope name.text) st))
unfolding IsReady NotesAreLive
namespace_rest-Completes name fill scope id st h k r ends =
    earlier refl start (λ n. (h, n))
      (inside-Completes id fill (note (symbol_note name.position scope name.text) st) k r ends)

mutual
  unfolding register register_comp register_comps register_else register_stmts local_block IsReady
      NotesAreLive

  pub register-Completes :
      (hsp : Bool) (s : Stmt) (st : State) → IsReady st → Completes st (register hsp s st)
  register-Completes hsp (Stmt.func_def name params body) st r =
      with_top-Completes st _ r λ scope h. opened (symbol_scope name.text) scope st h r λ r' longer.
        bind-Completes
          (declare-Completes scope
            (symbol_of func_symbol name.text null name.position (some (length st.store))) name.text
            name.position name.position _ (omega (arith, h, longer))
            (plain_name-IsAllowed name.text) tt)
          r'
          (λ st₂ r₂ q.
            func_rest-Completes name params (register_comp hsp body) scope (length st.store) st₂
              (omega (arith, h, longer, Reaches-grows q)) (omega (arith, longer, Reaches-grows q))
              r₂ (register_comp-Completes hsp body))
  register-Completes hsp (Stmt.namespace name stmts) st r = with_top-Completes st _ r λ scope h.
      opened (symbol_scope name.text) scope st h r λ r' longer.
        bind-Completes
          (declare-Completes scope
            (symbol_of namespace_symbol name.text null name.position (some (length st.store)))
            name.text name.position name.position _ (omega (arith, h, longer))
            (plain_name-IsAllowed name.text) (length st.store, refl, longer))
          r'
          (λ st₂ r₂ q.
            namespace_rest-Completes name (register_stmts hsp stmts) scope (length st.store) st₂
              (omega (arith, h, longer, Reaches-grows q)) (omega (arith, longer, Reaches-grows q))
              r₂ (register_stmts-Completes hsp stmts))
  register-Completes hsp (Stmt.var_def name) st r = with_top-Completes st _ r λ scope h.
      declared scope (symbol_of var_symbol name.text null name.position none) name st h refl tt r
  register-Completes hsp (Stmt.extern name) st r = with_top-Completes st _ r λ scope h.
      declared scope (symbol_of extern_symbol name.text null name.position none) name st h refl tt r
  register-Completes hsp (Stmt.comp_stmt body) st r = register_comp-Completes hsp body st r
  register-Completes true (Stmt.label pos name) st r = with_top-Completes st _ r λ scope h.
      earlier refl start (λ n. n)
        (bind-Completes
          (declare-Completes scope
            (symbol_of label_symbol (b'*' ∷ name.text) (builtin label_) name.position none)
            name.text name.position pos
            (note (type_note name.position (builtin label_))
              (record st { warnings = name.position ∷ st.warnings }))
            h (label_name-IsAllowed name.text) tt)
          r (λ st₂ r₂ q. completes refl start (λ n. (omega (arith, h, Reaches-grows q), n))))
  register-Completes false (Stmt.label pos name) st r = with_top-Completes st _ r λ scope h. refuses
  register-Completes hsp (Stmt.if_stmt thens els) st r =
      bind-Completes (register_comps-Completes hsp thens st r) r
        (λ st₂ r₂ q. register_else-Completes hsp els st₂ r₂)
  register-Completes hsp (Stmt.repeat pos stmts) st r =
      local_block-Completes pos (register_stmts hsp stmts) st r (register_stmts-Completes hsp stmts)
  register-Completes hsp Stmt.other st r = completes refl start (λ n. n)

  pub register_comp-Completes :
      (hsp : Bool) (c : Comp) (st : State) → IsReady st → Completes st (register_comp hsp c st)
  register_comp-Completes hsp (comp pos stmts) st r =
      local_block-Completes pos (register_stmts hsp stmts) st r (register_stmts-Completes hsp stmts)

  register_comps-Completes :
      (hsp : Bool) (cs : Comps) (st : State) → IsReady st → Completes st (register_comps hsp cs st)
  register_comps-Completes hsp no_more st r = completes refl start (λ n. n)
  register_comps-Completes hsp (also c cs) st r =
      bind-Completes (register_comp-Completes hsp c st r) r
        (λ st₂ r₂ q. register_comps-Completes hsp cs st₂ r₂)

  register_else-Completes :
      (hsp : Bool) (e : Else) (st : State) → IsReady st → Completes st (register_else hsp e st)
  register_else-Completes hsp no_else st r = completes refl start (λ n. n)
  register_else-Completes hsp (else_then c) st r = register_comp-Completes hsp c st r

  pub register_stmts-Completes :
      (hsp : Bool) (ss : Stmts) (st : State) → IsReady st → Completes st (register_stmts hsp ss st)
  register_stmts-Completes hsp nil st r = completes refl start (λ n. n)
  register_stmts-Completes hsp (cons s ss) st r =
      bind-Completes (register-Completes hsp s st r) r
        (λ st₂ r₂ q. register_stmts-Completes hsp ss st₂ r₂)

pub symbol_table-IsReady :
    IsReady (record { stack = 0 ∷ []; store = symbol_table; notes = []; warnings = [] })
unfolding IsReady IsLive AllBelow
symbol_table-IsReady = (omega arith, tt)
