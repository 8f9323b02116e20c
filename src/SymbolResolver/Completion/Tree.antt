-- ===== src/SymbolResolver/Completion/Tree.antt =====
-- How the visits of expressions and statements in src/SymbolResolver.cc end.
use peryan.Ast.{
  Identifier, Expr, no_expr, identifier, binary, unary, str_literal, int_literal, float_literal,
  char_literal, bool_literal, array_literal, func_call, constructor_call, subscr, member,
  static_member, label, func_expr, Exprs, no_exprs, and_expr, Stmt, comp_stmt, func_def, var_def,
  assign, instruction, if_stmt, repeat_stmt, label_stmt, goto_stmt, gosub_stmt, continue_stmt,
  break_stmt, return_stmt, extern_stmt, namespace_stmt, Stmts, no_stmts, and_stmt, Comp, no_comp,
  comp, Comps, no_comps, and_comp,
}
use peryan.Prelude.{ℕ, ◌<◌, Bool, false, List, none, ◌≡◌, ◌∙◌, codes, length}
use peryan.Scopes.{Scope, var_symbol}
use peryan.SymbolRegister.{Note, symbol_of}
use peryan.SymbolResolver.Actions.{
  define_in-Safe, inside-Safe, set_symbol_type-Safe, symbol_at-Safe,
}
use peryan.SymbolResolver.Annotated.{
  AreAnnotated, AreExprs, BranchesAreAnnotated, CompIsAnnotated, ElseIsAnnotated, HasScope,
  IsAnnotated, IsExpr, IsScoped, IsSpec, MayBeExprs,
}
use peryan.SymbolResolver.Completion.{visit_spec-Safe}
use peryan.SymbolResolver.Completion.Names.{
  unless_null-Safe, visit_all_params-Safe, visit_identifier-Safe, visit_identifier-Safe_typed,
  visit_label-Safe, visit_return_spec-Safe,
}
use peryan.SymbolResolver.Ends.{
  Any, Safe, bind-Safe, deref-Safe, forget, if-Safe, pure-Safe, raise-Safe, then-Safe, use-Safe,
}
use peryan.SymbolResolver.Store.{IsWhole}
use peryan.SymbolResolver.Visits.{
  check_extern_type, current_type, define_cnt, visit, visit_branches, visit_comp, visit_else,
  visit_expr, visit_exprs, visit_identifier, visit_present, visit_stmts, visits_member,
}
use peryan.SymbolResolver.{
  M, ◌>>=◌, ◌>>◌, deref, extern_const, extern_reference, noted_scope, noted_symbol, noted_type,
  symbol_at,
}
use peryan.Types.{TypePtr, builtin, int_, null, is_null, is_ref, is_const}

module _ (base : List Scope) (hsp_compat : Bool) (registered : List Note) where
  mutual
    unfolding visit_expr visit_exprs visit_present IsExpr AreExprs MayBeExprs

    visit_expr-Safe : (e : Expr) → IsExpr e → Safe base Any (visit_expr hsp_compat registered e)
    visit_expr-Safe no_expr h = absurd h
    visit_expr-Safe (identifier i) h = visit_identifier-Safe base hsp_compat i h
    visit_expr-Safe (binary lhs t rhs) h =
        then-Safe (visit_expr-Safe lhs h.0) (λ u. visit_expr-Safe rhs h.1)
    visit_expr-Safe (unary t rhs) h = visit_expr-Safe rhs h
    visit_expr-Safe (str_literal t) h = pure-Safe tt
    visit_expr-Safe (int_literal t) h = pure-Safe tt
    visit_expr-Safe (float_literal t) h = pure-Safe tt
    visit_expr-Safe (char_literal t) h = pure-Safe tt
    visit_expr-Safe (bool_literal t) h = pure-Safe tt
    visit_expr-Safe (array_literal t es) h = visit_exprs-Safe es h
    visit_expr-Safe (func_call t f ps partial is_inst) h =
        then-Safe (visit_expr-Safe f h.0) (λ u. visit_present-Safe ps h.1)
    visit_expr-Safe (constructor_call t spec ps) h =
        then-Safe (forget (visit_spec-Safe base spec h.0)) (λ u. visit_exprs-Safe ps h.1)
    visit_expr-Safe (subscr a t s) h =
        then-Safe (visit_expr-Safe a h.0) (λ u. visit_expr-Safe s h.1)
    visit_expr-Safe (member receiver t i) h = then-Safe (visit_expr-Safe receiver h.0) λ u.
        if-Safe (visits_member hsp_compat i) (visit_identifier-Safe base hsp_compat i h.1)
          (pure-Safe tt)
    visit_expr-Safe (static_member receiver t i) h =
        then-Safe (forget (visit_spec-Safe base receiver h)) (λ u. pure-Safe tt)
    visit_expr-Safe (label t) h = visit_label-Safe base t
    visit_expr-Safe (func_expr t ps spec body) h = pure-Safe tt

    visit_exprs-Safe :
        (es : Exprs) → AreExprs es → Safe base Any (visit_exprs hsp_compat registered es)
    visit_exprs-Safe no_exprs h = pure-Safe tt
    visit_exprs-Safe (and_expr e es) h =
        then-Safe (visit_expr-Safe e h.0) (λ u. visit_exprs-Safe es h.1)

    visit_present-Safe :
        (es : Exprs) → MayBeExprs es → Safe base Any (visit_present hsp_compat registered es)
    visit_present-Safe no_exprs h = pure-Safe tt
    visit_present-Safe (and_expr e es) h =
        then-Safe (unless_null-Safe base e _ h.0 (visit_expr-Safe e))
          (λ u. visit_present-Safe es h.1)

  -- The scope of a declared function or namespace.
  scoped-Safe :
      (pos : ℕ) (f : ℕ × List ℕ → ℕ → M (Unit {0}))
      → IsScoped base registered pos
      → ((symbol : ℕ × List ℕ) (id : ℕ)
          → symbol.0 < length base
          → id < length base
          → Safe base Any (f symbol id))
      → Safe base Any (do
        symbol ← deref (noted_symbol pos registered)
        declared ← symbol_at symbol
        scope ← deref declared.members
        f symbol scope)
  scoped-Safe pos f s k = use-Safe (deref-Safe _ (s.id, s.name) s.noted) λ symbol same. rw same (
      use-Safe (symbol_at-Safe base s.id s.name s.symbol s.stands) λ declared q.
        use-Safe (deref-Safe declared.members s.scope (q.members ∙ s.is_scope))
          λ scope e. rw e (k (s.id, s.name) s.scope s.within s.exists))

  noted_scope-Safe :
      (pos : ℕ) (f : ℕ → M (Unit {0}))
      → HasScope base registered pos
      → ((id : ℕ) → id < length base → Safe base Any (f id))
      → Safe base Any (deref (noted_scope pos registered) >>= f)
  noted_scope-Safe pos f (id, e, h) k = use-Safe (deref-Safe _ id e) λ scope same. rw same (k id h)

  check_extern_type-Safe :
      (pos : ℕ) (t : TypePtr) → is_null t ≡ false → Safe base Any (check_extern_type pos t)
  unfolding check_extern_type is_ref is_const
  check_extern_type-Safe pos null h = cc
  check_extern_type-Safe pos (TypePtr.modifier c r t) h = then-Safe (pure-Safe r) λ reference.
      then-Safe (if-Safe reference (raise-Safe pos extern_reference) (pure-Safe tt)) λ u.
        then-Safe (pure-Safe c)
          λ constant. if-Safe constant (raise-Safe pos extern_const) (pure-Safe tt)
  check_extern_type-Safe pos _ h = pure-Safe tt

  define_cnt-Safe : (pos id : ℕ) → id < length base → Safe base Any (define_cnt pos id)
  unfolding define_cnt IsWhole
  define_cnt-Safe pos id h =
      then-Safe
        (define_in-Safe base id (symbol_of var_symbol (codes "cnt") (builtin int_) pos none) h tt)
        (λ failed. pure-Safe tt)

  -- The type that is read is there, since the identifier has a specification.
  extern-Safe :
      (i : Identifier) (rest : M (Unit {0}))
      → IsSpec i.type_spec
      → Safe base Any rest
      → Safe base Any (do
        visit_identifier hsp_compat i
        type ← current_type i.token.position
        check_extern_type i.token.position type
        rest)
  unfolding current_type
  extern-Safe i rest h k =
      bind-Safe (visit_identifier-Safe_typed base hsp_compat i h) λ u st g typed.
        (then-Safe
            (check_extern_type-Safe i.token.position (noted_type i.token.position st.notes) typed)
            (λ u. k)).run
          st g

  mutual
    unfolding visit visit_comp visit_else visit_branches visit_stmts IsAnnotated CompIsAnnotated
        ElseIsAnnotated BranchesAreAnnotated AreAnnotated

    visit-Safe :
        (s : Stmt) → IsAnnotated base registered s → Safe base Any (visit hsp_compat registered s)
    visit-Safe (comp_stmt c) h = visit_comp-Safe c h
    visit-Safe (func_def t name ps ds spec body) h =
        scoped-Safe name.token.position _ h.0 λ symbol scope below below'.
          inside-Safe base scope _ below' (
            then-Safe (visit_return_spec-Safe base t.position spec h.3) λ result.
              then-Safe (visit_present-Safe ds h.2) λ u.
                then-Safe (visit_all_params-Safe base hsp_compat t.position ps result h.1) λ type.
                  then-Safe (visit_comp-Safe body h.4)
                    λ u. set_symbol_type-Safe base symbol.0 symbol.1 type below)
    visit-Safe (var_def t i init) h =
        then-Safe (visit_identifier-Safe base hsp_compat i h.0)
          λ u. unless_null-Safe base init _ h.1 (visit_expr-Safe init)
    visit-Safe (assign lhs t rhs) h =
        then-Safe (visit_expr-Safe lhs h.0)
          λ u. unless_null-Safe base rhs _ h.1 (visit_expr-Safe rhs)
    visit-Safe (instruction e) h = visit_expr-Safe e h
    visit-Safe (if_stmt t cs ts o) h =
        then-Safe (visit_branches-Safe cs ts h.0) (λ u. visit_else-Safe o h.1)
    visit-Safe (repeat_stmt t count ss) h =
        then-Safe (unless_null-Safe base count _ h.0 (visit_expr-Safe count)) λ u.
          noted_scope-Safe t.position _ h.1 λ id below.
            then-Safe (define_cnt-Safe t.position id below)
              λ u. inside-Safe base id _ below (visit_stmts-Safe ss h.2)
    visit-Safe (label_stmt t l) h = pure-Safe tt
    visit-Safe (goto_stmt t l) h = visit_label-Safe base l
    visit-Safe (gosub_stmt t l) h = visit_label-Safe base l
    visit-Safe (continue_stmt t) h = pure-Safe tt
    visit-Safe (break_stmt t) h = pure-Safe tt
    visit-Safe (return_stmt t e) h = unless_null-Safe base e _ h (visit_expr-Safe e)
    visit-Safe (extern_stmt t i ds) h = extern-Safe i _ h.0 (visit_present-Safe ds h.1)
    visit-Safe (namespace_stmt t name ss) h =
        scoped-Safe _ _ h.0
          λ symbol scope below below'. inside-Safe base scope _ below' (visit_stmts-Safe ss h.1)

    visit_comp-Safe :
        (c : Comp)
        → CompIsAnnotated base registered c
        → Safe base Any (visit_comp hsp_compat registered c)
    visit_comp-Safe no_comp h = absurd h
    visit_comp-Safe (comp t ss) h =
        noted_scope-Safe t.position _ h.0
          λ id below. inside-Safe base id _ below (visit_stmts-Safe ss h.1)

    visit_else-Safe :
        (c : Comp)
        → ElseIsAnnotated base registered c
        → Safe base Any (visit_else hsp_compat registered c)
    visit_else-Safe no_comp h = pure-Safe tt
    visit_else-Safe (comp t ss) h =
        noted_scope-Safe t.position _ h.0
          λ id below. inside-Safe base id _ below (visit_stmts-Safe ss h.1)

    visit_branches-Safe :
        (es : Exprs) (cs : Comps)
        → BranchesAreAnnotated base registered es cs
        → Safe base Any (visit_branches hsp_compat registered es cs)
    visit_branches-Safe no_exprs cs h = pure-Safe tt
    visit_branches-Safe (and_expr e es) no_comps h = absurd h
    visit_branches-Safe (and_expr e es) (and_comp c cs) h =
        then-Safe (then-Safe (visit_expr-Safe e h.0) (λ u. visit_comp-Safe c h.1))
          (λ u. visit_branches-Safe es cs h.2)

    pub visit_stmts-Safe :
        (ss : Stmts)
        → AreAnnotated base registered ss
        → Safe base Any (visit_stmts hsp_compat registered ss)
    visit_stmts-Safe no_stmts h = pure-Safe tt
    visit_stmts-Safe (and_stmt s ss) h = then-Safe (visit-Safe s h.0) (λ u. visit_stmts-Safe ss h.1)
