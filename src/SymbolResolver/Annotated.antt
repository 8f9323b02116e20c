-- ===== src/SymbolResolver/Annotated.antt =====
-- What SymbolResolver.cc relies on in the tree: no null pointer where one is not looked for, and the
-- symbols and scopes that SymbolRegister has set.
use peryan.Ast.{
  TypeSpec, no_spec, named, member_spec, array_spec, func_spec, Identifier, Expr, no_expr,
  identifier, binary, unary, array_literal, func_call, constructor_call, subscr, member,
  static_member, Exprs, no_exprs, and_expr, Stmt, comp_stmt, func_def, var_def, assign, instruction,
  if_stmt, repeat_stmt, return_stmt, extern_stmt, namespace_stmt, Stmts, no_stmts, and_stmt, Comp,
  no_comp, comp, Comps, no_comps, and_comp,
}
use peryan.Prelude.{ℕ, ◌<◌, List, some, ◌≡◌, ◌⊎◌, length, All}
use peryan.Scopes.{Scope, Symbol}
use peryan.SymbolRegister.{Note}
use peryan.SymbolResolver.Specs.{spec_position}
use peryan.SymbolResolver.{noted_scope, noted_symbol, symbol_in}

abbrev pub IsSpec : TypeSpec → Type 0
IsSpec no_spec = ⊥
IsSpec (named t c r) = Unit
IsSpec (member_spec lhs t rhs c r) = IsSpec lhs
IsSpec (array_spec c r e) = IsSpec e
IsSpec (func_spec c r a d) = IsSpec a × IsSpec d

abbrev pub MayBeSpec : TypeSpec → Type 0
MayBeSpec spec = (spec ≡ no_spec) ⊎ IsSpec spec

abbrev pub HasSpec : Identifier → Type 0
HasSpec i = MayBeSpec i.type_spec

unfoldable mutual
  pub IsExpr : Expr → Type 0
  IsExpr no_expr = ⊥
  IsExpr (identifier i) = HasSpec i
  IsExpr (binary lhs t rhs) = IsExpr lhs × IsExpr rhs
  IsExpr (unary t rhs) = IsExpr rhs
  IsExpr (array_literal t es) = AreExprs es
  IsExpr (func_call t f ps partial is_inst) = IsExpr f × MayBeExprs ps
  IsExpr (constructor_call t spec ps) = IsSpec spec × AreExprs ps
  IsExpr (subscr a t s) = IsExpr a × IsExpr s
  IsExpr (member receiver t i) = IsExpr receiver × HasSpec i
  IsExpr (static_member receiver t i) = IsSpec receiver
  IsExpr e = Unit

  pub AreExprs : Exprs → Type 0
  AreExprs no_exprs = Unit
  AreExprs (and_expr e es) = IsExpr e × AreExprs es

  pub MayBeExprs : Exprs → Type 0
  MayBeExprs no_exprs = Unit
  MayBeExprs (and_expr e es) = ((e ≡ no_expr) ⊎ IsExpr e) × MayBeExprs es

abbrev pub MayBeExpr : Expr → Type 0
MayBeExpr e = (e ≡ no_expr) ⊎ IsExpr e

-- The name at this position declares a symbol that is a scope.
pub record IsScoped (base : List Scope) (registered : List Note) (pos : ℕ) : Type 0 where
  pub id : ℕ
  pub name : List ℕ
  pub symbol : Symbol
  pub scope : ℕ
  pub noted : noted_symbol pos registered ≡ some (id, name)
  pub within : id < length base
  pub stands : symbol_in base id name ≡ some symbol
  pub is_scope : symbol.members ≡ some scope
  pub exists : scope < length base

-- The statement at this position has a scope.
abbrev pub HasScope : List Scope → List Note → ℕ → Type 0
HasScope base registered pos =
    (id : ℕ) × (noted_scope pos registered ≡ some id) × (id < length base)

module _ (base : List Scope) (registered : List Note) where
  unfoldable mutual
    pub IsAnnotated : Stmt → Type 0
    IsAnnotated (comp_stmt c) = CompIsAnnotated c
    IsAnnotated (func_def t name ps ds spec body) =
        IsScoped base registered name.token.position
        × All HasSpec ps
        × MayBeExprs ds
        × MayBeSpec spec
        × CompIsAnnotated body
    IsAnnotated (var_def t i init) = HasSpec i × MayBeExpr init
    IsAnnotated (assign lhs t rhs) = IsExpr lhs × MayBeExpr rhs
    IsAnnotated (instruction e) = IsExpr e
    IsAnnotated (if_stmt t cs ts o) = BranchesAreAnnotated cs ts × ElseIsAnnotated o
    IsAnnotated (repeat_stmt t count ss) =
        MayBeExpr count × HasScope base registered t.position × AreAnnotated ss
    IsAnnotated (return_stmt t e) = MayBeExpr e
    IsAnnotated (extern_stmt t i ds) = IsSpec i.type_spec × MayBeExprs ds
    IsAnnotated (namespace_stmt t name ss) =
        IsScoped base registered (spec_position name) × AreAnnotated ss
    IsAnnotated s = Unit

    pub CompIsAnnotated : Comp → Type 0
    CompIsAnnotated no_comp = ⊥
    CompIsAnnotated (comp t ss) = HasScope base registered t.position × AreAnnotated ss

    pub ElseIsAnnotated : Comp → Type 0
    ElseIsAnnotated no_comp = Unit
    ElseIsAnnotated (comp t ss) = HasScope base registered t.position × AreAnnotated ss

    pub BranchesAreAnnotated : Exprs → Comps → Type 0
    BranchesAreAnnotated no_exprs cs = Unit
    BranchesAreAnnotated (and_expr e es) no_comps = ⊥
    BranchesAreAnnotated (and_expr e es) (and_comp c cs) =
        IsExpr e × CompIsAnnotated c × BranchesAreAnnotated es cs

    pub AreAnnotated : Stmts → Type 0
    AreAnnotated no_stmts = Unit
    AreAnnotated (and_stmt s ss) = IsAnnotated s × AreAnnotated ss
