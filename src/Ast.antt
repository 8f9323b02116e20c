-- ===== src/Ast.antt =====
-- The syntax tree: src/AST.h. A pointer to a node is the node, or one of the constructors that stand
-- for a null pointer; the fields that the later passes fill in (`type`, `symbol`, `scope`) are not
-- part of the tree here.
use peryan.Prelude.{Bool, List, [], ◌∷◌}
use peryan.Token.{Token}

pub data TypeSpec : Type 0 where
  no_spec : TypeSpec
  named : Token → (is_const is_ref : Bool) → TypeSpec
  member_spec : TypeSpec → (token rhs : Token) → (is_const is_ref : Bool) → TypeSpec
  array_spec : (is_const is_ref : Bool) → TypeSpec → TypeSpec
  func_spec : (is_const is_ref : Bool) → (lhs rhs : TypeSpec) → TypeSpec

pub record Identifier : Type 0 where
  pub token : Token
  pub type_spec : TypeSpec

-- `func_call` is an expression, and as `instruction` a statement.
mutual
  pub data Expr : Type 0 where
    no_expr : Expr
    identifier : Identifier → Expr
    binary : Expr → Token → Expr → Expr
    unary : Token → Expr → Expr
    str_literal int_literal float_literal char_literal bool_literal : Token → Expr
    array_literal : Token → Exprs → Expr
    func_call : Token → Expr → Exprs → (partial is_inst : Bool) → Expr
    constructor_call : Token → TypeSpec → Exprs → Expr
    subscr : Expr → Token → Expr → Expr
    member : Expr → Token → Identifier → Expr
    static_member : TypeSpec → Token → Identifier → Expr
    label : Token → Expr
    func_expr : Token → List Identifier → TypeSpec → Comp → Expr

  pub data Exprs : Type 0 where
    no_exprs : Exprs
    and_expr : Expr → Exprs → Exprs

  pub data Stmt : Type 0 where
    comp_stmt : Comp → Stmt
    func_def :
        Token → Identifier → List Identifier → (defaults : Exprs) → TypeSpec → (body : Comp) → Stmt
    var_def : Token → Identifier → (init : Expr) → Stmt
    assign : Expr → Token → Expr → Stmt
    instruction : Expr → Stmt
    if_stmt : Token → (conditions : Exprs) → Comps → (otherwise : Comp) → Stmt
    repeat_stmt : Token → (count : Expr) → Stmts → Stmt
    label_stmt : (token label : Token) → Stmt
    goto_stmt gosub_stmt : (token label : Token) → Stmt
    continue_stmt break_stmt : Token → Stmt
    return_stmt : Token → Expr → Stmt
    extern_stmt : Token → Identifier → (defaults : Exprs) → Stmt
    namespace_stmt : Token → TypeSpec → Stmts → Stmt

  pub data Stmts : Type 0 where
    no_stmts : Stmts
    and_stmt : Stmt → Stmts → Stmts

  pub data Comp : Type 0 where
    no_comp : Comp
    comp : Token → Stmts → Comp

  pub data Comps : Type 0 where
    no_comps : Comps
    and_comp : Comp → Comps → Comps

abbrev pub exprs : List Expr → Exprs
exprs [] = no_exprs
exprs (e ∷ es) = and_expr e (exprs es)

abbrev pub stmts : List Stmt → Stmts
stmts [] = no_stmts
stmts (s ∷ ss) = and_stmt s (stmts ss)

abbrev pub comps : List Comp → Comps
comps [] = no_comps
comps (c ∷ cs) = and_comp c (comps cs)
