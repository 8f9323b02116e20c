-- ===== src/SymbolRegister.antt =====
-- src/SymbolRegister.cc: the pass that enters the declared names into the scopes. The tree is
-- what the pass reads of it, the statements of src/AST.h without their expressions.
pub mod Steps
pub mod Completion
pub mod Invariants
pub mod Units
pub mod Variables
pub mod Declared
use peryan.Prelude.{
  ℕ, ◌+◌, Bool, true, false, ◌||◌, List, [], ◌∷◌, ◌++◌, Option, none, some, if◌then◌else◌, length,
  codes,
}
use peryan.Scopes.{
  SymbolType, var_symbol, extern_symbol, func_symbol, namespace_symbol, label_symbol, Symbol,
  ScopeType, local_scope, symbol_scope, Scope, same_name, define, symbol_table,
}
use peryan.Types.{TypePtr, null, builtin, label_}

-- An identifier: its text and its position.
pub record Name : Type 0 where
  pub text : List ℕ
  pub position : ℕ

-- A compound statement and a repeat statement have the position of their token. The assertions that
-- this token has a type other than `UNKNOWN` are left out: only a token that no lexer made is `UNKNOWN`,
-- and the parser gives these statements tokens of the lexer. `other` stands for
-- the statements that the pass does not look into.
mutual
  pub data Stmt : Type 0 where
    func_def : Name → List Name → Comp → Stmt
    namespace : Name → Stmts → Stmt
    var_def : Name → Stmt
    extern : Name → Stmt
    comp_stmt : Comp → Stmt
    label : ℕ → Name → Stmt
    if_stmt : Comps → Else → Stmt
    repeat : ℕ → Stmts → Stmt
    other : Stmt

  pub data Comp : Type 0 where
    comp : ℕ → Stmts → Comp

  pub data Comps : Type 0 where
    no_more : Comps
    also : Comp → Comps → Comps

  pub data Else : Type 0 where
    no_else : Else
    else_then : Comp → Else

  pub data Stmts : Type 0 where
    nil : Stmts
    cons : Stmt → Stmts → Stmts

-- An assignment to the tree: the symbol of a name and of the statement that it declares, given by the
-- symbol's scope and name; the scope of a statement; the type of a label.
pub data Note : Type 0 where
  symbol_note : (position scope : ℕ) → List ℕ → Note
  scope_note : (position scope : ℕ) → Note
  type_note : (position : ℕ) → TypePtr → Note

-- The stack `scopes`, the scopes that exist, the assignments to the tree, and the positions of the
-- warnings; the newest first.
pub record State : Type 0 where
  pub stack : List ℕ
  pub store : List Scope
  pub notes : List Note
  pub warnings : List ℕ

pub data Message : Type 0 where
  disallowed_identifier defined_twice labels_are_deprecated : Message

-- `throws` is a SemanticsError; `broken` is an access through a pointer to nothing, or to the top of
-- an empty stack.
pub data Outcome : Type 0 where
  ok : State → Outcome
  throws : ℕ → Message → Outcome
  broken : Outcome

infixl 5 ◌>>=◌
abbrev pub ◌>>=◌ : Outcome → (State → Outcome) → Outcome
ok st >>= f = f st
throws pos m >>= f = throws pos m
broken >>= f = broken

abbrev is_one_of : List (List ℕ) → List ℕ → Bool
is_one_of [] name = false
is_one_of (n ∷ ns) name = same_name n name || is_one_of ns name

unfoldable pub is_disallowed_identifier : List ℕ → Bool
unfolding same_name
is_disallowed_identifier name =
    is_one_of
      (codes "Int"
        ∷ codes "String"
        ∷ codes "Char"
        ∷ codes "Float"
        ∷ codes "Double"
        ∷ codes "Bool"
        ∷ codes "Void"
        ∷ codes "Label"
        ∷ codes "cnt"
        ∷ [])
      name

abbrev pub symbol_of : SymbolType → List ℕ → TypePtr → ℕ → Option ℕ → Symbol
symbol_of t name type position members = record {
  name = name;
  symbol_type = t;
  type = type;
  position = position;
  scope = none;
  members = members;
}

-- A new scope inside the scope `parent`.
abbrev pub add_scope : ScopeType → ℕ → State → State
add_scope t parent st = record st {
  store = st.store ++ (record { scope_type = t; enclosing = some parent; symbols = [] } ∷ []);
}

abbrev pub note : Note → State → State
note n st = record st { notes = n ∷ st.notes }

abbrev pub push : ℕ → State → State
push id st = record st { stack = id ∷ st.stack }

unfoldable pub pop : State → Outcome
pop st = by_stack st.stack
  where
    by_stack : List ℕ → Outcome
    by_stack [] = broken
    by_stack (id ∷ ids) = ok (record st { stack = ids })

-- `scopes.top()`.
unfoldable pub with_top : State → (ℕ → Outcome) → Outcome
with_top st f = by_stack st.stack
  where
    by_stack : List ℕ → Outcome
    by_stack [] = broken
    by_stack (id ∷ ids) = f id

-- `scope->define(symbol)`, and the error at a position where it fails.
unfoldable pub define_or_throw : ℕ → Symbol → ℕ → State → Outcome
unfolding define
define_or_throw id s pos st = defined (define st.store id s)
  where
    defined : Option (Bool × List Scope) → Outcome
    defined none = broken
    defined (some (true, store)) = throws pos defined_twice
    defined (some (false, store)) = ok (record st { store = store })

-- The test of the name and the definition, in the order of the visits.
unfoldable pub declare : ℕ → Symbol → List ℕ → ℕ → ℕ → State → Outcome
unfolding define_or_throw
declare id s name pos twice_pos st =
    if is_disallowed_identifier name
    then throws pos disallowed_identifier
    else define_or_throw id s twice_pos st

unfoldable pub register_params : ℕ → List Name → State → Outcome
unfolding declare
register_params id [] st = ok st
register_params id (p ∷ ps) st =
    declare id (symbol_of var_symbol p.text null p.position none) p.text p.position p.position st
    >>= λ st. register_params id ps (note (symbol_note p.position id p.text) st)

-- A scope that is made, pushed, filled and popped.
abbrev pub inside : ℕ → (State → Outcome) → State → Outcome
inside id fill st = fill (push id st) >>= pop

-- A block with a `LocalScope` of its own.
unfoldable pub local_block : ℕ → (State → Outcome) → State → Outcome
unfolding with_top pop
local_block pos fill st = with_top st λ scope.
    let id = length st.store in
    inside id fill (note (scope_note pos id) (add_scope (local_scope pos) scope st))

unfoldable mutual
  unfolding with_top declare register_params pop

  -- `visit` of each statement.
  pub register : Bool → Stmt → State → Outcome
  register hsp_compat (func_def name params body) st = with_top st λ scope.
      let id = length st.store in
      declare scope (symbol_of func_symbol name.text null name.position (some id)) name.text
        name.position name.position (add_scope (symbol_scope name.text) scope st)
      >>= λ st.
          register_params id params (note (symbol_note name.position scope name.text) st)
          >>= inside id (register_comp hsp_compat body)
  register hsp_compat (namespace name stmts) st = with_top st λ scope.
      let id = length st.store in
      declare scope (symbol_of namespace_symbol name.text null name.position (some id)) name.text
        name.position name.position (add_scope (symbol_scope name.text) scope st)
      >>= λ st.
          inside id (register_stmts hsp_compat stmts)
            (note (symbol_note name.position scope name.text) st)
  register hsp_compat (var_def name) st = with_top st λ scope.
      declare scope (symbol_of var_symbol name.text null name.position none) name.text name.position
        name.position st
      >>= λ st. ok (note (symbol_note name.position scope name.text) st)
  register hsp_compat (extern name) st = with_top st λ scope.
      declare scope (symbol_of extern_symbol name.text null name.position none) name.text
        name.position name.position st
      >>= λ st. ok (note (symbol_note name.position scope name.text) st)
  register hsp_compat (comp_stmt body) st = register_comp hsp_compat body st
  register hsp_compat (label pos name) st = with_top st λ scope.
      if hsp_compat
      then (declare scope
            (symbol_of label_symbol (b'*' ∷ name.text) (builtin label_) name.position none)
            name.text name.position pos
            (note (type_note name.position (builtin label_))
              (record st { warnings = name.position ∷ st.warnings }))
          >>= λ st. ok (note (symbol_note name.position scope (b'*' ∷ name.text)) st))
      else throws name.position labels_are_deprecated
  register hsp_compat (if_stmt thens els) st =
      register_comps hsp_compat thens st >>= register_else hsp_compat els
  register hsp_compat (repeat pos stmts) st = local_block pos (register_stmts hsp_compat stmts) st
  register hsp_compat other st = ok st

  pub register_comp : Bool → Comp → State → Outcome
  register_comp hsp_compat (comp pos stmts) st =
      local_block pos (register_stmts hsp_compat stmts) st

  pub register_comps : Bool → Comps → State → Outcome
  register_comps hsp_compat no_more st = ok st
  register_comps hsp_compat (also c cs) st =
      register_comp hsp_compat c st >>= register_comps hsp_compat cs

  pub register_else : Bool → Else → State → Outcome
  register_else hsp_compat no_else st = ok st
  register_else hsp_compat (else_then c) st = register_comp hsp_compat c st

  pub register_stmts : Bool → Stmts → State → Outcome
  register_stmts hsp_compat nil st = ok st
  register_stmts hsp_compat (cons s ss) st =
      register hsp_compat s st >>= register_stmts hsp_compat ss

-- `visit(TransUnit *)`, on the scopes of a new symbol table.
unfoldable pub register_unit : Bool → Stmts → Outcome
unfolding pop
register_unit hsp_compat stmts =
    inside 0 (register_stmts hsp_compat stmts)
      (record { stack = []; store = symbol_table; notes = []; warnings = [] })
