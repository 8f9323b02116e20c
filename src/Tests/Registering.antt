-- ===== src/Tests/Registering.antt =====
-- Registering small programs, and the theorems on scopes at concrete scopes.
use peryan.Prelude.{
  ◌≤◌, ℕ, Bool, true, false, List, [], ◌∷◌, Option, none, some, ◌≡◌, ◌≢◌, ◌⊎◌, inl, refl, arith,
  length, codes,
}
use peryan.Scopes.Resolution.{IsSeen}
use peryan.Scopes.Definition.{define_then_resolve, define_twice, define_frame}
use peryan.Scopes.Resolution.{Resolves, resolve-Resolves}
use peryan.Scopes.{
  global_scope, Symbol, Scope, var_symbol, same_name, scope_at, put_scope, placed, define,
  get_member, resolve, symbol_table,
}
use peryan.SymbolRegister.Variables.{register-var_def}
use peryan.SymbolRegister.Units.{IsRegistered, register_unit_outcome, reserved_names_keep_meaning}
use peryan.SymbolRegister.Invariants.{AreSound-IsNested, symbol_table-AreSound}
use peryan.SymbolRegister.{
  Name, Stmt, Stmts, State, Outcome, Message, ok, throws, comp, nil, cons, is_disallowed_identifier,
  symbol_of, register_unit, register_params, declare, define_or_throw, local_block, with_top, pop,
  register,
}
use peryan.Types.{null}
use Prim.Native.String.{String}

abbrev named : String → ℕ → Name
named s pos = record { text = codes s; position = pos }

-- func f (x) { var y }
abbrev program : Stmts
program =
    cons
      (Stmt.func_def (named "f" 5) (named "x" 7 ∷ [])
        (comp 10 (cons (Stmt.var_def (named "y" 16)) nil)))
      nil

register_unit_outcome_example :
    ((pos : ℕ) × (m : Message) × (register_unit false program ≡ throws pos m))
    ⊎ (st : State) × (register_unit false program ≡ ok st) × IsRegistered st
register_unit_outcome_example = register_unit_outcome false program

abbrev stored : Outcome → State
stored (ok st) = st
stored o = record { stack = []; store = []; notes = []; warnings = [] }

abbrev registered : State
registered = stored (register_unit false program)

program_runs : register_unit false program ≡ ok registered
unfolding register_unit register declare define_or_throw define local_block with_top pop
    register_params is_disallowed_identifier
program_runs = refl

three_scopes : length registered.store ≡ 3
unfolding register_unit register declare define_or_throw define local_block with_top pop
    register_params get_member same_name scope_at put_scope is_disallowed_identifier
three_scopes = refl

int_is_disallowed : is_disallowed_identifier (codes "Int") ≡ true
unfolding is_disallowed_identifier same_name
int_is_disallowed = refl

reserved_names_keep_meaning_example :
    resolve registered.store 2 (codes "Int") 20 ≡ resolve symbol_table 0 (codes "Int") 20
reserved_names_keep_meaning_example =
    reserved_names_keep_meaning false program registered 2 (codes "Int") 20 program_runs
      int_is_disallowed (omega (arith, three_scopes))

resolve-Resolves_example :
    (r : Option Symbol) × (resolve symbol_table 0 (codes "Int") 20 ≡ some r)
    × Resolves symbol_table (codes "Int") 20 0 r
resolve-Resolves_example =
    resolve-Resolves symbol_table 0 (codes "Int") 20
      (AreSound-IsNested symbol_table symbol_table-AreSound) (omega arith)

abbrev x_symbol : Symbol
x_symbol = symbol_of var_symbol (codes "x") null 12 none

abbrev scopes_of : Option (Bool × List Scope) → List Scope
scopes_of none = []
scopes_of (some r) = r.1

abbrev with_x : List Scope
with_x = scopes_of (define symbol_table 0 x_symbol)

x_defined : define symbol_table 0 x_symbol ≡ some (false, with_x)
unfolding define get_member same_name scope_at put_scope
x_defined = refl

define_then_resolve_example : resolve with_x 0 (codes "x") 20 ≡ some (some (placed 0 x_symbol))
unfolding IsSeen
define_then_resolve_example =
    define_then_resolve symbol_table 0 x_symbol with_x x_defined 20 (inl (omega arith))

define_twice_example : define with_x 0 x_symbol ≡ some (true, with_x)
define_twice_example = define_twice symbol_table 0 x_symbol with_x x_defined x_symbol refl

names_differ : codes "Int" ≢ codes "x"
names_differ h = cc

define_frame_example : resolve with_x 0 (codes "Int") 20 ≡ resolve symbol_table 0 (codes "Int") 20
define_frame_example =
    define_frame symbol_table 0 x_symbol with_x x_defined 0 (codes "Int") 20 names_differ

abbrev started : State
started = record { stack = 0 ∷ []; store = symbol_table; notes = []; warnings = [] }

abbrev global : Scope
global = first_scope symbol_table
  where
    first_scope : List Scope → Scope
    first_scope [] = record { scope_type = global_scope; enclosing = none; symbols = [] }
    first_scope (sc ∷ scs) = sc

global_found : scope_at symbol_table 0 ≡ some global
unfolding scope_at
global_found = refl

x_allowed : is_disallowed_identifier (codes "x") ≡ false
unfolding is_disallowed_identifier same_name
x_allowed = refl

x_unknown : get_member (codes "x") global.symbols ≡ none
unfolding get_member same_name
x_unknown = refl

register-var_def_example :
    (st' : State) × (register false (Stmt.var_def (named "x" 12)) started ≡ ok st')
    × (st'.stack ≡ started.stack)
    × ((cur_pos : ℕ)
        → 12 ≤ cur_pos
        → resolve st'.store 0 (codes "x") cur_pos ≡ some (some (placed 0 x_symbol)))
register-var_def_example =
    register-var_def false (named "x" 12) started 0 [] global refl global_found x_allowed x_unknown
