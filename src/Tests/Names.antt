-- ===== src/Tests/Names.antt =====
-- Resolving the names and types of small programs.
use Prim.Native.String.{String}
use peryan.Ast.{
  Identifier, TypeSpec, no_spec, named, array_spec, identifier, Stmts, comp, func_def,
  namespace_stmt, no_exprs, no_stmts, and_stmt, return_stmt, var_def, no_expr, assign, int_literal,
}
use peryan.FrontEnd.{seen_stmts, seen}
use peryan.Prelude.{ℕ, true, false, [], ◌∷◌, none, some, ◌≡◌, ◌⊎◌, inl, inr, refl, arith, codes}
use peryan.Scopes.{
  define, get_member, put_scope, same_name, scope_at, symbol_table, resolve_loop, resolve,
  visible_or, global_scope, func_symbol, namespace_symbol, placed,
}
use peryan.SymbolRegister
use peryan.SymbolRegister.Completion.{IsLive, AllBelow}
use peryan.SymbolRegister.Invariants.{symbol_table-AreSound}
use peryan.SymbolRegister.{
  State, declare, define_or_throw, is_disallowed_identifier, local_block, register, register_comp,
  register_comps, register_else, register_params, register_stmts, register_unit, symbol_note,
  symbol_of, with_top,
}
use peryan.SymbolResolver.Annotated.{AreAnnotated, MayBeExprs}
use peryan.SymbolResolver.Denotes.Decision.{visit_spec_decides}
use peryan.SymbolResolver.Denotes.{Denotes}
use peryan.SymbolResolver.Ends.{AreLive, Fits}
use peryan.SymbolResolver.Program.{
  global_symbols, registered_program_resolves, symbol_table-AreWhole,
}
use peryan.SymbolResolver.Specs.{named_type, visit_spec}
use peryan.SymbolResolver.Store.{Grows-refl}
use peryan.SymbolResolver.Units.{IsResolved}
use peryan.SymbolResolver.Uses.{Refers, visit_identifier-Refers}
use peryan.SymbolResolver.Visits.{
  check_empty, current_symbol, current_type, define_implicitly, implicit_variable, refer_or_define,
  refer_to, unless_null, visit, visit_all_params, visit_by_symbol, visit_expr, visit_identifier,
  visit_params, visit_present, visit_return_spec, visit_stmts, visit_unit,
}
use peryan.SymbolResolver.{
  Message, Outcome, add_note, add_warning, asserts, define_in, look_up, noted_scope, noted_symbol,
  noted_type, ok, pop, push, set_symbol_type, set_type, symbol_at, symbol_in, throws, top,
}
use peryan.Token.{Token, TokenType, text}
use peryan.Types.{TypePtr, null, array, builtin, func, int_, modifier}

abbrev word : String → ℕ → Token
word s pos = record { type = TokenType.id; payload = text (codes s); position = pos }

abbrev plain_name : String → ℕ → Identifier
plain_name s pos = record { token = word s pos; type_spec = no_spec }

abbrev typed_name : String → ℕ → TypeSpec → Identifier
typed_name s pos spec = record { token = word s pos; type_spec = spec }

-- namespace A { var y :: Int }
-- func f (x :: Int) :: Int { return x }
abbrev program : Stmts
program =
    and_stmt
      (namespace_stmt (word "namespace" 0) (named (word "A" 10) false false) (
        and_stmt
          (var_def (word "y" 16) (typed_name "y" 16 (named (word "Int" 21) false false)) no_expr)
          no_stmts))
      (and_stmt
        (func_def (word "func" 30) (plain_name "f" 35)
          (typed_name "x" 38 (named (word "Int" 43) false false) ∷ []) no_exprs
          (named (word "Int" 51) false false)
          (comp (word "{" 55)
            (and_stmt (return_stmt (word "return" 57) (identifier (plain_name "x" 64))) no_stmts)))
        no_stmts)

abbrev stored : SymbolRegister.Outcome → State
stored (SymbolRegister.ok st) = st
stored o = record { stack = []; store = []; notes = []; warnings = [] }

abbrev registered : State
registered = stored (register_unit false (seen_stmts program))

program_runs : register_unit false (seen_stmts program) ≡ SymbolRegister.ok registered
unfolding seen_stmts seen register_unit register declare define_or_throw define local_block with_top
    SymbolRegister.pop register_params is_disallowed_identifier
program_runs = refl

-- The scopes of a new symbol table, with the global scope on the stack.
abbrev at_start : State
at_start = record { stack = 0 ∷ []; store = symbol_table; notes = []; warnings = [] }

abbrev after : Outcome (Unit {0}) → State
after (ok u st) = st
after o = at_start

program_annotated : AreAnnotated registered.store registered.notes program
unfolding AreAnnotated MayBeExprs seen_stmts seen register_unit register declare define_or_throw
    define local_block with_top SymbolRegister.pop register_params is_disallowed_identifier
    noted_symbol noted_scope symbol_in get_member same_name scope_at put_scope
program_annotated = (
  (
    record {
      id = 0;
      name = codes "A";
      symbol = placed 0 (symbol_of namespace_symbol (codes "A") null 10 (some 1));
      scope = 1;
      noted = refl;
      within = omega arith;
      stands = refl;
      is_scope = refl;
      exists = omega arith;
    },
    ((inr tt, inl refl), tt),
  ),
  (
    (
      record {
        id = 0;
        name = codes "f";
        symbol = placed 0 (symbol_of func_symbol (codes "f") null 35 (some 2));
        scope = 2;
        noted = refl;
        within = omega arith;
        stands = refl;
        is_scope = refl;
        exists = omega arith;
      },
      (inr tt, tt),
      tt,
      inr tt,
      ((3, refl, omega arith), (inr (inl refl), tt)),
    ),
    tt,
  ),
)

registered_program_resolves_example :
    ((pos : ℕ) × (m : Message) × (visit_unit false registered.notes program registered
        ≡ throws pos m))
    ⊎ (visit_unit false registered.notes program registered ≡ asserts)
    ⊎ (st' : State) × (visit_unit false registered.notes program registered ≡ ok tt st')
      × IsResolved registered st'
registered_program_resolves_example =
    registered_program_resolves false program registered program_runs program_annotated

at_start-Fits : Fits symbol_table at_start
unfolding IsLive AllBelow AreLive noted_symbol
at_start-Fits = record {
  ready = (omega arith, tt);
  sound = symbol_table-AreSound;
  whole = symbol_table-AreWhole;
  grown = Grows-refl symbol_table;
  noted = λ pos id name e. cc;
}

abbrev int_array : TypeSpec
int_array = array_spec false true (named (word "Int" 5) false false)

visit_spec_decides_example :
    ((type : TypePtr) × Denotes symbol_table 0 int_array type
      × (visit_spec int_array at_start ≡ ok type at_start))
    ⊎ ((type : TypePtr) → ¬ Denotes symbol_table 0 int_array type)
      × (((pos : ℕ) × (m : Message) × (visit_spec int_array at_start ≡ throws pos m))
          ⊎ (visit_spec int_array at_start ≡ asserts))
visit_spec_decides_example =
    visit_spec_decides symbol_table at_start 0 [] at_start-Fits refl int_array tt

no_symbol : noted_symbol 7 [] ≡ none
unfolding noted_symbol
no_symbol = refl

no_type : noted_type 7 [] ≡ null
unfolding noted_type
no_type = refl

visit_identifier-Refers_example :
    Refers true (word "x" 7) at_start 0 (visit_identifier true (plain_name "x" 7) at_start)
visit_identifier-Refers_example =
    visit_identifier-Refers symbol_table at_start 0 [] at_start-Fits refl true (word "x" 7)
      no_symbol no_type

-- A reference to an array of Int.
int_array_runs :
    visit_spec int_array at_start ≡ ok (modifier false true (array (builtin int_))) at_start
unfolding visit_spec look_up top named_type resolve resolve_loop get_member same_name scope_at
    visible_or
int_array_runs = refl

-- An implicit variable is entered into the global scope, with a warning.
implicit_runs :
    visit_identifier true (plain_name "x" 7) at_start
    ≡ ok tt (record at_start {
      store = put_scope symbol_table 0 (record {
        scope_type = global_scope;
        enclosing = none;
        symbols = placed 0 (implicit_variable (codes "x")) ∷ global_symbols;
      });
      notes = symbol_note 7 0 (codes "x") ∷ [];
      warnings = 7 ∷ [];
    })
unfolding visit_identifier visit_by_symbol look_up top current_type current_symbol noted_type
    noted_symbol refer_or_define define_implicitly add_warning define_in define add_note put_scope
    resolve resolve_loop get_member same_name scope_at visible_or global_symbols
implicit_runs = refl

-- x = 1, and behind it var x: the assertion fails.
abbrev late_definition : Stmts
late_definition =
    and_stmt (assign (identifier (plain_name "x" 0)) (word "=" 2) (int_literal (word "1" 4)))
      (and_stmt (var_def (word "x" 10) (plain_name "x" 10) no_expr) no_stmts)

abbrev late_registered : State
late_registered = stored (register_unit true (seen_stmts late_definition))

late_asserts : visit_unit true late_registered.notes late_definition late_registered ≡ asserts
unfolding visit_unit visit_stmts visit visit_expr push visit_identifier visit_by_symbol look_up top
    current_type current_symbol noted_type noted_symbol refer_or_define define_implicitly
    add_warning define_in add_note put_scope resolve resolve_loop get_member same_name scope_at
    visible_or seen_stmts seen register_unit register declare define_or_throw define local_block
    with_top SymbolRegister.pop register_params is_disallowed_identifier
late_asserts = refl

-- The whole program of above is resolved, and f has its type.
program_resolves :
    (st' : State) × (visit_unit false registered.notes program registered ≡ ok tt st')
    × (symbol_in st'.store 0 (codes "f")
        ≡ some (record (placed 0 (symbol_of func_symbol (codes "f") null 35 (some 2))) {
          type = func (builtin int_) (builtin int_);
        }))
unfolding visit_unit visit_stmts visit visit_expr push pop visit_identifier visit_by_symbol look_up
    top current_type current_symbol noted_type noted_symbol refer_or_define add_note put_scope
    resolve resolve_loop get_member same_name scope_at visible_or seen_stmts seen register_unit
    register declare define_or_throw define local_block with_top SymbolRegister.pop register_params
    is_disallowed_identifier symbol_at symbol_in set_symbol_type set_type visit_params
    visit_all_params visit_return_spec visit_present unless_null visit_spec named_type noted_scope
    check_empty refer_to
program_resolves = (after (visit_unit false registered.notes program registered), refl, refl)
