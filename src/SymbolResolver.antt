-- ===== src/SymbolResolver.antt =====
-- src/SymbolResolver.cc: the pass that looks up the names that a program uses, and gives the symbols
-- the types that are written in the program. It visits the tree of src/AST.h. What SymbolRegister has
-- set in the tree (the symbols of declarations and the scopes of statements) is a list of notes that
-- this pass reads; what the pass sets itself are the notes of its state.
pub mod Specs
pub mod Visits
pub mod Store
pub mod Ends
pub mod Actions
pub mod Annotated
pub mod Completion
pub mod Units
pub mod Spellings
pub mod Denotes
pub mod Uses
pub mod Program
use peryan.Prelude.{
  ℕ, Bool, true, false, List, [], ◌∷◌, Option, none, some, ◌==◌, ◌&&◌, if◌then◌else◌,
}
use peryan.Scopes.{Symbol, Scope, get_member, scope_at, put_scope, define, resolve, same_name}
use peryan.SymbolRegister.{Note, symbol_note, scope_note, type_note, State}
use peryan.Types.{TypePtr, null}

-- The messages of the SemanticsErrors.
pub data Message : Type 0 where
  namespace_as_return_value namespace_as_parameter extern_reference extern_const : Message
  unknown_identifier unknown_label unknown_type neither_class_nor_namespace unknown_member : Message

-- `throws` is a thrown SemanticsError, `asserts` a failed assertion; `broken` is an access through a
-- pointer to nothing, or to the top of an empty stack.
pub data Outcome (A : Type 0) : Type 0 where
  ok : A → State → Outcome A
  throws : ℕ → Message → Outcome A
  asserts : Outcome A
  broken : Outcome A

abbrev pub M : Type 0 → Type 0
M A = State → Outcome A

abbrev pub continue : {A B : Type 0} → Outcome A → (A → M B) → Outcome B
continue (ok a st) f = f a st
continue (throws pos m) f = throws pos m
continue asserts f = asserts
continue broken f = broken

infixl 5 ◌>>=◌ ◌>>◌
abbrev pub ◌>>=◌ : {A B : Type 0} → M A → (A → M B) → M B
◌>>=◌ m f st = continue (m st) f

abbrev pub ◌>>◌ : {A B : Type 0} → M A → M B → M B
m >> k = m >>= λ _. k

abbrev pub pure : {A : Type 0} → A → M A
pure a st = ok a st

abbrev pub raise : {A : Type 0} → ℕ → Message → M A
raise pos m st = throws pos m

abbrev pub assert_false : {A : Type 0} → M A
assert_false st = asserts

abbrev pub stuck : {A : Type 0} → M A
stuck st = broken

-- What stands behind a pointer.
abbrev pub deref : {A : Type 0} → Option A → M A
deref none = stuck
deref (some a) = pure a

-- `scopes.top()`, `scopes.push(scope)` and `scopes.pop()`.
unfoldable pub top : M ℕ
top st = by_stack st.stack
  where
    by_stack : List ℕ → Outcome ℕ
    by_stack [] = broken
    by_stack (id ∷ ids) = ok id st

unfoldable pub push : ℕ → M (Unit {0})
push id st = ok tt (record st { stack = id ∷ st.stack })

unfoldable pub pop : M (Unit {0})
pop st = by_stack st.stack
  where
    by_stack : List ℕ → Outcome (Unit {0})
    by_stack [] = broken
    by_stack (id ∷ ids) = ok tt (record st { stack = ids })

abbrev pub inside : ℕ → M (Unit {0}) → M (Unit {0})
inside id visit = push id >> visit >> pop

unfoldable pub add_note : Note → M (Unit {0})
add_note n st = ok tt (record st { notes = n ∷ st.notes })

unfoldable pub add_warning : ℕ → M (Unit {0})
add_warning pos st = ok tt (record st { warnings = pos ∷ st.warnings })

-- `scopes.top()->resolve(name, position)`: `none` is a null pointer.
unfoldable pub look_up : List ℕ → ℕ → M (Option Symbol)
unfolding top
look_up name pos = top >>= λ id st. deref (resolve st.store id name pos) st

-- The symbol of a name in a scope.
unfoldable pub symbol_in : List Scope → ℕ → List ℕ → Option Symbol
unfolding scope_at
symbol_in store id name = by_scope (scope_at store id)
  where
    by_scope : Option Scope → Option Symbol
    by_scope none = none
    by_scope (some sc) = get_member name sc.symbols

unfoldable pub symbol_at : ℕ × List ℕ → M Symbol
unfolding symbol_in
symbol_at (id, name) st = deref (symbol_in st.store id name) st

-- The assignments to the `symbol`, the `scope` and the `type` of the node at a position.
unfoldable pub noted_symbol : ℕ → List Note → Option (ℕ × List ℕ)
noted_symbol pos [] = none
noted_symbol pos (symbol_note p id name ∷ ns) =
    if p == pos then some (id, name) else noted_symbol pos ns
noted_symbol pos (n ∷ ns) = noted_symbol pos ns

unfoldable pub noted_scope : ℕ → List Note → Option ℕ
noted_scope pos [] = none
noted_scope pos (scope_note p id ∷ ns) = if p == pos then some id else noted_scope pos ns
noted_scope pos (n ∷ ns) = noted_scope pos ns

unfoldable pub noted_type : ℕ → List Note → TypePtr
noted_type pos [] = null
noted_type pos (type_note p t ∷ ns) = if p == pos then t else noted_type pos ns
noted_type pos (n ∷ ns) = noted_type pos ns

-- `setType` of the symbol of that name.
unfoldable pub set_type : TypePtr → List ℕ → List Symbol → List Symbol
unfolding same_name
set_type t name [] = []
set_type t name (s ∷ ss) =
    if same_name name s.name then record s { type = t } ∷ ss else s ∷ set_type t name ss

-- `symbol->setType(type)`, for the symbol of a name in a scope.
unfoldable pub set_symbol_type : ℕ × List ℕ → TypePtr → M (Unit {0})
unfolding scope_at put_scope set_type
set_symbol_type (id, name) t st = by_scope (scope_at st.store id)
  where
    by_scope : Option Scope → Outcome (Unit {0})
    by_scope none = broken
    by_scope (some sc) = ok tt (record st {
      store = put_scope st.store id (record sc { symbols = set_type t name sc.symbols });
    })

-- `scope->define(symbol)`; the result is true where it fails.
unfoldable pub define_in : ℕ → Symbol → M Bool
unfolding define
define_in id s st = by_answer (define st.store id s)
  where
    by_answer : Option (Bool × List Scope) → Outcome Bool
    by_answer none = broken
    by_answer (some (failed, store)) = ok failed (record st { store = store })
