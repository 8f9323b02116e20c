-- ===== src/Scopes.antt =====
-- Symbols and scopes: classes `Symbol` and `Scope` with their subclasses, and `SymbolTable`, of
-- src/SymbolTable.h. A scope is an object that others point to: the scopes stand in a list, and a
-- pointer to a scope is its index.
pub mod Resolution
pub mod Definition
pub mod Meaning
use peryan.Prelude.{
  ℕ, zero, suc, ◌+◌, ◌<◌, Bool, true, false, ◌&&◌, ◌||◌, List, [], ◌∷◌, ◌++◌, Option, none, some,
  ◌==◌, leb, if◌then◌else◌, length, codes,
}
use peryan.Types.{
  Builtin, int_, string_, char_, float_, double_, bool_, void_, label_, TypePtr, null, builtin,
  ◌>>=◌,
}

pub data SymbolType : Type 0 where
  symbol extern_symbol var_symbol builtin_type_symbol scoped_symbol : SymbolType
  func_symbol class_symbol namespace_symbol label_symbol : SymbolType

-- `scope` is `scope_`, the scope that the symbol is defined in; `members` is the scope that a
-- function or a namespace is itself.
pub record Symbol : Type 0 where
  pub name : List ℕ
  pub symbol_type : SymbolType
  pub type : TypePtr
  pub position : ℕ
  pub scope : Option ℕ
  pub members : Option ℕ

pub data ScopeType : Type 0 where
  global_scope : ScopeType
  local_scope : (position : ℕ) → ScopeType
  symbol_scope : (name : List ℕ) → ScopeType

-- The maps `args_`, `members_` and `symbols_` are lists of symbols, whose names are the keys.
pub record Scope : Type 0 where
  pub scope_type : ScopeType
  pub enclosing : Option ℕ
  pub symbols : List Symbol

unfoldable pub same_name : List ℕ → List ℕ → Bool
same_name [] [] = true
same_name (x ∷ xs) (y ∷ ys) = x == y && same_name xs ys
same_name xs ys = false

-- `getMember`, and the search in `symbols_`.
unfoldable pub get_member : List ℕ → List Symbol → Option Symbol
unfolding same_name
get_member n [] = none
get_member n (s ∷ ss) = if same_name n s.name then some s else get_member n ss

abbrev is_present : Option Symbol → Bool
is_present none = false
is_present (some s) = true

abbrev pub has_member : List ℕ → List Symbol → Bool
has_member n ss = is_present (get_member n ss)

unfoldable pub scope_at : List Scope → ℕ → Option Scope
scope_at [] i = none
scope_at (s ∷ ss) zero = some s
scope_at (s ∷ ss) (suc i) = scope_at ss i

unfoldable pub put_scope : List Scope → ℕ → Scope → List Scope
put_scope [] i s = []
put_scope (x ∷ xs) zero s = s ∷ xs
put_scope (x ∷ xs) (suc i) s = x ∷ put_scope xs i s

-- The symbol after `setScope`.
abbrev pub placed : ℕ → Symbol → Symbol
placed id s = record s { scope = some id }

abbrev pub with_symbol : ℕ → Symbol → Scope → Scope
with_symbol id s sc = record sc { symbols = placed id s ∷ sc.symbols }

-- `define`: true is failure. A pointer to no scope is `none`.
unfoldable pub define : List Scope → ℕ → Symbol → Option (Bool × List Scope)
unfolding get_member scope_at put_scope
define st id s = scope_at st id >>= λ sc.
    if has_member s.name sc.symbols
    then some (true, st)
    else some (false, put_scope st id (with_symbol id s sc))

-- The kinds of symbols that may be used before their definition.
abbrev pub allows_forward : SymbolType → Bool
allows_forward func_symbol = true
allows_forward class_symbol = true
allows_forward namespace_symbol = true
allows_forward label_symbol = true
allows_forward t = false

abbrev pub is_visible : ℕ → Symbol → Bool
is_visible cur_pos s = leb s.position cur_pos || allows_forward s.symbol_type

-- The member if it is visible, and else the answer of the parent scope.
unfoldable pub visible_or : ℕ → Option Symbol → Option (Option Symbol) → Option (Option Symbol)
visible_or cur_pos none outer = outer
visible_or cur_pos (some s) outer = if is_visible cur_pos s then some (some s) else outer

abbrev pub ask_parent : Option ℕ → (ℕ → Option (Option Symbol)) → Option (Option Symbol)
ask_parent none ask = some none
ask_parent (some up) ask = ask up

-- `resolve`, of `BaseScope` and `ScopedSymbol` alike: `some none` is a null pointer, `none` a pointer
-- to no scope.
unfoldable pub resolve_loop : ℕ → List Scope → ℕ → List ℕ → ℕ → Option (Option Symbol)
unfolding get_member scope_at visible_or
resolve_loop zero st id name cur_pos = none
resolve_loop (suc f) st id name cur_pos = scope_at st id >>= λ sc.
    visible_or cur_pos (get_member name sc.symbols)
      (ask_parent sc.enclosing λ up. resolve_loop f st up name cur_pos)

-- A scope is made after the one that encloses it, so `id` parents at most are asked.
unfoldable pub resolve : List Scope → ℕ → List ℕ → ℕ → Option (Option Symbol)
unfolding resolve_loop
resolve st id name cur_pos = resolve_loop (suc id) st id name cur_pos

-- `NamespaceSymbol::resolveMember`.
unfoldable pub resolve_member : List Scope → ℕ → List ℕ → Option (Option Symbol)
resolve_member st id name = scope_at st id >>= λ sc. some (get_member name sc.symbols)

abbrev builtin_type_symbol_of : List ℕ → Symbol
builtin_type_symbol_of name = record {
  name = name;
  symbol_type = builtin_type_symbol;
  type = null;
  position = 0;
  scope = some 0;
  members = none;
}

-- The scopes after the constructor of `SymbolTable`: the global scope with the built-in types.
abbrev pub symbol_table : List Scope
symbol_table =
    record {
      scope_type = global_scope;
      enclosing = none;
      symbols =
          builtin_type_symbol_of (codes "Label")
          ∷ builtin_type_symbol_of (codes "Void")
          ∷ builtin_type_symbol_of (codes "Bool")
          ∷ builtin_type_symbol_of (codes "Double")
          ∷ builtin_type_symbol_of (codes "Float")
          ∷ builtin_type_symbol_of (codes "Char")
          ∷ builtin_type_symbol_of (codes "String")
          ∷ builtin_type_symbol_of (codes "Int")
          ∷ [];
    }
    ∷ []
