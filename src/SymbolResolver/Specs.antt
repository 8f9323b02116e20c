-- ===== src/SymbolResolver/Specs.antt =====
-- `visit` of the type specifications in src/SymbolResolver.cc.
use peryan.Ast.{TypeSpec, no_spec, named, member_spec, array_spec, func_spec}
use peryan.Prelude.{ℕ, Bool, ◌||◌, List, Option, none, some, if◌then◌else◌, codes}
use peryan.Scopes.{
  SymbolType, builtin_type_symbol, namespace_symbol, Symbol, resolve_member, same_name,
}
use peryan.SymbolResolver.{
  M, ◌>>=◌, pure, raise, assert_false, stuck, deref, look_up, unknown_type, unknown_member,
  neither_class_nor_namespace,
}
use peryan.Token.{Token, text_of}
use peryan.Types.{
  Builtin, int_, string_, char_, float_, double_, bool_, void_, label_, TypePtr, builtin, namespace,
  modifier, array, func,
}

-- The object that is the built-in type of this name.
unfoldable pub builtin_named : List ℕ → Option Builtin
unfolding same_name
builtin_named name =
    if same_name name (codes "Int")
    then some int_
    else if same_name name (codes "String")
    then some string_
    else if same_name name (codes "Char")
    then some char_
    else if same_name name (codes "Float")
    then some float_
    else if same_name name (codes "Double")
    then some double_
    else if same_name name (codes "Bool")
    then some bool_
    else if same_name name (codes "Void")
    then some void_
    else if same_name name (codes "Label")
    then some label_
    else none

-- A symbol of a built-in type or of a namespace is the type itself.
unfoldable pub type_of_symbol : SymbolType → Symbol → M TypePtr
unfolding builtin_named
type_of_symbol builtin_type_symbol s = deref (builtin_named s.name) >>= λ b. pure (builtin b)
type_of_symbol namespace_symbol s = deref s.members >>= λ id. pure (namespace id)
type_of_symbol t s = assert_false

abbrev pub modified : Bool → Bool → TypePtr → TypePtr
modified is_const is_ref t = if is_const || is_ref then modifier is_const is_ref t else t

unfoldable pub named_type : Token → Option Symbol → M TypePtr
unfolding type_of_symbol
named_type t none = raise t.position unknown_type
named_type t (some s) = type_of_symbol s.symbol_type s

-- The position of the token. An array or function type has not set its token, whose position is not
-- initialized: the number that the code reads there is arbitrary, and 0 stands for it.
abbrev pub spec_position : TypeSpec → ℕ
spec_position (named t c r) = t.position
spec_position (member_spec lhs t rhs c r) = t.position
spec_position spec = 0

-- What is found must be a namespace.
unfoldable pub member_symbol_type : SymbolType → Symbol → M TypePtr
member_symbol_type namespace_symbol s = deref s.members >>= λ id. pure (namespace id)
member_symbol_type t s = assert_false

unfoldable pub found_member : Token → Option Symbol → M TypePtr
unfolding member_symbol_type
found_member rhs none = raise rhs.position unknown_member
found_member rhs (some s) = member_symbol_type s.symbol_type s

unfoldable pub member_type : ℕ → Token → TypePtr → M TypePtr
unfolding found_member resolve_member
member_type lhs_pos rhs (namespace id) st =
    (deref (resolve_member st.store id (text_of rhs.payload)) >>= found_member rhs) st
member_type lhs_pos rhs t st = raise lhs_pos neither_class_nor_namespace st

-- The result is the `type` of the specification afterwards. The modifiers of a member are not looked
-- at.
unfoldable pub visit_spec : TypeSpec → M TypePtr
visit_spec no_spec = stuck
visit_spec (named t is_const is_ref) = do
  symbol ← look_up (text_of t.payload) t.position
  type ← named_type t symbol
  pure (modified is_const is_ref type)
visit_spec (member_spec lhs t rhs is_const is_ref) = do
  type ← visit_spec lhs
  member_type (spec_position lhs) rhs type
visit_spec (array_spec is_const is_ref spec) = do
  element ← visit_spec spec
  pure (modified is_const is_ref (array element))
visit_spec (func_spec is_const is_ref lhs rhs) = do
  car ← visit_spec lhs
  cdr ← visit_spec rhs
  pure (modified is_const is_ref (func car cdr))
