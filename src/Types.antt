-- ===== src/Types.antt =====
-- The types of the compiled language: class `Type` and its subclasses in src/SymbolTable.h.
pub mod Identity
pub mod Functions
use peryan.Prelude.{
  ℕ, Bool, true, false, not, ◌&&◌, ◌||◌, List, [], ◌∷◌, Option, none, some, ◌==◌, if◌then◌else◌,
}

-- The eight `BuiltInTypeSymbol` objects that `SymbolTable` makes.
pub data Builtin : Type 0 where
  int_ string_ char_ float_ double_ bool_ void_ label_ : Builtin

-- A `Type *`. Built-in types and namespaces are compared as objects: a built-in object is named by
-- its constructor, and a namespace's object by a number.
pub data TypePtr : Type 0 where
  null : TypePtr
  builtin : Builtin → TypePtr
  namespace : ℕ → TypePtr
  modifier : (is_const is_ref : Bool) → TypePtr → TypePtr
  array : TypePtr → TypePtr
  func : (car cdr : TypePtr) → TypePtr

-- A call through a null pointer is `none`.
infixl 5 ◌>>=◌
abbrev pub ◌>>=◌ : {A B : Type 0} → Option A → (A → Option B) → Option B
none >>= f = none
some a >>= f = f a

abbrev pub index : Builtin → ℕ
index bool_ = 0
index char_ = 1
index int_ = 2
index float_ = 3
index double_ = 4
index string_ = 5
index void_ = 6
index label_ = 7

abbrev pub is_null : TypePtr → Bool
is_null null = true
is_null t = false

-- `this == to`, for the classes that do not override `is`.
unfoldable pub same_object : TypePtr → TypePtr → Bool
same_object (builtin a) (builtin b) = index a == index b
same_object (namespace m) (namespace n) = m == n
same_object s t = false

abbrev pub same_flag : Bool → Bool → Bool
same_flag true b = b
same_flag false b = not b

-- `FuncType::is` compares a null pointer by hand.
unfoldable pub slot : TypePtr → TypePtr → Option Bool → Option Bool
slot null to r = some (is_null to)
slot t to r = r

unfoldable pub is : TypePtr → TypePtr → Option Bool
unfolding same_object slot
is null to = none
is (builtin b) to = some (same_object (builtin b) to)
is (namespace n) to = some (same_object (namespace n) to)
is (modifier c r e) null = none
is (modifier c r e) (modifier c' r' e') =
    if same_flag c c' && same_flag r r' then is e e' else some false
is (modifier c r e) to = some false
is (array e) null = none
is (array e) (array e') = is e e'
is (array e) to = some false
is (func a d) null = none
is (func a d) (func a' d') =
    slot a a' (is a a') >>= λ same. if same then slot d d' (is d d') else some false
is (func a d) to = some false

unfoldable pub is_const : TypePtr → Option Bool
is_const null = none
is_const (modifier c r e) = some c
is_const t = some false

unfoldable pub is_ref : TypePtr → Option Bool
is_ref null = none
is_ref (modifier c r e) = some r
is_ref t = some false

unfoldable pub unmodify : TypePtr → Option TypePtr
unmodify null = none
unmodify (modifier c r e) = some e
unmodify t = some t
