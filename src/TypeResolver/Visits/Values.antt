-- ===== src/TypeResolver/Visits/Values.antt =====
-- `visit` of the assignments, the literals, the constructors and the subscripts in
-- src/TypeResolver.cc. An operand is the action that visits it and takes what `refresh` returns.
use peryan.Prelude.{
  ℕ, Bool, true, false, List, [], ◌∷◌, not, ◌&&◌, ◌||◌, Option, none, some, if◌then◌else◌,
}
use peryan.Token.{Token, TokenType}
use peryan.TypeResolver.Promoter.{Expr, type_of}
use peryan.TypeResolver.Visits.Operations.{is_one_of}
use peryan.TypeResolver.Visits.{
  M, ◌>>=◌, ◌>>◌, ok, pure, raise, assert_false, deref, assert_unresolved, forget_type_var,
  constrain, constrain_current, promotes, promoted, value_type, same_type, incompatible_element,
  not_an_array, subscript_should_be_int, should_be_reference, should_be_integer,
  should_be_same_type, should_be_numeric_or_string,
}
use peryan.Types.{
  TypePtr, null, builtin, modifier, array, Builtin, int_, char_, float_, double_, string_, label_,
  is_null, is_ref, is_const,
}

-- The types of the literals and of a label: what is there, or what the constructor of the literal
-- is typed with.
abbrev pub unless_typed : TypePtr → TypePtr → TypePtr
unless_typed null t = t
unless_typed s t = s

abbrev pub literal_type : Builtin → TypePtr → TypePtr
literal_type b type = unless_typed type (modifier true false (builtin b))

abbrev pub label_type : TypePtr → TypePtr
label_type type = unless_typed type (builtin label_)

-- The type variable of an expression that has no type.
unfoldable pub take_type_var : Expr → M (Option ℕ)
take_type_var e =
    if is_null (type_of e)
    then (assert_unresolved >> λ st. ok st.cur_type_var (record st { cur_type_var = none }))
    else pure none

unfoldable pub constrain_if : TypePtr → Option ℕ → M (Unit {0})
constrain_if t none = pure tt
constrain_if t (some v) = do value ← value_type t; constrain value v

-- An `AssignStmt` after the visit.
pub record Assign : Type 0 where
  pub lhs : Expr
  pub rhs : Option Expr

abbrev pub is_eql : TokenType → Bool
is_eql TokenType.eql = true
is_eql t = false

abbrev pub is_pluseq : TokenType → Bool
is_pluseq TokenType.pluseq = true
is_pluseq t = false

-- The operators that change the variable by one, and those that take a right hand side.
abbrev pub is_step : TokenType → Bool
is_step TokenType.plusplus = true
is_step TokenType.minusminus = true
is_step t = false

abbrev pub is_assignment : TokenType → Bool
is_assignment TokenType.eql = true
is_assignment TokenType.pluseq = true
is_assignment TokenType.minuseq = true
is_assignment TokenType.stareq = true
is_assignment TokenType.slasheq = true
is_assignment t = false

unfoldable pub check_operands : Token → TypePtr → TypePtr → M (Unit {0})
check_operands t type v = do
  numeric ← is_one_of v (builtin int_ ∷ builtin char_ ∷ builtin float_ ∷ builtin double_ ∷ [])
  text ← same_type v (builtin string_)
  if not numeric && not (is_eql t.type) && not (is_pluseq t.type && text)
      then raise t.position should_be_numeric_or_string
      else (do
        reference ← deref (is_ref type)
        if reference then pure tt else raise t.position should_be_reference)

-- The right hand side that a null pointer stands for has no type.
unfoldable pub assign_value : Bool → Token → ℕ → Expr → TypePtr → Option Expr → M Assign
assign_value hsp_compat t rhs_pos l v none = assert_false
assign_value hsp_compat t rhs_pos l v (some r) = do
  fits ← promotes hsp_compat (type_of r) v rhs_pos false
  if fits
      then (promoted r v >>= λ r'. pure (record { lhs = l; rhs = some r' }))
      else raise t.position should_be_same_type

unfoldable pub assign_typed : Bool → Token → ℕ → Expr → Option Expr → M Assign
assign_typed hsp_compat t rhs_pos l r = do
  v ← value_type (type_of l)
  check_operands t (type_of l) v
  if is_step t.type
      then (do
        integer ← is_one_of v (builtin int_ ∷ builtin char_ ∷ [])
        if integer then pure (record { lhs = l; rhs = r }) else raise t.position should_be_integer)
      else if is_assignment t.type
      then assign_value hsp_compat t rhs_pos l v r
      else assert_false

-- The cases of the operands that have no type yet.
unfoldable pub assign_operands : Bool → Token → ℕ → Expr → Expr → Option ℕ → Option ℕ → M Assign
assign_operands hsp_compat t rhs_pos l r var_l var_r =
    if is_null (type_of l)
    then (assert_unresolved
        >> ((if is_null (type_of r) then pure tt else constrain_if (type_of r) var_l)
            >> (forget_type_var >> pure (record { lhs = l; rhs = some r }))))
    else if is_null (type_of r)
    then (assert_unresolved
        >> (constrain_if (type_of l) var_r
            >> (forget_type_var >> pure (record { lhs = l; rhs = some r }))))
    else assign_typed hsp_compat t rhs_pos l (some r)

-- `visit(AssignStmt *)`; a null right hand side is `none`.
unfoldable pub visit_assign : Bool → Token → ℕ → M Expr → Option (M Expr) → M Assign
visit_assign hsp_compat t rhs_pos lhs none = do
  l ← lhs
  var_l ← take_type_var l
  if is_null (type_of l)
      then (assert_unresolved >> (forget_type_var >> pure (record { lhs = l; rhs = none })))
      else assign_typed hsp_compat t rhs_pos l none
visit_assign hsp_compat t rhs_pos lhs (some rhs) = do
  l ← lhs
  var_l ← take_type_var l
  r ← rhs
  var_r ← take_type_var r
  assign_operands hsp_compat t rhs_pos l r var_l var_r

-- The elements behind the first one. An element without a type ends the visit: the elements behind it
-- are not visited.
unfoldable pub visit_elements : Bool → TypePtr → List (ℕ × M Expr) → M (List Expr × Bool)
visit_elements hsp_compat type [] = pure ([], true)
visit_elements hsp_compat type ((pos, element) ∷ elements) =
    let rest = visit_elements hsp_compat type elements in
    (do
      e ← element
      if is_null (type_of e)
          then (do
            assert_unresolved
            value ← value_type type
            constrain_current value
            pure (e ∷ [], false))
          else (do
            fits ← promotes hsp_compat (type_of e) type pos false
            if fits
                then (do e' ← promoted e type; (es, all) ← rest; pure (e' ∷ es, all))
                else raise pos incompatible_element))

-- An `ArrayLiteralExpr` after the visit: the elements that were visited, and the type.
pub record ArrayLiteral : Type 0 where
  pub elements : List Expr
  pub type : TypePtr

-- `visit(ArrayLiteralExpr *)` of a literal without a type. The type of the first element is read
-- before it is compared with null.
unfoldable pub visit_array_literal : Bool → List (ℕ × M Expr) → M ArrayLiteral
visit_array_literal hsp_compat [] = assert_false
visit_array_literal hsp_compat ((pos, element) ∷ elements) = do
  e ← element
  type ← value_type (type_of e)
  e' ← promoted e type
  (es, all) ← visit_elements hsp_compat type elements
  pure
      (record { elements = e' ∷ es; type = if all then modifier true false (array type) else null })

-- A `SubscrExpr` after the visit; `subscript` is missing where it was not visited.
pub record Subscr : Type 0 where
  pub array : Expr
  pub subscript : Option Expr
  pub type : TypePtr

abbrev pub element_of : TypePtr → Option TypePtr
element_of (array t) = some t
element_of t = none

unfoldable pub subscribe : Token → Expr → Bool → Bool → TypePtr → M Expr → M Subscr
subscribe t a constant reference element subscript = do
  a' ← if reference then pure a else promoted a (modifier constant true element)
  s ← subscript
  if is_null (type_of s)
      then (do
        assert_unresolved
        constrain_current (builtin int_)
        pure (record { array = a'; subscript = some s; type = null }))
      else (do
        v ← value_type (type_of s)
        integer ← same_type v (builtin int_)
        if integer
            then (do
              s' ← promoted s (builtin int_)
              value ← value_type element
              pure (record {
                array = a';
                subscript = some s';
                type = modifier (constant || not reference) true value;
              }))
            else raise t.position subscript_should_be_int)

unfoldable pub subscribe_array : Token → Expr → Option TypePtr → M Expr → M Subscr
subscribe_array t a none subscript = raise t.position not_an_array
subscribe_array t a (some element) subscript = do
  constant ← deref (is_const (type_of a))
  reference ← deref (is_ref (type_of a))
  subscribe t a constant reference element subscript

-- `visit(SubscrExpr *)` of an expression without a type.
unfoldable pub visit_subscr : Token → M Expr → M Expr → M Subscr
visit_subscr t receiver subscript = do
  a ← receiver
  if is_null (type_of a)
      then (assert_unresolved
          >> (forget_type_var >> pure (record { array = a; subscript = none; type = null })))
      else (do v ← value_type (type_of a); subscribe_array t a (element_of v) subscript)
