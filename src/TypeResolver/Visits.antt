-- ===== src/TypeResolver/Visits.antt =====
-- The visits of src/TypeResolver.cc: their state and the actions that they are made of.
pub mod Operations
pub mod Values
pub mod Constructors
pub mod Typed
pub mod Casts
use peryan.Prelude.{
  ℕ, Bool, true, false, ◌&&◌, List, [], ◌∷◌, Option, none, some, if◌then◌else◌, ◌==◌,
}
use peryan.TypeResolver.Constraints.{TypeConstraint, Constrained, add_type_constraint}
use peryan.TypeResolver.Modifiers.{can_promote}
use peryan.TypeResolver.Promoter.{Expr, insert_promoter, type_of}
use peryan.Types.{TypePtr, is, unmodify}

-- A `TypeVar` is the address of a pointer to a type. `unresolved` with `unresolved_pos` (none for -1),
-- `cur_type_var` and `constraints` are members of TypeResolver; the warnings have their positions.
pub record State : Type 0 where
  pub unresolved : Bool
  pub unresolved_pos : Option ℕ
  pub cur_type_var : Option ℕ
  pub constraints : List (ℕ × TypeConstraint)
  pub warnings : List ℕ

-- The messages of the SemanticsErrors.
pub data Message : Type 0 where
  operation_not_allowed should_be_numeric should_be_bool incompatible_element : Message
  not_an_array subscript_should_be_int unknown_constructor should_be_reference : Message
  should_be_integer should_be_same_type condition_should_be_bool counter_should_be_int : Message
  should_be_numeric_or_string : Message

-- `throws` is a thrown SemanticsError, `asserts` a failed assertion; `broken` is an access through a
-- null pointer.
pub data Outcome (A : Type 0) : Type 0 where
  ok : A → State → Outcome A
  throws : ℕ → Message → Outcome A
  asserts : Outcome A
  broken : Outcome A

abbrev pub M : Type 0 → Type 0
M A = State → Outcome A

abbrev pub continue : {A B : Type 0} → Outcome A → (A → M B) → Outcome B
continue (ok a st) f = f a st
continue (throws pos m) f = throws pos m
continue asserts f = asserts
continue broken f = broken

infixl 5 ◌>>=◌ ◌>>◌
abbrev pub ◌>>=◌ : {A B : Type 0} → M A → (A → M B) → M B
◌>>=◌ m f st = continue (m st) f

abbrev pub ◌>>◌ : {A B : Type 0} → M A → M B → M B
m >> k = m >>= λ _. k

abbrev pub pure : {A : Type 0} → A → M A
pure a st = ok a st

abbrev pub raise : {A : Type 0} → ℕ → Message → M A
raise pos m st = throws pos m

abbrev pub assert_false : {A : Type 0} → M A
assert_false st = asserts

-- The answer of a function that does not use a null pointer.
abbrev pub deref : {A : Type 0} → Option A → M A
deref none st = broken
deref (some a) st = ok a st

-- `assert(unresolved_)`.
unfoldable pub assert_unresolved : M (Unit {0})
assert_unresolved st = if st.unresolved then ok tt st else asserts

unfoldable pub forget_type_var : M (Unit {0})
forget_type_var st = ok tt (record st { cur_type_var = none })

-- `constraints_[typeVar]`, where the variable has an entry.
unfoldable pub entry_of : ℕ → List (ℕ × TypeConstraint) → Option TypeConstraint
entry_of v [] = none
entry_of v ((w, c) ∷ cs) = if w == v then some c else entry_of v cs

unfoldable pub put_entry :
    ℕ → TypeConstraint → List (ℕ × TypeConstraint) → List (ℕ × TypeConstraint)
put_entry v c [] = (v, c) ∷ []
put_entry v c ((w, d) ∷ cs) = if w == v then (w, c) ∷ cs else (w, d) ∷ put_entry v c cs

-- `addTypeConstraint`.
unfoldable pub constrain : TypePtr → ℕ → M (Unit {0})
unfolding entry_of put_entry add_type_constraint
constrain t v st = by_answer (add_type_constraint t (entry_of v st.constraints))
  where
    by_answer : Option Constrained → Outcome (Unit {0})
    by_answer none = broken
    by_answer (some Constrained.asserts) = asserts
    by_answer (some (Constrained.bounded c)) =
        ok tt (record st { constraints = put_entry v c st.constraints })

-- `if (curTypeVar_ != NULL) { addTypeConstraint(t, curTypeVar_); curTypeVar_ = NULL; }`.
unfoldable pub constrain_current : TypePtr → M (Unit {0})
unfolding constrain forget_type_var
constrain_current t st = by_var st.cur_type_var
  where
    by_var : Option ℕ → Outcome (Unit {0})
    by_var none = ok tt st
    by_var (some v) = (constrain t v >> forget_type_var) st

unfoldable pub add_warning : Bool → ℕ → M (Unit {0})
add_warning true pos st = ok tt (record st { warnings = pos ∷ st.warnings })
add_warning false pos st = ok tt st

-- `canPromote`, with its warning.
unfoldable pub promotes : Bool → TypePtr → TypePtr → ℕ → Bool → M Bool
promotes hsp_compat from to pos is_func_param = do
  (answer, warns) ← deref (can_promote hsp_compat from to is_func_param)
  add_warning warns pos
  pure answer

-- `insertPromoter`.
unfoldable pub promoted : Expr → TypePtr → M Expr
promoted e t = deref (insert_promoter e t)

-- `type->unmodify()` and `type->is(other)`.
unfoldable pub value_type : TypePtr → M TypePtr
value_type t = deref (unmodify t)

unfoldable pub same_type : TypePtr → TypePtr → M Bool
same_type s t = deref (is s t)
