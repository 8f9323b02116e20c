-- ===== src/Tests/Visiting.antt =====
-- Visits of typed operands.
use peryan.Prelude.{true, false, [], ◌∷◌, none, some, ◌≡◌, ◌≢◌, ◌⊎◌, inl, refl}
use peryan.Token.{Token, TokenType, plain}
use peryan.Tests.Resolving.{refused}
use peryan.TypeResolver.Modifiers.{can_promote, can_convert_modifier, in_promotion_table}
use peryan.TypeResolver.Operators.{can_promote_binary, lookup}
use peryan.TypeResolver.Promoter.{
  Expr, constructor_expr, given, insert_promoter, ref_expr, type_of, adjust_ref,
  insert_promoter_loop,
}
use peryan.TypeResolver.Subtyping.{is_subtype_of}
use peryan.TypeResolver.Visits.Casts.{visit_binary_no_cast, visit_subscr_converts_array}
use peryan.TypeResolver.Visits.Constructors.{
  convert_params, rewritten, visit_constructor, visit_constructor_params,
}
use peryan.TypeResolver.Visits.Operations.{
  Binary, combine, combine_typed, convert_operands, convert_unless_bare, visit_binary,
}
use peryan.TypeResolver.Visits.Typed.{IsPlain, IsTyped, visit_binary-IsTyped}
use peryan.TypeResolver.Visits.Values.{literal_type, visit_array_literal, visit_subscr}
use peryan.TypeResolver.Visits.{
  State, add_warning, asserts, broken, ok, operation_not_allowed, promoted, promotes, pure,
  same_type, throws, value_type,
}
use peryan.Types.{
  array, bool_, builtin, char_, double_, float_, int_, is, is_null, modifier, null, same_object,
  unmodify, is_ref, is_const,
}

abbrev at_start : State
at_start = record {
  unresolved = false;
  unresolved_pos = none;
  cur_type_var = none;
  constraints = [];
  warnings = [];
}

-- 1 and 'a'.
abbrev one : Expr
one = given (literal_type int_ null)

abbrev letter : Expr
letter = given (literal_type char_ null)

abbrev fraction : Expr
fraction = given (literal_type float_ null)

abbrev precise : Expr
precise = given (literal_type double_ null)

abbrev less : Token
less = record { type = TokenType.lt; payload = plain; position = 2 }

unmodified_int : unmodify (type_of one) ≡ some (builtin int_)
unfolding unmodify
unmodified_int = refl

unmodified_char : unmodify (type_of letter) ≡ some (builtin char_)
unfolding unmodify
unmodified_char = refl

one-IsPlain : IsPlain (type_of one)
one-IsPlain = record { resolved = tt; flat = refl }

letter-IsPlain : IsPlain (type_of letter)
letter-IsPlain = record { resolved = tt; flat = refl }

int_less_char :
    is_null (can_promote_binary false (builtin int_) TokenType.lt (builtin char_)) ≡ false
unfolding can_promote_binary lookup
int_less_char = refl

int-ne : type_of one ≢ builtin int_
int-ne h = cc

int_char_answer : is_subtype_of (builtin int_) (builtin char_) ≡ some false
unfolding is_subtype_of is unmodify same_object
int_char_answer = refl

char_int_answer : is_subtype_of (builtin char_) (builtin int_) ≡ some false
unfolding is_subtype_of is unmodify same_object
char_int_answer = refl

-- 1 < 'a'
visit_binary_no_cast_example : visit_binary false less 0 (pure one) (pure letter) at_start ≡ asserts
visit_binary_no_cast_example =
    visit_binary_no_cast less 0 (pure one) (pure letter) one letter (builtin int_) (builtin char_)
      at_start at_start at_start refl refl one-IsPlain letter-IsPlain unmodified_int unmodified_char
      int_less_char (inl int-ne) (refused (builtin int_) (builtin char_) tt tt int_char_answer)
      (refused (builtin char_) (builtin int_) tt tt char_int_answer)

visit_binary-IsTyped_example :
    ((is_null (can_promote_binary true (builtin int_) TokenType.lt (builtin char_)) ≡ true)
      × (visit_binary true less 0 (pure one) (pure letter) at_start
          ≡ throws less.position operation_not_allowed))
    ⊎ (is_null (can_promote_binary true (builtin int_) TokenType.lt (builtin char_)) ≡ false)
      × ((visit_binary true less 0 (pure one) (pure letter) at_start ≡ asserts)
          ⊎ (b : Binary) × (st' : State) × (visit_binary true less 0
                (pure one)
                (pure letter)
                at_start
              ≡ ok b st')
            × IsTyped true less one letter (builtin int_) (builtin char_) b)
visit_binary-IsTyped_example =
    visit_binary-IsTyped true less 0 (pure one) (pure letter) one letter (builtin int_)
      (builtin char_) at_start at_start at_start refl refl one-IsPlain letter-IsPlain unmodified_int
      unmodified_char

-- In the compatibility mode the letter is converted to an Int, with a warning.
hsp_less_runs :
    visit_binary true less 0 (pure one) (pure letter) at_start
    ≡ ok
        (record {
          lhs = given (builtin int_);
          rhs = constructor_expr (builtin int_) (given (builtin char_));
          type = modifier true false (builtin bool_);
        })
        (record at_start { warnings = 0 ∷ [] })
unfolding visit_binary combine combine_typed convert_unless_bare convert_operands value_type
    same_type promotes promoted add_warning insert_promoter insert_promoter_loop adjust_ref is
    same_object unmodify is_ref is_const can_promote can_convert_modifier is_subtype_of
    can_promote_binary lookup in_promotion_table
hsp_less_runs = refl

abbrev literal : Expr
literal = given (modifier true false (array (builtin int_)))

visit_subscr_converts_array_example :
    (s' : Expr) × (visit_subscr less (pure literal) (pure one) at_start
      ≡ ok
          (record {
            array =
                ref_expr
                  (modifier true true (builtin int_))
                  (constructor_expr (builtin int_) (given (array (builtin int_))));
            subscript = some s';
            type = modifier true true (builtin int_);
          })
          at_start)
    × (type_of s' ≡ builtin int_)
visit_subscr_converts_array_example =
    visit_subscr_converts_array less (pure literal) (pure one) literal one true (builtin int_)
      at_start at_start at_start refl refl refl tt refl one-IsPlain unmodified_int

-- An array literal whose first element has no type yet.
untyped_literal : visit_array_literal false ((0, pure (given null)) ∷ []) at_start ≡ broken
unfolding visit_array_literal value_type unmodify
untyped_literal = refl

-- Int(1) is read as 1.
constructor_runs :
    visit_constructor 0 (builtin int_) (pure one ∷ []) at_start ≡ ok (one ∷ [], one) at_start
unfolding visit_constructor visit_constructor_params convert_params rewritten value_type same_type
    unmodify is same_object
constructor_runs = refl
