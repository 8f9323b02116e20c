-- ===== src/Tests/Resolving.antt =====
-- The theorems on operators, bounds, promotion and speculation, at concrete inputs.
use peryan.Lexer.Cursor.{Result, ok, lookahead, consume}
use peryan.Lexer.Keyword.{keywords, matches_from, find_keyword}
use peryan.Lexer.Literal.{
  is_identifier_char, read_identifier_length, is_float_literal, read_decimal_literal,
  read_number_loop,
}
use peryan.Lexer.Scan.{initial, get_next_token}
use peryan.Prelude.{
  true, false, ◌||◌, List, [], ◌∷◌, ◌++◌, none, some, ◌≡◌, ◌≢◌, ◌⊎◌, inl, inr, refl, sym, codes,
  ◌∙◌,
}
use peryan.Token.{Token, TokenType}
use peryan.TokenBuffer.Speculation.{speculation_leaves_no_trace}
use peryan.TokenBuffer.{Buffer, mark, release, Access, looks, consumes, access, lt, consumed}
use peryan.TypeResolver.Constraints.{add_type_constraints, add_type_constraints_unrelated, asserts}
use peryan.TypeResolver.Operators.Rules.{
  can_promote_binary_strict, can_promote_binary_symmetric, can_promote_binary_kept,
}
use peryan.TypeResolver.Operators.{can_promote_binary, is_equality, is_order, lookup}
use peryan.TypeResolver.Promoter.{
  Expr, given, type_of, Converts, insert_promoter, insert_promoter-Converts,
}
use peryan.TypeResolver.Subtyping.{Subtype, is_subtype_of, is_subtype_of_decides, double_type}
use peryan.Types.Identity.{IsResolved}
use peryan.Types.{TypePtr, builtin, int_, string_, bool_, char_, is, unmodify, same_object}

abbrev int_type : TypePtr
int_type = builtin int_

abbrev string_type : TypePtr
string_type = builtin string_

abbrev double_reference : TypePtr
double_reference = TypePtr.modifier false true double_type

int_less : can_promote_binary false int_type TokenType.lt (builtin char_) ≡ builtin bool_
unfolding can_promote_binary lookup
int_less = refl

can_promote_binary_strict_example :
    ((is_equality TokenType.lt || is_order TokenType.lt ≡ true) × (bool_ ≡ bool_))
    ⊎ (int_type ≡ builtin bool_) × (builtin char_ ≡ builtin bool_)
can_promote_binary_strict_example =
    can_promote_binary_strict int_type (builtin char_) TokenType.lt bool_ int_less

can_promote_binary_symmetric_example :
    can_promote_binary false int_type TokenType.lt (builtin char_)
    ≡ can_promote_binary false (builtin char_) TokenType.lt int_type
can_promote_binary_symmetric_example =
    can_promote_binary_symmetric int_type (builtin char_) TokenType.lt

can_promote_binary_kept_example :
    can_promote_binary true int_type TokenType.lt (builtin char_) ≡ builtin bool_
can_promote_binary_kept_example =
    can_promote_binary_kept int_type (builtin char_) TokenType.lt bool_ int_less

pub refused :
    (s t : TypePtr) → IsResolved s → IsResolved t → is_subtype_of s t ≡ some false → ¬ Subtype s t
refused s t hs ht answer = elim (is_subtype_of_decides s t hs ht) [
  | inl (e, _) ↦ absurd (some_apart (sym e ∙ answer))
  | inr (_, apart) ↦ apart
]
  where
    some_apart : some true ≢ some false
    some_apart h = cc

string_int_answer : is_subtype_of string_type int_type ≡ some false
unfolding is_subtype_of is unmodify same_object
string_int_answer = refl

string_int : ¬ Subtype string_type int_type
string_int = refused string_type int_type tt tt string_int_answer

double_int_answer : is_subtype_of double_type int_type ≡ some false
unfolding is_subtype_of is unmodify same_object
double_int_answer = refl

double_int : ¬ Subtype double_type int_type
double_int = refused double_type int_type tt tt double_int_answer

double_string_answer : is_subtype_of double_type string_type ≡ some false
unfolding is_subtype_of is unmodify same_object
double_string_answer = refl

double_string : ¬ Subtype double_type string_type
double_string = refused double_type string_type tt tt double_string_answer

string_double_answer : is_subtype_of string_type double_type ≡ some false
unfolding is_subtype_of is unmodify same_object
string_double_answer = refl

string_double : ¬ Subtype string_type double_type
string_double = refused string_type double_type tt tt string_double_answer

add_type_constraints_unrelated_example :
    add_type_constraints (int_type ∷ string_type ∷ double_type ∷ []) none ≡ some asserts
add_type_constraints_unrelated_example =
    add_type_constraints_unrelated int_type string_type double_type tt tt tt string_int double_int
      double_string string_double

insert_promoter-Converts_example :
    (e : Expr) × (insert_promoter (given int_type) double_reference ≡ some e)
    × (type_of e ≡ double_reference)
    × Converts (given int_type) double_reference e
insert_promoter-Converts_example =
    insert_promoter-Converts (given int_type) double_reference tt tt refl refl

abbrev call : Buffer
call = record { read = []; markers = []; lexer = initial (codes "f (1)") }

abbrev steps : List Access
steps = looks 1 ∷ consumes 2 ∷ looks 0 ∷ []

abbrev buffer_of : Result Buffer → Buffer
buffer_of (ok b) = b
buffer_of r = call

abbrev looked : Buffer
looked = buffer_of (access steps (mark call))

looked_run : access steps (mark call) ≡ ok looked
unfolding access lt consumed get_next_token lookahead consume keywords matches_from find_keyword
    read_identifier_length is_identifier_char is_float_literal read_decimal_literal read_number_loop
looked_run = refl

speculation_leaves_no_trace_example :
    ((release looked).markers ≡ call.markers)
    × (more : List Token) × ((release looked).read ≡ call.read ++ more)
speculation_leaves_no_trace_example = speculation_leaves_no_trace steps call looked looked_run
