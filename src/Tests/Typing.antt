-- ===== src/Tests/Typing.antt =====
-- The theorems on types, at concrete types.
use peryan.Prelude.{
  ℕ, arith, List, [], ◌∷◌, ◌≡◌, ◌≢◌, refl, true, false, some, ◌⊎◌, ◌<◌, length, ap,
}
use peryan.TypeResolver.Modifiers.{
  can_convert_modifier, can_convert_modifier_rule, can_promote, can_promote_strict, may_convert,
}
use peryan.TypeResolver.Subtyping.{
  is_subtype_of, is_subtype_of_decides, Subtype, float_type, double_type,
}
use peryan.Types.Functions.{
  function_type, function_type_reads_back, function_result_adds_params, iterate, params_of,
  return_type, void_type,
}
use peryan.Types.Identity.{is_decides}
use peryan.Types.{TypePtr, builtin, int_, string_, array, func, is, unmodify, index}

abbrev int_type : TypePtr
int_type = builtin int_

abbrev int_reference : TypePtr
int_reference = TypePtr.modifier false true int_type

abbrev const_strings : TypePtr
const_strings = TypePtr.modifier true false (array (builtin string_))

abbrev number : TypePtr → ℕ
number (builtin b) = index b
number t = 0

int_not_void : int_type ≢ void_type
int_not_void h = let same = ap number h in omega arith

is_decides_example :
    ((is const_strings int_reference ≡ some true) × (const_strings ≡ int_reference))
    ⊎ ((is const_strings int_reference ≡ some false) × (const_strings ≢ int_reference))
is_decides_example = is_decides const_strings int_reference tt tt

is_subtype_of_decides_example :
    ((is_subtype_of float_type double_type ≡ some true) × Subtype float_type double_type)
    ⊎ ((is_subtype_of float_type double_type ≡ some false) × (¬ Subtype float_type double_type))
is_subtype_of_decides_example = is_subtype_of_decides float_type double_type tt tt

can_convert_modifier_rule_example :
    can_convert_modifier int_type int_reference true
    ≡ some (may_convert int_type int_reference true)
can_convert_modifier_rule_example = can_convert_modifier_rule int_type int_reference true tt tt

int_value : unmodify int_type ≡ some int_type
unfolding unmodify
int_value = refl

reference_value : unmodify int_reference ≡ some int_type
unfolding unmodify
reference_value = refl

can_promote_strict_example :
    ((can_promote false int_type int_reference false
        ≡ some (may_convert int_type int_reference false, false))
      × Subtype int_type int_type)
    ⊎ ((can_promote false int_type int_reference false ≡ some (false, false))
        × (¬ Subtype int_type int_type))
can_promote_strict_example =
    can_promote_strict int_type int_reference int_type int_type false tt tt int_value
      reference_value

no_parameters : iterate const_strings ≡ []
unfolding iterate
no_parameters = refl

abbrev first : List TypePtr → TypePtr
first [] = int_type
first (t ∷ ts) = t

first_not_void : (rest : List TypePtr) → int_type ∷ float_type ∷ [] ≢ void_type ∷ rest
first_not_void rest h = int_not_void (ap first h)

function_type_reads_back_example :
    (params_of (function_type (int_type ∷ float_type ∷ []) const_strings)
      ≡ some (int_type ∷ float_type ∷ []))
    × (return_type (function_type (int_type ∷ float_type ∷ []) const_strings) ≡ const_strings)
function_type_reads_back_example =
    function_type_reads_back (int_type ∷ float_type ∷ []) const_strings first_not_void no_parameters

function_result_adds_params_example :
    (qs : List TypePtr) × (params_of (function_type (int_type ∷ []) (func float_type double_type))
      ≡ some qs)
    × (length {A = TypePtr} (int_type ∷ []) < length qs)
function_result_adds_params_example =
    function_result_adds_params int_type float_type double_type [] int_not_void
