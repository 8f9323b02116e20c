-- ===== src/Types/Functions.antt =====
-- `FuncType`: its return type, the iterator over its parameters, and the type that
-- `SymbolResolver::visit(FuncDefStmt *)` builds for a function definition.
use peryan.Prelude.{
  ◌<◌, List, [], ◌∷◌, ◌++◌, Option, none, some, ◌≡◌, ◌≢◌, refl, ap, arith, if◌then◌else◌, length,
  length-append, append-nil, ◌∙◌,
}
use peryan.Types.{TypePtr, null, builtin, array, func, void_, ◌>>=◌, is, same_object}

-- `getReturnType` of the function type with this `cdr_`.
unfoldable pub return_type : TypePtr → TypePtr
return_type (func a d) = return_type d
return_type t = t

-- The values that the iterator yields from a node on, up to `end()`: it stops behind a `cdr` that
-- is null or no function type.
unfoldable pub iterate : TypePtr → List TypePtr
iterate (func a d) = a ∷ iterate d
iterate t = []

abbrev pub void_type : TypePtr
void_type = builtin void_

-- From `begin(Void_)` to `end()`, for the function type of `car` and `cdr`.
unfoldable pub params : TypePtr → TypePtr → Option (List TypePtr)
unfolding iterate
params null cdr = some (null ∷ iterate cdr)
params car cdr =
    is car void_type >>= λ none_given. some (if none_given then [] else car ∷ iterate cdr)

-- The loop over the parameters from the last to the first.
unfoldable pub curried : List TypePtr → TypePtr → TypePtr
curried [] t = t
curried (p ∷ ps) t = func p (curried ps t)

unfoldable pub function_type : List TypePtr → TypePtr → TypePtr
unfolding curried
function_type [] t = func void_type t
function_type (p ∷ ps) t = func p (curried ps t)

-- From `begin(Void_)` to `end()` of a type that is a function type.
unfoldable pub params_of : TypePtr → Option (List TypePtr)
unfolding params
params_of (func car cdr) = params car cdr
params_of t = none

-- A type with no parameters of its own is its own return type.
plain_result : (t : TypePtr) → iterate t ≡ [] → return_type t ≡ t
unfolding iterate return_type
plain_result (func a d) h = cc
plain_result null h = refl
plain_result _ h = refl

iterate-curried : (ps : List TypePtr) (t : TypePtr) → iterate (curried ps t) ≡ ps ++ iterate t
unfolding iterate curried
iterate-curried [] t = refl
iterate-curried (p ∷ ps) t = ap (◌∷◌ p) (iterate-curried ps t)

return_type-curried : (ps : List TypePtr) (t : TypePtr) → return_type (curried ps t) ≡ return_type t
unfolding return_type curried
return_type-curried [] t = refl
return_type-curried (p ∷ ps) t = return_type-curried ps t

params-car : (car cdr : TypePtr) → car ≢ void_type → params car cdr ≡ some (car ∷ iterate cdr)
unfolding params is same_object
params-car null cdr h = refl
params-car (builtin void_) cdr h = absurd (h refl)
params-car (builtin _) cdr h = refl
params-car (TypePtr.namespace n) cdr h = refl
params-car (TypePtr.modifier c r e) cdr h = refl
params-car (array e) cdr h = refl
params-car (func a d) cdr h = refl

-- The parameters and the return type of a function are read back from the type that its definition
-- gets, with no parameters too, unless the first parameter has the type `Void` or the return type is
-- a function type. A parameter whose type is not known yet is read back as a null pointer.
pub function_type_reads_back :
    (ps : List TypePtr) (t : TypePtr)
    → ((rest : List TypePtr) → ps ≢ void_type ∷ rest)
    → iterate t ≡ []
    → (params_of (function_type ps t) ≡ some ps) × (return_type (function_type ps t) ≡ t)
unfolding params_of function_type return_type params is same_object
function_type_reads_back [] t first result = (refl, plain_result t result)
function_type_reads_back (p ∷ ps) t first result = (
  params-car p (curried ps t) (λ v. first ps (rw v)) ∙ rw (iterate-curried, result, append-nil),
  return_type-curried ps t ∙ plain_result t result,
)

-- Where the return type is a function type, and there is a parameter, the first of which has not the type
-- `Void`, the parameters of the return type are taken for parameters of the function: the iterator
-- yields more types than the definition has parameters.
pub function_result_adds_params :
    (p a d : TypePtr) (ps : List TypePtr)
    → p ≢ void_type
    → (qs : List TypePtr) × (params_of (function_type (p ∷ ps) (func a d)) ≡ some qs)
      × (length (p ∷ ps) < length qs)
unfolding params_of function_type
function_result_adds_params p a d ps h = (
  p ∷ (ps ++ iterate (func a d)),
  params-car p (curried ps (func a d)) h ∙ rw iterate-curried,
  unfold iterate in omega (arith, length-append ps (a ∷ iterate d)),
)
