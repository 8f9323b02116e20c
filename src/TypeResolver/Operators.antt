-- ===== src/TypeResolver/Operators.antt =====
-- The promotion tables of the binary operators: `initBinaryPromotionTable` and `canPromoteBinary`.
pub mod Rules
use peryan.Prelude.{
  ℕ, Bool, true, false, ◌&&◌, ◌||◌, List, [], ◌∷◌, Option, none, some, if◌then◌else◌, get_or,
}
use peryan.Token.{TokenType}
use peryan.Types.{
  Builtin, int_, string_, char_, float_, double_, bool_, void_, label_, TypePtr, null, builtin,
  index,
}

-- A row without entries.
abbrev nothing : List (Option Builtin)
nothing = []

-- The rows are the left operand and the columns the right one, both in the order Bool, Char, Int,
-- Float, Double, String, Void, Label.
abbrev caret_pipe_amp : List (List (Option Builtin))
caret_pipe_amp =
    (some bool_ ∷ none ∷ none ∷ none ∷ none ∷ none ∷ none ∷ none ∷ [])
    ∷ nothing
    ∷ (none ∷ none ∷ some int_ ∷ none ∷ none ∷ none ∷ none ∷ none ∷ [])
    ∷ nothing
    ∷ nothing
    ∷ nothing
    ∷ nothing
    ∷ nothing
    ∷ []

abbrev eql_eqeq_excleq_excl : List (List (Option Builtin))
eql_eqeq_excleq_excl =
    (some bool_ ∷ none ∷ none ∷ none ∷ none ∷ none ∷ none ∷ none ∷ [])
    ∷ (none ∷ some bool_ ∷ none ∷ none ∷ none ∷ none ∷ none ∷ none ∷ [])
    ∷ (none ∷ none ∷ some bool_ ∷ none ∷ none ∷ none ∷ none ∷ none ∷ [])
    ∷ (none ∷ none ∷ none ∷ some bool_ ∷ none ∷ none ∷ none ∷ none ∷ [])
    ∷ (none ∷ none ∷ none ∷ none ∷ some bool_ ∷ none ∷ none ∷ none ∷ [])
    ∷ (none ∷ none ∷ none ∷ none ∷ none ∷ some bool_ ∷ none ∷ none ∷ [])
    ∷ (none ∷ none ∷ none ∷ none ∷ none ∷ none ∷ some bool_ ∷ none ∷ [])
    ∷ (none ∷ none ∷ none ∷ none ∷ none ∷ none ∷ none ∷ some bool_ ∷ [])
    ∷ []

abbrev lt_lteq_gt_gteq : List (List (Option Builtin))
lt_lteq_gt_gteq =
    nothing
    ∷ (none ∷ some bool_ ∷ some bool_ ∷ none ∷ none ∷ none ∷ none ∷ none ∷ [])
    ∷ (none ∷ some bool_ ∷ some bool_ ∷ none ∷ none ∷ none ∷ none ∷ none ∷ [])
    ∷ (none ∷ none ∷ none ∷ some bool_ ∷ some bool_ ∷ none ∷ none ∷ none ∷ [])
    ∷ (none ∷ none ∷ none ∷ some bool_ ∷ some bool_ ∷ none ∷ none ∷ none ∷ [])
    ∷ nothing
    ∷ nothing
    ∷ nothing
    ∷ []

abbrev ltlt_gtgt : List (List (Option Builtin))
ltlt_gtgt =
    nothing
    ∷ nothing
    ∷ (none ∷ none ∷ some int_ ∷ none ∷ none ∷ none ∷ none ∷ none ∷ [])
    ∷ nothing
    ∷ nothing
    ∷ nothing
    ∷ nothing
    ∷ nothing
    ∷ []

abbrev plus_minus_star_slash : List (List (Option Builtin))
plus_minus_star_slash =
    nothing
    ∷ (none ∷ some char_ ∷ none ∷ none ∷ none ∷ none ∷ none ∷ none ∷ [])
    ∷ (none ∷ none ∷ some int_ ∷ none ∷ none ∷ none ∷ none ∷ none ∷ [])
    ∷ (none ∷ none ∷ none ∷ some float_ ∷ none ∷ none ∷ none ∷ none ∷ [])
    ∷ (none ∷ none ∷ none ∷ none ∷ some double_ ∷ none ∷ none ∷ none ∷ [])
    ∷ nothing
    ∷ nothing
    ∷ nothing
    ∷ []

abbrev hsp_compat_plus_minus_star_slash : List (List (Option Builtin))
hsp_compat_plus_minus_star_slash =
    (some int_ ∷ some int_ ∷ some int_ ∷ some int_ ∷ some int_ ∷ none ∷ none ∷ none ∷ [])
    ∷ (none ∷ some char_ ∷ none ∷ none ∷ none ∷ none ∷ none ∷ none ∷ [])
    ∷ (some int_ ∷ some int_ ∷ some int_ ∷ some int_ ∷ some int_ ∷ none ∷ none ∷ none ∷ [])
    ∷ (some float_
        ∷ some float_
        ∷ some float_
        ∷ some float_
        ∷ some double_
        ∷ none
        ∷ none
        ∷ none
        ∷ [])
    ∷ (some double_
        ∷ some double_
        ∷ some double_
        ∷ some double_
        ∷ some double_
        ∷ none
        ∷ none
        ∷ none
        ∷ [])
    ∷ nothing
    ∷ nothing
    ∷ nothing
    ∷ []

abbrev perc : List (List (Option Builtin))
perc =
    nothing
    ∷ nothing
    ∷ (none ∷ none ∷ some int_ ∷ none ∷ none ∷ none ∷ none ∷ none ∷ [])
    ∷ nothing
    ∷ nothing
    ∷ nothing
    ∷ nothing
    ∷ nothing
    ∷ []

abbrev string_plus : List (List (Option Builtin))
string_plus =
    nothing
    ∷ nothing
    ∷ nothing
    ∷ nothing
    ∷ nothing
    ∷ (none ∷ none ∷ none ∷ none ∷ none ∷ some string_ ∷ none ∷ none ∷ [])
    ∷ nothing
    ∷ nothing
    ∷ []

abbrev hsp_compat_string_plus : List (List (Option Builtin))
hsp_compat_string_plus =
    nothing
    ∷ nothing
    ∷ nothing
    ∷ nothing
    ∷ nothing
    ∷ (none ∷ none ∷ some string_ ∷ none ∷ none ∷ some string_ ∷ none ∷ none ∷ [])
    ∷ nothing
    ∷ nothing
    ∷ []

-- The arrays of token types, as tests.
abbrev pub is_caret_pipe_amp : TokenType → Bool
is_caret_pipe_amp TokenType.caret = true
is_caret_pipe_amp TokenType.pipe = true
is_caret_pipe_amp TokenType.amp = true
is_caret_pipe_amp t = false

abbrev pub is_equality : TokenType → Bool
is_equality TokenType.eql = true
is_equality TokenType.eqeq = true
is_equality TokenType.excleq = true
is_equality TokenType.excl = true
is_equality t = false

abbrev pub is_order : TokenType → Bool
is_order TokenType.lt = true
is_order TokenType.lteq = true
is_order TokenType.gt = true
is_order TokenType.gteq = true
is_order t = false

abbrev pub is_shift : TokenType → Bool
is_shift TokenType.ltlt = true
is_shift TokenType.gtgt = true
is_shift t = false

abbrev pub is_arithmetic : TokenType → Bool
is_arithmetic TokenType.plus = true
is_arithmetic TokenType.minus = true
is_arithmetic TokenType.star = true
is_arithmetic TokenType.slash = true
is_arithmetic t = false

abbrev pub is_perc : TokenType → Bool
is_perc TokenType.perc = true
is_perc t = false

abbrev pub is_plus : TokenType → Bool
is_plus TokenType.plus = true
is_plus t = false

-- A use of REGISTER_BINARY_PROMOTION.
pub record Registration : Type 0 where
  pub table : List (List (Option Builtin))
  pub covers : TokenType → Bool

abbrev registration : List (List (Option Builtin)) → (TokenType → Bool) → Registration
registration t p = record { table = t; covers = p }

-- In the order of `initBinaryPromotionTable`.
abbrev pub registrations : Bool → List Registration
registrations hsp_compat =
    registration caret_pipe_amp is_caret_pipe_amp
    ∷ registration eql_eqeq_excleq_excl is_equality
    ∷ registration lt_lteq_gt_gteq is_order
    ∷ registration ltlt_gtgt is_shift
    ∷ registration (if hsp_compat then hsp_compat_plus_minus_star_slash else plus_minus_star_slash)
        is_arithmetic
    ∷ registration perc is_perc
    ∷ registration (if hsp_compat then hsp_compat_string_plus else string_plus) is_plus
    ∷ []

abbrev pub entry : List (List (Option Builtin)) → Builtin → Builtin → Option Builtin
entry table lhs rhs = get_or (get_or table (index lhs) nothing) (index rhs) none

-- What a registration itself writes.
abbrev pub registers : Registration → Builtin → TokenType → Builtin → Option Builtin
registers r lhs t rhs = if r.covers t then entry r.table lhs rhs else none

abbrev pub last_of : Option Builtin → Option Builtin → Option Builtin
last_of first none = first
last_of first (some t) = some t

-- An entry of `binaryPromotionTable`: a later registration overwrites an earlier one.
unfoldable pub lookup : List Registration → Builtin → TokenType → Builtin → Option Builtin
lookup [] lhs t rhs = none
lookup (r ∷ rs) lhs t rhs = last_of (registers r lhs t rhs) (lookup rs lhs t rhs)

abbrev pub pointer : Option Builtin → TypePtr
pointer none = null
pointer (some t) = builtin t

-- The keys are pointers, and only the built-in types are entered.
unfoldable pub can_promote_binary : Bool → TypePtr → TokenType → TypePtr → TypePtr
unfolding lookup
can_promote_binary hsp_compat (builtin lhs) t (builtin rhs) =
    pointer (lookup (registrations hsp_compat) lhs t rhs)
can_promote_binary hsp_compat lhs t rhs = null
