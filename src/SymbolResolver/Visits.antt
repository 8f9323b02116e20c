-- ===== src/SymbolResolver/Visits.antt =====
-- `visit` of the identifiers, labels, expressions and statements in src/SymbolResolver.cc.
use peryan.Ast.{
  TypeSpec, no_spec, Identifier, Expr, no_expr, identifier, binary, unary, str_literal, int_literal,
  float_literal, char_literal, bool_literal, array_literal, func_call, constructor_call, subscr,
  member, static_member, label, func_expr, Exprs, no_exprs, and_expr, Stmt, comp_stmt, func_def,
  var_def, assign, instruction, if_stmt, repeat_stmt, label_stmt, goto_stmt, gosub_stmt,
  continue_stmt, break_stmt, return_stmt, extern_stmt, namespace_stmt, Stmts, no_stmts, and_stmt,
  Comp, no_comp, comp, Comps, no_comps, and_comp,
}
use peryan.Prelude.{
  ℕ, Bool, true, false, not, ◌&&◌, List, [], ◌∷◌, Option, none, some, if◌then◌else◌, codes,
}
use peryan.Scopes.{Symbol, var_symbol, same_name}
use peryan.SymbolRegister.{Note, symbol_note, type_note, symbol_of}
use peryan.SymbolResolver.Specs.{visit_spec, spec_position}
use peryan.SymbolResolver.{
  Outcome, ok, M, ◌>>=◌, ◌>>◌, pure, raise, assert_false, stuck, deref, top, inside, add_note,
  add_warning, look_up, symbol_at, noted_symbol, noted_scope, noted_type, set_symbol_type,
  define_in, namespace_as_return_value, namespace_as_parameter, extern_reference, extern_const,
  unknown_identifier, unknown_label,
}
use peryan.Token.{Token, text_of}
use peryan.Types.{TypePtr, null, builtin, int_, void_, namespace, func, is_null, is_ref, is_const}

abbrev pub has_spec : TypeSpec → Bool
has_spec no_spec = false
has_spec spec = true

abbrev pub spelling : Token → List ℕ
spelling t = text_of t.payload

-- The `symbol` and the `type` of the node at a position, as they are now.
unfoldable pub current_symbol : ℕ → M (Option (ℕ × List ℕ))
current_symbol pos st = ok (noted_symbol pos st.notes) st

unfoldable pub current_type : ℕ → M TypePtr
current_type pos st = ok (noted_type pos st.notes) st

-- The node at a position refers to a symbol.
unfoldable pub refer_to : ℕ → Symbol → M (Unit {0})
refer_to pos s = deref s.scope >>= λ id. add_note (symbol_note pos id s.name)

abbrev pub implicit_variable : List ℕ → Symbol
implicit_variable name = symbol_of var_symbol name null 0 none

-- The implicit definition of a global variable.
unfoldable pub define_implicitly : Token → M (Unit {0})
define_implicitly t = do
  add_warning t.position
  failed ← define_in 0 (implicit_variable (spelling t))
  if failed then assert_false else add_note (symbol_note t.position 0 (spelling t))

unfoldable pub refer_or_define : Bool → Token → Option Symbol → M (Unit {0})
refer_or_define hsp_compat t (some s) = refer_to t.position s
refer_or_define true t none = define_implicitly t
refer_or_define false t none = raise t.position unknown_identifier

-- The cases of `id->symbol` and `id->typeSpec`.
unfoldable pub visit_by_symbol : Bool → Identifier → Option (ℕ × List ℕ) → M (Unit {0})
visit_by_symbol hsp_compat i (some symbol) =
    if has_spec i.type_spec
    then (do
      type ← visit_spec i.type_spec
      if is_null type then assert_false else pure tt
      add_note (type_note i.token.position type)
      set_symbol_type symbol type)
    else pure tt
visit_by_symbol hsp_compat i none =
    if has_spec i.type_spec
    then assert_false
    else (look_up (spelling i.token) i.token.position >>= refer_or_define hsp_compat i.token)

unfoldable pub visit_identifier : Bool → Identifier → M (Unit {0})
visit_identifier hsp_compat i = do
  type ← current_type i.token.position
  if is_null type then pure tt else assert_false
  _ ← top
  symbol ← current_symbol i.token.position
  visit_by_symbol hsp_compat i symbol

abbrev pub refer_to_label : Token → Option Symbol → M (Unit {0})
refer_to_label t none = raise t.position unknown_label
refer_to_label t (some s) = refer_to t.position s

abbrev pub visit_new_label : Token → Option (ℕ × List ℕ) → M (Unit {0})
visit_new_label t (some symbol) = pure tt
visit_new_label t none = look_up (b'*' ∷ spelling t) t.position >>= refer_to_label t

unfoldable pub visit_label : Token → M (Unit {0})
visit_label t = do _ ← top; symbol ← current_symbol t.position; visit_new_label t symbol

abbrev pub is_namespace : TypePtr → Bool
is_namespace (namespace id) = true
is_namespace t = false

-- The loop over the parameters, from the last to the first.
unfoldable pub visit_params : Bool → ℕ → List Identifier → TypePtr → M TypePtr
visit_params hsp_compat pos [] type = pure type
visit_params hsp_compat pos (p ∷ ps) type = do
  cdr ← visit_params hsp_compat pos ps type
  visit_identifier hsp_compat p
  car ← current_type p.token.position
  if is_namespace car then raise pos namespace_as_parameter else pure (func car cdr)

unfoldable pub visit_all_params : Bool → ℕ → List Identifier → TypePtr → M TypePtr
visit_all_params hsp_compat pos [] type = pure (func (builtin void_) type)
visit_all_params hsp_compat pos (p ∷ ps) type = visit_params hsp_compat pos (p ∷ ps) type

unfoldable pub visit_return_spec : ℕ → TypeSpec → M TypePtr
visit_return_spec pos spec = do
  type ← if has_spec spec then visit_spec spec else pure null
  if is_namespace type then raise pos namespace_as_return_value else pure type

unfoldable pub unless_null : Expr → M (Unit {0}) → M (Unit {0})
unless_null no_expr visit = pure tt
unless_null e visit = visit

unfoldable pub check_extern_type : ℕ → TypePtr → M (Unit {0})
check_extern_type pos type = do
  reference ← deref (is_ref type)
  if reference then raise pos extern_reference else pure tt
  constant ← deref (is_const type)
  if constant then raise pos extern_const else pure tt

-- The member is visited for an implicit variable in the place of a member.
abbrev pub visits_member : Bool → Identifier → Bool
visits_member hsp_compat i = hsp_compat && not (same_name (spelling i.token) (codes "length"))

-- `rs->scope->define(...)`, whose answer is not looked at.
unfoldable pub define_cnt : ℕ → ℕ → M (Unit {0})
define_cnt pos id =
    define_in id (symbol_of var_symbol (codes "cnt") (builtin int_) pos none) >>= λ _. pure tt

-- The expressions and statements; `registered` is what SymbolRegister has set in the tree.
module _ (hsp_compat : Bool) (registered : List Note) where
  unfoldable mutual
    pub visit_expr : Expr → M (Unit {0})
    visit_expr no_expr = stuck
    visit_expr (identifier i) = visit_identifier hsp_compat i
    visit_expr (binary lhs t rhs) = visit_expr lhs >> visit_expr rhs
    visit_expr (unary t rhs) = visit_expr rhs
    visit_expr (str_literal t) = pure tt
    visit_expr (int_literal t) = pure tt
    visit_expr (float_literal t) = pure tt
    visit_expr (char_literal t) = pure tt
    visit_expr (bool_literal t) = pure tt
    visit_expr (array_literal t elements) = visit_exprs elements
    visit_expr (func_call t f params partial is_inst) = visit_expr f >> visit_present params
    visit_expr (constructor_call t spec params) = visit_spec spec >> visit_exprs params
    visit_expr (subscr array t subscript) = visit_expr array >> visit_expr subscript
    visit_expr (member receiver t i) = do
      visit_expr receiver
      if visits_member hsp_compat i then visit_identifier hsp_compat i else pure tt
    visit_expr (static_member receiver t i) = visit_spec receiver >> pure tt
    visit_expr (label t) = visit_label t
    visit_expr (func_expr t params spec body) = pure tt

    pub visit_exprs : Exprs → M (Unit {0})
    visit_exprs no_exprs = pure tt
    visit_exprs (and_expr e es) = visit_expr e >> visit_exprs es

    -- The loops that pass over a null pointer.
    pub visit_present : Exprs → M (Unit {0})
    visit_present no_exprs = pure tt
    visit_present (and_expr e es) = unless_null e (visit_expr e) >> visit_present es

  unfoldable mutual
    pub visit : Stmt → M (Unit {0})
    visit (comp_stmt c) = visit_comp c
    visit (func_def t name params defaults spec body) = do
      symbol ← deref (noted_symbol name.token.position registered)
      function ← symbol_at symbol
      scope ← deref function.members
      inside scope (do
        result ← visit_return_spec t.position spec
        visit_present defaults
        type ← visit_all_params hsp_compat t.position params result
        visit_comp body
        set_symbol_type symbol type)
    visit (var_def t i init) = visit_identifier hsp_compat i >> unless_null init (visit_expr init)
    visit (assign lhs t rhs) = visit_expr lhs >> unless_null rhs (visit_expr rhs)
    visit (instruction e) = visit_expr e
    visit (if_stmt t conditions thens otherwise) =
        visit_branches conditions thens >> visit_else otherwise
    visit (repeat_stmt t count ss) = do
      unless_null count (visit_expr count)
      scope ← deref (noted_scope t.position registered)
      define_cnt t.position scope
      inside scope (visit_stmts ss)
    visit (label_stmt t l) = pure tt
    visit (goto_stmt t l) = visit_label l
    visit (gosub_stmt t l) = visit_label l
    visit (continue_stmt t) = pure tt
    visit (break_stmt t) = pure tt
    visit (return_stmt t e) = unless_null e (visit_expr e)
    visit (extern_stmt t i defaults) = do
      visit_identifier hsp_compat i
      type ← current_type i.token.position
      check_extern_type i.token.position type
      visit_present defaults
    visit (namespace_stmt t name ss) = do
      symbol ← deref (noted_symbol (spec_position name) registered)
      space ← symbol_at symbol
      scope ← deref space.members
      inside scope (visit_stmts ss)

    pub visit_comp : Comp → M (Unit {0})
    visit_comp no_comp = stuck
    visit_comp (comp t ss) = do
      scope ← deref (noted_scope t.position registered)
      inside scope (visit_stmts ss)

    pub visit_else : Comp → M (Unit {0})
    visit_else no_comp = pure tt
    visit_else (comp t ss) = do
      scope ← deref (noted_scope t.position registered)
      inside scope (visit_stmts ss)

    -- A condition and the block behind it, in the order of the loop.
    pub visit_branches : Exprs → Comps → M (Unit {0})
    visit_branches no_exprs thens = pure tt
    visit_branches (and_expr e es) no_comps = stuck
    visit_branches (and_expr e es) (and_comp c cs) =
        visit_expr e >> visit_comp c >> visit_branches es cs

    pub visit_stmts : Stmts → M (Unit {0})
    visit_stmts no_stmts = pure tt
    visit_stmts (and_stmt s ss) = visit s >> visit_stmts ss

  -- `assert(scopes.empty())`.
  unfoldable pub check_empty : M (Unit {0})
  check_empty st = by_stack st.stack
    where
      by_stack : List ℕ → Outcome (Unit {0})
      by_stack [] = ok tt st
      by_stack (id ∷ ids) = Outcome.asserts

  -- `visit(TransUnit *)`.
  unfoldable pub visit_unit : Stmts → M (Unit {0})
  visit_unit ss = inside 0 (visit_stmts ss) >> check_empty
