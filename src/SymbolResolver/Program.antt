-- ===== src/SymbolResolver/Program.antt =====
-- The pass of src/SymbolResolver.cc behind that of src/SymbolRegister.cc, as `Parser::parse` of
-- src/Parser.cc calls them.
use mathlib.Core.Option.{some-injective}
use peryan.Ast
use peryan.FrontEnd.{seen_stmts}
use peryan.Prelude.{
  ℕ, zero, suc, ◌<◌, ◌≤◌, Bool, List, [], ◌∷◌, ◌++◌, some, ◌≡◌, ◌⊎◌, inl, inr, refl, sym, ap, ◌∙◌,
  subst, arith, length, length-append, All, ◌==◌, Bool-cases,
}
use peryan.Scopes.Definition.{define-Defines}
use peryan.Scopes.{
  SymbolType, builtin_type_symbol, namespace_symbol, Symbol, Scope, get_member, placed, same_name,
  scope_at, symbol_table, with_symbol,
}
use peryan.SymbolRegister.Completion.{NotesAreLive}
use peryan.SymbolRegister.Invariants.{scope_at_append}
use peryan.SymbolRegister.Steps.{KindIsDeclarable, Reaches, Reaches-grows, defines, opens, start}
use peryan.SymbolRegister.Units.{IsRegistered, register_unit_outcome}
use peryan.SymbolRegister.{Note, State, register_unit, scope_note, symbol_note, type_note}
use peryan.SymbolRegister
use peryan.SymbolResolver.Annotated.{AreAnnotated}
use peryan.SymbolResolver.Ends.{AreLive}
use peryan.SymbolResolver.Specs.{builtin_named}
use peryan.SymbolResolver.Store.{AreWhole, IsWhole, KindIsWhole, put-AreWhole, with_symbol-Improves}
use peryan.SymbolResolver.Units.{IsPrepared, IsResolved, visit_unit_outcome}
use peryan.SymbolResolver.Visits.{visit_unit}
use peryan.SymbolResolver.{Message, asserts, noted_symbol, ok, throws}
use peryan.Types.{int_, string_, char_, float_, double_, bool_, void_, label_}

declared_whole :
    (n id : ℕ) (s : Symbol) (k : SymbolType)
    → KindIsDeclarable n k s
    → KindIsWhole n k (placed id s)
declared_whole n id s builtin_type_symbol h = absurd h
declared_whole n id s namespace_symbol h = h
declared_whole n id s _ h = tt

whole_mono : (m n : ℕ) (s : Symbol) (k : SymbolType) → m ≤ n → KindIsWhole m k s → KindIsWhole n k s
whole_mono m n s builtin_type_symbol h w = w
whole_mono m n s namespace_symbol h (id, e, k) = (id, e, omega (arith, h, k))
whole_mono m n s _ h w = tt

get_member-IsWhole :
    (n : ℕ) (name : List ℕ) (ss : List Symbol) (s : Symbol)
    → All (IsWhole n) ss
    → get_member name ss ≡ some s
    → IsWhole n s
unfolding get_member
get_member-IsWhole n name [] s a h = cc
get_member-IsWhole n name (t ∷ ss) s a h = elim (Bool-cases (same_name name t.name)) [
  | inl e ↦ subst (IsWhole n) (some-injective _ _ (rw e at h)) a.0
  | inr e ↦ get_member-IsWhole n name ss s a.1 (rw e at h)
]

unfoldable pub global_symbols : List Symbol
global_symbols = symbols_of symbol_table
  where
    symbols_of : List Scope → List Symbol
    symbols_of [] = []
    symbols_of (sc ∷ scs) = sc.symbols

global-IsWhole : All (IsWhole 1) global_symbols
unfolding global_symbols IsWhole builtin_named same_name
global-IsWhole = (
  (label_, refl),
  (
    (void_, refl),
    (
      (bool_, refl),
      ((double_, refl), ((float_, refl), ((char_, refl), ((string_, refl), ((int_, refl), tt))))),
    ),
  ),
)

pub symbol_table-AreWhole : AreWhole symbol_table
unfolding AreWhole scope_at global_symbols
symbol_table-AreWhole zero sc name s e m =
    get_member-IsWhole 1 name global_symbols s global-IsWhole
      (ap (λ (x : Scope). get_member name x.symbols) (some-injective _ _ e) ∙ m)
symbol_table-AreWhole (suc i) sc name s e m = cc

opens-AreWhole :
    (st : List Scope) (new : Scope) → new.symbols ≡ [] → AreWhole st → AreWhole (st ++ (new ∷ []))
unfolding AreWhole IsWhole get_member
opens-AreWhole st new none_yet h i sc name s e m = elim (scope_at_append st new i e) [
  | inl old ↦
      whole_mono (length st) (length (st ++ (new ∷ []))) s s.symbol_type
        (omega (arith, length-append st (new ∷ []))) (h i sc name s old m)
  | inr (last, same) ↦
      let empty : sc.symbols ≡ [] = ap (λ (x : Scope). x.symbols) (sym same) ∙ none_yet in
      cc (rw empty at m)
]

Reaches-AreWhole : (st st' : List Scope) → Reaches st st' → AreWhole st → AreWhole st'
Reaches-AreWhole st st' start h = h
Reaches-AreWhole st st' (defines {st₁ = st₁} id s q a e w) h =
    let d = define-Defines st₁ id s st' e in
    subst AreWhole (sym d.result) (
      put-AreWhole st₁ id d.into (with_symbol id s d.into) d.stood
        (with_symbol-Improves (length st₁) id d.into s d.fresh
          (unfold IsWhole in declared_whole (length st₁) id s s.symbol_type w))
        (Reaches-AreWhole st st₁ q h))
Reaches-AreWhole st st' (opens {st₁ = st₁} t parent q k) h =
    opens-AreWhole st₁ _ refl (Reaches-AreWhole st st₁ q h)

NotesAreLive-AreLive : (n : ℕ) (ns : List Note) → NotesAreLive n ns → AreLive n ns
unfolding NotesAreLive AreLive noted_symbol
NotesAreLive-AreLive n [] h pos id name e = cc
NotesAreLive-AreLive n (symbol_note p i m ∷ ns) h pos id name e = elim (Bool-cases (p == pos)) [
  | inl q ↦
      subst (λ (j : ℕ). j < n) (ap (λ (r : ℕ × List ℕ). r.0) (some-injective _ _ (rw q at e))) h.0
  | inr q ↦ NotesAreLive-AreLive n ns h.1 pos id name (rw q at e)
]
NotesAreLive-AreLive n (scope_note p i ∷ ns) h pos id name e =
    NotesAreLive-AreLive n ns h pos id name e
NotesAreLive-AreLive n (type_note p t ∷ ns) h pos id name e =
    NotesAreLive-AreLive n ns h pos id name e

IsRegistered-IsPrepared : (st : State) → IsRegistered st → IsPrepared st
IsRegistered-IsPrepared st r = record {
  emptied = r.emptied;
  has_global = omega (arith, Reaches-grows r.steps);
  sound = r.sound;
  whole = Reaches-AreWhole symbol_table st.store r.steps symbol_table-AreWhole;
  noted = NotesAreLive-AreLive (length st.store) st.notes r.noted;
}

abbrev state_or : State → SymbolRegister.Outcome → State
state_or default (SymbolRegister.ok st) = st
state_or default o = default

-- A program that SymbolRegister accepts, and whose tree has the symbols and scopes that it sets, is
-- resolved in the scopes that it leaves: with a SemanticsError, with a failed assertion, or with an
-- empty stack of scopes, as the code asserts. Then each scope is enclosed by an older one and holds no
-- name twice, each symbol points to its scope, there are as many scopes as before, and each symbol that
-- was registered is still found under its name in its scope, with the same kind, position and members.
-- No null pointer and no empty stack is used.
pub registered_program_resolves :
    (hsp_compat : Bool) (ss : Ast.Stmts) (st : State)
    → register_unit hsp_compat (seen_stmts ss) ≡ SymbolRegister.ok st
    → AreAnnotated st.store st.notes ss
    → ((pos : ℕ) × (m : Message) × (visit_unit hsp_compat st.notes ss st ≡ throws pos m))
      ⊎ (visit_unit hsp_compat st.notes ss st ≡ asserts)
      ⊎ (st' : State) × (visit_unit hsp_compat st.notes ss st ≡ ok tt st') × IsResolved st st'
registered_program_resolves hsp_compat ss st e h =
    elim (register_unit_outcome hsp_compat (seen_stmts ss)) [
      | inl (pos, m, refused) ↦ cc
      | inr (st', e', r) ↦
          visit_unit_outcome hsp_compat st ss
            (IsRegistered-IsPrepared st (subst IsRegistered (ap (state_or st) (sym e' ∙ e)) r)) h
    ]
