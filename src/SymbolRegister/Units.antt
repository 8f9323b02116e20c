-- ===== src/SymbolRegister/Units.antt =====
-- The pass on a whole program.
use peryan.Prelude.{
  ℕ, zero, suc, ◌<◌, Bool, true, List, [], ◌∷◌, ◌++◌, some, ◌≡◌, ◌≢◌, ◌⊎◌, inl, inr, refl, sym, ap,
  ◌∙◌, subst, arith, length, length-append, Option-cases, Bool-cases, ==_iff, ◌==◌,
}
use peryan.Scopes.Definition.{resolve_loop_frame, define-Defines}
use peryan.Scopes.Resolution.{IsNested, scope_at_below}
use peryan.Scopes.{Scope, scope_at, symbol_table, resolve, resolve_loop}
use peryan.SymbolRegister.Completion.Visits.{register_stmts-Completes, symbol_table-IsReady}
use peryan.SymbolRegister.Completion.{Completes, NotesAreLive, completes, refuses}
use peryan.SymbolRegister.Invariants.{
  AreSound, AreSound-IsNested, Reaches-AreSound, scope_at_append_old, scope_at_append_new,
  symbol_table-AreSound,
}
use peryan.SymbolRegister.Steps.{
  Reaches, start, defines, opens, IsAllowed-not_reserved, define_keeps_length,
}
use peryan.SymbolRegister.{
  Stmts, State, Outcome, Message, ok, throws, ◌>>=◌, is_disallowed_identifier, pop, register_unit,
}

-- A pass that ends without an error: the stack is empty, the scopes are sound and come from those of
-- the new symbol table by steps, and the symbols in the tree lie in scopes that exist.
pub record IsRegistered (st : State) : Type 0 where
  pub emptied : st.stack ≡ []
  pub sound : AreSound st.store
  pub steps : Reaches symbol_table st.store
  pub noted : NotesAreLive (length st.store) st.notes

-- Registering a program ends with a SemanticsError, or with an empty stack of scopes, as the code
-- asserts. Then each scope is enclosed by an older one and holds no name twice, each symbol points to
-- its scope, the symbols that the program defines have allowed names, and the symbols that are set in
-- the tree lie in scopes that exist. No null pointer and no empty stack is used.
pub register_unit_outcome :
    (hsp_compat : Bool) (stmts : Stmts)
    → ((pos : ℕ) × (m : Message) × (register_unit hsp_compat stmts ≡ throws pos m))
      ⊎ (st : State) × (register_unit hsp_compat stmts ≡ ok st) × IsRegistered st
unfolding register_unit pop
register_unit_outcome hsp_compat stmts = by_outcome (
    register_stmts-Completes hsp_compat stmts
      (record { stack = 0 ∷ []; store = symbol_table; notes = []; warnings = [] })
      symbol_table-IsReady)
  where
    by_outcome :
        {o : Outcome}
        → Completes (record { stack = 0 ∷ []; store = symbol_table; notes = []; warnings = [] }) o
        → ((pos : ℕ) × (m : Message) × ((o >>= pop) ≡ throws pos m))
          ⊎ (st : State) × ((o >>= pop) ≡ ok st) × IsRegistered st
    by_outcome (completes {st' = st} e q live) = inr (
      record st { stack = [] },
      rw e refl,
      record {
        emptied = refl;
        sound = Reaches-AreSound symbol_table st.store q symbol_table-AreSound;
        steps = q;
        noted = live (unfold NotesAreLive in tt);
      },
    )
    by_outcome (refuses {pos = pos} {m = m}) = inl (pos, m, refl)

append_frame :
    (f : ℕ) (st : List Scope) (new : Scope) (id : ℕ) (name : List ℕ) (cur_pos : ℕ)
    → IsNested st
    → id < length st
    → resolve_loop f (st ++ (new ∷ [])) id name cur_pos ≡ resolve_loop f st id name cur_pos
unfolding resolve_loop
append_frame zero st new id name cur_pos n h = refl
append_frame (suc f) st new id name cur_pos n h =
    by_scope (λ up k. append_frame f st new up name cur_pos n k) (scope_at_below st id h)
  where
    by_scope :
        ((up : ℕ)
          → up < length st
          → resolve_loop f (st ++ (new ∷ [])) up name cur_pos ≡ resolve_loop f st up name cur_pos)
        → (sc : Scope) × (scope_at st id ≡ some sc)
        → resolve_loop (suc f) (st ++ (new ∷ [])) id name cur_pos
          ≡ resolve_loop (suc f) st id name cur_pos
    by_scope ih (sc, e) = elim (Option-cases sc.enclosing) [
      | inl top ↦ rw (scope_at_append_old st new id e, e, top) refl
      | inr (up, en) ↦
          let older : up < id = unfold IsNested in n id sc up e en in
          rw (scope_at_append_old st new id e, e, en, ih up (omega arith)) refl
    ]

reserved_loop :
    (st : List Scope) (f id : ℕ) (name : List ℕ) (cur_pos : ℕ)
    → Reaches symbol_table st
    → is_disallowed_identifier name ≡ true
    → id < f
    → id < length st
    → resolve_loop f st id name cur_pos ≡ resolve symbol_table 0 name cur_pos
unfolding resolve_loop resolve
reserved_loop st zero id name cur_pos q d k h = absurd (omega arith)
reserved_loop st (suc f) zero name cur_pos start d k h = refl
reserved_loop st (suc f) (suc id) name cur_pos start d k h = absurd (omega arith)
reserved_loop st (suc f) id name cur_pos (defines {st₁ = st₁} at s q a e w) d k h =
    resolve_loop_frame st₁ at s st e (suc f) id name cur_pos (define-Defines st₁ at s st e)
      (λ same. IsAllowed-not_reserved s.name a (rw same at d))
    ∙ reserved_loop st₁ (suc f) id name cur_pos q d k
        (omega (arith, h, define_keeps_length st₁ at s st e))
reserved_loop st (suc f) id name cur_pos (opens {st₁ = st₁} t parent q p) d k h =
    let n = AreSound-IsNested st₁ (Reaches-AreSound symbol_table st₁ q symbol_table-AreSound) in
    elim (Bool-cases (id == length st₁)) [
      | inl e ↦
          let last : id ≡ length st₁ = (==_iff id (length st₁)).0 e in
          rw
            (
              last,
              scope_at_append_new st₁
                  (record { scope_type = t; enclosing = some parent; symbols = [] }),
            )
            (append_frame f st₁ _ parent name cur_pos n p
              ∙ reserved_loop st₁ f parent name cur_pos q d (omega (arith, k, last, p)) p)
      | inr e ↦
          let differs : id ≢ length st₁ = λ q. ground arith in
          let old : id < length st₁ = omega (
            arith,
            h,
            differs,
            length-append st₁
                (record { scope_type = t; enclosing = some parent; symbols = [] } ∷ []),
          ) in
          append_frame (suc f) st₁ _ id name cur_pos n old
          ∙ reserved_loop st₁ (suc f) id name cur_pos q d k old
    ]

abbrev store_of : Outcome → List Scope
store_of (ok s) = s.store
store_of o = []

-- No program changes what a name that may not be declared means: after the pass it means in every
-- scope, at every position, what it means in a new symbol table.
pub reserved_names_keep_meaning :
    (hsp_compat : Bool) (stmts : Stmts) (st : State) (id : ℕ) (name : List ℕ) (cur_pos : ℕ)
    → register_unit hsp_compat stmts ≡ ok st
    → is_disallowed_identifier name ≡ true
    → id < length st.store
    → resolve st.store id name cur_pos ≡ resolve symbol_table 0 name cur_pos
unfolding resolve
reserved_names_keep_meaning hsp_compat stmts st id name cur_pos e d h =
    elim (register_unit_outcome hsp_compat stmts) [
      | inl (pos, m, refused) ↦ cc
      | inr (st', e', r) ↦
          let same : st.store ≡ st'.store = ap store_of (sym e ∙ e') in
          reserved_loop st.store (suc id) id name cur_pos
            (subst (Reaches symbol_table) (sym same) r.steps) d (omega arith) h
    ]
