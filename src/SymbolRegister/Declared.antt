-- ===== src/SymbolRegister/Declared.antt =====
-- The symbols that the visits of src/SymbolRegister.cc leave in the scopes.
use peryan.Prelude.{
  ℕ, ◌<◌, false, List, some, ◌≡◌, ◌≢◌, inl, inr, refl, ◌∙◌, subst, arith, ◌==◌, ==_iff, length,
  Bool-cases,
}
use peryan.Scopes.Definition.{
  define-Defines, get_member_first, get_member_other, scope_at_put, scope_at_put_other,
  define_answers,
}
use peryan.Scopes.{SymbolType, Symbol, Scope, define, get_member, placed, scope_at, with_symbol}
use peryan.SymbolRegister.Completion.{Completes, IsReady, completes, refuses, follow-IsReady}
use peryan.SymbolRegister.Invariants.{scope_at_append_old}
use peryan.SymbolRegister.Steps.{IsAllowed, IsDeclarable, Reaches, start, defines, opens}
use peryan.SymbolRegister.{
  State, Outcome, ok, ◌>>=◌, declare, define_or_throw, is_disallowed_identifier,
}

-- A scope has a symbol under a name.
abbrev pub Has : List Scope → ℕ → List ℕ → Symbol → Type 0
Has st id name s = (sc : Scope) × (scope_at st id ≡ some sc) × (get_member name sc.symbols ≡ some s)

-- A symbol that is defined stays.
define-Has :
    (st : List Scope) (at : ℕ) (t : Symbol) (st' : List Scope) (id : ℕ) (name : List ℕ) (s : Symbol)
    → define st at t ≡ some (false, st')
    → Has st id name s
    → Has st' id name s
define-Has st at t st' id name s h (sc, stood, member) =
    let d = define-Defines st at t st' h in
    elim (Bool-cases (id == at)) [
      | inl e ↦
          let same : id ≡ at = (==_iff id at).0 e in
          let into : sc ≡ d.into = (let both = d.stood in let q = rw same at stood in cc) in
          let other : name ≢ t.name = λ q. (let fresh = d.fresh in cc) in
          (
            with_symbol at t d.into,
            rw (same, d.result) (scope_at_put st at d.into (with_symbol at t d.into) d.stood),
            get_member_other name (placed at t) d.into.symbols other ∙ rw (← into) member,
          )
      | inr e ↦
          let apart : at ≢ id = λ q. ground arith in
          (
            sc,
            rw d.result (scope_at_put_other st at id (with_symbol at t d.into) apart ∙ stood),
            member,
          )
    ]

pub Reaches-Has :
    {st st' : List Scope} (id : ℕ) (name : List ℕ) (s : Symbol)
    → Reaches st st'
    → Has st id name s
    → Has st' id name s
Reaches-Has id name s start h = h
Reaches-Has id name s (defines {st₁ = st₁} {st₂ = st₂} at t q a e w) h =
    define-Has st₁ at t st₂ id name s e (Reaches-Has id name s q h)
Reaches-Has id name s (opens {st₁ = st₁} t parent q below) h =
    let (sc, stood, member) = Reaches-Has id name s q h in
    (sc, scope_at_append_old st₁ _ id stood, member)

-- A scope has a symbol of a kind under a name, declared at a position.
pub record IsDeclared (st : List Scope) (id : ℕ) (kind : SymbolType) (name : List ℕ) (pos : ℕ)
    : Type 0 where
  pub symbol : Symbol
  pub stands : Has st id name symbol
  pub of_kind : symbol.symbol_type ≡ kind
  pub at_position : symbol.position ≡ pos

pub Reaches-IsDeclared :
    {st st' : List Scope} {id : ℕ} {kind : SymbolType} {name : List ℕ} {pos : ℕ}
    → Reaches st st'
    → IsDeclared st id kind name pos
    → IsDeclared st' id kind name pos
Reaches-IsDeclared {id = id} {name = name} r d = record {
  symbol = d.symbol;
  stands = Reaches-Has id name d.symbol r d.stands;
  of_kind = d.of_kind;
  at_position = d.at_position;
}

-- What is declared stays declared until the end of an action.
pub Completes-IsDeclared :
    {st st' : State} {o : Outcome} {id : ℕ} {kind : SymbolType} {name : List ℕ} {pos : ℕ}
    → Completes st o
    → o ≡ ok st'
    → IsDeclared st.store id kind name pos
    → IsDeclared st'.store id kind name pos
Completes-IsDeclared {id = id} {kind = kind} {name = name} {pos = pos} (completes same r n) e d =
    let final = same_state e in
    subst (λ s. IsDeclared s.store id kind name pos) final (Reaches-IsDeclared r d)
  where
    same_state : {s t : State} → ok s ≡ ok t → s ≡ t
    same_state q = cc
Completes-IsDeclared refuses e d = absurd (ground (arith, e))

-- The symbol of a declaration, after the declaration and what follows it.
pub declare-IsDeclared :
    (id : ℕ) (s : Symbol) (name : List ℕ) (pos twice_pos : ℕ) (st st' : State)
    (follow : State → Outcome)
    → id < length st.store
    → IsReady st
    → (is_disallowed_identifier name ≡ false → IsAllowed s.name)
    → IsDeclarable (length st.store) s
    → ((st₁ : State) → IsReady st₁ → Reaches st.store st₁.store → Completes st₁ (follow st₁))
    → (declare id s name pos twice_pos st >>= follow) ≡ ok st'
    → IsDeclared st'.store id s.symbol_type s.name s.position
unfolding declare define_or_throw
declare-IsDeclared id s name pos twice_pos st st' follow h r a w k e =
    elim (Bool-cases (is_disallowed_identifier name)) [
      | inl q ↦ absurd (ground (arith, rw q at e))
      | inr q ↦ elim (define_answers st.store id s h) [
        | inl twice ↦ absurd (ground (arith, rw (q, twice) at e))
        | inr (store, defined) ↦
            let step = defines id s start (a q) defined w in
            let after = record st { store = store } in
            let d = define-Defines st.store id s store defined in
            Completes-IsDeclared (k after (follow-IsReady st after refl step r) step)
              (rw (q, defined) at e)
              (record {
                symbol = placed id s;
                stands = (
                  with_symbol id s d.into,
                  rw d.result (scope_at_put st.store id d.into (with_symbol id s d.into) d.stood),
                  get_member_first (placed id s) d.into.symbols,
                );
                of_kind = refl;
                at_position = refl;
              })
      ]
    ]
