-- ===== src/SymbolRegister/Invariants.antt =====
-- What holds of the scopes after every sequence of steps.
use mathlib.Core.Option.{some-injective}
use peryan.Prelude.{
  ℕ, zero, suc, ◌<◌, false, List, [], ◌∷◌, ◌++◌, none, some, ◌≡◌, ◌⊎◌, inl, inr, refl, sym, ap, ◌∙◌,
  subst, arith, length, Bool-cases, ==_iff, ◌==◌,
}
use peryan.Scopes.Definition.{define-Defines, scope_at_put, scope_at_put_other}
use peryan.Scopes.Resolution.{IsNested}
use peryan.Scopes.{
  Symbol, Scope, ScopeType, scope_at, define, with_symbol, get_member, same_name, symbol_table,
}
use peryan.SymbolRegister.Steps.{Reaches, start, defines, opens}

-- Every symbol of the scope lies in it, and the first of its name is itself: no name twice.
unfoldable pub AreOwn : ℕ → List Symbol → Type 0
AreOwn id [] = Unit
AreOwn id (s ∷ ss) = (s.scope ≡ some id) × (get_member s.name ss ≡ none) × AreOwn id ss

-- A scope is enclosed by an older one, and its symbols are its own and have different names.
pub record IsSound (id : ℕ) (sc : Scope) : Type 0 where
  pub older : (e : ℕ) → sc.enclosing ≡ some e → e < id
  pub own : AreOwn id sc.symbols

unfoldable pub AreSound : List Scope → Type 0
AreSound st = (i : ℕ) (sc : Scope) → scope_at st i ≡ some sc → IsSound i sc

pub AreSound-IsNested : (st : List Scope) → AreSound st → IsNested st
unfolding AreSound IsNested
AreSound-IsNested st h i sc e at_i en = (h i sc at_i).older e en

define-AreSound :
    (st st' : List Scope) (id : ℕ) (s : Symbol)
    → define st id s ≡ some (false, st')
    → AreSound st
    → AreSound st'
unfolding AreSound
define-AreSound st st' id s h sound i sc at_i =
    let d = define-Defines st id s st' h in
    elim (Bool-cases (i == id)) [
      | inl e ↦
          let same : i ≡ id = (==_iff i id).0 e in
          let found : some (with_symbol id s d.into) ≡ some sc =
            sym (scope_at_put st id d.into (with_symbol id s d.into) d.stood)
            ∙ ap (λ x. scope_at x id) (sym d.result)
            ∙ ap (scope_at st') (sym same)
            ∙ at_i in
          let was = sound id d.into d.stood in
          subst (λ j. IsSound j sc) (sym same)
            (subst (IsSound id) (some-injective _ _ found)
              (record { older = was.older; own = unfold AreOwn in (refl, d.fresh, was.own) }))
      | inr e ↦ sound i sc (
          sym (scope_at_put_other st id i (with_symbol id s d.into) (λ q. ground arith))
          ∙ ap (λ x. scope_at x i) (sym d.result)
          ∙ at_i)
    ]

pub scope_at_append :
    (st : List Scope) (new : Scope) (i : ℕ) {sc : Scope}
    → scope_at (st ++ (new ∷ [])) i ≡ some sc
    → (scope_at st i ≡ some sc) ⊎ (i ≡ length st) × (new ≡ sc)
unfolding scope_at
scope_at_append [] new zero h = inr (refl, some-injective _ _ h)
scope_at_append [] new (suc i) h = cc
scope_at_append (s ∷ ss) new zero h = inl h
scope_at_append (s ∷ ss) new (suc i) h = elim (scope_at_append ss new i h) [
  | inl e ↦ inl e
  | inr (e, same) ↦ inr (ap suc e, same)
]

opens-AreSound :
    (st : List Scope) (t : ScopeType) (parent : ℕ)
    → parent < length st
    → AreSound st
    → AreSound (st ++ (record { scope_type = t; enclosing = some parent; symbols = [] } ∷ []))
unfolding AreSound
opens-AreSound st t parent h sound i sc at_i =
    elim (scope_at_append st (record { scope_type = t; enclosing = some parent; symbols = [] }) i
      at_i) [
        | inl e ↦ sound i sc e
        | inr (e, same) ↦ subst (IsSound i) same (record {
          older = λ up q. let is_parent = some-injective _ _ q in omega (arith, h, e, is_parent);
          own = unfold AreOwn in tt;
        })
      ]

-- Each step keeps the scopes sound.
pub Reaches-AreSound : (st st' : List Scope) → Reaches st st' → AreSound st → AreSound st'
Reaches-AreSound st st' start h = h
Reaches-AreSound st st' (defines {st₁ = st₁} id s q a e w) h =
    define-AreSound st₁ st' id s e (Reaches-AreSound st st₁ q h)
Reaches-AreSound st st' (opens {st₁ = st₁} t parent q k) h =
    opens-AreSound st₁ t parent k (Reaches-AreSound st st₁ q h)

pub scope_at_append_old :
    (st : List Scope) (new : Scope) (i : ℕ) {sc : Scope}
    → scope_at st i ≡ some sc
    → scope_at (st ++ (new ∷ [])) i ≡ some sc
unfolding scope_at
scope_at_append_old [] new i h = cc
scope_at_append_old (s ∷ ss) new zero h = h
scope_at_append_old (s ∷ ss) new (suc i) h = scope_at_append_old ss new i h

pub scope_at_append_new :
    (st : List Scope) (new : Scope) → scope_at (st ++ (new ∷ [])) (length st) ≡ some new
unfolding scope_at
scope_at_append_new [] new = refl
scope_at_append_new (s ∷ ss) new = scope_at_append_new ss new

pub symbol_table-AreSound : AreSound symbol_table
unfolding AreSound scope_at get_member same_name AreOwn
symbol_table-AreSound zero sc h = subst (IsSound 0) (some-injective _ _ h) (record {
  older = λ e q. cc;
  own = (
    refl,
    refl,
    (
      refl,
      refl,
      (refl, refl, (refl, refl, (refl, refl, (refl, refl, (refl, refl, (refl, refl, tt)))))),
    ),
  );
})
symbol_table-AreSound (suc i) sc h = cc
