-- ===== src/SymbolResolver/Store.antt =====
-- What the pass changes in the scopes: the types of symbols, and symbols that are added.
use mathlib.Core.Option.{some-injective}
use peryan.Prelude.{
  ℕ, ◌<◌, true, false, List, [], ◌∷◌, none, some, ◌≡◌, ◌≢◌, ◌⊎◌, inl, inr, refl, sym, ap, ◌∙◌,
  subst, arith, length, ◌==◌, ==_iff, Bool-cases, Option-cases,
}
use peryan.Scopes.Definition.{length-put_scope, same_name-eq, scope_at_put, scope_at_put_other}
use peryan.Scopes.{
  Symbol, SymbolType, builtin_type_symbol, namespace_symbol, Scope, get_member, placed, put_scope,
  same_name, scope_at, with_symbol,
}
use peryan.SymbolRegister.Invariants.{AreOwn, AreSound, IsSound}
use peryan.SymbolResolver.Specs.{builtin_named}
use peryan.SymbolResolver.{set_type, symbol_in}
use peryan.Types.{Builtin, TypePtr}

-- The same symbol, but for its type.
pub record IsSame (s s' : Symbol) : Type 0 where
  pub name : s'.name ≡ s.name
  pub symbol_type : s'.symbol_type ≡ s.symbol_type
  pub position : s'.position ≡ s.position
  pub scope : s'.scope ≡ s.scope
  pub members : s'.members ≡ s.members

pub IsSame-refl : (s : Symbol) → IsSame s s
IsSame-refl s = record {
  name = refl;
  symbol_type = refl;
  position = refl;
  scope = refl;
  members = refl;
}

pub IsSame-trans : {s t u : Symbol} → IsSame s t → IsSame t u → IsSame s u
IsSame-trans h k = record {
  name = k.name ∙ h.name;
  symbol_type = k.symbol_type ∙ h.symbol_type;
  position = k.position ∙ h.position;
  scope = k.scope ∙ h.scope;
  members = k.members ∙ h.members;
}

-- A symbol of a built-in type has the name of one, and a namespace is a scope that exists.
abbrev pub KindIsWhole : ℕ → SymbolType → Symbol → Type 0
KindIsWhole n builtin_type_symbol s = (b : Builtin) × (builtin_named s.name ≡ some b)
KindIsWhole n namespace_symbol s = (m : ℕ) × (s.members ≡ some m) × (m < n)
KindIsWhole n t s = Unit

unfoldable pub IsWhole : ℕ → Symbol → Type 0
IsWhole n s = KindIsWhole n s.symbol_type s

unfoldable pub AreWhole : List Scope → Type 0
AreWhole st =
    (i : ℕ) (sc : Scope) (name : List ℕ) (s : Symbol)
    → scope_at st i ≡ some sc
    → get_member name sc.symbols ≡ some s
    → IsWhole (length st) s

-- Every symbol is still there, under its name in its scope, and there are no more scopes.
pub record Grows (st st' : List Scope) : Type 0 where
  pub sized : length st' ≡ length st
  pub kept :
      (i : ℕ) (name : List ℕ) (s : Symbol)
      → symbol_in st i name ≡ some s
      → (s' : Symbol) × (symbol_in st' i name ≡ some s') × IsSame s s'

pub Grows-refl : (st : List Scope) → Grows st st
Grows-refl st = record { sized = refl; kept = λ i name s e. (s, e, IsSame-refl s) }

-- A scope that replaces another.
pub record Improves (n id : ℕ) (sc sc' : Scope) : Type 0 where
  pub enclosing : sc'.enclosing ≡ sc.enclosing
  pub own : AreOwn id sc.symbols → AreOwn id sc'.symbols
  pub kept :
      (name : List ℕ) (s : Symbol)
      → get_member name sc.symbols ≡ some s
      → (s' : Symbol) × (get_member name sc'.symbols ≡ some s') × IsSame s s'
  pub whole :
      ((name : List ℕ) (s : Symbol) → get_member name sc.symbols ≡ some s → IsWhole n s)
      → (name : List ℕ) (s : Symbol) → get_member name sc'.symbols ≡ some s
      → IsWhole n s

module _ (st : List Scope) (id : ℕ) (sc sc' : Scope) (at_id : scope_at st id ≡ some sc)
    (better : Improves (length st) id sc sc') where
  put_cases :
      (i : ℕ) (x : Scope)
      → scope_at (put_scope st id sc') i ≡ some x
      → ((i ≡ id) × (x ≡ sc')) ⊎ ((id ≢ i) × (scope_at st i ≡ some x))
  put_cases i x e = elim (Bool-cases (i == id)) [
    | inl q ↦
        let same : i ≡ id = (==_iff i id).0 q in
        inl (
          same,
          some-injective _ _
              (sym e ∙ ap (scope_at (put_scope st id sc')) same ∙ scope_at_put st id sc sc' at_id),
        )
    | inr q ↦
        let other : id ≢ i = λ p. ground arith in
        inr (other, sym (scope_at_put_other st id i sc' other) ∙ e)
  ]

  pub put-AreSound : AreSound st → AreSound (put_scope st id sc')
  unfolding AreSound
  put-AreSound sound i x e = elim (put_cases i x e) [
    | inl (same, new) ↦
        let was = sound id sc at_id in
        subst (λ j. IsSound j x) (sym same)
          (subst (IsSound id) (sym new) (record {
            older = λ up q. was.older up (sym better.enclosing ∙ q);
            own = better.own was.own;
          }))
    | inr (other, old) ↦ sound i x old
  ]

  pub put-AreWhole : AreWhole st → AreWhole (put_scope st id sc')
  unfolding AreWhole
  put-AreWhole whole i x name s e m =
      subst (λ (n : ℕ). IsWhole n s) (sym (length-put_scope st id sc'))
        (elim (put_cases i x e) [
          | inl (same, new) ↦
              better.whole (λ name s. whole id sc name s at_id) name s
                (ap (λ (y : Scope). get_member name y.symbols) (sym new) ∙ m)
          | inr (other, old) ↦ whole i x name s old m
        ])

  pub put-Grows : (base : List Scope) → Grows base st → Grows base (put_scope st id sc')
  unfolding symbol_in
  put-Grows base g = record {
    sized = length-put_scope st id sc' ∙ g.sized;
    kept = λ i name s e.
        let (s', e', same') = g.kept i name s e in
        elim (Bool-cases (i == id)) [
          | inl q ↦
              let is_id : i ≡ id = (==_iff i id).0 q in
              let (t, m, same) = better.kept name s' (rw (is_id, at_id) at e') in
              (t, rw (is_id, scope_at_put st id sc sc' at_id) m, IsSame-trans same' same)
          | inr q ↦
              (s', rw (scope_at_put_other st id i sc' (λ (p : id ≡ i). ground arith)) e', same')
        ];
  }

-- Where the type is set.
set_type-get_member :
    (t : TypePtr) (of name : List ℕ) (ss : List Symbol)
    → ((get_member name ss ≡ none) × (get_member name (set_type t of ss) ≡ none))
      ⊎ (s s' : Symbol) × (get_member name ss ≡ some s)
        × (get_member name (set_type t of ss) ≡ some s')
        × IsSame s s'
unfolding get_member set_type
set_type-get_member t of name [] = inl (refl, refl)
set_type-get_member t of name (s ∷ ss) =
    by_tests (Bool-cases (same_name of s.name)) (Bool-cases (same_name name s.name))
      (set_type-get_member t of name ss)
  where
    retyped : IsSame s (record s { type = t })
    retyped = record {
      name = refl;
      symbol_type = refl;
      position = refl;
      scope = refl;
      members = refl;
    }

    by_tests :
        (same_name of s.name ≡ true) ⊎ (same_name of s.name ≡ false)
        → (same_name name s.name ≡ true) ⊎ (same_name name s.name ≡ false)
        → ((get_member name ss ≡ none) × (get_member name (set_type t of ss) ≡ none))
          ⊎ (u u' : Symbol) × (get_member name ss ≡ some u)
            × (get_member name (set_type t of ss) ≡ some u')
            × IsSame u u'
        → ((get_member name (s ∷ ss) ≡ none) × (get_member name (set_type t of (s ∷ ss)) ≡ none))
          ⊎ (u u' : Symbol) × (get_member name (s ∷ ss) ≡ some u)
            × (get_member name (set_type t of (s ∷ ss)) ≡ some u')
            × IsSame u u'
    by_tests (inl p) (inl q) ih = inr (s, record s { type = t }, rw q refl, rw (p, q) refl, retyped)
    by_tests (inr p) (inl q) ih = inr (s, s, rw q refl, rw (p, q) refl, IsSame-refl s)
    by_tests (inl p) (inr q) ih = elim (Option-cases (get_member name ss)) [
      | inl e ↦ inl (rw q e, rw (p, q) e)
      | inr (u, e) ↦ inr (u, u, rw q e, rw (p, q) e, IsSame-refl u)
    ]
    by_tests (inr p) (inr q) (inl (e, e')) = inl (rw q e, rw (p, q) e')
    by_tests (inr p) (inr q) (inr (u, u', e, e', same)) = inr (u, u', rw q e, rw (p, q) e', same)

set_type-AreOwn :
    (t : TypePtr) (of : List ℕ) (id : ℕ) (ss : List Symbol)
    → AreOwn id ss
    → AreOwn id (set_type t of ss)
unfolding AreOwn set_type
set_type-AreOwn t of id [] h = tt
set_type-AreOwn t of id (s ∷ ss) h = elim (Bool-cases (same_name of s.name)) [
  | inl p ↦ rw p (h.0, h.1, h.2)
  | inr p ↦ rw p (h.0, still_alone, set_type-AreOwn t of id ss h.2)
]
  where
    still_alone : get_member s.name (set_type t of ss) ≡ none
    still_alone = elim (set_type-get_member t of s.name ss) [
      | inl (e, e') ↦ e'
      | inr (u, u', e, e', same) ↦ cc (h.1)
    ]

IsSame-IsWhole : (n : ℕ) (s s' : Symbol) → IsSame s s' → IsWhole n s → IsWhole n s'
unfolding IsWhole
IsSame-IsWhole n s s' same h = by_kind s'.symbol_type s.symbol_type same.symbol_type h
  where
    by_kind : (k' k : SymbolType) → k' ≡ k → KindIsWhole n k s → KindIsWhole n k' s'
    by_kind k' k e w = subst (λ (x : SymbolType). KindIsWhole n x s') (sym e) (at_kind k w)
      where
        at_kind : (k : SymbolType) → KindIsWhole n k s → KindIsWhole n k s'
        at_kind builtin_type_symbol (b, e) = (b, ap builtin_named same.name ∙ e)
        at_kind namespace_symbol (m, e, k) = (m, same.members ∙ e, k)
        at_kind _ w = tt

pub set_type-Improves :
    (n id : ℕ) (sc : Scope) (t : TypePtr) (of : List ℕ)
    → Improves n id sc (record sc { symbols = set_type t of sc.symbols })
set_type-Improves n id sc t of = record {
  enclosing = refl;
  own = set_type-AreOwn t of id sc.symbols;
  kept = λ name s e. elim (set_type-get_member t of name sc.symbols) [
    | inl (q, q') ↦ cc
    | inr (u, u', q, q', same) ↦
        (u', q', subst (λ x. IsSame x u') (some-injective _ _ (sym q ∙ e)) same)
  ];
  whole = λ w name s e. elim (set_type-get_member t of name sc.symbols) [
    | inl (q, q') ↦ cc
    | inr (u, u', q, q', same) ↦
        subst (IsWhole n) (some-injective _ _ (sym q' ∙ e))
          (IsSame-IsWhole n u u' same (w name u q))
  ];
}

pub with_symbol-Improves :
    (n id : ℕ) (sc : Scope) (s : Symbol)
    → get_member s.name sc.symbols ≡ none
    → IsWhole n (placed id s)
    → Improves n id sc (with_symbol id s sc)
unfolding get_member
with_symbol-Improves n id sc s fresh w = record {
  enclosing = refl;
  own = λ h. unfold AreOwn in (refl, fresh, h);
  kept = λ name u e. elim (Bool-cases (same_name name s.name)) [
    | inl q ↦
        let same : name ≡ s.name = same_name-eq name s.name q in
        let none_yet : get_member name sc.symbols ≡ none = rw same fresh in cc
    | inr q ↦ (u, rw q e, IsSame-refl u)
  ];
  whole = λ all name u e. elim (Bool-cases (same_name name s.name)) [
    | inl q ↦ subst (IsWhole n) (some-injective _ _ (rw q at e)) w
    | inr q ↦ all name u (rw q at e)
  ];
}
