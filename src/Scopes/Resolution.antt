-- ===== src/Scopes/Resolution.antt =====
-- What a name means at a position in a scope, and that `resolve` finds it.
use peryan.Prelude.{
  ◌≤◌, leb, ℕ, zero, suc, ◌<◌, true, false, List, [], ◌∷◌, Option, none, some, ◌≡◌, ◌⊎◌, inl, inr,
  refl, arith, length, Bool-cases, Option-cases,
}
use peryan.Scopes.{
  SymbolType, func_symbol, class_symbol, namespace_symbol, label_symbol, allows_forward, Symbol,
  Scope, get_member, scope_at, is_visible, visible_or, resolve_loop, resolve,
}

-- A scope is enclosed by an older one.
unfoldable pub IsNested : List Scope → Type 0
IsNested st = (i : ℕ) (sc : Scope) (e : ℕ) → scope_at st i ≡ some sc → sc.enclosing ≡ some e → e < i

-- The kinds of symbols that have their meaning before their definition too.
unfoldable pub IsForward : SymbolType → Type 0
IsForward func_symbol = Unit
IsForward class_symbol = Unit
IsForward namespace_symbol = Unit
IsForward label_symbol = Unit
IsForward t = ⊥

-- A symbol is seen from its position on, or everywhere if it is of such a kind.
unfoldable pub IsSeen : ℕ → Symbol → Type 0
IsSeen cur_pos s = (s.position ≤ cur_pos) ⊎ IsForward s.symbol_type

allows_forward-IsForward :
    (t : SymbolType)
    → ((allows_forward t ≡ true) × IsForward t) ⊎ ((allows_forward t ≡ false) × (¬ IsForward t))
unfolding IsForward
allows_forward-IsForward func_symbol = inl (refl, tt)
allows_forward-IsForward class_symbol = inl (refl, tt)
allows_forward-IsForward namespace_symbol = inl (refl, tt)
allows_forward-IsForward label_symbol = inl (refl, tt)
allows_forward-IsForward _ = inr (refl, λ h. h)

pub is_visible-IsSeen :
    (cur_pos : ℕ) (s : Symbol)
    → ((is_visible cur_pos s ≡ true) × IsSeen cur_pos s)
      ⊎ ((is_visible cur_pos s ≡ false) × (¬ IsSeen cur_pos s))
unfolding IsSeen
is_visible-IsSeen cur_pos s = elim (Bool-cases (leb s.position cur_pos)) [
  | inl e ↦ inl (rw e refl, inl (ground arith))
  | inr e ↦ elim (allows_forward-IsForward s.symbol_type) [
    | inl (a, k) ↦ inl (rw (e, a) refl, inr k)
    | inr (a, k) ↦ inr (rw (e, a) refl, λ seen. elim seen [ inl h ↦ ground arith | inr h ↦ k h ])
  ]
]

unfoldable pub Hidden : List ℕ → ℕ → Scope → Type 0
Hidden name cur_pos sc =
    (get_member name sc.symbols ≡ none)
    ⊎ (s : Symbol) × (get_member name sc.symbols ≡ some s) × (¬ IsSeen cur_pos s)

-- The meaning of a name at a position: the visible symbol of the innermost scope that has one.
pub data Resolves (st : List Scope) (name : List ℕ) (cur_pos : ℕ) : ℕ → Option Symbol → Type 0 where
  here :
      {id : ℕ} {sc : Scope} {s : Symbol}
      → scope_at st id ≡ some sc
      → get_member name sc.symbols ≡ some s
      → IsSeen cur_pos s
      → Resolves st name cur_pos id (some s)
  outer :
      {id e : ℕ} {sc : Scope} {r : Option Symbol}
      → scope_at st id ≡ some sc
      → Hidden name cur_pos sc
      → sc.enclosing ≡ some e
      → Resolves st name cur_pos e r
      → Resolves st name cur_pos id r
  nowhere :
      {id : ℕ} {sc : Scope}
      → scope_at st id ≡ some sc
      → Hidden name cur_pos sc
      → sc.enclosing ≡ none
      → Resolves st name cur_pos id none

pub scope_at_below :
    (st : List Scope) (i : ℕ) → i < length st → (sc : Scope) × (scope_at st i ≡ some sc)
unfolding scope_at
scope_at_below [] i h = absurd (omega arith)
scope_at_below (s ∷ ss) zero h = (s, refl)
scope_at_below (s ∷ ss) (suc i) h = scope_at_below ss i (omega arith)

visible_or-Hidden :
    (name : List ℕ) (cur_pos : ℕ) (sc : Scope) (up : Option (Option Symbol))
    → ((s : Symbol) × (get_member name sc.symbols ≡ some s)
        × IsSeen cur_pos s
        × (visible_or cur_pos (get_member name sc.symbols) up ≡ some (some s)))
      ⊎ (Hidden name cur_pos sc × (visible_or cur_pos (get_member name sc.symbols) up ≡ up))
unfolding visible_or Hidden
visible_or-Hidden name cur_pos sc up = elim (Option-cases (get_member name sc.symbols)) [
  | inl e ↦ inr (inl e, rw e refl)
  | inr (s, e) ↦ elim (is_visible-IsSeen cur_pos s) [
    | inl (v, seen) ↦ inl (s, e, seen, rw (e, v) refl)
    | inr (v, unseen) ↦ inr (inr (s, e, unseen), rw (e, v) refl)
  ]
]

resolve_loop-Resolves :
    (f : ℕ) (st : List Scope) (id : ℕ) (name : List ℕ) (cur_pos : ℕ)
    → IsNested st
    → id < length st
    → id < f
    → (r : Option Symbol) × (resolve_loop f st id name cur_pos ≡ some r)
      × Resolves st name cur_pos id r
unfolding resolve_loop
resolve_loop-Resolves zero st id name cur_pos n h k = absurd (omega arith)
resolve_loop-Resolves (suc f) st id name cur_pos n h k =
    found (λ up a b. resolve_loop-Resolves f st up name cur_pos n a b) (scope_at_below st id h)
  where
    found :
        ((up : ℕ)
          → up < length st
          → up < f
          → (r : Option Symbol) × (resolve_loop f st up name cur_pos ≡ some r)
            × Resolves st name cur_pos up r)
        → (sc : Scope) × (scope_at st id ≡ some sc)
        → (r : Option Symbol) × (resolve_loop (suc f) st id name cur_pos ≡ some r)
          × Resolves st name cur_pos id r
    found ask (sc, e) = elim (Option-cases sc.enclosing) [
      | inl top ↦ elim (visible_or-Hidden name cur_pos sc (some none)) [
        | inl (s, m, v, a) ↦ (some s, rw (e, top) a, here e m v)
        | inr (hid, a) ↦ (none, rw (e, top) a, nowhere e hid top)
      ]
      | inr (up, en) ↦
          let older : up < id = unfold IsNested in n id sc up e en in
          let (r, run, means) = ask up (omega arith) (omega arith) in
          elim (visible_or-Hidden name cur_pos sc (some r)) [
            | inl (s, m, v, a) ↦ (some s, rw (e, en, run) a, here e m v)
            | inr (hid, a) ↦ (r, rw (e, en, run) a, outer e hid en means)
          ]
    ]

-- In nested scopes `resolve` ends, and answers with the visible symbol of the innermost scope that
-- has one, or with a null pointer where no enclosing scope has one.
pub resolve-Resolves :
    (st : List Scope) (id : ℕ) (name : List ℕ) (cur_pos : ℕ)
    → IsNested st
    → id < length st
    → (r : Option Symbol) × (resolve st id name cur_pos ≡ some r) × Resolves st name cur_pos id r
unfolding resolve
resolve-Resolves st id name cur_pos n h =
    resolve_loop-Resolves (suc id) st id name cur_pos n h (omega arith)
