-- ===== src/SymbolResolver/Actions.antt =====
-- The actions that the visits of src/SymbolResolver.cc are made of, and how they end.
use mathlib.Core.Option.{some-injective}
use peryan.Prelude.{
  ℕ, ◌<◌, List, [], ◌∷◌, Option, none, some, ◌≡◌, inl, inr, refl, sym, ap, ◌∙◌, subst, arith,
  length, Bool-cases, ◌==◌,
}
use peryan.Scopes.Definition.{define_answers, define-Defines, length-put_scope}
use peryan.Scopes.Resolution.{Resolves, here, outer, nowhere, resolve-Resolves, scope_at_below}
use peryan.Scopes.{Symbol, Scope, get_member, scope_at, put_scope, with_symbol, placed, same_name}
use peryan.SymbolRegister.Completion.{IsLive, IsLive-AllBelow}
use peryan.SymbolRegister.Invariants.{AreOwn, AreSound, AreSound-IsNested}
use peryan.SymbolRegister.{Note, symbol_note, type_note, State}
use peryan.SymbolResolver.Store.{
  AreWhole, Improves, IsSame, IsWhole, put-AreSound, put-AreWhole, put-Grows, set_type-Improves,
  with_symbol-Improves,
}
use peryan.SymbolResolver.{
  Outcome, M, continue, top, push, pop, inside, add_note, add_warning, look_up, symbol_in,
  symbol_at, noted_symbol, set_type, set_symbol_type, define_in,
}
use peryan.Types.{TypePtr}
use peryan.SymbolResolver.Ends.{
  AreLive, Fits, Ends, done, threw, asserted, Any, Safe, bind-Safe, forgotten,
}

-- A scope that exists before the pass exists in it.
pub exists :
    {base : List Scope} {st : State} (id : ℕ)
    → Fits base st
    → id < length base
    → id < length st.store
exists id g h = omega (arith, g.grown.sized, h)

-- The scope on top of the stack exists.
pub top-Safe : (base : List Scope) → Safe base (λ id st. id < length base) top
unfolding top IsLive
top-Safe base = record { run = λ st g. by_stack st.stack st g }
  where
    by_stack :
        (is : List ℕ) (st : State)
        → Fits base (record st { stack = is })
        → Ends base
            (λ id st'. id < length base)
            (record st { stack = is })
            (top (record st { stack = is }))
    by_stack [] st g = absurd g.ready
    by_stack (i ∷ is) st g = done refl g (omega (arith, g.grown.sized, g.ready.0))

-- A symbol that was found lies in a scope that exists.
unfoldable pub IsFound : List Scope → Option Symbol → Type 0
IsFound base none = Unit
IsFound base (some s) =
    (id : ℕ) × (s.scope ≡ some id) × (id < length base) × IsWhole (length base) s

get_member-own :
    (id : ℕ) (name : List ℕ) (ss : List Symbol) (s : Symbol)
    → AreOwn id ss
    → get_member name ss ≡ some s
    → s.scope ≡ some id
unfolding AreOwn get_member
get_member-own id name [] s own h = cc
get_member-own id name (t ∷ ss) s own h = elim (Bool-cases (same_name name t.name)) [
  | inl e ↦ subst (λ x. x.scope ≡ some id) (some-injective _ _ (rw e at h)) own.0
  | inr e ↦ get_member-own id name ss s own.2 (rw e at h)
]

module _ {base : List Scope} {st : State} (g : Fits base st) where
  pub member-IsFound :
      (id : ℕ) (sc : Scope) (name : List ℕ) (s : Symbol)
      → id < length base
      → scope_at st.store id ≡ some sc
      → get_member name sc.symbols ≡ some s
      → IsFound base (some s)
  unfolding IsFound AreSound AreWhole
  member-IsFound id sc name s h e m = (
    id,
    get_member-own id name sc.symbols s (g.sound id sc e).own m,
    h,
    subst (λ (n : ℕ). IsWhole n s) g.grown.sized (g.whole id sc name s e m),
  )

  pub Resolves-IsFound :
      {name : List ℕ} {pos id : ℕ} {r : Option Symbol}
      → Resolves st.store name pos id r
      → id < length base
      → IsFound base r
  unfolding AreSound
  Resolves-IsFound {name = name} (here {id = id} {sc = sc} {s = s} e m v) h =
      member-IsFound id sc name s h e m
  Resolves-IsFound (outer {id = id} {e = up} {sc = sc} e hid en r) h =
      let older : up < id = (g.sound id sc e).older up en in Resolves-IsFound r (omega arith)
  Resolves-IsFound (nowhere e hid en) h = unfold IsFound in tt

pub look_up-Safe :
    (base : List Scope) (name : List ℕ) (pos : ℕ)
    → Safe base (λ r st. IsFound base r) (look_up name pos)
unfolding look_up
look_up-Safe base name pos = bind-Safe (top-Safe base) λ id st g h.
    let (r, e, means) =
      resolve-Resolves st.store id name pos (AreSound-IsNested st.store g.sound) (exists id g h) in
    rw e (done refl g (Resolves-IsFound g means h))

module _ (base : List Scope) (pos id : ℕ) (name : List ℕ) where
  noted_more :
      (n : ℕ) (ns : List Note) → AreLive n ns → id < n → AreLive n (symbol_note pos id name ∷ ns)
  unfolding AreLive noted_symbol
  noted_more n ns live h p i m e = elim (Bool-cases (pos == p)) [
    | inl q ↦ subst (λ (j : ℕ). j < n) (ap (λ x. x.0) (some-injective _ _ (rw q at e))) h
    | inr q ↦ live p i m (rw q at e)
  ]

  pub symbol_note-Safe : id < length base → Safe base Any (add_note (symbol_note pos id name))
  unfolding add_note
  symbol_note-Safe h = record {
    run = λ st g.
        done refl
          (record {
            ready = g.ready;
            sound = g.sound;
            whole = g.whole;
            grown = g.grown;
            noted = noted_more (length st.store) st.notes g.noted (exists id g h);
          })
          tt;
  }

pub type_note-Fits :
    {base : List Scope} {st : State} (pos : ℕ) (t : TypePtr)
    → Fits base st
    → Fits base (record st { notes = type_note pos t ∷ st.notes })
unfolding AreLive noted_symbol
type_note-Fits pos t g = record {
  ready = g.ready;
  sound = g.sound;
  whole = g.whole;
  grown = g.grown;
  noted = g.noted;
}

pub add_warning-Safe : (base : List Scope) (pos : ℕ) → Safe base Any (add_warning pos)
unfolding add_warning
add_warning-Safe base pos = record {
  run = λ st g.
      done refl
        (record {
          ready = g.ready;
          sound = g.sound;
          whole = g.whole;
          grown = g.grown;
          noted = g.noted;
        })
        tt;
}

-- A scope is replaced by a better one.
put-Fits :
    {base : List Scope} {st : State} (id : ℕ) (sc sc' : Scope)
    → Fits base st
    → scope_at st.store id ≡ some sc
    → Improves (length st.store) id sc sc'
    → Fits base (record st { store = put_scope st.store id sc' })
put-Fits {base = base} {st = st} id sc sc' g e better =
    let same = length-put_scope st.store id sc' in
    record {
      ready = subst (λ (n : ℕ). IsLive n st.stack) (sym same) g.ready;
      sound = put-AreSound st.store id sc sc' e better g.sound;
      whole = put-AreWhole st.store id sc sc' e better g.whole;
      grown = put-Grows st.store id sc sc' e better base g.grown;
      noted = subst (λ (n : ℕ). AreLive n st.notes) (sym same) g.noted;
    }

pub set_symbol_type-Ends :
    (base : List Scope) (id : ℕ) (name : List ℕ) (t : TypePtr) (st : State)
    → id < length base
    → Fits base st
    → Ends base (λ u st'. st'.notes ≡ st.notes) st (set_symbol_type (id, name) t st)
unfolding set_symbol_type
set_symbol_type-Ends base id name t st h g =
    let (sc, e) = scope_at_below st.store id (exists id g h) in
    rw e (
      done refl
        (put-Fits id sc (record sc { symbols = set_type t name sc.symbols }) g e
          (set_type-Improves (length st.store) id sc t name))
        refl)

pub set_symbol_type-Safe :
    (base : List Scope) (id : ℕ) (name : List ℕ) (t : TypePtr)
    → id < length base
    → Safe base Any (set_symbol_type (id, name) t)
set_symbol_type-Safe base id name t h = record {
  run = λ st g. forgotten (set_symbol_type-Ends base id name t st h g);
}

pub define_in-Safe :
    (base : List Scope) (id : ℕ) (s : Symbol)
    → id < length base
    → IsWhole (length base) (placed id s)
    → Safe base Any (define_in id s)
unfolding define_in
define_in-Safe base id s h w = record {
  run = λ st g. elim (define_answers st.store id s (exists id g h)) [
    | inl e ↦ rw e (done refl g tt)
    | inr (store, e) ↦
        let d = define-Defines st.store id s store e in
        rw (e, d.result)
          (done refl
            (put-Fits id d.into (with_symbol id s d.into) g d.stood (
              with_symbol-Improves (length st.store) id d.into s d.fresh
                (subst (λ (n : ℕ). IsWhole n (placed id s)) (sym g.grown.sized) w)))
            tt)
  ];
}

-- What is done inside a scope that exists.
pub inside-Safe :
    (base : List Scope) (id : ℕ) (visit : M (Unit {0}))
    → id < length base
    → Safe base Any visit
    → Safe base Any (inside id visit)
unfolding push pop
inside-Safe base id visit h k = record {
  run = λ st g. popped st g (k.run (pushed st) (pushed-Fits st g));
}
  where
    pushed : State → State
    pushed st = record st { stack = id ∷ st.stack }

    pushed-Fits : (st : State) → Fits base st → Fits base (pushed st)
    pushed-Fits st g = record {
      ready = unfold IsLive in (exists id g h, IsLive-AllBelow (length st.store) st.stack g.ready);
      sound = g.sound;
      whole = g.whole;
      grown = g.grown;
      noted = g.noted;
    }

    popped :
        (st : State) {o : Outcome (Unit {0})}
        → Fits base st
        → Ends base Any (pushed st) o
        → Ends base Any st (continue o (λ _. pop))
    popped st g (done {st' = st'} same g' q) = rw same (
        done refl
          (record {
            ready =
                subst (λ (n : ℕ). IsLive n st.stack) (g.grown.sized ∙ sym g'.grown.sized) g.ready;
            sound = g'.sound;
            whole = g'.whole;
            grown = g'.grown;
            noted = g'.noted;
          })
          tt)
    popped st g threw = threw
    popped st g asserted = asserted

-- A symbol that stands in a scope before the pass.
pub symbol_at-Safe :
    (base : List Scope) (id : ℕ) (name : List ℕ) (s : Symbol)
    → symbol_in base id name ≡ some s
    → Safe base (λ s' st. IsSame s s') (symbol_at (id, name))
unfolding symbol_at
symbol_at-Safe base id name s e = record {
  run = λ st g. let (s', e', same) = g.grown.kept id name s e in rw e' (done refl g same);
}
