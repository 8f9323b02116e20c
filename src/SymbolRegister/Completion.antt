-- ===== src/SymbolRegister/Completion.antt =====
-- How the visits of src/SymbolRegister.cc end, and the rules for the actions that they are made of.
pub mod Visits
use peryan.Prelude.{
  ℕ, ◌<◌, ◌≤◌, Bool, true, false, List, [], ◌∷◌, none, some, ◌≡◌, inl, inr, refl, sym, ◌∙◌, subst,
  arith, length, length-append, Bool-cases,
}
use peryan.Scopes.{
  var_symbol, extern_symbol, func_symbol, namespace_symbol, label_symbol, Symbol, ScopeType,
  local_scope, symbol_scope, symbol_table,
}
use peryan.Scopes.Definition.{define_answers}
use peryan.Types.{null, builtin, label_}
use peryan.SymbolRegister.Steps.{
  Reaches, start, defines, opens, Reaches-trans, Reaches-grows, IsAllowed, IsDeclarable,
  define_keeps_length, plain_name-IsAllowed, label_name-IsAllowed,
}
use peryan.SymbolRegister.{
  Name, Stmt, Stmts, Comp, Comps, Else, State, Outcome, Message, ok, throws, ◌>>=◌, Note,
  is_disallowed_identifier, symbol_of, add_scope, note, push, pop, with_top, define_or_throw,
  declare, register_params, inside, local_block, register, register_comp, register_comps,
  register_else, register_stmts, nil, cons, symbol_note, scope_note, type_note, no_else, else_then,
  no_more, also, comp,
}

-- Every id names a scope that exists.
unfoldable pub AllBelow : ℕ → List ℕ → Type 0
AllBelow n [] = Unit
AllBelow n (i ∷ is) = (i < n) × AllBelow n is

AllBelow-mono : (m n : ℕ) (is : List ℕ) → m ≤ n → AllBelow m is → AllBelow n is
unfolding AllBelow
AllBelow-mono m n [] h a = tt
AllBelow-mono m n (i ∷ is) h a = (omega (arith, a.0, h), AllBelow-mono m n is h a.1)

unfoldable pub IsLive : ℕ → List ℕ → Type 0
IsLive n [] = ⊥
IsLive n (i ∷ is) = (i < n) × AllBelow n is

IsLive-mono : (m n : ℕ) (is : List ℕ) → m ≤ n → IsLive m is → IsLive n is
unfolding IsLive
IsLive-mono m n [] h a = a
IsLive-mono m n (i ∷ is) h a = (omega (arith, a.0, h), AllBelow-mono m n is h a.1)

pub IsLive-AllBelow : (n : ℕ) (is : List ℕ) → IsLive n is → AllBelow n is
unfolding IsLive AllBelow
IsLive-AllBelow n [] a = absurd a
IsLive-AllBelow n (i ∷ is) a = a

-- The top of the stack exists, and so do the scopes below it.
unfoldable pub IsReady : State → Type 0
IsReady st = IsLive (length st.store) st.stack

-- The symbols that are set in the tree lie in scopes that exist.
unfoldable pub NotesAreLive : ℕ → List Note → Type 0
NotesAreLive n [] = Unit
NotesAreLive n (symbol_note pos id name ∷ ns) = (id < n) × NotesAreLive n ns
NotesAreLive n (_ ∷ ns) = NotesAreLive n ns

NotesAreLive-mono : (m n : ℕ) (ns : List Note) → m ≤ n → NotesAreLive m ns → NotesAreLive n ns
unfolding NotesAreLive
NotesAreLive-mono m n [] h a = tt
NotesAreLive-mono m n (symbol_note pos id name ∷ ns) h a =
    (omega (arith, a.0, h), NotesAreLive-mono m n ns h a.1)
NotesAreLive-mono m n (scope_note pos id ∷ ns) h a = NotesAreLive-mono m n ns h a
NotesAreLive-mono m n (type_note pos t ∷ ns) h a = NotesAreLive-mono m n ns h a

abbrev KeepsNotes : State → State → Type 0
KeepsNotes st st' =
    NotesAreLive (length st.store) st.notes → NotesAreLive (length st'.store) st'.notes

-- The outcome is an error, or a state with the same stack whose scopes come from the ones before by
-- steps.
pub data Completes (st : State) : Outcome → Type 0 where
  completes :
      {st' : State}
      → st'.stack ≡ st.stack
      → Reaches st.store st'.store
      → KeepsNotes st st'
      → Completes st (ok st')
  refuses : {pos : ℕ} {m : Message} → Completes st (throws pos m)

pub follow-IsReady :
    (st st' : State) → st'.stack ≡ st.stack → Reaches st.store st'.store → IsReady st → IsReady st'
unfolding IsReady
follow-IsReady st st' same r h =
    subst (IsLive (length st'.store)) (sym same)
      (IsLive-mono (length st.store) (length st'.store) st.stack (Reaches-grows r) h)

-- An outcome that completes a later state with the same stack completes this one.
pub earlier :
    {st st' : State} {o : Outcome}
    → st'.stack ≡ st.stack
    → Reaches st.store st'.store
    → KeepsNotes st st'
    → Completes st' o
    → Completes st o
earlier same r n (completes e q k) = completes (e ∙ same) (Reaches-trans r q) (λ h. k (n h))
earlier same r n refuses = refuses

pub bind-Completes :
    {st : State} {o : Outcome} {f : State → Outcome}
    → Completes st o
    → IsReady st
    → ((st' : State) → IsReady st' → Reaches st.store st'.store → Completes st' (f st'))
    → Completes st (o >>= f)
bind-Completes {st} (completes {st' = st'} e q n) h k =
    earlier e q n (k st' (follow-IsReady st st' e q h) q)
bind-Completes refuses h k = refuses

pub with_top-Completes :
    (st : State) (f : ℕ → Outcome)
    → IsReady st
    → ((top : ℕ) → top < length st.store → Completes st (f top))
    → Completes st (with_top st f)
unfolding IsReady IsLive with_top
with_top-Completes st f h k = by_stack st.stack h
  where
    by_stack :
        (is : List ℕ)
        → IsLive (length st.store) is
        → Completes st (with_top (record st { stack = is }) f)
    by_stack [] a = absurd a
    by_stack (i ∷ is) a = k i a.0

define_or_throw-Completes :
    (id : ℕ) (s : Symbol) (pos : ℕ) (st : State)
    → id < length st.store
    → IsAllowed s.name
    → IsDeclarable (length st.store) s
    → Completes st (define_or_throw id s pos st)
unfolding define_or_throw
define_or_throw-Completes id s pos st h a w = elim (define_answers st.store id s h) [
  | inl e ↦ rw e refuses
  | inr (store, e) ↦ rw e (
      completes refl (defines id s start a e w) (λ n.
        NotesAreLive-mono (length st.store) (length store) st.notes
          (omega (arith, define_keeps_length st.store id s store e)) n))
]

pub declare-Completes :
    (id : ℕ) (s : Symbol) (name : List ℕ) (pos twice_pos : ℕ) (st : State)
    → id < length st.store
    → (is_disallowed_identifier name ≡ false → IsAllowed s.name)
    → IsDeclarable (length st.store) s
    → Completes st (declare id s name pos twice_pos st)
unfolding declare
declare-Completes id s name pos twice_pos st h a w =
    elim (Bool-cases (is_disallowed_identifier name)) [
      | inl e ↦ rw e refuses
      | inr e ↦ rw e (define_or_throw-Completes id s twice_pos st h (a e) w)
    ]

pub register_params-Completes :
    (id : ℕ) (ps : List Name) (st : State)
    → id < length st.store
    → IsReady st
    → Completes st (register_params id ps st)
unfolding register_params IsReady NotesAreLive
register_params-Completes id [] st h r = completes refl start (λ n. n)
register_params-Completes id (p ∷ ps) st h r =
    bind-Completes
      (declare-Completes id (symbol_of var_symbol p.text null p.position none) p.text p.position
        p.position st h (plain_name-IsAllowed p.text) tt)
      r
      (λ st' r' q.
        earlier refl start (λ n. (omega (arith, h, Reaches-grows q), n))
          (register_params-Completes id ps (note (symbol_note p.position id p.text) st')
            (omega (arith, h, Reaches-grows q)) r'))

pub inside-Completes :
    (id : ℕ) (fill : State → Outcome) (st : State)
    → id < length st.store
    → IsReady st
    → ((st' : State) → IsReady st' → Completes st' (fill st'))
    → Completes st (inside id fill st)
unfolding pop
inside-Completes id fill st h r k = popped (k (push id st) (pushed r))
  where
    pushed : IsReady st → IsReady (push id st)
    pushed q = unfold IsReady IsLive in (h, IsLive-AllBelow (length st.store) st.stack q)

    popped : {o : Outcome} → Completes (push id st) o → Completes st (o >>= pop)
    popped (completes {st' = st'} e q n) = rw e (completes refl q n)
    popped refuses = refuses

-- A new scope, and what is done in it.
pub opened :
    (t : ScopeType) (parent : ℕ) (st : State) {o : Outcome}
    → parent < length st.store
    → IsReady st
    → (IsReady (add_scope t parent st)
        → length st.store < length (add_scope t parent st).store
        → Completes (add_scope t parent st) o)
    → Completes st o
opened t parent st h r k =
    let step = opens t parent start h in
    earlier refl step
      (NotesAreLive-mono (length st.store) (length (add_scope t parent st).store) st.notes
        (Reaches-grows step))
      (k (follow-IsReady st (add_scope t parent st) refl step r) (
        omega (
          arith,
          length-append st.store
              (record { scope_type = t; enclosing = some parent; symbols = [] } ∷ []),
        )))

pub local_block-Completes :
    (pos : ℕ) (fill : State → Outcome) (st : State)
    → IsReady st
    → ((st' : State) → IsReady st' → Completes st' (fill st'))
    → Completes st (local_block pos fill st)
unfolding local_block IsReady NotesAreLive
local_block-Completes pos fill st r k = with_top-Completes st _ r λ scope h.
    opened (local_scope pos) scope st h r λ r' longer.
      earlier refl start (λ n. n)
        (inside-Completes (length st.store) fill
          (note (scope_note pos (length st.store)) (add_scope (local_scope pos) scope st)) longer r'
          k)
