-- ===== src/SymbolResolver/Ends.antt =====
-- How a visit may end, and the rules for the actions that the visits are made of.
use peryan.Prelude.{
  ℕ, ◌<◌, Bool, true, false, List, Option, some, ◌≡◌, refl, ◌∙◌, length, if◌then◌else◌,
}
use peryan.Scopes.{Scope}
use peryan.SymbolRegister.Completion.{IsLive}
use peryan.SymbolRegister.Invariants.{AreSound}
use peryan.SymbolRegister.{Note, State}
use peryan.SymbolResolver.Store.{AreWhole, Grows}
use peryan.SymbolResolver.{
  Message, Outcome, ok, throws, asserts, M, continue, ◌>>=◌, pure, raise, assert_false, deref,
  noted_symbol,
}

-- The notes refer to scopes that exist.
unfoldable pub AreLive : ℕ → List Note → Type 0
AreLive n ns = (pos id : ℕ) (name : List ℕ) → noted_symbol pos ns ≡ some (id, name) → id < n

-- A state inside the pass: the scope on top of the stack exists, the scopes are sound, and the
-- symbols that there were before the pass are still there.
pub record Fits (base : List Scope) (st : State) : Type 0 where
  pub ready : IsLive (length st.store) st.stack
  pub sound : AreSound st.store
  pub whole : AreWhole st.store
  pub grown : Grows base st.store
  pub noted : AreLive (length st.store) st.notes

-- A visit comes to an end: an error, a failed assertion, or a state with the same stack that fits.
pub data Ends {A : Type 0} (base : List Scope) (Q : A → State → Type 0) (st : State)
    : Outcome A → Type 0 where
  done :
      {a : A} {st' : State}
      → st'.stack ≡ st.stack
      → Fits base st'
      → Q a st'
      → Ends base Q st (ok a st')
  threw : {pos : ℕ} {m : Message} → Ends base Q st (throws pos m)
  asserted : Ends base Q st asserts

abbrev pub Any : {A : Type 0} → A → State → Type 0
Any a st = Unit

-- An action of the pass ends wherever it starts.
pub record Safe {A : Type 0} (base : List Scope) (Q : A → State → Type 0) (m : M A) : Type 0 where
  pub run : (st : State) → Fits base st → Ends base Q st (m st)

earlier :
    {B : Type 0} {base : List Scope} {R : B → State → Type 0} {st st' : State} {o : Outcome B}
    → st'.stack ≡ st.stack
    → Ends base R st' o
    → Ends base R st o
earlier same (done e g r) = done (e ∙ same) g r
earlier same threw = threw
earlier same asserted = asserted

module _ {A B : Type 0} {base : List Scope} {Q : A → State → Type 0} {R : B → State → Type 0} where
  continue-Ends :
      {st : State} {o : Outcome A} {f : A → M B}
      → Ends base Q st o
      → ((a : A) (st' : State) → Fits base st' → Q a st' → Ends base R st' (f a st'))
      → Ends base R st (continue o f)
  continue-Ends (done {a = a} {st' = st'} same g q) k = earlier same (k a st' g q)
  continue-Ends threw k = threw
  continue-Ends asserted k = asserted

  -- What the first action ensures may be used behind it.
  pub bind-Safe :
      {m : M A} {f : A → M B}
      → Safe base Q m
      → ((a : A) (st : State) → Fits base st → Q a st → Ends base R st (f a st))
      → Safe base R (m >>= f)
  bind-Safe h k = record { run = λ st g. continue-Ends (h.run st g) k }

module _ {A B : Type 0} {base : List Scope} {R : B → State → Type 0} where
  pub use-Safe :
      {Q : A → Type 0} {m : M A} {f : A → M B}
      → Safe base (λ a st. Q a) m
      → ((a : A) → Q a → Safe base R (f a))
      → Safe base R (m >>= f)
  use-Safe h k = bind-Safe h (λ a st g q. (k a q).run st g)

  pub then-Safe :
      {m : M A} {f : A → M B}
      → Safe base Any m
      → ((a : A) → Safe base R (f a))
      → Safe base R (m >>= f)
  then-Safe h k = bind-Safe h (λ a st g q. (k a).run st g)

module _ {A : Type 0} {base : List Scope} where
  pub forgotten :
      {Q : A → State → Type 0} {st : State} {o : Outcome A} → Ends base Q st o → Ends base Any st o
  forgotten (done same g q) = done same g tt
  forgotten threw = threw
  forgotten asserted = asserted

  pub forget : {Q : A → State → Type 0} {m : M A} → Safe base Q m → Safe base Any m
  forget h = record { run = λ st g. forgotten (h.run st g) }

  pub pure-Safe : (a : A) → Safe base Any (pure a)
  pure-Safe a = record { run = λ st g. done refl g tt }

  pub pure-Safe_with : {Q : A → Type 0} (a : A) → Q a → Safe base (λ a st. Q a) (pure a)
  pure-Safe_with a q = record { run = λ st g. done refl g q }

  pub deref-Safe : (o : Option A) (a : A) → o ≡ some a → Safe base (λ b st. b ≡ a) (deref o)
  deref-Safe o a e = rw e (record { run = λ st g. done refl g refl })

module _ {A : Type 0} {base : List Scope} {Q : A → State → Type 0} where
  pub raise-Safe : (pos : ℕ) (m : Message) → Safe base Q (raise pos m)
  raise-Safe pos m = record { run = λ st g. threw }

  pub assert-Safe : Safe base Q assert_false
  assert-Safe = record { run = λ st g. asserted }

  pub if-Safe :
      (b : Bool) {m n : M A} → Safe base Q m → Safe base Q n → Safe base Q (if b then m else n)
  if-Safe true h k = h
  if-Safe false h k = k
