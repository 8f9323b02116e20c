-- ===== src/SymbolResolver/Units.antt =====
-- The pass of src/SymbolResolver.cc on a whole program.
use peryan.Ast.{Stmts}
use peryan.Prelude.{ℕ, ◌<◌, Bool, [], ◌∷◌, ◌≡◌, ◌⊎◌, inl, inr, refl, length}
use peryan.SymbolRegister.Completion.{AllBelow, IsLive}
use peryan.SymbolRegister.Invariants.{AreSound}
use peryan.SymbolRegister.{State}
use peryan.SymbolResolver.Annotated.{AreAnnotated}
use peryan.SymbolResolver.Completion.Tree.{visit_stmts-Safe}
use peryan.SymbolResolver.Ends.{Any, AreLive, Ends, Fits, asserted, done, threw}
use peryan.SymbolResolver.Store.{AreWhole, Grows, Grows-refl}
use peryan.SymbolResolver.Visits.{check_empty, visit_unit}
use peryan.SymbolResolver.{Message, Outcome, ok, throws, asserts, continue, push, pop}

-- The scopes and the notes before the pass.
pub record IsPrepared (st : State) : Type 0 where
  pub emptied : st.stack ≡ []
  pub has_global : 0 < length st.store
  pub sound : AreSound st.store
  pub whole : AreWhole st.store
  pub noted : AreLive (length st.store) st.notes

-- A pass that ends without an error: the stack is empty, the scopes are sound, no scope was made, and
-- every symbol is still there, changed in its type only.
pub record IsResolved (st st' : State) : Type 0 where
  pub emptied : st'.stack ≡ []
  pub sound : AreSound st'.store
  pub grown : Grows st.store st'.store

-- Where the tree has the symbols and scopes that SymbolRegister sets in it, resolving a program ends
-- with a SemanticsError, with a failed assertion, or with an empty stack of scopes, as the code
-- asserts. Then each scope is enclosed by an older one and holds no name twice, each symbol points to
-- its scope, there are as many scopes as before, and each symbol that there was is still found under
-- its name in its scope, with the same kind, position and members. No null pointer and no empty stack
-- is used.
pub visit_unit_outcome :
    (hsp_compat : Bool) (st : State) (ss : Stmts)
    → IsPrepared st
    → AreAnnotated st.store st.notes ss
    → ((pos : ℕ) × (m : Message) × (visit_unit hsp_compat st.notes ss st ≡ throws pos m))
      ⊎ (visit_unit hsp_compat st.notes ss st ≡ asserts)
      ⊎ (st' : State) × (visit_unit hsp_compat st.notes ss st ≡ ok tt st') × IsResolved st st'
unfolding visit_unit push pop check_empty IsLive AllBelow
visit_unit_outcome hsp_compat st ss p h =
    by_outcome ((visit_stmts-Safe st.store hsp_compat st.notes ss h).run global fits)
  where
    global : State
    global = record st { stack = 0 ∷ st.stack }

    fits : Fits st.store global
    fits = record {
      ready = rw p.emptied (p.has_global, tt);
      sound = p.sound;
      whole = p.whole;
      grown = Grows-refl st.store;
      noted = p.noted;
    }

    by_outcome :
        {o : Outcome (Unit {0})}
        → Ends st.store Any global o
        → ((pos : ℕ) × (m : Message) × (continue
                (continue o (λ _. pop))
                (λ _. check_empty hsp_compat st.notes)
              ≡ throws pos m))
          ⊎ (continue (continue o (λ _. pop)) (λ _. check_empty hsp_compat st.notes) ≡ asserts)
          ⊎ (st' : State) × (continue (continue o (λ _. pop)) (λ _. check_empty hsp_compat st.notes)
              ≡ ok tt st')
            × IsResolved st st'
    by_outcome (done {st' = st'} same g q) = inr (
        inr (
          record st' { stack = [] },
          rw (same, p.emptied) refl,
          record { emptied = refl; sound = g.sound; grown = g.grown },
        ))
    by_outcome (threw {pos = pos} {m = m}) = inl (pos, m, refl)
    by_outcome asserted = inr (inl refl)
