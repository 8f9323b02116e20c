-- ===== src/SymbolResolver/Completion/Names.antt =====
-- How the visits of identifiers, labels and parameters in src/SymbolResolver.cc end.
use peryan.Ast.{TypeSpec, no_spec, Identifier, Expr, no_expr}
use peryan.Prelude.{
  ℕ, ◌<◌, Bool, true, false, List, [], ◌∷◌, Option, none, some, ◌≡◌, ==_iff, inl, inr, refl, arith,
  length, All, Bool-cases, if◌then◌else◌,
}
use peryan.Scopes.{Scope, Symbol}
use peryan.SymbolRegister.{type_note, State}
use peryan.SymbolResolver.Actions.{
  IsFound, add_warning-Safe, define_in-Safe, look_up-Safe, set_symbol_type-Ends, symbol_note-Safe,
  top-Safe, type_note-Fits,
}
use peryan.SymbolResolver.Annotated.{HasSpec, IsSpec, MayBeSpec, MayBeExpr, IsExpr}
use peryan.SymbolResolver.Completion.{visit_spec-Safe}
use peryan.SymbolResolver.Ends.{
  Any, AreLive, Ends, Fits, Safe, asserted, assert-Safe, bind-Safe, deref-Safe, done, forget,
  if-Safe, pure-Safe, raise-Safe, then-Safe, threw, use-Safe,
}
use peryan.SymbolResolver.Specs.{visit_spec}
use peryan.SymbolResolver.Store.{IsWhole}
use peryan.SymbolResolver.Visits.{
  current_symbol, current_type, define_implicitly, has_spec, implicit_variable, is_namespace,
  refer_or_define, refer_to, refer_to_label, spelling, unless_null, visit_all_params,
  visit_by_symbol, visit_identifier, visit_label, visit_new_label, visit_params, visit_return_spec,
}
use peryan.SymbolResolver.{
  M, ◌>>◌, Outcome, pure, noted_symbol, noted_type, add_note, set_symbol_type, assert_false,
}
use peryan.Token.{Token}
use peryan.Types.{TypePtr, null, is_null, void_, builtin, func}

-- What a name refers to lies in a scope that exists.
abbrev pub RefersLive : List Scope → Option (ℕ × List ℕ) → Type 0
RefersLive base none = Unit
RefersLive base (some r) = r.0 < length base

has_spec-IsSpec : (spec : TypeSpec) → IsSpec spec → has_spec spec ≡ true
has_spec-IsSpec no_spec h = absurd h
has_spec-IsSpec _ h = refl

module _ (base : List Scope) where
  current_symbol-Safe : (pos : ℕ) → Safe base (λ r st. RefersLive base r) (current_symbol pos)
  unfolding current_symbol AreLive
  current_symbol-Safe pos = record {
    run = λ st g. done refl g (live st g (noted_symbol pos st.notes) refl);
  }
    where
      live :
          (st : State)
          → Fits base st
          → (r : Option (ℕ × List ℕ)) → noted_symbol pos st.notes ≡ r
          → RefersLive base r
      live st g none e = tt
      live st g (some r) e = omega (arith, g.grown.sized, g.noted pos r.0 r.1 e)

  pub current_type-Safe : (pos : ℕ) → Safe base Any (current_type pos)
  unfolding current_type
  current_type-Safe pos = record { run = λ st g. done refl g tt }

  refer_to-Safe : (pos : ℕ) (s : Symbol) → IsFound base (some s) → Safe base Any (refer_to pos s)
  unfolding refer_to IsFound
  refer_to-Safe pos s (id, e, h, w) =
      use-Safe (deref-Safe s.scope id e) λ i same. symbol_note-Safe base pos i s.name (rw same h)

  define_implicitly-Safe : (t : Token) → 0 < length base → Safe base Any (define_implicitly t)
  unfolding define_implicitly IsWhole
  define_implicitly-Safe t h = then-Safe (add_warning-Safe base t.position) λ u.
      then-Safe (define_in-Safe base 0 (implicit_variable (spelling t)) h tt)
        λ failed. if-Safe failed assert-Safe (symbol_note-Safe base t.position 0 (spelling t) h)

  refer_or_define-Safe :
      (hsp_compat : Bool) (t : Token) (r : Option Symbol)
      → 0 < length base
      → IsFound base r
      → Safe base Any (refer_or_define hsp_compat t r)
  unfolding refer_or_define
  refer_or_define-Safe true t none h f = define_implicitly-Safe t h
  refer_or_define-Safe false t none h f = raise-Safe _ _
  refer_or_define-Safe true t (some s) h f = refer_to-Safe t.position s f
  refer_or_define-Safe false t (some s) h f = refer_to-Safe t.position s f

  -- The type of a declaration is noted, and given to its symbol.
  typed-Ends :
      (pos : ℕ) (symbol : ℕ × List ℕ) (t : TypePtr) (st : State)
      → symbol.0 < length base
      → Fits base st
      → Ends base
          (λ u st'. is_null (noted_type pos st'.notes) ≡ false)
          st
          ((do
            if is_null t then assert_false else pure tt
            add_note (type_note pos t)
            set_symbol_type symbol t)
            st)
  unfolding add_note noted_type
  typed-Ends pos symbol t st h g = elim (Bool-cases (is_null t)) [
    | inl e ↦ rw e asserted
    | inr e ↦ rw e (
        stated e (
          set_symbol_type-Ends base symbol.0 symbol.1 t
            (record st { notes = type_note pos t ∷ st.notes }) h (type_note-Fits pos t g)))
  ]
    where
      noted :
          is_null t ≡ false
          → (st' : State) → st'.notes ≡ type_note pos t ∷ st.notes
          → is_null (noted_type pos st'.notes) ≡ false
      noted e st' same = rw (same, (==_iff pos pos).1 refl) e

      stated :
          {o : Outcome (Unit {0})}
          → is_null t ≡ false
          → Ends base
              (λ u st'. st'.notes ≡ type_note pos t ∷ st.notes)
              (record st { notes = type_note pos t ∷ st.notes })
              o
          → Ends base (λ u st'. is_null (noted_type pos st'.notes) ≡ false) st o
      stated e (done {st' = st'} stack g' q) = done stack g' (noted e st' q)
      stated e threw = threw
      stated e asserted = asserted

  -- An identifier that has a specification has a type behind the visit.
  visit_by_symbol-Ends_typed :
      (hsp_compat : Bool) (i : Identifier) (r : Option (ℕ × List ℕ))
      → IsSpec i.type_spec
      → RefersLive base r
      → Safe base
          (λ u st. is_null (noted_type i.token.position st.notes) ≡ false)
          (visit_by_symbol hsp_compat i r)
  unfolding visit_by_symbol
  visit_by_symbol-Ends_typed hsp_compat i none h live =
      rw (has_spec-IsSpec i.type_spec h) assert-Safe
  visit_by_symbol-Ends_typed hsp_compat i (some symbol) h live =
      rw (has_spec-IsSpec i.type_spec h) (
        bind-Safe (visit_spec-Safe base i.type_spec h)
          λ t st g q. typed-Ends i.token.position symbol t st live g)

  visit_by_symbol-Safe :
      (hsp_compat : Bool) (i : Identifier) (r : Option (ℕ × List ℕ))
      → 0 < length base
      → HasSpec i
      → RefersLive base r
      → Safe base Any (visit_by_symbol hsp_compat i r)
  unfolding visit_by_symbol
  visit_by_symbol-Safe hsp_compat i r n (inr h) live =
      forget (visit_by_symbol-Ends_typed hsp_compat i r h live)
  visit_by_symbol-Safe hsp_compat i none n (inl q) live = rw q (
      use-Safe (look_up-Safe base (spelling i.token) i.token.position)
        (λ r f. refer_or_define-Safe hsp_compat i.token r n f))
  visit_by_symbol-Safe hsp_compat i (some symbol) n (inl q) live = rw q (pure-Safe tt)

  pub visit_identifier-Safe_typed :
      (hsp_compat : Bool) (i : Identifier)
      → IsSpec i.type_spec
      → Safe base
          (λ u st. is_null (noted_type i.token.position st.notes) ≡ false)
          (visit_identifier hsp_compat i)
  unfolding visit_identifier
  visit_identifier-Safe_typed hsp_compat i h = then-Safe (current_type-Safe i.token.position) λ t.
      then-Safe (if-Safe (is_null t) (pure-Safe tt) assert-Safe) λ u.
        then-Safe (forget (top-Safe base)) λ id.
          use-Safe (current_symbol-Safe i.token.position)
            λ r live. visit_by_symbol-Ends_typed hsp_compat i r h live

  pub visit_identifier-Safe :
      (hsp_compat : Bool) (i : Identifier)
      → HasSpec i
      → Safe base Any (visit_identifier hsp_compat i)
  unfolding visit_identifier
  visit_identifier-Safe hsp_compat i h = then-Safe (current_type-Safe i.token.position) λ t.
      then-Safe (if-Safe (is_null t) (pure-Safe tt) assert-Safe) λ u.
        use-Safe (top-Safe base) λ id below.
          use-Safe (current_symbol-Safe i.token.position)
            λ r live. visit_by_symbol-Safe hsp_compat i r (omega (arith, below)) h live

  refer_to_label-Safe :
      (t : Token) (r : Option Symbol) → IsFound base r → Safe base Any (refer_to_label t r)
  refer_to_label-Safe t none f = raise-Safe _ _
  refer_to_label-Safe t (some s) f = refer_to-Safe t.position s f

  pub visit_label-Safe : (t : Token) → Safe base Any (visit_label t)
  unfolding visit_label
  visit_label-Safe t =
      then-Safe (forget (top-Safe base))
        λ id. then-Safe (forget (current_symbol-Safe t.position)) new
    where
      new : (r : Option (ℕ × List ℕ)) → Safe base Any (visit_new_label t r)
      new (some symbol) = pure-Safe tt
      new none = use-Safe (look_up-Safe base (b'*' ∷ spelling t) t.position) (refer_to_label-Safe t)

  visit_params-Safe :
      (hsp_compat : Bool) (pos : ℕ) (ps : List Identifier) (t : TypePtr)
      → All HasSpec ps
      → Safe base Any (visit_params hsp_compat pos ps t)
  unfolding visit_params
  visit_params-Safe hsp_compat pos [] t h = pure-Safe t
  visit_params-Safe hsp_compat pos (p ∷ ps) t h =
      then-Safe (visit_params-Safe hsp_compat pos ps t h.1) λ cdr.
        then-Safe (visit_identifier-Safe hsp_compat p h.0) λ u.
          then-Safe (current_type-Safe p.token.position)
            λ car. if-Safe (is_namespace car) (raise-Safe _ _) (pure-Safe (func car cdr))

  pub visit_all_params-Safe :
      (hsp_compat : Bool) (pos : ℕ) (ps : List Identifier) (t : TypePtr)
      → All HasSpec ps
      → Safe base Any (visit_all_params hsp_compat pos ps t)
  unfolding visit_all_params
  visit_all_params-Safe hsp_compat pos [] t h = pure-Safe (func (builtin void_) t)
  visit_all_params-Safe hsp_compat pos (p ∷ ps) t h = visit_params-Safe hsp_compat pos (p ∷ ps) t h

  pub visit_return_spec-Safe :
      (pos : ℕ) (spec : TypeSpec) → MayBeSpec spec → Safe base Any (visit_return_spec pos spec)
  unfolding visit_return_spec
  visit_return_spec-Safe pos spec h =
      then-Safe (spec_type h) λ t. if-Safe (is_namespace t) (raise-Safe _ _) (pure-Safe t)
    where
      spec_type :
          MayBeSpec spec → Safe base Any (if has_spec spec then visit_spec spec else pure null)
      spec_type (inl q) = rw q (pure-Safe null)
      spec_type (inr k) = rw (has_spec-IsSpec spec k) (forget (visit_spec-Safe base spec k))

  pub unless_null-Safe :
      (e : Expr) (visit : M (Unit {0}))
      → MayBeExpr e
      → (IsExpr e → Safe base Any visit)
      → Safe base Any (unless_null e visit)
  unfolding unless_null
  unless_null-Safe e visit (inl q) k = rw q (pure-Safe tt)
  unless_null-Safe no_expr visit (inr h) k = pure-Safe tt
  unless_null-Safe _ visit (inr h) k = k h
