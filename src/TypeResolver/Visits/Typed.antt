-- ===== src/TypeResolver/Visits/Typed.antt =====
-- The types of binary expressions and subscripts after their visit in src/TypeResolver.cc.
use mathlib.Core.Option.{some-injective}
use peryan.Prelude.{
  ℕ, Bool, true, false, ◌&&◌, some, ◌≡◌, ◌⊎◌, inl, inr, refl, sym, subst, ◌∙◌, if◌then◌else◌,
  Bool-cases,
}
use peryan.Token.{Token}
use peryan.TypeResolver.Modifiers.{
  can_convert_modifier_rule, can_promote, in_promotion_table, is_bare, may_convert,
}
use peryan.TypeResolver.Operators.{can_promote_binary}
use peryan.TypeResolver.Promoter.{
  Expr, bare_unmodify, flat_unmodify, insert_promoter-HasType, is_flat, type_of,
}
use peryan.TypeResolver.Subtyping.{is_subtype_of_decides, unmodify-IsResolved}
use peryan.TypeResolver.Visits.Operations.{
  Binary, combine, combine_typed, convert_operands, convert_unless_bare, visit_binary,
}
use peryan.TypeResolver.Visits.{
  M, Outcome, State, add_warning, asserts, operation_not_allowed, pure, ok, promoted, promotes,
  throws, continue, same_type, value_type,
}
use peryan.Types.Identity.{IsResolved, is_decides}
use peryan.Types.{TypePtr, null, is_null, modifier, unmodify}

-- A binary expression with its types: the operator is allowed on the value types of the operands, the
-- result is a constant of the type that the tables give, and the operands have the same type, or they
-- are left as they were and had no modifiers.
pub record IsTyped (hsp_compat : Bool) (t : Token) (l r : Expr) (lv rv : TypePtr) (b : Binary)
    : Type 0 where
  pub allowed : is_null (can_promote_binary hsp_compat lv t.type rv) ≡ false
  pub typed : b.type ≡ modifier true false (can_promote_binary hsp_compat lv t.type rv)
  pub operands :
      ((b.lhs ≡ l) × (b.rhs ≡ r) × (type_of l ≡ lv) × (type_of r ≡ rv))
      ⊎ (type_of b.lhs ≡ type_of b.rhs) × ((type_of b.lhs ≡ lv) ⊎ (type_of b.lhs ≡ rv))

-- How a conversion ends: with a value that satisfies a predicate, or with a failed assertion.
pub data Gives {A : Type 0} (P : A → Type 0) : Outcome A → Type 0 where
  gives : {a : A} {st : State} → P a → Gives P (ok a st)
  fails : Gives P asserts

continue-Gives :
    {A B : Type 0} {P : A → Type 0} {Q : B → Type 0} {o : Outcome A} (f : A → M B)
    → Gives P o
    → ((a : A) (st : State) → P a → Gives Q (f a st))
    → Gives Q (continue o f)
continue-Gives f (gives p) k = k _ _ p
continue-Gives f fails k = fails

can_promote_answers :
    (hsp_compat : Bool) (from to : TypePtr) (is_func_param : Bool)
    → IsResolved from
    → IsResolved to
    → (answer : Bool × Bool) × (can_promote hsp_compat from to is_func_param ≡ some answer)
unfolding can_promote
can_promote_answers hsp_compat from to p hf ht =
    let (u, fu, hu) = unmodify-IsResolved from hf in
    let (v, tv, hv) = unmodify-IsResolved to ht in
    elim (is_subtype_of_decides u v hu hv) [
      | inl (e, sub) ↦ (
        (may_convert from to p, false),
        rw (fu, tv, e, can_convert_modifier_rule from to p hf ht) refl,
      )
      | inr (e, no_sub) ↦ elim (Bool-cases (hsp_compat && in_promotion_table u v)) [
        | inl q ↦ (
          (may_convert from to p, true),
          rw (fu, tv, e, q, can_convert_modifier_rule from to p hf ht) refl,
        )
        | inr q ↦ ((false, false), rw (fu, tv, e, q) refl)
      ]
    ]

promotes-Gives :
    (hsp_compat : Bool) (from to : TypePtr) (pos : ℕ) (is_func_param : Bool) (st : State)
    → IsResolved from
    → IsResolved to
    → Gives (λ answer. Unit {0}) (promotes hsp_compat from to pos is_func_param st)
unfolding promotes
promotes-Gives hsp_compat from to pos p st hf ht =
    let ((answer, warns), e) = can_promote_answers hsp_compat from to p hf ht in
    rw e (warned answer warns)
  where
    warned :
        (answer warns : Bool)
        → Gives (λ answer. Unit {0}) (continue (add_warning warns pos st) (λ _ st. ok answer st))
    warned answer true = unfold add_warning in gives tt
    warned answer false = unfold add_warning in gives tt

-- A type with at most one layer of modifiers, and without null pointers.
pub record IsPlain (t : TypePtr) : Type 0 where
  pub resolved : IsResolved t
  pub flat : is_flat t ≡ true

promoted-Gives :
    (e : Expr) (t : TypePtr) (st : State)
    → IsPlain (type_of e)
    → IsPlain t
    → Gives (λ e'. type_of e' ≡ t) (promoted e t st)
unfolding promoted
promoted-Gives e t st h k =
    let (e', run, typed) = insert_promoter-HasType e t h.resolved k.resolved h.flat k.flat in
    rw run (gives typed)

weaken-Gives :
    {A : Type 0} {P Q : A → Type 0} {o : Outcome A} → ((a : A) → P a → Q a) → Gives P o → Gives Q o
weaken-Gives w (gives p) = gives (w _ p)
weaken-Gives w fails = fails

if-Gives :
    {A : Type 0} {P : A → Type 0} (b : Bool) (m n : M A) (st : State)
    → Gives P (m st)
    → Gives P (n st)
    → Gives P ((if b then m else n) st)
if-Gives true m n st h k = h
if-Gives false m n st h k = k

-- Both operands get the type of one of them.
abbrev HaveOneType : TypePtr → TypePtr → Expr × Expr → Type 0
HaveOneType lv rv p = (type_of p.0 ≡ type_of p.1) × ((type_of p.0 ≡ lv) ⊎ (type_of p.0 ≡ rv))

module _ (hsp_compat : Bool) (t : Token) (pos : ℕ) (l r : Expr) (lv rv : TypePtr)
    (l_plain : IsPlain (type_of l)) (r_plain : IsPlain (type_of r)) (lv_plain : IsPlain lv)
    (rv_plain : IsPlain rv) where
  convert_operands-Gives :
      (st : State) → Gives (HaveOneType lv rv) (convert_operands hsp_compat pos l r lv rv st)
  unfolding convert_operands
  convert_operands-Gives st =
      continue-Gives _
        (if-Gives hsp_compat (pure false) (promotes hsp_compat (type_of l) rv pos false) st
          (gives tt)
          (promotes-Gives hsp_compat (type_of l) rv pos false st l_plain.resolved
            rv_plain.resolved))
        λ to_right st u.
          if-Gives to_right _ _ st
            (continue-Gives _ (promoted-Gives l rv st l_plain rv_plain) λ l' st lt.
              continue-Gives _ (promoted-Gives r rv st r_plain rv_plain)
                λ r' st rt. gives (lt ∙ sym rt, inr lt))
            (continue-Gives _
              (promotes-Gives hsp_compat (type_of r) lv pos false st r_plain.resolved
                lv_plain.resolved)
              λ to_left st u.
                if-Gives to_left _ _ st
                  (continue-Gives _ (promoted-Gives r lv st r_plain lv_plain) λ r' st rt.
                    continue-Gives _ (promoted-Gives l lv st l_plain lv_plain)
                      λ l' st lt. gives (lt ∙ sym rt, inl lt))
                  fails)

  convert_unless_bare-Gives :
      (st : State)
      → Gives
          (λ p. ((p.0 ≡ l) × (p.1 ≡ r) × (type_of l ≡ lv) × (type_of r ≡ rv)) ⊎ HaveOneType lv rv p)
          (convert_unless_bare hsp_compat pos l r lv rv st)
  unfolding convert_unless_bare same_type
  convert_unless_bare-Gives st =
      elim (is_decides (type_of l) lv l_plain.resolved lv_plain.resolved) [
        | inr (e, le) ↦ rw e converted
        | inl (e, le) ↦ elim (is_decides (type_of r) rv r_plain.resolved rv_plain.resolved) [
          | inl (f, re) ↦ rw (e, f) (gives (inl (refl, refl, le, re)))
          | inr (f, re) ↦ rw (e, f) converted
        ]
      ]
    where
      converted :
          Gives
            (λ p.
              ((p.0 ≡ l) × (p.1 ≡ r) × (type_of l ≡ lv) × (type_of r ≡ rv)) ⊎ HaveOneType lv rv p)
            (convert_operands hsp_compat pos l r lv rv st)
      converted = weaken-Gives (λ p one. inr one) (convert_operands-Gives st)

  combine_typed-Gives :
      (st : State)
      → is_null (can_promote_binary hsp_compat lv t.type rv) ≡ false
      → Gives (IsTyped hsp_compat t l r lv rv) (combine_typed hsp_compat t pos l r lv rv st)
  unfolding combine_typed
  combine_typed-Gives st allowed = rw allowed (
      continue-Gives _ (convert_unless_bare-Gives st)
        λ p st h. gives (record { allowed = allowed; typed = refl; operands = h }))

pub not_null : (s : TypePtr) → IsResolved s → is_null s ≡ false
not_null null h = absurd h
not_null _ h = refl

pub bare_flat : (u : TypePtr) → is_bare u ≡ true → is_flat u ≡ true
bare_flat (modifier c r e) h = cc
bare_flat _ h = refl

pub unmodify-IsPlain : (s v : TypePtr) → IsPlain s → unmodify s ≡ some v → IsPlain v
unmodify-IsPlain s v p e =
    let (u, q, resolved, bare) = flat_unmodify s p.resolved p.flat in
    subst IsPlain (some-injective _ _ (sym q ∙ e))
      (record { resolved = resolved; flat = bare_flat u bare })

pub unmodify_twice : (s v : TypePtr) → IsPlain s → unmodify s ≡ some v → unmodify v ≡ some v
unmodify_twice s v p e =
    let (u, q, resolved, bare) = flat_unmodify s p.resolved p.flat in
    subst (λ x. unmodify x ≡ some x) (some-injective _ _ (sym q ∙ e))
      (bare_unmodify u resolved bare)

-- A binary expression whose operands have types that are known and have one layer of modifiers at most.
-- Where the tables have no entry for the operator and the value types of the operands, the visit is an
-- error at the operator. Where they have one, the visit fails an assertion or ends with the constant of
-- the type in the table; both operands have the same type then, which is one of the two value types,
-- or they had no modifiers and are left as they were. No null pointer is used.
pub visit_binary-IsTyped :
    (hsp_compat : Bool) (t : Token) (pos : ℕ) (lhs rhs : M Expr) (l r : Expr) (lv rv : TypePtr)
    (st st₁ st₂ : State)
    → lhs st ≡ ok l st₁
    → rhs st₁ ≡ ok r st₂
    → IsPlain (type_of l)
    → IsPlain (type_of r)
    → unmodify (type_of l) ≡ some lv
    → unmodify (type_of r) ≡ some rv
    → ((is_null (can_promote_binary hsp_compat lv t.type rv) ≡ true)
        × (visit_binary hsp_compat t pos lhs rhs st ≡ throws t.position operation_not_allowed))
      ⊎ (is_null (can_promote_binary hsp_compat lv t.type rv) ≡ false)
        × ((visit_binary hsp_compat t pos lhs rhs st ≡ asserts)
            ⊎ (b : Binary) × (st' : State) × (visit_binary hsp_compat t pos lhs rhs st ≡ ok b st')
              × IsTyped hsp_compat t l r lv rv b)
unfolding visit_binary combine value_type
visit_binary-IsTyped hsp_compat t pos lhs rhs l r lv rv st st₁ st₂ le re lp rp lu ru =
    rw (le, re, not_null (type_of l) lp.resolved, not_null (type_of r) rp.resolved, lu, ru)
      (by_entry (Bool-cases (is_null (can_promote_binary hsp_compat lv t.type rv))))
  where
    given_entry :
        {o : Outcome Binary}
        → Gives (IsTyped hsp_compat t l r lv rv) o
        → (o ≡ asserts)
          ⊎ (b : Binary) × (st' : State) × (o ≡ ok b st') × IsTyped hsp_compat t l r lv rv b
    given_entry (gives {a = b} {st = st'} h) = inr (b, st', refl, h)
    given_entry fails = inl refl

    by_entry :
        (is_null (can_promote_binary hsp_compat lv t.type rv) ≡ true)
          ⊎ (is_null (can_promote_binary hsp_compat lv t.type rv) ≡ false)
        → ((is_null (can_promote_binary hsp_compat lv t.type rv) ≡ true)
            × (combine_typed hsp_compat t pos l r lv rv st₂
                ≡ throws t.position operation_not_allowed))
          ⊎ (is_null (can_promote_binary hsp_compat lv t.type rv) ≡ false)
            × ((combine_typed hsp_compat t pos l r lv rv st₂ ≡ asserts)
                ⊎ (b : Binary) × (st' : State) × (combine_typed hsp_compat t pos l r lv rv st₂
                    ≡ ok b st')
                  × IsTyped hsp_compat t l r lv rv b)
    by_entry (inl e) = unfold combine_typed in inl (e, rw e refl)
    by_entry (inr e) = inr (
      e,
      given_entry (
          combine_typed-Gives hsp_compat t pos l r lv rv lp rp
            (unmodify-IsPlain (type_of l) lv lp lu) (unmodify-IsPlain (type_of r) rv rp ru) st₂ e),
    )
