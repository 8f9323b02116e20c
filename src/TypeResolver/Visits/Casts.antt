-- ===== src/TypeResolver/Visits/Casts.antt =====
-- Operands in src/TypeResolver.cc that no conversion fits, or a conversion that does not.
use peryan.Prelude.{ℕ, ◌+◌, Bool, true, false, ◌||◌, some, ◌≡◌, ◌≢◌, ◌⊎◌, inl, inr, refl, ap, arith}
use peryan.Token.{Token}
use peryan.TypeResolver.Modifiers.{can_promote_strict, is_bare}
use peryan.TypeResolver.Operators.{can_promote_binary}
use peryan.TypeResolver.Promoter.{
  Expr, adjust_ref, bare_unmodify, constructor_expr, insert_promoter, insert_promoter-HasType,
  insert_promoter_loop, ref_expr, type_of, with_type,
}
use peryan.TypeResolver.Subtyping.{Subtype}
use peryan.TypeResolver.Visits.Operations.{
  combine, combine_typed, convert_operands, convert_unless_bare, visit_binary,
}
use peryan.TypeResolver.Visits.Typed.{IsPlain, not_null, unmodify-IsPlain, unmodify_twice}
use peryan.TypeResolver.Visits.Values.{subscribe, subscribe_array, visit_subscr}
use peryan.TypeResolver.Visits.{
  M, State, add_warning, asserts, ok, promoted, promotes, same_type, value_type,
}
use peryan.Types.Identity.{IsResolved, is_decides, is_refl}
use peryan.Types.{
  TypePtr, array, builtin, int_, is, is_const, is_null, is_ref, modifier, null, unmodify,
}

-- In Peryan mode nothing becomes a value type that it is no subtype of.
no_promotion :
    (e : Expr) (u v : TypePtr) (pos : ℕ) (st : State)
    → IsPlain (type_of e)
    → IsResolved v
    → unmodify (type_of e) ≡ some u
    → unmodify v ≡ some v
    → ¬ Subtype u v
    → promotes false (type_of e) v pos false st ≡ ok false st
unfolding promotes add_warning
no_promotion e u v pos st p h eu vv apart =
    elim (can_promote_strict (type_of e) v u v false p.resolved h eu vv) [
      | inl (run, sub) ↦ absurd (apart sub)
      | inr (run, _) ↦ rw run refl
    ]

module _ (pos : ℕ) (l r : Expr) (lv rv : TypePtr) (st : State) (lp : IsPlain (type_of l))
    (rp : IsPlain (type_of r)) (lu : unmodify (type_of l) ≡ some lv)
    (ru : unmodify (type_of r) ≡ some rv) (lr : ¬ Subtype lv rv) (rl : ¬ Subtype rv lv) where
  convert_operands_asserts : convert_operands false pos l r lv rv st ≡ asserts
  unfolding convert_operands
  convert_operands_asserts =
      let l_plain = unmodify-IsPlain (type_of l) lv lp lu in
      let r_plain = unmodify-IsPlain (type_of r) rv rp ru in
      rw
        (
          no_promotion l lv rv pos st lp r_plain.resolved lu (unmodify_twice (type_of r) rv rp ru)
              lr,
          no_promotion r rv lv pos st rp l_plain.resolved ru (unmodify_twice (type_of l) lv lp lu)
              rl,
        )
        refl

  convert_unless_bare_asserts :
      (type_of l ≢ lv) ⊎ (type_of r ≢ rv) → convert_unless_bare false pos l r lv rv st ≡ asserts
  unfolding convert_unless_bare same_type
  convert_unless_bare_asserts modified =
      let l_plain = unmodify-IsPlain (type_of l) lv lp lu in
      let r_plain = unmodify-IsPlain (type_of r) rv rp ru in
      elim (is_decides (type_of l) lv lp.resolved l_plain.resolved) [
        | inr (e, le) ↦ rw e convert_operands_asserts
        | inl (e, le) ↦ elim (is_decides (type_of r) rv rp.resolved r_plain.resolved) [
          | inl (f, re) ↦ absurd (elim modified [ inl h ↦ h le | inr h ↦ h re ])
          | inr (f, re) ↦ rw (e, f) convert_operands_asserts
        ]
      ]

-- In Peryan mode, an operator that the tables have for the two value types aborts the compiler by the
-- assertion "no viable cast" where neither type is a subtype of the other and one of the operands has
-- modifiers.
pub visit_binary_no_cast :
    (t : Token) (pos : ℕ) (lhs rhs : M Expr) (l r : Expr) (lv rv : TypePtr) (st st₁ st₂ : State)
    → lhs st ≡ ok l st₁
    → rhs st₁ ≡ ok r st₂
    → IsPlain (type_of l)
    → IsPlain (type_of r)
    → unmodify (type_of l) ≡ some lv
    → unmodify (type_of r) ≡ some rv
    → is_null (can_promote_binary false lv t.type rv) ≡ false
    → (type_of l ≢ lv) ⊎ (type_of r ≢ rv)
    → ¬ Subtype lv rv
    → ¬ Subtype rv lv
    → visit_binary false t pos lhs rhs st ≡ asserts
unfolding visit_binary combine value_type combine_typed
visit_binary_no_cast t pos lhs rhs l r lv rv st st₁ st₂ le re lp rp lu ru allowed modified lr rl =
    rw
      (
        le,
        re,
        not_null (type_of l) lp.resolved,
        not_null (type_of r) rp.resolved,
        lu,
        ru,
        allowed,
        convert_unless_bare_asserts pos l r lv rv st₂ lp rp lu ru lr rl modified,
      )
      refl

depth : TypePtr → ℕ
depth (array e) = depth e + 1
depth t = 0

array-ne : (e : TypePtr) → array e ≢ e
array-ne e h = let same = ap depth h in unfold depth in omega arith

bare_is_ref : (t : TypePtr) → IsResolved t → is_bare t ≡ true → is_ref t ≡ some false
unfolding is_ref
bare_is_ref null h b = absurd h
bare_is_ref (modifier c r e) h b = cc
bare_is_ref _ h b = refl

is-value-reference :
    (c : Bool) (s t : TypePtr) → is (modifier c false s) (modifier c true t) ≡ some false
unfolding is
is-value-reference true s t = refl
is-value-reference false s t = refl

is-array-element : (e : TypePtr) → IsResolved e → is (array e) e ≡ some false
is-array-element e h = elim (is_decides (array e) e h h) [
  | inl (_, same) ↦ absurd (array-ne e same)
  | inr (run, _) ↦ run
]

is-array-array : (e : TypePtr) → IsResolved e → is (array e) (array e) ≡ some true
is-array-array e h = is_refl (array e) h

is-modifier-array : (c r : Bool) (s e : TypePtr) → is (modifier c r s) (array e) ≡ some false
unfolding is
is-modifier-array c r s e = refl

module _ (a : Expr) (c : Bool) (e : TypePtr) (q : type_of a ≡ modifier c false (array e))
    (h : IsResolved e) (b : is_bare e ≡ true) where
  array_as_value : insert_promoter_loop 1 a (array e) ≡ some (with_type (array e) a)
  unfolding insert_promoter_loop adjust_ref unmodify is_ref
  array_as_value = simp (q, is-modifier-array c false (array e) e, is-array-array e h)

  -- What `insertPromoter` puts around a value of an array type to make it a reference to an element.
  array_to_element :
      insert_promoter a (modifier c true e)
      ≡ some (ref_expr (modifier c true e) (constructor_expr e (with_type (array e) a)))
  unfolding insert_promoter insert_promoter_loop adjust_ref unmodify is_ref
  array_to_element = simp (
    q,
    is-value-reference c (array e) e,
    is-array-element e h,
    is-modifier-array c false (array e) e,
    is-array-array e h,
    bare_is_ref e h b,
  )

or-true : (c : Bool) → (c || true) ≡ true
or-true true = refl
or-true false = refl

-- A subscript of an array whose type has modifiers that make it no reference, as that of an array
-- literal, where the type of the elements is known and has no modifiers, and the subscript is an `Int`
-- with one layer of modifiers at most: the array gets the type of a reference to an element, so that a
-- constructor of the type of the elements is put around the whole array. The visit succeeds, with a
-- constant reference to an element as the type, and the subscript becomes an `Int` without modifiers.
pub visit_subscr_converts_array :
    (t : Token) (receiver subscript : M Expr) (a s : Expr) (c : Bool) (e : TypePtr)
    (st st₁ st₂ : State)
    → receiver st ≡ ok a st₁
    → subscript st₁ ≡ ok s st₂
    → type_of a ≡ modifier c false (array e)
    → IsResolved e
    → is_bare e ≡ true
    → IsPlain (type_of s)
    → unmodify (type_of s) ≡ some (builtin int_)
    → (s' : Expr) × (visit_subscr t receiver subscript st
        ≡ ok
            (record {
              array = ref_expr (modifier c true e) (constructor_expr e (with_type (array e) a));
              subscript = some s';
              type = modifier true true e;
            })
            st₂)
      × (type_of s' ≡ builtin int_)
unfolding visit_subscr value_type subscribe_array subscribe promoted same_type is_const is_ref
    unmodify
visit_subscr_converts_array t receiver subscript a s c e st st₁ st₂ ra rs q h b sp si =
    let (s', run, typed) = insert_promoter-HasType s (builtin int_) sp.resolved tt sp.flat refl in
    let value : unmodify e ≡ some e = bare_unmodify e h b in
    let int_is : is (builtin int_) (builtin int_) ≡ some true = is_refl (builtin int_) tt in
    (
      s',
      simp (
        ra,
        q,
        array_to_element a c e q h b,
        rs,
        not_null (type_of s) sp.resolved,
        si,
        int_is,
        run,
        value,
        or-true c,
      ),
      typed,
    )
