-- ===== src/TypeResolver/Promoter.antt =====
-- `insertPromoter`: the conversions that are put around an expression.
use peryan.Prelude.{
  ℕ, zero, suc, Bool, true, false, Option, none, some, ◌≡◌, ◌≢◌, ◌⊎◌, inl, inr, refl, sym, ap, ◌∙◌,
  if◌then◌else◌,
}
use peryan.TypeResolver.Modifiers.{is_bare, has_ref, is_ref-has_ref}
use peryan.Types.Identity.{IsResolved, is_decides, is_refl}
use peryan.Types.{
  TypePtr, null, builtin, TypePtr.modifier, TypePtr.namespace, array, func, is, is_ref, unmodify,
  same_flag, ◌>>=◌,
}

-- An expression by its type: any expression, or one that is put around another.
pub data Expr : Type 0 where
  given : TypePtr → Expr
  constructor_expr : TypePtr → Expr → Expr
  ref_expr : TypePtr → Expr → Expr
  deref_expr : TypePtr → Expr → Expr

abbrev pub type_of : Expr → TypePtr
type_of (given t) = t
type_of (constructor_expr t e) = t
type_of (ref_expr t e) = t
type_of (deref_expr t e) = t

abbrev pub with_type : TypePtr → Expr → Expr
with_type t (given s) = given t
with_type t (constructor_expr s e) = constructor_expr t e
with_type t (ref_expr s e) = ref_expr t e
with_type t (deref_expr s e) = deref_expr t e

-- The reference or the dereference at the end.
unfoldable pub adjust_ref : Expr → TypePtr → Option Expr
adjust_ref from to = is_ref (type_of from) >>= λ from_ref. is_ref to >>= λ to_ref. some (
    if same_flag from_ref to_ref
    then with_type to from
    else if to_ref
    then ref_expr to from
    else deref_expr to from)

-- `none` is an access through a null pointer, or a recursion that is deeper than the fuel.
unfoldable pub insert_promoter_loop : ℕ → Expr → TypePtr → Option Expr
unfolding adjust_ref
insert_promoter_loop zero from to = none
insert_promoter_loop (suc f) from to =
    let param = insert_promoter_loop f from in
    is (type_of from) to >>= λ same.
    if same
    then some from
    else (unmodify (type_of from) >>= λ from_value. unmodify to >>= λ to_value.
        is from_value to_value >>= λ same_value.
        if same_value
        then adjust_ref from to
        else (param from_value >>= λ p. adjust_ref (constructor_expr to_value p) to))

-- The recursive call only takes off the modifiers, and makes no call itself.
unfoldable pub insert_promoter : Expr → TypePtr → Option Expr
unfolding insert_promoter_loop
insert_promoter from to = insert_promoter_loop 2 from to

-- A type has modifiers on the outside only once.
abbrev pub is_flat : TypePtr → Bool
is_flat (modifier c r e) = is_bare e
is_flat t = true

-- An expression of the value type of another type, as that type: the same expression with its type,
-- or a reference or dereference of it where only one of the two types is a reference.
pub data Adjusts (from : Expr) (to : TypePtr) : Expr → Type 0 where
  retyped : has_ref (type_of from) ≡ has_ref to → Adjusts from to (with_type to from)
  referenced :
      has_ref (type_of from) ≡ false → has_ref to ≡ true → Adjusts from to (ref_expr to from)
  dereferenced :
      has_ref (type_of from) ≡ true → has_ref to ≡ false → Adjusts from to (deref_expr to from)

-- What is put around an expression to make it one of a type: nothing where it has that type, at most a
-- reference or a dereference where the value types agree, and else a constructor of the value type
-- around the expression as a value, and what is still needed around that.
pub data Converts (from : Expr) (to : TypePtr) : Expr → Type 0 where
  untouched : type_of from ≡ to → Converts from to from
  adjusted :
      {v : TypePtr} {e : Expr}
      → type_of from ≢ to
      → unmodify (type_of from) ≡ some v
      → unmodify to ≡ some v
      → Adjusts from to e
      → Converts from to e
  constructed :
      {u v : TypePtr} {p e : Expr}
      → unmodify (type_of from) ≡ some u
      → unmodify to ≡ some v
      → u ≢ v
      → ((type_of from ≡ u) × (p ≡ from)) ⊎ ((type_of from ≢ u) × Adjusts from u p)
      → Adjusts (constructor_expr v p) to e
      → Converts from to e

-- The expression is converted to the type that was asked for.
abbrev HasConverted : Expr → TypePtr → Option Expr → Type 0
HasConverted from to o = (e : Expr) × (o ≡ some e) × Converts from to e

type_of-with_type : (t : TypePtr) (e : Expr) → type_of (with_type t e) ≡ t
type_of-with_type t (given s) = refl
type_of-with_type t (constructor_expr s e) = refl
type_of-with_type t (ref_expr s e) = refl
type_of-with_type t (deref_expr s e) = refl

pub bare_unmodify : (t : TypePtr) → IsResolved t → is_bare t ≡ true → unmodify t ≡ some t
unfolding unmodify
bare_unmodify null h b = absurd h
bare_unmodify (modifier c r e) h b = cc
bare_unmodify _ h b = refl

pub flat_unmodify :
    (t : TypePtr)
    → IsResolved t
    → is_flat t ≡ true
    → (u : TypePtr) × (unmodify t ≡ some u) × IsResolved u × (is_bare u ≡ true)
unfolding unmodify
flat_unmodify null h b = absurd h
flat_unmodify (modifier c r e) h b = (e, refl, h, b)
flat_unmodify (builtin a) h b = (builtin a, refl, h, refl)
flat_unmodify (namespace n) h b = (namespace n, refl, h, refl)
flat_unmodify (array e) h b = (array e, refl, h, refl)
flat_unmodify (func a d) h b = (func a d, refl, h, refl)

Adjusts-type_of : {from e : Expr} {to : TypePtr} → Adjusts from to e → type_of e ≡ to
Adjusts-type_of {from = from} {to = to} (retyped q) = type_of-with_type to from
Adjusts-type_of (referenced q r) = refl
Adjusts-type_of (dereferenced q r) = refl

Converts-type_of : {from e : Expr} {to : TypePtr} → Converts from to e → type_of e ≡ to
Converts-type_of (untouched q) = q
Converts-type_of (adjusted apart fv tv a) = Adjusts-type_of a
Converts-type_of (constructed fu tv apart value a) = Adjusts-type_of a

adjust_ref-Adjusts :
    (from : Expr) (to : TypePtr)
    → IsResolved (type_of from)
    → IsResolved to
    → (e : Expr) × (adjust_ref from to ≡ some e) × Adjusts from to e
unfolding adjust_ref
adjust_ref-Adjusts from to h k =
    rw (is_ref-has_ref (type_of from) h, is_ref-has_ref to k)
      (by_flags (has_ref (type_of from)) (has_ref to) refl refl)
  where
    by_flags :
        (a b : Bool)
        → has_ref (type_of from) ≡ a
        → has_ref to ≡ b
        → (e : Expr) × (some (
              if same_flag a b
              then with_type to from
              else if b
              then ref_expr to from
              else deref_expr to from)
            ≡ some e)
          × Adjusts from to e
    by_flags true true q r = (with_type to from, refl, retyped (q ∙ sym r))
    by_flags false false q r = (with_type to from, refl, retyped (q ∙ sym r))
    by_flags false true q r = (ref_expr to from, refl, referenced q r)
    by_flags true false q r = (deref_expr to from, refl, dereferenced q r)

-- Where the value types agree, one call is enough.
same_value-Adjusts :
    (f : ℕ) (from : Expr) (to v : TypePtr)
    → IsResolved (type_of from)
    → IsResolved to
    → IsResolved v
    → unmodify (type_of from) ≡ some v
    → unmodify to ≡ some v
    → (e : Expr) × (insert_promoter_loop (suc f) from to ≡ some e)
      × (((type_of from ≡ to) × (e ≡ from)) ⊎ ((type_of from ≢ to) × Adjusts from to e))
unfolding insert_promoter_loop
same_value-Adjusts f from to v h k hv fv tv = elim (is_decides (type_of from) to h k) [
  | inl (e, same) ↦ rw e (from, refl, inl (same, refl))
  | inr (e, apart) ↦
      let (x, run, a) = adjust_ref-Adjusts from to h k in
      rw (e, fv, tv, is_refl v hv) (x, run, inr (apart, a))
]

-- Where they differ, one call is enough that follows the call on the expression itself.
loop-Converts :
    (f : ℕ) (from : Expr) (to u v : TypePtr)
    → IsResolved (type_of from)
    → IsResolved to
    → IsResolved u
    → IsResolved v
    → unmodify (type_of from) ≡ some u
    → unmodify to ≡ some v
    → (p : Expr) × (insert_promoter_loop f from u ≡ some p)
      × (((type_of from ≡ u) × (p ≡ from)) ⊎ ((type_of from ≢ u) × Adjusts from u p))
    → HasConverted from to (insert_promoter_loop (suc f) from to)
unfolding insert_promoter_loop
loop-Converts f from to u v h k hu hv fu tv (p, run, value) =
    elim (is_decides (type_of from) to h k) [
      | inl (e, same) ↦ rw e (from, refl, untouched same)
      | inr (e, apart) ↦ elim (is_decides u v hu hv) [
        | inl (e', same) ↦
            let (x, run', a) = adjust_ref-Adjusts from to h k in
            rw (e, fu, tv, e') (x, run', adjusted apart fu (tv ∙ ap some (sym same)) a)
        | inr (e', apart') ↦
            let (x, run', a) = adjust_ref-Adjusts (constructor_expr v p) to hv k in
            rw (e, fu, tv, e', run) (x, run', constructed fu tv apart' value a)
      ]
    ]

-- On types with at most one layer of modifiers, `insertPromoter` ends, with an expression of the type
-- that was asked for. It is the given one where that has the type; where the value types agree, it is
-- the given one with the new type if both types or neither are references, a reference to it if only
-- the new type is one, and a dereference of it if only its own type is one; and else the given one is
-- taken to a value in this way, a constructor of the value type is put around it, and around that a
-- reference if the new type is one.
pub insert_promoter-Converts :
    (from : Expr) (to : TypePtr)
    → IsResolved (type_of from)
    → IsResolved to
    → is_flat (type_of from) ≡ true
    → is_flat to ≡ true
    → (e : Expr) × (insert_promoter from to ≡ some e) × (type_of e ≡ to) × Converts from to e
unfolding insert_promoter
insert_promoter-Converts from to h k ff ft =
    let (u, fu, hu, bu) = flat_unmodify (type_of from) h ff in
    let (v, tv, hv, bv) = flat_unmodify to k ft in
    let (e, run, c) =
      loop-Converts 1 from to u v h k hu hv fu tv
        (same_value-Adjusts 0 from u u h hu hu fu (bare_unmodify u hu bu)) in
    (e, run, Converts-type_of c, c)

pub insert_promoter-HasType :
    (from : Expr) (to : TypePtr)
    → IsResolved (type_of from)
    → IsResolved to
    → is_flat (type_of from) ≡ true
    → is_flat to ≡ true
    → (e : Expr) × (insert_promoter from to ≡ some e) × (type_of e ≡ to)
insert_promoter-HasType from to h k ff ft =
    let (e, run, typed, _) = insert_promoter-Converts from to h k ff ft in (e, run, typed)
