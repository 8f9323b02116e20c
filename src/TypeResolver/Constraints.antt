-- ===== src/TypeResolver/Constraints.antt =====
-- The bounds of a type variable: `TypeConstraint` and `addTypeConstraint`.
use peryan.Prelude.{
  Bool, true, false, List, [], ◌∷◌, Option, none, some, ◌≡◌, inl, inr, refl, if◌then◌else◌,
}
use peryan.TypeResolver.Subtyping.{is_subtype_of, Subtype, is_subtype_of_decides}
use peryan.Types.Identity.{IsResolved}
use peryan.Types.{TypePtr, null, is_null, ◌>>=◌}

pub record TypeConstraint : Type 0 where
  pub lower_bound : TypePtr
  pub upper_bound : TypePtr
  pub take_lower_bound : Bool

-- The outcome for one type variable; `asserts` is the failed assertion "bug of isSubtypeOf".
pub data Constrained : Type 0 where
  bounded : TypeConstraint → Constrained
  asserts : Constrained

-- `sub <: super` where both have to be tested, the second one only if the first holds.
abbrev both : Option Bool → Option Bool → Option Bool
both first second = first >>= λ holds. if holds then second else some false

-- `addTypeConstraint`, on the entry of the variable in `constraints_`.
unfoldable pub add_type_constraint : TypePtr → Option TypeConstraint → Option Constrained
add_type_constraint constraint none =
    some
      (bounded (record { lower_bound = constraint; upper_bound = null; take_lower_bound = true }))
add_type_constraint constraint (some cur) = is_subtype_of constraint cur.lower_bound >>= λ below.
    if below
    then some (bounded (record cur { lower_bound = constraint }))
    else if is_null cur.upper_bound
    then some (bounded (record cur { upper_bound = constraint }))
    else (both (is_subtype_of cur.lower_bound constraint) (is_subtype_of constraint cur.upper_bound)
        >>= λ between.
            if between
            then some (bounded cur)
            else (is_subtype_of cur.upper_bound constraint >>= λ above.
                if above
                then some (bounded (record cur { upper_bound = constraint }))
                else some asserts))

abbrev proceed : Constrained → (TypeConstraint → Option Constrained) → Option Constrained
proceed (bounded c) rest = rest c
proceed asserts rest = some asserts

-- The constraints of one variable, in the order in which they are added.
unfoldable pub add_type_constraints : List TypePtr → Option TypeConstraint → Option Constrained
unfolding add_type_constraint
add_type_constraints [] none = none
add_type_constraints [] (some c) = some (bounded c)
add_type_constraints (t ∷ ts) c =
    add_type_constraint t c >>= λ added. proceed added λ next. add_type_constraints ts (some next)

unrelated_answer :
    (s t : TypePtr) → IsResolved s → IsResolved t → ¬ Subtype s t → is_subtype_of s t ≡ some false
unrelated_answer s t hs ht apart = elim (is_subtype_of_decides s t hs ht) [
  | inl (e, sub) ↦ absurd (apart sub)
  | inr (e, _) ↦ e
]

resolved_not_null : (t : TypePtr) → IsResolved t → is_null t ≡ false
resolved_not_null null h = absurd h
resolved_not_null _ h = refl

-- After three resolved types of which neither later one is a subtype of the first, and neither of the
-- last two a subtype of the other, the assertion that names a bug of `isSubtypeOf` fails: the second
-- type has become the upper bound without a test against the first, and the third fits nowhere.
pub add_type_constraints_unrelated :
    (s t u : TypePtr)
    → IsResolved s
    → IsResolved t
    → IsResolved u
    → ¬ Subtype t s
    → ¬ Subtype u s
    → ¬ Subtype u t
    → ¬ Subtype t u
    → add_type_constraints (s ∷ t ∷ u ∷ []) none ≡ some asserts
unfolding add_type_constraints
add_type_constraints_unrelated s t u hs ht hu ts us ut tu = elim (is_subtype_of_decides s u hs hu) [
  | inl (e, _) ↦
      rw
        (
          unrelated_answer t s ht hs ts,
          unrelated_answer u s hu hs us,
          resolved_not_null t ht,
          e,
          unrelated_answer u t hu ht ut,
          unrelated_answer t u ht hu tu,
        )
        refl
  | inr (e, _) ↦
      rw
        (
          unrelated_answer t s ht hs ts,
          unrelated_answer u s hu hs us,
          resolved_not_null t ht,
          e,
          unrelated_answer t u ht hu tu,
        )
        refl
]
