-- ===== src/TypeResolver/Modifiers.antt =====
-- `canConvertModifier` and `canPromote`.
use mathlib.Core.Option.{some-injective}
use peryan.Prelude.{
  ℕ, ◌+◌, subst, Bool, true, false, not, ◌&&◌, ◌||◌, List, [], ◌∷◌, Option, some, ◌≡◌, ◌≢◌, ◌⊎◌,
  inl, inr, refl, ap, arith, if◌then◌else◌, get_or, ◌∙◌, sym,
}
use peryan.TypeResolver.Subtyping.{
  is_subtype_of, Subtype, is_subtype_of_decides, unmodify-IsResolved,
}
use peryan.Types.Identity.{IsResolved, is_refl, is_decides}
use peryan.Types.{TypePtr, null, builtin, array, func, ◌>>=◌, index, is, is_const, is_ref, unmodify}

-- `t->is(t->unmodify())`.
abbrev bare : TypePtr → Option Bool
bare t = unmodify t >>= is t

unfoldable pub can_convert_modifier : TypePtr → TypePtr → Bool → Option Bool
can_convert_modifier from to is_func_param = bare from >>= λ from_bare. is_ref to >>= λ to_ref.
    if not is_func_param && from_bare && to_ref
    then some false
    else (bare to >>= λ to_bare.
        if from_bare && to_bare
        then some true
        else (is_const from >>= λ from_const. some (not (from_const && to_ref))))

-- `table[from][to]` of `initPromotionTable`, the types in the order Bool, Char, Int, Float, Double,
-- String, Void, Label.
abbrev conversions : List (List Bool)
conversions =
    (true ∷ true ∷ true ∷ true ∷ true ∷ false ∷ false ∷ false ∷ [])
    ∷ (true ∷ true ∷ true ∷ true ∷ true ∷ false ∷ false ∷ false ∷ [])
    ∷ (true ∷ true ∷ true ∷ true ∷ true ∷ true ∷ false ∷ false ∷ [])
    ∷ (false ∷ false ∷ false ∷ true ∷ false ∷ false ∷ false ∷ false ∷ [])
    ∷ (false ∷ false ∷ true ∷ false ∷ true ∷ false ∷ false ∷ false ∷ [])
    ∷ (false ∷ false ∷ true ∷ false ∷ false ∷ true ∷ false ∷ false ∷ [])
    ∷ (false ∷ false ∷ false ∷ false ∷ false ∷ false ∷ true ∷ false ∷ [])
    ∷ (false ∷ false ∷ false ∷ false ∷ false ∷ false ∷ false ∷ true ∷ [])
    ∷ []

-- `promotionTable.count(PromotionKey(from, to))`: the keys are pairs of built-in type objects.
unfoldable pub in_promotion_table : TypePtr → TypePtr → Bool
in_promotion_table (builtin a) (builtin b) =
    get_or (get_or conversions (index a) []) (index b) false
in_promotion_table s t = false

-- The answer of `canPromote`, and whether it adds the warning of an implicit conversion.
unfoldable pub can_promote : Bool → TypePtr → TypePtr → Bool → Option (Bool × Bool)
unfolding in_promotion_table
can_promote hsp_compat from to is_func_param = unmodify from >>= λ from'. unmodify to >>= λ to'.
    is_subtype_of from' to' >>= λ subtype.
    if subtype
    then (can_convert_modifier from to is_func_param >>= λ answer. some (answer, false))
    else if hsp_compat && in_promotion_table from' to'
    then (can_convert_modifier from to is_func_param >>= λ answer. some (answer, true))
    else some (false, false)

-- What the two functions depend on, read off the shape of a type.
abbrev pub is_bare : TypePtr → Bool
is_bare (TypePtr.modifier c r e) = false
is_bare t = true

abbrev pub has_const : TypePtr → Bool
has_const (TypePtr.modifier c r e) = c
has_const t = false

abbrev pub has_ref : TypePtr → Bool
has_ref (TypePtr.modifier c r e) = r
has_ref t = false

-- A value without modifiers may become a reference only as an argument of a function, and one with
-- modifiers may not become a reference if it is constant.
abbrev pub may_convert : TypePtr → TypePtr → Bool → Bool
may_convert from to is_func_param =
    if is_bare from then is_func_param || not (has_ref to) else not (has_const from && has_ref to)

height : TypePtr → ℕ
height (TypePtr.modifier c r e) = height e + 1
height t = 0

modifier-ne : (c r : Bool) (e : TypePtr) → TypePtr.modifier c r e ≢ e
modifier-ne c r e h = let same = ap height h in unfold height in omega arith

bare-is_bare : (t : TypePtr) → IsResolved t → bare t ≡ some (is_bare t)
unfolding unmodify
bare-is_bare null h = absurd h
bare-is_bare (TypePtr.modifier c r e) h = outer (is_decides (TypePtr.modifier c r e) e h h)
  where
    outer :
        ((is (TypePtr.modifier c r e) e ≡ some true) × (TypePtr.modifier c r e ≡ e))
          ⊎ ((is (TypePtr.modifier c r e) e ≡ some false) × (TypePtr.modifier c r e ≢ e))
        → is (TypePtr.modifier c r e) e ≡ some false
    outer (inl (_, same)) = absurd (modifier-ne c r e same)
    outer (inr (no_match, _)) = no_match
bare-is_bare (builtin b) h = is_refl (builtin b) h
bare-is_bare (TypePtr.namespace n) h = is_refl (TypePtr.namespace n) h
bare-is_bare (array e) h = is_refl (array e) h
bare-is_bare (func a d) h = is_refl (func a d) h

pub is_ref-has_ref : (t : TypePtr) → IsResolved t → is_ref t ≡ some (has_ref t)
unfolding is_ref
is_ref-has_ref null h = absurd h
is_ref-has_ref (TypePtr.modifier c r e) h = refl
is_ref-has_ref _ h = refl

is_const-has_const : (t : TypePtr) → IsResolved t → is_const t ≡ some (has_const t)
unfolding is_const
is_const-has_const null h = absurd h
is_const-has_const (TypePtr.modifier c r e) h = refl
is_const-has_const _ h = refl

bare_not_const : (t : TypePtr) → is_bare t ≡ true → has_const t ≡ false
bare_not_const (TypePtr.modifier c r e) h = cc
bare_not_const _ h = refl

bare_not_ref : (t : TypePtr) → is_bare t ≡ true → has_ref t ≡ false
bare_not_ref (TypePtr.modifier c r e) h = cc
bare_not_ref _ h = refl

-- The tests of `canConvertModifier` on the answers of its calls.
collapse :
    (fb tb fc to_ref p : Bool)
    → (fb ≡ true → fc ≡ false)
    → (tb ≡ true → to_ref ≡ false)
    → (if not p && fb && to_ref
        then some false
        else if fb && tb
        then some true
        else some (not (fc && to_ref)))
      ≡ some (if fb then p || not to_ref else not (fc && to_ref))
collapse true true fc to_ref p h k = rw (k refl) (ground arith)
collapse true false fc to_ref p h k = rw (h refl) (ground arith)
collapse false tb fc to_ref true h k = refl
collapse false tb fc to_ref false h k = refl

-- On resolved types `canConvertModifier` answers, by this rule: a value without modifiers may become
-- a reference only as an argument of a function, and one with modifiers may not become a reference
-- if it is constant. All else is allowed.
pub can_convert_modifier_rule :
    (from to : TypePtr) (is_func_param : Bool)
    → IsResolved from
    → IsResolved to
    → can_convert_modifier from to is_func_param ≡ some (may_convert from to is_func_param)
unfolding can_convert_modifier
can_convert_modifier_rule from to p hf ht =
    simp
      (bare-is_bare from hf, is_ref-has_ref to ht, bare-is_bare to ht, is_const-has_const from hf)
      (collapse (is_bare from) (is_bare to) (has_const from) (has_ref to) p (bare_not_const from)
        (bare_not_ref to))

-- In Peryan mode `canPromote` adds no warning, and says yes exactly where the one unmodified type is a
-- subtype of the other and the modifiers may be converted.
pub can_promote_strict :
    (from to u v : TypePtr) (is_func_param : Bool)
    → IsResolved from
    → IsResolved to
    → unmodify from ≡ some u
    → unmodify to ≡ some v
    → ((can_promote false from to is_func_param ≡ some (may_convert from to is_func_param, false))
        × Subtype u v)
      ⊎ ((can_promote false from to is_func_param ≡ some (false, false)) × (¬ Subtype u v))
unfolding can_promote
can_promote_strict from to u v p hf ht fu tv =
    by_subtype (is_subtype_of_decides u v (resolved from hf fu) (resolved to ht tv))
  where
    resolved : (t : TypePtr) → IsResolved t → {w : TypePtr} → unmodify t ≡ some w → IsResolved w
    resolved t h {w} e =
        let (w', e', h') = unmodify-IsResolved t h in
        subst IsResolved (some-injective _ _ (sym e' ∙ e)) h'

    by_subtype :
        ((is_subtype_of u v ≡ some true) × Subtype u v)
          ⊎ ((is_subtype_of u v ≡ some false) × (¬ Subtype u v))
        → ((can_promote false from to p ≡ some (may_convert from to p, false)) × Subtype u v)
          ⊎ ((can_promote false from to p ≡ some (false, false)) × (¬ Subtype u v))
    by_subtype (inl (e, sub)) = inl (rw (fu, tv, e, can_convert_modifier_rule from to p hf ht), sub)
    by_subtype (inr (e, no_sub)) = inr (rw (fu, tv, e), no_sub)
