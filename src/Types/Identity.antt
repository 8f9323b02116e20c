-- ===== src/Types/Identity.antt =====
-- `Type::is` decides whether two types are the same.
use peryan.Prelude.{
  Bool, true, false, ◌&&◌, Option, none, some, ◌≡◌, ◌≢◌, ◌⊎◌, inl, inr, refl, ap, arith,
  if◌then◌else◌,
}
use peryan.Types.{
  Builtin, int_, TypePtr, null, builtin, namespace, modifier, array, func, ◌>>=◌, index,
  same_object, same_flag, slot, is,
}

pub index-injective : (a b : Builtin) → index a ≡ index b → a ≡ b
index-injective int_ b h = ground arith
index-injective _ b h = ground arith

same_object-eq : (s t : TypePtr) → same_object s t ≡ true → s ≡ t
unfolding same_object
same_object-eq (builtin a) (builtin b) h = ap builtin (index-injective a b (ground arith))
same_object-eq (namespace m) (namespace n) h = ground arith
same_object-eq _ _ h = cc

slot-eq :
    (a b : TypePtr) (r : Option Bool) → slot a b r ≡ some true → (r ≡ some true → a ≡ b) → a ≡ b
unfolding slot
slot-eq null null r h k = refl
slot-eq null (builtin b) r h k = cc
slot-eq null _ r h k = cc
slot-eq (builtin b) to r h k = k h
slot-eq _ to r h k = k h

both :
    (x y : Option Bool)
    → (x >>= λ same. if same then y else some false) ≡ some true
    → (x ≡ some true) × (y ≡ some true)
both none y h = cc
both (some true) y h = (refl, h)
both (some false) y h = cc

-- What `is` accepts is the same type.
pub is-eq : (s t : TypePtr) → is s t ≡ some true → s ≡ t
unfolding is
is-eq null t h = cc
is-eq (builtin b) t h = same_object-eq (builtin b) t (ground arith)
is-eq (namespace n) t h = same_object-eq (namespace n) t (ground arith)
is-eq (modifier c r e) (modifier c' r' e') h = ground (arith, is-eq e e')
is-eq (modifier c r e) _ h = cc
is-eq (array e) (array e') h = ap array (is-eq e e' h)
is-eq (array e) _ h = cc
is-eq (func a d) (func a' d') h =
    let (cars, cdrs) = both (slot a a' (is a a')) (slot d d' (is d d')) h in
    let car = slot-eq a a' (is a a') cars (is-eq a a') in
    let cdr = slot-eq d d' (is d d') cdrs (is-eq d d') in cc
is-eq (func a d) _ h = cc

-- No null pointer stands inside: the type has been resolved.
abbrev pub IsResolved : TypePtr → Type 0
IsResolved null = ⊥
IsResolved (builtin b) = Unit
IsResolved (namespace n) = Unit
IsResolved (modifier c r e) = IsResolved e
IsResolved (array e) = IsResolved e
IsResolved (func a d) = IsResolved a × IsResolved d

slot_resolved : (a b : TypePtr) (r : Option Bool) → IsResolved a → slot a b r ≡ r
unfolding slot
slot_resolved null b r h = absurd h
slot_resolved (builtin a) b r h = refl
slot_resolved _ b r h = refl

pub is_refl : (t : TypePtr) → IsResolved t → is t t ≡ some true
unfolding is
is_refl null h = absurd h
is_refl (builtin b) h = ground arith
is_refl (namespace n) h = ground arith
is_refl (modifier true true e) h = is_refl e h
is_refl (modifier true false e) h = is_refl e h
is_refl (modifier false true e) h = is_refl e h
is_refl (modifier false false e) h = is_refl e h
is_refl (array e) h = is_refl e h
is_refl (func a d) h =
    rw
      (slot_resolved a a (is a a) h.0, is_refl a h.0, slot_resolved d d (is d d) h.1, is_refl d h.1)

-- There is an answer.
IsAnswer : Option Bool → Type 0
IsAnswer r = (b : Bool) × (r ≡ some b)

flagged :
    (f : Bool) {r : Option Bool} {b : Bool}
    → r ≡ some b
    → (if f then r else some false) ≡ some (f && b)
flagged true h = h
flagged false h = refl

paired : (b b' : Bool) → (some b >>= λ same. if same then some b' else some false) ≡ some (b && b')
paired true b' = refl
paired false b' = refl

is-IsAnswer : (s t : TypePtr) → IsResolved s → IsResolved t → IsAnswer (is s t)
unfolding is IsAnswer
is-IsAnswer null t h k = absurd h
is-IsAnswer (builtin b) t h k = (_, refl)
is-IsAnswer (namespace n) t h k = (_, refl)
is-IsAnswer (modifier c r e) null h k = absurd k
is-IsAnswer (modifier c r e) (modifier c' r' e') h k =
    let (b, ih) = is-IsAnswer e e' h k in
    (same_flag c c' && same_flag r r' && b, flagged (same_flag c c' && same_flag r r') ih)
is-IsAnswer (modifier c r e) _ h k = (false, refl)
is-IsAnswer (array e) null h k = absurd k
is-IsAnswer (array e) (array e') h k = is-IsAnswer e e' h k
is-IsAnswer (array e) _ h k = (false, refl)
is-IsAnswer (func a d) null h k = absurd k
is-IsAnswer (func a d) (func a' d') h k =
    let (b, ih) = is-IsAnswer a a' h.0 k.0 in
    let (b', ih') = is-IsAnswer d d' h.1 k.1 in
    (
      b && b',
      rw (slot_resolved a a' (is a a') h.0, slot_resolved d d' (is d d') h.1, ih, ih')
          (paired b b'),
    )
is-IsAnswer (func a d) _ h k = (false, refl)

-- On resolved types `is` answers, and it answers yes exactly where the two are the same type.
pub is_decides :
    (s t : TypePtr)
    → IsResolved s
    → IsResolved t
    → ((is s t ≡ some true) × (s ≡ t)) ⊎ ((is s t ≡ some false) × (s ≢ t))
unfolding IsAnswer
is_decides s t h k = by_answer (is-IsAnswer s t h k)
  where
    by_answer :
        IsAnswer (is s t) → ((is s t ≡ some true) × (s ≡ t)) ⊎ ((is s t ≡ some false) × (s ≢ t))
    by_answer (true, e) = inl (e, is-eq s t e)
    by_answer (false, e) = inr (e, λ same. cc (rw same at e, is_refl t k))
