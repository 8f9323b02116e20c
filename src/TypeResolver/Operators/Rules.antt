-- ===== src/TypeResolver/Operators/Rules.antt =====
-- What the tables of the binary operators say, found by going through their entries.
use peryan.Prelude.{
  Bool, true, false, ◌&&◌, ◌||◌, Option, none, some, ◌==◌, ◌≡◌, ◌⊎◌, inl, inr, refl, sym, ap, subst,
  arith, Bool-cases, ==_iff,
}
use peryan.Token.{TokenType}
use peryan.TypeResolver.Operators.{
  registrations, lookup, pointer, can_promote_binary, is_equality, is_order,
}
use peryan.Types.Identity.{index-injective}
use peryan.Types.{
  Builtin, int_, string_, char_, float_, double_, bool_, void_, label_, TypePtr, builtin, index,
}

-- A test holds of all pairs of built-in types.
abbrev all_types : (Builtin → Bool) → Bool
all_types f =
    f bool_ && f char_ && f int_ && f float_ && f double_ && f string_ && f void_ && f label_

abbrev all_pairs : (Builtin → Builtin → Bool) → Bool
all_pairs f = all_types λ a. all_types λ b. f a b

all_types_at : (f : Builtin → Bool) (a : Builtin) → all_types f ≡ true → f a ≡ true
all_types_at f bool_ h = ground arith
all_types_at f char_ h = ground arith
all_types_at f int_ h = ground arith
all_types_at f float_ h = ground arith
all_types_at f double_ h = ground arith
all_types_at f string_ h = ground arith
all_types_at f void_ h = ground arith
all_types_at f label_ h = ground arith

all_pairs_at : (f : Builtin → Builtin → Bool) (a b : Builtin) → all_pairs f ≡ true → f a b ≡ true
all_pairs_at f a b h = all_types_at (λ b. f a b) b (all_types_at (λ a. all_types λ b. f a b) a h)

abbrev same_type : Builtin → Builtin → Bool
same_type a b = index a == index b

same_type-eq : (a b : Builtin) → same_type a b ≡ true → a ≡ b
same_type-eq a b h = index-injective a b ((==_iff (index a) (index b)).0 h)

-- Where the first table has an entry, the second has it too.
abbrev is_kept : Option Builtin → Option Builtin → Bool
is_kept none other = true
is_kept (some t) none = false
is_kept (some t) (some u) = same_type t u

abbrev same_result : Option Builtin → Option Builtin → Bool
same_result none none = true
same_result (some t) (some u) = same_type t u
same_result t u = false

same_result-eq : (t u : Option Builtin) → same_result t u ≡ true → t ≡ u
same_result-eq none none h = refl
same_result-eq none (some u) h = cc
same_result-eq (some t) none h = cc
same_result-eq (some t) (some u) h = ap some (same_type-eq t u h)

-- An entry is Bool where the token compares, and else both operands and the result have one type.
abbrev is_regular : Bool → Builtin → Builtin → Option Builtin → Bool
is_regular compares a b none = true
is_regular compares a b (some t) =
    (compares && same_type t bool_) || (same_type a t && same_type b t)

abbrev compares : TokenType → Bool
compares t = is_equality t || is_order t

-- The answers for a token, in Peryan mode and in HSP compatibility mode.
abbrev strict : TokenType → Builtin → Builtin → Option Builtin
strict t a b = lookup (registrations false) a t b

abbrev compatible : TokenType → Builtin → Builtin → Option Builtin
compatible t a b = lookup (registrations true) a t b

all_regular : (t : TokenType) → all_pairs (λ a b. is_regular (compares t) a b (strict t a b)) ≡ true
unfolding lookup
all_regular TokenType.plus = refl
all_regular _ = refl

all_symmetric :
    (t : TokenType) → all_pairs (λ a b. same_result (strict t a b) (strict t b a)) ≡ true
unfolding lookup
all_symmetric TokenType.plus = refl
all_symmetric _ = refl

all_kept : (t : TokenType) → all_pairs (λ a b. is_kept (strict t a b) (compatible t a b)) ≡ true
unfolding lookup
all_kept TokenType.plus = refl
all_kept _ = refl

pointer_result : (o : Option Builtin) (c : Builtin) → pointer o ≡ builtin c → o ≡ some c
pointer_result none c h = cc
pointer_result (some t) c h = cc

regular_means :
    (compares : Bool) (a b c : Builtin)
    → is_regular compares a b (some c) ≡ true
    → ((compares ≡ true) × (c ≡ bool_)) ⊎ (a ≡ c) × (b ≡ c)
regular_means true a b c h = elim (Bool-cases (same_type c bool_)) [
  | inl e ↦ inl (refl, same_type-eq c bool_ e)
  | inr e ↦ inr (same_type-eq a c (ground arith), same_type-eq b c (ground arith))
]
regular_means false a b c h = inr (same_type-eq a c (ground arith), same_type-eq b c (ground arith))

kept_means : (o : Option Builtin) (c : Builtin) → is_kept (some c) o ≡ true → o ≡ some c
kept_means none c h = cc
kept_means (some u) c h = ap some (sym (same_type-eq c u h))

-- In Peryan mode an operator has a result only on operands of one type, which is the type of the
-- result; or the operator compares, and the result is Bool.
pub can_promote_binary_strict :
    (lhs rhs : TypePtr) (t : TokenType) (c : Builtin)
    → can_promote_binary false lhs t rhs ≡ builtin c
    → ((is_equality t || is_order t ≡ true) × (c ≡ bool_)) ⊎ (lhs ≡ builtin c) × (rhs ≡ builtin c)
unfolding can_promote_binary
can_promote_binary_strict (builtin a) (builtin b) t c h =
    let found : strict t a b ≡ some c = pointer_result (strict t a b) c h in
    elim (regular_means (compares t) a b c (
      subst (λ o. is_regular (compares t) a b o ≡ true) found
        (all_pairs_at (λ a b. is_regular (compares t) a b (strict t a b)) a b (all_regular t)))) [
          | inl e ↦ inl e
          | inr (e, k) ↦ inr (ap builtin e, ap builtin k)
        ]
can_promote_binary_strict (builtin a) _ t c h = cc
can_promote_binary_strict _ rhs t c h = cc

-- In Peryan mode the operands may be exchanged.
pub can_promote_binary_symmetric :
    (lhs rhs : TypePtr) (t : TokenType)
    → can_promote_binary false lhs t rhs ≡ can_promote_binary false rhs t lhs
unfolding can_promote_binary
can_promote_binary_symmetric (builtin a) (builtin b) t = ap pointer (
    same_result-eq (strict t a b) (strict t b a)
      (all_pairs_at (λ a b. same_result (strict t a b) (strict t b a)) a b (all_symmetric t)))
can_promote_binary_symmetric (builtin a) _ t = refl
can_promote_binary_symmetric _ (builtin b) t = refl
can_promote_binary_symmetric _ _ t = refl

-- What `canPromoteBinary` allows in Peryan mode, it allows in HSP compatibility mode too, for any types and
-- any operator, with the same built-in type as the result.
pub can_promote_binary_kept :
    (lhs rhs : TypePtr) (t : TokenType) (c : Builtin)
    → can_promote_binary false lhs t rhs ≡ builtin c
    → can_promote_binary true lhs t rhs ≡ builtin c
unfolding can_promote_binary
can_promote_binary_kept (builtin a) (builtin b) t c h =
    let found : strict t a b ≡ some c = pointer_result (strict t a b) c h in
    ap pointer (
      kept_means (compatible t a b) c (
        subst (λ o. is_kept o (compatible t a b) ≡ true) found
          (all_pairs_at (λ a b. is_kept (strict t a b) (compatible t a b)) a b (all_kept t))))
can_promote_binary_kept (builtin a) _ t c h = cc
can_promote_binary_kept _ rhs t c h = cc
