-- ===== src/TypeResolver/Subtyping.antt =====
-- `isSubtypeOf`, and the table of the implicit conversions of HSP compatibility mode.
use peryan.Prelude.{
  Bool, true, false, ◌&&◌, Option, some, ◌≡◌, ◌≢◌, ◌⊎◌, inl, inr, refl, ap, if◌then◌else◌, ◌∙◌, sym,
}
use peryan.Types.Identity.{IsResolved, is_decides}
use peryan.Types.{float_, double_, TypePtr, null, builtin, array, func, ◌>>=◌, is, unmodify}

abbrev pub float_type : TypePtr
float_type = builtin float_

abbrev pub double_type : TypePtr
double_type = builtin double_

unfoldable pub is_subtype_of : TypePtr → TypePtr → Option Bool
is_subtype_of sub super = unmodify sub >>= λ sub. unmodify super >>= λ super.
    is sub super >>= λ same. is sub float_type >>= λ float. is super double_type >>= λ double.
    some (if same then true else if float && double then true else false)

-- The meaning of `sub <: super`: the same type under the modifiers, or Float under Double.
pub data Subtype (sub super : TypePtr) : Type 0 where
  same : unmodify sub ≡ unmodify super → Subtype sub super
  float_double :
      unmodify sub ≡ some float_type → unmodify super ≡ some double_type → Subtype sub super

pub unmodify-IsResolved :
    (t : TypePtr) → IsResolved t → (u : TypePtr) × (unmodify t ≡ some u) × IsResolved u
unfolding unmodify
unmodify-IsResolved null h = absurd h
unmodify-IsResolved (TypePtr.modifier c r e) h = (e, refl, h)
unmodify-IsResolved (builtin b) h = (builtin b, refl, h)
unmodify-IsResolved (TypePtr.namespace n) h = (TypePtr.namespace n, refl, h)
unmodify-IsResolved (array e) h = (array e, refl, h)
unmodify-IsResolved (func a d) h = (func a d, refl, h)

-- What `is` answers, with what it means.
abbrev Answer : TypePtr → TypePtr → Type 0
Answer s t = ((is s t ≡ some true) × (s ≡ t)) ⊎ ((is s t ≡ some false) × (s ≢ t))

not-Subtype :
    {s t u v : TypePtr}
    → unmodify s ≡ some u
    → unmodify t ≡ some v
    → u ≢ v
    → (u ≢ float_type) ⊎ (v ≢ double_type)
    → ¬ Subtype s t
not-Subtype us vt differ other (same e) = differ (cc)
not-Subtype us vt differ (inl no_float) (float_double f d) = no_float (cc)
not-Subtype us vt differ (inr no_double) (float_double f d) = no_double (cc)

module _ {s t u v : TypePtr} (us : unmodify s ≡ some u) (vt : unmodify t ≡ some v) where
  by_answers :
      Answer u v
      → Answer u float_type
      → Answer v double_type
      → ((is_subtype_of s t ≡ some true) × Subtype s t)
        ⊎ ((is_subtype_of s t ≡ some false) × (¬ Subtype s t))
  unfolding is_subtype_of
  by_answers (inl (e, eq)) (inl (f, _)) (inl (d, _)) =
      inl (rw (us, vt, e, f, d), same (us ∙ ap some eq ∙ sym vt))
  by_answers (inl (e, eq)) (inl (f, _)) (inr (d, _)) =
      inl (rw (us, vt, e, f, d), same (us ∙ ap some eq ∙ sym vt))
  by_answers (inl (e, eq)) (inr (f, _)) (inl (d, _)) =
      inl (rw (us, vt, e, f, d), same (us ∙ ap some eq ∙ sym vt))
  by_answers (inl (e, eq)) (inr (f, _)) (inr (d, _)) =
      inl (rw (us, vt, e, f, d), same (us ∙ ap some eq ∙ sym vt))
  by_answers (inr (e, ne)) (inl (f, fe)) (inl (d, de)) =
      inl (rw (us, vt, e, f, d), float_double (us ∙ ap some fe) (vt ∙ ap some de))
  by_answers (inr (e, ne)) (inl (f, fe)) (inr (d, nd)) =
      inr (rw (us, vt, e, f, d), not-Subtype us vt ne (inr nd))
  by_answers (inr (e, ne)) (inr (f, nf)) (inl (d, de)) =
      inr (rw (us, vt, e, f, d), not-Subtype us vt ne (inl nf))
  by_answers (inr (e, ne)) (inr (f, nf)) (inr (d, nd)) =
      inr (rw (us, vt, e, f, d), not-Subtype us vt ne (inl nf))

-- On resolved types `isSubtypeOf` answers, and answers yes exactly for subtypes: the same type under
-- the modifiers, or Float under Double.
pub is_subtype_of_decides :
    (s t : TypePtr)
    → IsResolved s
    → IsResolved t
    → ((is_subtype_of s t ≡ some true) × Subtype s t)
      ⊎ ((is_subtype_of s t ≡ some false) × (¬ Subtype s t))
is_subtype_of_decides s t hs ht =
    let (u, us, hu) = unmodify-IsResolved s hs in
    let (v, vt, hv) = unmodify-IsResolved t ht in
    by_answers us vt (is_decides u v hu hv) (is_decides u float_type hu tt)
      (is_decides v double_type hv tt)

-- Subtyping is transitive.
pub Subtype-trans : {s t u : TypePtr} → Subtype s t → Subtype t u → Subtype s u
Subtype-trans (same e) (same f) = same (e ∙ f)
Subtype-trans (same e) (float_double f d) = float_double (e ∙ f) d
Subtype-trans (float_double f d) (same e) = float_double f (sym e ∙ d)
Subtype-trans (float_double f d) (float_double f' d') = absurd (cc)
