-- ===== src/SymbolResolver/Spellings.antt =====
-- How built-in types and modifiers are written in a type specification, against the tests of
-- src/SymbolResolver.cc.
use mathlib.Core.Option.{some-injective}
use peryan.Prelude.{
  ℕ, Bool, true, false, List, Option, none, some, ◌≡◌, inl, inr, refl, ap, ◌∙◌, if◌then◌else◌,
  Bool-cases, codes,
}
use peryan.Scopes.Definition.{same_name-eq}
use peryan.Scopes.{same_name}
use peryan.SymbolResolver.Specs.{builtin_named, modified}
use peryan.Types.{
  TypePtr, Builtin, int_, string_, char_, float_, double_, bool_, void_, label_, modifier,
}

-- How the built-in types are written.
pub spelling : Builtin → List ℕ
spelling int_ = codes "Int"
spelling string_ = codes "String"
spelling char_ = codes "Char"
spelling float_ = codes "Float"
spelling double_ = codes "Double"
spelling bool_ = codes "Bool"
spelling void_ = codes "Void"
spelling label_ = codes "Label"

-- A type with the modifiers that are written in front of it; without any, the type itself.
pub data WithModifiers : Bool → Bool → TypePtr → TypePtr → Type 0 where
  unmodified : {t : TypePtr} → WithModifiers false false t t
  a_const : {t : TypePtr} → WithModifiers true false t (modifier true false t)
  a_ref : {t : TypePtr} → WithModifiers false true t (modifier false true t)
  a_const_ref : {t : TypePtr} → WithModifiers true true t (modifier true true t)

pub modified-WithModifiers : (c r : Bool) (t : TypePtr) → WithModifiers c r t (modified c r t)
modified-WithModifiers false false t = unmodified
modified-WithModifiers true false t = a_const
modified-WithModifiers false true t = a_ref
modified-WithModifiers true true t = a_const_ref

pub WithModifiers-modified :
    {c r : Bool} {t t' : TypePtr} → WithModifiers c r t t' → modified c r t ≡ t'
WithModifiers-modified unmodified = refl
WithModifiers-modified a_const = refl
WithModifiers-modified a_ref = refl
WithModifiers-modified a_const_ref = refl

pub builtin_named-spelling : (b : Builtin) → builtin_named (spelling b) ≡ some b
unfolding builtin_named spelling same_name
builtin_named-spelling int_ = refl
builtin_named-spelling string_ = refl
builtin_named-spelling char_ = refl
builtin_named-spelling float_ = refl
builtin_named-spelling double_ = refl
builtin_named-spelling bool_ = refl
builtin_named-spelling void_ = refl
builtin_named-spelling label_ = refl

-- The answer of a test of the name, in front of the tests that follow.
named_or :
    (name : List ℕ) (c : Builtin) (rest : Option Builtin)
    → ((b : Builtin) → rest ≡ some b → name ≡ spelling b)
    → (b : Builtin) → (if same_name name (spelling c) then some c else rest) ≡ some b
    → name ≡ spelling b
named_or name c rest h b e = elim (Bool-cases (same_name name (spelling c))) [
  | inl q ↦
      let same : c ≡ b = some-injective _ _ (rw q at e) in
      same_name-eq name (spelling c) q ∙ ap spelling same
  | inr q ↦ h b (rw q at e)
]

pub builtin_named-IsSpelled :
    (name : List ℕ) (b : Builtin) → builtin_named name ≡ some b → name ≡ spelling b
unfolding builtin_named spelling
builtin_named-IsSpelled name = named_or name int_ _ (
    named_or name string_ _ (
      named_or name char_ _ (
        named_or name float_ _ (
          named_or name double_ _ (
            named_or name bool_ _ (named_or name void_ _ (named_or name label_ none λ b e. cc)))))))
