-- ===== src/SymbolRegister/Steps.antt =====
-- The pass as a sequence of steps on the scopes, and what holds of every sequence.
use peryan.Prelude.{
  ℕ, ◌<◌, ◌≤◌, true, false, List, [], ◌∷◌, ◌++◌, some, ◌≡◌, ◌≢◌, ◌⊎◌, inl, inr, refl, ap, ◌∙◌,
  arith, length, length-append,
}
use peryan.Scopes.Definition.{define-Defines, length-put_scope}
use peryan.Scopes.{
  SymbolType, builtin_type_symbol, namespace_symbol, Symbol, Scope, ScopeType, define, with_symbol,
}
use peryan.SymbolRegister.{is_disallowed_identifier}

-- A name that may be declared; a label's name begins with a star.
pub IsAllowed : List ℕ → Type 0
IsAllowed name =
    (is_disallowed_identifier name ≡ false)
    ⊎ (text : List ℕ) × (name ≡ b'*' ∷ text) × (is_disallowed_identifier text ≡ false)

pub plain_name-IsAllowed : (name : List ℕ) → is_disallowed_identifier name ≡ false → IsAllowed name
unfolding IsAllowed
plain_name-IsAllowed name h = inl h

pub label_name-IsAllowed :
    (text : List ℕ) → is_disallowed_identifier text ≡ false → IsAllowed (b'*' ∷ text)
unfolding IsAllowed
label_name-IsAllowed text h = inr (text, refl, h)

pub IsAllowed-not_reserved : (name : List ℕ) → IsAllowed name → is_disallowed_identifier name ≢ true
unfolding IsAllowed is_disallowed_identifier
IsAllowed-not_reserved name (inl h) e = cc
IsAllowed-not_reserved name (inr (text, same, h)) e = let computed = rw same at e in cc

-- What the pass declares: no built-in type, and a namespace is a scope that exists.
abbrev pub KindIsDeclarable : ℕ → SymbolType → Symbol → Type 0
KindIsDeclarable n builtin_type_symbol s = ⊥
KindIsDeclarable n namespace_symbol s = (m : ℕ) × (s.members ≡ some m) × (m < n)
KindIsDeclarable n t s = Unit

abbrev pub IsDeclarable : ℕ → Symbol → Type 0
IsDeclarable n s = KindIsDeclarable n s.symbol_type s

-- The scopes that come about from `st`: an allowed symbol is defined in a scope that has none of
-- its name, or an empty scope is made inside a scope that exists.
pub data Reaches (st : List Scope) : List Scope → Type 0 where
  start : Reaches st st
  defines :
      {st₁ st₂ : List Scope} (id : ℕ) (s : Symbol)
      → Reaches st st₁
      → IsAllowed s.name
      → define st₁ id s ≡ some (false, st₂)
      → IsDeclarable (length st₁) s
      → Reaches st st₂
  opens :
      {st₁ : List Scope} (t : ScopeType) (parent : ℕ)
      → Reaches st st₁
      → parent < length st₁
      → Reaches st (st₁ ++ (record { scope_type = t; enclosing = some parent; symbols = [] } ∷ []))

pub Reaches-trans : {st st₁ st₂ : List Scope} → Reaches st st₁ → Reaches st₁ st₂ → Reaches st st₂
Reaches-trans r start = r
Reaches-trans r (defines id s q a e w) = defines id s (Reaches-trans r q) a e w
Reaches-trans r (opens t parent q h) = opens t parent (Reaches-trans r q) h

pub define_keeps_length :
    (st : List Scope) (id : ℕ) (s : Symbol) (st' : List Scope)
    → define st id s ≡ some (false, st')
    → length st' ≡ length st
define_keeps_length st id s st' h =
    let d = define-Defines st id s st' h in
    ap length d.result ∙ length-put_scope st id (with_symbol id s d.into)

pub Reaches-grows : {st st' : List Scope} → Reaches st st' → length st ≤ length st'
Reaches-grows start = omega arith
Reaches-grows (defines {st₁ = st₁} {st₂ = st₂} id s q a e w) =
    omega (arith, Reaches-grows q, define_keeps_length st₁ id s st₂ e)
Reaches-grows (opens {st₁ = st₁} t parent q h) = omega (
  arith,
  Reaches-grows q,
  length-append st₁ (record { scope_type = t; enclosing = some parent; symbols = [] } ∷ []),
)
