-- ===== src/Scopes/Meaning.antt =====
-- A name has one meaning at most, at a position in a scope.
use mathlib.Core.Option.{some-injective}
use peryan.Prelude.{ℕ, List, Option, none, some, ◌≡◌, inl, inr, refl, sym, ap, ◌∙◌, subst}
use peryan.Scopes.Resolution.{Resolves, here, outer, nowhere, Hidden, IsSeen}
use peryan.Scopes.{Scope, Symbol, get_member, scope_at}

same_scope :
    (st : List Scope) (id : ℕ) (sc sc' : Scope)
    → scope_at st id ≡ some sc
    → scope_at st id ≡ some sc'
    → sc ≡ sc'
same_scope st id sc sc' e e' = some-injective _ _ (sym e ∙ e')

module _ (st : List Scope) (name : List ℕ) (pos : ℕ) where
  seen-not-Hidden :
      (id : ℕ) (sc sc' : Scope) (s : Symbol)
      → scope_at st id ≡ some sc
      → scope_at st id ≡ some sc'
      → get_member name sc.symbols ≡ some s
      → IsSeen pos s
      → ¬ Hidden name pos sc'
  unfolding Hidden
  seen-not-Hidden id sc sc' s e e' m v hid =
      refuted (subst (Hidden name pos) (same_scope st id sc' sc e' e) hid)
    where
      refuted : ¬ Hidden name pos sc
      refuted (inl h) = cc
      refuted (inr (u, h, unseen)) = unseen (subst (IsSeen pos) (some-injective _ _ (sym m ∙ h)) v)

  same_parent :
      (id : ℕ) (sc sc' : Scope) (p p' : Option ℕ)
      → scope_at st id ≡ some sc
      → scope_at st id ≡ some sc'
      → sc.enclosing ≡ p
      → sc'.enclosing ≡ p'
      → p ≡ p'
  same_parent id sc sc' p p' e e' h h' =
      sym h ∙ ap (λ (x : Scope). x.enclosing) (same_scope st id sc sc' e e') ∙ h'

  pub Resolves-unique :
      {id : ℕ} {r r' : Option Symbol}
      → Resolves st name pos id r
      → Resolves st name pos id r'
      → r ≡ r'
  Resolves-unique (here {id = id} {sc = sc} e m v) (here {sc = sc'} e' m' v') =
      sym m ∙ ap (λ (x : Scope). get_member name x.symbols) (same_scope st id sc sc' e e') ∙ m'
  Resolves-unique (here {id = id} {sc = sc} {s = s} e m v) (outer {sc = sc'} e' hid en q) =
      absurd (seen-not-Hidden id sc sc' s e e' m v hid)
  Resolves-unique (here {id = id} {sc = sc} {s = s} e m v) (nowhere {sc = sc'} e' hid en) =
      absurd (seen-not-Hidden id sc sc' s e e' m v hid)
  Resolves-unique (outer {sc = sc} e hid en q) (here {id = id} {sc = sc'} {s = s} e' m v) =
      absurd (seen-not-Hidden id sc' sc s e' e m v hid)
  Resolves-unique (outer {id = id} {e = up} {sc = sc} e hid en q)
        (outer {e = up'} {sc = sc'} {r = r'} e' hid' en' q') =
      let same : some up ≡ some up' = same_parent id sc sc' (some up) (some up') e e' en en' in
      Resolves-unique q
        (subst (λ (i : ℕ). Resolves st name pos i r') (sym (some-injective up up' same)) q')
  Resolves-unique (outer {id = id} {e = up} {sc = sc} e hid en q) (nowhere {sc = sc'} e' hid' h) =
      cc (same_parent id sc sc' (some up) none e e' en h)
  Resolves-unique (nowhere {sc = sc} e hid en) (here {id = id} {sc = sc'} {s = s} e' m v) =
      absurd (seen-not-Hidden id sc' sc s e' e m v hid)
  Resolves-unique (nowhere {id = id} {sc = sc} e hid h) (outer {e = up} {sc = sc'} e' hid' en' q) =
      cc (same_parent id sc sc' none (some up) e e' h en')
  Resolves-unique (nowhere e hid en) (nowhere e' hid' en') = refl
