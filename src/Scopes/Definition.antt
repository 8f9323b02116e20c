-- ===== src/Scopes/Definition.antt =====
-- What `define` does to the scopes, and to the answers of `resolve`.
use mathlib.Core.Option.{some-injective}
use mathlib.Core.Path.{fun_ext}
use peryan.Prelude.{
  ℕ, zero, suc, ◌<◌, true, false, List, [], ◌∷◌, none, some, ◌≡◌, ◌≢◌, ◌⊎◌, inl, inr, refl, sym, ap,
  arith, ◌==◌, length, ==_iff, Bool-cases, Option-cases,
}
use peryan.Scopes.Resolution.{IsSeen, is_visible-IsSeen, scope_at_below}
use peryan.Scopes.{
  Symbol, Scope, same_name, get_member, scope_at, put_scope, placed, with_symbol, define,
  is_visible, visible_or, ask_parent, resolve_loop, resolve,
}
use peryan.Types.{◌>>=◌}

pub same_name_refl : (n : List ℕ) → same_name n n ≡ true
unfolding same_name
same_name_refl [] = refl
same_name_refl (x ∷ xs) = rw (same_name_refl xs) (ground arith)

pub same_name-eq : (m n : List ℕ) → same_name m n ≡ true → m ≡ n
unfolding same_name
same_name-eq [] [] h = refl
same_name-eq [] (y ∷ ys) h = cc
same_name-eq (x ∷ xs) [] h = cc
same_name-eq (x ∷ xs) (y ∷ ys) h = elim (Bool-cases (x == y)) [
  | inl e ↦
      let same : x ≡ y = (==_iff x y).0 e in
      let tail : xs ≡ ys = same_name-eq xs ys (rw e at h) in cc
  | inr e ↦ cc (rw e at h)
]

pub scope_at_put :
    (st : List Scope) (i : ℕ) (sc new : Scope)
    → scope_at st i ≡ some sc
    → scope_at (put_scope st i new) i ≡ some new
unfolding scope_at put_scope
scope_at_put [] i sc new h = cc
scope_at_put (s ∷ ss) zero sc new h = refl
scope_at_put (s ∷ ss) (suc i) sc new h = scope_at_put ss i sc new h

pub scope_at_put_other :
    (st : List Scope) (i j : ℕ) (new : Scope)
    → i ≢ j
    → scope_at (put_scope st i new) j ≡ scope_at st j
unfolding scope_at put_scope
scope_at_put_other [] i j new h = refl
scope_at_put_other (s ∷ ss) zero zero new h = absurd (h refl)
scope_at_put_other (s ∷ ss) zero (suc j) new h = refl
scope_at_put_other (s ∷ ss) (suc i) zero new h = refl
scope_at_put_other (s ∷ ss) (suc i) (suc j) new h =
    scope_at_put_other ss i j new (λ e. h (ap suc e))

pub length-put_scope :
    (st : List Scope) (i : ℕ) (new : Scope) → length (put_scope st i new) ≡ length st
unfolding put_scope
length-put_scope [] i new = refl
length-put_scope (s ∷ ss) zero new = refl
length-put_scope (s ∷ ss) (suc i) new = ap suc (length-put_scope ss i new)

-- A call of `define` that succeeds, in full.
pub record Defines (st : List Scope) (id : ℕ) (s : Symbol) (st' : List Scope) : Type 0 where
  pub into : Scope
  pub stood : scope_at st id ≡ some into
  pub fresh : get_member s.name into.symbols ≡ none
  pub result : st' ≡ put_scope st id (with_symbol id s into)

pub define-Defines :
    (st : List Scope) (id : ℕ) (s : Symbol) (st' : List Scope)
    → define st id s ≡ some (false, st')
    → Defines st id s st'
unfolding define
define-Defines st id s st' h = elim (Option-cases (scope_at st id)) [
  | inl e ↦ cc (rw e at h)
  | inr (sc, e) ↦ elim (Option-cases (get_member s.name sc.symbols)) [
    | inl m ↦ record {
      into = sc;
      stood = e;
      fresh = m;
      result = ap (λ r. r.1) (some-injective _ _ (sym (rw (e, m) at h)));
    }
    | inr (t, m) ↦ cc (rw (e, m) at h)
  ]
]

pub get_member_other :
    (name : List ℕ) (t : Symbol) (ss : List Symbol)
    → name ≢ t.name
    → get_member name (t ∷ ss) ≡ get_member name ss
unfolding get_member
get_member_other name t ss h = elim (Bool-cases (same_name name t.name)) [
  | inl e ↦ absurd (h (same_name-eq name t.name e))
  | inr e ↦ rw e refl
]

pub get_member_first : (t : Symbol) (ss : List Symbol) → get_member t.name (t ∷ ss) ≡ some t
unfolding get_member
get_member_first t ss = rw (same_name_refl t.name) refl

module _ (st : List Scope) (id : ℕ) (s : Symbol) (st' : List Scope)
    (h : define st id s ≡ some (false, st')) where
  after : (d : Defines st id s st') → scope_at st' id ≡ some (with_symbol id s d.into)
  after d = rw d.result (scope_at_put st id d.into (with_symbol id s d.into) d.stood)

  elsewhere : (d : Defines st id s st') (j : ℕ) → id ≢ j → scope_at st' j ≡ scope_at st j
  elsewhere d j other = rw d.result (scope_at_put_other st id j (with_symbol id s d.into) other)

  -- A symbol that `define` has accepted is what its name means in its scope, from its position on;
  -- a function, class, namespace or label, at every position.
  pub define_then_resolve :
      (cur_pos : ℕ) → IsSeen cur_pos s → resolve st' id s.name cur_pos ≡ some (some (placed id s))
  unfolding resolve resolve_loop visible_or
  define_then_resolve cur_pos v =
      let d = define-Defines st id s st' h in
      rw (after d, get_member_first (placed id s) d.into.symbols, visible v) refl
    where
      visible : IsSeen cur_pos s → is_visible cur_pos s ≡ true
      visible seen = elim (is_visible-IsSeen cur_pos s) [
        | inl (run, _) ↦ run
        | inr (_, unseen) ↦ absurd (unseen seen)
      ]

  -- A second symbol of that name is refused in that scope, and nothing changes.
  pub define_twice : (t : Symbol) → t.name ≡ s.name → define st' id t ≡ some (true, st')
  unfolding define
  define_twice t same =
      let d = define-Defines st id s st' h in rw (after d, same, same_name_refl s.name) refl

  pub resolve_loop_frame :
      (f j : ℕ) (name : List ℕ) (cur_pos : ℕ)
      → Defines st id s st'
      → name ≢ s.name
      → resolve_loop f st' j name cur_pos ≡ resolve_loop f st j name cur_pos
  unfolding resolve_loop
  resolve_loop_frame zero j name cur_pos d other = refl
  resolve_loop_frame (suc f) j name cur_pos d other =
      by_scope (λ up. resolve_loop_frame f up name cur_pos d other)
    where
      by_scope :
          ((up : ℕ) → resolve_loop f st' up name cur_pos ≡ resolve_loop f st up name cur_pos)
          → resolve_loop (suc f) st' j name cur_pos ≡ resolve_loop (suc f) st j name cur_pos
      by_scope ih = elim (Bool-cases (j == id)) [
        | inl e ↦
            let same : j ≡ id = (==_iff j id).0 e in
            rw
              (
                same,
                after d,
                d.stood,
                get_member_other name (placed id s) d.into.symbols other,
                fun_ext ih,
              )
              refl
        | inr e ↦ rw (elsewhere d j (ground arith)) (
            ap
              (λ ask. scope_at st j >>= λ sc.
                visible_or cur_pos (get_member name sc.symbols) (ask_parent sc.enclosing ask))
              (fun_ext ih))
      ]

  -- What every other name means, in every scope and at every position, stays as it was.
  pub define_frame :
      (j : ℕ) (name : List ℕ) (cur_pos : ℕ)
      → name ≢ s.name
      → resolve st' j name cur_pos ≡ resolve st j name cur_pos
  unfolding resolve
  define_frame j name cur_pos other =
      resolve_loop_frame (suc j) j name cur_pos (define-Defines st id s st' h) other

-- In a scope that exists `define` answers.
pub define_answers :
    (st : List Scope) (id : ℕ) (s : Symbol)
    → id < length st
    → (define st id s ≡ some (true, st)) ⊎ (st' : List Scope) × (define st id s ≡ some (false, st'))
unfolding define
define_answers st id s h =
    let (sc, e) = scope_at_below st id h in
    elim (Option-cases (get_member s.name sc.symbols)) [
      | inl m ↦ inr (put_scope st id (with_symbol id s sc), rw (e, m) refl)
      | inr (t, m) ↦ inl (rw (e, m) refl)
    ]
