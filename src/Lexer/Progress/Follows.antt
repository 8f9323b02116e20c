-- ===== src/Lexer/Progress/Follows.antt =====
-- What the steps of the lexer keep, and postconditions of its results.
use peryan.Lexer.Cursor.{
  Lexer, Message, IsCoherent, Result, ok, throws, overflow, out_of_fuel, ◌>>=◌, lookahead, consume,
  consume-IsCoherent,
}
use peryan.Prelude.{
  ℕ, suc, ◌-◌, ◌≤◌, ◌<◌, Bool, true, false, ◌≡◌, ◌≢◌, refl, arith, if◌then◌else◌, length, subst,
  ◌∙◌,
}

-- The characters that are left.
abbrev pub left : Lexer → ℕ
left l = length l.source - l.p

-- `l'` reads the same source as `l`, from the same place or a later one.
pub record Follows (l l' : Lexer) : Type 0 where
  pub same : l'.source ≡ l.source
  pub later : l.p ≤ l'.p
  pub coherent : IsCoherent l'

-- The run kept within its fuel, and `P` holds of its value if it has one.
pub data Ensures {A : Type 0} (P : A → Type 0) : Result A → Type 0 where
  holds : {a : A} → P a → Ensures P (ok a)
  threw : {pos : ℕ} {m : Message} → Ensures P (throws pos m)
  overflowed : Ensures P overflow

module _ {A : Type 0} {P : A → Type 0} where
  pub Ensures-ok : {r : Result A} {a : A} → Ensures P r → r ≡ ok a → P a
  Ensures-ok (holds h) e = subst P (cc) h
  Ensures-ok threw e = cc
  Ensures-ok overflowed e = cc

  pub Ensures-out_of_fuel : {r : Result A} → Ensures P r → r ≢ out_of_fuel
  Ensures-out_of_fuel (holds h) = cc
  Ensures-out_of_fuel threw = cc
  Ensures-out_of_fuel overflowed = cc

  pub Ensures-if :
      (b : Bool) {x y : Result A}
      → (b ≡ true → Ensures P x)
      → (b ≡ false → Ensures P y)
      → Ensures P (if b then x else y)
  Ensures-if true hx hy = hx refl
  Ensures-if false hx hy = hy refl

  pub Ensures-bind :
      {B : Type 0} {Q : B → Type 0} {r : Result A} {f : A → Result B}
      → Ensures P r
      → ((a : A) → P a → Ensures Q (f a))
      → Ensures Q (r >>= f)
  Ensures-bind (holds {a} h) k = k a h
  Ensures-bind threw k = threw
  Ensures-bind overflowed k = overflowed

  pub Ensures-map :
      {Q : A → Type 0} {r : Result A} → Ensures P r → ((a : A) → P a → Q a) → Ensures Q r
  Ensures-map (holds {a} h) k = holds (k a h)
  Ensures-map threw k = threw
  Ensures-map overflowed k = overflowed

pub Follows-refl : {l : Lexer} → IsCoherent l → Follows l l
Follows-refl h = record { same = refl; later = omega arith; coherent = h }

pub Follows-trans : {l m n : Lexer} → Follows l m → Follows m n → Follows l n
Follows-trans g h = record {
  same = h.same ∙ g.same;
  later = omega (arith, g.later, h.later);
  coherent = h.coherent;
}

pub consume-Follows : (n : ℕ) (l : Lexer) → IsCoherent l → Follows l (consume n l)
consume-Follows n l h = record {
  same = unfold consume in refl;
  later = unfold consume in ground (arith, h.within);
  coherent = consume-IsCoherent n l;
}

-- A character that is not the end mark stands inside the source.
pub lt_of_lookahead : (l : Lexer) → lookahead l 0 ≢ 0 → l.p < length l.source
unfolding lookahead
lt_of_lookahead l h = ground arith

pub consume-later : (n : ℕ) (l : Lexer) → 0 < n → l.p < length l.source → l.p < (consume n l).p
unfolding consume
consume-later n l pos h = ground arith

pub left-consume :
    (n f : ℕ) (l : Lexer) → 0 < n → l.p < length l.source → left l < suc f → left (consume n l) < f
unfolding consume
left-consume n f l pos h e = ground arith

-- `l'` stands strictly behind `l`.
pub record Advances (l l' : Lexer) : Type 0 where
  pub follows : Follows l l'
  pub strictly : l.p < l'.p

pub consume-Advances :
    (n : ℕ) (l : Lexer) → IsCoherent l → 0 < n → l.p < length l.source → Advances l (consume n l)
consume-Advances n l c pos inside = record {
  follows = consume-Follows n l c;
  strictly = consume-later n l pos inside;
}

pub Advances-trans : {l m n : Lexer} → Advances l m → Follows m n → Advances l n
Advances-trans a h = record {
  follows = Follows-trans a.follows h;
  strictly = omega (arith, a.strictly, h.later);
}

pub Follows-Advances : {l m n : Lexer} → Follows l m → Advances m n → Advances l n
Follows-Advances h a = record {
  follows = Follows-trans h a.follows;
  strictly = omega (arith, a.strictly, h.later);
}

pub left-Advances : {l m : Lexer} (f : ℕ) → Advances l m → left l < suc f → left m < f
left-Advances f a h = ground (arith, a.strictly, a.follows.same, a.follows.coherent.within)

pub left-Follows : {l m : Lexer} → Follows l m → left m ≤ left l
left-Follows g = ground (arith, g.later, g.same)

-- Going on from a later place.
pub onwards :
    {A : Type 0} {at : A → Lexer} {l m : Lexer} {r : Result A}
    → Follows l m
    → Ensures (λ a. Follows m (at a)) r
    → Ensures (λ a. Follows l (at a)) r
onwards g e = Ensures-map e (λ _ h. Follows-trans g h)
