-- ===== src/Parser/Steps.antt =====
-- The actions and loops of Parser.Stream, by what a single step does.
use peryan.Parser.Stream.{P, Parsed, Stream, Test, ok, continue, ◌>>=◌, when, while_loop}
use peryan.Prelude.{ℕ, suc, true, false, ◌≡◌, refl, ap, ◌∙◌}

pub bind-ok :
    {A B : Type 0} (p : P A) (f : A → P B) {a : A} {s s' : Stream}
    → p s ≡ ok a s'
    → (p >>= f) s ≡ f a s'
unfolding ◌>>=◌
bind-ok p f q = rw q refl

pub while_loop-stops :
    {A : Type 0} (f : ℕ) (c : Test) (body : A → P A) (a : A) (s : Stream)
    → c s ≡ false
    → while_loop (suc f) c body a s ≡ ok a s
unfolding while_loop
while_loop-stops {A = A} f c body a s q =
    ap {B = Parsed A}
      (λ b. elim b [ true ↦ continue (body a s) (while_loop f c body) | false ↦ ok a s ]) q

pub while_loop-goes_on :
    {A : Type 0} (f : ℕ) (c : Test) (body : A → P A) (a : A) (s : Stream) {a' : A} {s' : Stream}
    → c s ≡ true
    → body a s ≡ ok a' s'
    → while_loop (suc f) c body a s ≡ while_loop f c body a' s'
unfolding while_loop
while_loop-goes_on {A = A} f c body a s q r =
    ap {B = Parsed A}
      (λ b. elim b [ true ↦ continue (body a s) (while_loop f c body) | false ↦ ok a s ]) q
    ∙ ap {B = Parsed A} (λ o. continue o (while_loop f c body)) r

pub when-false : {A : Type 0} (c : Test) (p q : P A) (s : Stream) → c s ≡ false → when c p q s ≡ q s
unfolding when
when-false {A = A} c p q s h = ap {B = Parsed A} (λ b. elim b [ true ↦ p s | false ↦ q s ]) h
