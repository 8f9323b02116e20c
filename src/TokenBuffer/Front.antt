-- ===== src/TokenBuffer/Front.antt =====
-- The tokens that have been read: looking at one, and popping some.
use peryan.Lexer.Scan.{is_end}
use peryan.Prelude.{
  ℕ, zero, suc, ◌≤◌, ◌<◌, Bool, true, false, List, [], ◌∷◌, ◌++◌, none, some, ◌≡◌, refl,
  if◌then◌else◌, length, drop, get_or, arith,
}
use peryan.Token.{Token}
use peryan.TokenBuffer.{pop_front, token_at, last_end}

pub last_end-append :
    (e : Token) (ts : List Token) → is_end e.type ≡ true → last_end (ts ++ (e ∷ [])) ≡ some e
unfolding last_end
last_end-append e [] h = rw h
last_end-append e (t ∷ []) h = rw h
last_end-append e (t ∷ u ∷ ts) h = last_end-append e (u ∷ ts) h

pub last_end-append_none :
    (t : Token) (ts : List Token) → is_end t.type ≡ false → last_end (ts ++ (t ∷ [])) ≡ none
unfolding last_end
last_end-append_none t [] h = rw h
last_end-append_none t (u ∷ []) h = rw h
last_end-append_none t (u ∷ v ∷ ts) h = last_end-append_none t (v ∷ ts) h

pub token_at-end :
    (ts : List Token) (e : Token) (n : ℕ) → token_at (ts ++ (e ∷ [])) n ≡ none → get_or ts n e ≡ e
unfolding token_at
token_at-end [] e n h = refl
token_at-end (t ∷ ts) e zero h = cc
token_at-end (t ∷ ts) e (suc n) h = token_at-end ts e n h

pub token_at-some :
    (ts : List Token) (e t : Token) (n : ℕ)
    → token_at (ts ++ (e ∷ [])) n ≡ some t
    → get_or ts n e ≡ t
unfolding token_at
token_at-some [] e t zero h = cc
token_at-some [] e t (suc n) h = cc
token_at-some (u ∷ ts) e t zero h = cc
token_at-some (u ∷ ts) e t (suc n) h = token_at-some ts e t n h

pub token_at-front :
    (ts us : List Token) (e t : Token) (n : ℕ) → token_at ts n ≡ some t → get_or (ts ++ us) n e ≡ t
unfolding token_at
token_at-front [] us e t n h = cc
token_at-front (u ∷ ts) us e t zero h = cc
token_at-front (u ∷ ts) us e t (suc n) h = token_at-front ts us e t n h

pub token_at-beyond : (ts : List Token) (n : ℕ) → token_at ts n ≡ none → length ts ≤ n
unfolding token_at
token_at-beyond [] n h = omega arith
token_at-beyond (t ∷ ts) zero h = absurd (ground (arith, h))
token_at-beyond (t ∷ ts) (suc n) h = let k = token_at-beyond ts n h in omega (arith, k)

pub token_at-within : (ts : List Token) (n : ℕ) (t : Token) → token_at ts n ≡ some t → n < length ts
unfolding token_at
token_at-within [] n t h = absurd (ground (arith, h))
token_at-within (u ∷ ts) zero t h = omega arith
token_at-within (u ∷ ts) (suc n) t h = let k = token_at-within ts n t h in omega (arith, k)

pub pop_front-end :
    (n : ℕ) (ts : List Token) (e : Token)
    → is_end e.type ≡ true
    → pop_front n (ts ++ (e ∷ [])) ≡ drop n ts ++ (e ∷ [])
unfolding pop_front
pop_front-end zero ts e h = refl
pop_front-end (suc n) [] e h = rw h refl
pop_front-end (suc n) (t ∷ []) e h = pop_front-end n [] e h
pop_front-end (suc n) (t ∷ u ∷ ts) e h = pop_front-end n (u ∷ ts) e h

pub pop_front_nil : (n : ℕ) → pop_front n [] ≡ []
unfolding pop_front
pop_front_nil zero = refl
pop_front_nil (suc n) = refl

pub last_end_single : (t : Token) → last_end (t ∷ []) ≡ none → is_end t.type ≡ false
unfolding last_end
last_end_single t h = by_test (is_end t.type) h
  where
    by_test : (b : Bool) → (if b then some t else none) ≡ none → b ≡ false
    by_test true h = absurd (ground (arith, h))
    by_test false h = refl

pub pop_front-drop : (n : ℕ) (ts : List Token) → last_end ts ≡ none → pop_front n ts ≡ drop n ts
unfolding pop_front last_end
pop_front-drop zero ts h = refl
pop_front-drop (suc n) [] h = refl
pop_front-drop (suc n) (t ∷ []) h = rw (last_end_single t h) (pop_front-drop n [] refl)
pop_front-drop (suc n) (t ∷ u ∷ ts) h = pop_front-drop n (u ∷ ts) h

pub last_end-drop : (n : ℕ) (ts : List Token) → last_end ts ≡ none → last_end (drop n ts) ≡ none
unfolding last_end
last_end-drop zero ts h = h
last_end-drop (suc n) [] h = refl
last_end-drop (suc n) (t ∷ []) h = last_end-drop n [] refl
last_end-drop (suc n) (t ∷ u ∷ ts) h = last_end-drop n (u ∷ ts) h

pub drop-append : (n : ℕ) (ts us : List Token) → n ≤ length ts → drop n (ts ++ us) ≡ drop n ts ++ us
drop-append zero ts us h = refl
drop-append (suc n) [] us h = absurd (omega arith)
drop-append (suc n) (t ∷ ts) us h = drop-append n ts us (omega arith)
