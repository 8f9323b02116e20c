-- ===== src/TokenBuffer/Start.antt =====
-- The buffer of a new parser, before it has read a token.
use peryan.Lexer.Cursor.{Lexer, Result, ok, throws, overflow, out_of_fuel, ◌>>=◌}
use peryan.Lexer.Scan.{get_next_token, is_end, tokens, tokens_loop, initial}
use peryan.Parser.Stream.{Stream, end_token}
use peryan.Prelude.{
  ℕ, zero, suc, Bool, true, false, List, [], ◌∷◌, ◌++◌, ◌≡◌, refl, ap, ◌∙◌, if◌then◌else◌, length,
  length-append, subst, arith,
}
use peryan.Token.{Token}
use peryan.TokenBuffer.{Buffer, last_end}
use peryan.TokenBuffer.View.{Yields, ends, goes_on, Shows, reading}

abbrev pub fresh : List ℕ → Buffer
fresh source = record { read = []; markers = []; lexer = initial source }

abbrev size : Result (List Token) → ℕ
size (ok ts) = length ts
size r = 0

-- A round of the loop, given what the rounds behind it say.
by_token :
    (end : Token) (l : Lexer) (rest : List Token) (loop : Lexer → Result (List Token))
    (r : Result (Token × Lexer))
    → ((l' : Lexer) (ts : List Token) → loop l' ≡ ok (ts ++ (end ∷ [])) → Yields end l' ts)
    → is_end end.type ≡ true
    → get_next_token l ≡ r
    → (r >>= λ (t, l').
        let more = loop l' >>= λ ts. ok (t ∷ ts) in if is_end t.type then ok (t ∷ []) else more)
      ≡ ok (rest ++ (end ∷ []))
    → Yields end l rest
by_token end l rest loop (ok (t, l')) ih h g q = by_end (is_end t.type) refl rest q
  where
    first_of : {u v : Token} {us vs : List Token} → ok (u ∷ us) ≡ ok (v ∷ vs) → u ≡ v
    first_of q = cc

    others_of : {u v : Token} {us vs : List Token} → ok (u ∷ us) ≡ ok (v ∷ vs) → us ≡ vs
    others_of q = cc

    no_end : t ≡ end → is_end t.type ≡ false → ⊥
    no_end p e = ground (arith, ap (λ u. is_end u.type) p, e, h)

    by_more :
        (o : Result (List Token)) (rest : List Token)
        → loop l' ≡ o
        → is_end t.type ≡ false
        → (o >>= λ ts. ok (t ∷ ts)) ≡ ok (rest ++ (end ∷ []))
        → Yields end l rest
    by_more (ok ts) [] p e q = absurd (no_end (first_of q) e)
    by_more (ok ts) (x ∷ xs) p e q =
        goes_on (subst (λ u. get_next_token l ≡ ok (u, l')) (first_of q) g)
          (subst (λ u. is_end u.type ≡ false) (first_of q) e) (ih l' xs (p ∙ ap ok (others_of q)))
    by_more (throws pos m) rest p e q = absurd (ground (arith, q))
    by_more overflow rest p e q = absurd (ground (arith, q))
    by_more out_of_fuel rest p e q = absurd (ground (arith, q))

    by_end :
        (b : Bool)
        → is_end t.type ≡ b
        → (rest : List Token)
        → (if b then ok (t ∷ []) else (loop l' >>= λ ts. ok (t ∷ ts))) ≡ ok (rest ++ (end ∷ []))
        → Yields end l rest
    by_end true e [] q = ends (subst (λ u. get_next_token l ≡ ok (u, l')) (first_of q) g)
    by_end true e (x ∷ xs) q = absurd (omega (arith, ap size q, length-append xs (end ∷ [])))
    by_end false e rest q = by_more (loop l') rest refl e q
by_token end l rest loop (throws pos m) ih h g q = absurd (ground (arith, q))
by_token end l rest loop overflow ih h g q = absurd (ground (arith, q))
by_token end l rest loop out_of_fuel ih h g q = absurd (ground (arith, q))

tokens_loop-Yields :
    (f : ℕ) (end : Token) (l : Lexer) (ts : List Token)
    → is_end end.type ≡ true
    → tokens_loop f l ≡ ok (ts ++ (end ∷ []))
    → Yields end l ts
unfolding tokens_loop
tokens_loop-Yields zero end l ts h q = absurd (ground (arith, q))
tokens_loop-Yields (suc f) end l ts h q =
    by_token end l ts (tokens_loop f) (get_next_token l) (λ l' us. tokens_loop-Yields f end l' us h)
      h refl q

-- Where a source lexes into some tokens and the `END`, the buffer of a new parser on this source, which
-- has read nothing yet, stands for these tokens.
pub fresh-Shows :
    (source : List ℕ) (s : Stream)
    → tokens source ≡ ok (s.rest ++ (end_token s ∷ []))
    → Shows (fresh source) s
unfolding tokens is_end last_end
fresh-Shows source s q =
    reading refl refl refl
      (tokens_loop-Yields (suc (length source)) (end_token s) (initial source) s.rest refl q)
