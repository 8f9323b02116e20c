-- ===== src/TokenBuffer/Speculation.antt =====
-- Speculation leaves no trace but tokens that have been read ahead.
use peryan.Lexer.Cursor.{Lexer, Result, ok, throws, overflow, out_of_fuel, ◌>>=◌}
use peryan.Lexer.Scan.{get_next_token}
use peryan.Prelude.{
  ℕ, zero, suc, ◌+◌, List, [], ◌∷◌, ◌++◌, ◌≡◌, inl, inr, refl, sym, ap, ◌∙◌, subst, append_assoc,
  append-nil, Option-cases,
}
use peryan.Token.{Token}
use peryan.TokenBuffer.{
  Buffer, marked, mark, release, consume, consumed, token_at, last_end, lt_loop, lt, marker, Access,
  looks, consumes, access, tail,
}

-- The tokens of `b'` begin with those of `b`.
record Extends (b b' : Buffer) : Type 0 where
  more : List Token
  grown : b'.read ≡ b.read ++ more

Extends-refl : (b : Buffer) → Extends b b
Extends-refl b = record { more = []; grown = sym (append-nil b.read) }

Extends-trans : {b b' b'' : Buffer} → Extends b b' → Extends b' b'' → Extends b b''
Extends-trans {b} h k = record {
  more = h.more ++ k.more;
  grown = k.grown ∙ ap (◌++ k.more) h.grown ∙ append_assoc b.read h.more k.more;
}

-- A result keeps the markers and extends the tokens.
Looked : Buffer → Result (Token × Buffer) → Type 0
Looked b (ok r) = (r.1.markers ≡ b.markers) × Extends b r.1
Looked b (throws pos m) = Unit
Looked b overflow = Unit
Looked b out_of_fuel = Unit

lt_loop-Looked : (f n : ℕ) (b : Buffer) → Looked b (lt_loop f n b)
unfolding lt_loop Looked
lt_loop-Looked zero n b = tt
lt_loop-Looked (suc f) n b = elim (Option-cases (token_at b.read n)) [
  | inr (t, e) ↦ rw e (refl, Extends-refl b)
  | inl e ↦ elim (Option-cases (last_end b.read)) [
    | inr (t, e') ↦ rw (e, e') (refl, Extends-refl b)
    | inl e' ↦
        rw (e, e')
          (by_token (get_next_token b.lexer)
            (λ t l. lt_loop-Looked f n (record b { read = b.read ++ (t ∷ []); lexer = l })))
  ]
]
  where
    later :
        (t : Token) (l : Lexer) (r : Result (Token × Buffer))
        → Looked (record b { read = b.read ++ (t ∷ []); lexer = l }) r
        → Looked b r
    later t l (ok r) (m, x) = (m, Extends-trans (record { more = t ∷ []; grown = refl }) x)
    later t l (throws pos m) h = tt
    later t l overflow h = tt
    later t l out_of_fuel h = tt

    by_token :
        (r : Result (Token × Lexer))
        → ((t : Token) (l : Lexer)
            → Looked
                (record b { read = b.read ++ (t ∷ []); lexer = l })
                (lt_loop f n (record b { read = b.read ++ (t ∷ []); lexer = l })))
        → Looked b (r >>= λ (t, l). lt_loop f n (record b { read = b.read ++ (t ∷ []); lexer = l }))
    by_token (ok (t, l)) h = later t l _ (h t l)
    by_token (throws pos m) h = tt
    by_token overflow h = tt
    by_token out_of_fuel h = tt

lt-Looked :
    (n : ℕ) (b : Buffer) {t : Token} {b' : Buffer}
    → lt n b ≡ ok (t, b')
    → (b'.markers ≡ b.markers) × Extends b b'
unfolding lt
lt-Looked n b h =
    unfold Looked in
    subst (Looked b) h (lt_loop-Looked (suc (suc (n + marker b.markers))) (n + marker b.markers) b)

abbrev buffer : Buffer → Result Buffer → Buffer
buffer b (ok b') = b'
buffer b r = b

-- While one speculates, only the last marker moves.
access-keeps :
    (steps : List Access) (b b' : Buffer) (m : ℕ) (ms : List ℕ)
    → b.markers ≡ m ∷ ms
    → access steps b ≡ ok b'
    → (tail b'.markers ≡ ms) × Extends b b'
unfolding access
access-keeps [] b b' m ms e h =
    let same : b ≡ b' = ap (buffer b) h in
    subst (λ x. (tail x.markers ≡ ms) × Extends b x) same (ap tail e, Extends-refl b)
access-keeps (consumes n ∷ steps) b b' m ms e h =
    let kept = access-keeps steps (consume n b) b' (m + n) ms (unfold consumed in rw e refl) h in
    (kept.0, unfold consumed in by_markers b.markers e (λ x. x) kept.1)
  where
    by_markers :
        (ks : List ℕ)
        → ks ≡ m ∷ ms
        → (Extends (consume n b) b' → Extends (consumed n b ks) b')
        → Extends (consume n b) b'
        → Extends b b'
    by_markers [] q f x = cc
    by_markers (k ∷ ks) q f x = record { more = (f x).more; grown = unfold consumed in (f x).grown }
access-keeps (looks n ∷ steps) b b' m ms e h =
    by_look (lt n b) (λ t b₁ q. lt-Looked n b q) (λ t b₁ q k. access-keeps steps b₁ b' m ms q k)
      refl h
  where
    by_look :
        (r : Result (Token × Buffer))
        → ((t : Token) (b₁ : Buffer)
            → lt n b ≡ ok (t, b₁)
            → (b₁.markers ≡ b.markers) × Extends b b₁)
        → ((t : Token) (b₁ : Buffer)
            → b₁.markers ≡ m ∷ ms
            → access steps b₁ ≡ ok b'
            → (tail b'.markers ≡ ms) × Extends b₁ b')
        → lt n b ≡ r
        → (r >>= λ (t, b₁). access steps b₁) ≡ ok b'
        → (tail b'.markers ≡ ms) × Extends b b'
    by_look (ok (t, b₁)) looked next q k =
        let (same, x) = looked t b₁ q in
        let (kept, y) = next t b₁ (same ∙ e) k in (kept, Extends-trans x y)
    by_look (throws pos msg) looked next q k = cc
    by_look overflow looked next q k = cc
    by_look out_of_fuel looked next q k = cc

marked_markers : (b : Buffer) (ms : List ℕ) → (marked b ms).markers ≡ marker ms ∷ ms
marked_markers b [] = refl
marked_markers b (m ∷ ms) = refl

marked_read : (b : Buffer) (ms : List ℕ) → (marked b ms).read ≡ b.read
marked_read b [] = refl
marked_read b (m ∷ ms) = refl

-- Between `mark` and `release` the parser may look ahead and consume as it likes: behind `release`
-- the markers are the ones before `mark`, and the tokens are the ones before, perhaps with more
-- read behind them.
pub speculation_leaves_no_trace :
    (steps : List Access) (b b' : Buffer)
    → access steps (mark b) ≡ ok b'
    → ((release b').markers ≡ b.markers)
      × (more : List Token) × ((release b').read ≡ b.read ++ more)
speculation_leaves_no_trace steps b b' h =
    let (kept, x) =
      access-keeps steps (mark b) b' (marker b.markers) b.markers (marked_markers b b.markers) h in
    (kept, x.more, x.grown ∙ ap (◌++ x.more) (marked_read b b.markers))
