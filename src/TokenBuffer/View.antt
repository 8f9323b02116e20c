-- ===== src/TokenBuffer/View.antt =====
-- How the buffer and the tokens of Parser.Stream are related.
use peryan.Lexer.Cursor.{Lexer, Result, ok, ◌>>=◌}
use peryan.Lexer.Scan.{get_next_token, is_end}
use peryan.Parser.Stream.{Stream, end_token, token_at as nth_token}
use peryan.Prelude.{
  ℕ, zero, suc, ◌+◌, ◌≤◌, ◌<◌, true, false, List, [], ◌∷◌, ◌++◌, none, some, ◌≡◌, ◌⊎◌, inl, inr,
  refl, sym, ap, ◌∙◌, subst, length, drop, append_assoc, append-nil, length-append, arith,
  Option-cases,
}
use peryan.Token.{Token}
use peryan.TokenBuffer.Front.{
  last_end-append, last_end-append_none, token_at-end, token_at-some, token_at-front,
  token_at-beyond, token_at-within, pop_front-end, pop_front-drop, last_end-drop, drop-append,
}
use peryan.TokenBuffer.{
  Buffer, consume, consumed, token_at, last_end, answered, lt_loop, lt, marker,
}

-- The lexer goes on with these tokens, and then the `END`.
pub data Yields (end : Token) : Lexer → List Token → Type 0 where
  ends : {l l' : Lexer} → get_next_token l ≡ ok (end, l') → Yields end l []
  goes_on :
      {l l' : Lexer} {t : Token} {ts : List Token}
      → get_next_token l ≡ ok (t, l')
      → is_end t.type ≡ false
      → Yields end l' ts
      → Yields end l (t ∷ ts)

-- Outside a speculation the buffer stands for the tokens that are left: it has read them all and the
-- `END`, or it has read some of them, and the lexer goes on with the others.
pub data Shows (b : Buffer) (s : Stream) : Type 0 where
  read_all : b.markers ≡ [] → b.read ≡ s.rest ++ (end_token s ∷ []) → Shows b s
  reading :
      {us : List Token}
      → b.markers ≡ []
      → last_end b.read ≡ none
      → s.rest ≡ b.read ++ us
      → Yields (end_token s) b.lexer us
      → Shows b s

further : ℕ → ℕ → Buffer → Token × Lexer → Result (Token × Buffer)
further f n b (t, l) = lt_loop f n (record b { read = b.read ++ (t ∷ []); lexer = l })

module _ (f n : ℕ) (b : Buffer) where
  lt_loop-step :
      lt_loop (suc f) n b
      ≡ answered
          (token_at b.read n)
          (answered (last_end b.read) (get_next_token b.lexer >>= further f n b) b)
          b
  unfolding lt_loop further
  lt_loop-step = refl

  lt_loop-found : (t : Token) → token_at b.read n ≡ some t → lt_loop (suc f) n b ≡ ok (t, b)
  lt_loop-found t q = lt_loop-step ∙ rw q refl

  lt_loop-at_end :
      (e : Token)
      → token_at b.read n ≡ none
      → last_end b.read ≡ some e
      → lt_loop (suc f) n b ≡ ok (e, b)
  lt_loop-at_end e q p = lt_loop-step ∙ rw (q, p) refl

  lt_loop-goes_on :
      (t : Token) (l : Lexer)
      → token_at b.read n ≡ none
      → last_end b.read ≡ none
      → get_next_token b.lexer ≡ ok (t, l)
      → lt_loop (suc f) n b ≡ lt_loop f n (record b { read = b.read ++ (t ∷ []); lexer = l })
  unfolding further
  lt_loop-goes_on t l q p g = lt_loop-step ∙ rw (q, p, g) refl

-- What is known of the buffer after a look at `n`: it has read so far, or all.
abbrev pub Reached : ℕ → Buffer → Stream → Type 0
Reached n b s = (n < length b.read) ⊎ (b.read ≡ s.rest ++ (end_token s ∷ []))

pub record Looked (n : ℕ) (s : Stream) (o : Result (Token × Buffer)) : Type 0 where
  pub after : Buffer
  pub answer : o ≡ ok (nth_token n s, after)
  pub shows : Shows after s
  pub reached : Reached n after s

is_end-end : (s : Stream) → is_end (end_token s).type ≡ true
unfolding is_end
is_end-end s = refl

-- Enough fuel for the tokens that are still to be read.
lt_loop-Looked :
    (f n : ℕ) (b : Buffer) (s : Stream)
    → Shows b s
    → 1 ≤ f
    → n + 2 ≤ f + length b.read
    → Looked n s (lt_loop f n b)
unfolding nth_token
lt_loop-Looked (suc f) n b s (read_all m r) l w = elim (Option-cases (token_at b.read n)) [
  | inr (t, q) ↦ record {
    after = b;
    answer = rw (lt_loop-found f n b t q, token_at-some s.rest (end_token s) t n (rw r at q)) refl;
    shows = read_all m r;
    reached = inr r;
  }
  | inl q ↦ record {
    after = b;
    answer =
        rw
          (
            lt_loop-at_end f n b (end_token s) q
                (rw r (last_end-append (end_token s) s.rest (is_end-end s))),
            token_at-end s.rest (end_token s) n (rw r at q),
          )
          refl;
    shows = read_all m r;
    reached = inr r;
  }
]
lt_loop-Looked (suc f) n b s (reading m p r y) l w = elim (Option-cases (token_at b.read n)) [
  | inr (t, q) ↦ record {
    after = b;
    answer = rw (lt_loop-found f n b t q, r, token_at-front b.read _ (end_token s) t n q) refl;
    shows = reading m p r y;
    reached = inl (token_at-within b.read n t q);
  }
  | inl q ↦ by_lexer q r y λ b' h' l'. lt_loop-Looked f n b' s h' (beyond q) (omega (arith, l'))
]
  where
    beyond : token_at b.read n ≡ none → 1 ≤ f
    beyond q = let k = token_at-beyond b.read n q in omega (arith, k, w)

    by_lexer :
        {us : List Token}
        → token_at b.read n ≡ none
        → s.rest ≡ b.read ++ us
        → Yields (end_token s) b.lexer us
        → ((b' : Buffer)
            → Shows b' s
            → length b'.read ≡ length b.read + 1
            → Looked n s (lt_loop f n b'))
        → Looked n s (lt_loop (suc f) n b)
    by_lexer q r (ends {l' = l'} g) k = rw (lt_loop-goes_on f n b (end_token s) l' q p g) (
        k _ (read_all m (rw (r, append-nil b.read) refl)) (length-append b.read (end_token s ∷ [])))
    by_lexer q r (goes_on {l' = l'} {t = t} {ts = ts} g h y) k =
        rw (lt_loop-goes_on f n b t l' q p g) (
          k _ (reading m (last_end-append_none t b.read h) (rw append_assoc r) y)
            (length-append b.read (t ∷ [])))
lt_loop-Looked zero n b s h l w = absurd (omega arith)

consume-Shows :
    (n : ℕ) (b : Buffer) (s : Stream)
    → Shows b s
    → Reached n b s
    → Shows (consume (suc n) b) (record s { rest = drop (suc n) s.rest })
unfolding consumed
consume-Shows n b s (read_all m r) h =
    rw m (read_all refl (rw r (pop_front-end (suc n) s.rest (end_token s) (is_end-end s))))
consume-Shows n b s (reading {us = us} m p r y) (inr q) =
    absurd (ground (arith, p, q, last_end-append (end_token s) s.rest (is_end-end s)))
consume-Shows n b s (reading {us = us} m p r y) (inl q) = rw m (
    reading refl (rw (pop_front-drop (suc n) b.read p) (last_end-drop (suc n) b.read p))
      (rw (r, drop-append (suc n) b.read us (omega arith), pop_front-drop (suc n) b.read p) refl) y)

-- A buffer that stands for some tokens outside a speculation answers a look at `n` as the tokens do,
-- reads as far as it has to, and then stands for the same tokens; to consume what was looked at leaves
-- it standing for the tokens that are left.
pub lt-consume :
    (n : ℕ) (b : Buffer) (s : Stream)
    → Shows b s
    → (b' : Buffer) × (lt n b ≡ ok (nth_token n s, b'))
      × Shows b' s
      × Shows (consume (suc n) b') (record s { rest = drop (suc n) s.rest })
unfolding lt
lt-consume n b s h =
    let o = looked in (o.after, o.answer, o.shows, consume-Shows n o.after s o.shows o.reached)
  where
    index_of : Shows b s → n + marker b.markers ≡ n
    index_of (read_all m r) = omega (arith, ap marker m)
    index_of (reading m p r y) = omega (arith, ap marker m)

    at_index : (k : ℕ) → k ≡ n → Looked n s (lt_loop (suc (suc k)) k b)
    at_index k q =
        subst (λ k. Looked n s (lt_loop (suc (suc k)) k b)) (sym q)
          (lt_loop-Looked (suc (suc n)) n b s h (omega arith) (omega arith))

    looked : Looked n s (lt n b)
    looked = at_index (n + marker b.markers) (index_of h)
