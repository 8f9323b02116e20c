-- ===== src/Lexer/Keyword/Longest.antt =====
-- The search through `keywords` finds the longest keyword or punctuator.
use mathlib.Core.List.{Mem, Perm, mem-cons, not-mem-nil}
use mathlib.Core.List.Perm
use mathlib.Core.Logic.Or
use native.Mathlib.Bridge.{le_prop}
use peryan.Lexer.Cursor.{Lexer, lookahead}
use peryan.Lexer.Keyword.{
  string_lt, insert_entry, sort_entries, keywords, matches_from, find_keyword,
}
use peryan.Prelude.{
  ℕ, ◌+◌, ◌≤◌, ◌<◌, Bool, true, not, ◌&&◌, List, [], ◌∷◌, some, ◌≡◌, refl, arith, ◌==◌, length,
  get_or, subst, ◌≢◌, All, Bool-cases, inl, inr,
}
use peryan.Token.{Entry, punctuators_and_keywords}

unfoldable pub all : (Entry → Bool) → List Entry → Bool
all p [] = true
all p (e ∷ es) = p e && all p es

pub all_sound : (p : Entry → Bool) (es : List Entry) → all p es ≡ true → All (λ e. p e ≡ true) es
unfolding all
all_sound p [] h = tt
all_sound p (e ∷ es) h = (ground arith, all_sound p es (ground arith))

pub all-Mem :
    (p : Entry → Bool) (es : List Entry) {f : Entry} → all p es ≡ true → Mem f es → p f ≡ true
unfolding all
all-Mem p [] h m = absurd (not-mem-nil m)
all-Mem p (e ∷ es) {f} h m =
    Or.elim (hlevel) (mem-cons.0 m) (λ (same : f ≡ e). rw same (ground arith))
      (all-Mem p es (ground arith))

-- No entry is less than one behind it.
is_descending : List Entry → Bool
is_descending [] = true
is_descending (e ∷ es) = all (λ f. not (string_lt e.spelling f.spelling)) es && is_descending es

keywords-is_descending : is_descending keywords ≡ true
unfolding is_descending all keywords
keywords-is_descending = refl

-- A spelling is not empty, and does not begin with the end mark.
has_start : Entry → Bool
has_start e = not (get_or e.spelling 0 0 == 0)

keywords-has_start : all has_start keywords ≡ true
unfolding all has_start keywords
keywords-has_start = refl

-- Of two spellings that stand in front of the lexer, the shorter is the less.
lt_of_matches :
    (i : ℕ) (s t : List ℕ) (l : Lexer)
    → matches_from i s l ≡ true
    → matches_from i t l ≡ true
    → length s < length t
    → string_lt s t ≡ true
unfolding matches_from string_lt
lt_of_matches i [] [] l hs ht lt = absurd (omega arith)
lt_of_matches i [] (y ∷ ys) l hs ht lt = refl
lt_of_matches i (x ∷ xs) [] l hs ht lt = absurd (omega arith)
lt_of_matches i (x ∷ xs) (y ∷ ys) l hs ht lt = ground (arith, lt_of_matches (i + 1) xs ys l)

-- What holds of every entry holds of the one that is found, which matches.
pub find_keyword-All :
    (P : Entry → Type 0) (es : List Entry) (l : Lexer) {e : Entry}
    → All P es
    → find_keyword es l ≡ some e
    → P e × (matches_from 0 e.spelling l ≡ true)
unfolding find_keyword
find_keyword-All P [] l a h = cc
find_keyword-All P (x ∷ xs) l {e} a h = elim (Bool-cases (matches_from 0 x.spelling l)) [
  | inl m ↦
      let found : x ≡ e = ground arith in
      subst (λ e. P e × (matches_from 0 e.spelling l ≡ true)) found (a.0, m)
  | inr m ↦ find_keyword-All P xs l a.1 (rw m at h)
]

-- The first match of a descending list is as long as any other.
find_keyword_longest :
    (es : List Entry) (l : Lexer) {e f : Entry}
    → is_descending es ≡ true
    → find_keyword es l ≡ some e
    → Mem f es
    → matches_from 0 f.spelling l ≡ true
    → length f.spelling ≤ length e.spelling
unfolding find_keyword is_descending
find_keyword_longest [] l d h m mf = absurd (not-mem-nil m)
find_keyword_longest (x ∷ xs) l {e} {f} d h m mf = elim (Bool-cases (matches_from 0 x.spelling l)) [
  | inl mx ↦
      let found : x ≡ e = ground arith in
      rw (← found) (
        Or.elim le_prop (mem-cons.0 m) (λ (same : f ≡ x). rw same (omega arith))
          λ later.
            not_longer mx
              (all-Mem (λ g. not (string_lt x.spelling g.spelling)) xs (ground arith) later))
  | inr mx ↦
      Or.elim le_prop (mem-cons.0 m) (λ (same : f ≡ x). cc)
        λ later. find_keyword_longest xs l (ground arith) (rw mx at h) later mf
]
  where
    not_longer :
        matches_from 0 x.spelling l ≡ true
        → not (string_lt x.spelling f.spelling) ≡ true
        → length f.spelling ≤ length x.spelling
    not_longer mx d = ground (arith, lt_of_matches 0 x.spelling f.spelling l mx mf)

insert_entry-perm : (e : Entry) (es : List Entry) → Perm (insert_entry e es) (e ∷ es)
unfolding insert_entry
insert_entry-perm e [] = Perm.refl (e ∷ [])
insert_entry-perm e (x ∷ xs) = elim (Bool-cases (string_lt e.spelling x.spelling)) [
  | inl b ↦ rw b (Perm.trans (Perm.cons x (insert_entry-perm e xs)) (Perm.swap e x xs))
  | inr b ↦ rw b (Perm.refl (e ∷ x ∷ xs))
]

sort_entries-perm : (es : List Entry) → Perm (sort_entries es) es
unfolding sort_entries
sort_entries-perm [] = Perm.refl []
sort_entries-perm (x ∷ xs) =
    Perm.trans (insert_entry-perm x (sort_entries xs)) (Perm.cons x (sort_entries-perm xs))

pub keywords-perm : Perm keywords punctuators_and_keywords
unfolding keywords
keywords-perm = sort_entries-perm punctuators_and_keywords

-- The keyword or punctuator that is found is at least as long as every registered one that matches
-- at the same place.
pub find_keyword_maximal :
    (l : Lexer) {e f : Entry}
    → find_keyword keywords l ≡ some e
    → Mem f punctuators_and_keywords
    → matches_from 0 f.spelling l ≡ true
    → length f.spelling ≤ length e.spelling
find_keyword_maximal l h m =
    find_keyword_longest keywords l keywords-is_descending h ((Perm.mem_iff keywords-perm).1 m)

matches_from-cons :
    (s : List ℕ) (l : Lexer)
    → not (get_or s 0 0 == 0) ≡ true
    → matches_from 0 s l ≡ true
    → (0 < length s) × (lookahead l 0 ≢ 0)
unfolding matches_from
matches_from-cons [] l h m = ground arith
matches_from-cons (c ∷ cs) l h m = (omega arith, ground arith)

-- A keyword that is found is not empty, and the lexer is not at the end.
pub find_keyword_start :
    (l : Lexer) {e : Entry}
    → find_keyword keywords l ≡ some e
    → (0 < length e.spelling) × (lookahead l 0 ≢ 0)
find_keyword_start l h =
    let (start, m) =
      find_keyword-All (λ e. has_start e ≡ true) keywords l
        (all_sound has_start keywords keywords-has_start) h in
    matches_from-cons _ l (unfold has_start in start) m
