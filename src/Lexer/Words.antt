-- ===== src/Lexer/Words.antt =====
-- How `getNextToken` tells identifiers from keywords.
use mathlib.Core.List.{Mem, mem-cons}
use mathlib.Core.List.Perm
use mathlib.Core.Logic.Or
use native.Mathlib.Nat.{add-zero}
use peryan.Lexer.Cursor.{
  Lexer, IsCoherent, consume-IsCoherent, consume_next, consume_zero, rest, rest-cases, rest-consume,
  consume-consume, lookahead-consume, Result, ok, lookahead, consume,
}
use peryan.Lexer.Keyword.Longest.{
  all, all_sound, find_keyword-All, find_keyword_start, keywords-perm,
}
use peryan.Lexer.Keyword.{keywords, matches_from, find_keyword}
use peryan.Lexer.Literal.{
  within, is_digit, is_identifier_char, read_identifier_length, identifier_length_loop,
  read_identifier_loop, read_identifier,
}
use peryan.Lexer.Progress.Follows.{left, left-consume, lt_of_lookahead}
use peryan.Lexer.Scan.{scan_keyword, scan_identifier, scan_other, scan, token}
use peryan.Prelude.{
  ℕ, zero, suc, ◌+◌, ◌≤◌, ◌<◌, Bool, true, false, not, ◌&&◌, ◌||◌, List, [], ◌∷◌, ◌++◌,
  append_assoc, append-nil, none, some, ◌≡◌, ◌≢◌, inl, inr, refl, sym, ◌∙◌, ap, arith, ltb, ◌==◌,
  if◌then◌else◌, length, get_or, take_while, Bool-cases, Option-cases, length-append, length-drop,
  drop_all, lt→ltb,
}
use peryan.Token.{Token, TokenType, text, Entry, punctuators_and_keywords}

identifier_char-ne-end : (d : ℕ) → is_identifier_char d ≡ true → d ≢ 0
unfolding is_identifier_char
identifier_char-ne-end d h = ground arith

end_not_identifier : is_identifier_char 0 ≡ false
unfolding is_identifier_char
end_not_identifier = refl

unfoldable all_chars : (ℕ → Bool) → List ℕ → Bool
all_chars p [] = true
all_chars p (x ∷ xs) = p x && all_chars p xs

-- The longest run of identifier characters in front of the lexer.
abbrev pub word : Lexer → List ℕ
word l = take_while is_identifier_char (rest l)

nothing_read :
    (l : Lexer) (str : List ℕ)
    → IsCoherent l
    → ◌≡◌ {A = List ℕ × Lexer} (str, l) (str ++ [], consume 0 l)
nothing_read l str c = rw (append-nil, consume_zero l c)

read_identifier_loop-word :
    (f : ℕ) (l : Lexer) (str : List ℕ)
    → IsCoherent l
    → left l < suc f
    → read_identifier_loop f l str ≡ (str ++ word l, consume (length (word l)) l)
unfolding read_identifier_loop
read_identifier_loop-word zero l str c h =
    rw (drop_all l.p l.source (omega arith)) (nothing_read l str c)
read_identifier_loop-word (suc f) l str c h = elim (rest-cases l) [
  | inl (empty, at_end) ↦ rw (at_end, empty, end_not_identifier) (nothing_read l str c)
  | inr (d, ds, has, first, then_left) ↦ elim (Bool-cases (is_identifier_char d)) [
    | inl more ↦
        let inside = lt_of_lookahead l λ z. identifier_char-ne-end d more (sym first ∙ z) in
        let ih =
          read_identifier_loop-word f (consume 1 l) (str ++ (d ∷ [])) (consume-IsCoherent 1 l)
            (left-consume 1 (suc f) l (omega arith) inside h) in
        rw (first, more, has, more, ih, then_left, append_assoc, consume_next)
    | inr done ↦ rw (first, done, has, done) (nothing_read l str c)
  ]
]

read_identifier-word :
    (l : Lexer) → IsCoherent l → read_identifier l ≡ (word l, consume (length (word l)) l)
unfolding read_identifier
read_identifier-word l c = read_identifier_loop-word (length l.source) l [] c (omega arith)

lookahead_there : (i : ℕ) (l : Lexer) → lookahead (consume i l) 0 ≡ lookahead l i
lookahead_there i l = lookahead-consume l 0 i ∙ ap (λ k. lookahead l k) (add-zero i)

-- The word grows by the character in front of it.
word-cons :
    (i : ℕ) (l : Lexer)
    → is_identifier_char (lookahead l i) ≡ true
    → word (consume i l) ≡ lookahead l i ∷ word (consume (i + 1) l)
word-cons i l h = elim (rest-cases (consume i l)) [
  | inl (empty, at_end) ↦
      absurd (identifier_char-ne-end (lookahead l i) h (sym (lookahead_there i l) ∙ at_end))
  | inr (d, ds, has, first, then_left) ↦
      let here : lookahead l i ≡ d = sym (lookahead_there i l) ∙ first in
      rw (has, rw here at h, here, ← consume-consume 1 i l, then_left)
]

word-nil :
    (i : ℕ) (l : Lexer) → is_identifier_char (lookahead l i) ≡ false → word (consume i l) ≡ []
word-nil i l h = elim (rest-cases (consume i l)) [
  | inl (empty, at_end) ↦ rw empty
  | inr (d, ds, has, first, then_left) ↦
      let here : lookahead l i ≡ d = sym (lookahead_there i l) ∙ first in rw (has, rw here at h)
]

identifier_length_loop-word :
    (f i : ℕ) (l : Lexer)
    → length (rest l) ≤ i + f
    → identifier_length_loop f l i ≡ i + length (word (consume i l))
unfolding identifier_length_loop
identifier_length_loop-word zero i l h =
    rw (rest-consume i l, drop_all i (rest l) (omega arith)) (omega arith)
identifier_length_loop-word (suc f) i l h = elim (Bool-cases (is_identifier_char (lookahead l i))) [
  | inl more ↦
      rw (more, word-cons i l more, identifier_length_loop-word f (i + 1) l (omega arith))
        (omega arith)
  | inr done ↦ rw (done, word-nil i l done) (omega arith)
]

read_identifier_length-word :
    (l : Lexer)
    → IsCoherent l
    → is_digit (lookahead l 0) ≡ false
    → read_identifier_length l ≡ length (word l)
unfolding read_identifier_length
read_identifier_length-word l c h =
    rw
      (
        h,
        identifier_length_loop-word (length l.source) 0 l (omega (arith, length-drop l.p l.source)),
        consume_zero l c,
      )
      (omega arith)

-- A keyword that starts like an identifier consists of identifier characters.
unfoldable is_word_or_sign : Entry → Bool
is_word_or_sign e =
    not (is_identifier_char (get_or e.spelling 0 0)) || all_chars is_identifier_char e.spelling

keywords-is_word_or_sign : all is_word_or_sign keywords ≡ true
unfolding all is_word_or_sign all_chars is_identifier_char keywords
keywords-is_word_or_sign = refl

-- A spelling of identifier characters that matches is a prefix of the word.
matches-word :
    (i : ℕ) (s : List ℕ) (l : Lexer)
    → matches_from i s l ≡ true
    → all_chars is_identifier_char s ≡ true
    → word (consume i l) ≡ s ++ word (consume (i + length s) l)
unfolding matches_from all_chars
matches-word i [] l m a = ap (λ k. word (consume k l)) (sym (add-zero i))
matches-word i (x ∷ xs) l m a =
    let here : lookahead l i ≡ x = ground arith in
    word-cons i l (rw here (ground arith))
    ∙ rw (here, matches-word (i + 1) xs l (ground arith) (ground arith))
        (ap (λ k. x ∷ (xs ++ word (consume k l))) (omega arith))

find_keyword-Mem : (es : List Entry) (l : Lexer) {e : Entry} → find_keyword es l ≡ some e → Mem e es
unfolding find_keyword
find_keyword-Mem [] l h = cc
find_keyword-Mem (x ∷ xs) l {e} h = elim (Bool-cases (matches_from 0 x.spelling l)) [
  | inl m ↦ let found : x ≡ e = ground arith in rw found (mem-cons.1 (Or.inl refl))
  | inr m ↦ mem-cons.1 (Or.inr (find_keyword-Mem xs l (rw m at h)))
]

matches-first :
    (s : List ℕ) (l : Lexer)
    → 0 < length s
    → matches_from 0 s l ≡ true
    → get_or s 0 0 ≡ lookahead l 0
unfolding matches_from
matches-first [] l h m = absurd (omega arith)
matches-first (x ∷ xs) l h m = ground arith

append_too_long : (w s t : List ℕ) → w ≡ s ++ t → length w ≤ length s → s ≡ w
append_too_long w s [] e h = sym (append-nil s) ∙ sym e
append_too_long w s (x ∷ t) e h = absurd (omega (arith, ap length e, length-append s (x ∷ t)))

module _ (l : Lexer) (c : IsCoherent l) (starts : is_identifier_char (lookahead l 0) ≡ true) where
  -- What is found and is not shorter than the word is the word.
  found-word :
      {e : Entry}
      → find_keyword keywords l ≡ some e
      → length (word l) ≤ length e.spelling
      → e.spelling ≡ word l
  found-word {e} found long =
      let sound = all_sound is_word_or_sign keywords keywords-is_word_or_sign in
      let (kind, m) = find_keyword-All (λ e. is_word_or_sign e ≡ true) keywords l sound found in
      let first = matches-first e.spelling l (find_keyword_start l found).0 m in
      let chars : all_chars is_identifier_char e.spelling ≡ true =
        unfold is_word_or_sign in ground (arith, kind, first, starts) in
      let prefix = matches-word 0 e.spelling l m chars in
      append_too_long (word l) e.spelling (word (consume (0 + length e.spelling) l))
        (rw (consume_zero l c) at prefix) long

  word_pos : 0 < length (word l)
  word_pos = rw (sym (ap word (consume_zero l c)), word-cons 0 l starts) (omega arith)

  abbrev word_token : Token
  word_token =
      token (if within b'A' b'Z' (get_or (word l) 0 0) then TokenType.type_id else TokenType.id)
        (text (word l)) l.p

  scan_identifier-word : scan_identifier l ≡ (word_token, consume (length (word l)) l)
  unfolding scan_identifier
  scan_identifier-word = rw (read_identifier-word l c)

  scan_other-word :
      (again : Lexer → Result (Token × Lexer))
      → scan_other again (length (word l)) l ≡ ok (word_token, consume (length (word l)) l)
  unfolding scan_other
  scan_other-word again = rw (lt→ltb 0 (length (word l)) word_pos) (ap ok scan_identifier-word)

  no_here_document : (lookahead l 0 == b'{' && lookahead l 1 == b'"') ≡ false
  no_here_document = unfold is_identifier_char in ground (arith, starts)

  no_keyword_token :
      ((e : Entry) → Mem e punctuators_and_keywords → e.spelling ≢ word l)
      → scan_keyword (length (word l)) l (find_keyword keywords l) ≡ none
  unfolding scan_keyword
  no_keyword_token no_keyword = elim (Option-cases (find_keyword keywords l)) [
    | inl nothing ↦ rw nothing
    | inr (e, found) ↦ elim (Bool-cases (ltb (length e.spelling) (length (word l)))) [
      | inl shorter ↦ rw (found, shorter)
      | inr long ↦
          let member = (Perm.mem_iff keywords-perm).0 (find_keyword-Mem keywords l found) in
          absurd (no_keyword e member (found-word found (ground arith)))
    ]
  ]

  -- A run of identifier characters that does not begin with a digit is one token: an identifier with
  -- the whole run for its name, unless the run is the spelling of a keyword.
  pub scan-identifier :
      (again : Lexer → Result (Token × Lexer))
      → is_digit (lookahead l 0) ≡ false
      → ((e : Entry) → Mem e punctuators_and_keywords → e.spelling ≢ word l)
      → scan again l
        ≡ ok (
          token
              (if within b'A' b'Z' (get_or (word l) 0 0) then TokenType.type_id else TokenType.id)
              (text (word l))
              l.p,
          consume (length (word l)) l,
        )
  unfolding scan
  scan-identifier again no_digit no_keyword =
      rw (no_here_document, read_identifier_length-word l c no_digit, no_keyword_token no_keyword)
        (scan_other-word again)
