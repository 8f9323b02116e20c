-- ===== src/Lexer/Strings.antt =====
-- String and character literals, and here documents, are read back as they were meant.
use peryan.Lexer.Cursor.{
  Lexer, IsCoherent, consume-IsCoherent, consume-consume, consume_zero, rest, rest-consume,
  lookahead-rest, ok, consume,
}
use peryan.Lexer.Floats.{drop-append}
use peryan.Lexer.Literal.{escape, read_string_loop, read_char_or_string_literal}
use peryan.Lexer.Progress.Follows.{left, left-consume}
use peryan.Prelude.{
  ℕ, zero, suc, ◌+◌, ◌<◌, ◌||◌, List, [], ◌∷◌, ◌++◌, append_assoc, append-nil, ◌≡◌, ◌⊎◌, ◌∙◌, ap,
  arith, ◌==◌, if◌then◌else◌, length, drop, length-append, length-drop,
}

-- How a character is written inside a literal with the given terminator.
unfoldable pub written : ℕ → ℕ → List ℕ
written terminator c =
    if c == 10
    then b'\\' ∷ b'n' ∷ []
    else if c == 13
    then b'\\' ∷ b'r' ∷ []
    else if c == 0 || c == b'\\' || c == terminator
    then b'\\' ∷ c ∷ []
    else c ∷ []

unfoldable pub written_text : ℕ → List ℕ → List ℕ
unfolding written
written_text terminator [] = []
written_text terminator (c ∷ cs) = written terminator c ++ written_text terminator cs

abbrev IsQuote : ℕ → Type 0
IsQuote t = (t ≡ b'"') ⊎ (t ≡ b'\'')

-- One round of the loop reads one written character.
round :
    (f t beg_pos c : ℕ) (l : Lexer) (str more : List ℕ)
    → IsQuote t
    → rest l ≡ written t c ++ more
    → read_string_loop (suc f) t beg_pos l str
      ≡ read_string_loop f t beg_pos (consume (length (written t c)) l) (str ++ (c ∷ []))
unfolding read_string_loop written escape
round f t beg_pos c l str more q has = ground (arith, lookahead-rest l 0, lookahead-rest l 1)

round_stop :
    (f t beg_pos : ℕ) (l : Lexer) (str after : List ℕ)
    → rest l ≡ t ∷ after
    → read_string_loop (suc f) t beg_pos l str ≡ ok (str, l)
unfolding read_string_loop
round_stop f t beg_pos l str after has = ground (arith, lookahead-rest l 0)

written_pos : (t c : ℕ) → 0 < length (written t c)
unfolding written
written_pos t c = ground arith

inside_of_rest :
    (l : Lexer) (xs ys : List ℕ) → rest l ≡ xs ++ ys → 0 < length xs → l.p < length l.source
inside_of_rest l xs ys has pos =
    omega (arith, ap length has, length-append xs ys, length-drop l.p l.source)

read_string_loop-written_text :
    (f t beg_pos : ℕ) (cs after : List ℕ) (l : Lexer) (str : List ℕ)
    → IsQuote t
    → IsCoherent l
    → rest l ≡ written_text t cs ++ (t ∷ after)
    → left l < f
    → read_string_loop f t beg_pos l str ≡ ok (str ++ cs, consume (length (written_text t cs)) l)
unfolding written_text
read_string_loop-written_text zero t beg_pos cs after l str q c has h = absurd (omega arith)
read_string_loop-written_text (suc f) t beg_pos [] after l str q c has h =
    round_stop f t beg_pos l str after has ∙ rw (append-nil, consume_zero l c)
read_string_loop-written_text (suc f) t beg_pos (d ∷ ds) after l str q c has h =
    let n = length (written t d) in
    let has' = has ∙ append_assoc (written t d) (written_text t ds) (t ∷ after) in
    let inside =
      inside_of_rest l (written t d) (written_text t ds ++ (t ∷ after)) has' (written_pos t d) in
    round f t beg_pos d l str (written_text t ds ++ (t ∷ after)) q has'
    ∙ read_string_loop-written_text f t beg_pos ds after (consume n l) (str ++ (d ∷ [])) q
        (consume-IsCoherent n l)
        (rest-consume n l ∙ rw (has', drop-append (written t d) (written_text t ds ++ (t ∷ after))))
        (left-consume n f l (written_pos t d) inside h)
    ∙ rw (consume-consume, append_assoc, length-append (written t d) (written_text t ds))

-- `readCharOrStringLiteral` reads back every text: between two quotes, with the newlines, the
-- backslashes, the end marks and the quotes of the text behind a backslash, it returns the text, and
-- leaves the lexer behind the second quote.
pub read_char_or_string_literal-written_text :
    (t : ℕ) (cs after : List ℕ) (l : Lexer)
    → (t ≡ b'"') ⊎ (t ≡ b'\'')
    → IsCoherent l
    → rest l ≡ t ∷ (written_text t cs ++ (t ∷ after))
    → read_char_or_string_literal t l ≡ ok (cs, consume (length (written_text t cs) + 2) l)
unfolding read_char_or_string_literal
read_char_or_string_literal-written_text t cs after l q c has =
    let inside = inside_of_rest l (t ∷ []) (written_text t cs ++ (t ∷ after)) has (omega arith) in
    let run =
      read_string_loop-written_text (suc (length l.source)) t l.p cs after (consume 1 l) [] q
        (consume-IsCoherent 1 l) (rest-consume 1 l ∙ ap (drop 1) has)
        (left-consume 1 (suc (length l.source)) l (omega arith) inside (omega arith)) in
    rw (run, consume-consume, consume-consume) (ap (λ k. ok (cs, consume k l)) (omega arith))
