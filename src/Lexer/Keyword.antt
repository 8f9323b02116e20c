-- ===== src/Lexer/Keyword.antt =====
-- `Lexer::initializeKeywords`, and the search for a keyword or punctuator in `Lexer::getNextToken`.
pub mod Longest
use peryan.Lexer.Cursor.{Lexer, lookahead}
use peryan.Prelude.{
  ℕ, ◌+◌, Bool, true, false, ◌&&◌, List, [], ◌∷◌, Option, none, some, ltb, ◌==◌, if◌then◌else◌,
}
use peryan.Token.{Entry, punctuators_and_keywords}

-- `operator<` of std::string.
unfoldable pub string_lt : List ℕ → List ℕ → Bool
string_lt [] [] = false
string_lt [] (y ∷ ys) = true
string_lt (x ∷ xs) [] = false
string_lt (x ∷ xs) (y ∷ ys) =
    let below = string_lt xs ys in if ltb x y then true else if x == y then below else false

-- `std::sort(keywords.rbegin(), keywords.rend())`: the greatest first. The entries are pairs; no two
-- spellings are the same, so the second component is never compared.
unfoldable pub insert_entry : Entry → List Entry → List Entry
insert_entry e [] = e ∷ []
insert_entry e (x ∷ xs) =
    if string_lt e.spelling x.spelling then x ∷ insert_entry e xs else e ∷ x ∷ xs

unfoldable pub sort_entries : List Entry → List Entry
unfolding insert_entry string_lt
sort_entries [] = []
sort_entries (x ∷ xs) = insert_entry x (sort_entries xs)

-- The member `keywords`, after `initializeKeywords`.
unfoldable pub keywords : List Entry
unfolding sort_entries
keywords = sort_entries punctuators_and_keywords

-- The loop that sets `match`: `lookahead(i) == keyword[i]` for each index.
unfoldable pub matches_from : ℕ → List ℕ → Lexer → Bool
matches_from i [] l = true
matches_from i (c ∷ cs) l = lookahead l i == c && matches_from (i + 1) cs l

-- The first entry that matches, in the order of `keywords`.
unfoldable pub find_keyword : List Entry → Lexer → Option Entry
unfolding matches_from
find_keyword [] l = none
find_keyword (e ∷ es) l = if matches_from 0 e.spelling l then some e else find_keyword es l
