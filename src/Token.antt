-- ===== src/Token.antt =====
-- The tokens: src/Tokens.def, src/Token.h.
-- `TokenType` has one constructor for each entry of Tokens.def, in its order.
use peryan.Prelude.{ℕ, Bool, List, [], ◌∷◌, codes, ◌==◌}

pub data TokenType : Type 0 where
  unknown id type_id integer float string char term end dot comma cln clncln lbrace : TokenType
  rbrace lbrack rbrack lparen rparen eql eqeq excl excleq lt lteq gt gteq rarrow : TokenType
  plusplus minusminus pluseq minuseq stareq slasheq plus minus star slash perc amp : TokenType
  pipe caret ltlt gtgt kw_true kw_false kw_func kw_namespace kw_public kw_private : TokenType
  kw_var kw_const kw_ref kw_this kw_if kw_else kw_repeat kw_loop kw_while kw_wend : TokenType
  kw_do kw_until kw_for kw_next kw_switch kw_continue kw_break kw_swbreak kw_goto : TokenType
  kw_gosub kw_return kw_extern kw_partial dr_runtime : TokenType

-- What `readFloatLiteral` returns is `integer + (double) fractional / frac_length`; there are no
-- floats here, so the three numbers of that expression are kept.
pub record FloatValue : Type 0 where
  pub integer : ℕ
  pub fractional : ℕ
  pub frac_length : ℕ

-- The text, the union and the flags of a token: a constructor for each way to construct one.
pub data TokenData : Type 0 where
  plain : TokenData
  text : List ℕ → TokenData
  float_value : FloatValue → TokenData
  int_value : ℕ → TokenData
  char_value : ℕ → TokenData
  has_trailing_alphabet : Bool → TokenData
  has_ws_before : Bool → TokenData

pub record Token : Type 0 where
  pub type : TokenType
  pub payload : TokenData
  pub position : ℕ

-- `getString`. It asserts that the token is a string or a name; it is called on names, and the text of
-- other tokens, which only the code behind a failed assertion would read, is empty here.
abbrev pub text_of : TokenData → List ℕ
text_of (text t) = t
text_of d = []

pub record Entry : Type 0 where
  pub spelling : List ℕ
  pub type : TokenType

abbrev entry : TokenType → List ℕ → Entry
entry t s = record { spelling = s; type = t }

-- The PUNCTUATOR and KEYWORD entries of Tokens.def, in its order: the ones that
-- `Lexer::initializeKeywords` registers. DIRECTIVE entries expand to nothing there, since
-- Tokens.def gives DIRECTIVE its default expansion and an empty TOKEN.
abbrev pub punctuators_and_keywords : List Entry
punctuators_and_keywords =
    entry dot (codes ".")
    ∷ entry comma (codes ",")
    ∷ entry cln (codes ":")
    ∷ entry clncln (codes "::")
    ∷ entry lbrace (codes "{")
    ∷ entry rbrace (codes "}")
    ∷ entry lbrack (codes "[")
    ∷ entry rbrack (codes "]")
    ∷ entry lparen (codes "(")
    ∷ entry rparen (codes ")")
    ∷ entry eql (codes "=")
    ∷ entry eqeq (codes "==")
    ∷ entry excl (codes "!")
    ∷ entry excleq (codes "!=")
    ∷ entry lt (codes "<")
    ∷ entry lteq (codes "<=")
    ∷ entry gt (codes ">")
    ∷ entry gteq (codes ">=")
    ∷ entry rarrow (codes "->")
    ∷ entry plusplus (codes "++")
    ∷ entry minusminus (codes "--")
    ∷ entry pluseq (codes "+=")
    ∷ entry minuseq (codes "-=")
    ∷ entry stareq (codes "*=")
    ∷ entry slasheq (codes "/=")
    ∷ entry plus (codes "+")
    ∷ entry minus (codes "-")
    ∷ entry star (codes "*")
    ∷ entry slash (codes "/")
    ∷ entry perc (codes "%")
    ∷ entry amp (codes "&")
    ∷ entry pipe (codes "|")
    ∷ entry caret (codes "^")
    ∷ entry ltlt (codes "<<")
    ∷ entry gtgt (codes ">>")
    ∷ entry kw_true (codes "true")
    ∷ entry kw_false (codes "false")
    ∷ entry kw_func (codes "func")
    ∷ entry kw_namespace (codes "namespace")
    ∷ entry kw_public (codes "public")
    ∷ entry kw_private (codes "private")
    ∷ entry kw_var (codes "var")
    ∷ entry kw_const (codes "const")
    ∷ entry kw_ref (codes "ref")
    ∷ entry kw_this (codes "this")
    ∷ entry kw_if (codes "if")
    ∷ entry kw_else (codes "else")
    ∷ entry kw_repeat (codes "repeat")
    ∷ entry kw_loop (codes "loop")
    ∷ entry kw_while (codes "while")
    ∷ entry kw_wend (codes "wend")
    ∷ entry kw_do (codes "do")
    ∷ entry kw_until (codes "until")
    ∷ entry kw_for (codes "for")
    ∷ entry kw_next (codes "next")
    ∷ entry kw_switch (codes "switch")
    ∷ entry kw_continue (codes "continue")
    ∷ entry kw_break (codes "break")
    ∷ entry kw_swbreak (codes "swbreak")
    ∷ entry kw_goto (codes "goto")
    ∷ entry kw_gosub (codes "gosub")
    ∷ entry kw_return (codes "return")
    ∷ entry kw_extern (codes "extern")
    ∷ entry kw_partial (codes "partial")
    ∷ []

-- The number of a token type in the enumeration.
abbrev pub number : TokenType → ℕ
number unknown = 0
number id = 1
number type_id = 2
number integer = 3
number float = 4
number string = 5
number char = 6
number term = 7
number end = 8
number dot = 9
number comma = 10
number cln = 11
number clncln = 12
number lbrace = 13
number rbrace = 14
number lbrack = 15
number rbrack = 16
number lparen = 17
number rparen = 18
number eql = 19
number eqeq = 20
number excl = 21
number excleq = 22
number lt = 23
number lteq = 24
number gt = 25
number gteq = 26
number rarrow = 27
number plusplus = 28
number minusminus = 29
number pluseq = 30
number minuseq = 31
number stareq = 32
number slasheq = 33
number plus = 34
number minus = 35
number star = 36
number slash = 37
number perc = 38
number amp = 39
number pipe = 40
number caret = 41
number ltlt = 42
number gtgt = 43
number kw_true = 44
number kw_false = 45
number kw_func = 46
number kw_namespace = 47
number kw_public = 48
number kw_private = 49
number kw_var = 50
number kw_const = 51
number kw_ref = 52
number kw_this = 53
number kw_if = 54
number kw_else = 55
number kw_repeat = 56
number kw_loop = 57
number kw_while = 58
number kw_wend = 59
number kw_do = 60
number kw_until = 61
number kw_for = 62
number kw_next = 63
number kw_switch = 64
number kw_continue = 65
number kw_break = 66
number kw_swbreak = 67
number kw_goto = 68
number kw_gosub = 69
number kw_return = 70
number kw_extern = 71
number kw_partial = 72
number dr_runtime = 73

-- `a == b`, on token types.
abbrev pub is_type : TokenType → TokenType → Bool
is_type a b = number a == number b
