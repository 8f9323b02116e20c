-- ===== src/Lib.antt =====
-- Verification of the front end of the Peryan compiler.
--
-- Peryan compiles a small typed language with a compatibility mode for HSP. The lexer turns a source
-- into tokens; the parser builds a tree from them; SymbolRegister enters the declared names into nested
-- scopes; SymbolResolver connects names and type specifications with symbols and types; TypeResolver
-- infers the types and inserts conversions; the code generator hands the tree to LLVM.
--
-- Prelude: the library names that all files share, the Boolean tests, and lemmas on lists.
--
-- Token models src/Token.h and src/Tokens.def: a token type for each entry, and the spellings that
-- `Lexer::initializeKeywords` registers.
--
-- Lexer models `Lexer::getNextToken` of src/Lexer.cc and all that it calls while scanning. The state
-- is `source_`, `p_` and `isPrevWS_`, a record that is passed on. A thrown `LexerError` is an outcome
-- with its position and message. Lexer.Cursor has `lookahead` and `consume`, Lexer.Literal the readers
-- of identifiers and literals, Lexer.Keyword the sorted keywords and the search in them, Lexer.Scan
-- `getNextToken` itself; the other children are proofs: Lexer.Numbers.Hex about the hexadecimal digits,
-- Lexer.Directives about the directives. Loops run on fuel, and get the size of the
-- source (plus one): every round moves the position forwards. Characters are numbers, as `char` is
-- compared with ASCII characters only. A position is an unbounded number, where `p_` is an `unsigned
-- int`: a source of 4 GB is out of scope. An `int` that overflows is the outcome `overflow`, since C++
-- leaves it undefined. A float is kept as the three numbers of the expression that computes it. The
-- reading of files, `readSources`, is not modelled: `source_` is given.
--
-- Types models `Type` and its subclasses of src/SymbolTable.h. A pointer is a value with `null`; the
-- result of a call through a null pointer is `none`. Types are trees here: `ArrayType` and the like
-- are compared by structure in the source too, and built-in types and namespaces by their identity.
--
-- TokenBuffer models how `Parser` of src/Parser.h and src/Parser.cc reads tokens: `lt`, `la`, `mark`,
-- `release`, `consume`. `lt` runs on fuel, two more than the index that is asked for: a round reads one
-- token. TokenBuffer.Speculation is about a parser that looks ahead under a mark.
--
-- Ast models the tree of src/AST.h as the parser builds it: a pointer is the node, or a constructor that
-- stands for a null pointer, and the fields that the later passes fill in stand with those passes.
--
-- Parser models `Parser::parseTransUnit` of src/Parser.cc and every function that it calls. Its state
-- is the tokens that are left, so the buffer of TokenBuffer is seen from outside: `lt` looks at a token,
-- `consume` takes some, and the `END` stays; TokenBuffer.View relates the two, and
-- TokenBuffer.Start is about the buffer of a new parser. A thrown `ParserError` is
-- an outcome with its position and message, and so is a failed assertion. Parser.Stream has the state
-- and the loops and branches that the functions are made of, Parser.Specs the type specifications,
-- Parser.Expressions and Parser.Operators the expressions, Parser.Statements, Parser.Blocks and
-- Parser.Units the statements. A function that is called again behind a token is passed as an argument;
-- Parser.Units ties the knot with a level of fuel for each token. A loop has two rounds of fuel more
-- than there are tokens, since a round takes a token, but for the first over arguments that may be left
-- out. Parser.Progress and its children are about this fuel: rules for functions that end and take
-- tokens, and their use for each function. The tokens are given: an error of the lexer that is thrown
-- while the parser reads on is not modelled, and `options_.runtime` is kept as the token that it is set
-- from. Parser.Written has type specifications as texts, and Parser.RoundTrip is about how they are
-- read, Parser.RoundTrip.Parentheses about parentheses around them, Parser.Speculation about type
-- specifications that are tried first, Parser.Sums about chains of operators, and Parser.EmptyVar about
-- a `var` without a name.
--
-- Scopes models `Symbol`, `Scope`, their subclasses and `SymbolTable` of src/SymbolTable.h. The scopes
-- stand in a list, and a pointer to a scope is its index; the maps from names are lists of symbols.
-- `resolve` runs on fuel, one more than the index of the scope: an enclosing scope is older.
-- Scopes.Resolution has the relation that says what a name means, Scopes.Meaning that it is one thing,
-- Scopes.Definition is about what `define` changes.
--
-- SymbolRegister models src/SymbolRegister.cc: the visits of the statements of src/AST.h, by recursion
-- on the tree, with the stack of scopes, the warnings and the assignments to the tree in a state that
-- is passed on. SymbolRegister.Steps has the steps on the scopes as a relation,
-- SymbolRegister.Completion is about the visits as such steps, SymbolRegister.Invariants
-- about every sequence of steps, SymbolRegister.Units what follows for a program,
-- SymbolRegister.Variables how a variable definition is accepted,
-- SymbolRegister.Declared what stays of a declaration.
--
-- SymbolResolver models src/SymbolResolver.cc: every visit, by recursion on the tree of Ast. The state is
-- that of SymbolRegister; what SymbolRegister has set in the tree (the symbols of declarations, the scopes
-- of statements) is a list of notes that the visits read by the position of a token, which is the place
-- of one token only. A thrown `SemanticsError` is an outcome with its position and message, and so are a
-- failed assertion and an access through a pointer to nothing. SymbolResolver.Specs has the type
-- specifications, SymbolResolver.Visits all else. SymbolResolver.Store is about what the pass may change
-- in the scopes, SymbolResolver.Ends and SymbolResolver.Actions have rules for visits that end,
-- SymbolResolver.Annotated says what the pass relies on in the tree, SymbolResolver.Completion uses the
-- rules for each visit, SymbolResolver.Units and SymbolResolver.Program are about whole programs.
-- SymbolResolver.Spellings has the names of built-in types and the modifiers as they are written,
-- SymbolResolver.Denotes the relation that says what a written type means, and SymbolResolver.Uses
-- the one for a name that is used. `defaults` of a function symbol and `isImplicit` of a variable are
-- not kept, and the type of a specification is the result of its visit.
--
-- FrontEnd models the first two passes of `Parser::parse` of src/Parser.cc: the tree that Parser builds
-- is handed to SymbolRegister, which sees of it what its model reads. FrontEnd.Declarations has the
-- declarations of a tree, and FrontEnd.Names is about the names that a program declares.
--
-- TypeResolver models the rules of src/TypeResolver.cc on types: TypeResolver.Subtyping `isSubtypeOf`,
-- TypeResolver.Modifiers `canConvertModifier` and `canPromote`, TypeResolver.Operators the tables of
-- the binary operators and `canPromoteBinary`, TypeResolver.Promoter `insertPromoter`, whose recursion
-- has fuel 2, since a value type has no modifiers to take off, TypeResolver.Constraints
-- `addTypeConstraint`. TypeResolver.Visits has the state of the visits, where a type variable is the
-- address of a pointer to a type; TypeResolver.Visits.Operations has the binary and unary expressions
-- and the conditions, TypeResolver.Visits.Values the assignments, literals and subscripts, and
-- TypeResolver.Visits.Constructors the constructors. An operand is the action that visits it and takes
-- what `refresh` returns; the expression that a visit leaves is a record of its parts.
-- TypeResolver.Visits.Typed and TypeResolver.Visits.Casts are about the types of the operands.
--
-- Tests has runs and instances at concrete inputs.
--
-- Not modelled: the visits of definitions, identifiers, calls, members and returns in TypeResolver and
-- its fixed point, the mangled names of symbols, the code
-- generator and the driver, which call LLVM and the operating system, the runtime library in C, the
-- tree printer, the readers of files and the printer of warnings.
pub mod Prelude
pub mod Token
pub mod Lexer
pub mod TokenBuffer
pub mod Types
pub mod Scopes
pub mod SymbolRegister
pub mod SymbolResolver
pub mod TypeResolver
pub mod Ast
pub mod Parser
pub mod FrontEnd
pub mod Tests
