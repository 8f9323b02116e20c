-- ===== src/Tests/Declaring.antt =====
-- The names of a small program that is parsed and registered.
use peryan.Ast
use peryan.Ast.{Identifier, named, no_exprs}
use peryan.FrontEnd.Declarations.{an_extern, here}
use peryan.FrontEnd.Names.{parsed_names-IsDeclared}
use peryan.FrontEnd.{parse_and_register, seen, seen_stmts, visit_parsed, visited}
use peryan.Parser.Blocks.{skip_terms}
use peryan.Parser.Specs.{
  is_member, members, modifiers, parse_identifier, parse_type_spec, parse_type_spec_loop, spec_head,
  type_spec_round,
}
use peryan.Parser.Statements.{at_terminator, end_statement, may_end, parse_extern_stmt}
use peryan.Parser.Stream.{
  Stream, Parsed, ◌>>=◌, ◌>>◌, assert_on, consume, either, lt, on, other_than, pure, require, skip,
  token_at, when, while_do, while_loop,
}
use peryan.Parser.Units.{
  is_func_def, parse_outer, parse_stmt, parse_trans_unit, units_loop, units_round,
}
use peryan.Prelude.{false, List, [], ◌∷◌, none, ◌≡◌, refl, codes}
use peryan.Scopes.{define, extern_symbol}
use peryan.SymbolRegister.Declared.{IsDeclared}
use peryan.SymbolRegister.{
  Outcome, State, declare, define_or_throw, is_disallowed_identifier, pop, register, register_stmts,
  register_unit, with_top,
}
use peryan.SymbolRegister
use peryan.Token.{Token, TokenType, plain, text}

-- extern f :: Int
abbrev f_name : Token
f_name = record { type = TokenType.id; payload = text (codes "f"); position = 7 }

abbrev int_name : Token
int_name = record { type = TokenType.type_id; payload = text (codes "Int"); position = 12 }

abbrev extern_token : Token
extern_token = record { type = TokenType.kw_extern; payload = plain; position = 0 }

abbrev source : Stream
source = record {
  rest =
      extern_token
      ∷ f_name
      ∷ record { type = TokenType.clncln; payload = plain; position = 9 }
      ∷ int_name
      ∷ record { type = TokenType.term; payload = plain; position = 15 }
      ∷ [];
  end_pos = 16;
  runtime = none;
}

abbrev program : List Ast.Stmt
program =
    Ast.extern_stmt extern_token (record { token = f_name; type_spec = named int_name false false })
      no_exprs
    ∷ []

source_parsed : parse_trans_unit source ≡ Parsed.ok program (record source { rest = [] })
unfolding parse_trans_unit units_loop units_round parse_stmt parse_outer is_func_def skip_terms
    parse_extern_stmt parse_identifier parse_type_spec parse_type_spec_loop type_spec_round
    modifiers spec_head members is_member may_end end_statement ◌>>=◌ ◌>>◌ pure lt consume token_at
    on either other_than when assert_on require while_do while_loop at_terminator skip
source_parsed = refl

abbrev stored : Outcome → State
stored (SymbolRegister.ok st) = st
stored o = record { stack = []; store = []; notes = []; warnings = [] }

abbrev registered : State
registered = stored (register_unit false (seen_stmts (Ast.stmts program)))

source_registered : parse_and_register false source ≡ visited (SymbolRegister.ok registered)
unfolding parse_and_register visit_parsed seen_stmts seen register_unit register_stmts register
    declare define_or_throw define with_top pop is_disallowed_identifier
source_registered = rw source_parsed refl

parsed_names-IsDeclared_example : IsDeclared registered.store 0 extern_symbol (codes "f") 7
parsed_names-IsDeclared_example =
    parsed_names-IsDeclared false source (record source { rest = [] }) program registered
      extern_symbol (codes "f") 7 source_parsed source_registered (here an_extern)
