-- ===== src/FrontEnd.antt =====
-- `Parser::parse` of src/Parser.cc: the program is parsed, and SymbolRegister visits it.
pub mod Declarations
pub mod Names
use peryan.Ast
use peryan.Ast.{TypeSpec, named, Identifier}
use peryan.Parser.Progress.{Ends, done, threw, asserted}
use peryan.Parser.Progress.Units.{parse_trans_unit-Ends}
use peryan.Parser.Stream.{Stream, Parsed}
use peryan.Parser.Units.{parse_trans_unit}
use peryan.Prelude.{ℕ, Bool, List, [], inl, inr, map}
use peryan.SymbolRegister.{
  Name, Stmt, Comp, Comps, Else, Stmts, func_def, namespace, var_def, extern, comp_stmt, label,
  if_stmt, repeat, other, comp, no_more, also, no_else, else_then, nil, cons, State, Outcome,
  register_unit,
}
use peryan.SymbolRegister
use peryan.SymbolRegister.Units.{IsRegistered, register_unit_outcome}
use peryan.Token.{Token, text_of}

abbrev pub name_of : Token → Name
name_of t = record { text = text_of t.payload; position = t.position }

abbrev pub identifier_name : Identifier → Name
identifier_name i = name_of i.token

-- The token of a specification; one that is no name is refused by the parser where a name is needed.
abbrev spec_name : TypeSpec → Name
spec_name (named t c r) = name_of t
spec_name s = record { text = []; position = 0 }

-- What SymbolRegister reads of a tree. A `CompStmt` of an `if` is null for a missing `else` only.
unfoldable mutual
  pub seen : Ast.Stmt → Stmt
  seen (Ast.comp_stmt c) = comp_stmt (seen_comp c)
  seen (Ast.func_def t n ps ds s b) =
      func_def (identifier_name n) (map identifier_name ps) (seen_comp b)
  seen (Ast.var_def t n i) = var_def (identifier_name n)
  seen (Ast.if_stmt t cs ts o) = if_stmt (seen_comps ts) (seen_else o)
  seen (Ast.repeat_stmt t c ss) = repeat t.position (seen_stmts ss)
  seen (Ast.label_stmt t l) = label t.position (name_of l)
  seen (Ast.extern_stmt t n ds) = extern (identifier_name n)
  seen (Ast.namespace_stmt t n ss) = namespace (spec_name n) (seen_stmts ss)
  seen s = other

  pub seen_comp : Ast.Comp → Comp
  seen_comp Ast.no_comp = comp 0 nil
  seen_comp (Ast.comp t ss) = comp t.position (seen_stmts ss)

  pub seen_else : Ast.Comp → Else
  seen_else Ast.no_comp = no_else
  seen_else (Ast.comp t ss) = else_then (comp t.position (seen_stmts ss))

  pub seen_comps : Ast.Comps → Comps
  seen_comps Ast.no_comps = no_more
  seen_comps (Ast.and_comp c cs) = also (seen_comp c) (seen_comps cs)

  pub seen_stmts : Ast.Stmts → Stmts
  seen_stmts Ast.no_stmts = nil
  seen_stmts (Ast.and_stmt s ss) = cons (seen s) (seen_stmts ss)

-- How the two passes end: an error of the first, or the outcome of the second.
pub data Front : Type 0 where
  refused : ℕ → Front
  asserts out_of_fuel : Front
  visited : Outcome → Front

unfoldable pub visit_parsed : Bool → Parsed (List Ast.Stmt) → Front
visit_parsed hsp_compat (Parsed.ok ss s) =
    visited (register_unit hsp_compat (seen_stmts (Ast.stmts ss)))
visit_parsed hsp_compat (Parsed.throws pos m) = refused pos
visit_parsed hsp_compat Parsed.asserts = asserts
visit_parsed hsp_compat Parsed.out_of_fuel = out_of_fuel

unfoldable pub parse_and_register : Bool → Stream → Front
parse_and_register hsp_compat s = visit_parsed hsp_compat (parse_trans_unit s)

-- The ends that the two passes may come to.
pub data Expected : Front → Type 0 where
  parser_error : {pos : ℕ} → Expected (refused pos)
  failed_assertion : Expected asserts
  semantics_error :
      {pos : ℕ} {m : SymbolRegister.Message} → Expected (visited (SymbolRegister.throws pos m))
  registered : {st : State} → IsRegistered st → Expected (visited (SymbolRegister.ok st))

visited-Expected :
    (hsp_compat : Bool) (ss : Stmts) → Expected (visited (register_unit hsp_compat ss))
visited-Expected hsp_compat ss = elim (register_unit_outcome hsp_compat ss) [
  | inl (pos, m, q) ↦ rw q semantics_error
  | inr (st, q, r) ↦ rw q (registered r)
]

visit_parsed-Expected :
    (hsp_compat : Bool) {n : ℕ} {o : Parsed (List Ast.Stmt)}
    → Ends n o
    → Expected (visit_parsed hsp_compat o)
unfolding visit_parsed
visit_parsed-Expected hsp_compat (done {a = ss} h) =
    visited-Expected hsp_compat (seen_stmts (Ast.stmts ss))
visit_parsed-Expected hsp_compat threw = parser_error
visit_parsed-Expected hsp_compat asserted = failed_assertion

-- Whatever the tokens are, parsing them and registering the program comes to an end: a ParserError, a
-- failed assertion of the parser, a SemanticsError, or scopes that are sound and come from those of the
-- new symbol table, with an empty stack; no null pointer and no empty stack is used by the second pass.
pub parse_and_register-Expected :
    (hsp_compat : Bool) (s : Stream) → Expected (parse_and_register hsp_compat s)
unfolding parse_and_register
parse_and_register-Expected hsp_compat s =
    visit_parsed-Expected hsp_compat (parse_trans_unit-Ends s)
