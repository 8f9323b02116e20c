-- ===== src/Parser/Progress/Ready.antt =====
-- What is asked of the functions that are called again behind a token, and rules for their calls.
use peryan.Ast.{Stmt}
use peryan.Parser.Expressions.{Parsers, unless_empty}
use peryan.Parser.Progress.{
  Ends, done, threw, asserted, Keeps, EatsOn, Eats, Ends-mono, Ends-continue,
}
use peryan.Parser.Progress.Rules.{progress, Keeps-then, Keeps-require}
use peryan.Parser.Progress.Specs.{
  parse_identifier-Eats, parse_label-Eats, parse_type_spec-Eats, speculate_type_spec-Keeps,
}
use peryan.Parser.Stream.{
  Stream, P, Parsed, ok, on, other_than, ◌>>=◌, ◌>>◌, require, Test, Message, continue, throws,
  token_at, when, raise, pure,
}
use peryan.Prelude.{
  ℕ, suc, Bool, true, false, ◌<◌, ◌≤◌, ◌≡◌, List, [], ◌∷◌, refl, arith, not, length,
}
use peryan.Token.{TokenType}

-- A statement takes a token, or it is empty and no token is left.
pub data StatementEnds (n : ℕ) : Parsed (List Stmt) → Type 0 where
  some_stmts : {o : Parsed (List Stmt)} → Ends n o → StatementEnds n o
  no_more : {s : Stream} → length s.rest ≤ n → on TokenType.end s ≡ true → StatementEnds n (ok [] s)

pub record Statement (k : ℕ) (p : P (List Stmt)) : Type 0 where
  pub at : (s : Stream) → length s.rest ≤ k → StatementEnds (length s.rest) (p s)

-- The functions that are called again do well on fewer than `k` tokens.
pub record Ready (k : ℕ) (r : Parsers) : Type 0 where
  pub expr : {m : ℕ} (allow : Bool) → m < k → Eats m (r.expr allow)
  pub stmt : {m : ℕ} (top without : Bool) → m < k → Statement m (r.stmt top without)
  pub line :
      {m : ℕ} (top : Bool) → m < k → EatsOn (other_than (on TokenType.end)) m (r.stmt top true)

pub Ready-le : {m k : ℕ} {r : Parsers} → m ≤ k → Ready k r → Ready m r
Ready-le h good = record {
  expr = λ allow l. good.expr allow (omega arith);
  stmt = λ top without l. good.stmt top without (omega arith);
  line = λ top l. good.line top (omega arith);
}

pub Ready-mono : {m k : ℕ} {r : Parsers} → Ready k r → m < k → Ready m r
Ready-mono good h = Ready-le (omega arith) good

module _ {k : ℕ} {r : Parsers} (good : Ready k r) where
  pub Ready-expr : (m : ℕ) → m < k → (allow : Bool) → Eats m (r.expr allow)
  Ready-expr m h allow = good.expr allow h

  pub Ready-stmt : (m : ℕ) → m < k → (top without : Bool) → Statement m (r.stmt top without)
  Ready-stmt m h top without = good.stmt top without h

  pub Ready-line :
      (m : ℕ) → m < k → (top : Bool) → EatsOn (other_than (on TokenType.end)) m (r.stmt top true)
  Ready-line m h top = good.line top h

module _ {A : Type 0} (c : Test) (m : Message) (q : P A) where
  Ends-require : {n : ℕ} (s : Stream) → (c s ≡ true → Ends n (q s)) → Ends n ((require c m >> q) s)
  unfolding require ◌>>◌ when pure raise
  Ends-require {n = n} s h = by_test (c s) h
    where
      by_test :
          (b : Bool)
          → (b ≡ true → Ends n (q s))
          → Ends n (
              continue
                (elim b [ true ↦ ok tt s | false ↦ throws (token_at 0 s).position m ])
                λ _. q)
      by_test true h = h refl
      by_test false h = threw

  pub Eats-require : {k : ℕ} → EatsOn c k q → Eats k (require c m >> q)
  Eats-require h = record { at = λ s l. Ends-require s λ e. h.at s l e }

-- Where an empty statement is an error, what follows a statement has fewer tokens.
module _ {A : Type 0} {k : ℕ} {p : P (List Stmt)} (something : List Stmt → P A) where
  pub Eats-unless_empty :
      (nothing : P A)
      → Statement k p
      → Eats k nothing
      → ((m : ℕ) → m < k → (a : List Stmt) → Keeps m (something a))
      → Eats k (p >>= λ a. unless_empty a nothing (something a))
  unfolding ◌>>=◌
  Eats-unless_empty nothing hp hn hs = record { at = λ s l. by_end s l (hp.at s l) }
    where
      by_stmts :
          {n : ℕ} (a : List Stmt) (s : Stream)
          → length s.rest < n
          → n ≤ k
          → Ends n (unless_empty a nothing (something a) s)
      by_stmts [] s l l' = Ends-mono (omega arith) (hn.at s (omega arith))
      by_stmts (a ∷ rest) s l l' =
          Ends-mono (omega arith) ((hs (length s.rest) (omega arith) (a ∷ rest)).at s (omega arith))

      by_end :
          (s : Stream)
          → length s.rest ≤ k
          → {o : Parsed (List Stmt)} → StatementEnds (length s.rest) o
          → Ends (length s.rest) (continue o λ a. unless_empty a nothing (something a))
      by_end s l (some_stmts h) = Ends-continue h λ a s' l'. by_stmts a s' l' l
      by_end s l (no_more {s = s'} h e) = Ends-mono h (hn.at s' (omega arith))

  pub Eats-require_more :
      (m : Message)
      → Statement k p
      → ((m : ℕ) → m < k → (a : List Stmt) → Keeps m (something a))
      → Eats k (p >>= λ a. require (other_than (on TokenType.end)) m >> something a)
  unfolding ◌>>=◌ other_than
  Eats-require_more message hp hs = record { at = λ s l. by_end s l (hp.at s l) }
    where
      by_end :
          (s : Stream)
          → length s.rest ≤ k
          → {o : Parsed (List Stmt)} → StatementEnds (length s.rest) o
          → Ends
              (length s.rest)
              (continue o λ a. require (other_than (on TokenType.end)) message >> something a)
      by_end s l (some_stmts h) = Ends-continue h λ a s' l'. Ends-mono (omega arith) (
          (Keeps-then (Keeps-require _ message) (hs (length s'.rest) (omega arith) a)).at s'
            (omega arith))
      by_end s l (no_more {s = s'} h e) =
          Ends-require _ message _ s' λ q. absurd (ground (arith, q, e))

pub Statement-Keeps : {k : ℕ} {p : P (List Stmt)} → Statement k p → Keeps k p
Statement-Keeps {k = k} {p = p} h = record { at = λ s l. by_end s (h.at s l) }
  where
    by_end :
        (s : Stream) {o : Parsed (List Stmt)}
        → StatementEnds (length s.rest) o
        → Ends (suc (length s.rest)) o
    by_end s (some_stmts h) = Ends-mono (omega arith) h
    by_end s (no_more h e) = done (omega arith)

StatementEnds-continue :
    {A : Type 0} {m n : ℕ} {o : Parsed A} {f : P (List Stmt)}
    → Ends m o
    → ((s : Stream) → length s.rest < m → StatementEnds n (f s))
    → StatementEnds n (continue o λ _. f)
StatementEnds-continue (done {a = a} {s = s} h) k = k s h
StatementEnds-continue threw k = some_stmts threw
StatementEnds-continue asserted k = some_stmts asserted

StatementEnds-mono :
    {m n : ℕ} {o : Parsed (List Stmt)} → m ≤ n → StatementEnds m o → StatementEnds n o
StatementEnds-mono h (some_stmts e) = some_stmts (Ends-mono h e)
StatementEnds-mono h (no_more l e) = no_more (omega arith) e

module _ {k : ℕ} {q : P (List Stmt)} where
  pub Statement-then : {A : Type 0} {p : P A} → Keeps k p → Statement k q → Statement k (p >> q)
  unfolding ◌>>◌
  Statement-then hp hq = record {
    at = λ s l.
        StatementEnds-continue (hp.at s l)
          λ s' l'. StatementEnds-mono (omega arith) (hq.at s' (omega arith));
  }

  pub Statement-unless_end : Eats k q → Statement k (when (on TokenType.end) (pure []) q)
  unfolding when pure
  Statement-unless_end hq = record { at = λ s l. by_test s l (on TokenType.end s) refl }
    where
      by_test :
          (s : Stream)
          → length s.rest ≤ k
          → (b : Bool) → on TokenType.end s ≡ b
          → StatementEnds (length s.rest) (elim b [ true ↦ ok [] s | false ↦ q s ])
      by_test s l true e = no_more (omega arith) e
      by_test s l false e = some_stmts (hq.at s l)

  pub EatsOn-unless :
      (c : Test) (p : P (List Stmt)) → Eats k q → EatsOn (other_than c) k (when c p q)
  unfolding when other_than
  EatsOn-unless c p hq = record { at = λ s l e. by_test s l (c s) e }
    where
      by_test :
          (s : Stream)
          → length s.rest ≤ k
          → (b : Bool) → not b ≡ true
          → Ends (length s.rest) (elim b [ true ↦ p s | false ↦ q s ])
      by_test s l true e = absurd (ground (arith, e))
      by_test s l false e = hq.at s l

pub ruleset parsing = (
  Eats-unless_empty, Eats-require_more, Eats-require, progress, parse_identifier-Eats,
  parse_label-Eats, parse_type_spec-Eats, speculate_type_spec-Keeps,
)
