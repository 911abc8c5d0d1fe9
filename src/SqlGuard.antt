-- ===== src/SqlGuard.antt =====
-- The read-only guard on SQL of internal/sqlguard/sqlguard.go: the tokenizer `Statements` and
-- `Rules.Validate`. A text is the list of its bytes, and a token the list of its bytes.
pub mod Spans
pub mod Verdicts
pub mod Words
use arbetern.Base.{
  ℕ, ◌-◌, Bool, true, false, ◌&&◌, ◌||◌, not, List, [], ◌∷◌, ◌++◌, map, Option, none, some, ltb,
  leb, ◌==◌, if◌then◌else◌,
}

abbrev pub Token : Type 0
Token = List ℕ

-- strings.ToUpper on the bytes that a token may hold.
unfoldable pub upper : ℕ → ℕ
upper c = if leb b'a' c && leb c b'z' then c - 32 else c

abbrev pub is_letter : ℕ → Bool
is_letter c = (leb b'a' c && leb c b'z') || (leb b'A' c && leb c b'Z') || c == b'_'

abbrev pub is_digit : ℕ → Bool
is_digit c = leb b'0' c && leb c b'9'

abbrev pub newline : ℕ
newline = 10

abbrev pub backslash : ℕ
backslash = 92

-- The variables that `flushTok` and `flushStmt` close over.
pub record Scan : Type 0 where
  pub stmts : List (List Token)
  pub cur : List Token
  pub tok : Token

abbrev pub start : Scan
start = record { stmts = []; cur = []; tok = [] }

abbrev flush : Token → Scan → Scan
flush [] s = s
flush (c ∷ w) s = record s { cur = s.cur ++ map upper (c ∷ w) ∷ []; tok = [] }

unfoldable pub flush_tok : Scan → Scan
flush_tok s = flush s.tok s

unfoldable pub flush_stmt : Scan → Scan
unfolding flush_tok
flush_stmt s = let t = flush_tok s in record { stmts = t.stmts ++ t.cur ∷ []; cur = []; tok = [] }

abbrev is_empty : Token → Bool
is_empty [] = true
is_empty (c ∷ w) = false

-- The cases of the switch that read one byte outside of comments and quotes.
unfoldable pub read : ℕ → Scan → Scan
unfolding flush_tok flush_stmt
read c s =
    if c == b';'
    then flush_stmt s
    else if is_letter c
    then record s { tok = s.tok ++ c ∷ [] }
    else if is_digit c && not (is_empty s.tok)
    then record s { tok = s.tok ++ c ∷ [] }
    else flush_tok s

abbrev pub is_quote : ℕ → Bool
is_quote c = c == b'\'' || c == b'"' || c == b'`'

-- Backslash escapes count inside string literals, not inside quoted identifiers.
abbrev pub escapes : ℕ → Bool
escapes quote = quote == b'\'' || quote == b'"'

-- Where the loop of `Statements` stands: in code, or in one of its inner loops.
pub data Mode : Type 0 where
  code line block : Mode
  quoted : ℕ → Mode

-- The loops of `Statements` over the bytes from `sql[i]` on. A `let` holds each branch back.
unfoldable pub scan : Mode → Scan → List ℕ → List (List Token)
scan m s [] = (flush_stmt s).stmts
scan code s (c ∷ []) = (flush_stmt (if is_quote c then flush_tok s else read c s)).stmts
scan code s (c ∷ d ∷ rest) =
    let in_line = scan line (flush_tok s) rest in
    let in_block = scan block (flush_tok s) rest in
    let in_quotes = scan (quoted c) (flush_tok s) (d ∷ rest) in
    let in_code = scan code (read c s) (d ∷ rest) in
    if c == b'-' && d == b'-'
    then in_line
    else if c == b'/' && d == b'*'
    then in_block
    else if is_quote c
    then in_quotes
    else in_code
-- The newline itself goes through the default case, which flushes an empty token.
scan line s (c ∷ rest) =
    let ended = scan code (flush_tok s) rest in
    let longer = scan line s rest in if c == newline then ended else longer
scan block s (c ∷ []) = (flush_stmt s).stmts
scan block s (c ∷ d ∷ rest) =
    let ended = scan code s rest in
    let longer = scan block s (d ∷ rest) in if c == b'*' && d == b'/' then ended else longer
scan (quoted q) s (c ∷ []) = (flush_stmt s).stmts
scan (quoted q) s (c ∷ d ∷ rest) =
    let skip_two = scan (quoted q) s rest in
    let ended = scan code s (d ∷ rest) in
    let longer = scan (quoted q) s (d ∷ rest) in
    if escapes q && c == backslash
    then skip_two
    else if c == q
    then (if d == q then skip_two else ended)
    else longer

unfoldable pub statements : List ℕ → List (List Token)
statements sql = scan code start sql

-- One dialect's vocabulary. The maps are functions; the descriptions that only name the sets in
-- an error's text are left out.
pub record Rules : Type 0 where
  pub lead : Token → Bool
  pub mutating : Token → Bool

pub data Verdict : Type 0 where
  allowed : Verdict
  not_allowed : Token → Verdict
  forbidden : Token → Verdict
  no_statement : Verdict

-- The first mutating token of a statement.
unfoldable pub first_mutating : Rules → List Token → Option Token
first_mutating r [] = none
first_mutating r (t ∷ toks) = if r.mutating t then some t else first_mutating r toks

-- The loop over the statements, with `sawStatement`.
unfoldable pub check : Rules → Bool → List (List Token) → Verdict
check r saw [] = if saw then allowed else no_statement
check r saw ([] ∷ stmts) = check r saw stmts
check r saw ((t ∷ toks) ∷ stmts) =
    if not (r.lead t)
    then not_allowed t
    else elim (first_mutating r (t ∷ toks)) [ some w ↦ forbidden w | none ↦ check r true stmts ]

unfoldable pub validate : Rules → List ℕ → Verdict
validate r sql = check r false (statements sql)
