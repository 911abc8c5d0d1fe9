-- ===== src/Tests/SqlTests.antt =====
-- Runs of the guard on SQL (internal/sqlguard/sqlguard.go).
use Prim.Native.Char.{code as point}
use arbetern.Base.{
  ℕ, ◌≡◌, refl, ◌≢◌, ◌↔◌, Bool, true, false, List, [], ◌∷◌, ◌++◌, String, arith, any, All, ◌==◌,
  ◌&&◌, ◌||◌,
}
use arbetern.SqlGuard.{
  Token, start, newline, code, scan, flush_tok, flush_stmt, read, statements, Rules, allowed,
  forbidden, first_mutating, check, validate, upper,
}
use arbetern.SqlGuard.Verdicts.{IsReadOnly, is_statement, validate-allowed_iff}
use arbetern.SqlGuard.Words.{check_word}
use arbetern.SqlGuard.Spans.{end, plain, hidden_spans}

abbrev bytes : String → List ℕ
bytes String.[] = []
bytes (String.◌∷◌ c s) = point c ∷ bytes s

abbrev same : Token → Token → Bool
same [] [] = true
same (c ∷ s) (d ∷ t) = c == d && same s t
same _ _ = false

abbrev rules : Rules
rules = record {
  lead = λ t. same t (bytes "SELECT") || same t (bytes "WITH");
  mutating = λ t. same t (bytes "INSERT") || same t (bytes "DROP");
}

program : Unit {0}
unfolding scan flush_tok flush_stmt read statements first_mutating check validate upper
program = tt

hidden_words : validate rules (bytes "select 'drop; it''s' from t -- insert") ≡ allowed
unfolding program
hidden_words = refl

smuggled : validate rules (bytes "with a as (select 1) insert into t") ≡ forbidden (bytes "INSERT")
unfolding program
smuggled = refl

validate-allowed_iff_example : (validate rules (bytes "select 1") ≡ allowed) ↔ (
    All (IsReadOnly rules) (statements (bytes "select 1"))
    × (any is_statement (statements (bytes "select 1")) ≡ true))
validate-allowed_iff_example = validate-allowed_iff rules (bytes "select 1")

check_word_example :
    check rules false (scan code start (bytes "drop" ++ bytes " table t")) ≢ allowed
unfolding upper
check_word_example =
    check_word rules (bytes "drop") start (bytes " table t") (ground arith) refl refl (ground arith)

hidden_spans_example :
    (scan code start (b'\'' ∷ (bytes ";" ++ b'\'' ∷ b')' ∷ bytes "x"))
      ≡ scan code (flush_tok start) (b')' ∷ bytes "x"))
    × (scan code start (b'-' ∷ b'-' ∷ (bytes "drop" ++ newline ∷ bytes "x"))
        ≡ scan code (flush_tok start) (bytes "x"))
    × (scan code start (b'/' ∷ b'*' ∷ (bytes "a/*b" ++ b'*' ∷ b'/' ∷ bytes "x"))
        ≡ scan code (flush_tok start) (bytes "x"))
hidden_spans_example =
    hidden_spans b'\'' (bytes "drop") (bytes "a/*b") start b')' (bytes "x") refl (omega arith)
      (plain b';' (omega arith) refl end) (omega arith) (ground arith)
