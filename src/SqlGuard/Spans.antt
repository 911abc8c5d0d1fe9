-- ===== src/SqlGuard/Spans.antt =====
-- Comments, string literals and quoted identifiers hide their text from the guard of
-- internal/sqlguard/sqlguard.go, and hide nothing else.
use arbetern.Base.{ℕ, ◌≡◌, ◌≢◌, true, false, List, [], ◌∷◌, ◌++◌, arith, All, ◌==◌, ◌&&◌}
use arbetern.SqlGuard.{
  Scan, flush_tok, code, line, block, quoted, scan, is_quote, escapes, newline, backslash,
}

-- The bytes between an opening quote and the quote that closes it: a doubled quote, and after a
-- backslash in a string literal any byte, stand for themselves.
pub data QuotedText (q : ℕ) : List ℕ → Type 0 where
  end : QuotedText q []
  doubled : {s : List ℕ} → QuotedText q s → QuotedText q (q ∷ q ∷ s)
  escaped :
      (c : ℕ) {s : List ℕ} → (escapes q) ≡ true → QuotedText q s → QuotedText q (backslash ∷ c ∷ s)
  plain :
      (c : ℕ) {s : List ℕ}
      → c ≢ q
      → (escapes q && c == backslash) ≡ false
      → QuotedText q s
      → QuotedText q (c ∷ s)

scan-quoted :
    (q : ℕ) {body : List ℕ} (s : Scan) (d : ℕ) (post : List ℕ)
    → is_quote q ≡ true
    → d ≢ q
    → QuotedText q body
    → scan (quoted q) s (body ++ q ∷ d ∷ post) ≡ scan code s (d ∷ post)
unfolding scan
scan-quoted q s d post h n end = ground arith
scan-quoted q s d post h n (doubled {s = b} t) = ground (arith, scan-quoted q s d post h n t)
scan-quoted q s d post h n (escaped c {s = b} e t) = ground (arith, scan-quoted q s d post h n t)
scan-quoted q s d post h n (plain c {s = []} e k t) = ground (arith, scan-quoted q s d post h n t)
scan-quoted q s d post h n (plain c {s = b ∷ bs} e k t) =
    ground (arith, scan-quoted q s d post h n t)

pub scan-quoted_span :
    (q : ℕ) {body : List ℕ} (s : Scan) (d : ℕ) (post : List ℕ)
    → is_quote q ≡ true
    → d ≢ q
    → QuotedText q body
    → scan code s (q ∷ (body ++ q ∷ d ∷ post)) ≡ scan code (flush_tok s) (d ∷ post)
unfolding scan
scan-quoted_span q {body = []} s d post h n t =
    ground (arith, scan-quoted q (flush_tok s) d post h n t)
scan-quoted_span q {body = b ∷ bs} s d post h n t =
    ground (arith, scan-quoted q (flush_tok s) d post h n t)

flush_tok_idem : (s : Scan) → flush_tok (flush_tok s) ≡ flush_tok s
unfolding flush_tok
flush_tok_idem s = ground arith

scan-line :
    (body post : List ℕ) (s : Scan)
    → All (λ c. c ≢ newline) body
    → scan line s (body ++ newline ∷ post) ≡ scan code (flush_tok s) post
unfolding scan
scan-line [] post s h = ground arith
scan-line (c ∷ body) post s h = ground (arith, scan-line body post s h.1)

pub scan-line_comment :
    (body post : List ℕ) (s : Scan)
    → All (λ c. c ≢ newline) body
    → scan code s (b'-' ∷ b'-' ∷ (body ++ newline ∷ post)) ≡ scan code (flush_tok s) post
unfolding scan
scan-line_comment body post s h =
    ground (arith, scan-line body post (flush_tok s) h, flush_tok_idem s)

-- The text holds no `*/`.
abbrev pub NoClose : List ℕ → Type 0
NoClose [] = Unit
NoClose (c ∷ []) = Unit
NoClose (c ∷ d ∷ s) = ((c == b'*' && d == b'/') ≡ false) × NoClose (d ∷ s)

scan-block :
    (body post : List ℕ) (s : Scan)
    → NoClose body
    → scan block s (body ++ b'*' ∷ b'/' ∷ post) ≡ scan code s post
unfolding scan
scan-block [] post s h = ground arith
scan-block (c ∷ []) post s h = ground (arith, scan-block [] post s h)
scan-block (c ∷ d ∷ body) post s h = ground (arith, scan-block (d ∷ body) post s h.1)

pub scan-block_comment :
    (body post : List ℕ) (s : Scan)
    → NoClose body
    → scan code s (b'/' ∷ b'*' ∷ (body ++ b'*' ∷ b'/' ∷ post)) ≡ scan code (flush_tok s) post
unfolding scan
scan-block_comment body post s h = ground (arith, scan-block body post (flush_tok s) h)

-- A string literal or a quoted identifier, a line comment and a block comment end the word before
-- them, and the scan goes on behind the closing quote, the end of the line and the first `*/`,
-- whatever the text before that holds: semicolons, comment signs and verbs in it do not count. A
-- doubled quote is text, and a block comment does not nest.
pub hidden_spans :
    (q : ℕ) {quote : List ℕ} (body comment : List ℕ) (s : Scan) (d : ℕ) (post : List ℕ)
    → is_quote q ≡ true
    → d ≢ q
    → QuotedText q quote
    → All (λ c. c ≢ newline) body
    → NoClose comment
    → (scan code s (q ∷ (quote ++ q ∷ d ∷ post)) ≡ scan code (flush_tok s) (d ∷ post))
      × (scan code s (b'-' ∷ b'-' ∷ (body ++ newline ∷ post)) ≡ scan code (flush_tok s) post)
      × (scan code s (b'/' ∷ b'*' ∷ (comment ++ b'*' ∷ b'/' ∷ post)) ≡ scan code (flush_tok s) post)
hidden_spans q {quote = quote} body comment s d post h n t l b = (
  scan-quoted_span q s d post h n t,
  scan-line_comment body post s l,
  scan-block_comment comment post s b,
)
