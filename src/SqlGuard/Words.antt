-- ===== src/SqlGuard/Words.antt =====
-- No mutating word in code is missed by the guard of internal/sqlguard/sqlguard.go.
use arbetern.Base.{
  ℕ, ◌≡◌, refl, ◌≢◌, Bool, true, false, ◌||◌, List, [], ◌∷◌, ◌++◌, map, arith, any, All, Bool-cases,
  inl, inr,
}
use mathlib.Core.List.{append-nil, append_assoc}
use arbetern.SqlGuard.{
  Token, upper, is_letter, is_digit, Scan, flush_tok, flush_stmt, read, Mode, code, line, block,
  quoted, scan, Rules, allowed, check,
}
use arbetern.SqlGuard.Verdicts.{IsReadOnly, check_sound}

any-append {ℓ} :
    {A : Type ℓ} (p : A → Bool) (xs ys : List A) → any p (xs ++ ys) ≡ (any p xs || any p ys)
any-append p [] ys = refl
any-append p (x ∷ xs) ys = ground (arith, any-append p xs ys)

-- Whether the scan has met a mutating word so far.
abbrev met : Rules → Scan → Bool
met r s = any (any r.mutating) s.stmts || any r.mutating s.cur

module _ (r : Rules) where
  met-flush_tok : (s : Scan) → met r s ≡ true → met r (flush_tok s) ≡ true
  unfolding flush_tok
  met-flush_tok s h = ground (arith, any-append r.mutating s.cur (map upper s.tok ∷ []))

  met-flush_stmt :
      (s : Scan) → met r (flush_tok s) ≡ true → any (any r.mutating) (flush_stmt s).stmts ≡ true
  unfolding flush_stmt
  met-flush_stmt s h =
      let t = flush_tok s in ground (arith, any-append (any r.mutating) t.stmts (t.cur ∷ []))

  met-read : (c : ℕ) (s : Scan) → met r s ≡ true → met r (read c s) ≡ true
  unfolding read
  met-read c s h = ground (arith, met-flush_tok s, met-flush_stmt s)

  -- A mutating word that was met is never lost again.
  met-scan :
      (m : Mode) (s : Scan) (sql : List ℕ)
      → met r s ≡ true
      → any (any r.mutating) (scan m s sql) ≡ true
  unfolding scan
  met-scan m s [] h = met-flush_stmt s (met-flush_tok s h)
  met-scan code s (c ∷ []) h = ground (
    arith,
    met-flush_tok s,
    met-flush_stmt (flush_tok s) (met-flush_tok (flush_tok s) (met-flush_tok s h)),
    met-flush_stmt (read c s) (met-flush_tok (read c s) (met-read c s h)),
  )
  met-scan code s (c ∷ d ∷ rest) h =
      let f = met-flush_tok s h in
      ground (
        arith,
        met-scan line (flush_tok s) rest f,
        met-scan block (flush_tok s) rest f,
        met-scan (quoted c) (flush_tok s) (d ∷ rest) f,
        met-scan code (read c s) (d ∷ rest) (met-read c s h),
      )
  met-scan line s (c ∷ rest) h =
      ground (arith, met-scan code (flush_tok s) rest (met-flush_tok s h), met-scan line s rest h)
  met-scan block s (c ∷ []) h = met-flush_stmt s (met-flush_tok s h)
  met-scan block s (c ∷ d ∷ rest) h =
      ground (arith, met-scan code s rest h, met-scan block s (d ∷ rest) h)
  met-scan (quoted q) s (c ∷ []) h = met-flush_stmt s (met-flush_tok s h)
  met-scan (quoted q) s (c ∷ d ∷ rest) h = ground (
    arith,
    met-scan (quoted q) s rest h,
    met-scan code s (d ∷ rest) h,
    met-scan (quoted q) s (d ∷ rest) h,
  )

  not-All-false :
      (toks : List Token) → any r.mutating toks ≡ true → ¬ All (λ w. r.mutating w ≡ false) toks
  not-All-false [] h k = cc
  not-All-false (t ∷ toks) h k = not-All-false toks (ground (arith, k.0)) k.1

  not-IsReadOnly :
      (stmts : List (List Token)) → any (any r.mutating) stmts ≡ true → ¬ All (IsReadOnly r) stmts
  not-IsReadOnly [] h k = cc
  not-IsReadOnly ([] ∷ stmts) h k = not-IsReadOnly stmts h k.1
  not-IsReadOnly ((t ∷ toks) ∷ stmts) h k = elim (Bool-cases (any r.mutating (t ∷ toks))) [
    | inl e ↦ not-All-false (t ∷ toks) e k.0.1
    | inr e ↦ not-IsReadOnly stmts (ground arith) k.1
  ]

-- A byte that a token may hold once it has begun.
abbrev pub is_word_byte : ℕ → Bool
is_word_byte c = is_letter c || is_digit c

-- The text ends, or goes on with a byte that ends a token.
abbrev pub AtBoundary : List ℕ → Type 0
AtBoundary [] = Unit
AtBoundary (c ∷ rest) = is_word_byte c ≡ false

abbrev pub IsWord : Token → Type 0
IsWord [] = ⊥
IsWord (c ∷ w) = (is_letter c ≡ true) × All (λ d. is_word_byte d ≡ true) w

read-letter :
    (c : ℕ) (s : Scan) → is_letter c ≡ true → read c s ≡ record s { tok = s.tok ++ c ∷ [] }
unfolding read
read-letter c s h = ground arith

read-word_byte :
    (c x : ℕ) (v : Token) (s : Scan)
    → is_word_byte c ≡ true
    → s.tok ≡ x ∷ v
    → read c s ≡ record s { tok = s.tok ++ c ∷ [] }
unfolding read
read-word_byte c x v s h e = ground arith

scan-word_byte :
    (c : ℕ) (s : Scan) (rest : List ℕ)
    → is_word_byte c ≡ true
    → scan code s (c ∷ rest) ≡ scan code (read c s) rest
unfolding scan
scan-word_byte c s [] h = ground arith
scan-word_byte c s (d ∷ rest) h = ground arith

module _ (r : Rules) where
  met-token :
      (x : ℕ) (v : Token) (s : Scan)
      → s.tok ≡ x ∷ v
      → r.mutating (map upper s.tok) ≡ true
      → met r (flush_tok s) ≡ true
  unfolding flush_tok
  met-token x v s e h = ground (arith, any-append r.mutating s.cur (map upper s.tok ∷ []))

  met-read_boundary :
      (c : ℕ) (s : Scan)
      → is_word_byte c ≡ false
      → met r (flush_tok s) ≡ true
      → met r (read c s) ≡ true
  unfolding read
  met-read_boundary c s b h = ground (arith, met-flush_stmt r s h)

  scan-boundary :
      (s : Scan) (post : List ℕ)
      → AtBoundary post
      → met r (flush_tok s) ≡ true
      → any (any r.mutating) (scan code s post) ≡ true
  unfolding scan
  scan-boundary s [] b h = met-flush_stmt r s h
  scan-boundary s (c ∷ []) b h =
      let m = met-read_boundary c s b h in
      ground (
        arith,
        met-flush_stmt r (flush_tok s) (met-flush_tok r (flush_tok s) h),
        met-flush_stmt r (read c s) (met-flush_tok r (read c s) m),
      )
  scan-boundary s (c ∷ d ∷ rest) b h = ground (
    arith,
    met-scan r line (flush_tok s) rest h,
    met-scan r block (flush_tok s) rest h,
    met-scan r (quoted c) (flush_tok s) (d ∷ rest) h,
    met-scan r code (read c s) (d ∷ rest) (met-read_boundary c s b h),
  )

  -- The word's remaining bytes, once the token has begun.
  scan-word_rest :
      (w : Token) (x : ℕ) (v : Token) (s : Scan) (post : List ℕ)
      → All (λ d. is_word_byte d ≡ true) w
      → s.tok ≡ x ∷ v
      → r.mutating (map upper (s.tok ++ w)) ≡ true
      → AtBoundary post
      → any (any r.mutating) (scan code s (w ++ post)) ≡ true
  scan-word_rest [] x v s post a e h b =
      scan-boundary s post b (met-token x v s e (rw append-nil at h))
  scan-word_rest (c ∷ w) x v s post a e h b =
      let next : Scan = record s { tok = s.tok ++ c ∷ [] } in
      rw (scan-word_byte c s (w ++ post) a.0, read-word_byte c x v s a.0 e)
        (scan-word_rest w x (v ++ c ∷ []) next post a.1 (rw e) (rw append_assoc h) b)

  -- Wherever the scan stands in code between two words, whatever came before: a word of the text
  -- that is a mutating verb in upper case keeps the whole SQL from being let through, whatever
  -- follows it.
  pub check_word :
      (w : Token) (s : Scan) (post : List ℕ)
      → IsWord w
      → s.tok ≡ []
      → r.mutating (map upper w) ≡ true
      → AtBoundary post
      → check r false (scan code s (w ++ post)) ≢ allowed
  check_word [] s post a e h b k = absurd a
  check_word (c ∷ w) s post a e h b k =
      let next : Scan = record s { tok = c ∷ [] } in
      let found = scan-word_rest w c [] next post a.1 refl h b in
      not-IsReadOnly r (scan code s (c ∷ (w ++ post)))
        (rw (scan-word_byte c s (w ++ post) (ground arith), read-letter c s a.0, e) found)
        (check_sound r false (scan code s (c ∷ (w ++ post))) k).0
