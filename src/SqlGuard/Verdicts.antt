-- ===== src/SqlGuard/Verdicts.antt =====
-- What `Rules.Validate` lets through (internal/sqlguard/sqlguard.go).
use arbetern.Base.{ℕ, ◌≡◌, refl, ◌↔◌, Bool, true, false, ◌||◌, List, [], ◌∷◌, none, arith, any, All}
use arbetern.SqlGuard.{Token, statements, Rules, allowed, first_mutating, check, validate}

-- A statement that may run: its first word is a lead verb, and no word of it is a mutating verb.
abbrev pub IsReadOnly : Rules → List Token → Type 0
IsReadOnly r [] = Unit
IsReadOnly r (t ∷ toks) = (r.lead t ≡ true) × All (λ w. r.mutating w ≡ false) (t ∷ toks)

abbrev pub is_statement : List Token → Bool
is_statement [] = false
is_statement (t ∷ toks) = true

first_mutating-none :
    (r : Rules) (toks : List Token)
    → first_mutating r toks ≡ none
    → All (λ w. r.mutating w ≡ false) toks
unfolding first_mutating
first_mutating-none r [] h = tt
first_mutating-none r (t ∷ toks) h = ground (arith, first_mutating-none r toks)

none-first_mutating :
    (r : Rules) (toks : List Token)
    → All (λ w. r.mutating w ≡ false) toks
    → first_mutating r toks ≡ none
unfolding first_mutating
none-first_mutating r [] h = refl
none-first_mutating r (t ∷ toks) h = ground (arith, none-first_mutating r toks h.1)

pub check_sound :
    (r : Rules) (saw : Bool) (stmts : List (List Token))
    → check r saw stmts ≡ allowed
    → All (IsReadOnly r) stmts × ((saw || any is_statement stmts) ≡ true)
unfolding check
check_sound r saw [] h = ground arith
check_sound r saw ([] ∷ stmts) h = ground (arith, check_sound r saw stmts)
check_sound r saw ((t ∷ toks) ∷ stmts) h =
    ground (arith, first_mutating-none r (t ∷ toks), check_sound r true stmts)

check_complete :
    (r : Rules) (saw : Bool) (stmts : List (List Token))
    → All (IsReadOnly r) stmts
    → (saw || any is_statement stmts) ≡ true
    → check r saw stmts ≡ allowed
unfolding check
check_complete r saw [] h k = ground arith
check_complete r saw ([] ∷ stmts) h k = check_complete r saw stmts h.1 k
check_complete r saw ((t ∷ toks) ∷ stmts) h k =
    ground (arith, none-first_mutating r (t ∷ toks), check_complete r true stmts)

-- SQL is let through exactly when it holds a statement, and each of its statements begins with a
-- lead verb of the dialect and holds no mutating verb at all.
pub validate-allowed_iff :
    (r : Rules) (sql : List ℕ)
    → (validate r sql ≡ allowed)
      ↔ (All (IsReadOnly r) (statements sql) × (any is_statement (statements sql) ≡ true))
unfolding validate
validate-allowed_iff r sql =
    (check_sound r false (statements sql), λ h. check_complete r false (statements sql) h.0 h.1)
