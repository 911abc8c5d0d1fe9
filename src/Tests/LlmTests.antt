-- ===== src/Tests/LlmTests.antt =====
-- Runs of the circuit breaker (llm/breaker.go).
use arbetern.Base.{◌+◌, ◌*◌, ◌≡◌, refl, true, false, [], ◌∷◌, arith, All}
use arbetern.Base.Duration.{second}
use arbetern.Llm.Breaker.{Breaker, fresh, allow, ask, failed, step, run, answers}
use arbetern.Llm.Breaker.Laws.{IsValid, run-IsValid, one_probe}

fresh-IsValid : IsValid fresh
fresh-IsValid = ground arith

run-IsValid_example :
    IsValid (run (failed 5 true ∷ ask 40_000_000_000 ∷ failed 41_000_000_000 false ∷ []) fresh)
run-IsValid_example =
    run-IsValid (failed 5 true ∷ ask 40_000_000_000 ∷ failed 41_000_000_000 false ∷ [])
      fresh-IsValid

abbrev open_breaker : Breaker
open_breaker = record { failures = 3; cooldown = 30 * second; open_until = 100; probing = false }

open-IsValid : IsValid open_breaker
open-IsValid = ground arith

one_probe_example :
    ((allow 100 open_breaker).1 ≡ true)
    × All (λ a. a ≡ false) (answers (101 ∷ 500 ∷ []) (allow 100 open_breaker).0)
one_probe_example = one_probe open_breaker 100 (101 ∷ 500 ∷ []) (omega arith) (omega arith) refl

-- Two refused connections are tolerated, a third opens the breaker for 30 seconds.
three_failures :
    run (failed 1 false ∷ failed 2 false ∷ failed 3 false ∷ []) fresh
    ≡ record { failures = 3; cooldown = 30 * second; open_until = 3 + 30 * second; probing = false }
unfolding run step
three_failures = refl
