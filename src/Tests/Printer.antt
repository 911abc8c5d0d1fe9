-- ===== src/Tests/Printer.antt =====
-- A codec for any record of texts and numbers, with its round trip: what the tests use for
-- `json.Marshal` and `json.Unmarshal`.
use Prim.Native.Char.{Char, code}
use arbetern.Base.{ℕ, zero, suc, ◌≡◌, refl, Option, none, some, String, ◌==◌, if◌then◌else◌}

-- Printers of values in front of a rest.
pub record Printer (A : Type 0) : Type 0 where
  pub print : A → String → String
  pub parse : String → Option (A × String)
  pub parse-print : (a : A) (rest : String) → parse (print a rest) ≡ some (a, rest)

-- A number in unary: `s` for each unit, and a dot.
unfoldable pub print_nat : ℕ → String → String
print_nat zero r = String.◌∷◌ "." r
print_nat (suc n) r = String.◌∷◌ "s" (print_nat n r)

abbrev one_more : Option (ℕ × String) → Option (ℕ × String)
one_more none = none
one_more (some (n, r)) = some (suc n, r)

unfoldable pub parse_nat : String → Option (ℕ × String)
parse_nat String.[] = none
parse_nat (String.◌∷◌ c r) =
    let rest = parse_nat r in if code c == b's' then one_more rest else some (0, r)

pub parse_nat-print_nat : (n : ℕ) (r : String) → parse_nat (print_nat n r) ≡ some (n, r)
unfolding parse_nat print_nat
parse_nat-print_nat zero r = refl
parse_nat-print_nat (suc n) r = rw (parse_nat-print_nat n r)

-- A text: `c` before each character, and a dot.
unfoldable pub print_text : String → String → String
print_text String.[] r = String.◌∷◌ "." r
print_text (String.◌∷◌ c s) r = String.◌∷◌ "c" (String.◌∷◌ c (print_text s r))

abbrev longer : Char → Option (String × String) → Option (String × String)
longer c none = none
longer c (some (s, r)) = some (String.◌∷◌ c s, r)

unfoldable pub parse_text : String → Option (String × String)
parse_text String.[] = none
parse_text (String.◌∷◌ m String.[]) = if code m == b'c' then none else some ("", "")
parse_text (String.◌∷◌ m (String.◌∷◌ c r)) =
    let rest = parse_text r in if code m == b'c' then longer c rest else some ("", String.◌∷◌ c r)

pub parse_text-print_text : (s r : String) → parse_text (print_text s r) ≡ some (s, r)
unfolding parse_text print_text
parse_text-print_text String.[] String.[] = refl
parse_text-print_text String.[] (String.◌∷◌ c r) = refl
parse_text-print_text (String.◌∷◌ c s) r = rw (parse_text-print_text s r)

pub nat_printer : Printer ℕ
nat_printer = record { print = print_nat; parse = parse_nat; parse-print = parse_nat-print_nat }

pub text_printer : Printer String
text_printer = record {
  print = print_text;
  parse = parse_text;
  parse-print = parse_text-print_text;
}
